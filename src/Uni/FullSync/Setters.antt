-- ===== src/Uni/FullSync/Setters.antt =====
-- FullSync (movable): the sends that fill a slot in place do what a send of the filled value does.
use reactive_mutiny.Common.{
  ℕ, ◌+◌, ◌%◌, ◌^◌, ◌<◌, ◌≡◌, refl, Bool-cases, inl, inr, Option, none, some, arith, get_or, set,
  ltb, ltb→lt, leb-add_one, sub_u32, add_u32, IsRingSize, ring_size_bounds, Run, ◌>>=◌,
}
use reactive_mutiny.FullSync.Move.Refine.{IsReady, publish_free}
use reactive_mutiny.FullSync.Move.Retry.{next_slot, publish_last}
use reactive_mutiny.FullSync.Move.InPlace.{room_under, leak_slot_last, publish_leaked_internal_lem}
use reactive_mutiny.Streams.{Wakers, Sort}
use reactive_mutiny.Channels.{Sent, ok, transient}
use reactive_mutiny.Uni.FullSync.{FullSync, send, send_with, send_with_async, wake_for}

-- The same answer, with another input to hand back.
abbrev pub with_input {ℓ} : {I J : Type ℓ} → J → Sent I → Sent J
with_input j ok = ok
with_input j (transient i) = transient j

module _ {ℓ} {A : Type ℓ} (d : A) (BUFFER_SIZE MAX_STREAMS : ℕ) (sort : Sort) (w : Wakers) where
  -- An answer with another input to hand back.
  abbrev pub handing_back :
      {I J : Type ℓ} → J → Option (Sent I × FullSync A w) → Option (Sent J × FullSync A w)
  handing_back j none = none
  handing_back j (some (answer, s)) = some (with_input j answer, s)

  module _ (sz : IsRingSize BUFFER_SIZE) where
    -- `send_with` does to the channel what `send` does with the value that the setter makes of the next
    -- slot's old content, wakes the same stream, and hands the setter back in place of the value.
    pub full_sync_send_with-send :
        (setter : A → A) (s : FullSync A w)
        → IsReady BUFFER_SIZE s.channel
        → send_with d BUFFER_SIZE MAX_STREAMS sort w setter s
          ≡ handing_back setter
              (send d BUFFER_SIZE MAX_STREAMS sort w (setter (next_slot d BUFFER_SIZE s.channel)) s)
    unfolding send_with send
    full_sync_send_with-send setter s v =
        rw
          (
            ◌>>=◌,
            publish_last d BUFFER_SIZE setter s.channel v.free,
            publish_free d BUFFER_SIZE sz (setter (next_slot d BUFFER_SIZE s.channel)) s.channel
                v.free,
          )
          (elim (Bool-cases (ltb (sub_u32 s.channel.tail s.channel.head) (BUFFER_SIZE % 2 ^ 32))) [
            | inl room ↦ rw (room, room_under d BUFFER_SIZE s.channel sz room) refl
            | inr full ↦ rw full refl
          ])

    -- The future that writes the slot with a setter, while nobody else acts.
    abbrev pub fill : (A → A) → ℕ → Run (FullSync A w) (Unit {0})
    fill setter index s = some (
      tt,
      record s {
        channel = record (s.channel) {
          buffer = set s.channel.buffer index (setter (get_or s.channel.buffer index d));
        };
      },
    )

    -- So does `send_with_async`, where its future fills the slot with the setter.
    pub full_sync_send_with_async-send :
        (setter : A → A) (s : FullSync A w)
        → IsReady BUFFER_SIZE s.channel
        → send_with_async d BUFFER_SIZE MAX_STREAMS sort w (fill setter) s
          ≡ handing_back
              (fill setter)
              (send d BUFFER_SIZE MAX_STREAMS sort w (setter (next_slot d BUFFER_SIZE s.channel)) s)
    unfolding send_with_async send wake_for
    full_sync_send_with_async-send setter s v =
        rw
          (
            ◌>>=◌,
            leak_slot_last d BUFFER_SIZE s.channel v,
            publish_free d BUFFER_SIZE sz (setter (next_slot d BUFFER_SIZE s.channel)) s.channel
                v.free,
          )
          (elim (Bool-cases (ltb (sub_u32 s.channel.tail s.channel.head) (BUFFER_SIZE % 2 ^ 32))) [
            | inl room ↦
                rw (room, room_under d BUFFER_SIZE s.channel sz room)
                  (rw
                    (
                      wake_for,
                      publish_leaked_internal_lem d BUFFER_SIZE,
                      next_word (ltb→lt _ _ room),
                      leb-add_one (sub_u32 s.channel.tail s.channel.head) (MAX_STREAMS % 2 ^ 32),
                      last_word (ltb→lt _ _ room),
                    )
                    (elim (Bool-cases
                      (ltb (sub_u32 s.channel.tail s.channel.head) (MAX_STREAMS % 2 ^ 32))) [
                        | inl few ↦ rw few refl
                        | inr many ↦ rw many refl
                      ]))
            | inr full ↦ rw full refl
          ])
      where
        n : ℕ
        n = sub_u32 s.channel.tail s.channel.head

        next_word : n < BUFFER_SIZE % 2 ^ 32 → add_u32 n 1 ≡ n + 1
        next_word lt = omega (arith, ring_size_bounds sz)

        last_word : n < BUFFER_SIZE % 2 ^ 32 → sub_u32 (n + 1) 1 ≡ n
        last_word lt = omega (arith, ring_size_bounds sz)
