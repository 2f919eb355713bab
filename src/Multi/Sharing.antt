-- ===== src/Multi/Sharing.antt =====
-- Sending one slot of an allocator to each used stream, as the channels of src/multi/channels/ogre_arc
-- do: every queue gets a counted handle to it. A panic has the result `none`.
pub mod Counting
use reactive_mutiny.Common.{
  ℕ, suc, zero, ◌%◌, ◌^◌, Bool, true, false, Option, none, some, List, [], ◌∷◌, length, get_or, set,
  ltb, leb, ◌==◌, if◌then◌else◌, Run, ◌>>=◌,
}
use reactive_mutiny.Container.{MoveContainer}
use reactive_mutiny.Alloc.Pool
use reactive_mutiny.Alloc.Pool.{Pool}
use reactive_mutiny.Alloc.Arc
use reactive_mutiny.Alloc.Arc.{Arcs}
use reactive_mutiny.Streams
use reactive_mutiny.Streams.{u32_max, Wakers, Sort}
use reactive_mutiny.Channels.{Sent, ok, transient, Channel}
use reactive_mutiny.Multi.Fanout
use reactive_mutiny.Multi.Fanout.{Fanout}

-- `c` holds the allocator's free ids, and `q` is the queue of handles that each stream has; a stream is
-- woken for a length up to `wake_up_to`.
module _ {D : Type 0} (c q : MoveContainer ℕ) (pool_size : ℕ) (junk : D) (needs_drop : Bool)
    (wake_up_to MAX_STREAMS : ℕ) (sort : Sort) (w : Wakers) where
  pub record Shared : Type 0 where
    pub dispatchers : Fanout q wake_up_to MAX_STREAMS sort w
    pub arcs : Arcs D c

  pub new : Option Shared
  new = elim (Fanout.new q wake_up_to MAX_STREAMS sort w) [
    | none ↦ none
    | some f ↦ elim (Pool.new c pool_size junk needs_drop) [
      | none ↦ none
      | some p ↦
          some (record { dispatchers = f; arcs = record { allocator = p; heap = []; fresh = 0 } })
    ]
  ]

  -- Calls of the dispatchers and of the handles, through the channel's state.
  unfoldable pub on_dispatchers :
      {X : Type 0} → Run (Fanout q wake_up_to MAX_STREAMS sort w) X → Run Shared X
  on_dispatchers m s = elim (m s.dispatchers) [
    | none ↦ none
    | some (x, f) ↦ some (x, record s { dispatchers = f })
  ]

  pub on_arcs : {X : Type 0} → Run (Arcs D c) X → Run Shared X
  on_arcs m s = elim (m s.arcs) [ none ↦ none | some (x, a) ↦ some (x, record s { arcs = a }) ]

  -- A full queue is a panic.
  pub dispatch_to : ℕ → ℕ → Run (Fanout q wake_up_to MAX_STREAMS sort w) (Unit {0})
  dispatch_to stream_id arc f =
      if ltb stream_id (length f.channel)
      then elim (q.publish_movable arc (get_or f.channel stream_id q.new)) [
        | none ↦ none
        | some (answer, queue) ↦
            let stored = record f { channel = set f.channel stream_id queue } in
            elim answer.0 [
              | some len_after ↦ some (
                tt,
                (if leb len_after wake_up_to
                    then record stored {
                      streams_manager =
                          Streams.wake_stream MAX_STREAMS sort w stream_id f.streams_manager;
                    }
                    else stored),
              )
              | none ↦ none
            ]
      ]
      else none

  -- The loop over the first `n` used streams; reading past the list is no step.
  pub dispatch : ℕ → List ℕ → ℕ → Run (Fanout q wake_up_to MAX_STREAMS sort w) (Unit {0})
  unfolding dispatch_to
  dispatch zero ids arc f = some (tt, f)
  dispatch (suc n) [] arc f = none
  dispatch (suc n) (stream_id ∷ ids) arc f =
      let rest = (dispatch_to stream_id arc >>= λ _. dispatch n ids arc) f in
      let next = dispatch n ids arc f in if stream_id == u32_max then next else rest

  pub send_derived : ℕ → Run Shared Bool
  unfolding on_arcs on_dispatchers dispatch
  send_derived ogre_arc s =
      let manager = s.dispatchers.streams_manager in
      let running = Streams.running_streams_count MAX_STREAMS sort w manager in
      (on_arcs (Arc.increment_references c pool_size junk needs_drop ogre_arc running) >>= λ _.
      on_dispatchers
        (dispatch running manager.used_streams (Arc.raw_copy c pool_size junk needs_drop ogre_arc))
      >>= λ _ s'. some (true, s'))
        s

  -- The write to the slot of a handle.
  abbrev write : ℕ → D → Shared → Shared
  write slot item s = record s {
    arcs = record (s.arcs) {
      allocator = record (s.arcs.allocator) { pool = set s.arcs.allocator.pool slot item };
    };
  }

  -- The handle that `send` made is dropped when it returns.
  pub send : D → Run Shared (Sent D)
  unfolding send_derived on_arcs
  send item = do
    made ← on_arcs (Arc.new c pool_size junk needs_drop)
    elim made [
      | none ↦ λ s. some (transient item, s)
      | some (ogre_arc, slot) ↦ λ s.
          (send_derived ogre_arc >>= λ _.
          on_arcs (Arc.drop c pool_size junk needs_drop ogre_arc) >>= λ _ s'. some (ok, s'))
            (write slot item s)
    ]

  abbrev pub send_with : (D → D) → Run Shared (Sent (D → D))
  unfolding send_derived on_arcs
  send_with setter = do
    made ← on_arcs (Arc.new c pool_size junk needs_drop)
    elim made [
      | none ↦ λ s. some (transient setter, s)
      | some (ogre_arc, slot) ↦ λ s.
          (send_derived ogre_arc >>= λ _.
          on_arcs (Arc.drop c pool_size junk needs_drop ogre_arc) >>= λ _ s'. some (ok, s'))
            (write slot (setter (get_or s.arcs.allocator.pool slot junk)) s)
    ]

  -- The future that `setter` makes of the slot, and that is awaited, is a computation on the state.
  abbrev pub send_with_async :
      (ℕ → Run Shared (Unit {0})) → Run Shared (Sent (ℕ → Run Shared (Unit {0})))
  unfolding send_derived on_arcs
  send_with_async setter = do
    made ← on_arcs (Arc.new c pool_size junk needs_drop)
    elim made [
      | none ↦ λ s. some (transient setter, s)
      | some (ogre_arc, slot) ↦ setter slot >>= λ _. send_derived ogre_arc >>= λ _.
          on_arcs (Arc.drop c pool_size junk needs_drop ogre_arc) >>= λ _ s'. some (ok, s')
    ]

  -- An allocator's method, through the channel's state.
  pub on_allocator : {X : Type 0} → Run (Pool D c) X → Run Shared X
  on_allocator m s = elim (m s.arcs.allocator) [
    | none ↦ none
    | some (x, p) ↦ some (x, record s { arcs = record (s.arcs) { allocator = p } })
  ]

  abbrev pub reserve_slot : Run Shared (Option ℕ)
  unfolding on_allocator
  reserve_slot = do
    slot ← on_allocator (Pool.alloc_ref c pool_size junk needs_drop)
    λ s. some ((elim slot [ none ↦ none | some (slot_ref, slot_id) ↦ some slot_ref ]), s)

  -- The handle is dropped at the end.
  abbrev pub try_send_reserved : ℕ → Run Shared Bool
  unfolding send_derived on_arcs
  try_send_reserved reserved_slot s =
      let (ogre_arc, arcs) =
        Arc.from_allocated c pool_size junk needs_drop
          (Pool.id_from_ref c pool_size junk needs_drop reserved_slot) s.arcs in
      (send_derived ogre_arc >>= λ _.
      on_arcs (Arc.drop c pool_size junk needs_drop ogre_arc) >>= λ _ s'. some (true, s'))
        (record s { arcs = arcs })

  abbrev pub try_cancel_slot_reserve : ℕ → Run Shared Bool
  unfolding on_allocator
  try_cancel_slot_reserve reserved_slot = do
    _ ← on_allocator (Pool.dealloc_ref c pool_size junk needs_drop reserved_slot)
    λ s. some (true, s)

  abbrev pub consume : ℕ → Run Shared (Option ℕ)
  unfolding on_dispatchers
  consume stream_id = on_dispatchers (Fanout.consume q wake_up_to MAX_STREAMS sort w stream_id)

  abbrev pub pending_items_count : Shared → ℕ
  pending_items_count s = Fanout.pending_items_count q wake_up_to MAX_STREAMS sort w s.dispatchers
