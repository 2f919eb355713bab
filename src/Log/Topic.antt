-- ===== src/Log/Topic.antt =====
-- MMapMeta against the list of the elements published so far, oldest first.
use mathlib.Core.List.{append_assoc, append-nil}
use reactive_mutiny.Common.{
  suc, ◌+◌, ◌%◌, ◌^◌, ◌<◌, ◌≤◌, ◌≡◌, refl, sym, ap, ◌∙◌, Option, none, some, List, [], ◌∷◌, ◌++◌,
  arith, length, length-append, length-set, take, take-set-suc, length-take, get_or, set, lt→ltb,
  ◌>>=◌, non_zero_u32,
}
use reactive_mutiny.Log.{
  MMapMeta, new, reserve, write, try_commit, commit, publish, publish_movable,
}

module _ {ℓ} {A : Type ℓ} where
  abbrev pub contents : MMapMeta A → List A
  contents t = take t.consumer_tail t.buffer

  -- No publication is under way, and the buffer is what the topic says it is.
  pub record IsQuiet (t : MMapMeta A) : Type 0 where
    pub settled : t.publisher_tail ≡ t.consumer_tail
    pub within : t.consumer_tail ≤ length t.buffer
    pub sized : t.slice_length ≡ length t.buffer
    pub word : length t.buffer < 2 ^ 64

  pub length-contents : (t : MMapMeta A) → IsQuiet t → length (contents t) ≡ t.consumer_tail
  length-contents t v = length-take t.consumer_tail t.buffer v.within

  module _ (d : A) where
    pub new-IsQuiet :
        (slots : List A)
        → length slots < 2 ^ 64
        → IsQuiet (new d slots) × (contents (new d slots) ≡ [])
    unfolding new
    new-IsQuiet slots lt =
        (record { settled = refl; within = omega arith; sized = omega arith; word = lt }, refl)

    abbrev published : (A → A) → MMapMeta A → MMapMeta A
    published setter t = record t {
      publisher_tail = t.consumer_tail + 1;
      consumer_tail = t.consumer_tail + 1;
      buffer = set t.buffer t.consumer_tail (setter (get_or t.buffer t.consumer_tail d));
    }

    publish_step :
        (setter : A → A) (t : MMapMeta A)
        → IsQuiet t
        → t.consumer_tail < length t.buffer
        → publish d setter t
          ≡ some ((non_zero_u32 ((t.consumer_tail + 1) % 2 ^ 32), none), published setter t)
    unfolding publish reserve write commit try_commit
    publish_step setter t v lt =
        rw (v.settled, ◌>>=◌, write, lt→ltb _ _ lt, commit, try_commit)
          (ground (arith, v.word, v.within))

    -- While there is room in the buffer, `publish` appends what the setter makes of the next slot, and
    -- answers the number of elements as a 32-bit word: nothing once the word is zero.
    pub publish-appends :
        (setter : A → A) (t : MMapMeta A)
        → IsQuiet t
        → length (contents t) < length t.buffer
        → (t' : MMapMeta A) × (publish d setter t
            ≡ some ((non_zero_u32 ((length (contents t) + 1) % 2 ^ 32), none), t'))
          × (contents t' ≡ contents t ++ (setter (get_or t.buffer t.consumer_tail d) ∷ []))
          × (t'.buffer ≡ set t.buffer t.consumer_tail (setter (get_or t.buffer t.consumer_tail d)))
          × IsQuiet t'
    publish-appends setter t v lt = (
      published setter t,
      rw (length-contents t v) (publish_step setter t v here),
      ap (λ n. take n (published setter t).buffer) next
          ∙ take-set-suc t.consumer_tail t.buffer (setter (get_or t.buffer t.consumer_tail d)) here,
      refl,
      record {
        settled = refl;
        within = omega (arith, same, here);
        sized = v.sized ∙ sym same;
        word = rw same v.word;
      },
    )
      where
        here : t.consumer_tail < length t.buffer
        here = omega (arith, length-contents t v)

        next : t.consumer_tail + 1 ≡ suc t.consumer_tail
        next = omega arith

        same : length (published setter t).buffer ≡ length t.buffer
        same = length-set t.buffer t.consumer_tail (setter (get_or t.buffer t.consumer_tail d))

    -- `publish_movable` does the same with an element that replaces the slot's.
    pub publish_movable-appends :
        (x : A) (t : MMapMeta A)
        → IsQuiet t
        → length (contents t) < length t.buffer
        → (t' : MMapMeta A) × (publish_movable d x t
            ≡ some ((non_zero_u32 ((length (contents t) + 1) % 2 ^ 32), none), t'))
          × (contents t' ≡ contents t ++ (x ∷ []))
          × (t'.buffer ≡ set t.buffer t.consumer_tail x)
          × IsQuiet t'
    unfolding publish_movable
    publish_movable-appends x t v lt =
        let (t', e, now, same, v') = publish-appends (λ _. x) t v lt in
        (t', rw (e, ◌>>=◌) refl, now, same, v')

    pub publish_all : List A → MMapMeta A → Option (MMapMeta A)
    publish_all [] t = some t
    publish_all (x ∷ xs) t = elim (publish_movable d x t) [
      | none ↦ none
      | some (_, t') ↦ publish_all xs t'
    ]

    pub publish_all-appends :
        (xs : List A) (t : MMapMeta A)
        → IsQuiet t
        → length (contents t) + length xs ≤ length t.buffer
        → (t' : MMapMeta A) × (publish_all xs t ≡ some t')
          × (contents t' ≡ contents t ++ xs)
          × IsQuiet t'
    unfolding publish_all
    publish_all-appends [] t v room = (t, refl, sym (append-nil (contents t)), v)
    publish_all-appends (x ∷ xs) t v room =
        let (t1, e, now, same, v1) = publish_movable-appends x t v (omega arith) in
        let (t2, e', now', v2) = publish_all-appends xs t1 v1 (
          omega (
            arith,
            room,
            ap length now,
            length-append (contents t) (x ∷ []),
            ap length same,
            length-set t.buffer t.consumer_tail x,
          )) in
        (
          t2,
          rw (e, publish_all) e',
          now' ∙ ap (λ l. l ++ xs) now ∙ append_assoc (contents t) (x ∷ []) xs,
          v2,
        )
