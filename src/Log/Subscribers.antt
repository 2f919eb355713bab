-- ===== src/Log/Subscribers.antt =====
-- What the subscribers of an MMapMeta see of the elements published.
pub mod Split
use reactive_mutiny.Common.{
  Run, ℕ, zero, suc, ◌+◌, ◌%◌, ◌^◌, ◌<◌, ◌≤◌, ◌≡◌, refl, sym, ap, ◌∙◌, Bool-cases, inl, inr, Option,
  none, some, List, [], ◌∷◌, ◌++◌, arith, length, length-take, length-drop, take, drop, get_or,
  drop-get_or, drop-nil, get_or-take, lt→not_leb, le→leb, not_ltb→le, ltb→lt, true, false, ◌-◌, ltb,
  leb, lt→ltb, if◌then◌else◌,
}
use reactive_mutiny.Log.{
  MMapMeta, DynamicSubscriber, FixedSubscriber, Consumed, empty, element, consume_before,
  consume_dynamic, consume_fixed, subscribe_to_separated_old_and_new_events,
  subscribe_to_joined_old_and_new_events, subscribe_to_new_events_only,
}
use reactive_mutiny.Log.Topic.{contents, IsQuiet, length-contents, publish_all, publish_all-appends}

-- What a subscriber with these elements left answers, and what it has left then.
unfoldable pub next {ℓ} : {A : Type ℓ} → List A → Consumed A × List A
next [] = (empty, [])
next (x ∷ q) = (element x ((length q + 1) % 2 ^ 32), q)

module _ {ℓ} {A : Type ℓ} (d : A) where
  consume_before-next :
      (tail head : ℕ) (t : MMapMeta A)
      → head ≤ tail
      → tail ≤ length t.buffer
      → length t.buffer < 2 ^ 64
      → (head' : ℕ) × (consume_before d tail head t
          ≡ some ((next (drop head (take tail t.buffer))).0, head'))
        × (drop head' (take tail t.buffer) ≡ (next (drop head (take tail t.buffer))).1)
        × (head' ≤ tail)
  unfolding consume_before next
  consume_before-next tail head t le within word = elim (Bool-cases (ltb head tail)) [
    | inl more ↦
        let lt = ltb→lt head tail more in
        (
          head + 1,
          rw
              (
                front lt,
                more_left lt,
                next,
                lt→not_leb tail head lt,
                lt→ltb head (length t.buffer) (omega arith),
              )
              (ap (λ n. some (element (get_or t.buffer head d) ((tail - head) % 2 ^ 32), n))
                (omega arith)),
          rw (front lt, next)
              (ap (λ n. drop n (take tail t.buffer))
                (let e : head + 1 ≡ suc head = omega arith in e)),
          ground arith,
        )
    | inr over ↦ (
      head,
      rw (drained over, le→leb tail head (not_ltb→le head tail over), next) refl,
      rw (drained over, next) refl,
      le,
    )
  ]
    where
      size : length (take tail t.buffer) ≡ tail
      size = length-take tail t.buffer within

      front :
          head < tail
          → drop head (take tail t.buffer)
            ≡ get_or t.buffer head d ∷ drop (suc head) (take tail t.buffer)
      front lt =
          drop-get_or head (take tail t.buffer) d (omega (arith, size))
          ∙ ap (λ x. x ∷ drop (suc head) (take tail t.buffer)) (get_or-take tail head t.buffer d lt)

      more_left : head < tail → length (drop (suc head) (take tail t.buffer)) + 1 ≡ tail - head
      more_left lt = omega (arith, size, length-drop (suc head) (take tail t.buffer))

      drained : ltb head tail ≡ false → drop head (take tail t.buffer) ≡ []
      drained over = drop-nil head (take tail t.buffer) (
          let e : head ≡ length (take tail t.buffer) =
            omega (arith, size, not_ltb→le head tail over) in
          e)

  -- The elements that a subscriber has not answered yet.
  abbrev pub to_come : MMapMeta A → DynamicSubscriber → List A
  to_come t s = drop s.head (contents t)

  abbrev pub old_ones : MMapMeta A → FixedSubscriber → List A
  old_ones t s = drop s.head (take s.fixed_tail t.buffer)

  -- A subscriber of new events answers the oldest element that it has not answered, with the number
  -- left as a 32-bit word, that element included; `empty` only where it has answered all of them.
  pub consume_dynamic-next :
      (t : MMapMeta A) (s : DynamicSubscriber)
      → IsQuiet t
      → s.head ≤ t.consumer_tail
      → (s' : DynamicSubscriber) × (consume_dynamic d t s ≡ some ((next (to_come t s)).0, s'))
        × (to_come t s' ≡ (next (to_come t s)).1)
        × (s'.head ≤ t.consumer_tail)
  unfolding consume_dynamic
  consume_dynamic-next t s v le =
      let (head, e, left, le') = consume_before-next t.consumer_tail s.head t le v.within v.word in
      (record { head = head }, rw (e, consume_dynamic) refl, left, le')

  -- A subscriber of old events does the same with the elements that were there when it was made.
  pub consume_fixed-next :
      (t : MMapMeta A) (s : FixedSubscriber)
      → IsQuiet t
      → s.head ≤ s.fixed_tail
      → s.fixed_tail ≤ t.consumer_tail
      → (s' : FixedSubscriber) × (consume_fixed d t s ≡ some ((next (old_ones t s)).0, s'))
        × (old_ones t s' ≡ (next (old_ones t s)).1)
        × (s'.head ≤ s'.fixed_tail)
        × (s'.fixed_tail ≡ s.fixed_tail)
  unfolding consume_fixed
  consume_fixed-next t s v le old =
      let (head, e, left, le') =
        consume_before-next s.fixed_tail s.head t le (omega (arith, v.within)) v.word in
      (
        record { head = head; fixed_tail = s.fixed_tail },
        rw (e, consume_fixed) refl,
        left,
        le',
        refl,
      )

  -- What a subscriber answers until it is empty, with fuel for the calls.
  unfoldable pub replay : {S : Type 0} → Run S (Consumed A) → ℕ → S → Option (List A)
  replay consume zero s = none
  replay consume (suc fuel) s = elim (consume s) [
    | none ↦ none
    | some (empty, s') ↦ some []
    | some (element x n, s') ↦ elim (replay consume fuel s') [
      | none ↦ none
      | some xs ↦ some (x ∷ xs)
    ]
  ]

  -- Where each call answers the front of what is left, the replay is all that is left.
  replay-all :
      {S : Type 0} (consume : Run S (Consumed A)) (left : S → List A) (Ok : S → Type 0)
      → ((s : S)
          → Ok s
          → (s' : S) × (consume s ≡ some ((next (left s)).0, s'))
            × (left s' ≡ (next (left s)).1)
            × Ok s')
      → (fuel : ℕ) (s : S) (xs : List A) → left s ≡ xs
      → length xs < fuel
      → Ok s
      → replay consume fuel s ≡ some xs
  unfolding replay next
  replay-all consume left Ok step zero s xs e lt ok = absurd (omega arith)
  replay-all consume left Ok step (suc fuel) s [] e lt ok =
      let (s', c, l, ok') = step s ok in rw (c, e, replay, next) refl
  replay-all consume left Ok step (suc fuel) s (x ∷ xs) e lt ok =
      let (s', c, l, ok') = step s ok in
      rw (c, e, replay, next)
        (rw (replay-all consume left Ok step fuel s' xs (rw e at l) (omega arith) ok') refl)

  pub replay_dynamic :
      (t : MMapMeta A) (s : DynamicSubscriber) (fuel : ℕ)
      → IsQuiet t
      → s.head ≤ t.consumer_tail
      → length (to_come t s) < fuel
      → replay (consume_dynamic d t) fuel s ≡ some (to_come t s)
  replay_dynamic t s fuel v le lt =
      replay-all (consume_dynamic d t) (to_come t) (λ s. s.head ≤ t.consumer_tail)
        (λ s ok. consume_dynamic-next t s v ok) fuel s (to_come t s) refl lt le

  pub replay_fixed :
      (t : MMapMeta A) (s : FixedSubscriber) (fuel : ℕ)
      → IsQuiet t
      → s.head ≤ s.fixed_tail
      → s.fixed_tail ≤ t.consumer_tail
      → length (old_ones t s) < fuel
      → replay (consume_fixed d t) fuel s ≡ some (old_ones t s)
  replay_fixed t s fuel v le old lt =
      replay-all (consume_fixed d t) (old_ones t)
        (λ s. (s.head ≤ s.fixed_tail) × (s.fixed_tail ≤ t.consumer_tail))
        (λ s ok.
          let (s', c, l, ok', same) = consume_fixed-next t s v ok.0 ok.1 in
          (s', c, l, (ok', omega (arith, same, ok.1))))
        fuel s (old_ones t s) refl lt (le, old)
