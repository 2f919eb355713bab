-- ===== src/Atomic/Move/Indexes.antt =====
-- AtomicMove: publishing and giving back a reserved slot by its index in the buffer.
use native.Mathlib.Nat.{
  mod-add-div', mod-eq_of_lt, div-eq_of_lt, add-mul-div_right, add-mul-mod_self_right, zero-mul,
}
use reactive_mutiny.Common.{
  IsRingSize, ring_size_bounds, mod-u32-mod, ℕ, zero, ◌+◌, ◌*◌, ◌/◌, ◌%◌, ◌^◌, ◌<◌, ◌≡◌, refl, sym,
  ap, ◌∙◌, true, false, inl, inr, none, some, arith, sub_u32, add_u32, ltb, not_ltb→le, ◌==◌,
  ==_iff, if◌then◌else◌, Bool-cases, non_zero_u32,
}
use reactive_mutiny.Atomic.Move.{
  AtomicMove, max_one, publish_index_loop, try_publish_leaked_internal_index, unleak_index_loop,
  try_unleak_slot_index_internal, slot_ref_from_slot_index, slot_index_from_slot_ref,
}

-- An id is the index of its slot plus whole turns of the buffer.
turns :
    (size id index : ℕ) → index < size → ((id == index + (id / size) * size) ≡ (id % size == index))
turns size id index lt = ground (arith, mod-add-div' id size)

-- The first turn has no whole turn.
first_turn : (size id : ℕ) → id / size ≡ 0 → id % size ≡ id
first_turn size id e =
    omega (arith, ap (λ q. id % size + q * size) (sym e) ∙ mod-add-div' id size, zero-mul size)

-- The turn of an id that was made of a turn and an index.
turn_of : (size turn index : ℕ) → index < size → (index + turn * size) / size ≡ turn
turn_of size turn index lt =
    add-mul-div_right index turn (omega arith)
    ∙ (let e : index / size + turn ≡ turn = omega (arith, div-eq_of_lt lt) in e)

-- A guess in turn zero, and one in the turn that was read, find the id whose slot has the index.
guesses {ℓ} :
    {X : Type ℓ} (size id index : ℕ) (found : ℕ → X) (lost stuck : X)
    → index < size
    → (if id == index
        then found index
        else if ltb (index / size) (id / size)
        then (if id == index + (id / size) * size
            then found (index + (id / size) * size)
            else if ltb ((index + (id / size) * size) / size) (id / size)
            then stuck
            else lost)
        else lost)
      ≡ (if id % size == index then found id else lost)
guesses size id index found lost stuck lt = elim (Bool-cases (id == index)) [
  | inl same ↦
      let e : id ≡ index = ground arith in
      rw (same, e, mod-eq_of_lt lt, (==_iff index index).1 refl) refl
  | inr other ↦ elim (Bool-cases (ltb zero (id / size))) [
    | inl later ↦ elim (Bool-cases (id == index + (id / size) * size)) [
      | inl there ↦
          let e : index + (id / size) * size ≡ id = ground arith in
          let e' : (id % size == index) ≡ true = sym (turns size id index lt) ∙ there in
          rw (other, div-eq_of_lt lt, later, there, e') (ap found e)
      | inr away ↦
          let e' : (id % size == index) ≡ false = sym (turns size id index lt) ∙ away in
          rw (other, div-eq_of_lt lt, later, away, e', turn_of size (id / size) index lt)
            (ground arith)
    ]
    | inr first ↦
        rw
          (
            other,
            div-eq_of_lt lt,
            first,
            first_turn size id (omega (arith, not_ltb→le _ _ first)),
            other,
          )
          refl
  ]
]

-- The code compares the word after the id; the lemmas compare the id itself.
one_before :
    (tail id : ℕ) → tail < 2 ^ 32 → id < 2 ^ 32 → (tail == add_u32 id 1) ≡ (sub_u32 tail 1 == id)
one_before tail id word lt = ground arith

guessed_before :
    (size tail index : ℕ)
    → IsRingSize size
    → tail < 2 ^ 32
    → index < size
    → (tail == add_u32 (index + (sub_u32 tail 1 / size) * size) 1)
      ≡ (sub_u32 tail 1 == index + (sub_u32 tail 1 / size) * size)
guessed_before size tail index sz word lt = elim (Bool-cases (tail == add_u32 guess 1)) [
  | inl same ↦
      let e : last ≡ guess % 2 ^ 32 = ground arith in
      let e' : last % size ≡ index =
        ap (λ n. n % size) e
        ∙ mod-u32-mod guess sz
        ∙ add-mul-mod_self_right index (last / size) size
        ∙ mod-eq_of_lt lt in
      same ∙ sym (turns size last index lt ∙ (==_iff (last % size) index).1 e')
  | inr other ↦ elim (Bool-cases (last == guess)) [
    | inl there ↦ absurd (ground arith)
    | inr away ↦ other ∙ sym away
  ]
]
  where
    last : ℕ
    last = sub_u32 tail 1

    guess : ℕ
    guess = index + (last / size) * size

module _ {ℓ} {A : Type ℓ} (d : A) (size : ℕ) where
  -- Publishing by index returns after two rounds at most. It succeeds where the slot at the tail has
  -- this index, and then answers the number of elements before the event, or one; otherwise it asks
  -- for another try and changes nothing.
  pub try_publish_leaked_internal_index_lem :
      (index : ℕ) (r : AtomicMove A)
      → index < size
      → try_publish_leaked_internal_index d size index r ≡ (
          if r.tail % size == index
          then some
              (non_zero_u32 (max_one (sub_u32 r.tail r.head)), record r { tail = add_u32 r.tail 1 })
          else some (none, r))
  unfolding try_publish_leaked_internal_index publish_index_loop
  try_publish_leaked_internal_index_lem index r lt =
      guesses size r.tail index
        (λ id.
          some (non_zero_u32 (max_one (sub_u32 r.tail r.head)), record r { tail = add_u32 id 1 }))
        (some (none, r)) none lt

  -- Giving back by index returns after two rounds at most. It succeeds where the last reserved slot has
  -- this index; otherwise it changes nothing.
  pub try_unleak_slot_index_internal_lem :
      (index : ℕ) (r : AtomicMove A)
      → IsRingSize size
      → r.enqueuer_tail < 2 ^ 32
      → index < size
      → try_unleak_slot_index_internal d size index r ≡ (
          if sub_u32 r.enqueuer_tail 1 % size == index
          then some (true, record r { enqueuer_tail = sub_u32 r.enqueuer_tail 1 })
          else some (false, r))
  unfolding try_unleak_slot_index_internal unleak_index_loop
  try_unleak_slot_index_internal_lem index r sz word lt =
      rw
        (
          one_before r.enqueuer_tail index word (omega (arith, ring_size_bounds sz)),
          guessed_before size r.enqueuer_tail index sz word lt,
        )
        refl
      ∙ guesses size (sub_u32 r.enqueuer_tail 1) index
          (λ id. some (true, record r { enqueuer_tail = id })) (some (false, r)) none lt

  pub slot_index_from_slot_ref_lem :
      (slot : ℕ) → slot < 2 ^ 32 → slot_index_from_slot_ref d size slot ≡ slot
  unfolding slot_index_from_slot_ref
  slot_index_from_slot_ref_lem slot lt = mod-eq_of_lt lt

  -- The conversions between the buffer's references and its indexes undo each other.
  pub slot_ref_from_slot_index-slot_index_from_slot_ref :
      (slot : ℕ)
      → IsRingSize size
      → slot < size
      → (slot_ref_from_slot_index d size (slot_index_from_slot_ref d size slot) ≡ slot)
        × (slot_index_from_slot_ref d size (slot_ref_from_slot_index d size slot) ≡ slot)
  unfolding slot_ref_from_slot_index slot_index_from_slot_ref
  slot_ref_from_slot_index-slot_index_from_slot_ref slot sz lt =
      let e : slot % 2 ^ 32 ≡ slot = mod-eq_of_lt (omega (arith, ring_size_bounds sz)) in
      (ap (λ n. n % size) e ∙ mod-eq_of_lt lt, ap (λ n. n % 2 ^ 32) (mod-eq_of_lt lt) ∙ e)
