-- ===== src/Stacks/Atomic/Refine.antt =====
-- The atomic stack against the list of its elements.
use native.Mathlib.Decide.{dec_lt}
use native.Mathlib.Numerals.{add-one}
use reactive_mutiny.Common.{
  ℕ, zero, suc, ◌+◌, ◌^◌, ◌<◌, ◌≤◌, ◌≡◌, refl, ap, ap₂, ◌∙◌, Bool, true, false, Option, none, some,
  List, [], ◌∷◌, arith, length, get_or, set, length-set, get_or-set_self, get_or-set_ne, ltb,
  lt→ltb, if◌then◌else◌, sub_u32,
}
use reactive_mutiny.Stacks.Atomic.{Stack, push_locked, push, pop_locked, pop, counted}

-- The representation invariant, between operations: the flag is free.
pub record IsFree {ℓ} {A : Type ℓ} (size : ℕ) (s : Stack A) : Type 0 where
  pub free : s.flag ≡ false
  pub shape : length s.buffer ≡ size
  pub bounded : s.head ≤ size

-- The first `n` elements of an array, the last one first.
abbrev pub top_down {ℓ} : {A : Type ℓ} → A → List A → ℕ → List A
top_down d buf zero = []
top_down d buf (suc n) = get_or buf n d ∷ top_down d buf n

pub length-top_down {ℓ} :
    {A : Type ℓ} (d : A) (buf : List A) (n : ℕ) → length (top_down d buf n) ≡ n
length-top_down d buf zero = refl
length-top_down d buf (suc n) = omega (arith, length-top_down d buf n)

pub top_down-set {ℓ} :
    {A : Type ℓ} (d : A) (buf : List A) (k : ℕ) (x : A) (n : ℕ)
    → n ≤ k
    → top_down d (set buf k x) n ≡ top_down d buf n
top_down-set d buf k x zero le = refl
top_down-set d buf k x (suc n) le =
    ap₂ (λ y l. y ∷ l) (get_or-set_ne buf k n x d (omega arith))
      (top_down-set d buf k x n (omega arith))

module _ {ℓ} {A : Type ℓ} (zeroed : A) (size : ℕ) (metrics : Bool) where
  -- The elements, the one on top first.
  abbrev pub contents : Stack A → List A
  contents s = top_down zeroed s.buffer s.head

  push_free :
      (rounds : List (Stack A → Stack A)) (x : A) (s : Stack A)
      → s.flag ≡ false
      → push zeroed size metrics rounds x s
        ≡ some (push_locked zeroed size metrics x (record s { flag = true }))
  unfolding push
  push_free [] x s free = rw free refl
  push_free (others ∷ rounds) x s free = rw free refl

  pop_free :
      (rounds : List (Stack A → Stack A)) (s : Stack A)
      → s.flag ≡ false
      → pop zeroed size metrics rounds s
        ≡ some (pop_locked zeroed size metrics (record s { flag = true }))
  unfolding pop
  pop_free [] s free = rw free refl
  pop_free (others ∷ rounds) s free = rw free refl

  -- With the flag free, `push` puts the element on top, or answers `false` and changes no element when
  -- all `BUFFER_SIZE` places are taken; it gives the flag back.
  pub push-contents :
      (rounds : List (Stack A → Stack A)) (x : A) (s : Stack A)
      → size < 2 ^ 32
      → IsFree size s
      → (s' : Stack A) × (push zeroed size metrics rounds x s
          ≡ some (ltb (length (contents s)) size, s'))
        × (contents s' ≡ (if ltb (length (contents s)) size then x ∷ contents s else contents s))
        × IsFree size s'
  push-contents rounds x s word v = elim (dec_lt s.head size) [
    | yes room ↦ (
      record s {
        buffer = set s.buffer s.head x;
        head = s.head + 1;
        flag = false;
        push_count = counted zeroed size metrics s.push_count;
      },
      push_free rounds x s v.free
          ∙ (unfold push_locked in ground (arith, length-top_down zeroed s.buffer s.head)),
      rw (roomy room) (grown room),
      ground (arith, length-set s.buffer s.head x),
    )
    | no full ↦ (
      record s { flag = false; push_full_count = counted zeroed size metrics s.push_full_count },
      push_free rounds x s v.free
          ∙ (unfold push_locked in ground (arith, length-top_down zeroed s.buffer s.head)),
      ground (arith, length-top_down zeroed s.buffer s.head),
      ground arith,
    )
  ]
    where
      roomy : s.head < size → ltb (length (contents s)) size ≡ true
      roomy room = lt→ltb _ _ (omega (arith, length-top_down zeroed s.buffer s.head))

      grown : s.head < size → top_down zeroed (set s.buffer s.head x) (s.head + 1) ≡ x ∷ contents s
      grown room =
          ap (top_down zeroed (set s.buffer s.head x)) (add-one s.head)
          ∙ ap₂ (λ y l. y ∷ l) (get_or-set_self s.buffer s.head x zeroed (rw v.shape room))
              (top_down-set zeroed s.buffer s.head x s.head (omega arith))

  -- With the flag free, `pop` takes the element on top, or answers that there is none; it gives the flag
  -- back.
  pub pop-contents :
      (rounds : List (Stack A → Stack A)) (s : Stack A)
      → size < 2 ^ 32
      → IsFree size s
      → (o : Option A) × (s' : Stack A) × (pop zeroed size metrics rounds s ≡ some (o, s'))
        × (contents s ≡ (elim o [ none ↦ [] | some x ↦ x ∷ contents s' ]))
        × ((o ≡ none) → contents s' ≡ [])
        × IsFree size s'
  pop-contents rounds s word v = go s.head refl
    where
      go :
          (n : ℕ)
          → s.head ≡ n
          → (o : Option A) × (s' : Stack A) × (pop zeroed size metrics rounds s ≡ some (o, s'))
            × (contents s ≡ (elim o [ none ↦ [] | some x ↦ x ∷ contents s' ]))
            × ((o ≡ none) → contents s' ≡ [])
            × IsFree size s'
      go zero e = (
        none,
        record s { flag = false; pop_empty_count = counted zeroed size metrics s.pop_empty_count },
        pop_free rounds s v.free ∙ (unfold pop_locked in ground arith),
        rw e refl,
        λ nothing. rw e refl,
        ground arith,
      )
      go (suc n) e = (
        some (get_or s.buffer n zeroed),
        record s { head = n; flag = false; pop_count = counted zeroed size metrics s.pop_count },
        pop_free rounds s v.free ∙ (unfold pop_locked in ground (arith, below)),
        rw e refl,
        λ something. absurd (ground arith),
        ground arith,
      )
        where
          below : sub_u32 s.head 1 ≡ n
          below = omega (arith, e, v.bounded)
