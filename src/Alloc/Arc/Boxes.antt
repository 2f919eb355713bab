-- ===== src/Alloc/Arc/Boxes.antt =====
-- The boxes of OgreArc: every box counts its handles.
use reactive_mutiny.Common.{
  ℕ, ◌<◌, ◌≡◌, ◌≢◌, refl, sym, ap, ◌∙◌, none, some, List, [], ◌∷◌, arith, count, ◌==◌, ==_iff,
  Bool-cases, inl, inr,
}
use reactive_mutiny.Alloc.Arc.{Inner, Heap, find, set_count, free}

-- The slots that the boxes own.
abbrev pub slots : Heap → List ℕ
slots [] = []
slots ((a, inner) ∷ h) = inner.data_id ∷ slots h

-- Each box holds the number of its handles, which is not zero, and has an address of its own.
abbrev pub Counted : List ℕ → Heap → Type 0
Counted handles [] = Unit
Counted handles ((a, inner) ∷ h) =
    (inner.references_count ≡ count a handles)
    × (0 < count a handles)
    × (find a h ≡ none)
    × Counted handles h

pub find-Counted :
    (handles : List ℕ) (a : ℕ) (h : Heap) (inner : Inner)
    → Counted handles h
    → find a h ≡ some inner
    → inner.references_count ≡ count a handles
find-Counted handles a [] x v e = cc
find-Counted handles a ((b, inner) ∷ h) x v e = ground (arith, find-Counted handles a h x v.3)

pub find-set_count-none : (a b n : ℕ) (h : Heap) → find a h ≡ none → find a (set_count b n h) ≡ none
find-set_count-none a b n [] e = refl
find-set_count-none a b n ((x, inner) ∷ h) e = ground (arith, find-set_count-none a b n h)

pub find-set_count_live : (a b n : ℕ) (h : Heap) → find a h ≢ none → find a (set_count b n h) ≢ none
find-set_count_live a b n [] live = live
find-set_count_live a b n ((x, inner) ∷ h) live = ground (arith, find-set_count_live a b n h)

pub find-free_live : (a b : ℕ) (h : Heap) → a ≢ b → find a h ≢ none → find a (free b h) ≢ none
find-free_live a b [] other live = live
find-free_live a b ((x, inner) ∷ h) other live = ground (arith, find-free_live a b h)

pub find-free_none : (a b : ℕ) (h : Heap) → find a h ≡ none → find a (free b h) ≡ none
find-free_none a b [] e = refl
find-free_none a b ((x, inner) ∷ h) e = ground (arith, find-free_none a b h)

-- A freed box is not found again.
pub find_freed :
    (handles : List ℕ) (a : ℕ) (h : Heap) → Counted handles h → find a (free a h) ≡ none
find_freed handles a [] v = refl
find_freed handles a ((b, inner) ∷ h) v = ground (arith, find_freed handles a h v.3)

pub slots-set_count : (a n : ℕ) (h : Heap) → slots (set_count a n h) ≡ slots h
slots-set_count a n [] = refl
slots-set_count a n ((b, inner) ∷ h) = ground (arith, slots-set_count a n h)

pub free-set_count : (a n : ℕ) (h : Heap) → free a (set_count a n h) ≡ free a h
free-set_count a n [] = refl
free-set_count a n ((b, inner) ∷ h) = ground (arith, free-set_count a n h)

pub count-slots-free :
    (i a : ℕ) (h : Heap) (inner : Inner)
    → find a h ≡ some inner
    → count i (slots h) ≡ count i (inner.data_id ∷ slots (free a h))
count-slots-free i a [] inner e = cc
count-slots-free i a ((b, x) ∷ h) inner e = ground (arith, count-slots-free i a h inner)

-- A box whose handles did not change in number stays counted.
pub Counted-cong :
    (handles after : List ℕ) (a : ℕ) (h : Heap)
    → Counted handles h
    → find a h ≡ none
    → ((b : ℕ) → b ≢ a → count b after ≡ count b handles)
    → Counted after h
Counted-cong handles after a [] v new same = tt
Counted-cong handles after a ((b, inner) ∷ h) v new same = (
  v.0 ∙ sym (same b other),
  omega (arith, v.1, same b other),
  v.2,
  Counted-cong handles after a h v.3 (ground arith) same,
)
  where
    other : b ≢ a
    other = ground arith

-- With another list of handles that has `n` for `a` and agrees elsewhere, writing `n` keeps the count.
pub Counted-set_count :
    (handles after : List ℕ) (a n : ℕ) (h : Heap)
    → Counted handles h
    → count a after ≡ n
    → 0 < n
    → ((b : ℕ) → b ≢ a → count b after ≡ count b handles)
    → Counted after (set_count a n h)
Counted-set_count handles after a n [] v e pos same = tt
Counted-set_count handles after a n ((b, inner) ∷ h) v e pos same = elim (Bool-cases (a == b)) [
  | inl hit ↦
      let at : a ≡ b = (==_iff a b).0 hit in
      rw hit (
        sym e ∙ ap (λ k. count k after) at,
        omega (arith, ap (λ k. count k after) at),
        v.2,
        Counted-cong handles after a h v.3 (ap (λ k. find k h) at ∙ v.2) same,
      )
  | inr other ↦ rw other (
    v.0 ∙ sym (same b (ground arith)),
    omega (arith, v.1, same b (ground arith)),
    find-set_count-none b a n h v.2,
    Counted-set_count handles after a n h v.3 e pos same,
  )
]

-- Freeing the box of `a` where no handle to it is left.
pub Counted-free :
    (handles after : List ℕ) (a : ℕ) (h : Heap)
    → Counted handles h
    → ((b : ℕ) → b ≢ a → count b after ≡ count b handles)
    → Counted after (free a h)
Counted-free handles after a [] v same = tt
Counted-free handles after a ((b, inner) ∷ h) v same = elim (Bool-cases (a == b)) [
  | inl hit ↦
      let at : a ≡ b = (==_iff a b).0 hit in
      rw hit (Counted-cong handles after a h v.3 (ap (λ k. find k h) at ∙ v.2) same)
  | inr other ↦ rw other (
    v.0 ∙ sym (same b (ground arith)),
    omega (arith, v.1, same b (ground arith)),
    find-free_none b a h v.2,
    Counted-free handles after a h v.3 same,
  )
]
