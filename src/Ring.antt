-- ===== src/Ring.antt =====
-- The geometry shared by the ring-buffer queues of ogre_std/ogre_queues: the elements between two
-- ever-growing counters, found in an array at the counters' remainders by its size.
use native.Mathlib.Nat.{
  zero-add, mod-mod, mod-add-mod, mod-eq_of_lt, mod-eq-sub-mod, add-zero, mod-lt,
}
use native.Mathlib.Numerals.{add-one}
use mathlib.Core.Path.{subst}
use mathlib.Core.List.{append-nil}
use Prim.Native.Nat.add
use native.Mathlib.Decide.{dec_lt}
use reactive_mutiny.Common.{
  ℕ, zero, suc, ◌+◌, ◌-◌, ◌%◌, ◌<◌, ◌≤◌, ◌≡◌, ◌≢◌, refl, sym, ap, ap₂, ◌∙◌, List, [], ◌∷◌, ◌++◌,
  arith, length, get_or, set, take, drop, slice, ltb, lt→ltb, le→not_ltb, ◌⊎◌, inl, inr,
  if◌then◌else◌, take-drop-suc, get_or-set_self, get_or-set_ne,
}

-- Fewer than `size` steps round the ring do not come back to the start.
add-ne-of_lt : {size h k : ℕ} → h < size → 0 < k → k < size → (h + k) % size ≢ h
add-ne-of_lt {size} {h} {k} hh hk lt = elim (dec_lt (h + k) size) [
  | yes p ↦ omega (arith, mod-eq_of_lt p)
  | no p ↦ omega (
    arith,
    mod-eq-sub-mod {n = h + k} {m = size} (omega arith),
    mod-eq_of_lt {n = h + k - size} {m = size} (omega arith),
  )
]

pub add-mod-ne : (size h k : ℕ) → 0 < k → k < size → (h + k) % size ≢ h % size
add-mod-ne size h k hk lt e =
    add-ne-of_lt (mod-lt h {m = size} (omega arith)) hk lt (mod-add-mod h size k ∙ e)

-- What `peek_remaining` cuts out of the array, from the remainders of its two counters.
pub peek_slices {ℓ} : {A : Type ℓ} → ℕ → List A → ℕ → ℕ → List A × List A
peek_slices size buf hi ti =
    if ltb hi ti then (slice buf hi ti, []) else (slice buf hi size, slice buf 0 ti)

module _ {ℓ} {A : Type ℓ} (d : A) (size : ℕ) where
  -- The `n` elements from the counter `h` on; `d` stands for a read outside the array.
  abbrev pub window : List A → ℕ → ℕ → List A
  window buf h zero = []
  window buf h (suc n) = get_or buf (h % size) d ∷ window buf (h + 1) n

  pub length-window : (buf : List A) (h n : ℕ) → length (window buf h n) ≡ n
  length-window buf h zero = refl
  length-window buf h (suc n) = ap suc (length-window buf (h + 1) n)

  pub window_of_pos :
      (buf : List A) (h n : ℕ)
      → 0 < n
      → window buf h n ≡ get_or buf (h % size) d ∷ window buf (h + 1) (n - 1)
  window_of_pos buf h zero lt = absurd (omega arith)
  window_of_pos buf h (suc n) lt =
      ap (λ k. get_or buf (h % size) d ∷ window buf (h + 1) k) (omega arith)

  pub window_of_zero : (buf : List A) (h n : ℕ) → n ≡ 0 → window buf h n ≡ []
  window_of_zero buf h n e = ap (window buf h) e

  -- Counters with the same remainder start the same window.
  pub window_cong :
      (buf : List A) (n h k : ℕ) → h % size ≡ k % size → window buf h n ≡ window buf k n
  window_cong buf zero h k e = refl
  window_cong buf (suc n) h k e =
      ap₂ ◌∷◌ (ap (λ i. get_or buf i d) e) (window_cong buf n (h + 1) (k + 1) shifted)
    where
      shifted : (h + 1) % size ≡ (k + 1) % size
      shifted = sym (mod-add-mod h size 1) ∙ ap (λ i. (i + 1) % size) e ∙ mod-add-mod k size 1

  -- A write just past a window extends it by that element.
  pub window-set_end :
      (buf : List A) (x : A) (n h : ℕ)
      → length buf ≡ size
      → n < size
      → window (set buf ((h + n) % size) x) h (suc n) ≡ window buf h n ++ (x ∷ [])
  window-set_end buf x zero h shape lt =
      rw (add-zero, get_or-set_self buf (h % size) x d (rw shape (mod-lt h {m = size} lt)))
  window-set_end buf x (suc n) h shape lt =
      ap₂ ◌∷◌
        (get_or-set_ne buf ((h + suc n) % size) (h % size) x d
          (add-mod-ne size h (suc n) (omega arith) lt))
        (subst
          (λ i. window (set buf (i % size) x) (h + 1) (suc n) ≡ window buf (h + 1) n ++ (x ∷ []))
          (sym shift) (window-set_end buf x n (h + 1) shape (omega arith)))
    where
      shift : h + suc n ≡ h + 1 + n
      shift = omega arith

  pub window-append :
      (buf : List A) (h m n : ℕ) → window buf h (m + n) ≡ window buf h m ++ window buf (h + m) n
  window-append buf h zero n = rw (zero-add, add-zero)
  window-append buf h (suc m) n =
      rw (add.suc m n, shift)
        (ap (λ l. get_or buf (h % size) d ∷ l) (window-append buf (h + 1) m n))
    where
      shift : h + suc m ≡ h + 1 + m
      shift = omega arith

  -- A window that does not wrap is a slice of the array.
  pub window-slice :
      (buf : List A) (n h : ℕ)
      → length buf ≡ size
      → h + n ≤ size
      → window buf h n ≡ take n (drop h buf)
  window-slice buf zero h shape le = refl
  window-slice buf (suc n) h shape le =
      rw (take-drop-suc n h buf d (omega arith), mod-eq_of_lt {n = h} {m = size} (omega arith))
        (ap (λ l. get_or buf h d ∷ l)
          (subst (λ i. window buf (h + 1) n ≡ take n (drop i buf)) (add-one h)
            (window-slice buf n (h + 1) shape (omega arith))))

  -- A window that wraps is the slice up to the array's end, then the slice from its start.
  window_wrapped :
      (buf : List A) (h t : ℕ)
      → length buf ≡ size
      → h < size
      → t ≤ h
      → window buf h (size - h + t) ≡ slice buf h size ++ slice buf 0 t
  window_wrapped buf h t shape lt le =
      window-append buf h (size - h) t
      ∙ ap₂ ◌++◌ (window-slice buf (size - h) h shape (omega arith)) (
          window_cong buf t (h + (size - h)) 0 whole
          ∙ window-slice buf t 0 shape (omega arith)
          ∙ ap (λ k. take k buf) (let e : t ≡ t - 0 = omega arith in e))
    where
      whole : (h + (size - h)) % size ≡ 0 % size
      whole = (let e : h + (size - h) ≡ size = omega arith in ap (λ i. i % size) e) ∙ (grind arith)

  window_peek :
      (buf : List A) (h n t : ℕ)
      → length buf ≡ size
      → h < size
      → 0 < n
      → n ≤ size
      → ((t ≡ h + n) × (t < size)) ⊎ (t + size ≡ h + n)
      → window buf h n ≡ (peek_slices size buf h t).0 ++ (peek_slices size buf h t).1
  unfolding peek_slices
  window_peek buf h n t shape lt pos le (inl (e, f)) =
      rw (lt→ltb h t (omega arith), append-nil)
        (let k : n ≡ t - h = omega arith in
          window-slice buf n h shape (omega arith) ∙ ap (λ i. take i (drop h buf)) k)
  window_peek buf h n t shape lt pos le (inr e) = rw (le→not_ltb h t (omega arith)) (
      let k : n ≡ size - h + t = omega arith in
      ap (window buf h) k ∙ window_wrapped buf h t shape lt (omega arith))

  -- The slices, one after the other, are the window between the two counters.
  pub window_of_slices :
      (buf : List A) (h n t : ℕ)
      → length buf ≡ size
      → 0 < n
      → n ≤ size
      → t % size ≡ (h + n) % size
      → window buf h n
        ≡ (peek_slices size buf (h % size) (t % size)).0
          ++ (peek_slices size buf (h % size) (t % size)).1
  window_of_slices buf h n t shape pos le e =
      window_cong buf n h (h % size) (sym (mod-mod h size))
      ∙ window_peek buf (h % size) n (t % size) shape in_ring pos le ends
    where
      in_ring : h % size < size
      in_ring = mod-lt h {m = size} (omega arith)

      ends : ((t % size ≡ h % size + n) × (t % size < size)) ⊎ (t % size + size ≡ h % size + n)
      ends = elim (dec_lt (h % size + n) size) [
        | yes p ↦
            inl (
              omega (arith, mod-add-mod h size n, mod-eq_of_lt p),
              mod-lt t {m = size} (omega arith),
            )
        | no p ↦ inr (
            omega (
              arith,
              mod-add-mod h size n,
              mod-eq-sub-mod {n = h % size + n} {m = size} (omega arith),
              mod-eq_of_lt {n = h % size + n - size} {m = size} (omega arith),
            ))
      ]
