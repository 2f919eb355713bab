-- ===== src/Streams/Listing.antt =====
-- The list of used streams that StreamsManagerBase rebuilds is the list of the ids that are not vacant.
use mathlib.Core.List.{append_assoc}
use reactive_mutiny.Common.{
  ℕ, suc, zero, ◌+◌, ◌-◌, ◌<◌, ◌≤◌, ◌≡◌, refl, sym, ap, ap₂, ◌∙◌, Bool-cases, inl, inr, List, [],
  ◌∷◌, ◌++◌, arith, length, length-append, length-drop, drop-drop, set, drop, replicate, up_from,
  length-up_from, count, lt→ltb, ◌==◌, if◌then◌else◌,
}
use reactive_mutiny.Streams.{u32_max, write_range, write_sentinels, sync_loop}

-- The ids of the second list that are not in the first.
abbrev pub missing : List ℕ → List ℕ → List ℕ
missing vacant [] = []
missing vacant (i ∷ is) = if count i vacant == 0 then i ∷ missing vacant is else missing vacant is

set-append {ℓ} :
    {A : Type ℓ} (xs : List A) (y x : A) (ys : List A)
    → set (xs ++ (y ∷ ys)) (length xs) x ≡ xs ++ (x ∷ ys)
set-append [] y x ys = refl
set-append (z ∷ xs) y x ys = ap (λ l. z ∷ l) (set-append xs y x ys)

one_more : (out : List ℕ) (x : ℕ) → length out + 1 ≡ length (out ++ (x ∷ []))
one_more out x = omega (arith, length-append out (x ∷ []))

write_range-append :
    (n from pos : ℕ) (out rest : List ℕ)
    → pos ≡ length out
    → n ≤ length rest
    → write_range n from pos (out ++ rest) ≡ out ++ (up_from n from ++ drop n rest)
unfolding write_range
write_range-append zero from pos out rest e le = refl
write_range-append (suc n) from pos out [] e le = absurd (omega arith)
write_range-append (suc n) from pos out (y ∷ rest) e le =
    rw (e, set-append out y from rest)
      (ap (write_range n (from + 1) (length out + 1)) (sym (append_assoc out (from ∷ []) rest))
        ∙ write_range-append n (from + 1) (length out + 1) (out ++ (from ∷ [])) rest
            (one_more out from) (omega arith)
        ∙ append_assoc out (from ∷ []) (up_from n (from + 1) ++ drop n rest))

pub write_sentinels-append :
    (n pos : ℕ) (out rest : List ℕ)
    → pos ≡ length out
    → n ≡ length rest
    → write_sentinels n pos (out ++ rest) ≡ out ++ replicate n u32_max
unfolding write_sentinels
write_sentinels-append zero pos out [] e le = refl
write_sentinels-append zero pos out (y ∷ rest) e le = absurd (omega arith)
write_sentinels-append (suc n) pos out [] e le = absurd (omega arith)
write_sentinels-append (suc n) pos out (y ∷ rest) e le =
    rw (e, set-append out y u32_max rest)
      (ap (write_sentinels n (length out + 1)) (sym (append_assoc out (u32_max ∷ []) rest))
        ∙ write_sentinels-append n (length out + 1) (out ++ (u32_max ∷ [])) rest
            (one_more out u32_max) (omega arith)
        ∙ append_assoc out (u32_max ∷ []) (replicate n u32_max))

-- Vacant ids in strictly ascending order, from `i` on and below the limit.
abbrev pub Strictly : ℕ → ℕ → List ℕ → Type 0
Strictly limit i [] = i ≤ limit
Strictly limit i (v ∷ vs) = (i ≤ v) × (v < limit) × Strictly limit (v + 1) vs

-- The ids from `i` on between the vacant ones.
abbrev pub gaps : ℕ → ℕ → List ℕ → List ℕ
gaps limit i [] = up_from (limit - i) i
gaps limit i (v ∷ vs) = up_from (v - i) i ++ gaps limit (v + 1) vs

pub length-gaps :
    (limit i : ℕ) (vs : List ℕ)
    → Strictly limit i vs
    → i + length (gaps limit i vs) + length vs ≡ limit
length-gaps limit i [] h = omega (arith, length-up_from (limit - i) i)
length-gaps limit i (v ∷ vs) h = omega (
  arith,
  length-append (up_from (v - i) i) (gaps limit (v + 1) vs),
  length-up_from (v - i) i,
  length-gaps limit (v + 1) vs h.2,
)

-- The loop writes the gaps, one after the other.
pub sync_loop-gaps :
    (limit i pos : ℕ) (vs out rest : List ℕ)
    → Strictly limit i vs
    → pos ≡ length out
    → length (gaps limit i vs) ≤ length rest
    → sync_loop limit vs i pos (out ++ rest) ≡ (
      pos + length (gaps limit i vs),
      out ++ (gaps limit i vs ++ drop (length (gaps limit i vs)) rest),
    )
unfolding sync_loop
sync_loop-gaps limit i pos [] out rest h e le =
    ap (λ l. (pos + (limit - i), l)) (write_range-append (limit - i) i pos out rest e fits)
    ∙ ap (λ k. (pos + k, out ++ (up_from (limit - i) i ++ drop k rest)))
        (sym (length-up_from (limit - i) i))
  where
    fits : limit - i ≤ length rest
    fits = omega (arith, le, length-up_from (limit - i) i)
sync_loop-gaps limit i pos (v ∷ vs) out rest h e le = rw (lt→ltb i limit (omega arith)) (
    ap (sync_loop limit vs (v + 1) (pos + n)) written
    ∙ sync_loop-gaps limit (v + 1) (pos + n) vs (out ++ before) (drop n rest) h.2
        (omega (arith, length-append out before, n_lem)) (omega (arith, total, length-drop n rest))
    ∙ ap₂ (λ k l. (k, l)) counted regrouped)
  where
    n : ℕ
    n = v - i

    before : List ℕ
    before = up_from n i

    after : List ℕ
    after = gaps limit (v + 1) vs

    n_lem : length before ≡ n
    n_lem = length-up_from n i

    total : length (before ++ after) ≡ n + length after
    total = length-append before after ∙ ap (λ k. k + length after) n_lem

    written : write_range n i pos (out ++ rest) ≡ (out ++ before) ++ drop n rest
    written =
        write_range-append n i pos out rest e (omega (arith, total))
        ∙ sym (append_assoc out before (drop n rest))

    counted : pos + n + length after ≡ pos + length (before ++ after)
    counted = omega (arith, total)

    regrouped :
        (out ++ before) ++ (after ++ drop (length after) (drop n rest))
        ≡ out ++ ((before ++ after) ++ drop (length (before ++ after)) rest)
    regrouped =
        append_assoc out before (after ++ drop (length after) (drop n rest))
        ∙ ap (λ l. out ++ l)
            (sym (append_assoc before after (drop (length after) (drop n rest)))
              ∙ ap (λ l. (before ++ after) ++ l)
                  (drop-drop (length after) n rest ∙ ap (λ k. drop k rest) (sym total)))

up_from-append : (a b i : ℕ) → up_from (a + b) i ≡ up_from a i ++ up_from b (i + a)
up_from-append zero b i =
    ap₂ up_from (let e : 0 + b ≡ b = omega arith in e) (let e : i ≡ i + 0 = omega arith in e)
up_from-append (suc a) b i =
    ap (λ n. up_from n i) (let e : suc a + b ≡ suc (a + b) = omega arith in e)
    ∙ ap (λ l. i ∷ l)
        (up_from-append a b (i + 1)
          ∙ ap (λ k. up_from a (i + 1) ++ up_from b k)
              (let e : i + 1 + a ≡ i + suc a = omega arith in e))

missing-append : (vs is js : List ℕ) → missing vs (is ++ js) ≡ missing vs is ++ missing vs js
missing-append vs [] js = refl
missing-append vs (i ∷ is) js = elim (Bool-cases (count i vs == 0)) [
  | inl out ↦ rw out (ap (λ l. i ∷ l) (missing-append vs is js))
  | inr found ↦ rw found (missing-append vs is js)
]

missing_kept :
    (vs : List ℕ) (n i : ℕ)
    → ((j : ℕ) → i ≤ j → j < i + n → count j vs ≡ 0)
    → missing vs (up_from n i) ≡ up_from n i
missing_kept vs zero i h = refl
missing_kept vs (suc n) i h =
    rw (h i (omega arith) (omega arith))
      (ap (λ l. i ∷ l) (missing_kept vs n (i + 1) (λ j lo hi. h j (omega arith) (omega arith))))

pub missing_cong :
    (vs ws : List ℕ) (n i : ℕ)
    → ((j : ℕ) → i ≤ j → count j vs ≡ count j ws)
    → missing vs (up_from n i) ≡ missing ws (up_from n i)
missing_cong vs ws zero i h = refl
missing_cong vs ws (suc n) i h =
    ground (arith, h i, missing_cong vs ws n (i + 1) (λ j lo. h j (omega arith)))

Strictly-count : (limit i : ℕ) (vs : List ℕ) (j : ℕ) → Strictly limit i vs → j < i → count j vs ≡ 0
Strictly-count limit i [] j h lt = refl
Strictly-count limit i (v ∷ vs) j h lt = ground (arith, Strictly-count limit (v + 1) vs j h.2)

-- Between strictly ascending vacant ids, the gaps are the ids that are missing among them.
pub gaps-missing :
    (limit i : ℕ) (vs : List ℕ)
    → Strictly limit i vs
    → gaps limit i vs ≡ missing vs (up_from (limit - i) i)
gaps-missing limit i [] h = sym (missing_kept [] (limit - i) i (λ j lo hi. refl))
gaps-missing limit i (v ∷ vs) h =
    ap (λ l. up_from (v - i) i ++ l) (gaps-missing limit (v + 1) vs h.2)
    ∙ sym (
        ap (missing (v ∷ vs)) split
        ∙ missing-append (v ∷ vs) (up_from (v - i) i) (v ∷ up_from (limit - (v + 1)) (v + 1))
        ∙ ap₂ ◌++◌
            (missing_kept (v ∷ vs) (v - i) i
              (λ j lo hi. ground (arith, Strictly-count limit (v + 1) vs j h.2)))
            (skip ∙ missing_cong (v ∷ vs) vs (limit - (v + 1)) (v + 1) (λ j lo. ground arith)))
  where
    split : up_from (limit - i) i ≡ up_from (v - i) i ++ (v ∷ up_from (limit - (v + 1)) (v + 1))
    split =
        ap (λ n. up_from n i)
          (let e : limit - i ≡ v - i + suc (limit - (v + 1)) = omega (arith, h.0, h.1) in e)
        ∙ up_from-append (v - i) (suc (limit - (v + 1))) i
        ∙ ap (λ k. up_from (v - i) i ++ up_from (suc (limit - (v + 1))) k)
            (let e : i + (v - i) ≡ v = omega (arith, h.0) in e)

    skip :
        missing (v ∷ vs) (v ∷ up_from (limit - (v + 1)) (v + 1))
        ≡ missing (v ∷ vs) (up_from (limit - (v + 1)) (v + 1))
    skip = ground arith
