-- ===== src/Common/Counts.antt =====
-- How often a number stands in a list.
use Prim.Native.Nat.{ℕ, zero, suc, ◌+◌, ◌<◌, ◌≤◌}
use mathlib.Core.Path.{◌≡◌, refl, sym, ap, ◌∙◌}
use mathlib.Core.List.{List, [], ◌∷◌, ◌++◌}
use native.Mathlib.Omega.{arith}
use reactive_mutiny.Common.Tests.{ltb, ◌==◌, if◌then◌else◌}
use reactive_mutiny.Common.Lists.{length, replicate}

abbrev pub count : ℕ → List ℕ → ℕ
count i [] = 0
count i (x ∷ xs) = (if i == x then 1 else 0) + count i xs

-- Without the first occurrence.
abbrev pub remove : ℕ → List ℕ → List ℕ
remove i [] = []
remove i (x ∷ xs) = if i == x then xs else x ∷ remove i xs

pub count-append : (i : ℕ) (xs ys : List ℕ) → count i (xs ++ ys) ≡ count i xs + count i ys
count-append i [] ys = omega arith
count-append i (x ∷ xs) ys = omega (arith, count-append i xs ys)

pub count-replicate : (i n x : ℕ) → count i (replicate n x) ≡ (if i == x then n else 0)
count-replicate i zero x = ground arith
count-replicate i (suc n) x = ground (arith, count-replicate i n x)

pub count-remove :
    (i j : ℕ) (xs : List ℕ)
    → 0 < count i xs
    → count j (remove i xs) + (if j == i then 1 else 0) ≡ count j xs
count-remove i j [] h = absurd (omega arith)
count-remove i j (x ∷ xs) h = ground (arith, count-remove i j xs)

pub count-le-length : (i : ℕ) (xs : List ℕ) → count i xs ≤ length xs
count-le-length i [] = omega arith
count-le-length i (x ∷ xs) = ground (arith, count-le-length i xs)

-- The sum of `f i` for all `i` below the number.
abbrev total : ℕ → (ℕ → ℕ) → ℕ
total zero f = 0
total (suc n) f = total n f + f n

total-zero : (n : ℕ) (f : ℕ → ℕ) → ((i : ℕ) → f i ≡ 0) → total n f ≡ 0
total-zero zero f h = refl
total-zero (suc n) f h = omega (arith, total-zero n f h, h n)

total-ones : (n : ℕ) (f : ℕ → ℕ) → ((i : ℕ) → i < n → f i ≡ 1) → total n f ≡ n
total-ones zero f h = refl
total-ones (suc n) f h =
    omega (arith, total-ones n f (λ i lt. h i (omega arith)), h n (omega arith))

total-cons :
    (n x : ℕ) (xs : List ℕ)
    → total n (λ i. count i (x ∷ xs)) ≡ total n (λ i. count i xs) + (if ltb x n then 1 else 0)
total-cons zero x xs = ground arith
total-cons (suc n) x xs = ground (arith, total-cons n x xs)

sum_counts :
    (n : ℕ) (xs : List ℕ)
    → ((i : ℕ) → n ≤ i → count i xs ≡ 0)
    → total n (λ i. count i xs) ≡ length xs
sum_counts n [] h = total-zero n (λ i. count i []) (λ i. refl)
sum_counts n (x ∷ xs) h =
    ground (arith, total-cons n x xs, h x, sum_counts n xs (λ i le. omega (arith, h i le)))

pub length-remove : (i : ℕ) (xs : List ℕ) → length (remove i xs) ≤ length xs
length-remove i [] = omega arith
length-remove i (x ∷ xs) = ground (arith, length-remove i xs)

pub length-remove_of_count :
    (i : ℕ) (xs : List ℕ) → 0 < count i xs → length (remove i xs) + 1 ≡ length xs
length-remove_of_count i [] h = absurd (omega arith)
length-remove_of_count i (x ∷ xs) h = ground (arith, length-remove_of_count i xs)

-- Lists that hold each number below `n` once, and nothing else, hold `n` numbers.
pub length_of_counts :
    (n : ℕ) (xs : List ℕ) → ((i : ℕ) → count i xs ≡ (if ltb i n then 1 else 0)) → length xs ≡ n
length_of_counts n xs h =
    sym (sum_counts n xs (λ i le. ground (arith, h i)))
    ∙ total-ones n (λ i. count i xs) (λ i lt. ground (arith, h i))

-- `0, 1, …, n - 1`
abbrev pub up_from : ℕ → ℕ → List ℕ
up_from zero i = []
up_from (suc n) i = i ∷ up_from n (i + 1)

pub count-up_from :
    (i n from : ℕ)
    → count i (up_from n from) ≡ (if ltb i from then 0 else if ltb i (from + n) then 1 else 0)
count-up_from i zero from = ground arith
count-up_from i (suc n) from = ground (arith, count-up_from i n (from + 1))

pub length-up_from : (n from : ℕ) → length (up_from n from) ≡ n
length-up_from zero from = refl
length-up_from (suc n) from = ap suc (length-up_from n (from + 1))
