-- ===== src/Tests/Averages.antt =====
-- The averages over numbers of one bit, with another thread that counts between the load and the store.
use reactive_mutiny.Common.{
  if◌then◌else◌, ℕ, ◌+◌, ◌<◌, ◌^◌, ◌≡◌, refl, Bool, true, false, some, [], ◌∷◌, arith, ◌==◌, ◌&&◌,
  ◌||◌,
}
use reactive_mutiny.Averages
use reactive_mutiny.Averages.{Float, join_split}
use reactive_mutiny.Averages.Updates.{
  counter_before, average_before, averaged, split_joined-join_split, inc_lem,
}

abbrev bit : Bool → ℕ
bit false = 0
bit true = 1

bit_word : (x : Bool) → bit x < 2 ^ 32
bit_word false = omega arith
bit_word true = omega arith

bit_back : (x : Bool) → (bit x == 1) ≡ x
bit_back false = refl
bit_back true = refl

abbrev bits : Float
bits = record {
  F = Bool;
  to_bits = bit;
  from_bits = λ n. n == 1;
  bits_word = bit_word;
  from_bits-to_bits = bit_back;
  zero_point_zero = false;
  one_point_zero = true;
  from_u32 = λ n. n == 1;
  add = λ a b. a || b;
  mul = λ a b. a && b;
  div = λ a b. a && b;
}

split_of_seven : Averages.split_joined bits (join_split bits 7 true) ≡ (7, true)
split_of_seven = split_joined-join_split bits 7 true (omega arith)

-- Another thread counts from 3 to 4.
abbrev counting : ℕ → ℕ
counting joined = joined + 1

inc_lem_example :
    (joined' : ℕ) × (Averages.inc bits true (counting ∷ []) 3 ≡ some (tt, joined'))
    × ((Averages.probe bits joined').0 ≡ (
        if counter_before bits (counting ∷ []) 3 == 4_294_967_295
        then 101
        else counter_before bits (counting ∷ []) 3 + 1))
    × ((Averages.probe bits joined').1 ≡ (
        if counter_before bits (counting ∷ []) 3 == 4_294_967_295
        then averaged bits (100 == 1) (average_before bits (counting ∷ []) 3) true
        else averaged bits
            (counter_before bits (counting ∷ []) 3 == 1)
            (average_before bits (counting ∷ []) 3)
            true))
inc_lem_example = inc_lem bits true (counting ∷ []) 3
