-- ===== src/Averages.antt =====
-- AtomicIncrementalAverage64 of src/incremental_averages.rs: a counter and an average in the two halves of
-- one atomic word, which is the state.
pub mod Updates
use reactive_mutiny.Common.{
  ℕ, ◌+◌, ◌-◌, ◌*◌, ◌/◌, ◌%◌, ◌^◌, ◌<◌, ◌≡◌, none, some, List, [], ◌∷◌, ◌==◌, if◌then◌else◌, Run,
}

-- What the code uses of `f32`: its bits, which give it back, and its arithmetic.
pub record Float : Type 1 where
  pub F : Type 0
  pub to_bits : F → ℕ
  pub from_bits : ℕ → F
  pub bits_word : (x : F) → to_bits x < 2 ^ 32
  pub from_bits-to_bits : (x : F) → from_bits (to_bits x) ≡ x
  pub zero_point_zero : F
  pub one_point_zero : F
  pub from_u32 : ℕ → F
  pub add : F → F → F
  pub mul : F → F → F
  pub div : F → F → F

module _ (f : Float) where
  -- The mask is a remainder, and the shift a quotient.
  pub split_joined : ℕ → ℕ × f.F
  split_joined joined = (joined % 2 ^ 32, f.from_bits ((joined / 2 ^ 32) % 2 ^ 32))

  -- The halves share no bit: `|` is a sum.
  pub join_split : ℕ → f.F → ℕ
  join_split counter average = counter % 2 ^ 32 + f.to_bits average * 2 ^ 32

  abbrev pub new : ℕ
  new = join_split 0 f.zero_point_zero

  -- What the exchange stores, where the word is `current`.
  pub updated : (ℕ → f.F → ℕ × f.F) → ℕ → ℕ
  unfolding split_joined join_split
  updated computation current =
      let (counter, average) = split_joined current in
      let (new_counter, new_average) = computation counter average in
      join_split new_counter new_average

  -- The list holds what other threads do before the exchange of each round; after the last entry, nobody
  -- else changes the word.
  pub compute_loop : (ℕ → f.F → ℕ × f.F) → List (ℕ → ℕ) → ℕ → Run ℕ (Unit {0})
  unfolding updated
  compute_loop computation [] current joined =
      if joined == current then some (tt, updated computation current) else none
  compute_loop computation (others ∷ rounds) current joined =
      let again = compute_loop computation rounds (others joined) (others joined) in
      if others joined == current then some (tt, updated computation current) else again

  pub atomic_compute : (ℕ → f.F → ℕ × f.F) → List (ℕ → ℕ) → Run ℕ (Unit {0})
  unfolding compute_loop
  atomic_compute computation rounds joined = compute_loop computation rounds joined joined

  -- The weight that the next measurement meets: a counter at its maximum starts again at 100.
  abbrev pub weight : ℕ → ℕ
  weight counter = if counter == 2 ^ 32 - 1 then 100 else counter

  -- The closure of `inc`.
  abbrev pub include : f.F → ℕ → f.F → ℕ × f.F
  include measurement counter average =
      let n = f.from_u32 (weight counter) in
      (
        weight counter + 1,
        f.add (f.mul (f.div n (f.add f.one_point_zero n)) average)
            (f.div measurement (f.add f.one_point_zero n)),
      )

  pub inc : f.F → List (ℕ → ℕ) → Run ℕ (Unit {0})
  unfolding atomic_compute
  inc measurement = atomic_compute (include measurement)

  abbrev pub probe : ℕ → ℕ × f.F
  probe = split_joined
