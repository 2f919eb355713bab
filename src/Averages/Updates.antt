-- ===== src/Averages/Updates.antt =====
-- The averages: the two halves of the word, and that no update of it is lost.
use reactive_mutiny.Common.{
  if◌then◌else◌, ℕ, ◌+◌, ◌*◌, ◌/◌, ◌%◌, ◌^◌, ◌<◌, ◌≡◌, refl, ap, ap₂, ◌∙◌, Bool-cases, inl, inr,
  some, List, [], ◌∷◌, arith, ◌==◌, ==_iff,
}
use reactive_mutiny.Averages.{
  Float, split_joined, join_split, updated, compute_loop, atomic_compute, include, weight, inc,
  probe,
}

-- The word once no other thread changes it between a load and the exchange that follows: every change made
-- before that is in it.
abbrev pub settled : List (ℕ → ℕ) → ℕ → ℕ
settled [] joined = joined
settled (others ∷ rounds) joined =
    let next = settled rounds (others joined) in if others joined == joined then joined else next

module _ (f : Float) where
  pub split_joined-join_split :
      (counter : ℕ) (average : f.F)
      → counter < 2 ^ 32
      → split_joined f (join_split f counter average) ≡ (counter, average)
  unfolding split_joined join_split
  split_joined-join_split counter average word =
      ap₂ (λ c a. (c, a)) low (ap f.from_bits high ∙ f.from_bits-to_bits average)
    where
      low : (counter % 2 ^ 32 + f.to_bits average * 2 ^ 32) % 2 ^ 32 ≡ counter
      low = omega (arith, word)

      high : ((counter % 2 ^ 32 + f.to_bits average * 2 ^ 32) / 2 ^ 32) % 2 ^ 32 ≡ f.to_bits average
      high = omega (arith, word, f.bits_word average)

  -- The loop stores once, over the settled word.
  compute_loop_settles :
      (computation : ℕ → f.F → ℕ × f.F) (rounds : List (ℕ → ℕ)) (joined : ℕ)
      → compute_loop f computation rounds joined joined
        ≡ some (tt, updated f computation (settled rounds joined))
  unfolding compute_loop
  compute_loop_settles computation [] joined = rw ((==_iff joined joined).1 refl) refl
  compute_loop_settles computation (others ∷ rounds) joined =
      elim (Bool-cases (others joined == joined)) [
        | inl same ↦ rw same refl
        | inr changed ↦ rw changed (compute_loop_settles computation rounds (others joined))
      ]

  weight_word : (counter : ℕ) → counter < 2 ^ 32 → weight f counter + 1 < 2 ^ 32
  weight_word counter word = ground (arith, word)

  -- The average of `n` measurements with one more among them.
  abbrev pub averaged : f.F → f.F → f.F → f.F
  averaged n average measurement =
      f.add (f.mul (f.div n (f.add f.one_point_zero n)) average)
        (f.div measurement (f.add f.one_point_zero n))

  -- What the other threads make of the counter and the average, before `inc` stores its own.
  abbrev pub counter_before : List (ℕ → ℕ) → ℕ → ℕ
  counter_before rounds joined = (probe f (settled rounds joined)).0

  abbrev pub average_before : List (ℕ → ℕ) → ℕ → f.F
  average_before rounds joined = (probe f (settled rounds joined)).1

  -- Whatever other threads store meanwhile, `inc` returns, and none of their changes is lost: it goes on
  -- from the word that they leave once no change falls between its load and its exchange. The counter goes
  -- up by one, or from its maximum to 101; the average takes the measurement in as one more after as many
  -- as the counter tells, or after 100 of them at the maximum.
  pub inc_lem :
      (measurement : f.F) (rounds : List (ℕ → ℕ)) (joined : ℕ)
      → (joined' : ℕ) × (inc f measurement rounds joined ≡ some (tt, joined'))
        × ((probe f joined').0 ≡ (
            if counter_before rounds joined == 4_294_967_295
            then 101
            else counter_before rounds joined + 1))
        × ((probe f joined').1 ≡ (
            if counter_before rounds joined == 4_294_967_295
            then averaged (f.from_u32 100) (average_before rounds joined) measurement
            else averaged
                (f.from_u32 (counter_before rounds joined))
                (average_before rounds joined)
                measurement))
  unfolding inc atomic_compute updated
  inc_lem measurement rounds joined = (
    updated f (include f measurement) (settled rounds joined),
    compute_loop_settles (include f measurement) rounds joined,
    ap (λ r. r.0) both ∙ first (counter_before rounds joined),
    ap (λ r. r.1) both ∙ second (counter_before rounds joined) (average_before rounds joined),
  )
    where
      low_word : (l : ℕ) → (probe f l).0 < 2 ^ 32
      low_word l = unfold split_joined in omega arith

      both :
          probe f (updated f (include f measurement) (settled rounds joined))
          ≡ include f measurement (counter_before rounds joined) (average_before rounds joined)
      both =
          split_joined-join_split _ _
            (weight_word (counter_before rounds joined) (low_word (settled rounds joined)))

      first : (n : ℕ) → weight f n + 1 ≡ (if n == 4_294_967_295 then 101 else n + 1)
      first n = ground arith

      second :
          (n : ℕ) (a : f.F)
          → averaged (f.from_u32 (weight f n)) a measurement ≡ (
              if n == 4_294_967_295
              then averaged (f.from_u32 100) a measurement
              else averaged (f.from_u32 n) a measurement)
      second n a = elim (Bool-cases (n == 4_294_967_295)) [ inl e ↦ rw e refl | inr e ↦ rw e refl ]
