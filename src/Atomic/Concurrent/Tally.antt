-- ===== src/Atomic/Concurrent/Tally.antt =====
-- Counting the operations under way on an AtomicMove by what they hold.
use reactive_mutiny.Common.{ℕ, ◌+◌, ◌≤◌, ◌≡◌, refl, List, [], ◌∷◌, ◌++◌, arith, ◌==◌, if◌then◌else◌}
use reactive_mutiny.Atomic.Concurrent.{
  Phase, checking, receding, writing, publishing, probing, retreating, reading, releasing,
}

module _ {ℓ} {A : Type ℓ} where
  abbrev pub tally : (Phase A → ℕ) → List (Phase A) → ℕ
  tally f [] = 0
  tally f (p ∷ ops) = f p + tally f ops

  -- An operation apart from the others.
  pub tally_at :
      (f : Phase A → ℕ) (before : List (Phase A)) (p : Phase A) (after : List (Phase A))
      → tally f (before ++ p ∷ after) ≡ f p + tally f (before ++ after)
  tally_at f [] p after = refl
  tally_at f (b ∷ before) p after = omega (arith, tally_at f before p after)

  pub tally-append :
      (f : Phase A → ℕ) (xs ys : List (Phase A)) → tally f (xs ++ ys) ≡ tally f xs + tally f ys
  tally-append f [] ys = omega arith
  tally-append f (x ∷ xs) ys = omega (arith, tally-append f xs ys)

  pub tally_mono :
      (f g : Phase A → ℕ) (ops : List (Phase A))
      → ((p : Phase A) → f p ≤ g p)
      → tally f ops ≤ tally g ops
  tally_mono f g [] le = omega arith
  tally_mono f g (p ∷ ops) le = omega (arith, le p, tally_mono f g ops le)

  abbrev pub one : Phase A → ℕ
  one p = 1

  abbrev pub producer : Phase A → ℕ
  producer (checking i x) = 1
  producer (receding i x) = 1
  producer (writing i x) = 1
  producer (publishing i) = 1
  producer _ = 0

  abbrev pub consumer : Phase A → ℕ
  consumer (probing i) = 1
  consumer (retreating i) = 1
  consumer (reading i) = 1
  consumer (releasing i x) = 1
  consumer _ = 0

  -- The producers that reserved the id `j`.
  abbrev pub producer_of : ℕ → Phase A → ℕ
  producer_of j (checking i x) = if i == j then 1 else 0
  producer_of j (receding i x) = if i == j then 1 else 0
  producer_of j (writing i x) = if i == j then 1 else 0
  producer_of j (publishing i) = if i == j then 1 else 0
  producer_of j _ = 0

  -- Those among them that own the slot of `j`.
  abbrev pub filler_of : ℕ → Phase A → ℕ
  filler_of j (writing i x) = if i == j then 1 else 0
  filler_of j (publishing i) = if i == j then 1 else 0
  filler_of j _ = 0

  -- The consumers that reserved the id `j`.
  abbrev pub consumer_of : ℕ → Phase A → ℕ
  consumer_of j (probing i) = if i == j then 1 else 0
  consumer_of j (retreating i) = if i == j then 1 else 0
  consumer_of j (reading i) = if i == j then 1 else 0
  consumer_of j (releasing i x) = if i == j then 1 else 0
  consumer_of j _ = 0

  -- Those among them that own the slot of `j`.
  abbrev pub taker_of : ℕ → Phase A → ℕ
  taker_of j (reading i) = if i == j then 1 else 0
  taker_of j (releasing i x) = if i == j then 1 else 0
  taker_of j _ = 0

  pub fillers-le-producers :
      (j : ℕ) (ops : List (Phase A)) → tally (filler_of j) ops ≤ tally (producer_of j) ops
  fillers-le-producers j ops = tally_mono (filler_of j) (producer_of j) ops fewer
    where
      fewer : (p : Phase A) → filler_of j p ≤ producer_of j p
      fewer (checking i x) = omega arith
      fewer (receding i x) = omega arith
      fewer (writing i x) = omega arith
      fewer (publishing i) = omega arith
      fewer (probing i) = omega arith
      fewer (retreating i) = omega arith
      fewer (reading i) = omega arith
      fewer (releasing i x) = omega arith

  pub takers-le-consumers :
      (j : ℕ) (ops : List (Phase A)) → tally (taker_of j) ops ≤ tally (consumer_of j) ops
  takers-le-consumers j ops = tally_mono (taker_of j) (consumer_of j) ops fewer
    where
      fewer : (p : Phase A) → taker_of j p ≤ consumer_of j p
      fewer (checking i x) = omega arith
      fewer (receding i x) = omega arith
      fewer (writing i x) = omega arith
      fewer (publishing i) = omega arith
      fewer (probing i) = omega arith
      fewer (retreating i) = omega arith
      fewer (reading i) = omega arith
      fewer (releasing i x) = omega arith

  pub producers-add-consumers :
      (ops : List (Phase A)) → tally producer ops + tally consumer ops ≡ tally one ops
  producers-add-consumers [] = refl
  producers-add-consumers (checking i x ∷ ops) = omega (arith, producers-add-consumers ops)
  producers-add-consumers (receding i x ∷ ops) = omega (arith, producers-add-consumers ops)
  producers-add-consumers (writing i x ∷ ops) = omega (arith, producers-add-consumers ops)
  producers-add-consumers (publishing i ∷ ops) = omega (arith, producers-add-consumers ops)
  producers-add-consumers (probing i ∷ ops) = omega (arith, producers-add-consumers ops)
  producers-add-consumers (retreating i ∷ ops) = omega (arith, producers-add-consumers ops)
  producers-add-consumers (reading i ∷ ops) = omega (arith, producers-add-consumers ops)
  producers-add-consumers (releasing i x ∷ ops) = omega (arith, producers-add-consumers ops)
