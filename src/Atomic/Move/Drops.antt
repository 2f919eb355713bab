-- ===== src/Atomic/Move/Drops.antt =====
-- AtomicMove: the loop of `Drop`.
use reactive_mutiny.Common.{
  ℕ, suc, zero, ◌<◌, ◌≡◌, refl, sym, ap, ◌∙◌, Option, none, some, List, [], ◌∷◌, arith, length,
  IsRingSize,
}
use reactive_mutiny.Fifo
use reactive_mutiny.Atomic.Move.{AtomicMove, consume_movable, drop_all}
use reactive_mutiny.Atomic.Move.Refine.{IsQuiet, contents, consume_movable_lem}

module _ {ℓ} {A : Type ℓ} (d : A) (size : ℕ) (sz : IsRingSize size) where
  drop_step :
      (fuel : ℕ) (r r' : AtomicMove A) (o : Option A)
      → consume_movable d size r ≡ some (o, r')
      → drop_all d size (suc fuel) r ≡ (elim o [
        | none ↦ some []
        | some item ↦ elim (drop_all d size fuel r') [
          | none ↦ none
          | some items ↦ some (item ∷ items)
        ]
      ])
  unfolding drop_all
  drop_step fuel r r' none e = rw (e, drop_all)
  drop_step fuel r r' (some x) e = rw (e, drop_all)

  -- With nothing else under way, the loop of `Drop` ends, and drops the elements that are left, oldest
  -- first: one round more than there are elements is enough.
  pub drop_all_lem :
      (fuel : ℕ) (r : AtomicMove A)
      → IsQuiet size r
      → length (contents d size r) < fuel
      → drop_all d size fuel r ≡ some (contents d size r)
  unfolding Fifo.consume
  drop_all_lem zero r v lt = absurd (omega arith)
  drop_all_lem (suc fuel) r v lt =
      let (r', e, c, v') = consume_movable_lem d size sz r v in
      go (contents d size r) refl r' e c (drop_all_lem fuel r' v')
    where
      go :
          (q : List A)
          → contents d size r ≡ q
          → (r' : AtomicMove A)
          → consume_movable d size r ≡ some ((Fifo.consume (contents d size r)).0, r')
          → contents d size r' ≡ (Fifo.consume (contents d size r)).1
          → (length (contents d size r') < fuel
              → drop_all d size fuel r' ≡ some (contents d size r'))
          → drop_all d size (suc fuel) r ≡ some (contents d size r)
      go [] eq r' e c ih = drop_step fuel r r' none (rw eq at e) ∙ sym (ap some eq)
      go (x ∷ q) eq r' e c ih =
          drop_step fuel r r' (some x) (rw eq at e)
          ∙ rw (ih shorter) (ap (λ l. some (x ∷ l)) left)
          ∙ sym (ap some eq)
        where
          left : contents d size r' ≡ q
          left = rw eq at c

          shorter : length (contents d size r') < fuel
          shorter = omega (arith, ap length left, ap length eq)
