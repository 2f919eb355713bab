-- ===== src/Atomic/Move/Container.antt =====
-- AtomicMove is a MoveContainer.
use reactive_mutiny.Common.{ℕ, ◌≡◌, refl, sym, [], length, IsRingSize, arith, length-replicate}
use reactive_mutiny.Container.{MoveContainer}
use reactive_mutiny.Atomic.Move.{
  AtomicMove, available_elements_count, new, with_initializer, publish_movable, consume_movable,
}
use reactive_mutiny.Atomic.Move.Refine.{
  IsQuiet, contents, length-contents, publish_movable_lem, consume_movable_lem,
}

module _ {ℓ} {A : Type ℓ} (d : A) (size : ℕ) where
  pub with_initializer-IsQuiet :
      (slot : A)
      → IsQuiet size (with_initializer d size slot)
        × (contents d size (with_initializer d size slot) ≡ [])
  unfolding with_initializer
  with_initializer-IsQuiet slot = (ground (arith, length-replicate size slot), refl)

  pub new-IsQuiet : IsQuiet size (new d size) × (contents d size (new d size) ≡ [])
  unfolding new
  new-IsQuiet = with_initializer-IsQuiet d

  pub available_elements_count_lem :
      (r : AtomicMove A) → available_elements_count d size r ≡ length (contents d size r)
  unfolding available_elements_count
  available_elements_count_lem r = sym (length-contents d size r)

  abbrev pub atomic_move : IsRingSize size → MoveContainer A
  atomic_move sz = record {
    State = AtomicMove A;
    new = new d size;
    publish_movable = publish_movable d size;
    consume_movable = consume_movable d size;
    available_elements_count = available_elements_count d size;
    max_size = size;
    contents = contents d size;
    IsReady = IsQuiet size;
    new_ready = new-IsQuiet.0;
    new_empty = new-IsQuiet.1;
    publish_refines = publish_movable_lem d size sz;
    consume_refines = consume_movable_lem d size sz;
    counts = λ r v. available_elements_count_lem r;
  }
