-- ===== src/FullSync/Move/Container.antt =====
-- FullSyncMove is a MoveContainer.
use reactive_mutiny.Common.{ℕ, ◌≡◌, sym, [], length, IsRingSize}
use reactive_mutiny.Container.{MoveContainer}
use reactive_mutiny.FullSync.Move.{
  FullSyncMove, available_elements_count, new, publish_movable, consume_movable,
}
use reactive_mutiny.FullSync.Move.Refine.{
  IsReady, contents, length-contents, publish_refines, consume_refines,
}
use reactive_mutiny.FullSync.Move.Lifecycle.{with_initializer-IsReady}

module _ {ℓ} {A : Type ℓ} (d : A) (size : ℕ) where
  pub new-IsReady : IsReady size (new d size) × (contents d size (new d size) ≡ [])
  unfolding new
  new-IsReady = with_initializer-IsReady d size d

  -- `available_elements_count` is the number of elements.
  pub available_elements_count_lem :
      (r : FullSyncMove A) → available_elements_count d size r ≡ length (contents d size r)
  unfolding available_elements_count
  available_elements_count_lem r = sym (length-contents d size r)

  abbrev pub full_sync_move : IsRingSize size → MoveContainer A
  full_sync_move sz = record {
    State = FullSyncMove A;
    new = new d size;
    publish_movable = publish_movable d size;
    consume_movable = consume_movable d size;
    available_elements_count = available_elements_count d size;
    max_size = size;
    contents = contents d size;
    IsReady = IsReady size;
    new_ready = new-IsReady.0;
    new_empty = new-IsReady.1;
    publish_refines = publish_refines d size sz;
    consume_refines = consume_refines d size sz;
    counts = λ r v. available_elements_count_lem r;
  }
