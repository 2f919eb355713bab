-- ===== src/ZeroCopy/Stock.antt =====
-- The zero-copy queues: which slots are published, and the values in them.
use reactive_mutiny.Common.{
  ℕ, ◌≡◌, ◌≢◌, refl, ap, List, [], ◌∷◌, ◌++◌, arith, length, count, get_or, set, get_or-set_ne,
}
use reactive_mutiny.Container.{MoveContainer}
use reactive_mutiny.Alloc.Pool.Ownership.{IsSound}
use reactive_mutiny.ZeroCopy.{ZeroCopy}

-- The values of the slots, in the order of the ids.
abbrev pub values_of : {D : Type 0} → D → List D → List ℕ → List D
values_of junk pool [] = []
values_of junk pool (i ∷ ids) = get_or pool i junk ∷ values_of junk pool ids

pub length-values_of :
    {D : Type 0}
    → (junk : D) (pool : List D) (ids : List ℕ) → length (values_of junk pool ids) ≡ length ids
length-values_of junk pool [] = refl
length-values_of junk pool (i ∷ ids) = omega (arith, length-values_of junk pool ids)

pub values_of-append :
    {D : Type 0}
    → (junk : D) (pool : List D) (xs ys : List ℕ)
    → values_of junk pool (xs ++ ys) ≡ values_of junk pool xs ++ values_of junk pool ys
values_of-append junk pool [] ys = refl
values_of-append junk pool (x ∷ xs) ys =
    ap (λ l. get_or pool x junk ∷ l) (values_of-append junk pool xs ys)

-- Writing a slot that is not among them changes none of them.
pub values_of-set :
    {D : Type 0}
    → (junk : D) (pool : List D) (i : ℕ) (x : D) (ids : List ℕ) → count i ids ≡ 0
    → values_of junk (set pool i x) ids ≡ values_of junk pool ids
values_of-set junk pool i x [] h = refl
values_of-set junk pool i x (j ∷ ids) h =
    rw (get_or-set_ne pool i j x junk differ, values_of-set junk pool i x ids (ground arith)) refl
  where
    differ : i ≢ j
    differ = ground arith

module _ {D : Type 0} (c q : MoveContainer ℕ) (pool_size : ℕ) where
  -- `leaked` lists the slots that were reserved and not published, or consumed and not released.
  pub record IsStocked (leaked : List ℕ) (s : ZeroCopy D c q) : Type 0 where
    pub ready : q.IsReady s.queue
    pub owned : IsSound c pool_size (q.contents s.queue ++ leaked) s.allocator

  -- The published elements, oldest first.
  abbrev pub contents : D → ZeroCopy D c q → List D
  contents junk s = values_of junk s.allocator.pool (q.contents s.queue)
