-- ===== src/Tests/Piles.antt =====
-- The atomic stack on a concrete stack of four places.
use reactive_mutiny.Common.{ℕ, ◌≡◌, refl, true, false, Option, none, some, [], ◌∷◌, arith}
use reactive_mutiny.Stacks.Atomic
use reactive_mutiny.Stacks.Atomic.{Stack}
use reactive_mutiny.Stacks.Atomic.Refine.{IsFree, contents, pop-contents}

-- 10, and 20 on top
abbrev two_high : Stack ℕ
two_high = record {
  head = 2;
  buffer = 10 ∷ 20 ∷ 30 ∷ 40 ∷ [];
  flag = false;
  push_count = 3;
  pop_count = 1;
  push_collisions = 0;
  pop_collisions = 0;
  push_full_count = 0;
  pop_empty_count = 0;
}

two_high-IsFree : IsFree 4 two_high
two_high-IsFree = record { free = refl; shape = refl; bounded = omega arith }

pop-contents_example :
    (o : Option ℕ) × (s' : Stack ℕ) × (Atomic.pop 0 4 true [] two_high ≡ some (o, s'))
    × (20 ∷ 10 ∷ [] ≡ (elim o [ none ↦ [] | some x ↦ x ∷ contents 0 4 true s' ]))
    × ((o ≡ none) → contents 0 4 true s' ≡ [])
    × IsFree 4 s'
pop-contents_example = pop-contents 0 4 true [] two_high (omega arith) two_high-IsFree
