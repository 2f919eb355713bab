-- ===== src/Common/Sharing.antt =====
-- Numbers below a limit, each in one of two lists: the free ones and the held ones.
use Prim.Native.Nat.{ℕ, ◌+◌, ◌<◌, ◌≤◌}
use mathlib.Core.Path.{◌≡◌, sym, ◌∙◌}
use mathlib.Core.List.{List, [], ◌∷◌, ◌++◌}
use native.Mathlib.Omega.{arith}
use reactive_mutiny.Common.Tests.{ltb, if◌then◌else◌}
use reactive_mutiny.Common.Lists.{length, length-append}
use reactive_mutiny.Common.Counts.{count, remove, count-append, count-remove, length_of_counts}

module _ (limit : ℕ) where
  -- Every number below the limit is in one of the lists, once, and nothing else is.
  abbrev pub IsShared : List ℕ → List ℕ → Type 0
  IsShared free held = (i : ℕ) → count i free + count i held ≡ (if ltb i limit then 1 else 0)

  pub hand_out :
      (x : ℕ) (q held : List ℕ)
      → IsShared (x ∷ q) held
      → (x < limit) × (count x held ≡ 0) × IsShared q (x ∷ held)
  hand_out x q held h = (ground (arith, h x), ground (arith, h x), λ i. omega (arith, h i))

  pub take_back :
      (x : ℕ) (q held : List ℕ)
      → IsShared q held
      → 0 < count x held
      → IsShared (q ++ (x ∷ [])) (remove x held)
  take_back x q held h has i =
      omega (arith, count-append i q (x ∷ []), count-remove x i held has, h i)

  pub shared_length : (free held : List ℕ) → IsShared free held → length free + length held ≡ limit
  shared_length free held h =
      sym (length-append free held)
      ∙ length_of_counts limit (free ++ held) (λ i. count-append i free held ∙ h i)

  pub shared_once :
      (free held : List ℕ)
      → IsShared free held
      → (i : ℕ) → count i free ≤ (if ltb i limit then 1 else 0)
  shared_once free held h i = omega (arith, h i)
