-- ===== src/Common/Monads.antt =====
-- Operations on a state that may not return.
use mathlib.Core.Option.{Option, none, some}
use Prim.Native.Nat.{ℕ}
use reactive_mutiny.Common.Tests.{◌==◌, if◌then◌else◌}

-- The result and the new state, or `none` for a call that spins for ever or reads freed memory.
abbrev pub Run {ℓ κ} : Type ℓ → Type κ → Type (ℓ ⊔ κ)
Run S X = S → Option (X × S)

infixl 5 ◌>>=◌
abbrev pub ◌>>=◌ {ℓ κ ι} :
    {S : Type ℓ} {X : Type κ} {Y : Type ι} → Run S X → (X → Run S Y) → Run S Y
◌>>=◌ m f s = elim (m s) [ none ↦ none | some (x, s') ↦ f x s' ]

abbrev pub return {ℓ κ} : {S : Type ℓ} {X : Type κ} → X → Run S X
return x s = some (x, s)

-- `NonZeroU32::new`
abbrev pub non_zero_u32 : ℕ → Option ℕ
non_zero_u32 n = if n == 0 then none else some n
