-- ===== src/Common/Words.antt =====
-- Wrapping arithmetic on 32-bit words, and the powers of two that divide the word's modulus.
use Prim.Native.Nat.{ℕ, zero, suc, ◌+◌, ◌-◌, ◌*◌, ◌%◌, ◌^◌, ◌<◌, ◌≤◌}
use mathlib.Core.Path.{◌≡◌, ap, ◌∙◌}
use mathlib.Core.Bool.{Bool, ◌&&◌}
use Prim.Native.Nat.{◌∣◌}
use Prim.Native.Nat.add
use native.Mathlib.Nat.{
  mod-mod_of_dvd, pow-zero, pow-suc, pow-le-pow_right, one-le-pow, dvd-mul_right,
}
use native.Mathlib.Omega.{arith}
use reactive_mutiny.Common.Tests.{ltb}

abbrev pub u32_mod : ℕ
u32_mod = 2 ^ 32

-- `a.overflowing_add(b).0` and `a.overflowing_sub(b).0` on `u32`
abbrev pub add_u32 : ℕ → ℕ → ℕ
add_u32 a b = (a + b) % 2 ^ 32

abbrev pub sub_u32 : ℕ → ℕ → ℕ
sub_u32 a b = (a + 2 ^ 32 - b) % 2 ^ 32

-- `fetch_add` on a `usize` of 64 bits
abbrev pub add_u64 : ℕ → ℕ → ℕ
add_u64 a b = (a + b) % 2 ^ 64

-- `(w as i32) > 0`, for a `u32` w
abbrev pub is_pos_i32 : ℕ → Bool
is_pos_i32 w = ltb 0 w && ltb w (2 ^ 31)

pow-add : (a b : ℕ) → 2 ^ (a + b) ≡ 2 ^ a * 2 ^ b
pow-add zero b = rw (add.zero b, pow-zero 2) (omega arith)
pow-add (suc a) b = rw (add.suc a b, pow-suc 2 a, pow-suc 2 (a + b), pow-add a b) (omega arith)

-- What the const generic `BUFFER_SIZE` must be: a power of two, small enough for a length to be a
-- positive `i32`.
pub record IsRingSize (size : ℕ) : Type 0 where
  pub log2 : ℕ
  pub power : size ≡ 2 ^ log2
  pub small : log2 ≤ 30

pub ring_size_bounds : {size : ℕ} → IsRingSize size → (0 < size) × (size ≤ 2 ^ 30)
ring_size_bounds {size} s = (
  rw s.power (one-le-pow s.log2 2 (omega arith)),
  rw s.power (pow-le-pow_right {n = 2} (omega arith) s.small),
)

-- Reducing an index to a word first does not change the slot it falls on.
pub mod-u32-mod : {size : ℕ} (x : ℕ) → IsRingSize size → (x % 2 ^ 32) % size ≡ x % size
mod-u32-mod {size} x s = mod-mod_of_dvd size x divides
  where
    split : 2 ^ 32 ≡ 2 ^ s.log2 * 2 ^ (32 - s.log2)
    split =
        ap (λ k. 2 ^ k) (let e : 32 ≡ s.log2 + (32 - s.log2) = omega (arith, s.small) in e)
        ∙ pow-add s.log2 (32 - s.log2)

    divides : size ∣ 2 ^ 32
    divides = rw (s.power, split) (dvd-mul_right (2 ^ s.log2) (2 ^ (32 - s.log2)))
