-- ===== src/Minzip/Bits.antt =====
-- Masking by one less than a power of two, as minzip/Hash.c does.
use Prim.Native.Nat.{bit_and}
use native.Mathlib.Nat.{pow-suc}
use open_recovery.Base.{ℕ, zero, suc, ◌+◌, ◌-◌, ◌*◌, ◌/◌, ◌%◌, ◌^◌, ◌<◌, ◌≡◌, arith}
use open_recovery.Base.Digits.{and_lowest, and_with_zero}

pub pow2-pos : (k : ℕ) → 0 < 2 ^ k
pow2-pos zero = omega arith
pow2-pos (suc k) = rw pow-suc (omega (arith, pow2-pos k))

mod_double : (a m : ℕ) → 0 < m → a % (m * 2) ≡ (a / 2) % m * 2 + a % 2
mod_double a m h = grind arith

-- Masking by 2 ^ k - 1 is the remainder by 2 ^ k.
pub bit_and-mask : (k a : ℕ) → bit_and a (2 ^ k - 1) ≡ a % 2 ^ k
bit_and-mask zero a = omega (arith, and_with_zero a a (omega arith))
bit_and-mask (suc k) a =
    let half = bit_and-mask k (a / 2) in
    let full : (2 ^ k * 2 - 1) / 2 ≡ 2 ^ k - 1 = omega (arith, pow2-pos k) in
    rw (pow-suc, mod_double a (2 ^ k) (pow2-pos k), and_lowest a (2 ^ k * 2 - 1), full, half)
      (omega (arith, pow2-pos k))
