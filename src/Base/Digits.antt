-- ===== src/Base/Digits.antt =====
-- Operations on binary digits by their lowest digit, over the operation on two digits.
use Prim.Native.Nat.add
use Prim.Native.Nat.{
  ℕ, zero, suc, ◌+◌, ◌-◌, ◌*◌, ◌/◌, ◌%◌, ◌≤◌, digits, bit_and, bit_or, bit_and-bitwise,
  bit_or-bitwise, min, max,
}
use mathlib.Core.Path.{◌≡◌, refl, ap, sym, ◌∙◌}
use native.Mathlib.Omega.{arith}

module _ (rest : ℕ → ℕ) (op : ℕ → ℕ → ℕ) where
  one_more : (n a b : ℕ) → a ≤ n → digits rest op (suc n) a b ≡ digits rest op n a b
  one_more n zero b h = elim n as (λ m. digits rest op (suc m) zero b ≡ digits rest op m zero b) [
    | zero ↦ refl
    | suc m ↦ refl
  ]
  one_more zero (suc a) b h = absurd (omega arith)
  one_more (suc n) (suc a) b h =
      ap (λ t. t * 2 + op (suc a % 2) (b % 2)) (one_more n (suc a / 2) (b / 2) (omega arith))

  spare : (k a b : ℕ) → digits rest op (k + a) a b ≡ digits rest op a a b
  spare zero a b = ap (λ n. digits rest op n a b) (add.zero a)
  spare (suc k) a b =
      ap (λ n. digits rest op n a b) (add.suc k a)
      ∙ one_more (k + a) a b (omega arith)
      ∙ spare k a b

  by_lowest :
      (a b : ℕ)
      → digits rest op (suc a) (suc a) b
        ≡ digits rest op (suc a / 2) (suc a / 2) (b / 2) * 2 + op (suc a % 2) (b % 2)
  by_lowest a b =
      let fuel : a ≡ (a - suc a / 2) + suc a / 2 = omega arith in
      ap (λ t. t * 2 + op (suc a % 2) (b % 2))
        (ap (λ n. digits rest op n (suc a / 2) (b / 2)) fuel
          ∙ spare (a - suc a / 2) (suc a / 2) (b / 2))

pub and_of_zero : (b : ℕ) → bit_and 0 b ≡ 0
and_of_zero b = bit_and-bitwise 0 b

pub and_lowest : (a b : ℕ) → bit_and a b ≡ bit_and (a / 2) (b / 2) * 2 + min (a % 2) (b % 2)
and_lowest zero b = omega (arith, and_of_zero b, and_of_zero (b / 2))
and_lowest (suc a) b =
    bit_and-bitwise (suc a) b
    ∙ by_lowest (λ b. zero) min a b
    ∙ ap (λ t. t * 2 + min (suc a % 2) (b % 2)) (sym (bit_and-bitwise (suc a / 2) (b / 2)))

pub or_of_zero : (b : ℕ) → bit_or 0 b ≡ b
or_of_zero b = bit_or-bitwise 0 b

pub or_lowest : (a b : ℕ) → bit_or a b ≡ bit_or (a / 2) (b / 2) * 2 + max (a % 2) (b % 2)
or_lowest zero b = omega (arith, or_of_zero b, or_of_zero (b / 2))
or_lowest (suc a) b =
    bit_or-bitwise (suc a) b
    ∙ by_lowest (λ b. b) max a b
    ∙ ap (λ t. t * 2 + max (suc a % 2) (b % 2)) (sym (bit_or-bitwise (suc a / 2) (b / 2)))

-- a bound on `a` is recursion enough
pub and_with_zero : (bound a : ℕ) → a ≤ bound → bit_and a 0 ≡ 0
and_with_zero bound zero h = and_of_zero 0
and_with_zero zero (suc a) h = absurd (omega arith)
and_with_zero (suc bound) (suc a) h =
    omega (arith, and_lowest (suc a) 0, and_with_zero bound (suc a / 2) (omega arith))
