-- ===== src/Minzip/Round.antt =====
-- roundUpPower2 of minzip/Hash.c.
use Prim.Native.Nat.{bit_or, max}
use Prim.Native.Nat.add
use native.Mathlib.Nat.{
  div-one, mod-eq_of_lt, mod-lt, div-add-mod', add-mul-mod_self_left, pow-suc, div-div-eq-div-mul,
  mul_comm,
}
use open_recovery.Base.{
  ℕ, zero, suc, ◌+◌, ◌-◌, ◌*◌, ◌/◌, ◌%◌, ◌^◌, ◌≤◌, ◌<◌, ◌≡◌, ◌↔◌, ◌≢◌, refl, ◌∙◌, ap, sym, arith,
}
use open_recovery.Base.Digits.{or_lowest}
use open_recovery.Minzip.Bits.{pow2-pos}
use open_recovery.Minzip.Hash.{smears, round_up_power2}

-- `v >> i`
halved : ℕ → ℕ → ℕ
halved zero v = v
halved (suc i) v = halved i (v / 2)

halved-bit_or : (i a b : ℕ) → halved i (bit_or a b) % 2 ≡ max (halved i a % 2) (halved i b % 2)
unfolding halved
halved-bit_or zero a b = omega (arith, or_lowest a b)
halved-bit_or (suc i) a b =
    let half : bit_or a b / 2 ≡ bit_or (a / 2) (b / 2) = omega (arith, or_lowest a b) in
    rw half (halved-bit_or i (a / 2) (b / 2))

module _ (p : ℕ) where
  halved-div : (i v : ℕ) → halved i (v / p) ≡ halved i v / p
  unfolding halved
  halved-div zero v = refl
  halved-div (suc i) v =
      rw (div-div-eq-div-mul, mul_comm, ← div-div-eq-div-mul) (halved-div i (v / 2))

halved-add : (s i v : ℕ) → halved (s + i) v ≡ halved i (v / 2 ^ s)
unfolding halved
halved-add zero i v = rw (add.zero, div-one)
halved-add (suc s) i v =
    let split : v / 2 / 2 ^ s ≡ v / 2 ^ suc s =
      rw (div-div-eq-div-mul, pow-suc, mul_comm 2 (2 ^ s)) in
    let on : halved (suc s + i) v ≡ halved (s + i) (v / 2) = rw add.suc in
    on ∙ halved-add s i (v / 2) ∙ ap (halved i) split

-- digit `i` of `x` is 0 exactly when the digits `i` to `i + s - 1` of `v` are
abbrev Gathers : ℕ → ℕ → ℕ → Type 0
Gathers s v x = (i : ℕ) → (halved i x % 2 ≡ 0) ↔ (halved i v % 2 ^ s ≡ 0)

in_square : (r c p : ℕ) → r < p → c < p → r * p + c < p * p
in_square r c p a b = grind arith

mod_square : (u p : ℕ) → 0 < p → u % (p * p) ≡ u / p % p * p + u % p
mod_square u p h =
    let q = u / p in
    let split : u ≡ q % p * p + u % p + p * p * (q / p) =
      sym (div-add-mod' u p) ∙ ap (λ n. n * p + u % p) (sym (div-add-mod' q p)) ∙ omega arith in
    ap (λ n. n % (p * p)) split
    ∙ add-mul-mod_self_left (q % p * p + u % p) (p * p) (q / p)
    ∙ mod-eq_of_lt (in_square (q % p) (u % p) p (mod-lt q h) (mod-lt u h))

sum-eq-zero : (a b p : ℕ) → 0 < p → (a * p + b ≡ 0) ↔ ((b ≡ 0) × (a ≡ 0))
sum-eq-zero zero b p h = (λ e. omega arith, λ e. omega arith)
sum-eq-zero (suc a) b p h = (λ e. absurd (grind arith), λ e. absurd (omega arith))

-- `val |= val >> s` doubles what each digit has gathered
smear-Gathers :
    (s v x : ℕ)
    → 2 ^ (s + s) ≡ 2 ^ s * 2 ^ s
    → Gathers s v x
    → Gathers (s + s) v (bit_or x (x / 2 ^ s))
smear-Gathers s v x square g i =
    let low = g i in
    let high = rw (halved-add s i x, halved-add s i v, halved-div (2 ^ s) i v) at (g (s + i)) in
    let parts =
      sum-eq-zero (halved i v / 2 ^ s % 2 ^ s) (halved i v % 2 ^ s) (2 ^ s) (pow2-pos s) in
    rw (halved-bit_or i x (x / 2 ^ s), square, mod_square (halved i v) (2 ^ s) (pow2-pos s))
      (
        (λ e. parts.1 (low.0 (omega arith), high.0 (omega arith))),
        (λ e. let (b, a) = parts.0 e in omega (arith, low.1 b, high.1 a)),
      )

halved-lt : (i v n : ℕ) → v < n → halved i v < n
unfolding halved
halved-lt zero v n h = h
halved-lt (suc i) v n h = halved-lt i (v / 2) n (omega arith)

-- every digit of `x` says whether `v` has a digit there or higher
abbrev FillsDown : ℕ → ℕ → Type 0
FillsDown v x = (i : ℕ) → (halved i x % 2 ≡ 0) ↔ (halved i v ≡ 0)

FillsDown-zero : (n x : ℕ) → x ≤ n → FillsDown 0 x → x ≡ 0
unfolding halved
FillsDown-zero zero x h f = omega arith
FillsDown-zero (suc n) x h f =
    let low : x % 2 ≡ 0 = (f 0).1 refl in
    let rest : x / 2 ≡ 0 = FillsDown-zero n (x / 2) (omega arith) (λ i. f (suc i)) in omega arith

-- such an `x` is one less than the least power of two above `v`
FillsDown-power :
    (n v x : ℕ)
    → v ≤ n
    → FillsDown v x
    → (k : ℕ) × (x + 1 ≡ 2 ^ k) × (v ≤ x) × (x + 1 ≤ 2 * v + (1 - v))
unfolding halved
FillsDown-power n zero x h f =
    let none_set = FillsDown-zero x x (omega arith) f in (0, omega arith, omega arith, omega arith)
FillsDown-power zero (suc v) x h f = absurd (omega arith)
FillsDown-power (suc n) (suc v) x h f =
    let (k, power, above, below) =
      FillsDown-power n (suc v / 2) (x / 2) (omega arith) (λ i. f (suc i)) in
    let odd : x % 2 ≢ 0 = λ e. absurd (ground (arith, (f 0).0 e)) in
    (suc k, rw pow-suc (omega arith), omega arith, omega arith)

smears-Gathers : (v : ℕ) → Gathers 32 v (smears v)
unfolding smears
smears-Gathers v =
    let x1 = bit_or v (v / 2 ^ 1) in
    let x2 = bit_or x1 (x1 / 2 ^ 2) in
    let x4 = bit_or x2 (x2 / 2 ^ 4) in
    let x8 = bit_or x4 (x4 / 2 ^ 8) in
    let start : Gathers 1 v v = λ i. (λ e. e, λ e. e) in
    smear-Gathers 16 v x8 refl (
      smear-Gathers 8 v x4 refl
        (smear-Gathers 4 v x2 refl (smear-Gathers 2 v x1 refl (smear-Gathers 1 v v refl start))))

smears-FillsDown : (v : ℕ) → v < 2 ^ 32 → FillsDown v (smears v)
smears-FillsDown v h i = rw (mod-eq_of_lt (halved-lt i v (2 ^ 32) h)) at (smears-Gathers v i)

-- For 0 < n ≤ 2 ^ 31 the result is the least power of two that is at least n: a power of two, not
-- below n, and below 2 * n.
pub round_up_power2-least :
    (n : ℕ)
    → 0 < n
    → n ≤ 2 ^ 31
    → (k : ℕ) × (round_up_power2 n ≡ 2 ^ k) × (n ≤ round_up_power2 n) × (round_up_power2 n < 2 * n)
unfolding round_up_power2
round_up_power2-least n pos small =
    let down : (n + 2 ^ 32 - 1) % 2 ^ 32 ≡ n - 1 = omega arith in
    let (k, power, above, below) =
      FillsDown-power (n - 1) (n - 1) (smears (n - 1)) (omega arith)
        (smears-FillsDown (n - 1) (omega arith)) in
    let whole : (smears (n - 1) + 1) % 2 ^ 32 ≡ smears (n - 1) + 1 = omega arith in
    let result : round_up_power2 n ≡ smears (n - 1) + 1 =
      ap (λ v. (smears v + 1) % 2 ^ 32) down ∙ whole in
    (k, result ∙ power, omega (arith, result), omega (arith, result))
