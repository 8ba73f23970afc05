-- ===== src/Edify/Text.antt =====
-- What edify/expr.c uses of the C library: strtol with base 10, strstr and strcmp.
use open_recovery.Base.{
  ℕ, ◌+◌, ◌-◌, ◌*◌, ◌^◌, Bool, true, false, ◌&&◌, ◌||◌, [], ◌∷◌, Bytes, ltb, leb, ◌==◌,
  if◌then◌else◌, ℤ, pos, sub_ℕ,
}

-- `isspace` in the C locale
unfoldable pub is_space : ℕ → Bool
is_space c = (c == 32) || (leb 9 c && leb c 13)

unfoldable pub is_digit : ℕ → Bool
is_digit c = leb b'0' c && leb c b'9'

unfoldable pub skip_space : Bytes → Bytes
unfolding is_space
skip_space [] = []
skip_space (c ∷ cs) = if is_space c then skip_space cs else c ∷ cs

-- the digits at the head, and what follows them
unfoldable pub digits : ℕ → Bytes → ℕ × Bytes
unfolding is_digit
digits n [] = (n, [])
digits n (c ∷ cs) = if is_digit c then digits (n * 10 + (c - b'0')) cs else (n, c ∷ cs)

-- A `long` has 32 bits on the ARM targets; a value out of range is clamped.
abbrev long_max : ℕ
long_max = 2 ^ 31 - 1

unfoldable pub clamp_long : Bool → ℕ → ℤ
clamp_long true n = sub_ℕ 0 (if ltb (long_max + 1) n then long_max + 1 else n)
clamp_long false n = pos (if ltb long_max n then long_max else n)

-- the number and `*end`; with no digit the conversion fails and `end` is the start `s`
unfoldable pub unsigned_part : Bytes → Bool → Bytes → ℤ × Bytes
unfolding digits clamp_long is_digit
unsigned_part s neg [] = (pos 0, s)
unsigned_part s neg (c ∷ cs) =
    let (n, rest) = digits 0 (c ∷ cs) in if is_digit c then (clamp_long neg n, rest) else (pos 0, s)

unfoldable pub signed_part : Bytes → Bytes → ℤ × Bytes
unfolding unsigned_part
signed_part s [] = (pos 0, s)
signed_part s (c ∷ cs) =
    if c == b'-'
    then unsigned_part s true cs
    else if c == b'+'
    then unsigned_part s false cs
    else unsigned_part s false (c ∷ cs)

-- `strtol(s, &end, 10)`
unfoldable pub strtol : Bytes → ℤ × Bytes
unfolding signed_part skip_space
strtol s = signed_part s (skip_space s)

unfoldable pub has_prefix : Bytes → Bytes → Bool
has_prefix [] s = true
has_prefix (x ∷ xs) [] = false
has_prefix (x ∷ xs) (y ∷ ys) = (x == y) && has_prefix xs ys

-- `strstr(haystack, needle) != NULL`
unfoldable pub strstr : Bytes → Bytes → Bool
unfolding has_prefix
strstr [] needle = has_prefix needle []
strstr (c ∷ cs) needle = has_prefix needle (c ∷ cs) || strstr cs needle
