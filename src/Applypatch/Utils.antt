-- ===== src/Applypatch/Utils.antt =====
-- Little-endian numbers (applypatch/utils.c) and the sign-and-magnitude numbers of a binary patch
-- (offtin of applypatch/bspatch.c, offtout of applypatch/bsdiff.c).
use open_recovery.Base.{
  ◌-◌, ◌≤◌, ap, ◌∙◌, ℕ, ◌+◌, ◌*◌, ◌/◌, ◌%◌, ◌^◌, ◌<◌, ◌≡◌, ltb, leb, if◌then◌else◌, ℤ, pos, negsuc,
  pos_part, neg_part, ltb_ℤ, neg_ℤ, arith,
}

-- The eight bytes that Read8 and offtin are given.
pub record Eight : Type 0 where
  pub b0 : ℕ
  pub b1 : ℕ
  pub b2 : ℕ
  pub b3 : ℕ
  pub b4 : ℕ
  pub b5 : ℕ
  pub b6 : ℕ
  pub b7 : ℕ

pub record AreBytes (e : Eight) : Type 0 where
  pub r0 : e.b0 < 256
  pub r1 : e.b1 < 256
  pub r2 : e.b2 < 256
  pub r3 : e.b3 < 256
  pub r4 : e.b4 < 256
  pub r5 : e.b5 < 256
  pub r6 : e.b6 < 256
  pub r7 : e.b7 < 256

-- A number is its two's complement pattern. The shifted bytes have no digit in common, so that `|` is
-- a sum.
-- Write4
unfoldable pub write4 : ℕ → ℕ × ℕ × ℕ × ℕ
write4 value = (value % 256, value / 2 ^ 8 % 256, value / 2 ^ 16 % 256, value / 2 ^ 24 % 256)

-- Write8
unfoldable pub write8 : ℕ → Eight
write8 value = record {
  b0 = value % 256;
  b1 = value / 2 ^ 8 % 256;
  b2 = value / 2 ^ 16 % 256;
  b3 = value / 2 ^ 24 % 256;
  b4 = value / 2 ^ 32 % 256;
  b5 = value / 2 ^ 40 % 256;
  b6 = value / 2 ^ 48 % 256;
  b7 = value / 2 ^ 56 % 256;
}

-- Read2
unfoldable pub read2 : ℕ → ℕ → ℕ
read2 p0 p1 = p1 * 2 ^ 8 + p0

-- Read4
unfoldable pub read4 : ℕ × ℕ × ℕ × ℕ → ℕ
read4 (p0, p1, p2, p3) = p3 * 2 ^ 24 + p2 * 2 ^ 16 + p1 * 2 ^ 8 + p0

-- Read8
unfoldable pub read8 : Eight → ℕ
read8 p =
    p.b7 * 2 ^ 56
    + p.b6 * 2 ^ 48
    + p.b5 * 2 ^ 40
    + p.b4 * 2 ^ 32
    + p.b3 * 2 ^ 24
    + p.b2 * 2 ^ 16
    + p.b1 * 2 ^ 8
    + p.b0

-- the long with a pattern of 32 bits
abbrev pub as_long : ℕ → ℤ
as_long n = if ltb n (2 ^ 31) then pos n else negsuc (2 ^ 32 - 1 - n)

-- what an off_t, a long of 32 bits, makes of a number
unfoldable pub to_long : ℤ → ℤ
to_long (pos n) = as_long (n % 2 ^ 32)
to_long (negsuc n) = as_long (2 ^ 32 - 1 - n % 2 ^ 32)

pub to_long-same : (x : ℤ) → pos_part x < 2 ^ 31 → neg_part x ≤ 2 ^ 31 → to_long x ≡ x
unfolding to_long
to_long-same (pos n) h k = ground arith
to_long-same (negsuc n) h k = ground arith

-- offtin; its sums and its sign are of an off_t
unfoldable pub offtin : Eight → ℤ
offtin buf =
    let y7 = buf.b7 % 128 in
    let y6 = y7 * 256 + buf.b6 in
    let y5 = y6 * 256 + buf.b5 in
    let y4 = y5 * 256 + buf.b4 in
    let y3 = y4 * 256 + buf.b3 in
    let y2 = y3 * 256 + buf.b2 in
    let y1 = y2 * 256 + buf.b1 in
    let y0 = y1 * 256 + buf.b0 in to_long (if leb 128 buf.b7 then neg_ℤ (pos y0) else pos y0)

-- offtout of an off_t above -2 ^ 31; `y -= buf[i]; y = y / 256` is `y / 256`
unfoldable pub offtout : ℤ → Eight
offtout x =
    let y0 = pos_part x + neg_part x in
    let y1 = y0 / 256 in
    let y2 = y1 / 256 in
    let y3 = y2 / 256 in
    let y4 = y3 / 256 in
    let y5 = y4 / 256 in
    let y6 = y5 / 256 in
    let y7 = y6 / 256 in
    record {
      b0 = y0 % 256;
      b1 = y1 % 256;
      b2 = y2 % 256;
      b3 = y3 % 256;
      b4 = y4 % 256;
      b5 = y5 % 256;
      b6 = y6 % 256;
      b7 =
          if ltb_ℤ x (pos 0)
          then (if ltb (y7 % 256) 128 then y7 % 256 + 128 else y7 % 256)
          else y7 % 256;
    }

-- Four bytes that Write4 writes are read back by Read4, and a number that Read4 reads from four bytes
-- is written back as these.
pub read4-write4 :
    (value p0 p1 p2 p3 : ℕ)
    → value < 2 ^ 32
    → p0 < 256
    → p1 < 256
    → p2 < 256
    → p3 < 256
    → (read4 (write4 value) ≡ value) × (write4 (read4 (p0, p1, p2, p3)) ≡ (p0, p1, p2, p3))
unfolding read4 write4
read4-write4 value p0 p1 p2 p3 h h0 h1 h2 h3 = (omega arith, ground arith)

-- The eight bytes that Write8 writes are read back by Read8, and a number that Read8 reads from eight
-- bytes is written back as these.
pub read8-write8 :
    (value : ℕ) (bytes : Eight)
    → value < 2 ^ 64
    → AreBytes bytes
    → (read8 (write8 value) ≡ value) × (write8 (read8 bytes) ≡ bytes)
unfolding read8 write8
read8-write8 value bytes h all = (omega arith, ground arith)

magnitude : (x : ℤ) → pos_part x < 2 ^ 31 → neg_part x < 2 ^ 31 → offtin (offtout x) ≡ to_long x
unfolding offtin offtout
magnitude (pos n) h k = ap to_long (ground arith)
magnitude (negsuc n) h k = ap to_long (ground arith)

-- A number whose magnitude is below 2 ^ 31, written by offtout, is read back by offtin, whatever its
-- sign.
pub offtin-offtout : (x : ℤ) → pos_part x < 2 ^ 31 → neg_part x < 2 ^ 31 → offtin (offtout x) ≡ x
offtin-offtout x h k = magnitude x h k ∙ to_long-same x h (omega (arith, k))
