-- ===== src/Retouch.antt =====
-- The lists of relocations of retouched libraries (minelf/Retouch.c): the decoder of their entries. A
-- number is its pattern of 32 bits, and the fields of a byte are read by quotient and remainder.
pub mod Entries
pub mod Mask
pub mod Safe
mod Tests
use open_recovery.Base.{
  ℕ, ◌+◌, ◌-◌, ◌*◌, ◌/◌, ◌%◌, ◌^◌, Bool, List, [], ◌∷◌, Option, none, some, Bytes, true, false, leb,
  ◌==◌, if◌then◌else◌,
}

-- offs_prev and cont_prev
pub record Decoder : Type 0 where
  pub offs_prev : ℕ
  pub cont_prev : ℕ

-- init_compression_state
abbrev pub init_compression_state : Decoder
init_compression_state = record { offs_prev = 0; cont_prev = 0 }

-- decode_bytes with two bytes
unfoldable pub decode_bytes2 : Decoder → ℕ → ℕ → Decoder
decode_bytes2 s b0 b1 =
    let tmp = b0 % 32 * 2 ^ 8 + b1 in
    record {
      offs_prev = (s.offs_prev + (b0 / 32 % 4 + 1) * 4) % 2 ^ 32;
      cont_prev = (s.cont_prev + (if leb 4096 tmp then 4294959104 + tmp else tmp)) % 2 ^ 32;
    }

-- decode_bytes with three bytes
unfoldable pub decode_bytes3 : Decoder → ℕ → ℕ → ℕ → Decoder
decode_bytes3 s b0 b1 b2 =
    let tmp = b0 % 16 * 2 ^ 16 + b1 * 2 ^ 8 + b2 in
    record {
      offs_prev = (s.offs_prev + (b0 / 16 % 4 + 1) * 4) % 2 ^ 32;
      cont_prev = (s.cont_prev + (if leb 524288 tmp then 4293918720 + tmp else tmp)) % 2 ^ 32;
    }

-- decode_bytes with eight bytes
unfoldable pub decode_bytes8 : ℕ → ℕ → ℕ → ℕ → ℕ → ℕ → ℕ → ℕ → Decoder
decode_bytes8 b0 b1 b2 b3 b4 b5 b6 b7 =
    let offset = b0 * 2 ^ 24 + b1 * 2 ^ 16 + b2 * 2 ^ 8 + b3 in
    record {
      offs_prev = if offset == 1073741823 then 4294967295 else offset;
      cont_prev = b4 * 2 ^ 24 + b5 * 2 ^ 16 + b6 * 2 ^ 8 + b7;
    }

-- The bytes of an entry by its first byte, as decode_in_memory reads them. The state after it has the
-- offset and the contents of the entry; `none` is a read past the end.
abbrev pub by_size : Decoder → Bool → Bool → ℕ → Bytes → Option (Bytes × Decoder)
by_size s true long b0 (b1 ∷ rest) = some (rest, decode_bytes2 s b0 b1)
by_size s false true b0 (b1 ∷ b2 ∷ rest) = some (rest, decode_bytes3 s b0 b1 b2)
by_size s false false b0 (b1 ∷ b2 ∷ b3 ∷ b4 ∷ b5 ∷ b6 ∷ b7 ∷ rest) =
    some (rest, decode_bytes8 b0 b1 b2 b3 b4 b5 b6 b7)
by_size s short long b0 _ = none

-- decode_in_memory
unfoldable pub decode_in_memory : Decoder → Bytes → Option (Bytes × Decoder)
unfolding decode_bytes2 decode_bytes3 decode_bytes8
decode_in_memory s [] = none
decode_in_memory s (b0 ∷ rest) = by_size s (leb 1 (b0 / 128 % 2)) (leb 1 (b0 / 64 % 2)) b0 rest
