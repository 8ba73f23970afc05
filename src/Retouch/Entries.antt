-- ===== src/Retouch/Entries.antt =====
-- The entries that decode_in_memory of minelf/Retouch.c reads.
use open_recovery.Base.{
  ℕ, ◌+◌, ◌-◌, ◌*◌, ◌/◌, ◌%◌, ◌^◌, ◌≤◌, ◌<◌, ◌≡◌, [], ◌∷◌, ◌++◌, some, Bytes, ℤ, pos, negsuc,
  pos_part, neg_part, ◌==◌, if◌then◌else◌, arith,
}
use open_recovery.Retouch.{Decoder, decode_bytes2, decode_bytes3, decode_bytes8, decode_in_memory}

-- a word that lies a number of steps of four further on, with a difference of the contents in 13 or in
-- 20 bits; or an offset and contents in full
pub data Entry : Type 0 where
  short medium : ℕ → ℤ → Entry
  full : ℕ → ℕ → Entry

-- the pattern of a number in `2 ^ w = size` patterns
abbrev pub pattern : ℕ → ℤ → ℕ
pattern size (pos n) = n
pattern size (negsuc n) = size - 1 - n

abbrev pub IsEntry : Entry → Type 0
IsEntry (short step delta) = (step < 4) × (pos_part delta < 2 ^ 12) × (neg_part delta ≤ 2 ^ 12)
IsEntry (medium step delta) = (step < 4) × (pos_part delta < 2 ^ 19) × (neg_part delta ≤ 2 ^ 19)
IsEntry (full offset contents) = (offset < 2 ^ 30) × (contents < 2 ^ 32)

abbrev pub encode_entry : Entry → Bytes
encode_entry (short step delta) =
    let p = pattern (2 ^ 13) delta in (128 + step * 32 + p / 2 ^ 8) ∷ (p % 2 ^ 8) ∷ []
encode_entry (medium step delta) =
    let p = pattern (2 ^ 20) delta in
    (64 + step * 16 + p / 2 ^ 16) ∷ (p / 2 ^ 8 % 2 ^ 8) ∷ (p % 2 ^ 8) ∷ []
encode_entry (full offset contents) =
    (offset / 2 ^ 24)
    ∷ (offset / 2 ^ 16 % 2 ^ 8)
    ∷ (offset / 2 ^ 8 % 2 ^ 8)
    ∷ (offset % 2 ^ 8)
    ∷ (contents / 2 ^ 24)
    ∷ (contents / 2 ^ 16 % 2 ^ 8)
    ∷ (contents / 2 ^ 8 % 2 ^ 8)
    ∷ (contents % 2 ^ 8)
    ∷ []

-- the state after an entry; the offset of 30 ones stands for -1
abbrev pub after_entry : Decoder → Entry → Decoder
after_entry s (short step delta) = record {
  offs_prev = (s.offs_prev + (step + 1) * 4) % 2 ^ 32;
  cont_prev = (s.cont_prev + pattern (2 ^ 32) delta) % 2 ^ 32;
}
after_entry s (medium step delta) = record {
  offs_prev = (s.offs_prev + (step + 1) * 4) % 2 ^ 32;
  cont_prev = (s.cont_prev + pattern (2 ^ 32) delta) % 2 ^ 32;
}
after_entry s (full offset contents) = record {
  offs_prev = if offset == 1073741823 then 2 ^ 32 - 1 else offset;
  cont_prev = contents;
}

-- An entry in one of the three forms is read back: exactly its bytes are taken, and the state has its
-- offset and contents.
pub decode_in_memory-encode_entry :
    (s : Decoder) (e : Entry) (rest : Bytes)
    → IsEntry e
    → decode_in_memory s (encode_entry e ++ rest) ≡ some (rest, after_entry s e)
unfolding decode_in_memory decode_bytes2 decode_bytes3 decode_bytes8
decode_in_memory-encode_entry s (short step (pos n)) rest h = ground (arith, h.0, h.1)
decode_in_memory-encode_entry s (short step (negsuc n)) rest h = ground (arith, h.0, h.2)
decode_in_memory-encode_entry s (medium step (pos n)) rest h = ground (arith, h.0, h.1)
decode_in_memory-encode_entry s (medium step (negsuc n)) rest h = ground (arith, h.0, h.2)
decode_in_memory-encode_entry s (full offset contents) rest h = ground (arith, h.0, h.1)
