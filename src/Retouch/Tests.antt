-- ===== src/Retouch/Tests.antt =====
-- The theorem about entries at one entry of two bytes, and a run of the decoder.
use open_recovery.Base.{◌≡◌, refl, [], ◌∷◌, ◌++◌, some, none, negsuc, arith, Bytes, bytes_eq, codes}
use open_recovery.Retouch.{init_compression_state, decode_bytes2, decode_in_memory}
use open_recovery.Retouch.Mask.{matched, ended, retouch_mask_data}
use open_recovery.Retouch.Entries.{
  Entry, short, encode_entry, after_entry, decode_in_memory-encode_entry,
}

-- one word further on, with contents that are five less
abbrev entry : Entry
entry = short 0 (negsuc 4)

decode_in_memory-encode_entry_example :
    decode_in_memory init_compression_state (encode_entry entry ++ (7 ∷ []))
    ≡ some (7 ∷ [], after_entry init_compression_state entry)
decode_in_memory-encode_entry_example =
    decode_in_memory-encode_entry init_compression_state entry (7 ∷ [])
      (omega arith, omega arith, omega arith)

decoded :
    decode_in_memory init_compression_state (159 ∷ 251 ∷ [])
    ≡ some ([], record { offs_prev = 4; cont_prev = 4294967291 })
unfolding decode_in_memory decode_bytes2
decoded = refl

-- a word, one entry of eight bytes for it with the contents 1000, and the two records
abbrev library : Bytes → Bytes
library word =
    word
    ++ (0 ∷ 0 ∷ 0 ∷ 0 ∷ 0 ∷ 0 ∷ 3 ∷ 232 ∷ [])
    ++ codes "RETOUCH "
    ++ (8 ∷ 0 ∷ 0 ∷ 0 ∷ [])
    ++ (0 ∷ 0 ∷ 0 ∷ 0 ∷ [])
    ++ codes "PRE "

-- masking takes the offset 5 away, inferring finds it, and retouching puts it back
masked :
    (retouch_mask_data (some 0) (library (237 ∷ 3 ∷ 0 ∷ 0 ∷ []))
      ≡ ended matched 0 (library (232 ∷ 3 ∷ 0 ∷ 0 ∷ [])))
    × (retouch_mask_data none (library (237 ∷ 3 ∷ 0 ∷ 0 ∷ []))
        ≡ ended matched 5 (library (237 ∷ 3 ∷ 0 ∷ 0 ∷ [])))
    × (retouch_mask_data (some 5) (library (232 ∷ 3 ∷ 0 ∷ 0 ∷ []))
        ≡ ended matched 5 (library (237 ∷ 3 ∷ 0 ∷ 0 ∷ [])))
unfolding retouch_mask_data bytes_eq
masked = (refl, refl, refl)
