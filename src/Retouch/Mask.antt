-- ===== src/Retouch/Mask.antt =====
-- retouch_mask_data (minelf/Retouch.c) on the bytes of a file, which are read as little-endian words.
use open_recovery.Base.{
  ℕ, zero, suc, ◌+◌, ◌-◌, ◌*◌, ◌/◌, ◌%◌, ◌^◌, Bool, false, ◌&&◌, ◌||◌, not, [], ◌∷◌, ◌++◌, Option,
  none, some, Bytes, codes, bytes_eq, length, take, drop, ltb, leb, ◌==◌, if◌then◌else◌,
}
use open_recovery.Retouch.{Decoder, init_compression_state, decode_in_memory}

pub data Verdict : Type 0 where
  error matched mismatched not_applicable : Verdict

-- What is returned, *retouch_offset, and the object. `fault` is an access outside of the object, `never`
-- a loop that takes more rounds than there was fuel.
pub data Masking : Type 0 where
  ended : Verdict → ℕ → Bytes → Masking
  fault never : Masking

unfoldable pub word_at : Bytes → ℕ → Option ℕ
word_at object offset = elim (drop offset object) [
  | [] ↦ none
  | b0 ∷ [] ↦ none
  | b0 ∷ b1 ∷ [] ↦ none
  | b0 ∷ b1 ∷ b2 ∷ [] ↦ none
  | b0 ∷ b1 ∷ b2 ∷ b3 ∷ bs ↦ some (b0 + b1 * 2 ^ 8 + b2 * 2 ^ 16 + b3 * 2 ^ 24)
]

abbrev pub word_bytes : ℕ → Bytes
word_bytes v = v % 256 ∷ v / 2 ^ 8 % 256 ∷ v / 2 ^ 16 % 256 ∷ v / 2 ^ 24 % 256 ∷ []

unfoldable pub set_word : Bytes → ℕ → ℕ → Option Bytes
set_word object offset v =
    if leb (offset + 4) (length object)
    then some (take offset object ++ word_bytes v ++ drop (offset + 4) object)
    else none

-- the sizes of prelink_info_t and retouch_info_t
abbrev pub prelink_size : ℕ
prelink_size = 8

abbrev pub retouch_size : ℕ
retouch_size = 12

abbrev pub has_tags : Bytes → ℕ → ℕ → Bool
has_tags object p_offs r_offs =
    bytes_eq (take 4 (drop (p_offs + 4) object)) (codes "PRE ")
    && bytes_eq (take 8 (drop r_offs object)) (codes "RETOUCH ")

-- `*retouch_entry = ...`, where an offset is desired
abbrev pub retouch_at : Option ℕ → Bytes → ℕ → ℕ → Option Bytes
retouch_at none object place contents = some object
retouch_at (some target) object place contents =
    set_word object place ((contents + target) % 2 ^ 32)

-- the offset that is inferred and whether one differs
abbrev pub infer : Option ℕ → ℕ → Bool → ℕ → Option ℕ × Bool
infer none this mismatch contents = (some this, mismatch)
infer (some candidate) this mismatch contents =
    (some candidate, mismatch || not (candidate == this))

abbrev pub target_offset : Option ℕ → ℕ
target_offset none = 0
target_offset (some n) = n

abbrev pub or_target : Option ℕ → ℕ → ℕ
or_target none target = target
or_target (some n) target = n

module _ (desired : Option ℕ) (p_offs r_offs b_offs : ℕ) where
  abbrev pub failed : Bytes → Masking
  failed object = ended error (target_offset desired) object

  -- what follows the loop
  abbrev pub after_loop : Bytes → ℕ → Option ℕ → Bool → Masking
  after_loop object b_ptr candidate mismatch =
      if ltb r_offs b_ptr
      then failed object
      else if mismatch
      then ended mismatched (target_offset desired) object
      else ended matched (or_target candidate (target_offset desired)) object

  -- the place of an entry, by its offset: -1 is mmap_addr, and what is below -1 or not below the
  -- blob is refused
  abbrev pub place_of : ℕ → Option ℕ
  place_of offset =
      if offset == 4294967295 then some p_offs else if ltb offset b_offs then some offset else none

  -- the loop, from the entry at `b_ptr` on
  unfoldable pub mask_loop : ℕ → Bytes → ℕ → Decoder → Option ℕ → Bool → Masking
  unfolding word_at set_word decode_in_memory
  mask_loop zero object b_ptr d candidate mismatch =
      if ltb b_ptr r_offs then never else after_loop object b_ptr candidate mismatch
  mask_loop (suc fuel) object b_ptr d candidate mismatch =
      if ltb b_ptr r_offs
      then (elim (decode_in_memory d (drop b_ptr object)) [
        | none ↦ fault
        | some (rest, d') ↦ elim (place_of d'.offs_prev) [
          | none ↦ failed object
          | some place ↦ elim (retouch_at desired object place d'.cont_prev) [
            | none ↦ fault
            | some object' ↦ elim (word_at object' place) [
              | none ↦ fault
              | some value ↦
                  let (candidate', mismatch') =
                    infer candidate ((value + 2 ^ 32 - d'.cont_prev) % 2 ^ 32) mismatch
                      d'.cont_prev in
                  mask_loop fuel object' (length object - length rest) d' candidate' mismatch'
            ]
          ]
        ]
      ])
      else after_loop object b_ptr candidate mismatch

abbrev pub untouched : Option ℕ → Bytes → Masking
untouched none object = ended not_applicable 0 object
untouched (some target) object = ended matched target object

-- retouch_mask_data; an offset is a pattern of 32 bits, and `none` where desired_offset is NULL
unfoldable pub retouch_mask_data : Option ℕ → Bytes → Masking
unfolding mask_loop word_at
retouch_mask_data desired object =
    let p_offs = length object - prelink_size in
    let r_offs = p_offs - retouch_size in
    if ltb (length object) (prelink_size + retouch_size)
    then untouched desired object
    else if not (has_tags object p_offs r_offs)
    then untouched desired object
    else elim (word_at object (r_offs + 8)) [
      | none ↦ fault
      | some blob_size ↦
          let b_offs = (r_offs + 2 ^ 32 - blob_size) % 2 ^ 32 in
          if leb (2 ^ 31) b_offs
          then ended error (target_offset desired) object
          else mask_loop desired p_offs r_offs b_offs (length object) object b_offs
              init_compression_state none false
    ]
