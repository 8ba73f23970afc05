-- ===== src/Applypatch/Bspatch.antt =====
-- Binary patches (applypatch/bspatch.c). bzip2 is not part of the repository: a decompressor is a
-- parameter, with a state for each stream.
pub mod Fill
pub mod Correct
pub mod Whole
use open_recovery.Base.{
  ℕ, zero, suc, ◌+◌, ◌-◌, ◌*◌, ◌%◌, ◌^◌, ◌≤◌, ◌<◌, ◌≡◌, ◌≢◌, Bool, true, false, ◌&&◌, ◌||◌, not,
  List, [], ◌∷◌, ◌++◌, Option, none, some, Bytes, codes, length, get_elem?, take, drop, bytes_eq,
  ltb, leb, ◌==◌, if◌then◌else◌, ℤ, pos, negsuc, pos_part, ◌+ℤ◌, ltb_ℤ,
}
use open_recovery.Applypatch.Utils.{Eight, to_long, offtin}

-- BZ_OK or BZ_STREAM_END with the bytes that were produced, or another result
pub data Bz (S : Type 0) : Type 0 where
  produced : Bytes → S → Bz S
  bz_error : Bz S

-- BZ2_bzDecompressInit on `avail_in` bytes of the input, and BZ2_bzDecompress with room for
-- `avail_out`. `content` is what a stream still has to give. The laws are those of a call that has
-- room, on a stream that is not at its end: it gives some of the content, no more than there is room.
pub record Decompressor : Type 1 where
  pub Stream : Type 0
  pub init : Bytes → ℕ → Stream
  pub decompress : Stream → ℕ → Bz Stream
  pub content : Stream → Bytes
  pub gives :
      (s : Stream) (avail_out : ℕ)
      → 0 < avail_out
      → content s ≢ []
      → (chunk : Bytes) × (s' : Stream) × (decompress s avail_out ≡ produced chunk s')
        × (chunk ≢ [])
        × (length chunk ≤ avail_out)
        × (content s ≡ chunk ++ content s')

-- `never`: the loop goes on for ever, or for more rounds than it was given.
pub data Filled (S : Type 0) : Type 0 where
  filled : Bytes → S → Filled S
  failed never : Filled S

-- ApplyBSDiffPatchMem returns 0 with the new data, or 1. `fault` is a write out of bounds.
pub data Patched : Type 0 where
  ok : Bytes → Patched
  corrupt fault never : Patched

pub data Applied : Type 0 where
  zero_with : Bytes → Applied
  short_write minus_one fault never : Applied

abbrev pub prepend : {S : Type 0} → Bytes → Filled S → Filled S
prepend chunk (filled rest s) = filled (chunk ++ rest) s
prepend chunk failed = failed
prepend chunk never = never

unfoldable pub eight_at : Bytes → ℕ → Option Eight
eight_at bytes i = elim (drop i bytes) [
  | b0 ∷ b1 ∷ b2 ∷ b3 ∷ b4 ∷ b5 ∷ b6 ∷ b7 ∷ rest ↦
      some (record { b0 = b0; b1 = b1; b2 = b2; b3 = b3; b4 = b4; b5 = b5; b6 = b6; b7 = b7 })
  | _ ↦ none
]

-- `new_data[newpos + i] += old_data[oldpos + i]` where `oldpos + i` lies in the old data
unfoldable pub old_byte : Bytes → ℤ → ℕ
old_byte old (pos i) = elim (get_elem? old i) [ none ↦ 0 | some b ↦ b ]
old_byte old (negsuc i) = 0

unfoldable pub add_old : Bytes → ℤ → Bytes → Bytes
unfolding old_byte
add_old old oldpos [] = []
add_old old oldpos (b ∷ bs) = ((b + old_byte old oldpos) % 256) ∷ add_old old (oldpos +ℤ pos 1) bs

abbrev pub magic : Bytes
magic = codes "BSDIFF40"

module _ (bz : Decompressor) where
  open bz use {Stream, init, decompress}

  -- FillBuffer
  unfoldable pub fill_buffer : ℕ → Stream → ℕ → Filled Stream
  fill_buffer zero s size = if size == 0 then filled [] s else never
  fill_buffer (suc fuel) s size = elim (size == 0) [
    | true ↦ filled [] s
    | false ↦ elim (decompress s size) [
      | bz_error ↦ failed
      | produced chunk s' ↦ prepend chunk (fill_buffer fuel s' (size - length chunk))
    ]
  ]

  -- where the three streams stand
  pub record Streams : Type 0 where
    pub cstream : Stream
    pub dstream : Stream
    pub estream : Stream

  -- three numbers of eight bytes
  abbrev pub control : Bytes → Option (ℤ × ℤ × ℤ)
  control buf = elim (eight_at buf 0) [
    | none ↦ none
    | some a ↦ elim (eight_at buf 8) [
      | none ↦ none
      | some b ↦ elim (eight_at buf 16) [
        | none ↦ none
        | some c ↦ some (offtin a, offtin b, offtin c)
      ]
    ]
  ]

  abbrev pub prepend_to : Bytes → Option (Filled Stream) → Option (Filled Stream)
  prepend_to chunk none = none
  prepend_to chunk (some r) = some (prepend chunk r)

  -- FillBuffer with more `avail_out` than the buffer has room: nothing where a call writes past the end
  unfoldable pub fill_beyond : ℕ → Stream → ℕ → ℕ → Option (Filled Stream)
  fill_beyond zero s size room = if size == 0 then some (filled [] s) else some never
  fill_beyond (suc fuel) s size room = elim (size == 0) [
    | true ↦ some (filled [] s)
    | false ↦ elim (decompress s size) [
      | bz_error ↦ some failed
      | produced chunk s' ↦ elim (leb (length chunk) room) [
        | false ↦ none
        | true ↦ prepend_to chunk (fill_beyond fuel s' (size - length chunk) (room - length chunk))
      ]
    ]
  ]

  -- FillBuffer with an int, where there is so much room in new_data: a negative one becomes the
  -- `unsigned int` avail_out, and one that is too great passes the test before where the sum wraps.
  unfoldable pub fill_ℤ : ℕ → Stream → ℤ → ℕ → Option (Filled Stream)
  unfolding fill_buffer fill_beyond
  fill_ℤ fuel s (pos n) room =
      if leb n room then some (fill_buffer fuel s n) else fill_beyond fuel s n room
  fill_ℤ fuel s (negsuc n) room = fill_beyond fuel s (2 ^ 32 - 1 - n) room

  -- one round of the loop: the extra string, after the diff string
  unfoldable pub extra_part :
      ℕ → ℕ → Bytes → ℤ → ℤ → Streams → Bytes → (Streams → Bytes → ℤ → Patched) → Patched
  unfolding fill_ℤ to_long
  extra_part fuel new_size old oldpos ctrl1 streams out next =
      if ltb_ℤ (pos new_size) (to_long (pos (length out) +ℤ ctrl1))
      then corrupt
      else elim (fill_ℤ fuel streams.estream ctrl1 (new_size - length out)) [
        | none ↦ fault
        | some failed ↦ corrupt
        | some never ↦ never
        | some (filled extra e) ↦ next (record streams { estream = e }) (out ++ extra) oldpos
      ]

  unfoldable pub diff_part :
      ℕ → ℕ → Bytes → ℤ → ℤ → ℤ → ℤ → Streams → Bytes → (Streams → Bytes → ℤ → Patched) → Patched
  unfolding extra_part add_old
  diff_part fuel new_size old oldpos ctrl0 ctrl1 ctrl2 streams out next =
      if ltb_ℤ (pos new_size) (to_long (pos (length out) +ℤ ctrl0))
      then corrupt
      else elim (fill_ℤ fuel streams.dstream ctrl0 (new_size - length out)) [
        | none ↦ fault
        | some failed ↦ corrupt
        | some never ↦ never
        | some (filled diff d) ↦
            extra_part fuel new_size old (to_long (oldpos +ℤ ctrl0 +ℤ ctrl2)) ctrl1
              (record streams { dstream = d }) (out ++ add_old old oldpos diff) next
      ]

  unfoldable pub one_round :
      ℕ → ℕ → Bytes → Streams → Bytes → ℤ → (Streams → Bytes → ℤ → Patched) → Patched
  unfolding diff_part eight_at offtin
  one_round fuel new_size old streams out oldpos next = elim (fill_buffer fuel streams.cstream 24) [
    | failed ↦ corrupt
    | never ↦ never
    | filled buf c ↦ elim (control buf) [
      | none ↦ fault
      | some (ctrl0, ctrl1, ctrl2) ↦
          diff_part fuel new_size old oldpos ctrl0 ctrl1 ctrl2 (record streams { cstream = c }) out
            next
    ]
  ]

  -- The loop of ApplyBSDiffPatchMem, over what has been written of the new data: its length is newpos.
  unfoldable pub patch_loop : ℕ → ℕ → ℕ → Bytes → Streams → Bytes → ℤ → Patched
  unfolding one_round
  patch_loop zero fuel new_size old streams out oldpos =
      if ltb (length out) new_size then never else ok out
  patch_loop (suc rounds) fuel new_size old streams out oldpos =
      let round =
        one_round fuel new_size old streams out oldpos (patch_loop rounds fuel new_size old) in
      if ltb (length out) new_size then round else ok out

  -- the streams as BZ2_bzDecompressInit leaves them; the length of the last is an `unsigned int`
  abbrev pub opened : Bytes → ℕ → ℕ → ℕ → Streams
  opened patch patch_offset ctrl_len data_len =
      let at = patch_offset + 32 in
      record {
        cstream = init (drop at patch) ctrl_len;
        dstream = init (drop (at + ctrl_len) patch) data_len;
        estream =
            init (drop (at + ctrl_len + data_len) patch)
              ((length patch + 2 ^ 32 - (at + ctrl_len + data_len)) % 2 ^ 32);
      }

  abbrev pub patch_from : ℕ → ℕ → Bytes → Bytes → ℕ → ℤ → ℤ → ℤ → Patched
  patch_from rounds fuel old patch patch_offset (pos ctrl_len) (pos data_len) (pos new_size) =
      patch_loop rounds fuel new_size old (opened patch patch_offset ctrl_len data_len) [] (pos 0)
  patch_from rounds fuel old patch patch_offset _ _ _ = corrupt

  abbrev pub patch_body : ℕ → ℕ → Bytes → Bytes → ℕ → Patched
  patch_body rounds fuel old patch patch_offset =
      elim (control (drop 8 (drop patch_offset patch))) [
        | none ↦ fault
        | some (ctrl_len, data_len, new_size) ↦
            patch_from rounds fuel old patch patch_offset ctrl_len data_len new_size
      ]

  -- ApplyBSDiffPatchMem, where memory is found; a header that the patch is too short for is a fault.
  unfoldable pub apply_bsdiff_patch_mem : ℕ → ℕ → Bytes → Bytes → ℕ → Patched
  unfolding patch_loop
  apply_bsdiff_patch_mem rounds fuel old patch patch_offset =
      let header = drop patch_offset patch in
      if ltb (length header) 8
      then fault
      else if bytes_eq (take 8 header) magic
      then patch_body rounds fuel old patch patch_offset
      else corrupt

  -- ApplyBSDiffPatch: -1, 1 or 0 with the bytes that SHA_update is given; `sink` answers how many
  -- bytes it has taken.
  unfoldable pub apply_bsdiff_patch : ℕ → ℕ → Bytes → Bytes → ℕ → (Bytes → ℤ) → Applied
  unfolding apply_bsdiff_patch_mem
  apply_bsdiff_patch rounds fuel old patch patch_offset sink =
      elim (apply_bsdiff_patch_mem rounds fuel old patch patch_offset) [
        | corrupt ↦ minus_one
        | fault ↦ Applied.fault
        | never ↦ Applied.never
        | ok new_data ↦
            if ltb_ℤ (sink new_data) (pos (length new_data))
            then short_write
            else zero_with new_data
      ]
