-- ===== src/Applypatch/Bspatch/Whole.antt =====
-- ApplyBSDiffPatchMem of applypatch/bspatch.c on a whole patch file, and on a damaged control block.
use open_recovery.Base.{
  zero, ◌-◌, none, false, ltb_ℤ, pos_part, neg_part, leb, leb→le, ◌==◌, Bool-cases, inl, inr, refl,
  length-append, ℕ, suc, ◌+◌, ◌^◌, ◌≤◌, ◌<◌, ◌≡◌, ap, ◌∙◌, List, [], ◌++◌, some, Bytes, bytes_eq,
  length, drop, ℤ, pos, negsuc, ◌+ℤ◌, arith,
}
use open_recovery.Applypatch.Utils.{to_long, to_long-same, offtout, offtin-offtout}
use open_recovery.Applypatch.Bspatch.Fill.{nonempty, pos_length}
use open_recovery.Applypatch.Bspatch.{
  fill_beyond, fill_ℤ, Decompressor, Patched, ok, fault, Streams, filled, control, eight_at,
  fill_buffer, diff_part, patch_loop, opened, magic, patch_body, apply_bsdiff_patch_mem,
}
use open_recovery.Applypatch.Bspatch.Correct.{
  Placed, Triple, Describes, first_round, patch_round, bytes_of, rebuild, patch_loop-rebuild,
}

-- the 32 bytes at the start of a patch
abbrev pub header : ℕ → ℕ → ℕ → Bytes
header ctrl_len data_len new_size =
    magic
    ++ (bytes_of (offtout (pos ctrl_len))
        ++ (bytes_of (offtout (pos data_len)) ++ bytes_of (offtout (pos new_size))))

negative_sum :
    (l n : ℕ)
    → l < 2 ^ 31
    → n < 2 ^ 31
    → (pos_part (pos l +ℤ negsuc n) < 2 ^ 31) × (neg_part (pos l +ℤ negsuc n) ≤ 2 ^ 31)
unfolding ◌+ℤ◌
negative_sum l n h k = (ground arith, ground arith)

not_over : (new_size l n : ℕ) → l < new_size → ltb_ℤ (pos new_size) (pos l +ℤ negsuc n) ≡ false
unfolding ◌+ℤ◌
not_over new_size l n h = ground arith

passes :
    (new_size l n : ℕ)
    → l < new_size
    → new_size < 2 ^ 31
    → n < 2 ^ 31
    → ltb_ℤ (pos new_size) (to_long (pos l +ℤ negsuc n)) ≡ false
passes new_size l n h low small =
    let (p, q) = negative_sum l n (omega (arith, h, low)) small in
    ap (λ x. ltb_ℤ (pos new_size) x) (to_long-same (pos l +ℤ negsuc n) p q)
    ∙ not_over new_size l n h

module _ (bz : Decompressor) where
  open bz use {Stream, content, gives}

  past_magic :
      (rounds fuel : ℕ) (old patch blocks : Bytes) (patch_offset ctrl_len data_len new_size : ℕ)
      → drop patch_offset patch ≡ header ctrl_len data_len new_size ++ blocks
      → apply_bsdiff_patch_mem bz rounds fuel old patch patch_offset
        ≡ patch_body bz rounds fuel old patch patch_offset
  unfolding apply_bsdiff_patch_mem bytes_eq
  past_magic rounds fuel old patch blocks patch_offset ctrl_len data_len new_size h =
      rw (h) (ground arith)

  numbers :
      (blocks : Bytes) (ctrl_len data_len new_size : ℕ)
      → ctrl_len < 2 ^ 31
      → data_len < 2 ^ 31
      → new_size < 2 ^ 31
      → control bz (drop 8 (header ctrl_len data_len new_size ++ blocks))
        ≡ some (pos ctrl_len, pos data_len, pos new_size)
  unfolding eight_at
  numbers blocks ctrl_len data_len new_size hc hd hn = λ i. some (
    offtin-offtout (pos ctrl_len) hc (omega arith) i,
    offtin-offtout (pos data_len) hd (omega arith) i,
    offtin-offtout (pos new_size) hn (omega arith) i,
  )

  read_header :
      (rounds fuel : ℕ) (old patch blocks : Bytes) (patch_offset ctrl_len data_len new_size : ℕ)
      → drop patch_offset patch ≡ header ctrl_len data_len new_size ++ blocks
      → ctrl_len < 2 ^ 31
      → data_len < 2 ^ 31
      → new_size < 2 ^ 31
      → apply_bsdiff_patch_mem bz rounds fuel old patch patch_offset
        ≡ patch_loop bz rounds fuel new_size old
            (opened bz patch patch_offset ctrl_len data_len)
            []
            (pos 0)
  read_header rounds fuel old patch blocks patch_offset ctrl_len data_len new_size h hc hd hn =
      past_magic rounds fuel old patch blocks patch_offset ctrl_len data_len new_size h
      ∙ simp (
        patch_body,
        ap (λ (b : Bytes). control bz (drop 8 b)) h
            ∙ numbers blocks ctrl_len data_len new_size hc hd hn,
      )

  -- A patch file whose header gives the lengths and whose blocks unpack to triples that describe the
  -- whole of the new file, none of them empty, with lengths below 2 ^ 31 and positions in the old file
  -- that an off_t takes, is applied: the result is the new file that the triples describe. As many rounds as triples and as much fuel as bytes of the new file and 24 are enough.
  pub apply_bsdiff_patch_mem-rebuild :
      (rounds fuel : ℕ) (old patch blocks : Bytes) (patch_offset ctrl_len data_len new_size : ℕ)
      (ts : List Triple) (rest diff extra : Bytes)
      → drop patch_offset patch ≡ header ctrl_len data_len new_size ++ blocks
      → ctrl_len < 2 ^ 31
      → data_len < 2 ^ 31
      → new_size < 2 ^ 31
      → Describes bz new_size (opened bz patch patch_offset ctrl_len data_len) [] ts rest diff extra
      → Placed (pos 0) ts
      → length ts ≤ rounds
      → new_size + 24 ≤ fuel
      → apply_bsdiff_patch_mem bz rounds fuel old patch patch_offset
        ≡ ok (rebuild old ts (pos 0) diff extra)
  apply_bsdiff_patch_mem-rebuild rounds fuel old patch blocks patch_offset ctrl_len data_len
        new_size ts rest diff extra h hc hd hn d placed r f =
      read_header rounds fuel old patch blocks patch_offset ctrl_len data_len new_size h hc hd hn
      ∙ patch_loop-rebuild bz rounds fuel new_size old
          (opened bz patch patch_offset ctrl_len data_len) [] (pos 0) ts rest diff extra d hn placed
          r f

  overrun :
      (fuel : ℕ) (s : Stream) (size space : ℕ)
      → space < fuel
      → space < size
      → space < length (content s)
      → fill_beyond bz fuel s size space ≡ none
  unfolding fill_beyond
  overrun zero s size space f h k = absurd (omega (arith, f))
  overrun (suc fuel) s size space f h k =
      let (chunk, s₁, run, some_bytes, fits, split) =
        gives s size (omega (arith, h)) (nonempty (content s) (omega (arith, k))) in
      let more = pos_length chunk some_bytes in
      let long : length (content s) ≡ length chunk + length (content s₁) =
        ap (λ (b : Bytes). length b) split ∙ length-append chunk (content s₁) in
      elim (Bool-cases (leb (length chunk) space)) [
        | inr past ↦ rw (fill_beyond, not_zero size (omega (arith, h)), run, past) refl
        | inl inside ↦
            let l = leb→le (length chunk) space inside in
            rw
              (
                fill_beyond,
                not_zero size (omega (arith, h)),
                run,
                inside,
                overrun fuel s₁ (size - length chunk) (space - length chunk)
                    (omega (arith, f, more, l)) (omega (arith, h, l)) (omega (arith, k, long, l)),
              )
              refl
      ]
    where
      not_zero : (n : ℕ) → 0 < n → (n == 0) ≡ false
      not_zero n h = ground arith

  diff-overrun :
      (fuel new_size : ℕ) (old : Bytes) (oldpos : ℤ) (n : ℕ) (ctrl1 ctrl2 : ℤ) (st : Streams bz)
      (out : Bytes) (next : Streams bz → Bytes → ℤ → Patched)
      → length out < new_size
      → new_size < 2 ^ 31
      → n < 2 ^ 31
      → new_size < fuel
      → new_size - length out < length (content st.dstream)
      → diff_part bz fuel new_size old oldpos (negsuc n) ctrl1 ctrl2 st out next ≡ fault
  unfolding diff_part fill_ℤ
  diff-overrun fuel new_size old oldpos n ctrl1 ctrl2 st out next h low small f more =
      rw
        (
          diff_part,
          passes new_size (length out) n h low small,
          overrun fuel st.dstream (2 ^ 32 - 1 - n) (new_size - length out) (omega (arith, f))
              (omega (arith, low, small)) more,
        )
        refl

  -- A control block whose next length of diff data is negative is not refused: where the diff data
  -- holds more bytes than there is room for in the new file, the buffer is overrun, in no more than as
  -- many calls as the new file is long, and one.
  pub negative_length-fault :
      (rounds fuel new_size : ℕ) (old : Bytes) (st : Streams bz) (out : Bytes) (oldpos : ℤ)
      (buf : Bytes) (c : Stream) (n : ℕ) (ctrl1 ctrl2 : ℤ)
      → length out < new_size
      → new_size < 2 ^ 31
      → n < 2 ^ 31
      → new_size < fuel
      → new_size - length out < length (content st.dstream)
      → fill_buffer bz fuel st.cstream 24 ≡ filled buf c
      → control bz buf ≡ some (negsuc n, ctrl1, ctrl2)
      → patch_loop bz (suc rounds) fuel new_size old st out oldpos ≡ fault
  negative_length-fault rounds fuel new_size old st out oldpos buf c n ctrl1 ctrl2 h low small f
        more run k =
      patch_round bz rounds fuel new_size old st out oldpos h
      ∙ first_round bz fuel new_size old st out oldpos buf c (negsuc n) ctrl1 ctrl2
          (patch_loop bz rounds fuel new_size old) run k
      ∙ diff-overrun fuel new_size old oldpos n ctrl1 ctrl2 (record st { cstream = c }) out
          (patch_loop bz rounds fuel new_size old) h low small f more
