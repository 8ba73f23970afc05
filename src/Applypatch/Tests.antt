-- ===== src/Applypatch/Tests.antt =====
-- The theorems about patches and digests at small inputs, with a decompressor of stored bytes.
use open_recovery.Base.{
  AllBytes, ℕ, zero, suc, ◌<◌, ◌≡◌, ◌≢◌, refl, ap, List, [], ◌∷◌, ◌++◌, some, Bytes, codes,
  length-take_le, take, drop, replicate, pos, negsuc, ◌+ℤ◌, arith,
}
use open_recovery.Applypatch.Utils.{Eight, to_long, offtin, offtout, offtin-offtout}
use open_recovery.Applypatch.Sha1.{
  parse_sha1, print_sha1, parse_sha1-print_sha1, FoundFirst, find_matching_patch,
  find_matching_patch-FoundFirst,
}
use open_recovery.Applypatch.Bspatch.{
  Decompressor, produced, ok, fault, add_old, opened, fill_buffer, eight_at, patch_loop,
  apply_bsdiff_patch_mem,
}
use open_recovery.Applypatch.Bspatch.Correct.{
  Triple, Placed, Describes, encode, added, copied, bytes_of, rebuild,
}
use open_recovery.Applypatch.Bspatch.Whole.{
  header, apply_bsdiff_patch_mem-rebuild, negative_length-fault,
}

abbrev digest : Bytes
digest = replicate 20 171

digest-AllBytes : (n : ℕ) → AllBytes (replicate n 171)
digest-AllBytes zero = tt
digest-AllBytes (suc n) = (omega arith, digest-AllBytes n)

parse_sha1-print_sha1_example : parse_sha1 (print_sha1 digest) ≡ some digest
parse_sha1-print_sha1_example = parse_sha1-print_sha1 digest refl (digest-AllBytes 20)

find_matching_patch-FoundFirst_example :
    FoundFirst digest
      (codes "x" ∷ print_sha1 digest ∷ [])
      (find_matching_patch digest (codes "x" ∷ print_sha1 digest ∷ []))
find_matching_patch-FoundFirst_example =
    find_matching_patch-FoundFirst digest (codes "x" ∷ print_sha1 digest ∷ [])

abbrev eight : Eight
eight = record { b0 = 1; b1 = 2; b2 = 3; b3 = 4; b4 = 5; b5 = 6; b6 = 7; b7 = 255 }

offtin-offtout_example : offtin (offtout (negsuc 299)) ≡ negsuc 299
offtin-offtout_example = offtin-offtout (negsuc 299) (omega arith) (omega arith)

pub take_some : (n : ℕ) (s : Bytes) → 0 < n → s ≢ [] → take n s ≢ []
take_some zero s h k = absurd (omega arith)
take_some (suc n) [] h k = absurd (k refl)
take_some (suc n) (b ∷ s) h k = λ e. cc

pub take-drop : (n : ℕ) (s : Bytes) → s ≡ take n s ++ drop n s
take-drop zero s = refl
take-drop (suc n) [] = refl
take-drop (suc n) (b ∷ s) = ap (λ t. b ∷ t) (take-drop n s)

-- a decompressor of a format that stores the bytes
abbrev pub stored : Decompressor
stored = record {
  Stream = Bytes;
  init = λ input n. take n input;
  decompress = λ s avail_out. produced (take avail_out s) (drop avail_out s);
  content = λ s. s;
  gives =
      λ s n h k. (take n s, drop n s, refl, take_some n s h k, length-take_le n s, take-drop n s);
}

abbrev old_file : Bytes
old_file = 1 ∷ 2 ∷ 3 ∷ []

abbrev triples : List Triple
triples = record { add = 2; copy = 1; seek = pos 0 } ∷ []

abbrev blocks : Bytes
blocks = encode triples ++ (5 ∷ 5 ∷ 9 ∷ [])

abbrev patch_file : Bytes
patch_file = header 24 2 3 ++ blocks

describes : Describes stored 3 (opened stored patch_file 0 24 2) [] triples [] (5 ∷ 5 ∷ []) (9 ∷ [])
unfolding encode added copied offtout
describes = record {
  range = (
    record { add = omega arith; copy = omega arith; ahead = omega arith; back = omega arith },
    tt,
  );
  moves = (omega arith, tt);
  whole = refl;
  diffs = omega arith;
  extras = omega arith;
  holds = record { c = refl; d = refl; e = refl };
}

placed : Placed (pos 0) triples
unfolding ◌+ℤ◌
placed = (omega arith, omega arith, tt)

apply_bsdiff_patch_mem-rebuild_example :
    apply_bsdiff_patch_mem stored 1 27 old_file patch_file 0
    ≡ ok (rebuild old_file triples (pos 0) (5 ∷ 5 ∷ []) (9 ∷ []))
apply_bsdiff_patch_mem-rebuild_example =
    apply_bsdiff_patch_mem-rebuild stored 1 27 old_file patch_file blocks 0 24 2 3 triples []
      (5 ∷ 5 ∷ []) (9 ∷ []) refl (omega arith) (omega arith) (omega arith) describes placed
      (omega arith) (omega arith)

rebuilt : rebuild old_file triples (pos 0) (5 ∷ 5 ∷ []) (9 ∷ []) ≡ 6 ∷ 7 ∷ 9 ∷ []
unfolding rebuild add_old ◌+ℤ◌
rebuilt = refl

-- a control block whose first length is -1
abbrev damaged : Bytes
damaged = bytes_of (offtout (negsuc 0)) ++ replicate 16 0

negative_length-fault_example :
    patch_loop stored 1 24 3 old_file
      (record { cstream = damaged; dstream = replicate 5 9; estream = [] })
      []
      (pos 0)
    ≡ fault
unfolding offtout offtin to_long eight_at fill_buffer ◌+ℤ◌
negative_length-fault_example =
    negative_length-fault stored 0 24 3 old_file
      (record { cstream = damaged; dstream = replicate 5 9; estream = [] }) [] (pos 0) damaged [] 0
      (pos 0) (pos 0) (omega arith) (omega arith) (omega arith) (omega arith) (omega arith) refl
      refl
