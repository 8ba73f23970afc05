-- ===== src/Minzip/Contents/Tests.antt =====
-- The theorems about the contents of entries at a small file, and runs of the functions.
use open_recovery.Base.{
  Option, sym, ap, ℕ, zero, suc, ◌+◌, ◌-◌, ◌%◌, ◌≢◌, ◌⊎◌, inl, ◌^◌, ◌≤◌, ◌<◌, ◌≡◌, refl, Bool, true,
  false, [], ◌∷◌, ◌++◌, some, Bytes, codes, length, take, drop, arith,
}
use open_recovery.Minzip.Zip.{ZipEntry}
use open_recovery.Minzip.Contents.{
  finished, outside, Descriptor, ok, stream_end, other, Inflated, Zlib, buf_size, Process,
  process_deflated_entry,
}
use open_recovery.Minzip.Contents.Taken.{
  wrote, Sink, mz_read_zip_entry, mz_extract_zip_entry_to_buffer, mz_extract_zip_entry_to_file,
  mz_is_zip_entry_intact,
}
use open_recovery.Minzip.Contents.Stored.{forget, Holds, StoredIn}
use open_recovery.Minzip.Contents.Inflate.{Progresses, Counts}
use open_recovery.Minzip.Contents.Deflated.{process_deflated_entry-length}
use open_recovery.Minzip.Contents.Buffers.{
  Fails, mz_read_zip_entry-stored, mz_extract_zip_entry_to_buffer-stored,
}
use open_recovery.Minzip.Contents.Written.{Appends, mz_extract_zip_entry_to_file-stored}

-- a file, with the position in it
abbrev on : Bytes → Descriptor
on file = record {
  World = ℕ;
  tell = λ w. w;
  seek = λ n w. n;
  read = λ n w. (some (take n (drop w file)), w + length (take n (drop w file)));
}

on-Holds : (file : Bytes) → Holds (on file) file
on-Holds file = record { reads = λ n w. refl; moves = λ n w. refl; seeks = λ n w l. refl }

-- a compression that keeps the bytes, up to a last one that is 0; the stream is how many bytes were kept,
-- and how many were read besides
abbrev plain : Zlib
plain = record { Stream = ℕ × ℕ; init = some (0, 0); inflate = λ z bytes room. one_byte z bytes }
  where
    one_byte : ℕ × ℕ → Bytes → Inflated (ℕ × ℕ)
    one_byte z [] = record { code = other; left = []; out = []; stream = z }
    one_byte z (zero ∷ rest) = record {
      code = stream_end;
      left = rest;
      out = [];
      stream = (z.0, z.1 + 1);
    }
    one_byte z (suc c ∷ rest) = record {
      code = ok;
      left = rest;
      out = suc c ∷ [];
      stream = (z.0 + 1, z.1);
    }

abbrev entry : ℕ → ℕ → ℕ → ZipEntry
entry compression comp_len uncomp_len = record {
  file_name = codes "f";
  offset = 2;
  comp_len = comp_len;
  uncomp_len = uncomp_len;
  compression = compression;
  mod_time = 0;
  crc32 = 294;
  version_made_by = 0;
  external_file_attributes = 0;
}

abbrev some_file : Bytes
some_file = codes "..abc" ++ (0 ∷ codes "..")

-- a file to which bytes are appended one by one
abbrev one_by_one : Sink
one_by_one = record { File = Bytes; write = λ bytes f. (wrote 1, f ++ take 1 bytes) }

abbrev bytewise : Appends one_by_one
bytewise = record { contents = λ f. f; writes = λ bytes f l. (1, refl, omega arith, l, refl) }

abc-StoredIn : StoredIn some_file (entry 0 3 3)
abc-StoredIn = record { is_stored = refl; offset_low = omega arith; inside = omega arith }

mz_read_zip_entry-stored_example :
    (3 ≤ 5
      → forget (mz_read_zip_entry (on some_file) plain 9 (entry 0 3 3) 1 5)
        ≡ finished (true, codes "abc"))
    × (5 < 3 → Fails (forget (mz_read_zip_entry (on some_file) plain 9 (entry 0 3 3) 1 5)))
mz_read_zip_entry-stored_example =
    mz_read_zip_entry-stored (on some_file) plain some_file (on-Holds some_file) 9 (entry 0 3 3) 1
      abc-StoredIn (omega arith) 5

mz_extract_zip_entry_to_buffer-stored_example :
    (3 ≤ 2
      → forget (mz_extract_zip_entry_to_buffer (on some_file) plain 9 (entry 0 3 2) 1 2)
        ≡ finished (false, codes "abc"))
    × (2 < 3
        → forget (mz_extract_zip_entry_to_buffer (on some_file) plain 9 (entry 0 3 2) 1 2)
          ≡ outside)
mz_extract_zip_entry_to_buffer-stored_example =
    mz_extract_zip_entry_to_buffer-stored (on some_file) plain some_file (on-Holds some_file) 9
      (entry 0 3 2) 1 (record { is_stored = refl; offset_low = omega arith; inside = omega arith })
      (omega arith) 2 (omega arith) (omega arith)

mz_extract_zip_entry_to_file-stored_example :
    (f : Bytes) × (forget (
        mz_extract_zip_entry_to_file
          (on some_file)
          plain
          9
          (entry 0 3 3)
          1
          one_by_one
          buf_size
          (codes "x"))
      ≡ finished (true, f))
    × (f ≡ codes "xabc")
mz_extract_zip_entry_to_file-stored_example =
    mz_extract_zip_entry_to_file-stored (on some_file) plain some_file (on-Holds some_file)
      one_by_one bytewise 9 buf_size (entry 0 3 3) 1 (codes "x") abc-StoredIn (omega arith)
      (omega arith)

-- a deflated entry, with the position restored
deflated_run :
    mz_read_zip_entry (on some_file) plain 9 (entry 8 4 3) 1 5 ≡ finished (true, (1, codes "abc"))
unfolding mz_read_zip_entry
deflated_run = refl

-- a sum in place of zlib's crc32
abbrev sum : ℕ → Bytes → ℕ
sum crc [] = crc
sum crc (b ∷ bs) = sum (crc + b) bs

intact_run : mz_is_zip_entry_intact (on some_file) plain 9 (entry 8 4 3) 1 sum ≡ finished (true, 1)
unfolding mz_is_zip_entry_intact
intact_run = refl

plain-Progresses : Progresses plain
plain-Progresses = record {
  total_in = λ z. z.0 + z.1;
  total_out = λ z. z.0;
  starts = λ z e. first z e;
  takes = λ z bytes room. taken z bytes;
  shrinks = λ z bytes room. shorter z bytes;
  counts = λ z bytes room. counted z bytes;
  expands = λ z. omega arith;
  advances = λ z bytes room e. less z bytes e;
}
  where
    first :
        (z : ℕ × ℕ) → ◌≡◌ {A = Option (ℕ × ℕ)} (some (0, 0)) (some z) → (z.0 + z.1 ≡ 0) × (z.0 ≡ 0)
    first z e =
        let one : (0, 0) ≡ z = cc in
        let left : 0 ≡ z.0 = ap (λ (q : ℕ × ℕ). q.0) one in
        let right : 0 ≡ z.1 = ap (λ (q : ℕ × ℕ). q.1) one in (omega (arith, left, right), sym left)

    taken :
        (z : ℕ × ℕ) (bytes : Bytes)
        → (plain.inflate z bytes 0).stream.0
            + (plain.inflate z bytes 0).stream.1
            + length (plain.inflate z bytes 0).left
          ≡ z.0 + z.1 + length bytes
    taken z [] = refl
    taken z (zero ∷ rest) = omega arith
    taken z (suc c ∷ rest) = omega arith

    shorter : (z : ℕ × ℕ) (bytes : Bytes) → length (plain.inflate z bytes 0).left ≤ length bytes
    shorter z [] = omega arith
    shorter z (zero ∷ rest) = omega arith
    shorter z (suc c ∷ rest) = omega arith

    counted :
        (z : ℕ × ℕ) (bytes : Bytes)
        → (plain.inflate z bytes 0).stream.0 ≡ z.0 + length (plain.inflate z bytes 0).out
    counted z [] = omega arith
    counted z (zero ∷ rest) = omega arith
    counted z (suc c ∷ rest) = refl

    less :
        (z : ℕ × ℕ) (bytes : Bytes)
        → (plain.inflate z bytes 0).code ≡ ok
        → (length (plain.inflate z bytes 0).left < length bytes)
          ⊎ (0 < length (plain.inflate z bytes 0).out)
    less z [] e = absurd (cc)
    less z (zero ∷ rest) e = absurd (cc)
    less z (suc c ∷ rest) e = inl (omega arith)

abbrev counting : Process ℕ
counting bytes n = finished (true, n + length bytes)

counting-Counts : Counts counting
counting-Counts = record {
  count = λ n. n;
  takes = λ bytes n. (true, n + length bytes, refl, (λ e. refl));
}

process_deflated_entry-length_example :
    (b : Bool) × (w : ℕ) × (n : ℕ) × (process_deflated_entry
        (on some_file)
        plain
        counting
        9999
        (entry 8 4 3)
        2
        0
      ≡ finished (b, (w, n)))
    × (b ≡ true
        → 3 ≢ 2 ^ 32 - 1
        → (total : ℕ) × (counting-Counts.count n ≡ counting-Counts.count 0 + total)
          × (total % 2 ^ 32 ≡ 3))
process_deflated_entry-length_example =
    process_deflated_entry-length (on some_file) plain plain-Progresses counting counting-Counts
      9999 (entry 8 4 3) 2 0 (omega arith) (omega arith)

-- a failure is taken for a success where the uncompressed length is -1
minus_one_run :
    process_deflated_entry (on []) plain counting 9 (entry 8 4 (2 ^ 32 - 1)) 0 0
    ≡ finished (true, (0, 0))
unfolding process_deflated_entry
minus_one_run = refl
