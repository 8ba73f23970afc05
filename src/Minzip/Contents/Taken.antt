-- ===== src/Minzip/Contents/Taken.antt =====
-- What is done with the contents of an entry (minzip/Zip.c): they are copied into memory, written to a
-- file, or checked.
use open_recovery.Base.{
  ℕ, zero, suc, ◌+◌, ◌-◌, ◌%◌, ◌^◌, Bool, true, false, ◌&&◌, [], ◌++◌, Bytes, length, drop, ltb,
  leb, ◌==◌, if◌then◌else◌,
}
use open_recovery.Minzip.Zip.{ZipEntry}
use open_recovery.Minzip.Contents.{
  Run, finished, outside, endless, ◌>>=◌, Descriptor, Zlib, Process, mz_process_zip_entry_contents,
}

-- CopyProcessArgs: what is before `buf`, and how many bytes are left there
pub record CopyProcessArgs : Type 0 where
  pub buf : Bytes
  pub buf_len : ℕ

-- copyProcessFunction
unfoldable pub copy_process : Process CopyProcessArgs
copy_process bytes args =
    if leb (length bytes) args.buf_len
    then finished (true, record { buf = args.buf ++ bytes; buf_len = args.buf_len - length bytes })
    else finished (false, args)

-- BufferExtractCookie: what is before `buffer`, how many bytes of the caller's memory are behind it, and
-- the pattern of `len`
pub record BufferExtractCookie : Type 0 where
  pub buffer : Bytes
  pub room : ℕ
  pub len : ℕ

-- bufferProcessFunction
unfoldable pub buffer_process : Process BufferExtractCookie
buffer_process bytes bec =
    if leb (length bytes) bec.room
    then finished (
      true,
      record {
        buffer = bec.buffer ++ bytes;
        room = bec.room - length bytes;
        len = (bec.len + (2 ^ 32 - length bytes % 2 ^ 32)) % 2 ^ 32;
      },
    )
    else outside

-- What write comes to: so many bytes, more than none; or 0 or -1, with errno EINTR or another.
pub data Written : Type 0 where
  wrote : ℕ → Written
  interrupted failed : Written

-- the descriptor of the file that is written to
pub record Sink : Type 1 where
  pub File : Type 0
  pub write : Bytes → File → Written × File

-- writeProcessFunction on what is left of the bytes, for so many calls of write
unfoldable pub write_process : (sink : Sink) → ℕ → Process sink.File
write_process sink zero bytes f = endless
write_process sink (suc calls) bytes f = elim (sink.write bytes f).0 [
  | interrupted ↦ write_process sink calls bytes (sink.write bytes f).1
  | failed ↦ finished (false, (sink.write bytes f).1)
  | wrote n ↦ elim (n == length bytes) [
    | true ↦ finished (true, (sink.write bytes f).1)
    | false ↦ elim (ltb (length bytes) n) [
      | true ↦ finished (false, (sink.write bytes f).1)
      | false ↦ write_process sink calls (drop n bytes) (sink.write bytes f).1
    ]
  ]
]

module _ (d : Descriptor) (zlib : Zlib) (rounds : ℕ) (e : ZipEntry) (w : d.World) where
  -- mzReadZipEntry into a buffer of `buf_len` bytes, an int, and what the buffer then begins with
  unfoldable pub mz_read_zip_entry : ℕ → Run (Bool × (d.World × Bytes))
  unfolding mz_process_zip_entry_contents copy_process
  mz_read_zip_entry buf_len =
      mz_process_zip_entry_contents d zlib copy_process rounds e w
        (record { buf = []; buf_len = buf_len })
      >>= λ r. finished (r.0, (r.1.0, r.1.1.buf))

  -- mzExtractZipEntryToBuffer into memory of `room` bytes, and what it then begins with
  unfoldable pub mz_extract_zip_entry_to_buffer : ℕ → Run (Bool × (d.World × Bytes))
  unfolding mz_process_zip_entry_contents buffer_process
  mz_extract_zip_entry_to_buffer room =
      mz_process_zip_entry_contents d zlib buffer_process rounds e w
        (record { buffer = []; room = room; len = e.uncomp_len })
      >>= λ r. finished (r.0 && (r.1.1.len == 0), (r.1.0, r.1.1.buffer))

  -- mzExtractZipEntryToFile, with so many calls of write for each piece
  unfoldable pub mz_extract_zip_entry_to_file :
      (sink : Sink) → ℕ → sink.File → Run (Bool × (d.World × sink.File))
  unfolding mz_process_zip_entry_contents write_process
  mz_extract_zip_entry_to_file sink calls f =
      mz_process_zip_entry_contents d zlib (write_process sink calls) rounds e w f

  -- mzIsZipEntryIntact, with zlib's crc32 of the bytes so far and the next
  unfoldable pub mz_is_zip_entry_intact : (ℕ → Bytes → ℕ) → Run (Bool × d.World)
  unfolding mz_process_zip_entry_contents
  mz_is_zip_entry_intact crc32 =
      mz_process_zip_entry_contents d zlib (λ bytes crc. finished (true, crc32 crc bytes)) rounds e
        w 0
      >>= λ r. finished (r.0 && (r.1.1 == e.crc32), r.1.0)
