-- ===== src/Minzip/Contents/Buffers.antt =====
-- mzReadZipEntry, mzExtractZipEntryToBuffer and mzExtractZipEntryToFile (minzip/Zip.c) on a stored entry.
use open_recovery.Base.{
  ℕ, ◌+◌, ◌-◌, ◌%◌, ◌^◌, ◌≤◌, ◌<◌, ◌≡◌, refl, sym, ap, ◌∙◌, subst, Bool, true, false, ◌&&◌, [],
  ◌++◌, Bytes, length-take, length-drop, length-append, length, take, drop, leb, ◌==◌, arith,
}
use open_recovery.Minzip.Zip.{ZipEntry}
use open_recovery.Minzip.Zip.Sorting.{le→leb}
use open_recovery.Minzip.Contents.{
  Run, finished, outside, endless, ◌>>=◌, Descriptor, Zlib, buf_size, mz_process_zip_entry_contents,
}
use open_recovery.Minzip.Contents.Taken.{
  CopyProcessArgs, copy_process, BufferExtractCookie, buffer_process, mz_read_zip_entry,
  mz_extract_zip_entry_to_buffer,
}
use open_recovery.Minzip.Contents.Stored.{
  feed, forget, Holds, StoredIn, mz_process_zip_entry_contents-feed,
}
use open_recovery.Minzip.Contents.Feed.{feed-all, feed-over}

gt→leb : (a b : ℕ) → b < a → leb a b ≡ false
gt→leb a b h = ground arith

-- a call that returns false
abbrev pub Fails : {S : Type 0} → Run (Bool × S) → Type 0
Fails (finished r) = r.0 ≡ false
Fails outside = ⊥
Fails endless = ⊥

Fails-over :
    {S : Type 0} (x : Run (Bool × S)) (more : S → Run (Bool × S))
    → Fails x
    → Fails (x >>= λ r. elim r.0 [ false ↦ finished (false, r.1) | true ↦ more r.1 ])
Fails-over (finished r) more h = rw (h) refl
Fails-over outside more h = h
Fails-over endless more h = h

module _ (size : ℕ) where
  -- what was copied into a buffer of the size
  record Copied (seen : Bytes) (args : CopyProcessArgs) : Type 0 where
    buf : args.buf ≡ seen
    buf_len : args.buf_len + length seen ≡ size

  copy_process-step :
      (seen piece : Bytes) (args : CopyProcessArgs)
      → length seen + length piece ≤ size
      → Copied seen args
      → (args' : CopyProcessArgs) × (copy_process piece args ≡ finished (true, args'))
        × Copied (seen ++ piece) args'
  unfolding copy_process
  copy_process-step seen piece args h c = (
    record { buf = args.buf ++ piece; buf_len = args.buf_len - length piece },
    rw (le→leb (length piece) args.buf_len (omega (arith, h, c.buf_len))) refl,
    record {
      buf = ap (λ xs. xs ++ piece) c.buf;
      buf_len = omega (arith, h, c.buf_len, length-append seen piece);
    },
  )

  copy_process-beyond :
      (seen piece : Bytes) (args : CopyProcessArgs)
      → size < length seen + length piece
      → Copied seen args
      → Fails (copy_process piece args)
  unfolding copy_process
  copy_process-beyond seen piece args h c =
      rw (gt→leb (length piece) args.buf_len (omega (arith, h, c.buf_len))) refl

  -- what was put into memory of the size, for an entry of `total` bytes
  record Put (total : ℕ) (seen : Bytes) (bec : BufferExtractCookie) : Type 0 where
    buffer : bec.buffer ≡ seen
    room : bec.room + length seen ≡ size
    len : (bec.len + length seen) % 2 ^ 32 ≡ total
    low : bec.len < 2 ^ 32

  buffer_process-step :
      (total : ℕ) (seen piece : Bytes) (bec : BufferExtractCookie)
      → length piece ≤ buf_size
      → length seen + length piece ≤ size
      → Put total seen bec
      → (bec' : BufferExtractCookie) × (buffer_process piece bec ≡ finished (true, bec'))
        × Put total (seen ++ piece) bec'
  unfolding buffer_process
  buffer_process-step total seen piece bec small h p = (
    record {
      buffer = bec.buffer ++ piece;
      room = bec.room - length piece;
      len = (bec.len + (2 ^ 32 - length piece % 2 ^ 32)) % 2 ^ 32;
    },
    rw (le→leb (length piece) bec.room (omega (arith, h, p.room))) refl,
    record {
      buffer = ap (λ xs. xs ++ piece) p.buffer;
      room = omega (arith, h, p.room, length-append seen piece);
      len = omega (arith, small, p.len, length-append seen piece);
      low = omega arith;
    },
  )

  buffer_process-beyond :
      (total : ℕ) (seen piece : Bytes) (bec : BufferExtractCookie)
      → size < length seen + length piece
      → Put total seen bec
      → buffer_process piece bec ≡ outside
  unfolding buffer_process
  buffer_process-beyond total seen piece bec h p =
      rw (gt→leb (length piece) bec.room (omega (arith, h, p.room))) refl

forget_map :
    {W S T : Type 0} (x : Run (Bool × (W × S))) (g : Bool × S → Bool) (f : S → T)
    → forget (x >>= λ r. finished (g (r.0, r.1.1), (r.1.0, f r.1.1)))
      ≡ (forget x >>= λ r. finished (g r, f r.1))
forget_map (finished r) g f = refl
forget_map outside g f = refl
forget_map endless g f = refl

module _ (d : Descriptor) (zlib : Zlib) (file : Bytes) (holds : Holds d file) (rounds : ℕ)
    (e : ZipEntry) (w : d.World) (stored : StoredIn file e) (enough : e.comp_len ≤ rounds) where
  abbrev content : Bytes
  content = take e.comp_len (drop e.offset file)

  length-content : length content ≡ e.comp_len
  length-content =
      length-take e.comp_len (drop e.offset file)
        (omega (arith, stored.inside, length-drop e.offset file))

  mz_read_zip_entry-feed :
      (buf_len : ℕ)
      → forget (mz_read_zip_entry d zlib rounds e w buf_len) ≡ (
          feed copy_process rounds content (record { buf = []; buf_len = buf_len }) >>= λ r.
          finished (r.0, r.1.buf))
  unfolding mz_read_zip_entry
  mz_read_zip_entry-feed buf_len =
      let start : CopyProcessArgs = record { buf = []; buf_len = buf_len } in
      forget_map (mz_process_zip_entry_contents d zlib copy_process rounds e w start) (λ r. r.0)
        (λ s. s.buf)
      ∙ ap (λ x. x >>= λ r. finished (r.0, r.1.buf))
          (mz_process_zip_entry_contents-feed d zlib copy_process file holds rounds e w start
            stored)

  fits :
      (buf_len : ℕ)
      → e.comp_len ≤ buf_len
      → forget (mz_read_zip_entry d zlib rounds e w buf_len) ≡ finished (true, content)
  fits buf_len h =
      let start : CopyProcessArgs = record { buf = []; buf_len = buf_len } in
      let (args, run, c) =
        feed-all copy_process (Copied buf_len) buf_len
          (λ seen piece s pos small room. copy_process-step buf_len seen piece s room) rounds
          content [] start (omega (arith, length-content, enough))
          (omega (arith, length-content, h)) (record { buf = refl; buf_len = omega arith }) in
      mz_read_zip_entry-feed buf_len
      ∙ ap (λ x. x >>= λ r. finished (r.0, r.1.buf)) run
      ∙ ap (λ b. finished (true, b)) c.buf

  too_long :
      (buf_len : ℕ)
      → buf_len < e.comp_len
      → Fails (forget (mz_read_zip_entry d zlib rounds e w buf_len))
  too_long buf_len h =
      let start : CopyProcessArgs = record { buf = []; buf_len = buf_len } in
      subst Fails (sym (mz_read_zip_entry-feed buf_len)) (
        still (feed copy_process rounds content start) (
          feed-over copy_process (Copied buf_len) buf_len
            (λ seen piece s pos small room. copy_process-step buf_len seen piece s room) Fails
            Fails-over (copy_process-beyond buf_len) rounds content [] start
            (omega (arith, length-content, enough)) (omega arith) (omega (arith, length-content, h))
            (record { buf = refl; buf_len = omega arith })))
    where
      still :
          (x : Run (Bool × CopyProcessArgs)) → Fails x → Fails (x >>= λ r. finished (r.0, r.1.buf))
      still (finished r) h = h
      still outside h = h
      still endless h = h

  -- For a stored entry whose bytes are in the file that the descriptor reads, from an offset below
  -- 2 ^ 31: with as many rounds as bytes, mzReadZipEntry puts exactly these bytes into a buffer
  -- that is as long or longer and returns true, and it returns false where the buffer is shorter.
  pub mz_read_zip_entry-stored :
      (buf_len : ℕ)
      → (e.comp_len ≤ buf_len
          → forget (mz_read_zip_entry d zlib rounds e w buf_len) ≡ finished (true, content))
        × (buf_len < e.comp_len → Fails (forget (mz_read_zip_entry d zlib rounds e w buf_len)))
  mz_read_zip_entry-stored buf_len = (fits buf_len, too_long buf_len)

  abbrev extracted : Run (Bool × BufferExtractCookie) → Run (Bool × Bytes)
  extracted x = x >>= λ r. finished (r.0 && (r.1.len == 0), r.1.buffer)

  mz_extract_zip_entry_to_buffer-feed :
      (room : ℕ)
      → forget (mz_extract_zip_entry_to_buffer d zlib rounds e w room)
        ≡ extracted (
            feed buffer_process rounds content
              (record { buffer = []; room = room; len = e.uncomp_len }))
  unfolding mz_extract_zip_entry_to_buffer
  mz_extract_zip_entry_to_buffer-feed room =
      let start : BufferExtractCookie = record { buffer = []; room = room; len = e.uncomp_len } in
      forget_map (mz_process_zip_entry_contents d zlib buffer_process rounds e w start)
        (λ r. r.0 && (r.1.len == 0)) (λ s. s.buffer)
      ∙ ap extracted (
          mz_process_zip_entry_contents-feed d zlib buffer_process file holds rounds e w start
            stored)

  -- For a stored entry whose bytes are in the file that the descriptor reads, from an offset below
  -- 2 ^ 31, and lengths below 2 ^ 32: with as many rounds as bytes, mzExtractZipEntryToBuffer puts
  -- exactly these bytes into memory that holds them, and returns true only where there are as many
  -- as the entry's uncompressed length says; where they do not fit, it writes outside of the
  -- memory.
  pub mz_extract_zip_entry_to_buffer-stored :
      (room : ℕ)
      → e.uncomp_len < 2 ^ 32
      → room < 2 ^ 32
      → (e.comp_len ≤ room
          → forget (mz_extract_zip_entry_to_buffer d zlib rounds e w room)
            ≡ finished (e.comp_len == e.uncomp_len, content))
        × (room < e.comp_len
            → forget (mz_extract_zip_entry_to_buffer d zlib rounds e w room) ≡ outside)
  mz_extract_zip_entry_to_buffer-stored room long small = (
    (λ h.
        let (bec, run, p) =
          feed-all buffer_process (Put room e.uncomp_len) room
            (λ seen piece s pos piece_small some_room.
              buffer_process-step room e.uncomp_len seen piece s piece_small some_room)
            rounds content [] start (omega (arith, length-content, enough))
            (omega (arith, length-content, h)) begun in
        mz_extract_zip_entry_to_buffer-feed room
        ∙ ap extracted run
        ∙ ap (λ b. finished (b, bec.buffer))
            (zero_left bec.len (length content) e.uncomp_len e.comp_len p.low
              (omega (arith, length-content, h, small)) length-content p.len)
        ∙ ap (λ b. finished (e.comp_len == e.uncomp_len, b)) p.buffer),
    (λ h.
        mz_extract_zip_entry_to_buffer-feed room
        ∙ ap extracted (
            feed-over buffer_process (Put room e.uncomp_len) room
              (λ seen piece s pos piece_small some_room.
                buffer_process-step room e.uncomp_len seen piece s piece_small some_room)
              (λ x. x ≡ outside) (λ x more stop. rw (stop) refl)
              (buffer_process-beyond room e.uncomp_len) rounds content [] start
              (omega (arith, length-content, enough)) (omega arith)
              (omega (arith, length-content, h)) begun)),
  )
    where
      start : BufferExtractCookie
      start = record { buffer = []; room = room; len = e.uncomp_len }

      begun : Put room e.uncomp_len [] start
      begun = record { buffer = refl; room = omega arith; len = omega (arith, long); low = long }

      zero_left :
          (len n total comp : ℕ)
          → len < 2 ^ 32
          → n < 2 ^ 32
          → n ≡ comp
          → (len + n) % 2 ^ 32 ≡ total
          → (len == 0) ≡ (comp == total)
      zero_left len n total comp l k same sum = ground arith
