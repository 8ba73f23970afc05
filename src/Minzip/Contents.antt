-- ===== src/Minzip/Contents.antt =====
-- The contents of an entry (minzip/Zip.c): reading it in pieces, and the functions that take the pieces.
pub mod Taken
pub mod Stored
pub mod Feed
pub mod Buffers
pub mod Written
mod Tests
pub mod Inflate
pub mod Deflated
use open_recovery.Base.{
  ℕ, zero, suc, ◌+◌, ◌-◌, ◌*◌, ◌%◌, ◌^◌, Bool, true, false, ◌&&◌, List, [], ◌∷◌, ◌++◌, Option, none,
  some, Bytes, length, drop, ltb, leb, ◌==◌, if◌then◌else◌,
}
use open_recovery.Minzip.Zip.{ZipEntry}

-- What a call comes to. `outside` is an access outside of an array, and `endless` more rounds of a loop
-- than were allowed.
pub data Run (A : Type 0) : Type 0 where
  finished : A → Run A
  outside endless : Run A

infixl 5 ◌>>=◌
abbrev pub ◌>>=◌ : {A B : Type 0} → Run A → (A → Run B) → Run B
finished a >>= f = f a
outside >>= f = outside
endless >>= f = endless

-- The descriptor of the archive. A number of bytes that is read is none where read returns -1, and an
-- offset is the pattern of a long.
pub record Descriptor : Type 1 where
  pub World : Type 0
  pub tell : World → ℕ
  pub seek : ℕ → World → World
  pub read : ℕ → World → Option Bytes × World

-- ProcessZipEntryContentsFunction, with the state that its cookie is
abbrev pub Process : Type 0 → Type 0
Process S = Bytes → S → Run (Bool × S)

-- inflate returns Z_OK, Z_STREAM_END or another code; also what is left of the input, what was written
-- and the stream
pub data Code : Type 0 where
  ok stream_end other : Code

pub record Inflated (Stream : Type 0) : Type 0 where
  pub code : Code
  pub left : Bytes
  pub out : Bytes
  pub stream : Stream

-- zlib: the stream after inflateInit2, if that returned Z_OK, and inflate on the input and the room
pub record Zlib : Type 1 where
  pub Stream : Type 0
  pub init : Option Stream
  pub inflate : Stream → Bytes → ℕ → Inflated Stream

-- sizeof(buf) and sizeof(readBuf)
abbrev pub buf_size : ℕ
buf_size = 32 * 1024

abbrev pub min : ℕ → ℕ → ℕ
min a b = if leb a b then a else b

module _ (d : Descriptor) (zlib : Zlib) {S : Type 0} (process : Process S) where
  -- the value returned, with the descriptor and the cookie
  abbrev pub Processed : Type 0
  Processed = Run (Bool × (d.World × S))

  -- processStoredEntry from where `bytes_left` is; as many rounds as bytes are enough
  unfoldable pub process_stored_entry : ℕ → ℕ → d.World → S → Processed
  process_stored_entry zero bytes_left w s =
      if bytes_left == 0 then finished (true, (w, s)) else endless
  process_stored_entry (suc rounds) bytes_left w s =
      if bytes_left == 0
      then finished (true, (w, s))
      else (elim (d.read (min bytes_left buf_size) w).0 [
        | none ↦ finished (false, ((d.read (min bytes_left buf_size) w).1, s))
        | some buf ↦ elim (length buf == min bytes_left buf_size) [
          | false ↦ finished (false, ((d.read (min bytes_left buf_size) w).1, s))
          | true ↦ process buf s >>= λ r. elim r.0 [
            | false ↦ finished (false, ((d.read (min bytes_left buf_size) w).1, r.1))
            | true ↦
                process_stored_entry rounds (bytes_left - min bytes_left buf_size)
                  (d.read (min bytes_left buf_size) w).1 r.1
          ]
        ]
      ])

  -- The state of the loop of processDeflatedEntry: the input that inflate has not taken, the bytes in
  -- procBuf, total_out and compRemaining.
  pub record Deflating : Type 0 where
    pub stream : zlib.Stream
    pub next_in : Bytes
    pub proc_buf : Bytes
    pub total_out : ℕ
    pub comp_remaining : ℕ
    pub world : d.World
    pub cookie : S

  -- What the loop ends with: total_out where it is left at its end, none after `goto z_bail`.
  abbrev pub Ended : Type 0
  Ended = Option ℕ × (d.World × S)

  abbrev pub z_bail : Deflating → Run Ended
  z_bail s = finished (none, (s.world, s.cookie))

  abbrev pub read_in : Deflating → Option Bytes → d.World → ℕ → Bool × Deflating
  read_in s none w get_size = (false, record s { world = w })
  read_in s (some read_buf) w get_size = (
    length read_buf == get_size,
    record s { world = w; next_in = read_buf; comp_remaining = s.comp_remaining - get_size },
  )

  -- read as much as we can, where inflate has taken all of the input
  abbrev pub refill : Deflating → Bool × Deflating
  refill s =
      if length s.next_in == 0
      then read_in s (d.read (min s.comp_remaining buf_size) s.world).0
          (d.read (min s.comp_remaining buf_size) s.world).1 (min s.comp_remaining buf_size)
      else (true, s)

  abbrev pub after_inflate : Deflating → Inflated zlib.Stream → Deflating
  after_inflate s i = record s {
    stream = i.stream;
    next_in = i.left;
    proc_buf = s.proc_buf ++ i.out;
    total_out = s.total_out + length i.out;
  }

  -- procBuf is passed on when it is full, or at the end of the stream when it is not empty
  abbrev pub is_due : Code → Bytes → Bool
  is_due ok proc_buf = length proc_buf == buf_size
  is_due stream_end proc_buf = ltb 0 (length proc_buf)
  is_due other proc_buf = false

  abbrev pub pass_on : Bool → Deflating → Run (Bool × Deflating)
  pass_on false s = finished (true, s)
  pass_on true s =
      process s.proc_buf s.cookie >>= λ r. finished (r.0, record s { cookie = r.1; proc_buf = [] })

  -- one round: the state and the code of inflate, or none after `goto z_bail`
  abbrev pub inflate_round : Deflating → Run (Option Code × Deflating)
  inflate_round s = elim (refill s).0 [
    | false ↦ finished (none, (refill s).1)
    | true ↦
        let s₁ = (refill s).1 in
        let i = zlib.inflate s₁.stream s₁.next_in (buf_size - length s₁.proc_buf) in
        elim i.code [
          | other ↦ finished (none, after_inflate s₁ i)
          | ok ↦ pass_on (is_due ok (s₁.proc_buf ++ i.out)) (after_inflate s₁ i) >>= λ r.
              finished ((if r.0 then some ok else none), r.1)
          | stream_end ↦
              pass_on (is_due stream_end (s₁.proc_buf ++ i.out)) (after_inflate s₁ i) >>= λ r.
              finished ((if r.0 then some stream_end else none), r.1)
        ]
  ]

  -- the loop, for so many rounds at most
  unfoldable pub inflate_rounds : ℕ → Deflating → Run Ended
  inflate_rounds zero s = endless
  inflate_rounds (suc rounds) s = inflate_round s >>= λ r. elim r.0 [
    | none ↦ z_bail r.1
    | some code ↦ elim code [
      | ok ↦ inflate_rounds rounds r.1
      | stream_end ↦ finished (some r.1.total_out, (r.1.world, r.1.cookie))
      | other ↦ z_bail r.1
    ]
  ]

  -- The first read where the compressed length is negative as a long: it asks for as many bytes as its
  -- pattern says. The number that it returns is not the length, except for -1, where read fails: inflate
  -- is then told of more input than readBuf holds.
  abbrev pub negative_read : ZipEntry → d.World → S → Processed
  negative_read e w s = elim (d.read e.comp_len w).0 [
    | none ↦
        if e.comp_len == 2 ^ 32 - 1
        then outside
        else finished (e.uncomp_len == 2 ^ 32 - 1, ((d.read e.comp_len w).1, s))
    | some bytes ↦
        if ltb buf_size (length bytes)
        then outside
        else finished (e.uncomp_len == 2 ^ 32 - 1, ((d.read e.comp_len w).1, s))
  ]

  -- processDeflatedEntry after inflateInit2; its `result` is -1 where an error occurred
  unfoldable pub after_init : ℕ → ZipEntry → d.World → S → Option zlib.Stream → Processed
  unfolding inflate_rounds
  after_init rounds e w s none = finished (e.uncomp_len == 2 ^ 32 - 1, (w, s))
  after_init rounds e w s (some stream) =
      if leb (2 ^ 31) e.comp_len
      then negative_read e w s
      else (inflate_rounds rounds (record {
        stream = stream;
        next_in = [];
        proc_buf = [];
        total_out = 0;
        comp_remaining = e.comp_len;
        world = w;
        cookie = s;
      })
          >>= λ r. elim r.0 [
            | none ↦ finished (e.uncomp_len == 2 ^ 32 - 1, r.1)
            | some total ↦ finished (total % 2 ^ 32 == e.uncomp_len, r.1)
          ])

  unfoldable pub process_deflated_entry : ℕ → ZipEntry → d.World → S → Processed
  unfolding after_init
  process_deflated_entry rounds e w s = after_init rounds e w s zlib.init

  abbrev pub method_stored : ℕ
  method_stored = 0

  abbrev pub method_deflated : ℕ
  method_deflated = 8

  abbrev pub by_compression : ℕ → ZipEntry → d.World → S → Processed
  by_compression rounds e w s =
      if e.compression == method_stored
      then process_stored_entry rounds e.comp_len w s
      else if e.compression == method_deflated
      then process_deflated_entry rounds e w s
      else finished (false, (w, s))

  -- mzProcessZipEntryContents: from the entry's offset, and back
  unfoldable pub mz_process_zip_entry_contents : ℕ → ZipEntry → d.World → S → Processed
  unfolding process_stored_entry process_deflated_entry
  mz_process_zip_entry_contents rounds e w s =
      by_compression rounds e (d.seek e.offset w) s >>= λ r.
      finished (r.0, (d.seek (d.tell w) r.1.0, r.1.1))
