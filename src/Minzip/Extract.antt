-- ===== src/Minzip/Extract.antt =====
-- mzExtractRecursive and targetEntryPath (minzip/Zip.c).
pub mod Matched
pub mod Paths
pub mod Opened
pub mod Unnoticed
mod Tests
use open_recovery.Base.{
  ℕ, zero, suc, ◌+◌, ◌-◌, ◌*◌, ◌/◌, ◌%◌, ◌^◌, Bool, true, false, ◌&&◌, ◌||◌, not, List, [], ◌∷◌,
  ◌++◌, Option, none, some, Bytes, length, take, drop, get_elem?, ltb, leb, ◌==◌, if◌then◌else◌,
}
use open_recovery.Minzip.Zip.{ZipEntry, ZipArchive, cenvem_unix}
use open_recovery.Minzip.Contents.{Run, finished, outside, endless, ◌>>=◌, Descriptor, Zlib}
use open_recovery.Minzip.Contents.Taken.{
  Written, Sink, mz_read_zip_entry, mz_extract_zip_entry_to_file,
}
use open_recovery.Minzip.Dirs.{FileSystem, slash, dir_create_hierarchy}

-- whether the bytes end in a slash, as far as there are bytes
abbrev pub last_is_slash : Bytes → Option Bool
last_is_slash path = elim (get_elem? path (length path - 1)) [
  | none ↦ none
  | some c ↦ some (c == slash)
]

abbrev pub ends_in_slash : Bytes → Bool
ends_in_slash path = elim (last_is_slash path) [ none ↦ false | some b ↦ b ]

abbrev pub with_slash : Bytes → Bytes
with_slash path = if ends_in_slash path then path else path ++ (slash ∷ [])

-- MzPathHelper; of the buffer the part that every path begins with is kept, once it is there
pub record MzPathHelper : Type 0 where
  pub target_dir : Bytes
  pub buf : Option Bytes
  pub target_dir_len : ℕ
  pub zip_dir_len : ℕ
  pub buf_len : ℕ

-- the length of the buffer, after it was made longer if that is needed
abbrev pub grown : MzPathHelper → Bytes → ℕ
grown helper file_name =
    let need_len = helper.target_dir_len + 1 + length file_name - helper.zip_dir_len + 1 in
    if ltb helper.buf_len need_len then need_len * 2 else helper.buf_len

abbrev pub begin_path : MzPathHelper → Bytes
begin_path helper = elim helper.buf [ none ↦ with_slash helper.target_dir | some p ↦ p ]

-- targetEntryPath, where memory is found; the path and the NUL behind it are in the buffer or not
unfoldable pub target_entry_path : MzPathHelper → ZipEntry → Run (Bytes × MzPathHelper)
target_entry_path helper e =
    let start = begin_path helper in
    let buf_len = grown helper e.file_name in
    if leb (length start + (length e.file_name - helper.zip_dir_len) + 1) buf_len
    then finished (
      start ++ drop helper.zip_dir_len e.file_name,
      record helper { buf = some start; target_dir_len = length start; buf_len = buf_len },
    )
    else outside

-- mzIsZipEntrySymlink
unfoldable pub mz_is_zip_entry_symlink : ZipEntry → Bool
mz_is_zip_entry_symlink e =
    (e.version_made_by / 256 % 256 * 256 == cenvem_unix)
    && (e.external_file_attributes / 2 ^ 16 / 2 ^ 12 % 2 ^ 4 == 10)

-- MZ_EXTRACT_FILES_ONLY and MZ_EXTRACT_DRY_RUN
pub record Flags : Type 0 where
  pub files_only : Bool
  pub dry_run : Bool

-- the entry's name begins with zpath
unfoldable pub starts_with : Bytes → Bytes → Bool
starts_with [] name = true
starts_with (c ∷ zpath) [] = false
starts_with (c ∷ zpath) (b ∷ name) = (c == b) && starts_with zpath name

-- UNZIP_DIRMODE and UNZIP_FILEMODE
abbrev pub unzip_dirmode : ℕ
unzip_dirmode = 7 * 64 + 5 * 8 + 5

abbrev pub unzip_filemode : ℕ
unzip_filemode = 6 * 64 + 4 * 8 + 4

-- bytes up to the first NUL
abbrev pub c_string : Bytes → Bytes
c_string [] = []
c_string (c ∷ bytes) = if c == 0 then [] else c ∷ c_string bytes

abbrev pub canonical : Bytes → Bytes
canonical [] = []
canonical (c ∷ zip_dir) = with_slash (c ∷ zip_dir)

abbrev pub begins_with_slash : Bytes → Bool
begins_with_slash [] = false
begins_with_slash (c ∷ path) = c == slash

abbrev pub path_helper : Bytes → Bytes → MzPathHelper
path_helper target_dir zpath = record {
  target_dir = target_dir;
  buf = none;
  target_dir_len = length target_dir;
  zip_dir_len = length zpath;
  buf_len = 0;
}

-- What new memory holds is `fresh`; `rounds` bounds the loops over a content and `calls` those of write.
module _ (fs : FileSystem) (d : Descriptor) (zlib : Zlib) (fresh : ℕ → Bytes) (rounds calls : ℕ)
    (flags : Flags) (timestamp : Option ℕ) where
  -- the archive's descriptor, the files, the helper and what the callback was called with
  pub record Extraction : Type 0 where
    pub zip : d.World
    pub world : fs.World
    pub helper : MzPathHelper
    pub called : List Bytes

  -- the next entry, or the end of the loop with `ok`
  pub data Step : Type 0 where
    next : Extraction → Step
    stop : Bool → Extraction → Step

  abbrev pub call_back : Bytes → Extraction → Extraction
  call_back target_file s = record s { called = s.called ++ (target_file ∷ []) }

  abbrev pub sink_of : fs.Fd → Sink
  sink_of fd = record { File = fs.World; write = fs.write fd }

  -- a directory
  abbrev pub extract_directory : Bytes → Extraction → Run Step
  unfolding dir_create_hierarchy
  extract_directory target_file s =
      if flags.files_only
      then finished (next (call_back target_file s))
      else (let r = dir_create_hierarchy fs target_file unzip_dirmode timestamp false s.world in
          finished (
            if r.0
            then next (call_back target_file (record s { world = r.1 }))
            else stop false (record s { world = r.1 })))

  abbrev pub link : Bytes → Bytes → Extraction → Run Step
  link target_file link_target s =
      let r = fs.symlink link_target target_file s.world in
      finished (
        if r.0
        then next (call_back target_file (record s { world = r.1 }))
        else stop false (record s { world = r.1 }))

  -- A symbolic link: its target is the content, read into uncompLen bytes of new memory, with a NUL
  -- behind them; where uncompLen is -1 the NUL is before the memory.
  abbrev pub extract_symlink : ZipEntry → Bytes → Extraction → Run Step
  unfolding mz_read_zip_entry
  extract_symlink e target_file s =
      if e.uncomp_len == 0
      then finished (stop false s)
      else (mz_read_zip_entry d zlib rounds e s.zip
            (if ltb e.uncomp_len (2 ^ 31) then e.uncomp_len else 0)
          >>= λ r. elim r.0 [
            | false ↦ finished (stop false (record s { zip = r.1.0 }))
            | true ↦
                if e.uncomp_len == 2 ^ 32 - 1
                then outside
                else (link target_file
                    (c_string
                      (take e.uncomp_len (r.1.1 ++ drop (length r.1.1) (fresh (e.uncomp_len + 1)))))
                    (record s { zip = r.1.0 }))
          ])

  -- The end of a regular file that was written: the `ok` of the block, which hides the one that is
  -- returned, is what a failure to extract the content, or of utime, sets.
  abbrev pub after_file : Bytes → Bool → Extraction → Step
  after_file target_file false s = stop true s
  after_file target_file true s = elim timestamp [
    | none ↦ next (call_back target_file s)
    | some time ↦
        let r = fs.utime target_file time s.world in
        if r.0
        then next (call_back target_file (record s { world = r.1 }))
        else stop true (record s { world = r.1 })
  ]

  unfoldable pub extract_file : ZipEntry → Bytes → Extraction → Run Step
  unfolding mz_extract_zip_entry_to_file
  extract_file e target_file s =
      let r = fs.creat target_file unzip_filemode s.world in
      elim r.0 [
        | none ↦ finished (stop false (record s { world = r.1 }))
        | some fd ↦
            mz_extract_zip_entry_to_file d zlib rounds e s.zip (sink_of fd) calls r.1 >>= λ q.
            finished
              (after_file target_file q.0 (record s { zip = q.1.0; world = fs.close fd q.1.1 }))
      ]

  -- what is not a directory, in a directory that there is then
  abbrev pub extract_other : ZipEntry → Bytes → Extraction → Run Step
  unfolding dir_create_hierarchy extract_file mz_is_zip_entry_symlink
  extract_other e target_file s =
      let r = dir_create_hierarchy fs target_file unzip_dirmode timestamp true s.world in
      if r.0
      then (if not flags.files_only && mz_is_zip_entry_symlink e
          then extract_symlink e target_file (record s { world = r.1 })
          else extract_file e target_file (record s { world = r.1 }))
      else finished (stop false (record s { world = r.1 }))

  -- an entry that begins with zpath; the last byte of an empty name is outside of the name
  unfoldable pub extract_entry : ZipEntry → Extraction → Run Step
  unfolding target_entry_path
  extract_entry e s = target_entry_path s.helper e >>= λ r.
      let s' = record s { helper = r.1 } in
      if flags.dry_run
      then finished (next (call_back r.0 s'))
      else (elim (last_is_slash e.file_name) [
        | none ↦ outside
        | some is_directory ↦
            if is_directory then extract_directory r.0 s' else extract_other e r.0 s'
      ])

  -- the loop over the entries, with seenMatch
  unfoldable pub extract_entries :
      Bytes → List ZipEntry → Bool → Extraction → Run (Bool × Extraction)
  unfolding starts_with extract_entry
  extract_entries zpath [] seen_match s = finished (true, s)
  extract_entries zpath (e ∷ es) seen_match s =
      let rest = extract_entries zpath es seen_match s in
      elim (starts_with zpath e.file_name) [
        | true ↦ extract_entry e s >>= λ r. elim r [
          | stop ok s' ↦ finished (ok, s')
          | next s' ↦ extract_entries zpath es true s'
        ]
        | false ↦ if seen_match then finished (true, s) else rest
      ]

  -- mzExtractRecursive, where memory is found, and what the callback was called with
  unfoldable pub mz_extract_recursive :
      ZipArchive
      → Bytes
      → Bytes
      → d.World
      → fs.World
      → Run (Bool × (d.World × (fs.World × List Bytes)))
  unfolding extract_entries
  mz_extract_recursive archive zip_dir target_dir zip w =
      if begins_with_slash zip_dir || not (begins_with_slash target_dir)
      then finished (false, (zip, (w, [])))
      else (extract_entries (canonical zip_dir) archive.entries false (record {
        zip = zip;
        world = w;
        helper = path_helper target_dir (canonical zip_dir);
        called = [];
      })
          >>= λ r. finished (r.0, (r.1.zip, (r.1.world, r.1.called))))
