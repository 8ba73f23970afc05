-- ===== src/Minzip/Extract/Unnoticed.antt =====
-- mzExtractRecursive (minzip/Zip.c) where contents of regular files cannot be extracted.
use open_recovery.Base.{
  ℕ, ◌≡◌, inl, inr, refl, sym, subst, ap, ◌∙◌, Bool, true, false, List, [], ◌∷◌, ◌++◌, drop, Option,
  none, some, Bytes, length, Bool-cases, if◌then◌else◌, arith,
}
use open_recovery.Minzip.Zip.{ZipEntry, ZipArchive}
use open_recovery.Minzip.Contents.{Run, finished, Descriptor, Zlib}
use open_recovery.Minzip.Contents.Taken.{mz_extract_zip_entry_to_file}
use open_recovery.Minzip.Dirs.{FileSystem, dir_create_hierarchy}
use open_recovery.Minzip.Extract.Paths.{
  path_of, Begun, initial, target_entry_path-Begun, starts_with-length,
}
use open_recovery.Minzip.Extract.{
  with_slash, begins_with_slash, canonical, path_helper, starts_with, last_is_slash,
  target_entry_path, unzip_dirmode, unzip_filemode, Flags, MzPathHelper, call_back, Extraction,
  Step, next, stop, sink_of, after_file, extract_other, extract_file, extract_entry,
  extract_entries, mz_extract_recursive,
}

module _ (fs : FileSystem) (d : Descriptor) (zlib : Zlib) (fresh : ℕ → Bytes) (rounds calls : ℕ)
    (timestamp : Option ℕ) where
  -- FILES_ONLY without DRY_RUN
  abbrev pub plainly : Flags
  plainly = record { files_only = true; dry_run = false }

  abbrev pub Extracting : Type 0
  Extracting = Extraction fs d zlib fresh rounds calls plainly timestamp

  abbrev Stepped : Type 0
  Stepped = Step fs d zlib fresh rounds calls plainly timestamp

  -- files are created
  abbrev pub IsWritable : Type 0
  IsWritable =
      (path : Bytes) (w : fs.World) → (fd : fs.Fd) × ((fs.creat path unzip_filemode w).0 ≡ some fd)

  -- the directories of a path are made
  abbrev pub Makes : Bytes → Type 0
  Makes path =
      (w : fs.World) → (dir_create_hierarchy fs path unzip_dirmode timestamp true w).0 ≡ true

  -- mzExtractZipEntryToFile returns on the entry, with true or with false
  abbrev pub Returns : ZipEntry → Type 0
  Returns e =
      (zip : d.World) (fd : fs.Fd) (w : fs.World)
      → (r : Bool × (d.World × fs.World)) × (mz_extract_zip_entry_to_file d zlib rounds e zip
            (sink_of fs d zlib fresh rounds calls plainly timestamp fd) calls w
          ≡ finished r)

  -- the entries are files, it returns on each of them, and the directories of their paths are made
  abbrev pub AllReturn : Bytes → Bytes → List ZipEntry → Type 0
  AllReturn dir zpath [] = Unit
  AllReturn dir zpath (e ∷ es) =
      Returns e
      × (last_is_slash e.file_name ≡ some false)
      × Makes (path_of dir zpath e)
      × AllReturn dir zpath es

  -- the loop goes on, or ends with true
  data GoesOn (helper : MzPathHelper) (r : Run Stepped) : Type 0 where
    on : (s : Extracting) → s.helper ≡ helper → r ≡ finished (next s) → GoesOn helper r
    over : (s : Extracting) → r ≡ finished (stop true s) → GoesOn helper r

  after_file-GoesOn :
      (path : Bytes) (ok : Bool) (s : Extracting)
      → GoesOn s.helper
          (finished (after_file fs d zlib fresh rounds calls plainly timestamp path ok s))
  after_file-GoesOn path false s = over s refl
  after_file-GoesOn path true s = by_time timestamp
    where
      by_set :
          (time : ℕ) (b : Bool) (w : fs.World)
          → GoesOn s.helper (
              finished (
                if b
                then next (
                    call_back fs d zlib fresh rounds calls plainly timestamp path
                      (record s { world = w }))
                else stop true (record s { world = w })))
      by_set time true w =
          on
            (call_back fs d zlib fresh rounds calls plainly timestamp path (record s { world = w }))
            refl refl
      by_set time false w = over (record s { world = w }) refl

      by_time :
          (o : Option ℕ)
          → GoesOn s.helper (
              finished (elim o [
                | none ↦ next (call_back fs d zlib fresh rounds calls plainly timestamp path s)
                | some time ↦
                    let r = fs.utime path time s.world in
                    if r.0
                    then next (
                        call_back fs d zlib fresh rounds calls plainly timestamp path
                          (record s { world = r.1 }))
                    else stop true (record s { world = r.1 })
              ]))
      by_time none = on (call_back fs d zlib fresh rounds calls plainly timestamp path s) refl refl
      by_time (some time) =
          by_set time (fs.utime path time s.world).0 (fs.utime path time s.world).1

  extract_file-GoesOn :
      (e : ZipEntry) (path : Bytes) (s : Extracting)
      → IsWritable
      → Returns e
      → GoesOn s.helper (extract_file fs d zlib fresh rounds calls plainly timestamp e path s)
  unfolding extract_file
  extract_file-GoesOn e path s writable returns =
      let (fd, created) = writable path s.world in
      let w = (fs.creat path unzip_filemode s.world).1 in
      let ((ok, (zip, w')), run) = returns s.zip fd w in
      let s' : Extracting = record s { zip = zip; world = fs.close fd w' } in
      let ran : extract_file fs d zlib fresh rounds calls plainly timestamp e path s
          ≡ finished (after_file fs d zlib fresh rounds calls plainly timestamp path ok s') =
        rw (extract_file, created, run) refl in
      subst (λ r. GoesOn s.helper r) (sym ran) (after_file-GoesOn path ok s')

  extract_entry-GoesOn :
      (e : ZipEntry) (path : Bytes) (helper : MzPathHelper) (s : Extracting)
      → IsWritable
      → Returns e
      → Makes path
      → last_is_slash e.file_name ≡ some false
      → target_entry_path s.helper e ≡ finished (path, helper)
      → GoesOn helper (extract_entry fs d zlib fresh rounds calls plainly timestamp e s)
  unfolding extract_entry extract_other
  extract_entry-GoesOn e path helper s writable returns makes file to =
      let w = dir_create_hierarchy fs path unzip_dirmode timestamp true s.world in
      let s' : Extracting = record s { helper = helper; world = w.1 } in
      let ran : extract_entry fs d zlib fresh rounds calls plainly timestamp e s
          ≡ extract_file fs d zlib fresh rounds calls plainly timestamp e path s' =
        rw (extract_entry, to, file, extract_other, makes s.world) refl in
      subst (λ r. GoesOn helper r) (sym ran) (extract_file-GoesOn e path s' writable returns)

  step_over :
      (zpath : Bytes) (e : ZipEntry) (es : List ZipEntry) (seen : Bool) (s s' : Extracting)
      → starts_with zpath e.file_name ≡ true
      → extract_entry fs d zlib fresh rounds calls plainly timestamp e s ≡ finished (stop true s')
      → extract_entries fs d zlib fresh rounds calls plainly timestamp zpath (e ∷ es) seen s
        ≡ finished (true, s')
  unfolding extract_entries
  step_over zpath e es seen s s' match run = rw (extract_entries, match, run) refl

  step_on :
      (zpath : Bytes) (e : ZipEntry) (es : List ZipEntry) (seen : Bool) (s s' : Extracting)
      → starts_with zpath e.file_name ≡ true
      → extract_entry fs d zlib fresh rounds calls plainly timestamp e s ≡ finished (next s')
      → extract_entries fs d zlib fresh rounds calls plainly timestamp zpath (e ∷ es) seen s
        ≡ extract_entries fs d zlib fresh rounds calls plainly timestamp zpath es true s'
  unfolding extract_entries
  step_on zpath e es seen s s' match run = rw (extract_entries, match, run) refl

  extract_entries-GoesOn :
      (dir zpath : Bytes) (es : List ZipEntry) (seen : Bool) (s : Extracting)
      → IsWritable
      → AllReturn dir zpath es
      → Begun dir s.helper
      → s.helper.zip_dir_len ≡ length zpath
      → (s' : Extracting) × (extract_entries fs d zlib fresh rounds calls plainly timestamp zpath es
            seen s
          ≡ finished (true, s'))
  unfolding extract_entries
  extract_entries-GoesOn dir zpath [] seen s writable all b n = (s, refl)
  extract_entries-GoesOn dir zpath (e ∷ es) seen s writable (returns, file, makes, all) b n =
      elim (Bool-cases (starts_with zpath e.file_name)) [
        | inr other ↦
            by_seen seen other (extract_entries-GoesOn dir zpath es false s writable all b n)
        | inl match ↦
            let (helper, to, same, b') =
              target_entry_path-Begun dir s.helper e b
                (omega (arith, n, starts_with-length zpath e.file_name match)) in
            let named : with_slash dir ++ drop s.helper.zip_dir_len e.file_name
                ≡ path_of dir zpath e =
              ap (λ k. with_slash dir ++ drop k e.file_name) n in
            let to' : target_entry_path s.helper e ≡ finished (path_of dir zpath e, helper) =
              to ∙ ap (λ (p : Bytes). finished (p, helper)) named in
            elim (extract_entry-GoesOn e _ helper s writable returns makes file to') [
              | over s' run ↦ (s', step_over zpath e es seen s s' match run)
              | on s' kept run ↦
                  let (s'', rest) =
                    extract_entries-GoesOn dir zpath es true s' writable all
                      (subst (λ h. Begun dir h) (sym kept) b')
                      (ap (λ (h : MzPathHelper). h.zip_dir_len) kept ∙ same ∙ n) in
                  (s'', step_on zpath e es seen s s' match run ∙ rest)
            ]
      ]
    where
      by_seen :
          (seen : Bool)
          → starts_with zpath e.file_name ≡ false
          → (s' : Extracting) × (extract_entries fs d zlib fresh rounds calls plainly timestamp
                zpath es false s
              ≡ finished (true, s'))
          → (s' : Extracting) × (extract_entries fs d zlib fresh rounds calls plainly timestamp
                zpath
                (e ∷ es)
                seen
                s
              ≡ finished (true, s'))
      by_seen true other r = (s, rw (extract_entries, other) refl)
      by_seen false other (s', rest) = (s', rw (extract_entries, other) rest)

  -- With FILES_ONLY and without DRY_RUN, for a relative zipDir, an absolute targetDir and an
  -- archive of regular files: where the directories of the files are made, the files are created
  -- and mzExtractZipEntryToFile returns on each of them, mzExtractRecursive returns true, whether
  -- or not their contents could be extracted, written and given their time.
  pub mz_extract_recursive-unnoticed :
      (archive : ZipArchive) (zip_dir target_dir : Bytes) (zip : d.World) (w : fs.World)
      → begins_with_slash zip_dir ≡ false
      → begins_with_slash target_dir ≡ true
      → IsWritable
      → AllReturn target_dir (canonical zip_dir) archive.entries
      → (r : d.World × (fs.World × List Bytes)) × (mz_extract_recursive fs d zlib fresh rounds calls
            plainly timestamp archive zip_dir target_dir zip w
          ≡ finished (true, r))
  unfolding mz_extract_recursive
  mz_extract_recursive-unnoticed archive zip_dir target_dir zip w relative absolute writable all =
      let start : Extracting = record {
        zip = zip;
        world = w;
        helper = path_helper target_dir (canonical zip_dir);
        called = [];
      } in
      let (s, run) =
        extract_entries-GoesOn target_dir (canonical zip_dir) archive.entries false start writable
          all (initial refl refl refl) refl in
      ((s.zip, (s.world, s.called)), rw (relative, absolute, run) refl)
