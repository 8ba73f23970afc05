-- ===== src/Minzip/Extract/Paths.antt =====
-- targetEntryPath (minzip/Zip.c) and the paths that mzExtractRecursive makes with it.
use mathlib.Core.List.{append-nil, append_assoc}
use open_recovery.Base.{
  ℕ, ◌+◌, ◌-◌, ◌≤◌, ◌≡◌, inl, inr, refl, sym, ap, ◌∙◌, true, false, List, [], ◌∷◌, ◌++◌, Option,
  none, some, Bytes, map, length, length-append, drop, leb, Bool-cases, arith,
}
use open_recovery.Minzip.Zip.{ZipEntry, ZipArchive}
use open_recovery.Minzip.Zip.Sorting.{IsSorted}
use open_recovery.Minzip.Contents.{finished, Descriptor, Zlib}
use open_recovery.Minzip.Dirs.{FileSystem, slash}
use open_recovery.Minzip.Extract.{
  MzPathHelper, grown, begin_path, target_entry_path, ends_in_slash, with_slash, starts_with, Flags,
  Extraction, extract_entry, mz_extract_recursive, canonical, begins_with_slash, path_helper,
}
use open_recovery.Minzip.Extract.Matched.{matched, extract_all, mz_extract_recursive-matched}

-- a helper that was initialised, and one that has made a path
pub data Begun (dir : Bytes) (helper : MzPathHelper) : Type 0 where
  initial :
      helper.buf ≡ none
      → helper.target_dir ≡ dir
      → helper.target_dir_len ≡ length dir
      → Begun dir helper
  used :
      helper.buf ≡ some (with_slash dir)
      → helper.target_dir ≡ dir
      → helper.target_dir_len ≡ length (with_slash dir)
      → Begun dir helper

with_slash-length : (dir : Bytes) → length (with_slash dir) ≤ length dir + 1
with_slash-length dir = elim (Bool-cases (ends_in_slash dir)) [
  | inl ends ↦ rw (ends) (omega arith)
  | inr other ↦ rw (other) (omega (arith, length-append dir (slash ∷ [])))
]

begin_path-Begun :
    (dir : Bytes) (helper : MzPathHelper)
    → Begun dir helper
    → (begin_path helper ≡ with_slash dir)
      × (helper.target_dir ≡ dir)
      × (length (with_slash dir) ≤ helper.target_dir_len + 1)
begin_path-Begun dir helper (initial e f l) =
    (rw (e) (ap with_slash f), f, omega (arith, l, with_slash-length dir))
begin_path-Begun dir helper (used e f l) = (rw (e) refl, f, omega (arith, l))

pub target_entry_path-Begun :
    (dir : Bytes) (helper : MzPathHelper) (e : ZipEntry)
    → Begun dir helper
    → helper.zip_dir_len ≤ length e.file_name
    → (helper' : MzPathHelper) × (target_entry_path helper e
        ≡ finished (with_slash dir ++ drop helper.zip_dir_len e.file_name, helper'))
      × (helper'.zip_dir_len ≡ helper.zip_dir_len)
      × Begun dir helper'
unfolding target_entry_path
target_entry_path-Begun dir helper e b long =
    let (start, same, short) = begin_path-Begun dir helper b in
    let room = grown_enough helper e.file_name (length (with_slash dir)) long short in
    (
      record helper {
        buf = some (with_slash dir);
        target_dir_len = length (with_slash dir);
        buf_len = grown helper e.file_name;
      },
      rw (start, room) refl,
      refl,
      used refl same refl,
    )
  where
    grown_enough :
        (helper : MzPathHelper) (name : Bytes) (n : ℕ)
        → helper.zip_dir_len ≤ length name
        → n ≤ helper.target_dir_len + 1
        → leb (n + (length name - helper.zip_dir_len) + 1) (grown helper name) ≡ true
    grown_enough helper name n long short = ground arith

pub starts_with-length : (p x : Bytes) → starts_with p x ≡ true → length p ≤ length x
unfolding starts_with
starts_with-length [] x h = omega arith
starts_with-length (c ∷ p) [] h = absurd (cc)
starts_with-length (c ∷ p) (b ∷ x) h = ground (arith, starts_with-length p x)

-- the path of an entry: the directory, a slash if there is none, and what is behind zipDir
abbrev pub path_of : Bytes → Bytes → ZipEntry → Bytes
path_of dir zpath e = with_slash dir ++ drop (length zpath) e.file_name

module _ (fs : FileSystem) (d : Descriptor) (zlib : Zlib) (fresh : ℕ → Bytes) (rounds calls : ℕ)
    (flags : Flags) (timestamp : Option ℕ) (dir zpath : Bytes) (dry : flags.dry_run ≡ true) where
  abbrev Extracting : Type 0
  Extracting = Extraction fs d zlib fresh rounds calls flags timestamp

  extract_all-dry_run :
      (es : List ZipEntry) (s : Extracting)
      → Begun dir s.helper
      → s.helper.zip_dir_len ≡ length zpath
      → (s' : Extracting) × (extract_all fs d zlib fresh rounds calls flags timestamp
            (matched zpath es)
            s
          ≡ finished (true, s'))
        × (s'.zip ≡ s.zip)
        × (s'.world ≡ s.world)
        × (s'.called ≡ s.called ++ map (path_of dir zpath) (matched zpath es))
  unfolding extract_entry
  extract_all-dry_run [] s b n = (s, refl, refl, refl, sym (append-nil s.called))
  extract_all-dry_run (e ∷ es) s b n = elim (Bool-cases (starts_with zpath e.file_name)) [
    | inr other ↦ rw (other) (extract_all-dry_run es s b n)
    | inl match ↦
        let (helper, run, same, b₁) =
          target_entry_path-Begun dir s.helper e b
            (omega (arith, n, starts_with-length zpath e.file_name match)) in
        let path = with_slash dir ++ drop s.helper.zip_dir_len e.file_name in
        let named : path ≡ path_of dir zpath e = ap (λ k. with_slash dir ++ drop k e.file_name) n in
        let s₁ : Extracting = record s { helper = helper; called = s.called ++ (path ∷ []) } in
        let (s₂, rest, zip, world, called) = extract_all-dry_run es s₁ b₁ (same ∙ n) in
        (
          s₂,
          rw (match, run, dry) rest,
          zip,
          world,
          rw (match) (
              called
              ∙ append_assoc s.called (path ∷ []) (map (path_of dir zpath) (matched zpath es))
              ∙ ap (λ p. s.called ++ (p ∷ map (path_of dir zpath) (matched zpath es))) named),
        )
  ]

-- With DRY_RUN, for a relative zipDir, an absolute targetDir and sorted entries: mzExtractRecursive
-- returns true, changes neither the files nor the archive's descriptor, and calls back with a path
-- in targetDir for each entry of the whole archive that is in zipDir, in their order; it never
-- writes behind the buffer in which the paths are made.
pub mz_extract_recursive-dry_run :
    (fs : FileSystem) (d : Descriptor) (zlib : Zlib) (fresh : ℕ → Bytes) (rounds calls : ℕ)
    (flags : Flags) (timestamp : Option ℕ) (archive : ZipArchive) (zip_dir target_dir : Bytes)
    (zip : d.World) (w : fs.World)
    → flags.dry_run ≡ true
    → IsSorted archive.entries
    → begins_with_slash zip_dir ≡ false
    → begins_with_slash target_dir ≡ true
    → mz_extract_recursive fs d zlib fresh rounds calls flags timestamp archive zip_dir target_dir
        zip w
      ≡ finished (
        true,
        (
          zip,
          (
            w,
            map
                (path_of target_dir (canonical zip_dir))
                (matched (canonical zip_dir) archive.entries),
          ),
        ),
      )
mz_extract_recursive-dry_run fs d zlib fresh rounds calls flags timestamp archive zip_dir target_dir
      zip w dry sorted relative absolute =
    let s : Extraction fs d zlib fresh rounds calls flags timestamp = record {
      zip = zip;
      world = w;
      helper = path_helper target_dir (canonical zip_dir);
      called = [];
    } in
    let (s', run, zip_same, world_same, called) =
      extract_all-dry_run fs d zlib fresh rounds calls flags timestamp target_dir
        (canonical zip_dir) dry archive.entries s (initial refl refl refl) refl in
    mz_extract_recursive-matched fs d zlib fresh rounds calls flags timestamp archive zip_dir
      target_dir zip w sorted relative absolute
    ∙ rw (run) (cc (zip_same, world_same, called))
