-- ===== src/Minzip/Extract/Matched.antt =====
-- mzExtractRecursive (minzip/Zip.c): the entries that are extracted, and the paths they go to.
use open_recovery.Base.{
  ℕ, ◌≡◌, inl, inr, refl, ap, Bool, true, false, List, [], ◌∷◌, Option, Bytes, here, there,
  Bool-cases, if◌then◌else◌, arith,
}
use open_recovery.Minzip.Zip.{ZipEntry, ZipArchive, compare_names}
use open_recovery.Minzip.Zip.Sorting.{Le, IsSorted, AllIn}
use open_recovery.Minzip.Contents.{Run, finished, outside, endless, ◌>>=◌, Descriptor, Zlib}
use open_recovery.Minzip.Dirs.{FileSystem}
use open_recovery.Minzip.Extract.{
  starts_with, Flags, Extraction, Step, next, stop, extract_entry, extract_entries,
  mz_extract_recursive, canonical, begins_with_slash, path_helper,
}

-- names that begin alike have only such names between them
starts_with-between :
    (p x y z : Bytes)
    → starts_with p x ≡ true
    → starts_with p z ≡ true
    → Le x y
    → Le y z
    → starts_with p y ≡ true
unfolding starts_with compare_names
starts_with-between [] x y z sx sz xy yz = refl
starts_with-between (c ∷ p) [] y z sx sz xy yz = absurd (cc)
starts_with-between (c ∷ p) (a ∷ x) y [] sx sz xy yz = absurd (cc)
starts_with-between (c ∷ p) (a ∷ x) [] (b ∷ z) sx sz xy yz = absurd (xy refl)
starts_with-between (c ∷ p) (a ∷ x) (d ∷ y) (b ∷ z) sx sz xy yz =
    ground (arith, starts_with-between p x y z)

-- the entries whose names begin so, in their order
abbrev pub matched : Bytes → List ZipEntry → List ZipEntry
matched zpath [] = []
matched zpath (e ∷ es) =
    let rest = matched zpath es in if starts_with zpath e.file_name then e ∷ rest else rest

-- after a match and a name without one there is no other match
matched-none :
    (zpath : Bytes) (x y : ZipEntry) (es : List ZipEntry)
    → starts_with zpath x.file_name ≡ true
    → Le x.file_name y.file_name
    → starts_with zpath y.file_name ≡ false
    → AllIn (λ z. Le y.file_name z.file_name) es
    → matched zpath es ≡ []
matched-none zpath x y [] sx xy sy all = refl
matched-none zpath x y (z ∷ es) sx xy sy all =
    let rest = matched-none zpath x y es sx xy sy (λ u h. all u (there h)) in
    elim (Bool-cases (starts_with zpath z.file_name)) [
      | inr other ↦ rw (other) rest
      | inl match ↦
          let between =
            starts_with-between zpath x.file_name y.file_name z.file_name sx match xy
              (all z (here refl)) in
          absurd (cc (between, sy))
    ]

module _ (fs : FileSystem) (d : Descriptor) (zlib : Zlib) (fresh : ℕ → Bytes) (rounds calls : ℕ)
    (flags : Flags) (timestamp : Option ℕ) where
  abbrev Extracting : Type 0
  Extracting = Extraction fs d zlib fresh rounds calls flags timestamp

  -- all of the entries, until one fails
  abbrev pub extract_all : List ZipEntry → Extracting → Run (Bool × Extracting)
  extract_all [] s = finished (true, s)
  extract_all (e ∷ es) s = extract_entry fs d zlib fresh rounds calls flags timestamp e s >>= λ r.
      elim r [ stop ok s' ↦ finished (ok, s') | next s' ↦ extract_all es s' ]

  abbrev Entered : Type 0
  Entered = Run (Step fs d zlib fresh rounds calls flags timestamp)

  abbrev then_on : (Extracting → Run (Bool × Extracting)) → Entered → Run (Bool × Extracting)
  then_on f x = x >>= λ r. elim r [ stop ok s' ↦ finished (ok, s') | next s' ↦ f s' ]

  same_after :
      (x : Entered) (f g : Extracting → Run (Bool × Extracting))
      → ((s : Extracting) → f s ≡ g s)
      → then_on f x ≡ then_on g x
  same_after (finished (stop ok s)) f g h = refl
  same_after (finished (next s)) f g h = h s
  same_after outside f g h = refl
  same_after endless f g h = refl

  seen-matched :
      (zpath : Bytes) (x : ZipEntry) (es : List ZipEntry) (s : Extracting)
      → starts_with zpath x.file_name ≡ true
      → AllIn (λ z. Le x.file_name z.file_name) es
      → IsSorted es
      → extract_entries fs d zlib fresh rounds calls flags timestamp zpath es true s
        ≡ extract_all (matched zpath es) s
  unfolding extract_entries
  seen-matched zpath x [] s sx above sorted = refl
  seen-matched zpath x (e ∷ es) s sx above sorted =
      elim (Bool-cases (starts_with zpath e.file_name)) [
        | inr other ↦
            rw
              (
                extract_entries,
                other,
                matched-none zpath x e es sx (above e (here refl)) other sorted.0,
              )
              refl
        | inl match ↦
            rw (extract_entries, match)
              (same_after (extract_entry fs d zlib fresh rounds calls flags timestamp e s)
                (extract_entries fs d zlib fresh rounds calls flags timestamp zpath es true)
                (extract_all (matched zpath es))
                (λ s'. seen-matched zpath e es s' match sorted.0 sorted.1))
      ]

  extract_entries-matched :
      (zpath : Bytes) (es : List ZipEntry) (s : Extracting)
      → IsSorted es
      → extract_entries fs d zlib fresh rounds calls flags timestamp zpath es false s
        ≡ extract_all (matched zpath es) s
  unfolding extract_entries
  extract_entries-matched zpath [] s sorted = refl
  extract_entries-matched zpath (e ∷ es) s sorted =
      elim (Bool-cases (starts_with zpath e.file_name)) [
        | inr other ↦ rw (extract_entries, other) (extract_entries-matched zpath es s sorted.1)
        | inl match ↦
            rw (extract_entries, match)
              (same_after (extract_entry fs d zlib fresh rounds calls flags timestamp e s)
                (extract_entries fs d zlib fresh rounds calls flags timestamp zpath es true)
                (extract_all (matched zpath es))
                (λ s'. seen-matched zpath e es s' match sorted.0 sorted.1))
      ]

  -- For a relative zipDir, an absolute targetDir and an archive whose entries are sorted by name:
  -- mzExtractRecursive, which ends with the first other name after a match, does what extracting
  -- each entry of the whole archive whose name begins with zipDir and a slash does, until one of
  -- them fails.
  pub mz_extract_recursive-matched :
      (archive : ZipArchive) (zip_dir target_dir : Bytes) (zip : d.World) (w : fs.World)
      → IsSorted archive.entries
      → begins_with_slash zip_dir ≡ false
      → begins_with_slash target_dir ≡ true
      → mz_extract_recursive fs d zlib fresh rounds calls flags timestamp archive zip_dir target_dir
          zip w
        ≡ (extract_all (matched (canonical zip_dir) archive.entries) (record {
          zip = zip;
          world = w;
          helper = path_helper target_dir (canonical zip_dir);
          called = [];
        })
            >>= λ r. finished (r.0, (r.1.zip, (r.1.world, r.1.called))))
  unfolding mz_extract_recursive
  mz_extract_recursive-matched archive zip_dir target_dir zip w sorted relative absolute =
      rw (relative, absolute)
        (ap
          (λ (x : Run (Bool × Extracting)).
            x >>= λ r. finished (r.0, (r.1.zip, (r.1.world, r.1.called))))
          (extract_entries-matched _ archive.entries _ sorted))
