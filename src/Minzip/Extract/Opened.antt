-- ===== src/Minzip/Extract/Opened.antt =====
-- mzOpenZipArchive and mzExtractRecursive (minzip/Zip.c) together.
use open_recovery.Base.{
  ℕ, ◌+◌, ◌^◌, ◌≤◌, ◌≡◌, subst, true, false, [], Option, some, Bytes, AllBytes, length,
}
use open_recovery.Minzip.Zip.{done, ZipArchive, SafeAdd, mz_open_zip_archive}
use open_recovery.Minzip.Zip.Parsed.{Safely, AddsWell, Wraps}
use open_recovery.Minzip.Zip.Opened.{Opened, mz_open_zip_archive-Opened}
use open_recovery.Minzip.Contents.{finished, ◌>>=◌, Descriptor, Zlib}
use open_recovery.Minzip.Dirs.{FileSystem}
use open_recovery.Minzip.Extract.{
  Flags, mz_extract_recursive, canonical, begins_with_slash, path_helper,
}
use open_recovery.Minzip.Extract.Matched.{matched, extract_all, mz_extract_recursive-matched}

-- For an archive that mzOpenZipArchive opened, where addresses are added as they are and the
-- mapping ends 2 ^ 18 bytes below the top of the address space, a relative zipDir and an absolute
-- targetDir: mzExtractRecursive, which ends with the first other name after a match, does what
-- extracting each entry of the whole archive whose name begins with zipDir and a slash, or any name
-- for an empty zipDir, does, until one of them fails.
pub mz_extract_recursive-opened :
    (safe_add : SafeAdd) (adds : AddsWell safe_add) (base : ℕ) (map : Bytes)
    (top : base + length map + 2 ^ 18 ≤ 2 ^ 32) (bytes : AllBytes map) (archive : ZipArchive)
    → mz_open_zip_archive safe_add base (some map) ≡ done archive
    → (fs : FileSystem) (d : Descriptor) (zlib : Zlib) (fresh : ℕ → Bytes) (rounds calls : ℕ)
      (flags : Flags) (timestamp : Option ℕ) (zip_dir target_dir : Bytes) (zip : d.World)
      (w : fs.World)
    → begins_with_slash zip_dir ≡ false
    → begins_with_slash target_dir ≡ true
    → mz_extract_recursive fs d zlib fresh rounds calls flags timestamp archive zip_dir target_dir
        zip w
      ≡ (extract_all fs d zlib fresh rounds calls flags timestamp
            (matched (canonical zip_dir) archive.entries)
            (record {
              zip = zip;
              world = w;
              helper = path_helper target_dir (canonical zip_dir);
              called = [];
            })
          >>= λ r. finished (r.0, (r.1.zip, (r.1.world, r.1.called))))
mz_extract_recursive-opened safe_add adds base map top bytes archive run fs d zlib fresh rounds
      calls flags timestamp zip_dir target_dir zip w relative absolute =
    let opened : Opened safe_add adds base map top archive =
      subst (Safely (Wraps safe_add adds base map top) (Opened safe_add adds base map top)) run
        (mz_open_zip_archive-Opened safe_add adds base map top bytes) in
    mz_extract_recursive-matched fs d zlib fresh rounds calls flags timestamp archive zip_dir
      target_dir zip w opened.sorted relative absolute
