-- ===== src/Minzip/Extract/Tests.antt =====
-- The theorems about mzExtractRecursive at a small archive, and a run of it.
use open_recovery.Base.{
  arith, ℕ, ◌+◌, ◌≡◌, refl, true, false, List, [], ◌∷◌, none, some, Bytes, codes, length, take,
  drop, In-cases, inl, inr, sym, subst,
}
use open_recovery.Minzip.Hash.{create}
use open_recovery.Minzip.Zip.Tests.{adder, adder-AddsWell, two_files, all_bytes-AllBytes}
use open_recovery.Minzip.Hash.{round_up_power2, smears, hash_size}
use open_recovery.Minzip.Zip.{
  Result, done, bail, fault, mz_open_zip_archive, compute_hash, ZipEntry, ZipArchive, compare_names,
}
use open_recovery.Minzip.Zip.Sorting.{IsSorted, AllIn}
use open_recovery.Minzip.Contents.{Run, finished, ◌>>=◌, Descriptor, Zlib}
use open_recovery.Minzip.Contents.Taken.{wrote, mz_extract_zip_entry_to_file}
use open_recovery.Minzip.Dirs.{FileSystem, directory, dir_create_hierarchy}
use open_recovery.Minzip.Extract.{
  Flags, path_helper, starts_with, mz_extract_recursive, extract_other,
}
use open_recovery.Minzip.Extract.Matched.{matched, extract_all}
use open_recovery.Minzip.Extract.Opened.{mz_extract_recursive-opened}
use open_recovery.Minzip.Extract.Paths.{mz_extract_recursive-dry_run}
use open_recovery.Minzip.Extract.Unnoticed.{mz_extract_recursive-unnoticed}

abbrev archive_file : Descriptor
archive_file = record {
  World = ℕ;
  tell = λ w. w;
  seek = λ n w. n;
  read = λ n w. (some (take n (drop w (codes "xyz"))), w + length (take n (drop w (codes "xyz"))));
}

abbrev no_zlib : Zlib
no_zlib = record {
  Stream = Unit;
  init = none;
  inflate = λ z bytes room. record {
    code = open_recovery.Minzip.Contents.other;
    left = bytes;
    out = [];
    stream = z;
  };
}

-- Files as the list of their paths and bytes; every directory is there. A descriptor is the path.
abbrev files : FileSystem
files = record {
  World = List (Bytes × Bytes);
  Fd = Bytes;
  stat = λ path w. directory;
  mkdir = λ path mode w. (true, w);
  utime = λ path time w. (true, w);
  symlink = λ target path w. (true, (path, target) ∷ w);
  creat = λ path mode w. (some path, w);
  write = λ fd bytes w. (wrote (length bytes), (fd, bytes) ∷ w);
  close = λ fd w. w;
}

abbrev entry : Bytes → ℕ → ℕ → ZipEntry
entry name compression offset = record {
  file_name = name;
  offset = offset;
  comp_len = 1;
  uncomp_len = 1;
  compression = compression;
  mod_time = 0;
  crc32 = 0;
  version_made_by = 0;
  external_file_attributes = 0;
}

abbrev archive : ZipArchive
archive = record {
  entries =
      entry (codes "a") 0 0
      ∷ entry (codes "d/b") 0 1
      ∷ entry (codes "d/c") 0 2
      ∷ entry (codes "e") 9 0
      ∷ [];
  hash = create 3;
}

module _ (P : ZipEntry → Type 0) where
  no_entries : AllIn P []
  no_entries x h = elim h [ ]

  one_more : (y : ZipEntry) (ys : List ZipEntry) → P y → AllIn P ys → AllIn P (y ∷ ys)
  one_more y ys p q x h = elim (In-cases h) [ inl e ↦ subst P (sym e) p | inr r ↦ q x r ]

archive-IsSorted : IsSorted archive.entries
unfolding compare_names
archive-IsSorted = (
  one_more _ _ _ (λ e. cc) (one_more _ _ _ (λ e. cc) (one_more _ _ _ (λ e. cc) (no_entries _))),
  (
    one_more _ _ _ (λ e. cc) (one_more _ _ _ (λ e. cc) (no_entries _)),
    (one_more _ _ _ (λ e. cc) (no_entries _), (no_entries _, tt)),
  ),
)

abbrev plainly : Flags
plainly = record { files_only = true; dry_run = false }

abbrev dryly : Flags
dryly = record { files_only = true; dry_run = true }

extract_run :
    mz_extract_recursive files archive_file no_zlib
      (λ n. [])
      9
      9
      plainly
      none
      archive
      (codes "d")
      (codes "/t")
      0
      []
    ≡ finished (
      true,
      (
        0,
        (
          (codes "/t/c", codes "z") ∷ (codes "/t/b", codes "y") ∷ [],
          codes "/t/b" ∷ codes "/t/c" ∷ [],
        ),
      ),
    )
unfolding mz_extract_recursive extract_other
extract_run = refl

mz_extract_recursive-dry_run_example :
    mz_extract_recursive files archive_file no_zlib
      (λ n. [])
      9
      9
      dryly
      none
      archive
      (codes "d")
      (codes "/t")
      0
      []
    ≡ finished (true, (0, ([], codes "/t/b" ∷ codes "/t/c" ∷ [])))
unfolding starts_with
mz_extract_recursive-dry_run_example =
    mz_extract_recursive-dry_run files archive_file no_zlib (λ n. []) 9 9 dryly none archive
      (codes "d") (codes "/t") 0 [] refl archive-IsSorted refl refl

-- the archive of the files b and a, opened
abbrev opened : ZipArchive
opened = of_result (mz_open_zip_archive adder 4096 (some two_files))
  where
    of_result : Result ZipArchive → ZipArchive
    of_result (done a) = a
    of_result bail = archive
    of_result fault = archive

mz_extract_recursive-opened_example :
    mz_extract_recursive files archive_file no_zlib
      (λ n. [])
      9
      9
      plainly
      none
      opened
      []
      (codes "/t")
      0
      []
    ≡ (extract_all files archive_file no_zlib
          (λ n. [])
          9
          9
          plainly
          none
          (matched [] opened.entries)
          (record { zip = 0; world = []; helper = path_helper (codes "/t") []; called = [] })
        >>= λ r. finished (r.0, (r.1.zip, (r.1.world, r.1.called))))
unfolding mz_open_zip_archive round_up_power2 smears hash_size compute_hash
mz_extract_recursive-opened_example =
    mz_extract_recursive-opened adder adder-AddsWell 4096 two_files (omega arith)
      (all_bytes-AllBytes two_files refl) opened refl files archive_file no_zlib (λ n. []) 9 9
      plainly none [] (codes "/t") 0 [] refl refl

-- one entry whose method is not known, and one that is never reached
abbrev broken : ZipArchive
broken = record {
  entries = entry (codes "a/e") 9 0 ∷ entry (codes "a/f") 9 1 ∷ [];
  hash = create 2;
}

mz_extract_recursive-unnoticed_example :
    (r : ℕ × (List (Bytes × Bytes) × List Bytes)) × (mz_extract_recursive files archive_file no_zlib
        (λ n. [])
        9
        9
        plainly
        none
        broken
        (codes "a")
        (codes "/t")
        0
        []
      ≡ finished (true, r))
unfolding dir_create_hierarchy mz_extract_zip_entry_to_file
mz_extract_recursive-unnoticed_example =
    mz_extract_recursive-unnoticed files archive_file no_zlib (λ n. []) 9 9 none broken (codes "a")
      (codes "/t") 0 [] refl refl (λ path w. (path, refl))
      (
        λ zip fd w. ((false, (zip, w)), refl),
        refl,
        λ w. refl,
        (λ zip fd w. ((false, (zip, w)), refl), refl, λ w. refl, tt),
      )
