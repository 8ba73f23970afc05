-- ===== src/Minzip/Dirs/Tests.antt =====
-- The theorems about dirCreateHierarchy on files that are directories only, and a run of it.
use open_recovery.Base.{
  ℕ, zero, suc, ◌≡◌, ◌≢◌, ◌⊎◌, inl, inr, refl, Bool, true, false, List, [], ◌∷◌, none, some, Bytes,
  codes, take, get_elem?, bytes_eq, bytes_eq_refl, Bool-cases, if◌then◌else◌, arith,
}
use open_recovery.Minzip.Contents.Taken.{failed}
use open_recovery.Minzip.Dirs.{
  Found, directory, nothing, FileSystem, slash, levels, directory_path, dir_create_hierarchy,
}
use open_recovery.Minzip.Dirs.Walked.{Makes, dir_create_hierarchy-made, dir_create_hierarchy-root}

abbrev has : List Bytes → Bytes → Bool
has [] path = false
has (p ∷ w) path = let rest = has w path in if bytes_eq p path then true else rest

abbrev found : Bool → Found
found true = directory
found false = nothing

abbrev directories : FileSystem
directories = record {
  World = List Bytes;
  Fd = Unit;
  stat = λ path w. found (has w path);
  mkdir = λ path mode w. (true, path ∷ w);
  utime = λ path time w. (true, w);
  symlink = λ target path w. (false, w);
  creat = λ path mode w. (none, w);
  write = λ fd bytes w. (failed, w);
  close = λ fd w. w;
}

directories-Makes : Makes directories
directories-Makes = record {
  made = λ part mode w e. rw (bytes_eq_refl part) refl;
  keeps = λ path part mode w h. kept path part w h;
  touched = λ path part time w h. h;
}
  where
    kept :
        (path part : Bytes) (w : List Bytes)
        → found (has w path) ≡ directory
        → found (has (part ∷ w) path) ≡ directory
    kept path part w h = elim (Bool-cases (bytes_eq part path)) [
      | inl same ↦ rw (same) refl
      | inr other ↦ rw (other) h
    ]

levels_run : levels [] false (codes "/a//bc/") ≡ (codes "/a" ∷ codes "/a//bc" ∷ [])
unfolding levels
levels_run = refl

create_run :
    dir_create_hierarchy directories (codes "/a/b/c") 0 none true (codes "/a" ∷ [])
    ≡ (true, codes "/a/b" ∷ codes "/a" ∷ [])
unfolding dir_create_hierarchy bytes_eq
create_run = refl

dir_create_hierarchy-made_example :
    (cpath : Bytes) × (directory_path (codes "/a/b/c") true ≡ some cpath)
    × ((directories.stat cpath (codes "/a" ∷ []) ≡ directory)
        ⊎ ((i c : ℕ)
            → get_elem? cpath i ≡ some c
            → c ≢ slash
            → get_elem? cpath (suc i) ≡ some slash
            → directories.stat
                (take (suc i) cpath)
                (dir_create_hierarchy directories (codes "/a/b/c") 0 none true (codes "/a" ∷ [])).1
              ≡ directory))
unfolding dir_create_hierarchy bytes_eq
dir_create_hierarchy-made_example =
    dir_create_hierarchy-made directories directories-Makes (codes "/a/b/c") 0 none true
      (codes "/a" ∷ []) refl

abbrev name : Bytes
name = b'f' ∷ []

no_slash : (i c : ℕ) → get_elem? name i ≡ some c → c ≢ slash
no_slash zero c h = λ e. let one : b'f' ≡ c = cc (h) in omega (arith, one, e)
no_slash (suc i) c h = absurd (ground arith)

dir_create_hierarchy-root_example :
    dir_create_hierarchy directories (slash ∷ name) 0 none true ((slash ∷ []) ∷ [])
    ≡ (false, (slash ∷ []) ∷ [])
dir_create_hierarchy-root_example =
    dir_create_hierarchy-root directories name 0 none ((slash ∷ []) ∷ []) no_slash
