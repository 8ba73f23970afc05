-- ===== src/Applypatch/FreeCache.antt =====
-- Making room on the cache partition (applypatch/freecache.c, and FreeSpaceForFile and CacheSizeCheck
-- of applypatch/applypatch.c). What the operating system answers is a parameter.
pub mod Open
pub mod Expendable
pub mod Deleted
mod Tests
use open_recovery.Base.{
  ℕ, zero, suc, ◌+◌, ◌-◌, ◌*◌, ◌%◌, ◌^◌, Bool, true, false, ◌&&◌, List, [], ◌∷◌, ◌++◌, Option, none,
  some, map, Bytes, codes, bytes_eq, take, ltb, leb, if◌then◌else◌,
}

-- A directory of /proc: its name, and what the links of its `fd` directory read, where it can be
-- opened; a link that cannot be read is `none`.
pub record Process : Type 0 where
  pub name : Bytes
  pub links : Option (List (Option Bytes))

-- opendir and readdir, stat with S_ISREG, /proc, unlink, and statfs with the size of a block and the
-- number of free blocks
pub record Os : Type 1 where
  pub World : Type 0
  pub entries : World → Bytes → Option (List Bytes)
  pub is_regular : World → Bytes → Bool
  pub processes : World → Option (List Process)
  pub unlink : World → Bytes → World
  pub statfs : World → Bytes → Option (ℕ × ℕ)

-- CACHE_TEMP_SOURCE
abbrev pub cache_temp_source : Bytes
cache_temp_source = codes "/cache/saved.file"

abbrev pub all_digits : Bytes → Bool
all_digits [] = true
all_digits (c ∷ cs) = (leb b'0' c && leb c b'9') && all_digits cs

abbrev pub on_cache : Bytes → Bool
on_cache link = bytes_eq (take 7 link) (codes "/cache/")

-- `files[j] = NULL` for the files that are the link
unfoldable pub strike : Bytes → List (Option Bytes) → List (Option Bytes)
strike link [] = []
strike link (none ∷ files) = none ∷ strike link files
strike link (some file ∷ files) =
    (if bytes_eq file link then none else some file) ∷ strike link files

unfoldable pub strike_links : List (Option Bytes) → List (Option Bytes) → List (Option Bytes)
unfolding strike
strike_links [] files = files
strike_links (none ∷ links) files = strike_links links files
strike_links (some link ∷ links) files =
    strike_links links (if on_cache link then strike link files else files)

unfoldable pub strike_all : List Process → List (Option Bytes) → List (Option Bytes)
unfolding strike_links
strike_all [] files = files
strike_all (p ∷ ps) files = strike_all ps (
    if all_digits p.name
    then (elim p.links [ none ↦ files | some links ↦ strike_links links files ])
    else files)

-- EliminateOpenFiles: -1 is `none`
unfoldable pub eliminate_open_files :
    Option (List Process) → List (Option Bytes) → Option (List (Option Bytes))
unfolding strike_all
eliminate_open_files none files = none
eliminate_open_files (some ps) files = some (strike_all ps files)

module _ (os : Os) where
  open os use {World, entries, is_regular, processes, unlink, statfs}

  -- the regular files of one directory, by their paths, without CACHE_TEMP_SOURCE
  unfoldable pub regular_files : World → Bytes → List Bytes → List Bytes
  regular_files w dir [] = []
  regular_files w dir (name ∷ names) =
      let rest = regular_files w dir names in
      let path = dir ++ codes "/" ++ name in
      if bytes_eq path cache_temp_source
      then rest
      else if is_regular w path
      then path ∷ rest
      else rest

  abbrev pub in_dir : World → Bytes → List Bytes
  in_dir w dir = elim (entries w dir) [ none ↦ [] | some names ↦ regular_files w dir names ]

  -- FindExpendableFiles: -1 is `none`
  unfoldable pub find_expendable_files : World → Option (List (Option Bytes))
  unfolding eliminate_open_files regular_files
  find_expendable_files w =
      eliminate_open_files (processes w)
        (map some (in_dir w (codes "/cache") ++ in_dir w (codes "/cache/recovery/otatest")))

  -- FreeSpaceForFile: -1 and the product are a `size_t`.
  unfoldable pub free_space_for_file : World → Bytes → ℕ
  free_space_for_file w filename = elim (statfs w filename) [
    | none ↦ 2 ^ 32 - 1
    | some (bsize, bfree) ↦ bsize * bfree % 2 ^ 32
  ]

  abbrev pub free_now : World → ℕ
  free_now w = free_space_for_file w (codes "/cache")

  -- The loop of MakeFreeSpaceOnCache, from a state with `free` bytes: the state that it leaves, what it
  -- takes to be free there, and what it has unlinked.
  unfoldable pub delete_files : ℕ → World → ℕ → List (Option Bytes) → World × ℕ × List Bytes
  unfolding free_space_for_file
  delete_files needed w free [] = (w, free, [])
  delete_files needed w free (none ∷ names) =
      let rest = delete_files needed w free names in if ltb free needed then rest else (w, free, [])
  delete_files needed w free (some name ∷ names) =
      let w' = unlink w name in
      let (end, left, deleted) = delete_files needed w' (free_now w') names in
      if ltb free needed then (end, left, name ∷ deleted) else (w, free, [])

  -- MakeFreeSpaceOnCache: whether it returns 0, the state, and what was unlinked.
  unfoldable pub make_free_space_on_cache : World → ℕ → Bool × World × List Bytes
  unfolding find_expendable_files delete_files
  make_free_space_on_cache w needed =
      if leb needed (free_now w) then (true, w, []) else elim (find_expendable_files w) [
        | none ↦ (false, w, [])
        | some [] ↦ (false, w, [])
        | some (name ∷ names) ↦
            let (end, free, deleted) = delete_files needed w (free_now w) (name ∷ names) in
            (leb needed free, end, deleted)
      ]

  -- CacheSizeCheck: whether it returns 0
  unfoldable pub cache_size_check : World → ℕ → Bool × World
  unfolding make_free_space_on_cache
  cache_size_check w bytes =
      let (made, end, deleted) = make_free_space_on_cache w bytes in (made, end)
