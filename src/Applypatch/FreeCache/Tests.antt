-- ===== src/Applypatch/FreeCache/Tests.antt =====
-- The theorems about the cache partition on a small file system.
use open_recovery.Base.{
  ℕ, In, In-cases, inl, inr, Option, get_elem?, ◌-◌, ◌*◌, ◌≡◌, Bool, true, List, [], ◌∷◌, ◌++◌,
  none, some, Bytes, codes, bytes_eq, length, if◌then◌else◌,
}
use open_recovery.Applypatch.FreeCache.{Process, Os, eliminate_open_files, make_free_space_on_cache}
use open_recovery.Applypatch.FreeCache.Open.{Struck, eliminate_open_files-Struck}
use open_recovery.Applypatch.FreeCache.Deleted.{Made, make_free_space_on_cache-Made}

-- a process that has /cache/log open
abbrev process : Process
process = record { name = codes "17"; links = some (none ∷ some (codes "/cache/log") ∷ []) }

abbrev listed : List (Option Bytes)
listed = some (codes "/cache/log") ∷ some (codes "/cache/old") ∷ []

listed_below :
    (path : Bytes) → In (some path) listed → (rest : Bytes) × (path ≡ codes "/cache/" ++ rest)
listed_below path m = elim (In-cases m) [
  | inl e ↦ let one : path ≡ codes "/cache/log" = cc in (codes "log", one)
  | inr later ↦ elim (In-cases later) [
    | inl e ↦ let one : path ≡ codes "/cache/old" = cc in (codes "old", one)
    | inr none_left ↦ elim none_left [ ]
  ]
]

eliminate_open_files-Struck_example :
    (kept : List (Option Bytes)) × (eliminate_open_files (some (process ∷ [])) listed ≡ some kept)
    × ((i : ℕ) → Struck (process ∷ []) (get_elem? listed i) (get_elem? kept i))
eliminate_open_files-Struck_example = eliminate_open_files-Struck (process ∷ []) listed listed_below

abbrev without : Bytes → List Bytes → List Bytes
without name [] = []
without name (n ∷ names) =
    if bytes_eq (codes "/cache/" ++ n) name then names else n ∷ without name names

-- 100 blocks, each file of /cache takes ten
abbrev small : Os
small = record {
  World = List Bytes;
  entries = λ w dir. if bytes_eq dir (codes "/cache") then some w else none;
  is_regular = λ w path. true;
  processes = λ w. some (process ∷ []);
  unlink = λ w path. without path w;
  statfs = λ w path. some (1, 100 - 10 * length w);
}

abbrev files : List Bytes
files = codes "log" ∷ codes "saved.file" ∷ codes "old" ∷ []

make_free_space_on_cache-Made_example :
    (made : Bool) × (end : List Bytes) × (deleted : List Bytes) × (make_free_space_on_cache small
        files 80
      ≡ (made, end, deleted))
    × Made small 80 files made end deleted
make_free_space_on_cache-Made_example = make_free_space_on_cache-Made small files 80

abbrev broken : Os
broken = record {
  World = List Bytes;
  entries = λ w dir. none;
  is_regular = λ w path. true;
  processes = λ w. some [];
  unlink = λ w path. w;
  statfs = λ w path. none;
}
