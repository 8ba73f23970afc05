-- ===== src/Minzip/Dirs.antt =====
-- dirCreateHierarchy (minzip/DirUtil.c), over a file system that is a parameter.
pub mod Walked
mod Tests
use open_recovery.Base.{
  ℕ, zero, suc, ◌+◌, ◌-◌, ◌<◌, Bool, true, false, ◌&&◌, List, [], ◌∷◌, ◌++◌, Option, none, some,
  Bytes, length, take, get_elem?, ltb, ◌==◌, if◌then◌else◌,
}
use open_recovery.Minzip.Contents.Taken.{Written}

-- What stat finds: a directory, something else, nothing (ENOENT), or it fails in another way.
pub data Found : Type 0 where
  directory other_file nothing unknown : Found

-- the calls of the system; a number stands for a time
pub record FileSystem : Type 1 where
  pub World : Type 0
  pub Fd : Type 0
  pub stat : Bytes → World → Found
  pub mkdir : Bytes → ℕ → World → Bool × World
  pub utime : Bytes → ℕ → World → Bool × World
  pub symlink : Bytes → Bytes → World → Bool × World
  pub creat : Bytes → ℕ → World → Option Fd × World
  pub write : Fd → Bytes → World → Written × World
  pub close : Fd → World → World

-- DirStatus
pub data DirStatus : Type 0 where
  missing dir illegal : DirStatus

abbrev pub slash : ℕ
slash = b'/'

-- The loop that looks for the last slash from byte `i` down: where it ends, and 0 where it reaches the
-- beginning.
abbrev pub last_slash : Bytes → ℕ → ℕ
last_slash path zero = 0
last_slash path (suc i) =
    let before = last_slash path i in
    elim (get_elem? path (suc i)) [ none ↦ before | some c ↦ if c == slash then suc i else before ]

-- The path whose components are made, with a slash at its end; none where there is no directory in it.
unfoldable pub directory_path : Bytes → Bool → Option Bytes
directory_path path false = some (path ++ (slash ∷ []))
directory_path path true =
    if last_slash path (length path - 1) == 0
    then none
    else some (take (last_slash path (length path - 1) + 1) path)

-- The parts of the path that end where a component ends; `part` is what is before, and whether its last
-- byte belongs to a component.
unfoldable pub levels : Bytes → Bool → Bytes → List Bytes
levels part in_name [] = []
levels part in_name (c ∷ rest) =
    let after_slash = levels (part ++ (c ∷ [])) false rest in
    let after_name = levels (part ++ (c ∷ [])) true rest in
    if c == slash then (if in_name then part ∷ after_slash else after_slash) else after_name

module _ (fs : FileSystem) where
  -- getPathDirStatus
  abbrev pub status_of : Found → DirStatus
  status_of directory = dir
  status_of nothing = missing
  status_of other_file = illegal
  status_of unknown = illegal

  unfoldable pub get_path_dir_status : Bytes → fs.World → DirStatus
  get_path_dir_status path w = status_of (fs.stat path w)

  abbrev pub set_time : Option ℕ → Bytes → fs.World → Bool × fs.World
  set_time none part w = (true, w)
  set_time (some time) part w = fs.utime part time w

  abbrev pub make_level : ℕ → Option ℕ → Bytes → fs.World → Bool × fs.World
  make_level mode timestamp part w =
      if (fs.mkdir part mode w).0
      then set_time timestamp part (fs.mkdir part mode w).1
      else (false, (fs.mkdir part mode w).1)

  -- the loop over the components
  unfoldable pub make_levels : ℕ → Option ℕ → List Bytes → fs.World → Bool × fs.World
  unfolding get_path_dir_status
  make_levels mode timestamp [] w = (true, w)
  make_levels mode timestamp (part ∷ parts) w = elim (get_path_dir_status part w) [
    | illegal ↦ (false, w)
    | dir ↦ make_levels mode timestamp parts w
    | missing ↦ elim (make_level mode timestamp part w).0 [
      | false ↦ (false, (make_level mode timestamp part w).1)
      | true ↦ make_levels mode timestamp parts (make_level mode timestamp part w).1
    ]
  ]

  abbrev pub make_path : ℕ → Option ℕ → Option Bytes → fs.World → Bool × fs.World
  make_path mode timestamp none w = (false, w)
  make_path mode timestamp (some cpath) w = elim (get_path_dir_status cpath w) [
    | dir ↦ (true, w)
    | illegal ↦ (false, w)
    | missing ↦ make_levels mode timestamp (levels [] false cpath) w
  ]

  -- dirCreateHierarchy: whether it returns 0
  unfoldable pub dir_create_hierarchy : Bytes → ℕ → Option ℕ → Bool → fs.World → Bool × fs.World
  unfolding directory_path levels make_levels
  dir_create_hierarchy [] mode timestamp strip_file_name w = (false, w)
  dir_create_hierarchy (c ∷ path) mode timestamp strip_file_name w =
      make_path mode timestamp (directory_path (c ∷ path) strip_file_name) w
