-- ===== src/Mounts.antt =====
-- The table of mounted volumes (mounts.c). The file /proc/mounts, sscanf and umount are parameters.
pub mod Scan
pub mod Find
mod Tests
use open_recovery.Base.{
  ℕ, zero, suc, ◌+◌, ◌-◌, ◌<◌, ◌≡◌, Bool, true, false, List, [], ◌∷◌, Option, none, some, Bytes,
  bytes_eq, length, get_elem?, set, take, replicate, ltb, ◌==◌, if◌then◌else◌, ℤ, pos, negsuc,
}

-- MountedVolume: NULL is `none`
pub record MountedVolume : Type 0 where
  pub device : Option Bytes
  pub mount_point : Option Bytes
  pub filesystem : Option Bytes
  pub flags : Option Bytes

-- MountsState: `volumes_allocd` is the length of the array.
pub record MountsState : Type 0 where
  pub volumes : Option (List MountedVolume)
  pub volume_count : ℕ

-- g_mounts_state at the start
abbrev pub g_mounts_state : MountsState
g_mounts_state = record { volumes = none; volume_count = 0 }

abbrev pub no_volume : MountedVolume
no_volume = record { device = none; mount_point = none; filesystem = none; flags = none }

-- free_volume_internals on the first `n` entries
unfoldable pub free_volumes : ℕ → List MountedVolume → List MountedVolume
free_volumes zero volumes = volumes
free_volumes (suc n) [] = []
free_volumes (suc n) (v ∷ volumes) = no_volume ∷ free_volumes n volumes

-- sizeof(buf) - 1
abbrev pub mounts_size : ℕ
mounts_size = 2048 - 1

-- what the loop is to do next: `fault` is a write past the end of the array
pub data Lines : Type 0 where
  scanned : List MountedVolume → ℕ → Lines
  fault never : Lines

-- scan_mounted_volumes returns 0, or -1
pub data Scanned : Type 0 where
  ok failed : MountsState → Scanned
  fault never : Scanned

-- up to the end of the line and past it
unfoldable pub eat_line : Bytes → Bytes
eat_line [] = []
eat_line (c ∷ cs) = let rest = eat_line cs in if c == b'\n' then cs else rest

abbrev pub strdups : Bytes × Bytes × Bytes × Bytes → MountedVolume
strdups (device, mount_point, filesystem, flags) = record {
  device = some device;
  mount_point = some mount_point;
  filesystem = some filesystem;
  flags = some flags;
}

abbrev pub to_state : Lines → Scanned
to_state (scanned volumes count) = ok (record { volumes = some volumes; volume_count = count })
to_state Lines.fault = fault
to_state Lines.never = never

-- The array of scan_mounted_volumes before the file is read; memory is found.
unfoldable pub cleared : MountsState → List MountedVolume
unfolding free_volumes
cleared s = elim s.volumes [
  | none ↦ replicate 32 no_volume
  | some volumes ↦ free_volumes s.volume_count volumes
]

-- `sscanf` is the call with the format "%63s %63s %63s %127s": its four fields, where it matches four.
module _ (sscanf : Bytes → Option (Bytes × Bytes × Bytes × Bytes)) where
  -- The loop of scan_mounted_volumes over what is left of the buffer. A round eats a byte at least.
  unfoldable pub scan_lines : ℕ → Bytes → List MountedVolume → ℕ → Lines
  unfolding eat_line
  scan_lines fuel [] volumes count = scanned volumes count
  scan_lines zero (c ∷ buf) volumes count = never
  scan_lines (suc fuel) (c ∷ buf) volumes count = elim (sscanf (c ∷ buf)) [
    | none ↦ scan_lines fuel (eat_line (c ∷ buf)) volumes count
    | some fields ↦ elim (ltb count (length volumes)) [
      | true ↦ scan_lines fuel (eat_line (c ∷ buf)) (set volumes count (strdups fields)) (suc count)
      | false ↦ fault
    ]
  ]

  -- scan_mounted_volumes: `file` is what /proc/mounts holds, of which one call of read takes what buf has
  -- room for, or nothing where open or read fails.
  unfoldable pub scan_mounted_volumes : MountsState → Option Bytes → Scanned
  unfolding scan_lines cleared
  scan_mounted_volumes s none = failed (record { volumes = some (cleared s); volume_count = 0 })
  scan_mounted_volumes s (some file) =
      let buf = take mounts_size file in to_state (scan_lines (length buf) buf (cleared s) 0)

abbrev pub is_text : Bytes → Option Bytes → Bool
is_text name none = false
is_text name (some text) = bytes_eq text name

-- a loop over the entries from the first one on: the index of the one that is returned
unfoldable pub first_index : (MountedVolume → Bool) → List MountedVolume → Option ℕ
first_index f [] = none
first_index f (v ∷ volumes) =
    let rest = first_index f volumes in
    if f v then some 0 else elim rest [ none ↦ none | some i ↦ some (suc i) ]

abbrev pub in_use : MountsState → List MountedVolume
in_use s = elim s.volumes [ none ↦ [] | some volumes ↦ take s.volume_count volumes ]

unfoldable pub find_mounted_volume_by_device : MountsState → Bytes → Option ℕ
unfolding first_index
find_mounted_volume_by_device s device = first_index (λ v. is_text device v.device) (in_use s)

unfoldable pub find_mounted_volume_by_mount_point : MountsState → Bytes → Option ℕ
unfolding first_index
find_mounted_volume_by_mount_point s mount_point =
    first_index (λ v. is_text mount_point v.mount_point) (in_use s)

abbrev pub volume_at : MountsState → ℕ → Option MountedVolume
volume_at s i = elim s.volumes [ none ↦ none | some volumes ↦ get_elem? volumes i ]

abbrev pub put_volume : MountsState → ℕ → MountedVolume → MountsState
put_volume s i v = record s {
  volumes = elim s.volumes [ none ↦ none | some volumes ↦ some (set volumes i v) ];
}

-- unmount_mounted_volume on the entry with index `i`, where there is one; `umount` is the call's
-- answer for a mount point.
unfoldable pub unmount_mounted_volume :
    (Option Bytes → ℤ) → MountsState → ℕ → Option (ℤ × MountsState)
unmount_mounted_volume umount s i = elim (volume_at s i) [
  | none ↦ none
  | some v ↦ elim (umount v.mount_point) [
    | pos zero ↦ some (pos 0, put_volume s i no_volume)
    | ret ↦ some (ret, s)
  ]
]

-- the flags of mount that are used
pub data MountFlag : Type 0 where
  noatime nodev nodiratime rdonly remount : MountFlag

-- remount_read_only on an entry: the call of mount, whose answer is returned
unfoldable pub remount_read_only :
    (Option Bytes → Option Bytes → Option Bytes → List MountFlag → ℤ) → MountedVolume → ℤ
remount_read_only mount volume =
    mount volume.device volume.mount_point volume.filesystem
      (noatime ∷ nodev ∷ nodiratime ∷ rdonly ∷ remount ∷ [])
