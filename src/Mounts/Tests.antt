-- ===== src/Mounts/Tests.antt =====
-- The theorems about mounted volumes at small tables.
use open_recovery.Base.{
  ◌≡◌, refl, ◌∷◌, Option, some, true, ◌++◌, Bytes, codes, replicate, ℤ, pos, arith,
}
use open_recovery.Mounts.{
  MountedVolume, MountsState, g_mounts_state, no_volume, strdups, Scanned, ok, scan_mounted_volumes,
  in_use, is_text, find_mounted_volume_by_device, find_mounted_volume_by_mount_point,
}
use open_recovery.Mounts.Scan.{
  IsValid, line_starts, volumes_of, scan_mounted_volumes-lines, scan_mounted_volumes-fault,
}
use open_recovery.Mounts.Find.{
  FoundAt, find_mounted_volume-FoundAt, Unmounted, unmount_mounted_volume-Unmounted,
}

-- a reader of lines that finds the same fields in each
abbrev fields : Bytes → Option (Bytes × Bytes × Bytes × Bytes)
fields line = some (codes "rootfs", codes "/", codes "rootfs", codes "rw")

abbrev two_lines : Bytes
two_lines = codes "a" ++ (b'\n' ∷ codes "b")

scan_mounted_volumes-lines_example :
    (s' : MountsState) × (scan_mounted_volumes fields g_mounts_state (some two_lines) ≡ ok s')
    × IsValid s'
    × (in_use s' ≡ volumes_of fields (line_starts true two_lines))
scan_mounted_volumes-lines_example =
    scan_mounted_volumes-lines fields g_mounts_state two_lines refl (omega arith)

abbrev many_lines : Bytes
many_lines = replicate 33 b'\n'

scan_mounted_volumes-fault_example :
    scan_mounted_volumes fields g_mounts_state (some many_lines) ≡ Scanned.fault
scan_mounted_volumes-fault_example =
    scan_mounted_volumes-fault fields g_mounts_state many_lines refl (omega arith)

abbrev root : MountedVolume
root = strdups (codes "rootfs", codes "/", codes "rootfs", codes "rw")

abbrev one_volume : MountsState
one_volume = record { volumes = some (root ∷ replicate 31 no_volume); volume_count = 1 }

find_mounted_volume-FoundAt_example :
    FoundAt
      (λ v. is_text (codes "/") v.device)
      (in_use one_volume)
      (find_mounted_volume_by_device one_volume (codes "/"))
    × FoundAt
        (λ v. is_text (codes "/") v.mount_point)
        (in_use one_volume)
        (find_mounted_volume_by_mount_point one_volume (codes "/"))
find_mounted_volume-FoundAt_example = find_mounted_volume-FoundAt one_volume (codes "/")

abbrev umounts : Option Bytes → ℤ
umounts mount_point = pos 0

unmount_mounted_volume-Unmounted_example : Unmounted umounts one_volume 0
unmount_mounted_volume-Unmounted_example =
    unmount_mounted_volume-Unmounted umounts one_volume 0 root (refl, omega arith) refl refl
