-- ===== src/Applypatch/Apply/Partition.antt =====
-- applypatch (applypatch/applypatch.c) on a partition that has been written only in part.
use open_recovery.Base.{
  ℕ, suc, ◌≡◌, refl, true, false, List, [], some, Bytes, codes, bytes_eq, get_elem?, leb, ◌==◌,
  ==_iff, Bool-cases, inl, inr, arith,
}
use open_recovery.Applypatch.Sha1.{parse_sha1, find_matching_patch}
use open_recovery.Applypatch.FreeCache.{
  cache_temp_source, free_space_for_file, make_free_space_on_cache,
}
use open_recovery.Applypatch.World.{World, tick, Kernel, os_of, next, exit}
use open_recovery.Applypatch.Files.{
  null, FileContents, is_partition, load_partition_contents, load_from_disk, load_file_contents,
  save_file_contents,
}
use open_recovery.Applypatch.Apply.{
  masked_data, Patch, Tools, strs, choose, choose_copy, back_up, prepare, rounds, target_of,
  applypatch,
}
use open_recovery.Applypatch.Apply.Holds.{put_same}

abbrev pub unread : ℕ → Bytes → FileContents
unread size sha1 = record { buffer = null; size = size; sha1 = sha1 }

-- the device is read twice without a match, and the copy on /cache can be read and patched
pub record OnlyCopy (k : Kernel) (t : Tools) (patches : List Patch) (device : Bytes)
    (uninit : FileContents) (w : World) : Type 0 where
  pub once : ℕ
  pub size : ℕ
  pub first :
      load_partition_contents k t.sha masked_data w device uninit
      ≡ next (false, unread once uninit.sha1)
  pub second :
      load_partition_contents k t.sha masked_data (tick w) device (unread once uninit.sha1)
      ≡ next (false, unread (suc size) uninit.sha1)
  pub content : Bytes
  pub masked : Bytes
  pub copied : w.disk cache_temp_source ≡ some content
  pub stat : k.stat (tick (tick w)) cache_temp_source ≡ true
  pub readable : k.readable (tick (tick w)) cache_temp_source ≡ true
  pub mask : masked_data content ≡ some masked
  pub index : ℕ
  pub patch : Patch
  pub found : find_matching_patch (t.sha masked) (strs patches) ≡ some index
  pub at : get_elem? patches index ≡ some patch

zero_differs : (n : ℕ) → (0 == suc n) ≡ false
zero_differs n = elim (Bool-cases (0 == suc n)) [
  | inl e ↦ absurd (omega (arith, (==_iff 0 (suc n)).0 e))
  | inr e ↦ e
]

target_of_dash : (name : Bytes) → target_of name (codes "-") ≡ name
unfolding bytes_eq
target_of_dash name = refl

copy_file : is_partition cache_temp_source ≡ false
unfolding bytes_eq
copy_file = refl

-- Let the source, a partition that is also the target, match none of the hashes in its name in two
-- loads, each of which leaves the data NULL and the second a size above 0, and let CACHE_TEMP_SOURCE
-- load and have a patch for it. Where /cache has room for as many bytes as were read and
-- CACHE_TEMP_SOURCE opens for writing, applypatch returns 1 and CACHE_TEMP_SOURCE is empty.
pub applypatch-loses_copy :
    (k : Kernel) (t : Tools) (patches : List Patch) (device target_sha1_str target_sha1 : Bytes)
    (target_size : ℕ) (uninit : FileContents) (w : World)
    → parse_sha1 target_sha1_str ≡ some target_sha1
    → is_partition device ≡ true
    → (c : OnlyCopy k t patches device uninit w)
    → leb (suc c.size) (free_space_for_file (os_of k) (tick (tick (tick w))) (codes "/cache"))
      ≡ true
    → k.creatable (tick (tick (tick w))) cache_temp_source ≡ true
    → ((applypatch k t device (codes "-") target_sha1_str target_size patches uninit w).0 ≡ exit 1)
      × ((applypatch k t device (codes "-") target_sha1_str target_size patches uninit w).1.disk
            cache_temp_source
          ≡ some [])
unfolding applypatch choose choose_copy load_file_contents load_from_disk rounds prepare back_up
    make_free_space_on_cache save_file_contents
applypatch-loses_copy k t patches device str target_sha1 target_size uninit w parsed e c room
      opens =
    rw
      (
        parsed,
        target_of_dash device,
        e,
        c.first,
        e,
        c.second,
        copy_file,
        c.copied,
        c.stat,
        c.readable,
        c.mask,
        c.found,
        c.at,
        e,
        room,
        opens,
        zero_differs c.size,
      )
      (refl, put_same w.disk cache_temp_source (some []))
