-- ===== src/Applypatch/Apply/Safe.antt =====
-- The disk while applypatch runs on files: predicates, and the parts of a round.
use mathlib.Core.List.{append-nil}
use open_recovery.Base.{
  get_elem?, ℕ, ◌≡◌, ◌≢◌, ◌⊎◌, inl, inr, refl, sym, subst, ap, ◌∙◌, true, false, List, [], ◌∷◌,
  ◌++◌, none, some, In, here, there, Bytes, codes, bytes_eq, length, length-append, take,
  take-length, arith,
}
use open_recovery.Retouch.Mask.{
  Masking, ended, error, matched, mismatched, not_applicable, retouch_mask_data,
}
use open_recovery.Retouch.Safe.{Ends, retouch_mask_data-Ends}
use open_recovery.Applypatch.Sha1.{find_matching_patch}
use open_recovery.Applypatch.Sink.{file_sink, file_sink-prefix}
use open_recovery.Applypatch.FreeCache.{cache_temp_source, on_cache}
use open_recovery.Applypatch.FreeCache.Expendable.{IsExpendable}
use open_recovery.Applypatch.FreeCache.Deleted.{unlink_all, make_free_space_on_cache-Made}
use open_recovery.Applypatch.World.{Disk, World, Kernel, unlink, os_of}
use open_recovery.Applypatch.Files.{is_partition, write_all}
use open_recovery.Applypatch.Apply.{
  as_matched, format_of, masked_data, run_patch, Format, Patch, Tools, outname_of, strs, make_room,
}
use open_recovery.Applypatch.Apply.Holds.{
  Holds, put_other, Always, IsStable, writing-Always, writing-content,
}

-- the patch is the first whose hash is that of the masked source
abbrev pub IsFor : Tools → List Patch → Patch → Bytes → Type 0
IsFor t patches p m =
    (i : ℕ) × (find_matching_patch (t.sha m) (strs patches) ≡ some i)
    × (get_elem? patches i ≡ some p)

-- masking keeps the length
pub masked_data-length : (c m : Bytes) → masked_data c ≡ some m → length m ≡ length c
unfolding masked_data
masked_data-length c m e =
    by_end (retouch_mask_data (some 0) c) (retouch_mask_data-Ends (some 0) c) e
  where
    by_end : (r : Masking) → Ends (length c) r → as_matched r ≡ some m → length m ≡ length c
    by_end (ended error offset object) h e = absurd (cc (e))
    by_end (ended matched offset object) h e = ap (λ (b : Bytes). length b) (cc (e)) ∙ h
    by_end (ended mismatched offset object) h e = absurd (cc (e))
    by_end (ended not_applicable offset object) h e = absurd (cc (e))
    by_end Masking.fault h e = absurd h
    by_end Masking.never h e = absurd h

-- What is taken of the files: retouch_mask_data changes nothing in a masked source that a patch of
-- the list is for, nor in a file with the hash of the target; and each of the patches is read on the
-- sources that it is for, in as many rounds as the loops have, without touching memory that is not
-- there.
pub record Sound (t : Tools) (patches : List Patch) (target_sha1 : Bytes) : Type 0 where
  pub mask_again :
      (c m : Bytes) (i : ℕ)
      → masked_data c ≡ some m
      → find_matching_patch (t.sha m) (strs patches) ≡ some i
      → masked_data m ≡ some m
  pub mask_target : (c : Bytes) → t.sha c ≡ target_sha1 → masked_data c ≡ some c
  pub decodes :
      (m : Bytes) (p : Patch) (f : Format)
      → IsFor t patches p m
      → format_of p.bytes ≡ some f
      → run_patch t f p.bytes m ≢ none

-- The source and the target are files, not on /cache, and no other file is at the name of the output.
pub record Apart (source target : Bytes) : Type 0 where
  pub source_file : is_partition source ≡ false
  pub target_file : is_partition target ≡ false
  pub source_place : on_cache source ≡ false
  pub target_place : on_cache target ≡ false
  pub source_output : source ≢ outname_of target
  pub copy_output : cache_temp_source ≢ outname_of target

pub ne_copy : (name : Bytes) → on_cache name ≡ false → name ≢ cache_temp_source
unfolding bytes_eq
ne_copy name h e = cc (h, ap on_cache e)

pub ne_output : (target : Bytes) → target ≢ outname_of target
ne_output target e =
    absurd (omega (arith, ap (λ (b : Bytes). length b) e, length-append target (codes ".patch")))

module _ (t : Tools) (patches : List Patch) where
  -- a file that a patch of the list is for
  abbrev pub IsSource : Bytes → Disk → Type 0
  IsSource name d =
      (c : Bytes) × (m : Bytes) × (i : ℕ) × (d name ≡ some c)
      × (masked_data c ≡ some m)
      × (find_matching_patch (t.sha m) (strs patches) ≡ some i)

  -- a file that is the target
  abbrev pub IsTarget : Bytes → Bytes → Disk → Type 0
  IsTarget target target_sha1 d =
      (c : Bytes) × (m : Bytes) × (d target ≡ some c)
      × (masked_data c ≡ some m)
      × (t.sha m ≡ target_sha1)

  -- applypatch can be run: the target is there, or the source, or its copy on /cache
  abbrev pub Recoverable : Bytes → Bytes → Bytes → Disk → Type 0
  Recoverable source target target_sha1 d =
      IsTarget target target_sha1 d ⊎ (IsSource source d ⊎ IsSource cache_temp_source d)

  pub IsSource-IsStable : (name other : Bytes) → name ≢ other → IsStable (IsSource name) other
  IsSource-IsStable name other h d v (c, m, i, at, masked, found) =
      (c, m, i, put_other d other name v h ∙ at, masked, found)

no_rest : (rest : Bytes) → length rest ≡ 0 → rest ≡ []
no_rest [] h = refl
no_rest (r ∷ rest) h = absurd (omega arith)

on_cache_of :
    (dir name : Bytes)
    → (dir ≡ codes "/cache") ⊎ (dir ≡ codes "/cache/recovery/otatest")
    → on_cache (dir ++ codes "/" ++ name) ≡ true
unfolding bytes_eq
on_cache_of dir name (inl e) = rw (e) refl
on_cache_of dir name (inr e) = rw (e) refl

module _ (k : Kernel) where
  -- what is not on /cache, and the copy, is not among the files that are deleted
  pub spared :
      (w : World) (name path : Bytes)
      → (on_cache name ≡ false) ⊎ (name ≡ cache_temp_source)
      → IsExpendable (os_of k) w path
      → name ≢ path
  spared w name path h x e = elim h [
    | inl out ↦ cc (out, ap on_cache (e ∙ x.spelled), on_cache_of x.dir x.name x.one_of)
    | inr copy ↦ x.other (sym e ∙ copy)
  ]

  module _ (R P : Disk → Type 0) (enough : (d : Disk) → P d → R d) where
    unlink_all-Always :
        (w : World) (deleted : List Bytes)
        → ((path : Bytes) → In path deleted → IsStable P path)
        → Always R w
        → P w.disk
        → Always R (unlink_all (os_of k) w deleted) × P (unlink_all (os_of k) w deleted).disk
    unlink_all-Always w [] stable a p = (a, p)
    unlink_all-Always w (path ∷ paths) stable a p =
        let p' = stable path (here refl) w.disk none p in
        unlink_all-Always (unlink w path) paths (λ q i. stable q (there i)) (enough _ p', a) p'

  -- Nothing that is kept is touched while room is made on /cache.
  pub make_room-Always :
      (t : Tools) (R P : Disk → Type 0) (E : ℕ → World → Type 0) (needed : ℕ) (w : World)
      → ((d : Disk) → P d → R d)
      → ((path : Bytes) → IsExpendable (os_of k) w path → IsStable P path)
      → Always R w
      → P w.disk
      → Holds E (λ b w'. Always R w' × P w'.disk) (make_room k t needed w)
  make_room-Always t R P E needed w enough stable a p =
      let (made, end, deleted, run, m) = make_free_space_on_cache-Made (os_of k) w needed in
      let kept : Always R end × P end.disk =
        subst (λ e. Always R e × P e.disk) (sym m.unlinked)
          (unlink_all-Always R P enough w deleted (λ path i. stable path (m.expendable path i)) a
            p) in
      rw (run) kept

  pub write_all-Always :
      (R P : Disk → Type 0) (name bytes : Bytes) (w : World)
      → ((d : Disk) → P d → R d)
      → IsStable P name
      → Always R w
      → P w.disk
      → Always R (write_all k name bytes w).1 × P (write_all k name bytes w).1.disk
  unfolding write_all
  write_all-Always R P name bytes w enough stable a p =
      writing-Always R P enough w name bytes _ stable a p

  -- a file that was empty and has taken as many bytes as there are has these
  pub write_all-content :
      (name bytes : Bytes) (w : World)
      → w.disk name ≡ some []
      → (write_all k name bytes w).0 ≡ length bytes
      → (write_all k name bytes w).1.disk name ≡ some bytes
  unfolding write_all
  write_all-content name bytes w e full =
      let (rest, same, count) = file_sink-prefix (k.writes w name) bytes 0 in
      let file = (file_sink (k.writes w name) bytes 0).1 in
      let all : bytes ≡ file =
        same
        ∙ ap (λ (r : Bytes). file ++ r)
            (no_rest rest
              (omega (arith, count, ap (λ (b : Bytes). length b) same, length-append file rest)))
        ∙ append-nil file in
      writing-content w name bytes (length file) e
      ∙ ap (λ (n : ℕ). some (take n bytes)) (ap (λ (b : Bytes). length b) (sym all))
      ∙ ap some (take-length bytes)
