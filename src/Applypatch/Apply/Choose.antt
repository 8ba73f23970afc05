-- ===== src/Applypatch/Apply/Choose.antt =====
-- The loading of the files of applypatch, and the choice of the source.
use open_recovery.Base.{
  get_elem?, ℕ, zero, suc, ◌≡◌, ◌≢◌, ◌⊎◌, inl, inr, refl, sym, subst, ap, ◌∙◌, Bool, true, false,
  ◌&&◌, List, Option, none, some, Bytes, bytes_eq, bytes_eq→eq, length, arith,
}
use open_recovery.Applypatch.Sha1.{find_matching_patch}
use open_recovery.Applypatch.FreeCache.{cache_temp_source}
use open_recovery.Applypatch.World.{Disk, World, tick, Kernel, M, bind, ◌>>=◌, ◌>>◌, or_fail}
use open_recovery.Applypatch.Files.{
  Buffer, null, freed, live, FileContents, is_partition, load_file_contents, load_from_disk,
  as_masked, as_read,
}
use open_recovery.Applypatch.Apply.{
  masked_data, Patch, Tools, Choice, from_source, from_copy, strs, load, nth_patch, patch_for,
  patch_of, choose_copy, choose, take_copy, take_source, load_source, unless_done,
}
use open_recovery.Applypatch.Apply.Holds.{Holds, Always}
use open_recovery.Applypatch.Apply.Safe.{
  masked_data-length, Sound, IsFor, Apart, IsSource, IsTarget, Recoverable,
}

module _ (k : Kernel) (t : Tools) where
  -- what has been loaded is what is at the name, masked
  pub record IsLoaded (name : Bytes) (d : Disk) (file : FileContents) (m : Bytes) : Type 0 where
    pub content : Bytes
    pub buffer : file.buffer ≡ live m
    pub at : d name ≡ some content
    pub masked : masked_data content ≡ some m
    pub sha1 : file.sha1 ≡ t.sha m
    pub size : file.size ≡ length content

  abbrev pub Loaded : Bytes → Disk → Bool → FileContents → Type 0
  Loaded name d ok file =
      ((file.buffer ≡ null) × (ok ≡ false)) ⊎ ((m : Bytes) × IsLoaded name d file m)

  load_from_disk-Loaded :
      (w : World) (name : Bytes) (file : FileContents)
      → Loaded name w.disk
          (load_from_disk k t.sha masked_data w name file).0
          (load_from_disk k t.sha masked_data w name file).1
  unfolding load_from_disk
  load_from_disk-Loaded w name file = by_read (w.disk name) refl (k.stat w name) (k.readable w name)
    where
      by_mask :
          (c : Bytes) (o : Option Bytes)
          → w.disk name ≡ some c
          → masked_data c ≡ o
          → Loaded name w.disk
              (as_masked k t.sha masked_data file c o).0
              (as_masked k t.sha masked_data file c o).1
      by_mask c none e m = inl (refl, refl)
      by_mask c (some b) e m =
          inr
            (b, record { content = c; buffer = refl; at = e; masked = m; sha1 = refl; size = refl })

      by_read :
          (o : Option Bytes)
          → w.disk name ≡ o
          → (stat_ok read_ok : Bool)
          → Loaded name w.disk
              (as_read k t.sha masked_data file o stat_ok read_ok).0
              (as_read k t.sha masked_data file o stat_ok read_ok).1
      by_read none e stat_ok read_ok = inl (refl, refl)
      by_read (some c) e false read_ok = inl (refl, refl)
      by_read (some c) e true false = inl (refl, refl)
      by_read (some c) e true true = by_mask c (masked_data c) e refl

  -- loading a file that is no partition
  load-Loaded :
      {B : Type 0} (E : ℕ → World → Type 0) (R : B → World → Type 0) (name : Bytes)
      (file : FileContents) (w : World) (f : Bool × FileContents → M B)
      → is_partition name ≡ false
      → ((ok : Bool) (loaded : FileContents)
          → Loaded name w.disk ok loaded
          → Holds E R (f (ok, loaded) (tick w)))
      → Holds E R (bind (load k t name file w) f)
  unfolding load_file_contents
  load-Loaded E R name file w f h g = rw (h) (g _ _ (load_from_disk-Loaded w name file))

null_freed : null ≢ freed
null_freed e = cc

live_freed : {b : Bytes} → live b ≢ freed
live_freed e = cc

both : (a b : Bool) → (a && b) ≡ true → b ≡ true
both true b e = e
both false b e = absurd (ground arith)

not_null : {b : Bytes} → null ≢ live b
not_null e = cc

module _ (k : Kernel) (t : Tools) (patches : List Patch) (source target target_sha1 : Bytes)
    (so : Sound t patches target_sha1) (ap' : Apart source target) where
  abbrev pub Ready : Disk → Type 0
  Ready = Recoverable t patches source target target_sha1

  -- what holds at a return: the disk could be recovered at any time, and after a 0 the target is there
  abbrev pub End : ℕ → World → Type 0
  End zero w = Always Ready w × IsTarget t patches target target_sha1 w.disk
  End (suc n) w = Always Ready w

  -- the source that is used is on the disk as it was loaded
  abbrev pub Chosen : Choice → Disk → Type 0
  Chosen (from_source file p) d =
      (m : Bytes) × (c : Bytes) × (i : ℕ) × (file.buffer ≡ live m)
      × (file.size ≡ length m)
      × (d source ≡ some c)
      × (masked_data c ≡ some m)
      × (find_matching_patch (t.sha m) (strs patches) ≡ some i)
      × IsFor t patches p m
  Chosen (from_copy file copy p) d =
      (m : Bytes) × (copy.buffer ≡ live m)
      × IsFor t patches p m
      × IsSource t patches cache_temp_source d

  found_index :
      (o : Option ℕ) (p : Patch)
      → nth_patch k t patches o ≡ some p
      → (i : ℕ) × (o ≡ some i) × (get_elem? patches i ≡ some p)
  found_index none p e = absurd (ground arith)
  found_index (some i) p e = (i, refl, e)

  by_loaded :
      {name : Bytes} {d : Disk} {file : FileContents} {m : Bytes} {i : ℕ}
      → IsLoaded k t name d file m
      → find_matching_patch file.sha1 (strs patches) ≡ some i
      → find_matching_patch (t.sha m) (strs patches) ≡ some i
  by_loaded l found = ap (λ (x : Bytes). find_matching_patch x (strs patches)) (sym l.sha1) ∙ found

  abbrev Chose : Choice → World → Type 0
  Chose c w = Always Ready w × Chosen c w.disk

  choose_copy-Chose :
      (file uninit : FileContents) (w : World)
      → Always Ready w
      → Holds End Chose (choose_copy k t patches file uninit w)
  unfolding choose_copy bytes_eq
  choose_copy-Chose file uninit w a =
      load-Loaded k t End Chose cache_temp_source uninit w
        (λ r. or_fail r.0 >> take_copy k t file r.1 (patch_for k t patches r.1)) refl
        (λ ok copy l. by_load ok copy l)
    where
      by_patch :
          (copy : FileContents) (m : Bytes)
          → IsLoaded k t cache_temp_source w.disk copy m
          → (o : Option Patch) → patch_for k t patches copy ≡ o
          → Holds End Chose (take_copy k t file copy o (tick w))
      by_patch copy m l none e = a
      by_patch copy m l (some p) e =
          let (i, found, at_i) = found_index (find_matching_patch copy.sha1 (strs patches)) p e in
          (
            a,
            (
              m,
              l.buffer,
              (i, by_loaded l found, at_i),
              (l.content, m, i, l.at, l.masked, by_loaded l found),
            ),
          )

      by_load :
          (ok : Bool) (copy : FileContents)
          → Loaded k t cache_temp_source w.disk ok copy
          → Holds End Chose (
              bind
                (or_fail ok (tick w))
                (λ _. take_copy k t file copy (patch_for k t patches copy)))
      by_load true copy (inl l) = absurd (ground arith)
      by_load false copy l = a
      by_load true copy (inr (m, l)) = by_patch copy m l (patch_for k t patches copy) refl

  take_source-Chose :
      (uninit : FileContents) (w : World) (ok : Bool) (file : FileContents)
      → Always Ready w
      → Loaded k t source w.disk ok file
      → (b : Buffer) → file.buffer ≡ b
      → Holds End Chose (take_source k t patches uninit file (patch_of k t patches file b) w)
  take_source-Chose uninit w ok file a l null e = choose_copy-Chose file uninit w a
  take_source-Chose uninit w ok file a l freed e = choose_copy-Chose file uninit w a
  take_source-Chose uninit w ok file a (inl l) (live b) e = absurd (not_null (sym l.0 ∙ e))
  take_source-Chose uninit w ok file a (inr (m, l)) (live b) e =
      by_patch (patch_for k t patches file) refl
    where
      by_patch :
          (o : Option Patch)
          → patch_for k t patches file ≡ o
          → Holds End Chose (take_source k t patches uninit file o w)
      by_patch none n = choose_copy-Chose file uninit w a
      by_patch (some p) n =
          let (i, found, at_i) = found_index (find_matching_patch file.sha1 (strs patches)) p n in
          (
            a,
            (
              m,
              l.content,
              i,
              l.buffer,
              l.size ∙ sym (masked_data-length l.content m l.masked),
              l.at,
              l.masked,
              by_loaded l found,
              (i, by_loaded l found, at_i),
            ),
          )

  pub choose-Chose :
      (uninit : FileContents) (w : World)
      → Always Ready w
      → Holds End Chose (choose k t source target target_sha1 patches uninit w)
  unfolding choose
  choose-Chose uninit w a =
      load-Loaded k t End Chose target uninit w
        (λ r.
          unless_done k t (r.0 && bytes_eq r.1.sha1 target_sha1)
            (load_source k t (bytes_eq target source) source r r.1.buffer >>= (λ f. again f)))
        ap'.target_file (λ ok file l. by_hash ok file l (ok && bytes_eq file.sha1 target_sha1) refl)
    where
      again : Bool × FileContents → M Choice
      again r = take_source k t patches uninit r.1 (patch_of k t patches r.1 r.1.buffer)

      by_source :
          (ok : Bool) (file : FileContents)
          → Loaded k t target w.disk ok file
          → (b : Buffer) → file.buffer ≡ b
          → (same : Bool) → bytes_eq target source ≡ same
          → Holds End Chose
              (bind (load_source k t same source (ok, file) b (tick w)) (λ f. again f))
      by_source ok file l null e same s =
          load-Loaded k t End Chose source file (tick w) again ap'.source_file
            (λ ok' f l'. take_source-Chose uninit (tick (tick w)) ok' f a l' f.buffer refl)
      by_source ok file l freed e same s = elim l [
        | inl n ↦ absurd (null_freed (sym n.0 ∙ e))
        | inr (m, n) ↦ absurd (live_freed (sym n.buffer ∙ e))
      ]
      by_source ok file l (live b) e true s =
          take_source-Chose uninit (tick w) ok file a
            (subst (λ (name : Bytes). Loaded k t name w.disk ok file) (bytes_eq→eq target source s)
              l)
            file.buffer refl
      by_source ok file l (live b) e false s =
          load-Loaded k t End Chose source (record file { buffer = freed }) (tick w) again
            ap'.source_file
            (λ ok' f l'. take_source-Chose uninit (tick (tick w)) ok' f a l' f.buffer refl)

      by_hash :
          (ok : Bool) (file : FileContents)
          → Loaded k t target w.disk ok file
          → (b : Bool) → (ok && bytes_eq file.sha1 target_sha1) ≡ b
          → Holds End Chose (
              unless_done k t b
                (load_source k t (bytes_eq target source) source (ok, file) file.buffer
                  >>= (λ f. again f))
                (tick w))
      by_hash ok file l false e = by_source ok file l file.buffer refl (bytes_eq target source) refl
      by_hash ok file (inl l) true e = absurd (ground (arith, l.1))
      by_hash ok file (inr (m, l)) true e = (
        a,
        (
          l.content,
          m,
          l.at,
          l.masked,
          sym l.sha1
              ∙ bytes_eq→eq file.sha1 target_sha1 (both ok (bytes_eq file.sha1 target_sha1) e),
        ),
      )
