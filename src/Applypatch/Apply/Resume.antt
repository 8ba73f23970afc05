-- ===== src/Applypatch/Apply/Resume.antt =====
-- The choice of the source in applypatch on files, where the system calls succeed.
use open_recovery.Base.{
  ℕ, zero, suc, ◌^◌, ◌<◌, ◌≡◌, ◌⊎◌, inl, inr, refl, sym, subst, ap, ◌∙◌, Bool, true, false, ◌&&◌,
  List, Option, none, some, Bytes, bytes_eq, bytes_eq→eq, bytes_eq_refl, length, get_elem?, arith,
}
use open_recovery.Applypatch.Sha1.{find_matching_patch}
use open_recovery.Applypatch.Sink.{file_sink}
use open_recovery.Applypatch.FreeCache.{cache_temp_source}
use open_recovery.Applypatch.World.{Disk, World, tick, Kernel, M, bind, ◌>>=◌, ◌>>◌, or_fail}
use open_recovery.Applypatch.Files.{
  Buffer, null, freed, live, FileContents, is_partition, load_file_contents, load_from_disk,
  as_read, as_masked,
}
use open_recovery.Applypatch.Apply.{
  masked_data, run_patch, Patch, Tools, Format, Choice, used, chosen, strs, format_of, load,
  nth_patch, patch_for, patch_of, choose_copy, choose, take_copy, take_source, load_source,
  unless_done, enough_space,
}
use open_recovery.Applypatch.Apply.Holds.{Holds}
use open_recovery.Applypatch.Apply.Safe.{Apart, IsSource, Recoverable}

-- The calls succeed, there is room for the target, and a write takes all that it is given.
pub record IsFair (k : Kernel) (t : Tools) (target : Bytes) (target_size : ℕ) : Type 0 where
  pub stat : (w : World) (name : Bytes) → k.stat w name ≡ true
  pub readable : (w : World) (name : Bytes) → k.readable w name ≡ true
  pub creatable : (w : World) (name : Bytes) → k.creatable w name ≡ true
  pub chmod : (w : World) (name : Bytes) → k.chmod w name ≡ true
  pub chown : (w : World) (name : Bytes) → k.chown w name ≡ true
  pub renames : (w : World) (name : Bytes) → k.renames w name ≡ true
  pub writes :
      (w : World) (name bytes : Bytes)
      → length bytes < 2 ^ 32
      → (file_sink (k.writes w name) bytes 0).0 ≡ length bytes
  pub room : (w : World) → enough_space k t true target target_size w ≡ true

-- a patch that makes the target of a file
pub record Makes (t : Tools) (target_sha1 : Bytes) (p : Patch) (m : Bytes) : Type 0 where
  pub format : Format
  pub out : Bytes
  pub blob : p.is_blob ≡ true
  pub known : format_of p.bytes ≡ some format
  pub result : run_patch t format p.bytes m ≡ some (out, true)
  pub hash : t.sha out ≡ target_sha1
  pub short : length out < 2 ^ 32

-- Each patch makes the target of the files that have its hash.
abbrev pub AllMake : Tools → List Patch → Bytes → Type 0
AllMake t patches target_sha1 =
    (m : Bytes) (i : ℕ)
    → find_matching_patch (t.sha m) (strs patches) ≡ some i
    → (p : Patch) × (get_elem? patches i ≡ some p) × Makes t target_sha1 p m

not_both : (ok : Bool) (a b : Bytes) → ok ≡ true → a ≡ b → (ok && bytes_eq a b) ≡ false → ⊥
not_both true a b h e f = cc (f, ap (bytes_eq a) (sym e), bytes_eq_refl a)
not_both false a b h e f = absurd (cc (h))

-- the function returns 0
abbrev pub Zero : ℕ → World → Type 0
Zero zero w = Unit
Zero (suc n) w = ⊥

module _ (k : Kernel) (t : Tools) (patches : List Patch) (source target target_sha1 : Bytes)
    (target_size : ℕ) (fair : IsFair k t target target_size) (all : AllMake t patches target_sha1)
    (ap' : Apart source target) where
  -- what is at a name and can be masked is loaded, else NULL
  record IsRead (name : Bytes) (d : Disk) (ok : Bool) (file : FileContents) (m : Bytes)
      : Type 0 where
    content : Bytes
    buffer : file.buffer ≡ live m
    done : ok ≡ true
    at : d name ≡ some content
    masked : masked_data content ≡ some m
    sha1 : file.sha1 ≡ t.sha m

  abbrev Missing : Bytes → Disk → Type 0
  Missing name d = (c m : Bytes) → d name ≡ some c → masked_data c ≡ some m → ⊥

  abbrev Read : Bytes → Disk → Bool → FileContents → Type 0
  Read name d ok file =
      ((file.buffer ≡ null) × (ok ≡ false) × Missing name d)
      ⊎ ((m : Bytes) × IsRead name d ok file m)

  load-Read :
      {B : Type 0} (R : B → World → Type 0) (name : Bytes) (file : FileContents) (w : World)
      (f : Bool × FileContents → M B)
      → is_partition name ≡ false
      → ((ok : Bool) (loaded : FileContents)
          → Read name w.disk ok loaded
          → Holds Zero R (f (ok, loaded) (tick w)))
      → Holds Zero R (bind (load k t name file w) f)
  unfolding load_file_contents load_from_disk
  load-Read R name file w f h g =
      rw (h, fair.stat w name, fair.readable w name) (by_content (w.disk name) refl)
    where
      by_mask :
          (c : Bytes)
          → w.disk name ≡ some c
          → (o : Option Bytes) → masked_data c ≡ o
          → Holds Zero R (f (as_masked k t.sha masked_data file c o) (tick w))
      by_mask c e none n = g false _ (inl (refl, refl, λ c' m' e' n'. cc))
      by_mask c e (some m) n = g true _ (
          inr (
            m,
            record { content = c; buffer = refl; done = refl; at = e; masked = n; sha1 = refl },
          ))

      by_content :
          (o : Option Bytes)
          → w.disk name ≡ o
          → Holds Zero R (f (as_read k t.sha masked_data file o true true) (tick w))
      by_content none e = g false _ (inl (refl, refl, λ c' m' e' n'. cc))
      by_content (some c) e = by_mask c e (masked_data c) refl

  -- the contents of the chosen file and the patch for it
  abbrev pub Picked : Choice → Type 0
  Picked c = (m : Bytes) × ((used c).buffer ≡ live m) × Makes t target_sha1 (chosen c) m

  no_source : (name : Bytes) (d : Disk) → Missing name d → IsSource t patches name d → ⊥
  no_source name d gone (c, m, i, at, masked, found) = gone c m at masked

  -- what has been read of a source has a patch
  patch_found :
      (name : Bytes) (d : Disk) (ok : Bool) (file : FileContents) (m : Bytes)
      → IsRead name d ok file m
      → IsSource t patches name d
      → (p : Patch) × (patch_for k t patches file ≡ some p)
  patch_found name d ok file m r (c, m', i, at, masked, found) =
      let same : m' ≡ m = cc (r.at, at, r.masked, masked) in
      let e : find_matching_patch file.sha1 (strs patches) ≡ some i =
        ap (λ (x : Bytes). find_matching_patch x (strs patches)) (r.sha1 ∙ ap t.sha (sym same))
        ∙ found in
      let (p, there, makes) = all m' i found in (p, ap (nth_patch k t patches) e ∙ there)

  picked :
      (name : Bytes) (d : Disk) (ok : Bool) (file : FileContents) (m : Bytes) (p : Patch)
      → IsRead name d ok file m
      → patch_for k t patches file ≡ some p
      → Makes t target_sha1 p m
  picked name d ok file m p r e = by_index (find_matching_patch file.sha1 (strs patches)) refl e
    where
      by_index :
          (o : Option ℕ)
          → find_matching_patch file.sha1 (strs patches) ≡ o
          → nth_patch k t patches o ≡ some p
          → Makes t target_sha1 p m
      by_index none n e' = absurd (ground arith)
      by_index (some i) n e' =
          let (q, there, makes) =
            all m i (ap (λ (x : Bytes). find_matching_patch x (strs patches)) (sym r.sha1) ∙ n) in
          let same : q ≡ p = cc (there, e') in subst (λ x. Makes t target_sha1 x m) same makes

  choose_copy-Picked :
      (file uninit : FileContents) (w : World)
      → IsSource t patches cache_temp_source w.disk
      → Holds Zero (λ c w'. Picked c) (choose_copy k t patches file uninit w)
  unfolding choose_copy bytes_eq
  choose_copy-Picked file uninit w s =
      load-Read (λ c w'. Picked c) cache_temp_source uninit w
        (λ r. or_fail r.0 >> take_copy k t file r.1 (patch_for k t patches r.1)) refl by_read
    where
      by_patch :
          (copy : FileContents) (m : Bytes) (ok : Bool)
          → IsRead cache_temp_source w.disk ok copy m
          → (o : Option Patch) → patch_for k t patches copy ≡ o
          → Holds Zero (λ c w'. Picked c) (take_copy k t file copy o (tick w))
      by_patch copy m ok r none e =
          let (p, e') = patch_found cache_temp_source w.disk ok copy m r s in absurd (cc (e, e'))
      by_patch copy m ok r (some p) e =
          (m, r.buffer, picked cache_temp_source w.disk ok copy m p r e)

      by_read :
          (ok : Bool) (copy : FileContents)
          → Read cache_temp_source w.disk ok copy
          → Holds Zero
              (λ c w'. Picked c)
              (bind
                (or_fail ok (tick w))
                (λ _. take_copy k t file copy (patch_for k t patches copy)))
      by_read ok copy (inl (n, f, gone)) = absurd (no_source cache_temp_source w.disk gone s)
      by_read true copy (inr (m, r)) = by_patch copy m true r (patch_for k t patches copy) refl
      by_read false copy (inr (m, r)) = absurd (cc (r.done))

  take_source-Picked :
      (uninit : FileContents) (w : World) (ok : Bool) (file : FileContents)
      → IsSource t patches source w.disk ⊎ IsSource t patches cache_temp_source w.disk
      → Read source w.disk ok file
      → (b : Buffer) → file.buffer ≡ b
      → Holds Zero
          (λ c w'. Picked c)
          (take_source k t patches uninit file (patch_of k t patches file b) w)
  take_source-Picked uninit w ok file s (inl (n, f, gone)) null e = elim s [
    | inl here ↦ absurd (no_source source w.disk gone here)
    | inr copy ↦ choose_copy-Picked file uninit w copy
  ]
  take_source-Picked uninit w ok file s (inl (n, f, gone)) freed e = absurd (cc (n, e))
  take_source-Picked uninit w ok file s (inl (n, f, gone)) (live b) e = absurd (cc (n, e))
  take_source-Picked uninit w ok file s (inr (m, r)) null e = absurd (cc (r.buffer, e))
  take_source-Picked uninit w ok file s (inr (m, r)) freed e = absurd (cc (r.buffer, e))
  take_source-Picked uninit w ok file s (inr (m, r)) (live b) e =
      by_patch (patch_for k t patches file) refl
    where
      by_patch :
          (o : Option Patch)
          → patch_for k t patches file ≡ o
          → Holds Zero (λ c w'. Picked c) (take_source k t patches uninit file o w)
      by_patch (some p) n = (m, r.buffer, picked source w.disk ok file m p r n)
      by_patch none n = elim s [
        | inl here ↦ let (p, e') = patch_found source w.disk ok file m r here in absurd (cc (n, e'))
        | inr copy ↦ choose_copy-Picked file uninit w copy
      ]

  pub choose-Picked :
      (uninit : FileContents) (w : World)
      → Recoverable t patches source target target_sha1 w.disk
      → Holds Zero (λ c w'. Picked c) (choose k t source target target_sha1 patches uninit w)
  unfolding choose
  choose-Picked uninit w s =
      load-Read (λ c w'. Picked c) target uninit w
        (λ r.
          unless_done k t (r.0 && bytes_eq r.1.sha1 target_sha1)
            (load_source k t (bytes_eq target source) source r r.1.buffer >>= (λ f. onward f)))
        ap'.target_file (λ ok file r. by_hash ok file r (ok && bytes_eq file.sha1 target_sha1) refl)
    where
      Rest : Disk → Type 0
      Rest d = IsSource t patches source d ⊎ IsSource t patches cache_temp_source d

      onward : Bool × FileContents → M Choice
      onward r = take_source k t patches uninit r.1 (patch_of k t patches r.1 r.1.buffer)

      by_source :
          (ok : Bool) (file : FileContents)
          → Rest w.disk
          → Read target w.disk ok file
          → (b : Buffer) → file.buffer ≡ b
          → (same : Bool) → bytes_eq target source ≡ same
          → Holds Zero
              (λ c w'. Picked c)
              (bind (load_source k t same source (ok, file) b (tick w)) (λ f. onward f))
      by_source ok file s r null e same e' =
          load-Read (λ c w'. Picked c) source file (tick w) onward ap'.source_file
            (λ ok' f r'. take_source-Picked uninit (tick (tick w)) ok' f s r' f.buffer refl)
      by_source ok file s (inl (n, x, gone)) freed e same e' = absurd (cc (n, e))
      by_source ok file s (inr (m, r)) freed e same e' = absurd (cc (r.buffer, e))
      by_source ok file s r (live b) e true e' =
          take_source-Picked uninit (tick w) ok file s
            (subst (λ (name : Bytes). Read name w.disk ok file) (bytes_eq→eq target source e') r)
            file.buffer refl
      by_source ok file s r (live b) e false e' =
          load-Read (λ c w'. Picked c) source (record file { buffer = freed }) (tick w) onward
            ap'.source_file
            (λ ok' f r'. take_source-Picked uninit (tick (tick w)) ok' f s r' f.buffer refl)

      -- the target was not there
      rest :
          (ok : Bool) (file : FileContents)
          → Read target w.disk ok file
          → (ok && bytes_eq file.sha1 target_sha1) ≡ false
          → Recoverable t patches source target target_sha1 w.disk
          → Rest w.disk
      rest ok file r e (inr s') = s'
      rest ok file (inl (n, x, gone)) e (inl (c, m, at, masked, same)) = absurd (gone c m at masked)
      rest ok file (inr (m, r)) e (inl (c, m', at, masked, same)) =
          let eq : m ≡ m' = cc (r.at, at, r.masked, masked) in
          let sum : file.sha1 ≡ target_sha1 = r.sha1 ∙ ap t.sha eq ∙ same in
          absurd (not_both ok file.sha1 target_sha1 r.done sum e)

      by_hash :
          (ok : Bool) (file : FileContents)
          → Read target w.disk ok file
          → (b : Bool) → (ok && bytes_eq file.sha1 target_sha1) ≡ b
          → Holds Zero
              (λ c w'. Picked c)
              (unless_done k t b
                (load_source k t (bytes_eq target source) source (ok, file) file.buffer
                  >>= (λ f. onward f))
                (tick w))
      by_hash ok file r true e = tt
      by_hash ok file r false e =
          by_source ok file (rest ok file r e s) r file.buffer refl (bytes_eq target source) refl
