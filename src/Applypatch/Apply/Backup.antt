-- ===== src/Applypatch/Apply/Backup.antt =====
-- The backup of the source to CACHE_TEMP_SOURCE, in a round of applypatch.
use open_recovery.Base.{
  ℕ, ◌≡◌, ◌⊎◌, inl, inr, refl, sym, subst, ◌∙◌, Bool, true, false, ◌&&◌, List, [], none, some,
  Bytes, length, ◌==◌, ==_iff, if◌then◌else◌, arith,
}
use open_recovery.Applypatch.Sha1.{find_matching_patch}
use open_recovery.Applypatch.FreeCache.{cache_temp_source}
use open_recovery.Applypatch.World.{
  Disk, put, World, change, tick, Kernel, next, ◌>>◌, return, or_fail,
}
use open_recovery.Applypatch.Files.{Buffer, live, FileContents, save_file_contents, fill, write_all}
use open_recovery.Applypatch.Apply.{
  masked_data, Patch, Tools, Choice, from_source, from_copy, strs, make_room, save_copy, back_up,
  discard, enough_space, spare_source, prepare,
}
use open_recovery.Applypatch.Apply.Holds.{
  Holds, bind-Holds, or_fail-Holds, put_same, Always, IsStable,
}
use open_recovery.Applypatch.Apply.Safe.{
  Sound, Apart, IsSource, IsSource-IsStable, ne_copy, spared, make_room-Always, write_all-Always,
  write_all-content,
}
use open_recovery.Applypatch.Apply.Choose.{Ready, End, Chosen}

split_and : (a b : Bool) → (a && b) ≡ true → a ≡ true
split_and true b e = refl
split_and false b e = e

module _ (k : Kernel) (t : Tools) (patches : List Patch) (source target target_sha1 : Bytes)
    (so : Sound t patches target_sha1) (ap' : Apart source target) where
  abbrev pub ReadyTo : Disk → Type 0
  ReadyTo = Ready k t patches source target target_sha1 so ap'

  abbrev pub EndOf : ℕ → World → Type 0
  EndOf = End k t patches source target target_sha1 so ap'

  abbrev pub Src : Bytes → Disk → Type 0
  Src name = IsSource t patches name

  from_Src : (d : Disk) → Src source d → ReadyTo d
  from_Src d s = inr (inl s)

  from_cache : (d : Disk) → Src cache_temp_source d → ReadyTo d
  from_cache d s = inr (inr s)

  -- saving to the copy, where the source is what is saved
  save-Holds :
      (file : FileContents) (m : Bytes) (i : ℕ) (w : World)
      → file.buffer ≡ live m
      → file.size ≡ length m
      → masked_data m ≡ some m
      → find_matching_patch (t.sha m) (strs patches) ≡ some i
      → Always ReadyTo w
      → Src source w.disk
      → Holds EndOf
          (λ ok w'.
            Always ReadyTo w' × Src source w'.disk × (ok ≡ true → Src cache_temp_source w'.disk))
          (save_file_contents k cache_temp_source file w)
  unfolding save_file_contents
  save-Holds file m i w b size masked found a s = by_create (k.creatable w cache_temp_source)
    where
      stable : IsStable (Src source) cache_temp_source
      stable =
          IsSource-IsStable t patches source cache_temp_source (ne_copy source ap'.source_place)

      w₀ : World
      w₀ = change w (put w.disk cache_temp_source (some []))

      s₀ : Src source w₀.disk
      s₀ = stable w.disk (some []) s

      full : (total : ℕ) (b : Bool) → ((total == file.size) && b) ≡ true → total ≡ length m
      full total b e = (==_iff total file.size).0 (split_and _ b e) ∙ size

      filled :
          Holds EndOf
            (λ ok w'.
              Always ReadyTo w' × Src source w'.disk × (ok ≡ true → Src cache_temp_source w'.disk))
            (fill k cache_temp_source file.size (live m) w₀)
      filled =
          let (a', s') =
            write_all-Always k ReadyTo (Src source) cache_temp_source m w₀ from_Src stable
              (from_Src w₀.disk s₀, a) s₀ in
          (
            a',
            s',
            λ e. (
              m,
              m,
              i,
              write_all-content k cache_temp_source m w₀
                  (put_same w.disk cache_temp_source (some []))
                  (full (write_all k cache_temp_source m w₀).0
                    (k.chmod (write_all k cache_temp_source m w₀).1 cache_temp_source
                      && k.chown (write_all k cache_temp_source m w₀).1 cache_temp_source)
                    e),
              masked,
              found,
            ),
          )

      by_create :
          (c : Bool)
          → Holds EndOf
              (λ ok w'.
                Always ReadyTo w'
                × Src source w'.disk
                × (ok ≡ true → Src cache_temp_source w'.disk))
              (if c
                then fill k cache_temp_source file.size file.buffer w₀
                else (next false, tick w))
      by_create true =
          subst
            (λ (x : Buffer).
              Holds EndOf
                (λ ok w'.
                  Always ReadyTo w'
                  × Src source w'.disk
                  × (ok ≡ true → Src cache_temp_source w'.disk))
                (fill k cache_temp_source file.size x w₀))
            (sym b) filled
      by_create false = (a, s, λ e. absurd (ground arith))

  back_up-Holds :
      (file : FileContents) (m : Bytes) (i : ℕ) (w : World)
      → file.buffer ≡ live m
      → file.size ≡ length m
      → masked_data m ≡ some m
      → find_matching_patch (t.sha m) (strs patches) ≡ some i
      → Always ReadyTo w
      → Src source w.disk
      → Holds EndOf (λ _ w'. Always ReadyTo w' × Src cache_temp_source w'.disk) (back_up k t file w)
  unfolding back_up
  back_up-Holds file m i w b size masked found a s =
      bind-Holds EndOf (λ room w'. Always ReadyTo w' × Src source w'.disk)
        (λ _ w'. Always ReadyTo w' × Src cache_temp_source w'.disk) (make_room k t file.size w)
        (λ room. or_fail room >> save_copy k t file)
        (make_room-Always k t ReadyTo (Src source) EndOf file.size w from_Src
          (λ path x.
            IsSource-IsStable t patches source path
              (spared k w source path (inl ap'.source_place) x))
          a s)
        (λ room w₁ (a₁, s₁).
          or_fail-Holds EndOf (λ _ w'. Always ReadyTo w' × Src cache_temp_source w'.disk) room w₁
            (save_copy k t file) a₁
            (λ _.
              bind-Holds EndOf
                (λ ok w'.
                  Always ReadyTo w'
                  × Src source w'.disk
                  × (ok ≡ true → Src cache_temp_source w'.disk))
                (λ _ w'. Always ReadyTo w' × Src cache_temp_source w'.disk)
                (save_file_contents k cache_temp_source file w₁) (λ ok. or_fail ok)
                (save-Holds file m i w₁ b size masked found a₁ s₁) (λ ok w₂ q. by_saved ok w₂ q)))
    where
      by_saved :
          (ok : Bool) (w₂ : World)
          → Always ReadyTo w₂ × Src source w₂.disk × (ok ≡ true → Src cache_temp_source w₂.disk)
          → Holds EndOf (λ _ w'. Always ReadyTo w' × Src cache_temp_source w'.disk) (or_fail ok w₂)
      by_saved true w₂ (a₂, s₂, c) = (a₂, c refl)
      by_saved false w₂ (a₂, s₂, c) = a₂

  -- what the following steps go by: the source as it was chosen, where there may be another round, and
  -- otherwise the source or its copy
  abbrev pub Kept : Disk → Type 0
  Kept d = Src source d ⊎ Src cache_temp_source d

  abbrev pub ChosenIn : Choice → Disk → Type 0
  ChosenIn = Chosen k t patches source target target_sha1 so ap'

  abbrev pub Left : Bool → Choice → Disk → Type 0
  Left true c d = ChosenIn c d
  Left false c d = Kept d

  spare_source-Holds :
      (enough : Bool) (c : Choice) (w : World)
      → Always ReadyTo w
      → ChosenIn c w.disk
      → Holds EndOf
          (λ made w'. Always ReadyTo w' × Left enough c w'.disk)
          (spare_source k t enough source c w)
  spare_source-Holds true c w a h = (a, h)
  spare_source-Holds false (from_copy file copy p) w a (m, live_copy, fit, h) = (a, inr h)
  spare_source-Holds false (from_source file p) w a (m, c, i, b, size, at, masked, found, fit) =
      rw (ap'.source_file) (
        bind-Holds EndOf (λ _ w'. Always ReadyTo w' × Src cache_temp_source w'.disk)
          (λ made w'. Always ReadyTo w' × Kept w'.disk) (back_up k t file w)
          (λ _. discard source >> return true)
          (back_up-Holds file m i w b size (so.mask_again c m i masked found) found a
            (c, m, i, at, masked, found))
          (λ _ w₁ (a₁, s₁).
            let s₂ =
              IsSource-IsStable t patches cache_temp_source source
                (λ e. ne_copy source ap'.source_place (sym e)) w₁.disk none s₁ in
            ((from_cache (put w₁.disk source none) s₂, a₁), inr s₂)))

  -- the first part of a round
  pub prepare-Holds :
      (retry : Bool) (target_size : ℕ) (c : Choice) (w : World)
      → Always ReadyTo w
      → ChosenIn c w.disk
      → Holds EndOf
          (λ r w'. Always ReadyTo w' × Left r.1 c w'.disk)
          (prepare k t retry source target target_size c w)
  unfolding prepare
  prepare-Holds retry target_size c w a h =
      let enough = enough_space k t retry target target_size w in
      rw (ap'.target_file) (
        bind-Holds EndOf (λ made w'. Always ReadyTo w' × Left enough c w'.disk)
          (λ r w'. Always ReadyTo w' × Left r.1 c w'.disk)
          (spare_source k t enough source c (tick w)) (λ made. return (made, enough))
          (spare_source-Holds enough c (tick w) a h) (λ made w₁ q. q))
