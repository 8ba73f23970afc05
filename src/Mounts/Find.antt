-- ===== src/Mounts/Find.antt =====
-- The searches of mounts.c, and unmount_mounted_volume.
use open_recovery.Base.{
  ℕ, zero, suc, ◌≤◌, ◌<◌, ◌≡◌, ◌≢◌, ◌⊎◌, inl, inr, refl, ap, sym, ◌∙◌, Bool, true, false, List, [],
  ◌∷◌, Option, none, some, Bytes, length, length-set, get_elem?, lt-get_elem?, get_elem?-set_self,
  get_elem?-set_ne, set, take, if◌then◌else◌, ℤ, pos, arith,
}
use open_recovery.Mounts.{
  MountedVolume, MountsState, no_volume, is_text, first_index, in_use,
  find_mounted_volume_by_device, find_mounted_volume_by_mount_point, volume_at,
  unmount_mounted_volume,
}
use open_recovery.Mounts.Scan.{IsValid}

-- index `i` is the first of an entry that passes the test; `none`: no entry passes it
abbrev pub FoundAt : (MountedVolume → Bool) → List MountedVolume → Option ℕ → Type 0
FoundAt f volumes (some i) =
    ((v : MountedVolume) × (get_elem? volumes i ≡ some v) × (f v ≡ true))
    × ((j : ℕ) (w : MountedVolume) → j < i → get_elem? volumes j ≡ some w → f w ≡ false)
FoundAt f volumes none = (j : ℕ) (w : MountedVolume) → get_elem? volumes j ≡ some w → f w ≡ false

at_cons :
    (v : MountedVolume) (volumes : List MountedVolume) (j : ℕ) {w : MountedVolume}
    → get_elem? (v ∷ volumes) j ≡ some w
    → (v ≡ w) ⊎ ((k : ℕ) × (j ≡ suc k) × (get_elem? volumes k ≡ some w))
at_cons v volumes zero e = inl (cc)
at_cons v volumes (suc k) e = inr (k, refl, e)

first_index-FoundAt :
    (f : MountedVolume → Bool) (volumes : List MountedVolume)
    → FoundAt f volumes (first_index f volumes)
unfolding first_index
first_index-FoundAt f [] = λ j w e. absurd (ground arith)
first_index-FoundAt f (v ∷ volumes) =
    by_test (f v) refl (first_index f volumes) (first_index-FoundAt f volumes)
  where
    by_test :
        (b : Bool)
        → f v ≡ b
        → (rest : Option ℕ) → FoundAt f volumes rest
        → FoundAt f
            (v ∷ volumes)
            (if b then some 0 else elim rest [ none ↦ none | some i ↦ some (suc i) ])
    by_test true t rest r = ((v, refl, t), λ j w h e. absurd (omega arith))
    by_test false t none r = λ j w e. elim (at_cons v volumes j e) [
      | inl same ↦ ap f (sym same) ∙ t
      | inr (k, p, q) ↦ r k w q
    ]
    by_test false t (some i) r = (
      r.0,
      λ j w h e. elim (at_cons v volumes j e) [
        | inl same ↦ ap f (sym same) ∙ t
        | inr (k, p, q) ↦ r.1 k w (omega arith) q
      ],
    )

-- Each search returns the first of the entries in use with the text in question, NULL fields passed
-- over, and NULL only where no entry has it.
pub find_mounted_volume-FoundAt :
    (s : MountsState) (name : Bytes)
    → FoundAt (λ v. is_text name v.device) (in_use s) (find_mounted_volume_by_device s name)
      × FoundAt
          (λ v. is_text name v.mount_point)
          (in_use s)
          (find_mounted_volume_by_mount_point s name)
unfolding find_mounted_volume_by_device find_mounted_volume_by_mount_point
find_mounted_volume-FoundAt s name =
    (first_index-FoundAt _ (in_use s), first_index-FoundAt _ (in_use s))

of_take :
    (n : ℕ) (volumes : List MountedVolume) (j : ℕ) {w : MountedVolume}
    → get_elem? (take n volumes) j ≡ some w
    → get_elem? volumes j ≡ some w
of_take zero volumes j e = absurd (ground arith)
of_take (suc n) [] j e = e
of_take (suc n) (v ∷ volumes) zero e = e
of_take (suc n) (v ∷ volumes) (suc j) e = of_take n volumes j e

same_index : (k i : ℕ) → some k ≡ some i → k ≡ i
same_index k i e = cc

-- no test that a zeroed entry fails finds entry `i` once it is zeroed
not_zeroed :
    (f : MountedVolume → Bool) (volumes : List MountedVolume) (n i : ℕ) (found : Option ℕ)
    → f no_volume ≡ false
    → FoundAt f (take n (set volumes i no_volume)) found
    → found ≢ some i
not_zeroed f volumes n i none z r e = absurd (ground arith)
not_zeroed f volumes n i (some k) z r e =
    let ((v, at, found), before) = r in
    let here : get_elem? (set volumes i no_volume) i ≡ some v =
      ap (λ j. get_elem? (set volumes i no_volume) j) (sym (same_index k i e))
      ∙ (of_take n (set volumes i no_volume) k at) in
    let room : i < length volumes =
      omega
        (arith, lt-get_elem? (set volumes i no_volume) i here, length-set volumes i no_volume) in
    cc (z, found, here, get_elem?-set_self volumes i no_volume room)

abbrev pub Unmounted : (Option Bytes → ℤ) → MountsState → ℕ → Type 0
Unmounted umount s i =
    (s' : MountsState) × (unmount_mounted_volume umount s i ≡ some (pos 0, s'))
    × IsValid s'
    × (s'.volume_count ≡ s.volume_count)
    × (volume_at s' i ≡ some no_volume)
    × ((j : ℕ) → j ≢ i → volume_at s' j ≡ volume_at s j)
    × ((name : Bytes) → find_mounted_volume_by_device s' name ≢ some i)
    × ((name : Bytes) → find_mounted_volume_by_mount_point s' name ≢ some i)

unmounted :
    (umount : Option Bytes → ℤ) (volumes : List MountedVolume) (n i : ℕ) (v : MountedVolume)
    → length volumes ≡ 32
    → n ≤ 32
    → get_elem? volumes i ≡ some v
    → umount v.mount_point ≡ pos 0
    → Unmounted umount (record { volumes = some volumes; volume_count = n }) i
unfolding unmount_mounted_volume
unmounted umount volumes n i v size h at ret =
    let s' : MountsState = record { volumes = some (set volumes i no_volume); volume_count = n } in
    (
      s',
      simp (unmount_mounted_volume, at, ret),
      (length-set volumes i no_volume ∙ size, h),
      refl,
      get_elem?-set_self volumes i no_volume (lt-get_elem? volumes i at),
      λ j other. get_elem?-set_ne volumes i j no_volume (λ e. other (sym e)),
      λ name.
          not_zeroed (λ w. is_text name w.device) volumes n i _ refl
            (find_mounted_volume-FoundAt s' name).0,
      λ name.
          not_zeroed (λ w. is_text name w.mount_point) volumes n i _ refl
            (find_mounted_volume-FoundAt s' name).1,
    )

-- After umount has succeeded the entry's fields are NULL: neither search returns it any more, whatever
-- it is asked for. The other entries and the count stay, and the state is valid.
pub unmount_mounted_volume-Unmounted :
    (umount : Option Bytes → ℤ) (s : MountsState) (i : ℕ) (v : MountedVolume)
    → IsValid s
    → volume_at s i ≡ some v
    → umount v.mount_point ≡ pos 0
    → Unmounted umount s i
unmount_mounted_volume-Unmounted umount s i v h at ret = by_volumes s.volumes h at
  where
    by_volumes :
        (o : Option (List MountedVolume))
        → IsValid (record { volumes = o; volume_count = s.volume_count })
        → volume_at (record { volumes = o; volume_count = s.volume_count }) i ≡ some v
        → Unmounted umount (record { volumes = o; volume_count = s.volume_count }) i
    by_volumes none k e = absurd (ground arith)
    by_volumes (some volumes) k e = unmounted umount volumes s.volume_count i v k.0 k.1 e ret
