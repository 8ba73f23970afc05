-- ===== src/Mounts/Scan.antt =====
-- scan_mounted_volumes of mounts.c.
use mathlib.Core.List.{append-nil, append_assoc}
use open_recovery.Base.{
  ℕ, zero, suc, ◌+◌, ◌≤◌, ◌<◌, ◌≡◌, refl, ap, sym, subst, ◌∙◌, Bool, true, false, List, [], ◌∷◌,
  ◌++◌, Option, none, some, Bytes, length, length-set, set, take, ltb, ltb→lt, ◌==◌, Bool-cases,
  inl, inr, arith,
}
use open_recovery.Mounts.{
  mounts_size, MountedVolume, MountsState, strdups, free_volumes, eat_line, Lines, scanned,
  to_state, Scanned, ok, cleared, scan_lines, scan_mounted_volumes, in_use,
}

-- the array has 32 entries once there is one, and the count stays in it
abbrev pub IsValid : MountsState → Type 0
IsValid s = elim s.volumes [
  | none ↦ s.volume_count ≡ 0
  | some volumes ↦ (length volumes ≡ 32) × (s.volume_count ≤ 32)
]

-- what is left of a text at the start of each line
abbrev pub line_starts : Bool → Bytes → List Bytes
line_starts at_start [] = []
line_starts true (c ∷ cs) = (c ∷ cs) ∷ line_starts (c == b'\n') cs
line_starts false (c ∷ cs) = line_starts (c == b'\n') cs

length-eat_line : (buf : Bytes) → length (eat_line buf) ≤ length buf
unfolding eat_line
length-eat_line [] = omega arith
length-eat_line (c ∷ cs) = ground (arith, length-eat_line cs)

length-eat_line_cons : (c : ℕ) (cs : Bytes) → length (eat_line (c ∷ cs)) ≤ length cs
unfolding eat_line
length-eat_line_cons c cs = ground (arith, length-eat_line cs)

skip_line : (buf : Bytes) → line_starts false buf ≡ line_starts true (eat_line buf)
unfolding eat_line
skip_line [] = refl
skip_line (c ∷ cs) = elim (Bool-cases (c == b'\n')) [
  | inl t ↦ rw (t) refl
  | inr t ↦ rw (t) (skip_line cs)
]

next_line :
    (c : ℕ) (cs : Bytes)
    → line_starts true (c ∷ cs) ≡ (c ∷ cs) ∷ line_starts true (eat_line (c ∷ cs))
unfolding eat_line
next_line c cs = ap (λ r. (c ∷ cs) ∷ r) (skip_line (c ∷ cs))

length-free_volumes : (n : ℕ) (vs : List MountedVolume) → length (free_volumes n vs) ≡ length vs
unfolding free_volumes
length-free_volumes zero vs = refl
length-free_volumes (suc n) [] = refl
length-free_volumes (suc n) (v ∷ vs) = ap suc (length-free_volumes n vs)

length-cleared : (s : MountsState) → IsValid s → length (cleared s) ≡ 32
unfolding cleared
length-cleared s h = by_volumes s.volumes h
  where
    by_volumes :
        (o : Option (List MountedVolume))
        → IsValid (record { volumes = o; volume_count = s.volume_count })
        → length (cleared (record { volumes = o; volume_count = s.volume_count })) ≡ 32
    by_volumes none k = refl
    by_volumes (some vs) k = length-free_volumes s.volume_count vs ∙ k.0

take-set :
    (vs : List MountedVolume) (i : ℕ) (v : MountedVolume)
    → i < length vs
    → take (suc i) (set vs i v) ≡ take i vs ++ (v ∷ [])
take-set [] i v h = absurd (omega arith)
take-set (x ∷ vs) zero v h = refl
take-set (x ∷ vs) (suc i) v h = ap (λ r. x ∷ r) (take-set vs i v (omega arith))

-- a line adds a volume where sscanf finds the four fields
abbrev pub found_in :
    Option (Bytes × Bytes × Bytes × Bytes) → List MountedVolume → List MountedVolume
found_in none more = more
found_in (some fields) more = strdups fields ∷ more

module _ (sscanf : Bytes → Option (Bytes × Bytes × Bytes × Bytes)) where
  -- the volumes that the lines describe
  abbrev pub volumes_of : List Bytes → List MountedVolume
  volumes_of [] = []
  volumes_of (line ∷ lines) = found_in (sscanf line) (volumes_of lines)

  abbrev round : ℕ → Bytes → List MountedVolume → ℕ → Option (Bytes × Bytes × Bytes × Bytes) → Lines
  round fuel line volumes count none = scan_lines sscanf fuel (eat_line line) volumes count
  round fuel line volumes count (some fields) = elim (ltb count (length volumes)) [
    | true ↦ scan_lines sscanf fuel (eat_line line) (set volumes count (strdups fields)) (suc count)
    | false ↦ Lines.fault
  ]

  -- what the loop makes of the entries `vs` that are still to come
  abbrev Outcome : List MountedVolume → ℕ → List MountedVolume → Lines → Type 0
  Outcome volumes count vs r =
      (count + length vs ≤ length volumes
        → (volumes' : List MountedVolume) × (r ≡ scanned volumes' (count + length vs))
          × (length volumes' ≡ length volumes)
          × (take (count + length vs) volumes' ≡ take count volumes ++ vs))
      × (length volumes < count + length vs → r ≡ Lines.fault)

  by_fields :
      (fuel : ℕ) (line : Bytes) (volumes : List MountedVolume) (count : ℕ)
      (more : List MountedVolume)
      → count ≤ length volumes
      → ((vs : List MountedVolume) (n : ℕ)
          → n ≤ length vs
          → Outcome vs n more (scan_lines sscanf fuel (eat_line line) vs n))
      → (o : Option (Bytes × Bytes × Bytes × Bytes))
      → Outcome volumes count (found_in o more) (round fuel line volumes count o)
  by_fields fuel line volumes count more h ih none = ih volumes count h
  by_fields fuel line volumes count more h ih (some fields) =
      by_room (ltb count (length volumes)) refl
    where
      v : MountedVolume
      v = strdups fields

      after : ℕ → Lines
      after n = scan_lines sscanf fuel (eat_line line) (set volumes count v) n

      by_room :
          (b : Bool)
          → ltb count (length volumes) ≡ b
          → Outcome volumes count
              (v ∷ more)
              (elim b [ true ↦ after (suc count) | false ↦ Lines.fault ])
      by_room true t =
          let room = ltb→lt count (length volumes) t in
          let same = length-set volumes count v in
          let (fits, over) = ih (set volumes count v) (suc count) (omega arith) in
          (
            λ k.
                let (vs, run, len, entries) = fits (omega arith) in
                (
                  vs,
                  run ∙ ap (scanned vs) (omega arith),
                  len ∙ same,
                  ap (λ n. take n vs) (omega arith)
                      ∙ entries
                      ∙ ap (λ (ws : List MountedVolume). ws ++ more) (take-set volumes count v room)
                      ∙ append_assoc (take count volumes) (v ∷ []) more,
                ),
            λ k. over (omega arith),
          )
      by_room false t = (λ k. absurd (ground arith), λ k. refl)

  scan_lines-Outcome :
      (fuel : ℕ) (buf : Bytes) (volumes : List MountedVolume) (count : ℕ)
      → length buf ≤ fuel
      → count ≤ length volumes
      → Outcome volumes count
          (volumes_of (line_starts true buf))
          (scan_lines sscanf fuel buf volumes count)
  unfolding scan_lines
  scan_lines-Outcome fuel [] volumes count f h = (
    λ k. (
      volumes,
      ap (scanned volumes) (omega arith),
      refl,
      ap (λ n. take n volumes) (omega arith) ∙ sym (append-nil (take count volumes)),
    ),
    λ k. absurd (omega arith),
  )
  scan_lines-Outcome zero (c ∷ cs) volumes count f h = absurd (omega arith)
  scan_lines-Outcome (suc fuel) (c ∷ cs) volumes count f h =
      subst
        (λ ls.
          Outcome volumes count (volumes_of ls)
            (scan_lines sscanf (suc fuel) (c ∷ cs) volumes count))
        (sym (next_line c cs))
        (by_fields fuel (c ∷ cs) volumes count (volumes_of (line_starts true (eat_line (c ∷ cs)))) h
          (λ vs n k.
            scan_lines-Outcome fuel (eat_line (c ∷ cs)) vs n
              (omega (arith, length-eat_line_cons c cs)) k)
          (sscanf (c ∷ cs)))

  -- the lines of what one call of read takes of the file
  abbrev pub lines_read : Bytes → List Bytes
  lines_read file = line_starts true (take mounts_size file)

  -- Where the lines of the first 2047 bytes of the file describe no more than the 32 volumes that the
  -- array has room for, a scan leaves these volumes, in their order, and a valid state.
  pub scan_mounted_volumes-lines :
      (s : MountsState) (file : Bytes)
      → IsValid s
      → length (volumes_of (lines_read file)) ≤ 32
      → (s' : MountsState) × (scan_mounted_volumes sscanf s (some file) ≡ ok s')
        × IsValid s'
        × (in_use s' ≡ volumes_of (lines_read file))
  unfolding scan_mounted_volumes
  scan_mounted_volumes-lines s file h room =
      let buf = take mounts_size file in
      let (fits, over) =
        scan_lines-Outcome (length buf) buf (cleared s) 0 (omega arith) (omega arith) in
      let size = length-cleared s h in
      let (vs, run, len, entries) = fits (omega (arith, room, size)) in
      (
        record { volumes = some vs; volume_count = 0 + length (volumes_of (lines_read file)) },
        ap to_state run,
        (len ∙ size, omega (arith, room)),
        entries,
      )

  -- Where the lines of the first 2047 bytes of the file describe more than 32 volumes, the scan writes
  -- past the end of the array.
  pub scan_mounted_volumes-fault :
      (s : MountsState) (file : Bytes)
      → IsValid s
      → 32 < length (volumes_of (lines_read file))
      → scan_mounted_volumes sscanf s (some file) ≡ Scanned.fault
  unfolding scan_mounted_volumes
  scan_mounted_volumes-fault s file h more =
      let buf = take mounts_size file in
      let (fits, over) =
        scan_lines-Outcome (length buf) buf (cleared s) 0 (omega arith) (omega arith) in
      let size = length-cleared s h in ap to_state (over (omega (arith, more, size)))
