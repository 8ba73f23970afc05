-- ===== src/Minzip/Dirs/Walked.antt =====
-- dirCreateHierarchy (minzip/DirUtil.c): what there is after it returned 0.
use mathlib.Core.List.{append_assoc}
use open_recovery.Base.{
  ℕ, zero, suc, ◌-◌, ◌≡◌, ◌≢◌, ◌⊎◌, inl, inr, refl, sym, ◌∙◌, subst, Bool, true, false, List, [],
  ◌∷◌, ◌++◌, Option, none, some, Bytes, In, In-cases, here, there, length, take, get_elem?, ◌==◌,
  ==_iff, Bool-cases, Option-cases, arith,
}
use open_recovery.Minzip.Dirs.{
  Found, directory, other_file, nothing, unknown, FileSystem, last_slash, DirStatus, missing, dir,
  illegal, slash, directory_path, levels, status_of, get_path_dir_status, set_time, make_level,
  make_levels, make_path, dir_create_hierarchy,
}

-- a directory that mkdir made is there, and those that there are stay
pub record Makes (fs : FileSystem) : Type 0 where
  pub made :
      (part : Bytes) (mode : ℕ) (w : fs.World)
      → (fs.mkdir part mode w).0 ≡ true
      → fs.stat part (fs.mkdir part mode w).1 ≡ directory
  pub keeps :
      (path part : Bytes) (mode : ℕ) (w : fs.World)
      → fs.stat path w ≡ directory
      → fs.stat path (fs.mkdir part mode w).1 ≡ directory
  pub touched :
      (path part : Bytes) (time : ℕ) (w : fs.World)
      → fs.stat path w ≡ directory
      → fs.stat path (fs.utime part time w).1 ≡ directory

ne→==-false : (a b : ℕ) → a ≢ b → (a == b) ≡ false
ne→==-false a b h = ground arith

last_level : (part rest : Bytes) → get_elem? rest 0 ≡ some slash → In part (levels part true rest)
unfolding levels
last_level part [] h = absurd (ground arith)
last_level part (c ∷ rest) h =
    let is : (c == slash) ≡ true = (==_iff c slash).1 (cc (h)) in rw (is) (here refl)

-- each place where a component ends is a level
levels-complete :
    (part : Bytes) (in_name : Bool) (rest : Bytes) (i c : ℕ)
    → get_elem? rest i ≡ some c
    → c ≢ slash
    → get_elem? rest (suc i) ≡ some slash
    → In (part ++ take (suc i) rest) (levels part in_name rest)
unfolding levels
levels-complete part in_name [] i c h n k = absurd (ground arith)
levels-complete part in_name (b ∷ rest) zero c h n k =
    let one : b ≡ c = cc (h) in
    rw (ne→==-false b slash (λ e. n (sym one ∙ e))) (last_level (part ++ (b ∷ [])) rest k)
levels-complete part in_name (b ∷ rest) (suc i) c h n k =
    let inner : (name : Bool)
        → In (part ++ (b ∷ take (suc i) rest)) (levels (part ++ (b ∷ [])) name rest) =
      λ name.
        subst (λ p. In p (levels (part ++ (b ∷ [])) name rest))
          (append_assoc part (b ∷ []) (take (suc i) rest))
          (levels-complete (part ++ (b ∷ [])) name rest i c h n k) in
    elim (Bool-cases (b == slash)) [
      | inr other ↦ rw (other) (inner true)
      | inl is ↦ elim (Bool-cases in_name) [
        | inl ends ↦ rw (is, ends) (there (inner false))
        | inr inside ↦ rw (is, inside) (inner false)
      ]
    ]

DirStatus-cases : (s : DirStatus) → (s ≡ missing) ⊎ ((s ≡ dir) ⊎ (s ≡ illegal))
DirStatus-cases missing = inl refl
DirStatus-cases dir = inr (inl refl)
DirStatus-cases illegal = inr (inr refl)

module _ (fs : FileSystem) (m : Makes fs) where
  dir-directory :
      (path : Bytes) (w : fs.World)
      → get_path_dir_status fs path w ≡ dir
      → fs.stat path w ≡ directory
  unfolding get_path_dir_status
  dir-directory path w h = by_found (fs.stat path w) h
    where
      by_found : (f : Found) → status_of fs f ≡ dir → f ≡ directory
      by_found directory h = refl
      by_found other_file h = absurd (cc)
      by_found nothing h = absurd (cc)
      by_found unknown h = absurd (cc)

  set_time-keeps :
      (path part : Bytes) (timestamp : Option ℕ) (w : fs.World)
      → fs.stat path w ≡ directory
      → fs.stat path (set_time fs timestamp part w).1 ≡ directory
  set_time-keeps path part none w h = h
  set_time-keeps path part (some time) w h = m.touched path part time w h

  make_level-keeps :
      (path part : Bytes) (mode : ℕ) (timestamp : Option ℕ) (w : fs.World)
      → fs.stat path w ≡ directory
      → fs.stat path (make_level fs mode timestamp part w).1 ≡ directory
  make_level-keeps path part mode timestamp w h = elim (Bool-cases (fs.mkdir part mode w).0) [
    | inl made ↦
        rw (make_level, made)
          (set_time-keeps path part timestamp (fs.mkdir part mode w).1 (m.keeps path part mode w h))
    | inr failed ↦ rw (make_level, failed) (m.keeps path part mode w h)
  ]

  make_level-made :
      (part : Bytes) (mode : ℕ) (timestamp : Option ℕ) (w : fs.World)
      → (make_level fs mode timestamp part w).0 ≡ true
      → fs.stat part (make_level fs mode timestamp part w).1 ≡ directory
  make_level-made part mode timestamp w h = elim (Bool-cases (fs.mkdir part mode w).0) [
    | inl made ↦
        rw (make_level, made)
          (set_time-keeps part part timestamp (fs.mkdir part mode w).1 (m.made part mode w made))
    | inr failed ↦ absurd (never (rw (make_level, failed) at h))
  ]
    where
      never : false ≡ true → ⊥
      never e = absurd (cc)

  -- what is kept, and what is there after a success
  abbrev After : List Bytes → fs.World → Bool × fs.World → Type 0
  After parts w r =
      ((path : Bytes) → fs.stat path w ≡ directory → fs.stat path r.1 ≡ directory)
      × (r.0 ≡ true → (path : Bytes) → In path parts → fs.stat path r.1 ≡ directory)

  make_levels-After :
      (mode : ℕ) (timestamp : Option ℕ) (parts : List Bytes) (w : fs.World)
      → After parts w (make_levels fs mode timestamp parts w)
  unfolding make_levels
  make_levels-After mode timestamp [] w = (λ path h. h, λ e path h. elim h [ ])
  make_levels-After mode timestamp (part ∷ parts) w =
      elim (DirStatus-cases (get_path_dir_status fs part w)) [
        | inr (inr bad) ↦ rw (make_levels, bad) ((λ path h. h), (λ e. absurd (cc)))
        | inr (inl old) ↦
            let (kept, there') = make_levels-After mode timestamp parts w in
            rw (make_levels, old)
              (
                kept,
                (λ e path h. elim (In-cases h) [
                  | inl one ↦ rw (one) (kept part (dir-directory part w old))
                  | inr later ↦ there' e path later
                ]),
              )
        | inl new ↦ elim (Bool-cases (make_level fs mode timestamp part w).0) [
          | inr failed ↦
              rw (make_levels, new, failed)
                ((λ path h. make_level-keeps path part mode timestamp w h), (λ e. absurd (cc)))
          | inl made ↦
              let w₁ = (make_level fs mode timestamp part w).1 in
              let (kept, there') = make_levels-After mode timestamp parts w₁ in
              rw (make_levels, new, made)
                (
                  (λ path h. kept path (make_level-keeps path part mode timestamp w h)),
                  (λ e path h. elim (In-cases h) [
                    | inl one ↦ rw (one) (kept part (make_level-made part mode timestamp w made))
                    | inr later ↦ there' e path later
                  ]),
                )
        ]
      ]

  -- Where mkdir makes directories and none goes: when dirCreateHierarchy returns 0, the path,
  -- without its last component if stripFileName is set, was a directory before, or each part of it
  -- that ends where a component ends is a directory afterwards.
  pub dir_create_hierarchy-made :
      (path : Bytes) (mode : ℕ) (timestamp : Option ℕ) (strip : Bool) (w : fs.World)
      → (dir_create_hierarchy fs path mode timestamp strip w).0 ≡ true
      → (cpath : Bytes) × (directory_path path strip ≡ some cpath)
        × ((fs.stat cpath w ≡ directory)
            ⊎ ((i c : ℕ)
                → get_elem? cpath i ≡ some c
                → c ≢ slash
                → get_elem? cpath (suc i) ≡ some slash
                → fs.stat
                    (take (suc i) cpath)
                    (dir_create_hierarchy fs path mode timestamp strip w).1
                  ≡ directory))
  unfolding dir_create_hierarchy
  dir_create_hierarchy-made [] mode timestamp strip w h = absurd (cc)
  dir_create_hierarchy-made (b ∷ path) mode timestamp strip w h =
      by_path (directory_path (b ∷ path) strip) refl h
    where
      by_path :
          (o : Option Bytes)
          → directory_path (b ∷ path) strip ≡ o
          → (make_path fs mode timestamp o w).0 ≡ true
          → (cpath : Bytes) × (directory_path (b ∷ path) strip ≡ some cpath)
            × ((fs.stat cpath w ≡ directory)
                ⊎ ((i c : ℕ)
                    → get_elem? cpath i ≡ some c
                    → c ≢ slash
                    → get_elem? cpath (suc i) ≡ some slash
                    → fs.stat (take (suc i) cpath) (make_path fs mode timestamp o w).1 ≡ directory))
      by_path none e h = absurd (cc)
      by_path (some cpath) e h = (
        cpath,
        e,
        elim (DirStatus-cases (get_path_dir_status fs cpath w)) [
          | inr (inr bad) ↦ absurd (never (rw (make_path, bad) at h))
          | inr (inl old) ↦ inl (dir-directory cpath w old)
          | inl new ↦ inr (λ i c at other ends.
              rw (make_path, new)
                ((make_levels-After mode timestamp (levels [] false cpath) w).1
                  (rw (make_path, new) at h) (take (suc i) cpath)
                  (levels-complete [] false cpath i c at other ends)))
        ],
      )
        where
          never : false ≡ true → ⊥
          never e = absurd (cc)

last_slash-root :
    (name : Bytes) (n : ℕ)
    → ((i c : ℕ) → get_elem? name i ≡ some c → c ≢ slash)
    → last_slash (slash ∷ name) n ≡ 0
last_slash-root name zero h = refl
last_slash-root name (suc n) h = elim (Option-cases (get_elem? name n)) [
  | inl none_there ↦ rw (last_slash, none_there) (last_slash-root name n h)
  | inr (c, at) ↦ rw (last_slash, at, ne→==-false c slash (h n c at)) (last_slash-root name n h)
]

-- With stripFileName, dirCreateHierarchy fails for a file of the root directory, whatever there is,
-- and changes nothing.
pub dir_create_hierarchy-root :
    (fs : FileSystem) (name : Bytes) (mode : ℕ) (timestamp : Option ℕ) (w : fs.World)
    → ((i c : ℕ) → get_elem? name i ≡ some c → c ≢ slash)
    → dir_create_hierarchy fs (slash ∷ name) mode timestamp true w ≡ (false, w)
unfolding dir_create_hierarchy directory_path
dir_create_hierarchy-root fs name mode timestamp w h =
    rw (last_slash-root name (length (slash ∷ name) - 1) h) refl
