-- ===== src/Applypatch/FreeCache/Expendable.antt =====
-- FindExpendableFiles of applypatch/freecache.c.
use open_recovery.Base.{
  ◌≡◌, ◌≢◌, ◌⊎◌, inl, inr, In, here, there, In-cases, In-append, refl, sym, ap, subst, ◌∙◌, Bool,
  true, false, List, [], ◌∷◌, ◌++◌, Option, none, some, map, Bytes, codes, bytes_eq, bytes_eq_refl,
  bytes_eq_iff, if◌then◌else◌, arith,
}
use open_recovery.Applypatch.FreeCache.{
  on_cache, Process, Os, cache_temp_source, regular_files, in_dir, find_expendable_files,
  eliminate_open_files,
}
use open_recovery.Applypatch.FreeCache.Open.{
  HasOpen, HasOpen-is_open, is_open, unless, eliminate_open_files-unless,
}

kept_one :
    (b : Bool) (path file : Bytes)
    → some path ≡ (if b then none else some file)
    → (path ≡ file) × (b ≡ false)
kept_one true path file e = absurd (ground arith)
kept_one false path file e = (cc, refl)

-- a file that is struck is not kept
kept :
    (f : Bytes → Bool) (files : List Bytes) {path : Bytes}
    → In (some path) (map (unless f) (map some files))
    → In path files × (f path ≡ false)
kept f [] m = elim m [ ]
kept f (file ∷ files) {path} m = elim (In-cases m) [
  | inl e ↦ let (same, out) = kept_one (f file) path file e in (here same, ap f same ∙ out)
  | inr later ↦ let (i, out) = kept f files later in (there i, out)
]

regular_one :
    (saved regular : Bool) (p path : Bytes) (rest : List Bytes)
    → In path (if saved then rest else if regular then p ∷ rest else rest)
    → In path rest ⊎ ((path ≡ p) × (saved ≡ false) × (regular ≡ true))
regular_one true regular p path rest m = inl m
regular_one false true p path rest m = elim (In-cases m) [
  | inl e ↦ inr (e, refl, refl)
  | inr later ↦ inl later
]
regular_one false false p path rest m = inl m

cache_path :
    (dir name path : Bytes)
    → (dir ≡ codes "/cache") ⊎ (dir ≡ codes "/cache/recovery/otatest")
    → path ≡ dir ++ codes "/" ++ name
    → on_cache path ≡ true
cache_path dir name path (inl e) spelled =
    ap on_cache (spelled ∙ ap (λ (d : Bytes). d ++ codes "/" ++ name) e)
    ∙ bytes_eq_refl (codes "/cache/")
cache_path dir name path (inr e) spelled =
    ap on_cache (spelled ∙ ap (λ (d : Bytes). d ++ codes "/" ++ name) e)
    ∙ bytes_eq_refl (codes "/cache/")

module _ (os : Os) where
  open os use {World, entries, is_regular, processes, unlink, statfs}

  -- a regular file of one of the two directories, not CACHE_TEMP_SOURCE, to which no descriptor of a
  -- process is a link
  pub record IsExpendable (w : World) (path : Bytes) : Type 0 where
    pub dir : Bytes
    pub name : Bytes
    pub names : List Bytes
    pub one_of : (dir ≡ codes "/cache") ⊎ (dir ≡ codes "/cache/recovery/otatest")
    pub listed : entries w dir ≡ some names
    pub has : In name names
    pub spelled : path ≡ dir ++ codes "/" ++ name
    pub regular : is_regular w path ≡ true
    pub other : path ≢ cache_temp_source
    pub ps : List Process
    pub running : processes w ≡ some ps
    pub closed : HasOpen ps path → ⊥

  -- every path of `regular_files`
  regular_files-has :
      (w : World) (dir : Bytes) (names : List Bytes) (path : Bytes)
      → In path (regular_files os w dir names)
      → (name : Bytes) × In name names
        × (path ≡ dir ++ codes "/" ++ name)
        × (is_regular w path ≡ true)
        × (path ≢ cache_temp_source)
  unfolding regular_files
  regular_files-has w dir [] path m = elim m [ ]
  regular_files-has w dir (name ∷ names) path m =
      let p = dir ++ codes "/" ++ name in
      elim (regular_one (bytes_eq p cache_temp_source) (is_regular w p) p path
        (regular_files os w dir names) m) [
          | inl later ↦
              let (n, i, spelled, regular, other) = regular_files-has w dir names path later in
              (n, there i, spelled, regular, other)
          | inr (e, other, regular) ↦ (
            name,
            here refl,
            e,
            rw (e) regular,
            λ same. cc (other, (bytes_eq_iff p cache_temp_source).1 (sym e ∙ same)),
          )
        ]

  in_dir-has :
      (w : World) (dir : Bytes) (path : Bytes)
      → In path (in_dir os w dir)
      → (names : List Bytes) × (entries w dir ≡ some names) × In path (regular_files os w dir names)
  in_dir-has w dir path m = opened (entries w dir) refl m
    where
      opened :
          (o : Option (List Bytes))
          → entries w dir ≡ o
          → In path (elim o [ none ↦ [] | some names ↦ regular_files os w dir names ])
          → (names : List Bytes) × (entries w dir ≡ some names)
            × In path (regular_files os w dir names)
      opened none e i = elim i [ ]
      opened (some names) e i = (names, e, i)

  in_dir-IsExpendable :
      (w : World) (dir path : Bytes) (ps : List Process)
      → (dir ≡ codes "/cache") ⊎ (dir ≡ codes "/cache/recovery/otatest")
      → In path (in_dir os w dir)
      → processes w ≡ some ps
      → is_open ps path ≡ false
      → IsExpendable w path
  in_dir-IsExpendable w dir path ps one i running closed =
      let (names, listed, m) = in_dir-has w dir path i in
      let (name, has, spelled, regular, other) = regular_files-has w dir names path m in
      record {
        dir = dir;
        name = name;
        names = names;
        one_of = one;
        listed = listed;
        has = has;
        spelled = spelled;
        regular = regular;
        other = other;
        ps = ps;
        running = running;
        closed = λ h. cc (closed, HasOpen-is_open ps path (cache_path dir name path one spelled) h);
      }

  -- FindExpendableFiles lists only files that can be spared.
  pub find_expendable_files-IsExpendable :
      (w : World) (files : List (Option Bytes)) (path : Bytes)
      → find_expendable_files os w ≡ some files
      → In (some path) files
      → IsExpendable w path
  unfolding find_expendable_files eliminate_open_files
  find_expendable_files-IsExpendable w files path e i = by_proc (processes w) refl e
    where
      dirs : List Bytes
      dirs = in_dir os w (codes "/cache") ++ in_dir os w (codes "/cache/recovery/otatest")

      by_proc :
          (o : Option (List Process))
          → processes w ≡ o
          → eliminate_open_files o (map some dirs) ≡ some files
          → IsExpendable w path
      by_proc none running e' = absurd (ground arith)
      by_proc (some ps) running e' =
          let same : files ≡ map (unless (is_open ps)) (map some dirs) =
            cc (e', eliminate_open_files-unless ps (map some dirs)) in
          let (m, closed) = kept (is_open ps) dirs (subst (λ fs. In (some path) fs) same i) in
          elim (In-append (in_dir os w (codes "/cache"))
            (in_dir os w (codes "/cache/recovery/otatest")) m) [
              | inl j ↦ in_dir-IsExpendable w (codes "/cache") path ps (inl refl) j running closed
              | inr j ↦
                  in_dir-IsExpendable w (codes "/cache/recovery/otatest") path ps (inr refl) j
                    running closed
            ]
