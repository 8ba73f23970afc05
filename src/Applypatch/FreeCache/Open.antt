-- ===== src/Applypatch/FreeCache/Open.antt =====
-- EliminateOpenFiles of applypatch/freecache.c.
use open_recovery.Base.{
  ℕ, zero, suc, ◌≤◌, ◌⊎◌, inl, inr, In, In-cases, here, there, ◌++◌, codes, leb, leb→le, get_elem?,
  bytes_eq→eq, bytes_eq_refl, Bool-cases, arith, ◌≡◌, refl, ap, ◌∙◌, Bool, true, false, ◌&&◌, ◌||◌,
  List, [], ◌∷◌, Option, none, some, map, Bytes, bytes_eq, if◌then◌else◌,
}
use open_recovery.Applypatch.FreeCache.{
  Process, all_digits, on_cache, strike, strike_links, strike_all, eliminate_open_files,
}

abbrev pub is_link : Bytes → Option Bytes → Bool
is_link path none = false
is_link path (some link) = on_cache link && bytes_eq path link

abbrev pub any_link : Bytes → List (Option Bytes) → Bool
any_link path [] = false
any_link path (l ∷ links) = is_link path l || any_link path links

-- A process, named by a number and with an `fd` directory that opens, has a link to the path, among
-- the links that are looked at, those below /cache/.
abbrev pub opens : Bytes → Process → Bool
opens path p =
    all_digits p.name && (elim p.links [ none ↦ false | some links ↦ any_link path links ])

abbrev pub is_open : List Process → Bytes → Bool
is_open [] path = false
is_open (p ∷ ps) path = opens path p || is_open ps path

abbrev pub unless : (Bytes → Bool) → Option Bytes → Option Bytes
unless f none = none
unless f (some path) = if f path then none else some path

unless-false : (files : List (Option Bytes)) → files ≡ map (unless (λ p. false)) files
unless-false [] = refl
unless-false (none ∷ files) = ap (λ r. none ∷ r) (unless-false files)
unless-false (some p ∷ files) = ap (λ r. some p ∷ r) (unless-false files)

unless-or :
    (f g : Bytes → Bool) (file : Option Bytes)
    → unless g (unless f file) ≡ unless (λ p. f p || g p) file
unless-or f g none = refl
unless-or f g (some p) = by_test (f p)
  where
    by_test :
        (b : Bool) → unless g (if b then none else some p) ≡ (if b || g p then none else some p)
    by_test true = refl
    by_test false = refl

map-unless :
    (f g : Bytes → Bool) (files : List (Option Bytes))
    → map (unless g) (map (unless f) files) ≡ map (unless (λ p. f p || g p)) files
map-unless f g [] = refl
map-unless f g (file ∷ files) = λ i. unless-or f g file i ∷ map-unless f g files i

strike-unless :
    (link : Bytes) (files : List (Option Bytes))
    → strike link files ≡ map (unless (λ p. bytes_eq p link)) files
unfolding strike
strike-unless link [] = refl
strike-unless link (none ∷ files) = ap (λ r. none ∷ r) (strike-unless link files)
strike-unless link (some p ∷ files) =
    ap (λ r. (if bytes_eq p link then none else some p) ∷ r) (strike-unless link files)

when_unless :
    (b : Bool) (f : Bytes → Bool) (files struck : List (Option Bytes))
    → struck ≡ map (unless f) files
    → (if b then struck else files) ≡ map (unless (λ p. b && f p)) files
when_unless true f files struck h = h
when_unless false f files struck h = unless-false files

strike_links-unless :
    (links files : List (Option Bytes))
    → strike_links links files ≡ map (unless (λ p. any_link p links)) files
unfolding strike_links
strike_links-unless [] files = unless-false files
strike_links-unless (none ∷ links) files = strike_links-unless links files
strike_links-unless (some link ∷ links) files =
    ap (strike_links links) (
      when_unless (on_cache link) (λ p. bytes_eq p link) files (strike link files)
        (strike-unless link files))
    ∙ strike_links-unless links (map (unless (λ p. is_link p (some link))) files)
    ∙ map-unless (λ p. is_link p (some link)) (λ p. any_link p links) files

strike_process :
    (p : Process) (files : List (Option Bytes))
    → (if all_digits p.name
        then (elim p.links [ none ↦ files | some links ↦ strike_links links files ])
        else files)
      ≡ map (unless (λ path. opens path p)) files
strike_process p files = when_unless (all_digits p.name) _ files _ (by_links p.links)
  where
    by_links :
        (o : Option (List (Option Bytes)))
        → elim o [ none ↦ files | some links ↦ strike_links links files ]
          ≡ map (unless (λ path. elim o [ none ↦ false | some links ↦ any_link path links ])) files
    by_links none = unless-false files
    by_links (some links) = strike_links-unless links files

strike_all-unless :
    (ps : List Process) (files : List (Option Bytes))
    → strike_all ps files ≡ map (unless (is_open ps)) files
unfolding strike_all
strike_all-unless [] files = unless-false files
strike_all-unless (p ∷ ps) files =
    ap (strike_all ps) (strike_process p files)
    ∙ strike_all-unless ps (map (unless (λ path. opens path p)) files)
    ∙ map-unless (λ path. opens path p) (is_open ps) files

-- Where /proc opens, exactly the files that a process has open are struck from the list, and the others
-- keep their places.
pub eliminate_open_files-unless :
    (ps : List Process) (files : List (Option Bytes))
    → eliminate_open_files (some ps) files ≡ some (map (unless (is_open ps)) files)
unfolding eliminate_open_files
eliminate_open_files-unless ps files = ap some (strike_all-unless ps files)

-- a name of digits only
abbrev pub IsNumber : Bytes → Type 0
IsNumber name = (c : ℕ) → In c name → (b'0' ≤ c) × (c ≤ b'9')

-- Some process, a directory of /proc whose name is a number, has a descriptor that is a link to the path.
abbrev pub HasOpen : List Process → Bytes → Type 0
HasOpen ps path =
    (p : Process) × In p ps
    × IsNumber p.name
    × ((links : List (Option Bytes)) × (p.links ≡ some links) × In (some path) links)

both : (a b : Bool) → (a && b) ≡ true → (a ≡ true) × (b ≡ true)
both true b e = (refl, e)
both false b e = cc

either : (a b : Bool) → (a || b) ≡ true → (a ≡ true) ⊎ (b ≡ true)
either true b e = inl refl
either false b e = inr e

all_digits-IsNumber : (name : Bytes) → all_digits name ≡ true → IsNumber name
all_digits-IsNumber [] h c m = elim m [ ]
all_digits-IsNumber (b ∷ name) h c m =
    let (digit, rest) = both (leb b'0' b && leb b b'9') (all_digits name) h in
    elim (In-cases m) [
      | inl e ↦
          let (low, high) = both (leb b'0' b) (leb b b'9') digit in
          rw (e) (leb→le b'0' b low, leb→le b b'9' high)
      | inr later ↦ all_digits-IsNumber name rest c later
    ]

IsNumber-all_digits : (name : Bytes) → IsNumber name → all_digits name ≡ true
IsNumber-all_digits [] h = refl
IsNumber-all_digits (b ∷ name) h =
    let rest = IsNumber-all_digits name (λ c m. h c (there m)) in
    let (low, high) = h b (here refl) in rw (rest, in_range b'0' b low, in_range b b'9' high) refl
  where
    in_range : (a c : ℕ) → a ≤ c → leb a c ≡ true
    in_range a c l = ground arith

any_link-In :
    (path : Bytes) (links : List (Option Bytes)) → any_link path links ≡ true → In (some path) links
any_link-In path [] h = absurd (cc)
any_link-In path (none ∷ links) h = there (any_link-In path links h)
any_link-In path (some link ∷ links) h =
    elim (either (on_cache link && bytes_eq path link) (any_link path links) h) [
      | inl e ↦
          here (ap some (bytes_eq→eq path link (both (on_cache link) (bytes_eq path link) e).1))
      | inr later ↦ there (any_link-In path links later)
    ]

In-any_link :
    (path : Bytes) (links : List (Option Bytes))
    → on_cache path ≡ true
    → In (some path) links
    → any_link path links ≡ true
In-any_link path [] c m = elim m [ ]
In-any_link path (l ∷ links) c m = elim (In-cases m) [
  | inl e ↦ rw (← e, c, bytes_eq_refl path) refl
  | inr later ↦ by_rest (is_link path l) (any_link path links) (In-any_link path links c later)
]
  where
    by_rest : (a b : Bool) → b ≡ true → (a || b) ≡ true
    by_rest true b e = refl
    by_rest false b e = e

is_open-HasOpen : (ps : List Process) (path : Bytes) → is_open ps path ≡ true → HasOpen ps path
is_open-HasOpen [] path h = absurd (cc)
is_open-HasOpen (p ∷ ps) path h = elim (either (opens path p) (is_open ps path) h) [
  | inr later ↦
      let (q, m, number, rest) = is_open-HasOpen ps path later in (q, there m, number, rest)
  | inl e ↦ let (number, rest) = by_links p.name p.links e in (p, here refl, number, rest)
]
  where
    by_links :
        (name : Bytes) (o : Option (List (Option Bytes)))
        → (all_digits name && (elim o [ none ↦ false | some links ↦ any_link path links ])) ≡ true
        → IsNumber name × ((links : List (Option Bytes)) × (o ≡ some links) × In (some path) links)
    by_links name none e = absurd (never (both (all_digits name) false e).1)
      where
        never : false ≡ true → ⊥
        never e = absurd (cc)
    by_links name (some links) e =
        let (number, any) = both (all_digits name) (any_link path links) e in
        (all_digits-IsNumber name number, (links, refl, any_link-In path links any))

pub HasOpen-is_open :
    (ps : List Process) (path : Bytes)
    → on_cache path ≡ true
    → HasOpen ps path
    → is_open ps path ≡ true
HasOpen-is_open [] path c (p, m, number, rest) = elim m [ ]
HasOpen-is_open (q ∷ ps) path c (p, m, number, (links, has, i)) = elim (In-cases m) [
  | inl e ↦ rw (← e, IsNumber-all_digits p.name number, has, In-any_link path links c i) refl
  | inr later ↦
      by_rest (opens path q) (is_open ps path)
        (HasOpen-is_open ps path c (p, later, number, (links, has, i)))
]
  where
    by_rest : (a b : Bool) → b ≡ true → (a || b) ≡ true
    by_rest true b e = refl
    by_rest false b e = e

-- an entry of the list after the open files were struck
abbrev pub Struck : List Process → Option (Option Bytes) → Option (Option Bytes) → Type 0
Struck ps none after = after ≡ none
Struck ps (some none) after = after ≡ some none
Struck ps (some (some path)) after =
    (HasOpen ps path × (after ≡ some none)) ⊎ ((HasOpen ps path → ⊥) × (after ≡ some (some path)))

-- Where /proc opens and the files of the list are below /cache/, exactly the files to which a descriptor
-- of a process is a link are struck from the list, and everything else keeps its place.
pub eliminate_open_files-Struck :
    (ps : List Process) (files : List (Option Bytes))
    → ((path : Bytes) → In (some path) files → (rest : Bytes) × (path ≡ codes "/cache/" ++ rest))
    → (kept : List (Option Bytes)) × (eliminate_open_files (some ps) files ≡ some kept)
      × ((i : ℕ) → Struck ps (get_elem? files i) (get_elem? kept i))
eliminate_open_files-Struck ps files below =
    (map (unless (is_open ps)) files, eliminate_open_files-unless ps files, by_place files below)
  where
    by_place :
        (files : List (Option Bytes))
        → ((path : Bytes)
            → In (some path) files
            → (rest : Bytes) × (path ≡ codes "/cache/" ++ rest))
        → (i : ℕ) → Struck ps (get_elem? files i) (get_elem? (map (unless (is_open ps)) files) i)
    by_place [] below i = refl
    by_place (none ∷ files) below zero = refl
    by_place (some path ∷ files) below zero = elim (Bool-cases (is_open ps path)) [
      | inl e ↦ rw (e) (inl (is_open-HasOpen ps path e, refl))
      | inr e ↦
          let (rest, spelled) = below path (here refl) in
          let cache : on_cache path ≡ true =
            ap on_cache spelled ∙ bytes_eq_refl (codes "/cache/") in
          rw (e) (inr ((λ h. cc (e, HasOpen-is_open ps path cache h)), refl))
    ]
    by_place (file ∷ files) below (suc i) = by_place files (λ path m. below path (there m)) i
