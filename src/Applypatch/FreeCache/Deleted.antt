-- ===== src/Applypatch/FreeCache/Deleted.antt =====
-- MakeFreeSpaceOnCache of applypatch/freecache.c.
use open_recovery.Base.{
  ℕ, ◌-◌, ◌^◌, ◌<◌, ◌≡◌, inl, inr, In, here, there, In-cases, refl, sym, ap, Bool, true, false,
  List, [], ◌∷◌, Option, none, some, Bytes, codes, ltb, leb, ltb→lt, Bool-cases, arith,
}
use open_recovery.Applypatch.FreeCache.{
  Os, find_expendable_files, free_now, free_space_for_file, delete_files, make_free_space_on_cache,
}
use open_recovery.Applypatch.FreeCache.Expendable.{IsExpendable, find_expendable_files-IsExpendable}

all_of : (needed : ℕ) → needed < 2 ^ 32 → leb needed (2 ^ 32 - 1) ≡ true
all_of needed h = ground arith

module _ (os : Os) where
  open os use {World, entries, is_regular, processes, unlink, statfs}

  abbrev pub unlink_all : World → List Bytes → World
  unlink_all w [] = w
  unlink_all w (path ∷ paths) = unlink_all (unlink w path) paths

  -- at each deletion there was still too little room
  abbrev pub AllNeeded : ℕ → World → List Bytes → Type 0
  AllNeeded needed w [] = Unit
  AllNeeded needed w (path ∷ paths) =
      (free_now os w < needed) × AllNeeded needed (unlink w path) paths

  record Run (needed : ℕ) (w : World) (names : List (Option Bytes)) (end : World) (left : ℕ)
      (deleted : List Bytes) : Type 0 where
    counted : left ≡ free_now os end
    unlinked : end ≡ unlink_all w deleted
    necessary : AllNeeded needed w deleted
    listed : (path : Bytes) → In path deleted → In (some path) names

  stop :
      (needed : ℕ) (w : World) (free : ℕ) (names : List (Option Bytes))
      → free ≡ free_now os w
      → Run needed w names w free []
  stop needed w free names e = record {
    counted = e;
    unlinked = refl;
    necessary = tt;
    listed = λ path m. elim m [ ];
  }

  delete_files-Run :
      (needed : ℕ) (w : World) (free : ℕ) (names : List (Option Bytes))
      → free ≡ free_now os w
      → (end : World) × (left : ℕ) × (deleted : List Bytes) × (delete_files os needed w free names
          ≡ (end, left, deleted))
        × Run needed w names end left deleted
  unfolding delete_files
  delete_files-Run needed w free [] e = (w, free, [], refl, stop needed w free [] e)
  delete_files-Run needed w free (none ∷ names) e =
      let (end, left, deleted, run, r) = delete_files-Run needed w free names e in
      elim (Bool-cases (ltb free needed)) [
        | inl t ↦ (
          end,
          left,
          deleted,
          rw (t) run,
          record {
            counted = r.counted;
            unlinked = r.unlinked;
            necessary = r.necessary;
            listed = λ path m. there (r.listed path m);
          },
        )
        | inr t ↦ (w, free, [], rw (t) refl, stop needed w free (none ∷ names) e)
      ]
  delete_files-Run needed w free (some name ∷ names) e =
      let w' = unlink w name in
      let (end, left, deleted, run, r) = delete_files-Run needed w' (free_now os w') names refl in
      elim (Bool-cases (ltb free needed)) [
        | inl t ↦ (
          end,
          left,
          name ∷ deleted,
          rw (t, run) refl,
          record {
            counted = r.counted;
            unlinked = r.unlinked;
            necessary = (rw (← e) (ltb→lt free needed t), r.necessary);
            listed = λ path m. elim (In-cases m) [
              | inl same ↦ here (ap some same)
              | inr later ↦ there (r.listed path later)
            ];
          },
        )
        | inr t ↦ (w, free, [], rw (t) refl, stop needed w free (some name ∷ names) e)
      ]

  -- what MakeFreeSpaceOnCache did, from a state `w`
  pub record Made (needed : ℕ) (w : World) (made : Bool) (end : World) (deleted : List Bytes)
      : Type 0 where
    pub result : made ≡ leb needed (free_now os end)
    pub unlinked : end ≡ unlink_all w deleted
    pub necessary : AllNeeded needed w deleted
    pub expendable : (path : Bytes) → In path deleted → IsExpendable os w path

  nothing :
      (needed : ℕ) (w : World) (made : Bool)
      → made ≡ leb needed (free_now os w)
      → Made needed w made w []
  nothing needed w made e = record {
    result = e;
    unlinked = refl;
    necessary = tt;
    expendable = λ path m. elim m [ ];
  }

  -- MakeFreeSpaceOnCache returns 0 exactly where the number that FreeSpaceForFile gives for /cache
  -- in the end, 2 ^ 32 - 1 if statfs fails and otherwise the free bytes modulo 2 ^ 32, is at least
  -- what is needed. It changes nothing but by unlinking files; at each of them that number was
  -- still too small; and each is a regular file of /cache or /cache/recovery/otatest that is not
  -- CACHE_TEMP_SOURCE and to which no descriptor of a process is a link.
  pub make_free_space_on_cache-Made :
      (w : World) (needed : ℕ)
      → (made : Bool) × (end : World) × (deleted : List Bytes) × (make_free_space_on_cache os w
            needed
          ≡ (made, end, deleted))
        × Made needed w made end deleted
  unfolding make_free_space_on_cache
  make_free_space_on_cache-Made w needed = elim (Bool-cases (leb needed (free_now os w))) [
    | inl t ↦ (true, w, [], rw (t) refl, nothing needed w true (sym t))
    | inr t ↦ by_files t (find_expendable_files os w) refl
  ]
    where
      by_files :
          leb needed (free_now os w) ≡ false
          → (o : Option (List (Option Bytes))) → find_expendable_files os w ≡ o
          → (made : Bool) × (end : World) × (deleted : List Bytes) × (make_free_space_on_cache os w
                needed
              ≡ (made, end, deleted))
            × Made needed w made end deleted
      by_files t none e = (false, w, [], rw (t, e) refl, nothing needed w false (sym t))
      by_files t (some []) e = (false, w, [], rw (t, e) refl, nothing needed w false (sym t))
      by_files t (some (name ∷ names)) e =
          let (end, left, deleted, run, r) =
            delete_files-Run needed w (free_now os w) (name ∷ names) refl in
          (
            leb needed left,
            end,
            deleted,
            rw (t, e, run) refl,
            record {
              result = ap (λ n. leb needed n) r.counted;
              unlinked = r.unlinked;
              necessary = r.necessary;
              expendable = λ path m.
                  find_expendable_files-IsExpendable os w (name ∷ names) path e (r.listed path m);
            },
          )

  -- Where statfs fails on /cache, MakeFreeSpaceOnCache returns 0 for any number of bytes below 2 ^ 32,
  -- and nothing is unlinked.
  pub make_free_space_on_cache-no_statfs :
      (w : World) (needed : ℕ)
      → needed < 2 ^ 32
      → statfs w (codes "/cache") ≡ none
      → make_free_space_on_cache os w needed ≡ (true, w, [])
  unfolding make_free_space_on_cache free_space_for_file
  make_free_space_on_cache-no_statfs w needed h e =
      simp (make_free_space_on_cache, free_space_for_file, e, all_of needed h)
