-- ===== src/Minzip/Zip/Filled.antt =====
-- The hash table of an archive (minzip/Zip.c, minzip/Hash.c): what addEntryToHashTable makes of it, and
-- what mzFindZipEntry finds in it.
use native.Mathlib.Decide.{dec_lt}
use open_recovery.Base.{
  ℕ, zero, suc, ◌+◌, ◌^◌, ◌≤◌, ◌<◌, ◌≡◌, ◌≢◌, ◌⊎◌, inl, inr, refl, sym, ap, ◌∙◌, subst, Bool, true,
  false, ◌&&◌, List, [], ◌∷◌, Option, none, some, Bytes, bytes_eq→eq, bytes_eq_refl, length,
  get_elem?, get_elem?-lt, lt-get_elem?, ◌==◌, ==_iff, Bool-cases, Option-cases, if◌then◌else◌,
  arith,
}
use open_recovery.Minzip.Hash.{Ptr, item, Slot, HashTable, create}
use open_recovery.Minzip.Hash.Contents.{Cell-cases, sum, total}
use open_recovery.Minzip.Hash.Valid.{IsValid}
use open_recovery.Minzip.Hash.Create.{create-IsValid}
use open_recovery.Minzip.Hash.Lookup.{Stored, Added, Looked, found, absent, added, lookup-Looked}
use open_recovery.Minzip.Zip.{
  Result, done, bail, fault, ZipEntry, ZipArchive, name_hash, name_at, has_name, hashcmp_zip_entry,
  add_entry_to_hash_table, fill_hash, mz_find_zip_entry,
}

-- 1 for the item under the hash
abbrev mark : ℕ → Ptr → ℕ → Ptr → ℕ
mark h y a b = if (a == h) && (b == y) then 1 else 0

both : (a b : Bool) → (a && b) ≡ true → (a ≡ true) × (b ≡ true)
both true b e = (refl, e)
both false b e = cc

abbrev Held : List Slot → ℕ → Ptr → Type 0
Held ss h y =
    (i : ℕ) × (slot : Slot) × (get_elem? ss i ≡ some slot)
    × (slot.cell ≡ item y)
    × (slot.hash_value ≡ h)

marked-Held : (h : ℕ) (y : Ptr) (ss : List Slot) → 0 < total (mark h y) ss → Held ss h y
unfolding sum
marked-Held h y [] p = absurd (omega arith)
marked-Held h y (s ∷ ss) p =
    let later : 0 < total (mark h y) ss → Held (s ∷ ss) h y =
      λ q. let (i, slot, at, e, f) = marked-Held h y ss q in (suc i, slot, at, e, f) in
    elim (Cell-cases s.cell) [
      | inl e ↦ later (omega (arith, rw (e) at p))
      | inr (inl e) ↦ later (omega (arith, rw (e) at p))
      | inr (inr (x, e)) ↦ elim (Bool-cases ((s.hash_value == h) && (x == y))) [
        | inl b ↦
            let (hashed, one) = both (s.hash_value == h) (x == y) b in
            (0, s, refl, e ∙ ap item ((==_iff x y).0 one), (==_iff s.hash_value h).0 hashed)
        | inr b ↦ later (omega (arith, rw (e, b) at p))
      ]
    ]

Held-marked : (h : ℕ) (y : Ptr) (ss : List Slot) → Held ss h y → 0 < total (mark h y) ss
unfolding sum
Held-marked h y [] (i, slot, at, e, f) = absurd (ground arith)
Held-marked h y (s ∷ ss) (zero, slot, at, e, f) =
    let one : s ≡ slot = cc (at) in
    rw (one, e, f, (==_iff h h).1 refl, (==_iff y y).1 refl) (omega arith)
Held-marked h y (s ∷ ss) (suc i, slot, at, e, f) =
    omega (arith, Held-marked h y ss (i, slot, at, e, f))

Stored-Held : (t : HashTable) (h : ℕ) (y : Ptr) → Stored t h y → Held t.entries h y
Stored-Held t h y s = (s.index, s.slot, s.at, s.holds, s.hashed)

Held-Stored : (t : HashTable) (h : ℕ) (y : Ptr) → Held t.entries h y → Stored t h y
Held-Stored t h y (i, slot, at, e, f) = record {
  index = i;
  slot = slot;
  at = at;
  holds = e;
  hashed = f;
}

-- what is stored after an item was added
Added-Stored :
    (t t' : HashTable) (h : ℕ) (x : Ptr) (h' : ℕ) (y : Ptr)
    → Added t h x t'
    → Stored t' h' y
    → Stored t h' y ⊎ ((h ≡ h') × (x ≡ y))
Added-Stored t t' h x h' y a s = elim (Bool-cases ((h == h') && (x == y))) [
  | inl b ↦ let (e, f) = both (h == h') (x == y) b in inr ((==_iff h h').0 e, (==_iff x y).0 f)
  | inr b ↦
      let kept : total (mark h' y) t'.entries ≡ total (mark h' y) t.entries + 0 =
        rw (b) at (a.holds (mark h' y)) in
      inl (
        Held-Stored t h' y (
          marked-Held h' y t.entries
            (omega (arith, kept, Held-marked h' y t'.entries (Stored-Held t' h' y s)))))
]

Stored-Added :
    (t t' : HashTable) (h : ℕ) (x : Ptr) (h' : ℕ) (y : Ptr)
    → Added t h x t'
    → Stored t h' y
    → Stored t' h' y
Stored-Added t t' h x h' y a s = Held-Stored t' h' y (
    marked-Held h' y t'.entries
      (omega (arith, a.holds (mark h' y), Held-marked h' y t.entries (Stored-Held t h' y s))))

new-Stored : (t t' : HashTable) (h : ℕ) (x : Ptr) → Added t h x t' → Stored t' h x
new-Stored t t' h x a =
    let more : total (mark h x) t'.entries ≡ total (mark h x) t.entries + 1 =
      rw ((==_iff h h).1 refl, (==_iff x x).1 refl) at (a.holds (mark h x)) in
    Held-Stored t' h x (marked-Held h x t'.entries (omega (arith, more)))

-- The table has the first `n` entries: what is stored is one of them, under the hash of its name, and
-- each name of theirs is found.
pub record Filled (entries : List ZipEntry) (n : ℕ) (t : HashTable) : Type 0 where
  pub valid : IsValid t
  pub sound :
      (h : ℕ) (y : Ptr)
      → Stored t h y
      → (name : Bytes) × (name_at entries y ≡ some name) × (h ≡ name_hash name)
  pub complete :
      (j : ℕ) (name : Bytes)
      → j < n
      → name_at entries j ≡ some name
      → (y : ℕ) × Stored t (name_hash name) y × (name_at entries y ≡ some name)

module _ (entries : List ZipEntry) where
  has_name-eq :
      (i : ℕ) (name : Bytes) → has_name entries name i ≡ true → name_at entries i ≡ some name
  has_name-eq i name h = elim (Option-cases (name_at entries i)) [
    | inl e ↦ absurd (none_found (rw (e, has_name) at h))
    | inr (n, e) ↦ e ∙ ap some (bytes_eq→eq n name (rw (e, has_name) at h))
  ]
    where
      none_found : false ≡ true → ⊥
      none_found e = absurd (cc)

  eq-has_name :
      (i : ℕ) (name : Bytes) → name_at entries i ≡ some name → has_name entries name i ≡ true
  eq-has_name i name e = rw (e, has_name) (bytes_eq_refl name)

  -- the entries before the last, and the last
  step :
      (n : ℕ) (t t' : HashTable) (name : Bytes) (found' : ℕ)
      → name_at entries n ≡ some name
      → Filled entries n t
      → Stored t (name_hash name) found'
      → name_at entries found' ≡ some name
      → t' ≡ t
      → Filled entries (suc n) t'
  step n t t' name y e f s at same = rw (same) (record {
    valid = f.valid;
    sound = f.sound;
    complete = λ j other l q. elim (dec_lt j n) [
      | yes before ↦ f.complete j other before q
      | no last ↦
          let here : j ≡ n = omega (arith, l, last) in
          let one : name ≡ other = cc (e, q, here) in rw (← one) (y, s, at)
    ];
  })

  step_new :
      (n : ℕ) (t t' : HashTable) (name : Bytes)
      → name_at entries n ≡ some name
      → Filled entries n t
      → Added t (name_hash name) n t'
      → Filled entries (suc n) t'
  step_new n t t' name e f a = record {
    valid = a.valid;
    sound = λ h y s. elim (Added-Stored t t' (name_hash name) n h y a s) [
      | inl old ↦ f.sound h y old
      | inr (same, one) ↦ (name, rw (← one) e, sym same)
    ];
    complete = λ j other l q. elim (dec_lt j n) [
      | yes before ↦
          let (y, s, at) = f.complete j other before q in
          (y, Stored-Added t t' (name_hash name) n (name_hash other) y a s, at)
      | no last ↦
          let here : j ≡ n = omega (arith, l, last) in
          let one : name ≡ other = cc (e, q, here) in
          rw (← one) (n, new-Stored t t' (name_hash name) n a, e)
    ];
  }

  add_entry-Filled :
      (n : ℕ) (t : HashTable)
      → n < length entries
      → Filled entries n t
      → (t' : HashTable) × (add_entry_to_hash_table entries t n ≡ done t')
        × Filled entries (suc n) t'
  unfolding add_entry_to_hash_table
  add_entry-Filled n t l f =
      let (e, at) = get_elem?-lt entries n l in
      let named : name_at entries n ≡ some e.file_name = rw (at, name_at) refl in
      let (r, t', run, looked) =
        lookup-Looked t (name_hash e.file_name) n (hashcmp_zip_entry entries) true f.valid in
      (t', rw (named, run, add_entry_to_hash_table) refl, by_lookup e.file_name named r t' looked)
    where
      by_lookup :
          (name : Bytes)
          → name_at entries n ≡ some name
          → (r : Option Ptr) (t' : HashTable)
          → Looked t (name_hash name) n (hashcmp_zip_entry entries) true r t'
          → Filled entries (suc n) t'
      by_lookup name named r t' (found y s accepted same) =
          step n t t' name y named f s
            (has_name-eq y name (rw (named, hashcmp_zip_entry) at accepted)) same
      by_lookup name named r t' (added none_there a) = step_new n t t' name named f a

  pub fill_hash-Filled :
      (n : ℕ) (t : HashTable)
      → n ≤ length entries
      → Filled entries 0 t
      → (t' : HashTable) × (fill_hash entries t n ≡ done t') × Filled entries n t'
  unfolding fill_hash
  fill_hash-Filled zero t l f = (t, refl, f)
  fill_hash-Filled (suc n) t l f =
      let (t₁, run, f₁) = fill_hash-Filled n t (omega arith) f in
      let (t₂, run', f₂) = add_entry-Filled n t₁ (omega arith) f₁ in (t₂, rw (run) run', f₂)

  pub create-Filled : (size : ℕ) → 0 < size → size ≤ 2 ^ 30 → Filled entries 0 (create size)
  create-Filled size p small =
      let (valid, nothing, big, little) = create-IsValid size p small in
      record {
        valid = valid;
        sound = λ h y s. absurd (
            omega (
              arith,
              nothing (mark h y),
              Held-marked h y (create size).entries (Stored-Held (create size) h y s),
            ));
        complete = λ j name l e. absurd (omega arith);
      }

-- what is found for a name: an entry that has it, or nothing where none has
abbrev pub FoundEntry : List ZipEntry → Bytes → Result (Option ℕ) → Type 0
FoundEntry entries name (done (some i)) = name_at entries i ≡ some name
FoundEntry entries name (done none) = (j : ℕ) → name_at entries j ≢ some name
FoundEntry entries name bail = ⊥
FoundEntry entries name fault = ⊥

pub mz_find_zip_entry-FoundEntry :
    (archive : ZipArchive) (name : Bytes)
    → Filled archive.entries (length archive.entries) archive.hash
    → FoundEntry archive.entries name (mz_find_zip_entry archive name)
unfolding mz_find_zip_entry
mz_find_zip_entry-FoundEntry archive name f =
    let (r, t', run, looked) =
      lookup-Looked archive.hash (name_hash name) 0 (λ i _. has_name archive.entries name i) false
        f.valid in
    let result : mz_find_zip_entry archive name ≡ done r = rw (run, mz_find_zip_entry) refl in
    subst (FoundEntry archive.entries name) (sym result) (by_lookup r t' looked)
  where
    in_range : (j : ℕ) → name_at archive.entries j ≡ some name → j < length archive.entries
    in_range j e = elim (Option-cases (get_elem? archive.entries j)) [
      | inl out ↦ absurd (none_there (rw (out, name_at) at e))
      | inr (x, at) ↦ lt-get_elem? archive.entries j at
    ]
      where
        none_there : ◌≡◌ {A = Option Bytes} none (some name) → ⊥
        none_there e = absurd (cc)

    by_lookup :
        (r : Option Ptr) (t' : HashTable)
        → Looked archive.hash (name_hash name) 0 (λ i _. has_name archive.entries name i) false r t'
        → FoundEntry archive.entries name (done r)
    by_lookup r t' (found y s accepted same) = has_name-eq archive.entries y name accepted
    by_lookup r t' (absent nothing same) = λ j e.
        let (y, s, at) = f.complete j name (in_range j e) e in
        cc (nothing y s, eq-has_name archive.entries y name at)
