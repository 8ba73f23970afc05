-- ===== src/Edify/Lookup.antt =====
-- FindFunction and the registered functions (edify/expr.c).
use Prim.Native.Nat.{Ordering}
use native.Mathlib.Decide.{dec_lt, ℕ_discrete}
use open_recovery.Base.{
  subst, Bool-cases, ℕ, zero, suc, ◌+◌, ◌/◌, ◌<◌, ◌≤◌, ◌≡◌, ◌≢◌, ◌⊎◌, inl, inr, refl, ap, sym, ◌∙◌,
  List, [], ◌∷◌, none, some, Option-cases, Bytes, length, get_elem?, get_elem?-lt, lt-get_elem?,
  arith, bytes_eq, bytes_eq_iff,
}
use open_recovery.Edify.Table.{
  NamedFunction, FunctionTable, strcmp, sort_entries, bsearch, entry_fn, find_function,
  finish_registration,
}
use open_recovery.Edify.Sorted.{
  Before, Before-trans, Before-of_gt, strcmp-eq, strcmp_refl, AllAfter, IsSorted, lookup_name,
  AllDistinct, lookup-sort_entries, sort_entries-IsSorted,
}

after_at :
    (a : Bytes) (es : List NamedFunction) (i : ℕ) (e : NamedFunction)
    → AllAfter a es
    → get_elem? es i ≡ some e
    → Before a e.name
after_at a [] i e h p = absurd (ground arith)
after_at a (b ∷ es) zero e h p =
    subst {A = NamedFunction} (λ x. Before a x.name) {x = b} {y = e} (cc) h.0
after_at a (b ∷ es) (suc i) e h p = after_at a es i e h.1 p

Before-at :
    (es : List NamedFunction) (i j : ℕ) (a b : NamedFunction)
    → IsSorted es
    → i < j
    → get_elem? es i ≡ some a
    → get_elem? es j ≡ some b
    → Before a.name b.name
Before-at [] i j a b s h p q = absurd (ground arith)
Before-at (e ∷ es) i zero a b s h p q = absurd (omega arith)
Before-at (e ∷ es) zero (suc j) a b s h p q =
    subst {A = NamedFunction} (λ x. Before x.name b.name) {x = e} {y = a} (cc)
      (after_at e.name es j b s.0 q)
Before-at (e ∷ es) (suc i) (suc j) a b s h p q = Before-at es i j a b s.1 (omega arith) p q

lookup-some :
    (name : Bytes) (es : List NamedFunction) (e : NamedFunction)
    → lookup_name name es ≡ some e
    → (i : ℕ) × (get_elem? es i ≡ some e) × (e.name ≡ name)
unfolding lookup_name
lookup-some name [] e h = absurd (ground arith)
lookup-some name (b ∷ es) e h = elim (Bool-cases (bytes_eq b.name name)) [
  | inl same ↦ (0, ground arith, ground (arith, bytes_eq_iff b.name name))
  | inr other ↦ let (i, p, q) = lookup-some name es e (ground arith) in (suc i, p, q)
]

lookup-none :
    (name : Bytes) (es : List NamedFunction) (i : ℕ) (e : NamedFunction)
    → lookup_name name es ≡ none
    → get_elem? es i ≡ some e
    → e.name ≢ name
unfolding lookup_name
lookup-none name [] i e h p = ground arith
lookup-none name (b ∷ es) zero e h p = ground (arith, bytes_eq_iff b.name name)
lookup-none name (b ∷ es) (suc i) e h p = lookup-none name es i e (ground arith) p

Ordering-cases : (o : Ordering) → (o ≡ Ordering.lt) ⊎ ((o ≡ Ordering.eq) ⊎ (o ≡ Ordering.gt))
Ordering-cases Ordering.lt = inl refl
Ordering-cases Ordering.eq = inr (inl refl)
Ordering-cases Ordering.gt = inr (inr refl)

-- What the search returns stands in the array under the key.
bsearch-some :
    (fuel : ℕ) (key : Bytes) (es : List NamedFunction) (lo hi : ℕ) (e : NamedFunction)
    → bsearch fuel key es lo hi ≡ some e
    → (i : ℕ) × (get_elem? es i ≡ some e) × (e.name ≡ key)
unfolding bsearch
bsearch-some zero key es lo hi e h = absurd (ground arith)
bsearch-some (suc fuel) key es lo hi e h = elim (Option-cases (get_elem? es ((lo + hi) / 2))) [
  | inl out ↦ absurd (ground arith)
  | inr (m, at) ↦ elim (Ordering-cases (strcmp key m.name)) [
    | inl before ↦ bsearch-some fuel key es lo ((lo + hi) / 2) e (ground arith)
    | inr (inl same) ↦ (((lo + hi) / 2), ground arith, ground (arith, strcmp-eq key m.name same))
    | inr (inr after) ↦ bsearch-some fuel key es (suc ((lo + hi) / 2)) hi e (ground arith)
  ]
]

not-Before_self : (a : Bytes) → ¬ Before a a
not-Before_self a h = cc (strcmp_refl a)

same_name :
    (es : List NamedFunction) (i j : ℕ) (a b : NamedFunction)
    → i ≡ j
    → get_elem? es i ≡ some a
    → get_elem? es j ≡ some b
    → a.name ≡ b.name
same_name es i j a b e p q = let same : a ≡ b = cc in ap (λ (x : NamedFunction). x.name) same

module _ (es : List NamedFunction) (sorted : IsSorted es) where
  -- the order of the names is the order of the places
  index-lt :
      (i j : ℕ) (a b : NamedFunction)
      → get_elem? es i ≡ some a
      → get_elem? es j ≡ some b
      → Before a.name b.name
      → i < j
  index-lt i j a b p q h = elim (dec_lt i j) [
    | yes lt ↦ lt
    | no ge ↦ elim (ℕ_discrete i j) [
      | yes same ↦ absurd (not-Before_self b.name (rw (same_name es i j a b same p q) at h))
      | no other ↦
          let back = Before-at es j i b a sorted (omega arith) q p in
          absurd (not-Before_self a.name (Before-trans a.name b.name a.name h back))
    ]
  ]

  index-eq :
      (i j : ℕ) (a b : NamedFunction)
      → get_elem? es i ≡ some a
      → get_elem? es j ≡ some b
      → a.name ≡ b.name
      → a ≡ b
  index-eq i j a b p q e = elim (ℕ_discrete i j) [
    | yes same ↦ cc
    | no other ↦ elim (dec_lt i j) [
      | yes lt ↦
          let h = Before-at es i j a b sorted lt p q in absurd (not-Before_self b.name (rw e at h))
      | no ge ↦
          let h = Before-at es j i b a sorted (omega arith) q p in
          absurd (not-Before_self b.name (rw e at h))
    ]
  ]

  -- with enough fuel, an entry of the interval is found by its name
  bsearch_complete :
      (fuel lo hi k : ℕ) (e : NamedFunction)
      → hi < lo + fuel
      → hi ≤ length es
      → lo ≤ k
      → k < hi
      → get_elem? es k ≡ some e
      → bsearch fuel e.name es lo hi ≡ some e
  unfolding bsearch
  bsearch_complete zero lo hi k e f n a b p = absurd (omega arith)
  bsearch_complete (suc fuel) lo hi k e f n a b p =
      let mid = (lo + hi) / 2 in
      let (m, at) = get_elem?-lt es mid (omega arith) in
      elim (Ordering-cases (strcmp e.name m.name)) [
        | inl before ↦
            let below = index-lt k mid e m p at before in
            let ih = bsearch_complete fuel lo mid k e (omega arith) (omega arith) a below p in
            ground arith
        | inr (inl same) ↦
            let found = index-eq mid k m e at p (sym (strcmp-eq e.name m.name same)) in ground arith
        | inr (inr after) ↦
            let above = index-lt mid k m e at p (Before-of_gt e.name m.name after) in
            let ih = bsearch_complete fuel (suc mid) hi k e (omega arith) n above b p in
            ground arith
      ]

  bsearch-lookup :
      (name : Bytes) → bsearch (suc (length es)) name es 0 (length es) ≡ lookup_name name es
  bsearch-lookup name = elim (Option-cases (lookup_name name es)) [
    | inr (e, found) ↦
        let (i, p, q) = lookup-some name es e found in
        let inside = lt-get_elem? es i p in
        let there =
          bsearch_complete (suc (length es)) 0 (length es) i e (omega arith) (omega arith)
            (omega arith) inside p in
        cc (there, found, q)
    | inl missing ↦ elim (Option-cases (bsearch (suc (length es)) name es 0 (length es))) [
      | inl e ↦ e ∙ sym missing
      | inr (e, found) ↦
          let (i, p, q) = bsearch-some (suc (length es)) name es 0 (length es) e found in
          absurd (lookup-none name es i e missing p q)
    ]
  ]

-- With no name used twice, after the sorting FindFunction finds the function that was registered
-- under a name, and nothing if there is none.
pub find_function-finish_registration :
    (table : FunctionTable) (name : Bytes)
    → AllDistinct table.entries
    → find_function (finish_registration table) name ≡ entry_fn (lookup_name name table.entries)
unfolding find_function finish_registration
find_function-finish_registration table name d = ap entry_fn (
    bsearch-lookup (sort_entries table.entries) (sort_entries-IsSorted table.entries d) name
    ∙ lookup-sort_entries name table.entries d)
