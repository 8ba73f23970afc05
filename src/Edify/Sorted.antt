-- ===== src/Edify/Sorted.antt =====
-- The order of strcmp, and the sorting of the function table (edify/expr.c).
use Prim.Native.Nat.{Ordering}
use open_recovery.Base.{
  ◌≡◌, refl, ◌∙◌, List, [], ◌∷◌, Option, none, some, Bytes, if◌then◌else◌, arith, bytes_eq,
  bytes_eq_iff,
}
use open_recovery.Edify.Table.{NamedFunction, strcmp, insert_entry, sort_entries}

abbrev pub Before : Bytes → Bytes → Type 0
Before a b = strcmp a b ≡ Ordering.lt

pub strcmp-eq : (a b : Bytes) → strcmp a b ≡ Ordering.eq → a ≡ b
unfolding strcmp
strcmp-eq [] [] h = refl
strcmp-eq [] (y ∷ ys) h = cc
strcmp-eq (x ∷ xs) [] h = cc
strcmp-eq (x ∷ xs) (y ∷ ys) h = ground (arith, strcmp-eq xs ys)

pub strcmp_refl : (a : Bytes) → strcmp a a ≡ Ordering.eq
unfolding strcmp
strcmp_refl [] = refl
strcmp_refl (x ∷ xs) = ground (arith, strcmp_refl xs)

pub Before-of_gt : (a b : Bytes) → strcmp a b ≡ Ordering.gt → Before b a
unfolding strcmp
Before-of_gt [] [] h = cc
Before-of_gt [] (y ∷ ys) h = cc
Before-of_gt (x ∷ xs) [] h = refl
Before-of_gt (x ∷ xs) (y ∷ ys) h = ground (arith, Before-of_gt xs ys)

pub Before-trans : (a b c : Bytes) → Before a b → Before b c → Before a c
unfolding strcmp
Before-trans [] [] c h k = cc
Before-trans [] (y ∷ ys) [] h k = cc
Before-trans [] (y ∷ ys) (z ∷ zs) h k = refl
Before-trans (x ∷ xs) [] c h k = cc
Before-trans (x ∷ xs) (y ∷ ys) [] h k = cc
Before-trans (x ∷ xs) (y ∷ ys) (z ∷ zs) h k = ground (arith, Before-trans xs ys zs)

-- every name of the list comes after `a`
abbrev pub AllAfter : Bytes → List NamedFunction → Type 0
AllAfter a [] = Unit
AllAfter a (e ∷ es) = Before a e.name × AllAfter a es

abbrev pub IsSorted : List NamedFunction → Type 0
IsSorted [] = Unit
IsSorted (e ∷ es) = AllAfter e.name es × IsSorted es

-- the first function registered under `name`
unfoldable pub lookup_name : Bytes → List NamedFunction → Option NamedFunction
lookup_name name [] = none
lookup_name name (e ∷ es) = if bytes_eq e.name name then some e else lookup_name name es

-- no name is used twice
abbrev pub IsFresh : Bytes → List NamedFunction → Type 0
IsFresh a es = lookup_name a es ≡ none

abbrev pub AllDistinct : List NamedFunction → Type 0
AllDistinct [] = Unit
AllDistinct (e ∷ es) = IsFresh e.name es × AllDistinct es

lookup-insert_entry :
    (name : Bytes) (a : NamedFunction) (es : List NamedFunction)
    → IsFresh a.name es
    → lookup_name name (insert_entry a es) ≡ lookup_name name (a ∷ es)
unfolding lookup_name insert_entry
lookup-insert_entry name a [] h = refl
lookup-insert_entry name a (b ∷ es) h = ground (
  arith,
  lookup-insert_entry name a es,
  bytes_eq_iff b.name name,
  bytes_eq_iff a.name name,
  bytes_eq_iff b.name a.name,
)

AllAfter-trans :
    (a b : Bytes) (es : List NamedFunction) → Before a b → AllAfter b es → AllAfter a es
AllAfter-trans a b [] h k = tt
AllAfter-trans a b (e ∷ es) h k = (Before-trans a b e.name h k.0, AllAfter-trans a b es h k.1)

AllAfter-insert_entry :
    (x : Bytes) (a : NamedFunction) (es : List NamedFunction)
    → Before x a.name
    → AllAfter x es
    → AllAfter x (insert_entry a es)
unfolding insert_entry
AllAfter-insert_entry x a [] h k = (h, tt)
AllAfter-insert_entry x a (b ∷ es) h k =
    elim (strcmp a.name b.name)
      as (λ o. AllAfter x (elim o [ Ordering.gt ↦ b ∷ insert_entry a es | _ ↦ a ∷ b ∷ es ])) [
        | Ordering.gt ↦ (k.0, AllAfter-insert_entry x a es h k.1)
        | Ordering.lt ↦ (h, k)
        | Ordering.eq ↦ (h, k)
      ]

insert_entry-IsSorted :
    (a : NamedFunction) (es : List NamedFunction)
    → IsFresh a.name es
    → IsSorted es
    → IsSorted (insert_entry a es)
unfolding insert_entry lookup_name
insert_entry-IsSorted a [] f s = (tt, tt)
insert_entry-IsSorted a (b ∷ es) f s =
    by_order (strcmp a.name b.name) refl (λ g. insert_entry-IsSorted a es g s.1)
  where
    by_order :
        (o : Ordering)
        → strcmp a.name b.name ≡ o
        → (IsFresh a.name es → IsSorted (insert_entry a es))
        → IsSorted (elim o [ Ordering.gt ↦ b ∷ insert_entry a es | _ ↦ a ∷ b ∷ es ])
    by_order Ordering.lt e rest = ((e, AllAfter-trans a.name b.name es e s.0), s)
    by_order Ordering.eq e rest =
        absurd (ground (arith, strcmp-eq a.name b.name, bytes_eq_iff b.name a.name))
    by_order Ordering.gt e rest =
        (AllAfter-insert_entry b.name a es (Before-of_gt a.name b.name e) s.0, rest (ground arith))

-- Over distinct names, sorting keeps what is found under a name.
pub lookup-sort_entries :
    (name : Bytes) (es : List NamedFunction)
    → AllDistinct es
    → lookup_name name (sort_entries es) ≡ lookup_name name es
unfolding sort_entries lookup_name
lookup-sort_entries name [] d = refl
lookup-sort_entries name (a ∷ es) d =
    lookup-insert_entry name a (sort_entries es) (lookup-sort_entries a.name es d.1 ∙ d.0)
    ∙ lookup-cons name a (sort_entries es) es (lookup-sort_entries name es d.1)
  where
    lookup-cons :
        (name : Bytes) (a : NamedFunction) (xs ys : List NamedFunction)
        → lookup_name name xs ≡ lookup_name name ys
        → lookup_name name (a ∷ xs) ≡ lookup_name name (a ∷ ys)
    lookup-cons name a xs ys e = ground arith

pub sort_entries-IsSorted : (es : List NamedFunction) → AllDistinct es → IsSorted (sort_entries es)
unfolding sort_entries
sort_entries-IsSorted [] d = tt
sort_entries-IsSorted (a ∷ es) d =
    insert_entry-IsSorted a (sort_entries es) (lookup-sort_entries a.name es d.1 ∙ d.0)
      (sort_entries-IsSorted es d.1)
