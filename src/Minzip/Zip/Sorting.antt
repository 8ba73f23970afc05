-- ===== src/Minzip/Zip/Sorting.antt =====
-- The order of names and the sorted insertion of minzip/Zip.c.
use open_recovery.Base.{
  ℕ, zero, suc, ◌+◌, ◌-◌, ◌/◌, ◌≤◌, ◌<◌, ◌≡◌, ◌≢◌, ◌⊎◌, inl, inr, refl, sym, ap, subst, true, false,
  List, [], ◌∷◌, ◌++◌, some, Bytes, In, In-cases, here, there, lt-get_elem?, length, length-append,
  length-take, length-drop, get_elem?, take, drop, ltb, leb, ltb→lt, ltb-eq-false, Bool-cases,
  get_elem?-lt, arith,
}
use open_recovery.Minzip.Zip.{
  Result, done, bail, fault, ZipEntry, Order, before, same, after, compare_names, find_target,
  insert_at, insert_sorted,
}

pub not_less : (a b : ℕ) → ltb a b ≡ false → b ≤ a
not_less a b h = ground arith

pub le→leb : (a b : ℕ) → a ≤ b → leb a b ≡ true
le→leb a b h = ground arith

pub Order-cases : (o : Order) → (o ≡ before) ⊎ ((o ≡ same) ⊎ (o ≡ after))
Order-cases before = inl refl
Order-cases same = inr (inl refl)
Order-cases after = inr (inr refl)

-- a name is not after another
abbrev pub Le : Bytes → Bytes → Type 0
Le a b = compare_names a b ≢ after

pub compare_names-same : (a : Bytes) → compare_names a a ≡ same
unfolding compare_names
compare_names-same [] = refl
compare_names-same (c ∷ a) = rw (ltb-eq-false c c (omega arith)) (compare_names-same a)

pub same-eq : (a b : Bytes) → compare_names a b ≡ same → a ≡ b
unfolding compare_names
same-eq [] [] h = refl
same-eq [] (b ∷ bs) h = absurd (cc)
same-eq (a ∷ as') [] h = absurd (cc)
same-eq (a ∷ as') (b ∷ bs) h = ground (arith, same-eq as' bs)

pub Le-before : (a b : Bytes) → compare_names a b ≡ after → compare_names b a ≡ before
unfolding compare_names
Le-before [] [] h = absurd (cc)
Le-before [] (b ∷ bs) h = absurd (cc)
Le-before (a ∷ as') [] h = refl
Le-before (a ∷ as') (b ∷ bs) h = ground (arith, Le-before as' bs)

pub Le-trans : (a b c : Bytes) → Le a b → Le b c → Le a c
unfolding compare_names
Le-trans [] b [] h k = λ e. cc
Le-trans [] b (c ∷ cs) h k = λ e. cc
Le-trans (a ∷ as') [] c h k = absurd (h refl)
Le-trans (a ∷ as') (b ∷ bs) [] h k = absurd (k refl)
Le-trans (a ∷ as') (b ∷ bs) (c ∷ cs) h k = ground (arith, Le-trans as' bs cs)

abbrev pub AllIn : (ZipEntry → Type 0) → List ZipEntry → Type 0
AllIn P xs = (x : ZipEntry) → In x xs → P x

abbrev pub IsSorted : List ZipEntry → Type 0
IsSorted [] = Unit
IsSorted (x ∷ xs) = AllIn (λ y. Le x.file_name y.file_name) xs × IsSorted xs

In-get_elem? : (xs : List ZipEntry) (i : ℕ) {x : ZipEntry} → get_elem? xs i ≡ some x → In x xs
In-get_elem? [] i h = absurd (ground arith)
In-get_elem? (y ∷ xs) zero h = here (cc (h))
In-get_elem? (y ∷ xs) (suc i) h = there (In-get_elem? xs i h)

sorted_at :
    (xs : List ZipEntry) (i j : ℕ) (x y : ZipEntry)
    → IsSorted xs
    → i ≤ j
    → get_elem? xs i ≡ some x
    → get_elem? xs j ≡ some y
    → Le x.file_name y.file_name
sorted_at [] i j x y s h p q = absurd (ground arith)
sorted_at (z ∷ xs) zero zero x y s h p q =
    let one : x ≡ y = cc in rw (one) (λ e. cc (e, compare_names-same y.file_name))
sorted_at (z ∷ xs) zero (suc j) x y s h p q =
    let first : z ≡ x = cc in
    subst {A = ZipEntry} (λ u. Le u.file_name y.file_name) first (s.0 y (In-get_elem? xs j q))
sorted_at (z ∷ xs) (suc i) zero x y s h p q = absurd (omega arith)
sorted_at (z ∷ xs) (suc i) (suc j) x y s h p q = sorted_at xs i j x y s.1 (omega arith) p q

-- what is before a place is not after the name, and what is behind not before it
pub record Splits (xs : List ZipEntry) (name : Bytes) (target : ℕ) : Type 0 where
  pub inside : target ≤ length xs
  pub below : (j : ℕ) (x : ZipEntry) → j < target → get_elem? xs j ≡ some x → Le x.file_name name
  pub above : (j : ℕ) (x : ZipEntry) → target ≤ j → get_elem? xs j ≡ some x → Le name x.file_name

abbrev pub Done : {A : Type 0} → (A → Type 0) → Result A → Type 0
Done P (done a) = P a
Done P bail = ⊥
Done P fault = ⊥

module _ (xs : List ZipEntry) (name : Bytes) (sorted : IsSorted xs) where
  find_target-Splits :
      (fuel low high : ℕ)
      → high ≤ low + fuel
      → low ≤ high
      → high ≤ length xs
      → ((j : ℕ) (x : ZipEntry) → j < low → get_elem? xs j ≡ some x → Le x.file_name name)
      → ((j : ℕ) (x : ZipEntry) → high ≤ j → get_elem? xs j ≡ some x → Le name x.file_name)
      → Done (Splits xs name) (find_target xs name fuel low high)
  unfolding find_target
  find_target-Splits zero low high f o i below above =
      rw (ltb-eq-false low high (omega (arith, f)))
        (record { inside = i; below = λ j x h e. below j x (omega (arith, h, f)) e; above = above })
  find_target-Splits (suc fuel) low high f o i below above = elim (Bool-cases (ltb low high)) [
    | inr e ↦ rw (e) (record {
      inside = i;
      below = λ j x h q. below j x (omega (arith, h, not_less low high e)) q;
      above = above;
    })
    | inl e ↦
        let l = ltb→lt low high e in
        let mid = low + (high - 1 - low) / 2 in
        let (y, at) = get_elem?-lt xs mid (omega (arith, l, i)) in
        elim (Order-cases (compare_names y.file_name name)) [
          | inl c ↦
              rw (e, at, c)
                (find_target-Splits fuel (mid + 1) high (omega (arith, f)) (omega (arith, l)) i
                  (λ j x h q.
                    Le-trans x.file_name y.file_name name
                      (sorted_at xs j mid x y sorted (omega (arith, h)) q at) (λ d. cc (c, d)))
                  above)
          | inr (inl c) ↦
              let one = same-eq y.file_name name c in
              rw (e, at, c)
                (record {
                  inside = omega (arith, l, i);
                  below =
                      λ j x h q. rw (← one) (sorted_at xs j mid x y sorted (omega (arith, h)) q at);
                  above =
                      λ j x h q. rw (← one) (sorted_at xs mid j y x sorted (omega (arith, h)) at q);
                })
          | inr (inr c) ↦
              rw (e, at, c)
                (find_target-Splits fuel low mid (omega (arith, f, l)) (omega arith)
                  (omega (arith, l, i)) below
                  (λ j x h q.
                    Le-trans name y.file_name x.file_name
                      (λ d. cc (d, Le-before y.file_name name c))
                      (sorted_at xs mid j y x sorted (omega (arith, h)) at q)))
        ]
  ]

In-append : (xs ys : List ZipEntry) {x : ZipEntry} → In x (xs ++ ys) → (In x xs) ⊎ (In x ys)
In-append [] ys h = inr h
In-append (z ∷ xs) ys h = elim (In-cases h) [
  | inl e ↦ inl (here e)
  | inr r ↦ elim (In-append xs ys r) [ inl l ↦ inl (there l) | inr k ↦ inr k ]
]

append-In : (xs ys : List ZipEntry) {x : ZipEntry} → (In x xs) ⊎ (In x ys) → In x (xs ++ ys)
append-In [] ys (inl h) = absurd (empty_in h)
  where
    empty_in : {x : ZipEntry} → In x [] → ⊥
    empty_in h = elim h [ ]
append-In [] ys (inr h) = h
append-In (z ∷ xs) ys (inl h) = elim (In-cases h) [
  | inl e ↦ here e
  | inr r ↦ there (append-In xs ys (inl r))
]
append-In (z ∷ xs) ys (inr h) = there (append-In xs ys (inr h))

-- the parts before and after a place
In-take :
    (n : ℕ) (xs : List ZipEntry) {x : ZipEntry}
    → In x (take n xs)
    → (j : ℕ) × (j < n) × (get_elem? xs j ≡ some x)
In-take zero xs h = elim h [ ]
In-take (suc n) [] h = elim h [ ]
In-take (suc n) (z ∷ xs) h = elim (In-cases h) [
  | inl e ↦ (0, omega arith, ap some (sym e))
  | inr r ↦ let (j, l, at) = In-take n xs r in (suc j, omega arith, at)
]

In-drop :
    (n : ℕ) (xs : List ZipEntry) {x : ZipEntry}
    → In x (drop n xs)
    → (j : ℕ) × (n ≤ j) × (get_elem? xs j ≡ some x)
In-drop zero [] h = elim h [ ]
In-drop zero (z ∷ xs) h = elim (In-cases h) [
  | inl e ↦ (0, omega arith, ap some (sym e))
  | inr r ↦ let (j, l, at) = In-drop zero xs r in (suc j, omega arith, at)
]
In-drop (suc n) [] h = elim h [ ]
In-drop (suc n) (z ∷ xs) h = let (j, l, at) = In-drop n xs h in (suc j, omega arith, at)

insert_at-In :
    (xs : List ZipEntry) (n : ℕ) (e x : ZipEntry) → In x (insert_at xs n e) → (x ≡ e) ⊎ (In x xs)
insert_at-In xs n e x h = elim (In-append (take n xs) (e ∷ drop n xs) h) [
  | inl t ↦ let (j, l, at) = In-take n xs t in inr (In-get_elem? xs j at)
  | inr d ↦ elim (In-cases d) [
    | inl one ↦ inl one
    | inr r ↦ let (j, l, at) = In-drop n xs r in inr (In-get_elem? xs j at)
  ]
]

In-insert_at :
    (xs : List ZipEntry) (n : ℕ) (e x : ZipEntry) → (x ≡ e) ⊎ (In x xs) → In x (insert_at xs n e)
In-insert_at xs n e x (inl one) = append-In (take n xs) (e ∷ drop n xs) (inr (here one))
In-insert_at xs n e x (inr h) = elim (In-part n xs h) [
  | inl t ↦ append-In (take n xs) (e ∷ drop n xs) (inl t)
  | inr d ↦ append-In (take n xs) (e ∷ drop n xs) (inr (there d))
]
  where
    In-part :
        (n : ℕ) (xs : List ZipEntry) {x : ZipEntry}
        → In x xs
        → (In x (take n xs)) ⊎ (In x (drop n xs))
    In-part zero xs h = inr h
    In-part (suc n) [] h = inr h
    In-part (suc n) (z ∷ xs) h = elim (In-cases h) [
      | inl e ↦ inl (here e)
      | inr r ↦ elim (In-part n xs r) [ inl t ↦ inl (there t) | inr d ↦ inr d ]
    ]

insert_at-IsSorted :
    (xs : List ZipEntry) (n : ℕ) (e : ZipEntry)
    → IsSorted xs
    → Splits xs e.file_name n
    → IsSorted (insert_at xs n e)
insert_at-IsSorted xs zero e s k =
    ((λ y h. let (j, l, at) = In-drop zero xs h in k.above j y (omega arith) at), drop_zero xs s)
  where
    drop_zero : (xs : List ZipEntry) → IsSorted xs → IsSorted (drop 0 xs)
    drop_zero [] s = s
    drop_zero (x ∷ xs) s = s
insert_at-IsSorted [] (suc n) e s k = (λ y h. elim h [ ], tt)
insert_at-IsSorted (x ∷ xs) (suc n) e s k = (
  (λ y h. elim (insert_at-In xs n e y h) [
    | inl one ↦ rw (one) (k.below 0 x (omega arith) refl)
    | inr r ↦ s.0 y r
  ]),
  insert_at-IsSorted xs n e s.1 (record {
    inside = omega (arith, k.inside);
    below = λ j y l at. k.below (suc j) y (omega arith) at;
    above = λ j y l at. k.above (suc j) y (omega arith) at;
  }),
)

-- the entries with one more
pub record Inserted (xs : List ZipEntry) (e : ZipEntry) (ys : List ZipEntry) : Type 0 where
  pub sorted : IsSorted ys
  pub size : length ys ≡ length xs + 1
  pub only : (x : ZipEntry) → In x ys → (x ≡ e) ⊎ (In x xs)
  pub all : (x : ZipEntry) → (x ≡ e) ⊎ (In x xs) → In x ys

-- The binary search ends at a place where the entry keeps the order.
pub insert_sorted-Inserted :
    (xs : List ZipEntry) (e : ZipEntry)
    → IsSorted xs
    → (ys : List ZipEntry) × (insert_sorted xs e ≡ done ys) × Inserted xs e ys
unfolding insert_sorted
insert_sorted-Inserted xs e s =
    by_target (find_target xs e.file_name (length xs) 0 (length xs)) refl (
      find_target-Splits xs e.file_name s (length xs) 0 (length xs) (omega arith) (omega arith)
        (omega arith) (λ j x h. absurd (omega arith))
        (λ j x h at. absurd (omega (arith, h, lt-get_elem? xs j at))))
  where
    by_target :
        (r : Result ℕ)
        → find_target xs e.file_name (length xs) 0 (length xs) ≡ r
        → Done (Splits xs e.file_name) r
        → (ys : List ZipEntry) × (insert_sorted xs e ≡ done ys) × Inserted xs e ys
    by_target (done t) run k = (
      insert_at xs t e,
      rw (run, le→leb t (length xs) k.inside) refl,
      record {
        sorted = insert_at-IsSorted xs t e s k;
        size = omega (
          arith,
          k.inside,
          length-append (take t xs) (e ∷ drop t xs),
          length-take t xs k.inside,
          length-drop t xs,
        );
        only = λ x h. insert_at-In xs t e x h;
        all = λ x h. In-insert_at xs t e x h;
      },
    )
    by_target bail run k = absurd k
    by_target fault run k = absurd k
