-- ===== src/Applypatch/Apply/Holds.antt =====
-- What holds of the end of a program of applypatch/applypatch.c, with rules for the ways to build one.
use open_recovery.Base.{
  ℕ, ◌≡◌, ◌≢◌, inl, inr, refl, Bool, true, false, List, [], ◌∷◌, Option, some, Bytes, bytes_eq,
  bytes_eq_refl, bytes_eq→eq, Bool-cases, take, suc, zero,
}
use open_recovery.Applypatch.World.{
  Disk, put, World, change, Outcome, next, exit, fault, M, bind, or_fail,
}
use open_recovery.Applypatch.Files.{writing}

-- `E` of an exit with its value, `Q` of the result of a program that goes on; no fault
abbrev pub Holds :
    {A : Type 0} → (ℕ → World → Type 0) → (A → World → Type 0) → Outcome A × World → Type 0
Holds E Q (next a, w) = Q a w
Holds E Q (exit n, w) = E n w
Holds E Q (fault, w) = ⊥

pub bind-Holds :
    {A B : Type 0} (E : ℕ → World → Type 0) (Q : A → World → Type 0) (R : B → World → Type 0)
    (r : Outcome A × World) (f : A → M B)
    → Holds E Q r
    → ((a : A) (w : World) → Q a w → Holds E R (f a w))
    → Holds E R (bind r f)
bind-Holds E Q R (next a, w) f h g = g a w h
bind-Holds E Q R (exit n, w) f h g = h
bind-Holds E Q R (fault, w) f h g = absurd h

pub or_fail-Holds :
    {B : Type 0} (E : ℕ → World → Type 0) (R : B → World → Type 0) (b : Bool) (w : World) (f : M B)
    → E 1 w
    → (b ≡ true → Holds E R (f w))
    → Holds E R (bind (or_fail b w) (λ _. f))
or_fail-Holds E R true w f e h = h refl
or_fail-Holds E R false w f e h = e

pub put_same :
    (disk : Disk) (name : Bytes) (content : Option Bytes) → put disk name content name ≡ content
put_same disk name content = rw (bytes_eq_refl name)

pub put_other :
    (disk : Disk) (name other : Bytes) (content : Option Bytes)
    → other ≢ name
    → put disk name content other ≡ disk other
put_other disk name other content h = elim (Bool-cases (bytes_eq other name)) [
  | inl e ↦ absurd (h (bytes_eq→eq other name e))
  | inr e ↦ rw (e) refl
]

abbrev pub AllPast : (Disk → Type 0) → List Disk → Type 0
AllPast R [] = Unit
AllPast R (d ∷ ds) = R d × AllPast R ds

-- every disk that there has been has the property
abbrev pub Always : (Disk → Type 0) → World → Type 0
Always R w = R w.disk × AllPast R w.past

abbrev pub IsStable : (Disk → Type 0) → Bytes → Type 0
IsStable P name = (d : Disk) (v : Option Bytes) → P d → P (put d name v)

module _ (R P : Disk → Type 0) (enough : (d : Disk) → P d → R d) where
  pub change-Always : (w : World) (d : Disk) → Always R w → P d → Always R (change w d)
  change-Always w d a p = (enough d p, a)

  pub writing-Always :
      (w : World) (name bytes : Bytes) (n : ℕ)
      → IsStable P name
      → Always R w
      → P w.disk
      → Always R (writing w name bytes n) × P (writing w name bytes n).disk
  unfolding writing
  writing-Always w name bytes zero stable a p = (a, p)
  writing-Always w name bytes (suc n) stable a p =
      let (a', p') = writing-Always w name bytes n stable a p in
      let p'' = stable (writing w name bytes n).disk (some (take (suc n) bytes)) p' in
      ((enough _ p'', a'), p'')

pub writing-content :
    (w : World) (name bytes : Bytes) (n : ℕ)
    → w.disk name ≡ some []
    → (writing w name bytes n).disk name ≡ some (take n bytes)
unfolding writing
writing-content w name bytes zero e = e
writing-content w name bytes (suc n) e =
    put_same (writing w name bytes n).disk name (some (take (suc n) bytes))
