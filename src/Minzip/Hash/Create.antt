-- ===== src/Minzip/Hash/Create.antt =====
-- mzHashTableCreate and mzHashSize of minzip/Hash.c.
use open_recovery.Base.{ℕ, ◌+◌, ◌*◌, ◌/◌, ◌^◌, ◌≤◌, ◌<◌, ◌≡◌, sym, ◌∙◌, length-replicate, arith}
use open_recovery.Minzip.Round.{round_up_power2-least}
use open_recovery.Minzip.Hash.{
  Ptr, round_up_power2, create, fresh, hash_size, load_numer, load_denom,
}
use open_recovery.Minzip.Hash.Contents.{sum-fresh, weight, total, one, one_dead}
use open_recovery.Minzip.Hash.Valid.{IsValid}
use open_recovery.Minzip.Hash.Resize.{fresh_only}

-- For a requested size from 1 to 2 ^ 30 the new hash table is valid and empty; its size is a power
-- of two, at least the requested size and below its double.
pub create-IsValid :
    (initial_size : ℕ)
    → 0 < initial_size
    → initial_size ≤ 2 ^ 30
    → IsValid (create initial_size)
      × ((w : ℕ → Ptr → ℕ) → total w (create initial_size).entries ≡ 0)
      × (initial_size ≤ (create initial_size).table_size)
      × ((create initial_size).table_size < 2 * initial_size)
unfolding create
create-IsValid n pos small =
    let (k, power, above, below) = round_up_power2-least n pos (omega (arith, small)) in
    let size = round_up_power2 n in
    (
      record {
        log_size = k;
        power = power;
        full = length-replicate size fresh;
        counted = sym (sum-fresh (weight one) size ∙ omega arith);
        dead = sym (sum-fresh one_dead size ∙ omega arith);
        load = omega arith;
        reached = λ i s x at e. absurd (ground (arith, fresh_only size i s at));
      },
      λ w. sum-fresh (weight w) size ∙ omega arith,
      above,
      below,
    )

-- A table made for `hash_size n` has room for `n` items: with up to `n` live and dead entries it stays
-- within its load, so that adding never makes it grow.
pub create-hash_size :
    (n : ℕ) → hash_size n ≤ 2 ^ 30 → n * load_denom ≤ (create (hash_size n)).table_size * load_numer
unfolding hash_size
create-hash_size n small =
    omega (arith, (create-IsValid (n * load_denom / load_numer + 1) (omega arith) small).2)
