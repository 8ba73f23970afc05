-- ===== src/Applypatch/Apply/Complete.antt =====
-- The rounds of applypatch on files where the system calls succeed, and the whole of it.
use open_recovery.Base.{
  ℕ, zero, suc, ◌≡◌, refl, sym, subst, ap, ◌∙◌, true, false, List, [], some, Bytes, bytes_eq,
  bytes_eq_refl, length, ◌==◌, ==_iff,
}
use open_recovery.Applypatch.Sha1.{parse_sha1}
use open_recovery.Applypatch.Sink.{file_sink}
use open_recovery.Applypatch.World.{
  put, World, change, tick, Kernel, Outcome, next, exit, fault, M, ◌>>=◌,
}
use open_recovery.Applypatch.Files.{FileContents}
use open_recovery.Applypatch.Apply.{
  Patch, Tools, Choice, to_file, to_memory, Round, applied, again, outname_of, choose, prepare,
  apply_round, rounds, once_more, finish, target_of, with_hash, apply_to, applypatch,
}
use open_recovery.Applypatch.Apply.Holds.{Holds, bind-Holds, Always}
use open_recovery.Applypatch.Apply.Safe.{Sound, Apart, IsTarget, Recoverable}
use open_recovery.Applypatch.Apply.Rounds.{EndsSafely, applypatch-EndsSafely}
use open_recovery.Applypatch.Apply.Resume.{IsFair, AllMake, Zero, Picked, choose-Picked}

module _ (k : Kernel) (t : Tools) (patches : List Patch) (source target target_sha1 : Bytes)
    (target_size : ℕ) (fair : IsFair k t target target_size) (all : AllMake t patches target_sha1)
    (ap' : Apart source target) where
  abbrev Pick : Choice → Type 0
  Pick = Picked k t patches source target target_sha1 target_size fair all ap'

  abbrev IsApplied : Round → Type 0
  IsApplied (applied true output out) = ⊥
  IsApplied (applied false to_memory out) = ⊥
  IsApplied (applied false (to_file name) out) = t.sha out ≡ target_sha1
  IsApplied again = ⊥

  -- a round with a good patch, where there is room
  apply_round-Makes :
      (w : World) (c : Choice)
      → Pick c
      → Holds Zero (λ r w'. IsApplied r) (apply_round k t (false, true) target target_size c w)
  unfolding apply_round
  apply_round-Makes w c (m, b, makes) =
      let O = outname_of target in
      let w₁ = change w (put w.disk O (some [])) in
      let full : ((file_sink (k.writes w₁ O) makes.out 0).0 == length makes.out) ≡ true =
        (==_iff _ _).1 (fair.writes w₁ O makes.out makes.short) in
      rw (ap'.target_file, makes.blob, fair.creatable w O, b, makes.known, makes.result, full)
        makes.hash

  prepare-true :
      (c : Choice) (w : World)
      → prepare k t true source target target_size c w ≡ (next (false, true), tick w)
  unfolding prepare
  prepare-true c w = rw (ap'.target_file, fair.room w) refl

  rounds-IsApplied :
      (c : Choice) (w : World)
      → Pick c
      → Holds Zero (λ r w'. IsApplied r) (rounds k t source target target_size c w)
  unfolding rounds
  rounds-IsApplied c w p = rw (prepare-true c w) (
      bind-Holds Zero (λ r w'. IsApplied r) (λ r w'. IsApplied r)
        (apply_round k t (false, true) target target_size c (tick w))
        (λ r. once_more k t r second_round) (apply_round-Makes (tick w) c p)
        (λ r w' q. by_round r w' q))
    where
      second_round : M Round
      second_round = prepare k t false source target target_size c >>= λ r.
          apply_round k t r target target_size c

      by_round :
          (r : Round) (w' : World)
          → IsApplied r
          → Holds Zero (λ r' w''. IsApplied r') (once_more k t r second_round w')
      by_round (applied true output out) w' q = absurd q
      by_round (applied false to_memory out) w' q = absurd q
      by_round (applied false (to_file name) out) w' q = q
      by_round again w' q = absurd q

  finish-Zero :
      (r : Round) (w : World)
      → IsApplied r
      → Holds Zero (λ (_ : Unit {0}) w'. ⊥) (finish k t target target_sha1 r w)
  unfolding finish
  finish-Zero (applied true output out) w q = absurd q
  finish-Zero (applied false to_memory out) w q = absurd q
  finish-Zero again w q = absurd q
  finish-Zero (applied false (to_file name) out) w q =
      let same : bytes_eq (t.sha out) target_sha1 ≡ true =
        ap (bytes_eq (t.sha out)) (sym q) ∙ bytes_eq_refl (t.sha out) in
      rw (same, fair.chmod w name, fair.chown w name, fair.renames (tick w) name) tt

  apply_to-Zero :
      (uninit : FileContents) (w : World)
      → Recoverable t patches source target target_sha1 w.disk
      → Holds Zero
          (λ (_ : Unit {0}) w'. ⊥)
          (apply_to k t source target target_sha1 target_size patches uninit w)
  unfolding apply_to
  apply_to-Zero uninit w s =
      bind-Holds Zero (λ c w'. Pick c) (λ (_ : Unit {0}) w'. ⊥)
        (choose k t source target target_sha1 patches uninit w)
        (λ c. rounds k t source target target_size c >>= λ r. finish k t target target_sha1 r)
        (choose-Picked k t patches source target target_sha1 target_size fair all ap' uninit w s)
        (λ c w₁ p.
          bind-Holds Zero (λ r w'. IsApplied r) (λ (_ : Unit {0}) w'. ⊥)
            (rounds k t source target target_size c w₁) (λ r. finish k t target target_sha1 r)
            (rounds-IsApplied c w₁ p) (λ r w₂ q. finish-Zero r w₂ q))

-- the function returns 0, with the target in place
abbrev pub Completes : Tools → List Patch → Bytes → Bytes → Outcome (Unit {0}) × World → Type 0
Completes t patches target target_sha1 (exit zero, w) = IsTarget t patches target target_sha1 w.disk
Completes t patches target target_sha1 _ = ⊥

completed :
    (t : Tools) (patches : List Patch) (source target target_sha1 : Bytes)
    (r : Outcome (Unit {0}) × World)
    → Holds Zero (λ (_ : Unit {0}) w'. ⊥) r
    → EndsSafely t patches source target target_sha1 r
    → Completes t patches target target_sha1 r
completed t patches source target target_sha1 (next u, w) h e = absurd h
completed t patches source target target_sha1 (exit zero, w) h e = e.1
completed t patches source target target_sha1 (exit (suc n), w) h e = absurd h
completed t patches source target target_sha1 (fault, w) h e = absurd h

-- Let source and target be files that are not on /cache, let no other file have the name of the
-- output, and let the hash of the target parse. Let retouch_mask_data change nothing in a file with
-- the hash of the target, nor in a masked file that a patch of the list is for, and let each patch
-- be read on the files that it is for, in the rounds that there are, without an access to memory
-- that is not there. From every disk that applypatch can be run on, now and at all times before, as
-- an interrupted run leaves it, a run in which the system calls succeed and there is room returns 0
-- with the target in place, if each patch of the list makes the target of the files that have its
-- hash.
pub applypatch-Completes :
    (k : Kernel) (t : Tools) (patches : List Patch)
    (source target_filename target_sha1_str target_sha1 : Bytes) (target_size : ℕ)
    (uninit : FileContents) (w : World)
    → parse_sha1 target_sha1_str ≡ some target_sha1
    → Sound t patches target_sha1
    → Apart source (target_of source target_filename)
    → IsFair k t (target_of source target_filename) target_size
    → AllMake t patches target_sha1
    → Always (Recoverable t patches source (target_of source target_filename) target_sha1) w
    → Completes t patches
        (target_of source target_filename)
        target_sha1
        (applypatch k t source target_filename target_sha1_str target_size patches uninit w)
unfolding applypatch
applypatch-Completes k t patches source name str target_sha1 target_size uninit w parsed so ap' fair
      all a =
    let target = target_of source name in
    completed t patches source target target_sha1 _
      (subst
        (λ o.
          Holds Zero (λ (_ : Unit {0}) w'. ⊥)
            (with_hash k t source target target_size patches uninit o w))
        (sym parsed)
        (apply_to-Zero k t patches source target target_sha1 target_size fair all ap' uninit w a.0))
      (applypatch-EndsSafely k t patches source name str target_sha1 target_size uninit w parsed so
        ap' a)
