-- ===== src/Applypatch/Apply/Rounds.antt =====
-- The rounds of applypatch on files, its end, and the whole of it.
use open_recovery.Base.{
  ℕ, zero, suc, ◌≡◌, ◌≢◌, inl, inr, refl, sym, subst, ap, ◌∙◌, Bool, true, false, ◌&&◌, List, [],
  Option, none, some, Bytes, bytes_eq, bytes_eq→eq, length, ◌==◌, ==_iff, if◌then◌else◌, arith,
}
use open_recovery.Applypatch.Sha1.{parse_sha1}
use open_recovery.Applypatch.FreeCache.{cache_temp_source}
use open_recovery.Applypatch.World.{
  Disk, put, World, change, tick, Kernel, Outcome, next, exit, fault, M, bind, ◌>>=◌, ◌>>◌, leave,
  or_fail,
}
use open_recovery.Applypatch.Files.{Buffer, null, freed, live, FileContents, write_all}
use open_recovery.Applypatch.Apply.{
  run_patch, Patch, Tools, Format, Choice, from_source, from_copy, to_file, to_memory, Round,
  applied, again, used, chosen, outname_of, format_of, with_bytes, decode, as_decoded, once_more,
  open_output, sink_file, conclude, prepare, apply_round, rounds, rename, drop_copy, finish, choose,
  target_of, with_hash, apply_to, applypatch,
}
use open_recovery.Applypatch.Apply.Holds.{
  Holds, bind-Holds, or_fail-Holds, put_same, put_other, Always, IsStable,
}
use open_recovery.Applypatch.Apply.Safe.{
  Sound, IsFor, Apart, IsTarget, Recoverable, IsSource-IsStable, ne_copy, ne_output,
  write_all-Always, write_all-content,
}
use open_recovery.Applypatch.Apply.Choose.{choose-Chose}
use open_recovery.Applypatch.Apply.Backup.{ReadyTo, EndOf, Kept, ChosenIn, Left, prepare-Holds}

second : (a b : Bool) → (a && b) ≡ true → b ≡ true
second true b e = e
second false b e = absurd (ground arith)

abbrev pub IsUsable : Tools → List Patch → Choice → Type 0
IsUsable t patches c = (m : Bytes) × ((used c).buffer ≡ live m) × IsFor t patches (chosen c) m

live_content : {a b : Bytes} → live a ≡ live b → a ≡ b
live_content e = cc (e)

module _ (k : Kernel) (t : Tools) (patches : List Patch) (source target target_sha1 : Bytes)
    (so : Sound t patches target_sha1) (ap' : Apart source target) where
  abbrev Rdy : Disk → Type 0
  Rdy = ReadyTo k t patches source target target_sha1 so ap'

  abbrev Ending : ℕ → World → Type 0
  Ending = EndOf k t patches source target target_sha1 so ap'

  abbrev Kpt : Disk → Type 0
  Kpt = Kept k t patches source target target_sha1 so ap'

  abbrev Chs : Choice → Disk → Type 0
  Chs = ChosenIn k t patches source target target_sha1 so ap'

  abbrev Lft : Bool → Choice → Disk → Type 0
  Lft = Left k t patches source target target_sha1 so ap'

  Chs-Kpt : (c : Choice) (d : Disk) → Chs c d → Kpt d
  Chs-Kpt (from_source file p) d (m, c, i, b, size, at, masked, found, fit) =
      inl (c, m, i, at, masked, found)
  Chs-Kpt (from_copy file copy p) d (m, b, fit, h) = inr h

  Chs-IsUsable : (c : Choice) (d : Disk) → Chs c d → IsUsable t patches c
  Chs-IsUsable (from_source file p) d (m, c, i, b, size, at, masked, found, fit) = (m, b, fit)
  Chs-IsUsable (from_copy file copy p) d (m, b, fit, h) = (m, b, fit)

  Kpt-Rdy : (d : Disk) → Kpt d → Rdy d
  Kpt-Rdy d h = inr h

  Lft-Kpt : (more : Bool) (c : Choice) (d : Disk) → Lft more c d → Kpt d
  Lft-Kpt true c d h = Chs-Kpt c d h
  Lft-Kpt false c d h = h

  Lft-IsStable : (more : Bool) (c : Choice) → IsStable (Lft more c) (outname_of target)
  Lft-IsStable true (from_source file p) d v (m, c, i, b, size, at, masked, found, fit) = (
    m,
    c,
    i,
    b,
    size,
    put_other d (outname_of target) source v ap'.source_output ∙ at,
    masked,
    found,
    fit,
  )
  Lft-IsStable true (from_copy file copy p) d v (m, b, fit, h) = (
    m,
    b,
    fit,
    IsSource-IsStable t patches cache_temp_source (outname_of target) ap'.copy_output d v h,
  )
  Lft-IsStable false c d v (inl h) =
      inl (IsSource-IsStable t patches source (outname_of target) ap'.source_output d v h)
  Lft-IsStable false c d v (inr h) =
      inr (IsSource-IsStable t patches cache_temp_source (outname_of target) ap'.copy_output d v h)

  -- what holds after a round
  abbrev Rounded : Choice → Round → World → Type 0
  Rounded c (applied made (to_file name) out) w =
      Always Rdy w
      × Kpt w.disk
      × (name ≡ outname_of target)
      × (w.disk (outname_of target) ≡ some out)
  Rounded c (applied made to_memory out) w = ⊥
  Rounded c again w = Always Rdy w × Chs c w.disk

  -- the output of a patch, to a file that is empty
  output-Rounded :
      (made more : Bool) (c : Choice) (out : Bytes) (ok : Bool) (w : World)
      → Always Rdy w
      → Lft more c w.disk
      → w.disk (outname_of target) ≡ some []
      → Holds Ending (Rounded c) (
          bind
            (sink_file k t (outname_of target) out w)
            (λ took. conclude k t (ok && took) more made (to_file (outname_of target)) out))
  output-Rounded made more c out ok w a h e =
      let (a', h') =
        write_all-Always k Rdy (Lft more c) (outname_of target) out w
          (λ d l. Kpt-Rdy d (Lft-Kpt more c d l)) (Lft-IsStable more c) a h in
      by_end (ok && ((write_all k (outname_of target) out w).0 == length out)) more refl a' h'
    where
      w' : World
      w' = (write_all k (outname_of target) out w).1

      by_end :
          (b more' : Bool)
          → (ok && ((write_all k (outname_of target) out w).0 == length out)) ≡ b
          → Always Rdy w'
          → Lft more' c w'.disk
          → Holds Ending
              (Rounded c)
              (conclude k t b more' made (to_file (outname_of target)) out w')
      by_end true more' t' a' h' = (
        a',
        Lft-Kpt more' c w'.disk h',
        refl,
        write_all-content k (outname_of target) out w e (
            (==_iff (write_all k (outname_of target) out w).0 (length out)).0
              (second ok ((write_all k (outname_of target) out w).0 == length out) t')),
      )
      by_end false false t' a' h' = a'
      by_end false true t' a' h' =
          let d' = put w'.disk (outname_of target) none in
          let s : Chs c d' = Lft-IsStable true c w'.disk none h' in
          ((Kpt-Rdy d' (Chs-Kpt c d' s), a'), s)

  -- a patch is read, with the file for its output open
  decode-Rounded :
      (made more : Bool) (c : Choice) (w : World)
      → Always Rdy w
      → Lft more c w.disk
      → w.disk (outname_of target) ≡ some []
      → (b : Buffer) → (m : Bytes) × (b ≡ live m) × IsFor t patches (chosen c) m
      → Holds Ending (Rounded c) (
          bind (with_bytes b (decode k t (chosen c) (format_of (chosen c).bytes)) w) (λ r.
            sink_file k t (outname_of target) r.0 >>= λ took.
            conclude k t (r.1 && took) more made (to_file (outname_of target)) r.0))
  decode-Rounded made more c w a h e null (m, l, fit) = absurd (cc)
  decode-Rounded made more c w a h e freed (m, l, fit) = absurd (cc)
  decode-Rounded made more c w a h e (live bytes) (m, l, fit) =
      by_format (format_of (chosen c).bytes) refl
    where
      here_too : IsFor t patches (chosen c) bytes
      here_too = subst (λ x. IsFor t patches (chosen c) x) (live_content (sym l)) fit

      by_decoded :
          (o : Option (Bytes × Bool))
          → o ≢ none
          → Holds Ending (Rounded c) (
              bind (as_decoded k t o w) (λ r. sink_file k t (outname_of target) r.0 >>= λ took.
              conclude k t (r.1 && took) more made (to_file (outname_of target)) r.0))
      by_decoded none n = absurd (n refl)
      by_decoded (some (out, ok)) n = output-Rounded made more c out ok w a h e

      by_format :
          (o : Option Format)
          → format_of (chosen c).bytes ≡ o
          → Holds Ending (Rounded c) (
              bind (decode k t (chosen c) o bytes w) (λ r.
                sink_file k t (outname_of target) r.0 >>= λ took.
                conclude k t (r.1 && took) more made (to_file (outname_of target)) r.0))
      by_format none n = a
      by_format (some f) n =
          by_decoded (run_patch t f (chosen c).bytes bytes)
            (so.decodes bytes (chosen c) f here_too n)

  apply_round-Rounded :
      (made more : Bool) (target_size : ℕ) (c : Choice) (w : World)
      → IsUsable t patches c
      → Always Rdy w
      → Lft more c w.disk
      → Holds Ending (Rounded c) (apply_round k t (made, more) target target_size c w)
  unfolding apply_round
  apply_round-Rounded made more target_size c w u a h = rw (ap'.target_file) (
      or_fail-Holds Ending (Rounded c) (chosen c).is_blob w
        (open_output k t (outname_of target) >>= λ opened.
          or_fail opened
          >> (with_bytes (used c).buffer (decode k t (chosen c) (format_of (chosen c).bytes))
              >>= λ r. sink_file k t (outname_of target) r.0 >>= λ took.
                  conclude k t (r.1 && took) more made (to_file (outname_of target)) r.0))
        a (λ _. by_create (k.creatable w (outname_of target))))
    where
      after : Bytes × Bool → M Round
      after r = sink_file k t (outname_of target) r.0 >>= λ took.
          conclude k t (r.1 && took) more made (to_file (outname_of target)) r.0

      by_create :
          (b : Bool)
          → Holds Ending (Rounded c) (
              bind
                (if b
                  then (next true, change w (put w.disk (outname_of target) (some [])))
                  else (next false, tick w))
                (λ opened.
                  or_fail opened
                  >> (with_bytes
                        (used c).buffer
                        (decode k t (chosen c) (format_of (chosen c).bytes))
                      >>= λ r. after r)))
      by_create true =
          let d' = put w.disk (outname_of target) (some []) in
          let h' = Lft-IsStable more c w.disk (some []) h in
          decode-Rounded made more c (change w d') (Kpt-Rdy d' (Lft-Kpt more c d' h'), a) h'
            (put_same w.disk (outname_of target) (some [])) (used c).buffer u
      by_create false = a

  rounds-Rounded :
      (target_size : ℕ) (c : Choice) (w : World)
      → Always Rdy w
      → Chs c w.disk
      → Holds Ending (Rounded c) (rounds k t source target target_size c w)
  unfolding rounds
  rounds-Rounded target_size c w a h =
      bind-Holds Ending (λ r w'. Always Rdy w' × Lft r.1 c w'.disk) (Rounded c)
        (prepare k t true source target target_size c w)
        (λ r. apply_round k t r target target_size c >>= λ r'. once_more k t r' second_round)
        (prepare-Holds k t patches source target target_sha1 so ap' true target_size c w a h)
        (λ r w₁ (a₁, h₁).
          bind-Holds Ending (Rounded c) (Rounded c) (apply_round k t r target target_size c w₁)
            (λ r'. once_more k t r' second_round)
            (apply_round-Rounded r.0 r.1 target_size c w₁ u a₁ h₁) (λ r' w₂ q. by_round r' w₂ q))
    where
      u : IsUsable t patches c
      u = Chs-IsUsable c w.disk h

      second_round : M Round
      second_round = prepare k t false source target target_size c >>= λ r.
          apply_round k t r target target_size c

      by_round :
          (r : Round) (w₂ : World)
          → Rounded c r w₂
          → Holds Ending (Rounded c) (once_more k t r second_round w₂)
      by_round (applied made (to_file name) out) w₂ q = q
      by_round (applied made to_memory out) w₂ q = absurd q
      by_round again w₂ (a₂, h₂) =
          bind-Holds Ending (λ r w'. Always Rdy w' × Lft r.1 c w'.disk) (Rounded c)
            (prepare k t false source target target_size c w₂)
            (λ r. apply_round k t r target target_size c)
            (prepare-Holds k t patches source target target_sha1 so ap' false target_size c w₂ a₂
              h₂)
            (λ r w₃ (a₃, h₃). apply_round-Rounded r.0 r.1 target_size c w₃ u a₃ h₃)

  IsTarget-IsStable :
      (other : Bytes) → target ≢ other → IsStable (IsTarget t patches target target_sha1) other
  IsTarget-IsStable other h d v (c, m, at, masked, same) =
      (c, m, put_other d other target v h ∙ at, masked, same)

  -- after the rename
  dropped-Ending :
      (made : Bool) (w : World)
      → Always Rdy w
      → IsTarget t patches target target_sha1 w.disk
      → Holds Ending (λ (_ : Unit {0}) w'. ⊥) ((drop_copy k t made >> leave 0) w)
  dropped-Ending true w a h =
      let h' =
        IsTarget-IsStable cache_temp_source (ne_copy target ap'.target_place) w.disk none h in
      ((inl h', a), h')
  dropped-Ending false w a h = (a, h)

  finish-Ending :
      (c : Choice) (r : Round) (w : World)
      → Rounded c r w
      → Holds Ending (λ (_ : Unit {0}) w'. ⊥) (finish k t target target_sha1 r w)
  unfolding finish
  finish-Ending c again w q = q.0
  finish-Ending c (applied made to_memory out) w q = absurd q
  finish-Ending c (applied made (to_file name) out) w (a, kept, named, at) =
      or_fail-Holds Ending (λ (_ : Unit {0}) w'. ⊥) (bytes_eq (t.sha out) target_sha1) w changes a
        (λ same.
          or_fail-Holds Ending (λ (_ : Unit {0}) w'. ⊥) (k.chmod w name && k.chown w name) (tick w)
            renames a (λ _. by_rename same (k.renames (tick w) name)))
    where
      ending : M (Unit {0})
      ending = drop_copy k t made >> leave 0

      renames : M (Unit {0})
      renames = rename k t name target >>= λ renamed. or_fail renamed >> ending

      changes : M (Unit {0})
      changes =
          (λ (w' : World). (next (k.chmod w' name && k.chown w' name), tick w')) >>= λ changed.
          or_fail changed >> renames

      d' : Disk
      d' = put (put w.disk target (w.disk name)) name none

      by_rename :
          bytes_eq (t.sha out) target_sha1 ≡ true
          → (b : Bool)
          → Holds Ending
              (λ (_ : Unit {0}) w'. ⊥)
              (bind
                (if b then (next true, change (tick w) d') else (next false, tick (tick w)))
                (λ renamed. or_fail renamed >> ending))
      by_rename same true =
          let sum = bytes_eq→eq (t.sha out) target_sha1 same in
          let there : d' target ≡ some out =
            put_other (put w.disk target (w.disk name)) name target none
              (λ e. ne_output target (e ∙ named))
            ∙ put_same w.disk target (w.disk name)
            ∙ ap w.disk named
            ∙ at in
          let h : IsTarget t patches target target_sha1 d' =
            (out, out, there, so.mask_target out sum, sum) in
          dropped-Ending made (change (tick w) d') (inl h, a) h
      by_rename same false = a

  apply_to-Ending :
      (target_size : ℕ) (uninit : FileContents) (w : World)
      → Always Rdy w
      → Holds Ending
          (λ (_ : Unit {0}) w'. ⊥)
          (apply_to k t source target target_sha1 target_size patches uninit w)
  unfolding apply_to
  apply_to-Ending target_size uninit w a =
      bind-Holds Ending (λ c w'. Always Rdy w' × Chs c w'.disk) (λ (_ : Unit {0}) w'. ⊥)
        (choose k t source target target_sha1 patches uninit w)
        (λ c. rounds k t source target target_size c >>= λ r. finish k t target target_sha1 r)
        (choose-Chose k t patches source target target_sha1 so ap' uninit w a)
        (λ c w₁ (a₁, h₁).
          bind-Holds Ending (Rounded c) (λ (_ : Unit {0}) w'. ⊥)
            (rounds k t source target target_size c w₁) (λ r. finish k t target target_sha1 r)
            (rounds-Rounded target_size c w₁ a₁ h₁) (λ r w₂ q. finish-Ending c r w₂ q))

-- how applypatch ends on files: with a value, after a run in which the disk could be recovered from at
-- any time, and with the target in place if the value is 0
abbrev pub EndsSafely :
    Tools → List Patch → Bytes → Bytes → Bytes → Outcome (Unit {0}) × World → Type 0
EndsSafely t patches source target target_sha1 (next u, w) = ⊥
EndsSafely t patches source target target_sha1 (exit zero, w) =
    Always (Recoverable t patches source target target_sha1) w
    × IsTarget t patches target target_sha1 w.disk
EndsSafely t patches source target target_sha1 (exit (suc n), w) =
    Always (Recoverable t patches source target target_sha1) w
EndsSafely t patches source target target_sha1 (fault, w) = ⊥

of_end :
    (k : Kernel) (t : Tools) (patches : List Patch) (source target target_sha1 : Bytes)
    (so : Sound t patches target_sha1) (ap' : Apart source target) (r : Outcome (Unit {0}) × World)
    → Holds (EndOf k t patches source target target_sha1 so ap') (λ (_ : Unit {0}) w'. ⊥) r
    → EndsSafely t patches source target target_sha1 r
of_end k t patches source target target_sha1 so ap' (next u, w) h = h
of_end k t patches source target target_sha1 so ap' (exit zero, w) h = h
of_end k t patches source target target_sha1 so ap' (exit (suc n), w) h = h
of_end k t patches source target target_sha1 so ap' (fault, w) h = h

-- Let source and target be files that are not on /cache, let no other file have the name of the
-- output, and let the hash of the target parse. Let retouch_mask_data change nothing in a file with
-- the hash of the target, nor in a masked file that a patch of the list is for, and let each patch
-- be read on the files that it is for, in the rounds that there are, without an access to memory
-- that is not there. Let the disk be, and always have been, one that applypatch can be run on: the
-- target is there, or a source that a patch is for, or a copy of it in CACHE_TEMP_SOURCE. Whatever
-- the system calls answer, applypatch touches no memory that is not its own and returns, the disk
-- stays such a disk after every single change, down to the single bytes of a write, and if 0 is
-- returned the target is there.
pub applypatch-EndsSafely :
    (k : Kernel) (t : Tools) (patches : List Patch)
    (source target_filename target_sha1_str target_sha1 : Bytes) (target_size : ℕ)
    (uninit : FileContents) (w : World)
    → parse_sha1 target_sha1_str ≡ some target_sha1
    → Sound t patches target_sha1
    → Apart source (target_of source target_filename)
    → Always (Recoverable t patches source (target_of source target_filename) target_sha1) w
    → EndsSafely t patches source
        (target_of source target_filename)
        target_sha1
        (applypatch k t source target_filename target_sha1_str target_size patches uninit w)
unfolding applypatch
applypatch-EndsSafely k t patches source name str target_sha1 target_size uninit w parsed so ap' a =
    let target = target_of source name in
    subst
      (λ o.
        EndsSafely t patches source target target_sha1
          (with_hash k t source target target_size patches uninit o w))
      (sym parsed)
      (of_end k t patches source target target_sha1 so ap'
        (apply_to k t source target target_sha1 target_size patches uninit w)
        (apply_to-Ending k t patches source target target_sha1 so ap' target_size uninit w a))
