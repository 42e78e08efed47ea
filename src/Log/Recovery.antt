-- ===== src/Log/Recovery.antt =====
-- The whole of a commit, a power failure, and any number of recoveries.
use operating_system_laborat.Base.{
  ℕ, ◌+◌, ◌-◌, ◌<◌, ◌≡◌, refl, sym, ap, ◌∙◌, subst, ◌⊎◌, inl, inr, List, [], ◌∷◌, arith, length,
}
use operating_system_laborat.Kalloc.{load32}
use operating_system_laborat.Log.{
  Disk, Machine, bwrite, write_head, install_trans, commit, set_header, recover_from_log, read_head,
  read_words, restart,
}
use operating_system_laborat.Log.Header.{count-set_header}
use operating_system_laborat.Log.Crash.{Home, Absent, Fits, bwrite-clear-Old, bwrite-clear-New}
use operating_system_laborat.Log.States.{
  OldD, MidD, NewD, Left, Installed, all_writes, all_writes-Left, installed,
}

-- Before a commit: the log on the disk is empty, and the cache differs from the disk only in blocks
-- of the transaction.
pub record Ready (start size : ℕ) (lh : List ℕ) (s : Machine) : Type 0 where
  pub fits : Fits start size lh
  pub no_log : load32 (s.disk start) 0 ≡ 0
  pub clean : (b : ℕ) → Home start size b → Absent b lh → s.cache b ≡ s.disk b

-- The disk after recoveries that the power cuts off, each after this many of its writes.
abbrev pub boots : ℕ → List ℕ → Disk → Disk
boots start [] d = d
boots start (n ∷ ns) d = boots start ns (recover_from_log start (restart n d)).disk

install_count :
    (start tail : ℕ) (bs : List ℕ) (s : Machine)
    → (install_trans start tail bs s).left ≡ s.left - length bs
unfolding install_trans bwrite
install_count start tail [] s = omega arith
install_count start tail (b ∷ bs) s =
    let s1 : Machine = bwrite b (s.cache (start + tail + 1)) s in
    let one : s1.left ≡ s.left - 1 = ground arith in
    omega (arith, install_count start (tail + 1) bs s1)

header_count : (start : ℕ) (lh : List ℕ) (s : Machine) → (write_head start lh s).left ≡ s.left - 1
unfolding write_head bwrite
header_count start lh s = ground arith

module _ (start size : ℕ) (D C : Disk) (lh : List ℕ) (fits : Fits start size lh) where
  commit-Left :
      (s : Machine)
      → OldD start size D C lh fits s.disk
      → ((b : ℕ) → Home start size b → s.cache b ≡ C b)
      → ((b : ℕ) → Home start size b → Absent b lh → C b ≡ D b)
      → Left start size D C lh fits (commit start lh s)
  unfolding commit
  commit-Left s o c agree = go lh refl
    where
      new : [] ≡ lh → NewD start size D C lh fits s.disk
      new e = record {
        cleared = o.empty;
        after = λ b h. o.before b h ∙ sym (agree b h (λ t f. cc));
      }

      go : (bs : List ℕ) → bs ≡ lh → Left start size D C lh fits (commit start bs s)
      go [] e = (inr (inr (new e)), λ alive. new e)
      go (b ∷ bs) e =
          subst (λ l. Left start size D C lh fits (all_writes start size D C lh fits l s)) (sym e)
            (all_writes-Left start size D C lh fits s o c agree)

  -- An empty log is recovered by one write of an empty header.
  recover_empty :
      (n : ℕ) (d : Disk)
      → load32 (d start) 0 ≡ 0
      → recover_from_log start (restart n d) ≡ bwrite start (set_header [] (d start)) (restart n d)
  unfolding recover_from_log read_head read_words install_trans write_head
  recover_empty n d z = rw z

  recover-Old :
      (n : ℕ) (d : Disk)
      → OldD start size D C lh fits d
      → OldD start size D C lh fits (recover_from_log start (restart n d)).disk
  recover-Old n d o = rw (recover_empty n d o.empty) (
      bwrite-clear-Old start size D C lh (restart n d) (set_header [] (d start))
        (omega (arith, fits.short)) (count-set_header [] (d start) (omega arith)) o)

  recover-New :
      (n : ℕ) (d : Disk)
      → NewD start size D C lh fits d
      → NewD start size D C lh fits (recover_from_log start (restart n d)).disk
  recover-New n d o = rw (recover_empty n d o.cleared) (
      bwrite-clear-New start size D C lh (restart n d) (set_header [] (d start))
        (omega (arith, fits.short)) (count-set_header [] (d start) (omega arith)) o)

  recover-Mid :
      (n : ℕ) (d : Disk)
      → MidD start size D C lh fits d
      → Installed start size D C lh fits (recover_from_log start (restart n d))
  unfolding recover_from_log read_head
  recover-Mid n d m = rw m.listed (
      installed start size D C lh fits (restart n d) m
        (λ t b e. ap d (omega arith) ∙ m.logged t b e))

  -- Any number of recoveries that are cut off leave the old state, or the log or the new state.
  abbrev Safe : Disk → Type 0
  Safe d =
      OldD start size D C lh fits d
      ⊎ (MidD start size D C lh fits d ⊎ NewD start size D C lh fits d)

  recover-Safe : (n : ℕ) (d : Disk) → Safe d → Safe (recover_from_log start (restart n d)).disk
  recover-Safe n d (inl o) = inl (recover-Old n d o)
  recover-Safe n d (inr (inl m)) = inr (recover-Mid n d m).0
  recover-Safe n d (inr (inr o)) = inr (inr (recover-New n d o))

  boots-Safe : (ns : List ℕ) (d : Disk) → Safe d → Safe (boots start ns d)
  boots-Safe [] d h = h
  boots-Safe (n ∷ ns) d h = boots-Safe ns _ (recover-Safe n d h)

  -- A transaction that has once reached the log stays.
  abbrev Late : Disk → Type 0
  Late d = MidD start size D C lh fits d ⊎ NewD start size D C lh fits d

  boots-Late : (ns : List ℕ) (d : Disk) → Late d → Late (boots start ns d)
  boots-Late [] d h = h
  boots-Late (n ∷ ns) d (inl m) = boots-Late ns _ (recover-Mid n d m).0
  boots-Late (n ∷ ns) d (inr o) = boots-Late ns _ (inr (recover-New n d o))

  -- A recovery with power for all its writes.
  finish-Mid :
      (n : ℕ) (d : Disk)
      → length lh + 1 < n
      → MidD start size D C lh fits d
      → NewD start size D C lh fits (recover_from_log start (restart n d)).disk
  unfolding recover_from_log read_head
  finish-Mid n d enough m = (recover-Mid n d m).1 (rw m.listed (alive d))
    where
      alive : (d : Disk) → 0 < (write_head start [] (install_trans start 0 lh (restart n d))).left
      alive d = omega (
        arith,
        header_count start [] (install_trans start 0 lh (restart n d)),
        install_count start 0 lh (restart n d),
      )

  finish-Late :
      (n : ℕ) (d : Disk)
      → length lh + 1 < n
      → Late d
      → NewD start size D C lh fits (recover_from_log start (restart n d)).disk
  finish-Late n d enough (inl m) = finish-Mid n d enough m
  finish-Late n d enough (inr o) = recover-New n d o

-- The home blocks of d are those of e.
abbrev pub SameHome : ℕ → ℕ → Disk → Disk → Type 0
SameHome start size d e = (b : ℕ) → Home start size b → d b ≡ e b

-- A commit is atomic. Whenever the power fails during it, and however often again during recovery, once a
-- recovery has power for all its writes every block outside the log is as on the disk before the
-- commit, or every one is as the cache had it; and the latter if the commit came to its end.
pub commit-recover :
    (start size : ℕ) (lh : List ℕ) (s : Machine) (cut : List ℕ) (n : ℕ)
    → Ready start size lh s
    → length lh + 1 < n
    → (let d =
          (recover_from_log start (restart n (boots start cut (commit start lh s).disk))).disk in
        (SameHome start size d s.disk ⊎ SameHome start size d s.cache)
        × (0 < (commit start lh s).left → SameHome start size d s.cache))
commit-recover start size lh s cut n r enough = (either states, durable)
  where
    d : Disk
    d = boots start cut (commit start lh s).disk

    final : Disk
    final = (recover_from_log start (restart n d)).disk

    ended : Left start size s.disk s.cache lh r.fits (commit start lh s)
    ended =
        commit-Left start size s.disk s.cache lh r.fits s
          (record { empty = r.no_log; before = λ b h. refl }) (λ b h. refl) r.clean

    states : Safe start size s.disk s.cache lh r.fits d
    states = boots-Safe start size s.disk s.cache lh r.fits cut (commit start lh s).disk ended.0

    either :
        Safe start size s.disk s.cache lh r.fits d
        → SameHome start size final s.disk ⊎ SameHome start size final s.cache
    either (inl o) = inl (recover-Old start size s.disk s.cache lh r.fits n d o).before
    either (inr h) = inr (finish-Late start size s.disk s.cache lh r.fits n d enough h).after

    durable : 0 < (commit start lh s).left → SameHome start size final s.cache
    durable alive =
        (finish-Late start size s.disk s.cache lh r.fits n d enough (
          boots-Late start size s.disk s.cache lh r.fits cut (commit start lh s).disk
            (inr (ended.1 alive)))).after
