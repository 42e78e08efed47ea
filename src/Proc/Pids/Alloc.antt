-- ===== src/Proc/Pids/Alloc.antt =====
-- What allocproc does to the pids.
use operating_system_laborat.Base.{
  ℕ, ◌+◌, ◌^◌, ◌<◌, ◌≡◌, refl, ◌≢◌, inl, inr, false, Option, none, some, List, [], ◌∷◌, arith,
  Option-cases, get_elem?, u32,
}
use operating_system_laborat.Proc.{is_unused, TrapFrame, Proc, Kernel}
use operating_system_laborat.Proc.Lookup.{modify}
use operating_system_laborat.Proc.Life.{find_unused, claim, unclaim, set_up, alloc_at, allocproc}
use operating_system_laborat.Proc.Pids.{Pids, Tame-Pids}
use operating_system_laborat.Proc.Pids.Tables.{modify_entry, modify-Tame, pages-Pids}

claim-Pids :
    (i : ℕ) (k : Kernel)
    → k.nextpid + 1 < 2 ^ 31
    → Pids k
    → Pids (record k { procs = modify i (claim k.nextpid) k.procs; nextpid = u32 (k.nextpid + 1) })
claim-Pids i k h v = record { started = omega arith; below = below; unique = unique; live = live }
  where
    qs : List Proc
    qs = modify i (claim k.nextpid) k.procs

    below : (j : ℕ) (q : Proc) → get_elem? qs j ≡ some q → q.pid < u32 (k.nextpid + 1)
    below j q e =
        let (p, g, c) = modify_entry i (claim k.nextpid) k.procs j q e in
        ground (arith, v.below j p g)

    unique :
        (a b : ℕ) (x y : Proc)
        → get_elem? qs a ≡ some x
        → get_elem? qs b ≡ some y
        → x.pid ≡ y.pid
        → x.pid ≢ 0
        → a ≡ b
    unique a b x y ea eb same nz =
        let (p, g, c) = modify_entry i (claim k.nextpid) k.procs a x ea in
        let (q, l, d) = modify_entry i (claim k.nextpid) k.procs b y eb in
        ground (arith, v.below a p g, v.below b q l, v.unique a b p q g l)

    live : (j : ℕ) (q : Proc) → get_elem? qs j ≡ some q → is_unused q.state ≡ false → q.pid ≢ 0
    live j q e u =
        let (p, g, c) = modify_entry i (claim k.nextpid) k.procs j q e in
        ground (arith, v.live j p g, v.started)

module _ (forkret trapret : ℕ) (fresh_frame : ℕ → TrapFrame) where
  abbrev pub alloc : Kernel → Option ℕ × Kernel
  alloc = allocproc forkret trapret fresh_frame

  -- The kernel after `found:`.
  abbrev claimed : ℕ → Kernel → Kernel
  claimed i k = record k {
    procs = modify i (claim k.nextpid) k.procs;
    nextpid = u32 (k.nextpid + 1);
  }

  alloc_at-Pids :
      (i : ℕ) (k : Kernel)
      → k.nextpid + 1 < 2 ^ 31
      → Pids k
      → Pids (alloc_at forkret trapret fresh_frame i k).1
  unfolding alloc_at set_up
  alloc_at-Pids i k h v = go k.pages (claim-Pids i k h v)
    where
      go :
          (pages : List ℕ)
          → Pids (claimed i k)
          → Pids (alloc_at forkret trapret fresh_frame i (record k { pages = pages })).1
      go [] w =
          Tame-Pids (record (claimed i k) { pages = [] }) _
            (modify-Tame i unclaim (claimed i k).procs (λ p e. inl (refl, ground arith)))
            (pages-Pids [] (claimed i k) w)
      go (p ∷ ps) w =
          Tame-Pids (record (claimed i k) { pages = ps }) _
            (modify-Tame i (set_up forkret trapret fresh_frame p k.ticks) (claimed i k).procs
              (λ p e. inl (refl, λ u. u)))
            (pages-Pids ps (claimed i k) w)

  pub allocproc-Pids : (k : Kernel) → k.nextpid + 1 < 2 ^ 31 → Pids k → Pids (alloc k).1
  unfolding allocproc
  allocproc-Pids k h v = elim (Option-cases (find_unused 0 k.procs)) [
    | inl e ↦ rw (e, allocproc) v
    | inr (i, e) ↦ rw (e, allocproc) (alloc_at-Pids i k h v)
  ]

  -- The entry that `allocproc` answers with is in use.
  alloc_at-embryo :
      (i : ℕ) (k : Kernel) (n : ℕ) (q : Proc)
      → (alloc_at forkret trapret fresh_frame i k).0 ≡ some n
      → get_elem? (alloc_at forkret trapret fresh_frame i k).1.procs n ≡ some q
      → is_unused q.state ≡ false
  unfolding alloc_at set_up
  alloc_at-embryo i k n q h e = go k.pages h e
    where
      go :
          (pages : List ℕ)
          → (alloc_at forkret trapret fresh_frame i (record k { pages = pages })).0 ≡ some n
          → get_elem?
              (alloc_at forkret trapret fresh_frame i (record k { pages = pages })).1.procs
              n
            ≡ some q
          → is_unused q.state ≡ false
      go [] h e = cc
      go (v ∷ vs) h e =
          let (p, g, c) =
            modify_entry i (set_up forkret trapret fresh_frame v k.ticks) (claimed i k).procs n q
              e in
          let (p', g', c') = modify_entry i (claim k.nextpid) k.procs n p g in
          let same : i ≡ n = cc in ground arith

  pub allocproc-embryo :
      (k : Kernel) (n : ℕ) (q : Proc)
      → (alloc k).0 ≡ some n
      → get_elem? (alloc k).1.procs n ≡ some q
      → is_unused q.state ≡ false
  unfolding allocproc
  allocproc-embryo k n q h e = go (find_unused 0 k.procs) refl
    where
      go : (r : Option ℕ) → find_unused 0 k.procs ≡ r → is_unused q.state ≡ false
      go none f = absurd (ground arith)
      go (some i) f = alloc_at-embryo i k n q (ground arith) (ground arith)
