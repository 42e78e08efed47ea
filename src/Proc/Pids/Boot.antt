-- ===== src/Proc/Pids/Boot.antt =====
-- What userinit does to the pids.
use operating_system_laborat.Base.{
  ℕ, ◌+◌, ◌^◌, ◌<◌, ◌≡◌, refl, subst, inl, inr, false, Option, some, List, arith, Option-cases,
  get_elem?, Outcome-cases, Outcome, ok,
}
use operating_system_laborat.Proc.{TrapFrame, Proc, Kernel, rr, is_unused}
use operating_system_laborat.Proc.Lookup.{modify, change_queue}
use operating_system_laborat.Proc.Life.{allocproc}
use operating_system_laborat.Proc.Boot.{userinit, init_proc}
use operating_system_laborat.Proc.Pids.{Pids}
use operating_system_laborat.Proc.Pids.Tables.{modify-Pids, change_queue-Pids}
use operating_system_laborat.Proc.Pids.Alloc.{allocproc-Pids, allocproc-embryo}

module _ (forkret trapret : ℕ) (fresh_frame : ℕ → TrapFrame) {I : Type 0}
    (setupkvm : List ℕ → Option ℕ × List ℕ) (inituvm : ℕ → List ℕ → Outcome (List ℕ))
    (namei_root : I → Option ℕ × I) where
  abbrev alloc : Kernel → Option ℕ × Kernel
  alloc = allocproc forkret trapret fresh_frame

  abbrev init : ℕ → Option ℕ → Proc → Proc
  init = init_proc forkret trapret fresh_frame setupkvm inituvm namei_root

  init-pid : (d : ℕ) (root : Option ℕ) (p : Proc) → (init d root p).pid ≡ p.pid
  unfolding init_proc
  init-pid d root p = refl

  -- The table that `userinit` hands to `change_queue`.
  abbrev placed : Kernel → ℕ → ℕ → Option ℕ → List ℕ → Kernel
  placed k1 n d root pages = record k1 {
    initproc = some n;
    pages = pages;
    procs = modify n (init d root) k1.procs;
  }

  placed-Pids :
      (k1 : Kernel) (n d : ℕ) (root : Option ℕ) (pages : List ℕ)
      → ((q : Proc) → get_elem? k1.procs n ≡ some q → is_unused q.state ≡ false)
      → Pids k1
      → Pids (placed k1 n d root pages)
  placed-Pids k1 n d root pages used v =
      let w = modify-Pids n (init d root) k1 (init-pid d root) used v in
      record { started = w.started; below = w.below; unique = w.unique; live = w.live }

  pub userinit-Pids :
      (k : Kernel) (s : I) (k' : Kernel) (s' : I)
      → k.nextpid + 1 < 2 ^ 31
      → userinit forkret trapret fresh_frame setupkvm inituvm namei_root k s ≡ ok (k', s')
      → Pids k
      → Pids k'
  unfolding userinit
  userinit-Pids k s k' s' h e v = elim (Option-cases (alloc k).0) [
    | inl f ↦ absurd (ground arith)
    | inr (n, f) ↦ elim (Option-cases (setupkvm (alloc k).1.pages).0) [
      | inl g ↦ absurd (ground arith)
      | inr (d, g) ↦ elim (Option-cases (get_elem? (alloc k).1.procs n)) [
        | inl l ↦ absurd (ground arith)
        | inr (p, l) ↦ elim (Outcome-cases (inituvm d (setupkvm (alloc k).1.pages).1)) [
          | inr bad ↦ absurd (ground arith)
          | inl (pages, m) ↦
              let k2 : Kernel = placed (alloc k).1 n d (namei_root s).0 pages in
              let w : Pids k2 =
                placed-Pids (alloc k).1 n d (namei_root s).0 pages
                  (λ q t. allocproc-embryo forkret trapret fresh_frame k n q f t)
                  (allocproc-Pids forkret trapret fresh_frame k h v) in
              elim (Outcome-cases (change_queue p.pid rr k2)) [
                | inr bad ↦ absurd (ground arith)
                | inl (k3, o) ↦ subst Pids (ground arith) (change_queue-Pids p.pid rr k2 k3 o w)
              ]
        ]
      ]
    ]
  ]
