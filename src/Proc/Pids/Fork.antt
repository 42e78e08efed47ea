-- ===== src/Proc/Pids/Fork.antt =====
-- What fork does to the pids.
use operating_system_laborat.Base.{
  ℕ, ◌+◌, ◌^◌, ◌<◌, ◌≡◌, refl, subst, inl, inr, false, Option, some, List, arith, ◌==◌, Bool-cases,
  Option-cases, get_elem?, Outcome-cases, ok,
}
use operating_system_laborat.File.{File}
use operating_system_laborat.Proc.{is_unused, TrapFrame, Proc, Kernel, rr}
use operating_system_laborat.Proc.Lookup.{modify}
use operating_system_laborat.Proc.Life.{
  allocproc, child, first_shell, fork_into, fork, dup_files, dup_cwd, give_back,
}
use operating_system_laborat.Kalloc.{free_page}
use operating_system_laborat.Proc.Pids.{Pids, Tame-Pids}
use operating_system_laborat.Proc.Pids.Tables.{
  modify-Tame, modify-Pids, pages-Pids, change_queue-Pids,
}
use operating_system_laborat.Proc.Pids.Alloc.{allocproc-Pids, allocproc-embryo}

module _ (forkret trapret : ℕ) (fresh_frame : ℕ → TrapFrame) where
  abbrev alloc : Kernel → Option ℕ × Kernel
  alloc = allocproc forkret trapret fresh_frame

  module _ {I : Type 0} (kernel_end : ℕ) (copyuvm : ℕ → ℕ → List ℕ → Option ℕ × List ℕ)
      (idup : ℕ → I → I) where
    first_shell-Pids :
        (pid : ℕ) (k k' : Kernel)
        → first_shell forkret trapret fresh_frame kernel_end copyuvm idup pid k ≡ ok k'
        → Pids k
        → Pids k'
    first_shell-Pids pid k k' e v = elim (Bool-cases (pid == 2)) [
      | inl y ↦ change_queue-Pids pid rr k k' (rw y at e) v
      | inr n ↦ subst Pids (ground arith) v
    ]

    fork_into-Pids :
        (cur : ℕ) (parent : Proc) (n : ℕ) (new : Proc) (pgdir : ℕ) (k : Kernel) (fs : List File)
        (s : I) (r : ℕ) (k' : Kernel) (fs' : List File) (s' : I)
        → fork_into forkret trapret fresh_frame kernel_end copyuvm idup cur parent n new pgdir k fs
            s
          ≡ ok (r, k', fs', s')
        → ((p : Proc) → get_elem? k.procs n ≡ some p → is_unused p.state ≡ false)
        → Pids k
        → Pids k'
    unfolding fork_into child
    fork_into-Pids cur parent n new pgdir k fs s r k' fs' s' e used v =
        elim (Outcome-cases (dup_files forkret trapret fresh_frame parent.ofile new.ofile fs)) [
          | inr bad ↦ absurd (ground arith)
          | inl ((files, fs1), e1) ↦
              elim (Outcome-cases
                (dup_cwd forkret trapret fresh_frame kernel_end copyuvm idup parent.cwd s)) [
                  | inr bad ↦ absurd (ground arith)
                  | inl (s1, e2) ↦
                      let k1 : Kernel = record k {
                        procs =
                            modify n
                              (child forkret trapret fresh_frame kernel_end copyuvm idup cur parent
                                pgdir files)
                              k.procs;
                      } in
                      elim (Outcome-cases (
                        first_shell forkret trapret fresh_frame kernel_end copyuvm idup new.pid
                          k1)) [
                            | inr bad ↦ absurd (ground arith)
                            | inl (k2, e3) ↦ subst Pids (ground arith) (
                                first_shell-Pids new.pid k1 k2 e3 (
                                  modify-Pids n
                                    (child forkret trapret fresh_frame kernel_end copyuvm idup cur
                                      parent pgdir files)
                                    k (λ p. refl) used v))
                          ]
                ]
        ]

    -- Whatever `fork` returns, it keeps the pids in order.
    pub fork-Pids :
        (cur : ℕ) (k : Kernel) (fs : List File) (s : I) (r : ℕ) (k' : Kernel) (fs' : List File)
        (s' : I)
        → k.nextpid + 1 < 2 ^ 31
        → fork forkret trapret fresh_frame kernel_end copyuvm idup cur k fs s ≡ ok (r, k', fs', s')
        → Pids k
        → Pids k'
    unfolding fork
    fork-Pids cur k fs s r k' fs' s' h e v = elim (Option-cases (get_elem? k.procs cur)) [
      | inl f ↦ absurd (ground arith)
      | inr (parent, f) ↦ elim (Option-cases (alloc k).0) [
        | inl f1 ↦ subst Pids (ground arith) (allocproc-Pids forkret trapret fresh_frame k h v)
        | inr (n, f1) ↦ elim (Option-cases (get_elem? (alloc k).1.procs n)) [
          | inl f2 ↦ absurd (ground arith)
          | inr (new, f2) ↦
              let pages : List ℕ = (copyuvm parent.pgdir parent.sz (alloc k).1.pages).1 in
              elim (Option-cases (copyuvm parent.pgdir parent.sz (alloc k).1.pages).0) [
                | inl f3 ↦ elim (Outcome-cases (free_page kernel_end new.kstack pages)) [
                  | inr bad ↦ absurd (ground arith)
                  | inl (ps, f4) ↦
                      let k2 : Kernel = record (alloc k).1 {
                        procs =
                            modify n (give_back forkret trapret fresh_frame kernel_end copyuvm idup)
                              (alloc k).1.procs;
                        pages = ps;
                      } in
                      let same : k2 ≡ k' = ground arith in
                      subst Pids same (
                        pages-Pids ps _ (
                          Tame-Pids (alloc k).1 _
                            (modify-Tame n
                              (give_back forkret trapret fresh_frame kernel_end copyuvm idup)
                              (alloc k).1.procs (λ p g. inl (refl, ground arith)))
                            (allocproc-Pids forkret trapret fresh_frame k h v)))
                ]
                | inr (d, f3) ↦
                    fork_into-Pids cur parent n new d (record (alloc k).1 { pages = pages }) fs s r
                      k' fs' s' (ground arith)
                      (λ q g. allocproc-embryo forkret trapret fresh_frame k n q f1 g)
                      (pages-Pids pages (alloc k).1
                        (allocproc-Pids forkret trapret fresh_frame k h v))
              ]
        ]
      ]
    ]
