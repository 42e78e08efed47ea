-- ===== src/Proc/Pids/Wait.antt =====
-- What wait does to the pids.
use operating_system_laborat.Base.{
  ℕ, ◌≡◌, refl, subst, inl, inr, false, not, ◌||◌, some, List, arith, ◌==◌, Bool-cases,
  Option-cases, get_elem?, Outcome-cases, Outcome, ok,
}
use operating_system_laborat.Proc.{is_unused, Proc, Kernel}
use operating_system_laborat.Proc.Lookup.{modify}
use operating_system_laborat.Proc.Life.{}
use operating_system_laborat.Kalloc.{free_page}
use operating_system_laborat.Proc.Wait.{wait_scan, reaped, WaitEnd, fall_asleep, reap, wait}
use operating_system_laborat.Proc.Pids.{Pids, Tame-Pids}
use operating_system_laborat.Proc.Pids.Tables.{modify-Tame, modify-Pids, pages-Pids}

module _ (kernel_end : ℕ) (freevm : ℕ → List ℕ → Outcome (List ℕ)) where
  reap-Pids :
      (i : ℕ) (p : Proc) (k : Kernel) (w : WaitEnd) (k' : Kernel)
      → reap kernel_end freevm i p k ≡ ok (w, k')
      → Pids k
      → Pids k'
  unfolding reap
  reap-Pids i p k w k' e v = elim (Outcome-cases (free_page kernel_end p.kstack k.pages)) [
    | inr bad ↦ absurd (ground arith)
    | inl (ps, f) ↦ elim (Outcome-cases (freevm p.pgdir ps)) [
      | inr bad ↦ absurd (ground arith)
      | inl (qs, g) ↦
          let k2 : Kernel = record k { procs = modify i reaped k.procs; pages = qs } in
          let same : k2 ≡ k' = ground arith in
          subst Pids same (
            pages-Pids qs _
              (Tame-Pids k _ (modify-Tame i reaped k.procs (λ x h. inr (refl, refl))) v))
    ]
  ]

  -- Whatever `wait` returns, it keeps the pids in order, for a caller that is in use.
  pub wait-Pids :
      (cur : ℕ) (k : Kernel) (w : WaitEnd) (k' : Kernel)
      → wait kernel_end freevm cur k ≡ ok (w, k')
      → ((p : Proc) → get_elem? k.procs cur ≡ some p → is_unused p.state ≡ false)
      → Pids k
      → Pids k'
  unfolding wait
  wait-Pids cur k w k' e used v = elim (Option-cases (get_elem? k.procs cur)) [
    | inl f ↦ absurd (ground arith)
    | inr (me, f) ↦ elim (Option-cases (wait_scan cur 0 false k.procs).0) [
      | inr (i, g) ↦ elim (Option-cases (get_elem? k.procs i)) [
        | inl h ↦ absurd (ground arith)
        | inr (p, h) ↦ reap-Pids i p k w k' (ground arith) v
      ]
      | inl g ↦ elim (Bool-cases (not (wait_scan cur 0 false k.procs).1 || not (me.killed == 0))) [
        | inl stop ↦ subst Pids (ground arith) v
        | inr go ↦
            let k2 : Kernel = record k { procs = modify cur (fall_asleep cur) k.procs } in
            let same : k2 ≡ k' = ground arith in
            subst Pids same (modify-Pids cur (fall_asleep cur) k (λ p. refl) used v)
      ]
    ]
  ]
