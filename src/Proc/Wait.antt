-- ===== src/Proc/Wait.antt =====
-- wait of proc.c: one scan of the table, up to the return or to the `sleep`, after which it is
-- done again.
pub mod Reap
use operating_system_laborat.Base.{
  ℕ, ◌+◌, Bool, true, false, not, ◌&&◌, ◌||◌, Option, none, some, List, [], ◌∷◌, ◌==◌,
  if◌then◌else◌, get_elem?, Outcome, ok, fault, ◌>>=◌,
}
use operating_system_laborat.Kalloc.{free_page}
use operating_system_laborat.Proc.{
  ProcState, unused, sleeping, is_zombie, is_parent, Chan, proc_chan, Proc, Kernel,
}
use operating_system_laborat.Proc.Lookup.{modify}

-- The scan from index i on: the first child that has exited, and `havekids`.
unfoldable pub wait_scan : ℕ → ℕ → Bool → List Proc → Option ℕ × Bool
wait_scan cur i havekids [] = (none, havekids)
wait_scan cur i havekids (p ∷ ps) =
    let mine = is_parent p.parent cur in
    let rest = wait_scan cur (i + 1) (if mine then true else havekids) ps in
    if mine && is_zombie p.state then (some i, true) else rest

-- The fields that `wait` clears.
abbrev pub reaped : Proc → Proc
reaped p = record p {
  kstack = 0;
  pid = 0;
  parent = none;
  name = λ i. if i == 0 then 0 else p.name i;
  killed = 0;
  state = unused;
}

pub data WaitEnd : Type 0 where
  got : ℕ → WaitEnd  -- the pid of the child
  no_child : WaitEnd  -- -1
  wait_sleeps : WaitEnd

abbrev pub fall_asleep : ℕ → Proc → Proc
fall_asleep cur p = record p { chan = proc_chan cur; state = sleeping }

-- `freevm` of vm.c on the free pages; it panics itself without a page directory.
module _ (kernel_end : ℕ) (freevm : ℕ → List ℕ → Outcome (List ℕ)) where
  unfoldable pub reap : ℕ → Proc → Kernel → Outcome (WaitEnd × Kernel)
  unfolding modify free_page
  reap i p k = free_page kernel_end p.kstack k.pages >>= λ pages. freevm p.pgdir pages >>= λ pages'.
      ok (got p.pid, record k { procs = modify i reaped k.procs; pages = pages' })

  unfoldable pub wait : ℕ → Kernel → Outcome (WaitEnd × Kernel)
  unfolding wait_scan reap modify
  wait cur k = elim (get_elem? k.procs cur) [
    | none ↦ fault
    | some me ↦
        let (child, havekids) = wait_scan cur 0 false k.procs in
        elim child [
          | some i ↦ elim (get_elem? k.procs i) [ none ↦ fault | some p ↦ reap i p k ]
          | none ↦
              if not havekids || not (me.killed == 0)
              then ok (no_child, k)
              else ok (wait_sleeps, record k { procs = modify cur (fall_asleep cur) k.procs })
        ]
  ]
