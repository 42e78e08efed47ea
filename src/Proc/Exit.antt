-- ===== src/Proc/Exit.antt =====
-- exit of proc.c, in the two parts between which other processes may run: the files and the
-- directory are let go, then the table is changed and the processor given up for good.
pub mod Orphans
use operating_system_laborat.Base.{
  ℕ, zero, suc, ◌+◌, Option, none, some, List, [], ◌∷◌, map, if◌then◌else◌, get_elem?, Outcome, ok,
  panic, fault, ◌>>=◌,
}
use operating_system_laborat.File.{File, Closing, fileclose}
use operating_system_laborat.Proc.{
  nproc, ProcState, zombie, is_zombie, is_parent, Chan, null, proc_chan, Proc, Kernel,
}
use operating_system_laborat.Proc.Lookup.{modify, wakeup1}

-- The loop over the open files: what each `fileclose` lets go, in order, and the file table.
unfoldable pub close_files : List (Option ℕ) → List File → Outcome (List Closing × List File)
unfolding fileclose
close_files [] fs = ok ([], fs)
close_files (none ∷ os) fs = close_files os fs
close_files (some f ∷ os) fs =
    fileclose f fs >>= λ (c, fs'). close_files os fs' >>= λ (cs, fs''). ok (c ∷ cs, fs'')

abbrev pub without_files : Proc → Proc
without_files p = record p { ofile = map (λ o. none) p.ofile; cwd = none }

-- `exit` up to `curproc->cwd = 0`. `put_cwd` stands for iput in a transaction of its own.
module _ {I : Type 0} (put_cwd : ℕ → I → I) where
  unfoldable pub exit_files :
      ℕ → Kernel → List File → I → Outcome (List Closing × Kernel × List File × I)
  unfolding close_files modify
  exit_files cur k fs s = elim (get_elem? k.procs cur) [
    | none ↦ fault
    | some p ↦
        if is_parent k.initproc cur
        then panic
        else (close_files p.ofile fs >>= λ (cs, fs'). elim p.cwd [
          | none ↦ fault
          | some ip ↦
              ok (cs, record k { procs = modify cur without_files k.procs }, fs', put_cwd ip s)
        ])
  ]

-- A parent's pointer as a channel.
abbrev pub parent_chan : Option ℕ → Chan
parent_chan none = null
parent_chan (some i) = proc_chan i

-- The body of the loop that passes abandoned children to init.
unfoldable pub pass_on : ℕ → Option ℕ → ℕ → List Proc → List Proc
unfolding modify wakeup1
pass_on cur init i ps = elim (get_elem? ps i) [
  | none ↦ ps
  | some p ↦
      if is_parent p.parent cur
      then (let qs = modify i (λ x. record x { parent = init }) ps in
          if is_zombie p.state then wakeup1 (parent_chan init) qs else qs)
      else ps
]

unfoldable pub pass_on_loop : ℕ → ℕ → Option ℕ → ℕ → List Proc → List Proc
unfolding pass_on
pass_on_loop zero cur init i ps = ps
pass_on_loop (suc n) cur init i ps = pass_on_loop n cur init (i + 1) (pass_on cur init i ps)

-- `exit` from its `acquire(&ptable.lock)` to its call of `sched`, which does not return.
unfoldable pub exit_table : ℕ → Kernel → Outcome Kernel
unfolding pass_on_loop modify wakeup1
exit_table cur k = elim (get_elem? k.procs cur) [
  | none ↦ fault
  | some p ↦ ok (record k {
    procs =
        modify cur (λ x. record x { state = zombie })
          (pass_on_loop nproc cur k.initproc 0 (wakeup1 (parent_chan p.parent) k.procs));
  })
]
