-- ===== src/Tests/Table.antt =====
-- Runs of the operations on the process table.
use operating_system_laborat.Base.{
  ℕ, zero, suc, ◌≡◌, refl, ◌⊎◌, false, Option, none, some, List, [], ◌∷◌, arith, if◌then◌else◌,
  get_elem?, set, minus_one, Outcome, ok, panic, fault,
}
use operating_system_laborat.Proc.{
  is_sleeping, Proc, Kernel, Chan, sleeping, runnable, running, zombie, unused, is_parent,
  TrapFrame,
}
use operating_system_laborat.Proc.Lookup.{kill, wakeup}
use operating_system_laborat.Proc.Lookup.Laws.{kill_lem, Absent, First}
use operating_system_laborat.Proc.Life.{fork}
use operating_system_laborat.Proc.Boot.{userinit}
use operating_system_laborat.Proc.Exit.{exit_table}
use operating_system_laborat.Proc.Exit.Orphans.{exit_table_lem}
use operating_system_laborat.Proc.Wait.{wait_scan}
use operating_system_laborat.Proc.Wait.Reap.{wait_scan_lem, Scanned}
use operating_system_laborat.Proc.Pids.{Pids}
use operating_system_laborat.Proc.Pids.Reach.{Reach-Pids, Reach, Step, Fresh}
use operating_system_laborat.Sched.{Cpu, run_process_on_cpu}
use operating_system_laborat.Tests.{process, times, free_entry, frame_zero}

abbrev sleeper : Proc
sleeper = record (process sleeping 4 (some 1) (times 0 2 0)) { chan = Chan.object 7 }

-- init, a shell, its sleeping child, its exited child
abbrev table : List Proc
table =
    process sleeping 1 none (times 0 2 0)
    ∷ process running 2 (some 0) (times 0 2 0)
    ∷ sleeper
    ∷ process zombie 5 (some 1) (times 0 2 0)
    ∷ []

abbrev kernel : Kernel
kernel = record { procs = table; nextpid = 9; initproc = some 0; ticks = 0; pages = [] }

kill_example :
    (Absent 4 table × (kill 4 kernel ≡ (minus_one, kernel)))
    ⊎ ((i : ℕ) × (first : First 4 table i) × (kill 4 kernel ≡ (
      0,
      record kernel {
        procs = set table i (record first.entry {
          killed = 1;
          state = if is_sleeping first.entry.state then runnable else first.entry.state;
        });
      },
    )))
kill_example = kill_lem 4 kernel

woken :
    get_elem? (wakeup (Chan.object 7) kernel).procs 2 ≡ some (record sleeper { state = runnable })
unfolding wakeup
woken = refl

-- The value of an outcome, or d.
abbrev value_or {ℓ} : {A : Type ℓ} → A → Outcome A → A
value_or d (ok a) = a
value_or d panic = d
value_or d fault = d

abbrev after_exit : Kernel
after_exit = value_or kernel (exit_table 1 kernel)

exits : exit_table 1 kernel ≡ ok after_exit
unfolding exit_table
exits = refl

child_after : get_elem? after_exit.procs 2 ≡ some (record sleeper { parent = some 0 })
unfolding exit_table
child_after = refl

exit_example :
    (p : Proc) × (get_elem? table 2 ≡ some p)
    × (some 0 ≡ (if is_parent p.parent 1 then some 0 else p.parent))
    × ((let j : ℕ = 2 in j ≡ 1) → sleeping ≡ zombie)
exit_example =
    exit_table_lem 1 kernel after_exit exits (omega arith) 2 (record sleeper { parent = some 0 })
      child_after

wait_scan_example : Scanned 1 table 0 false (wait_scan 1 0 false table)
wait_scan_example = wait_scan_lem 1 0 false table

-- The layers below: every page table takes one page, and giving one back frees none.
abbrev frames : ℕ → TrapFrame
frames v = frame_zero

abbrev copy_pages : ℕ → ℕ → List ℕ → Option ℕ × List ℕ
copy_pages d sz [] = (none, [])
copy_pages d sz (p ∷ ps) = (some p, ps)

abbrev kernel_pages : List ℕ → Option ℕ × List ℕ
kernel_pages ps = copy_pages 0 0 ps

abbrev no_dup : ℕ → ℕ → ℕ
no_dup ip s = s

abbrev keep_pages : ℕ → List ℕ → Outcome (List ℕ)
keep_pages d ps = ok ps

abbrev root_dir : ℕ → Option ℕ × ℕ
root_dir s = (some 0, s)

abbrev empty_kernel : Kernel
empty_kernel = record {
  procs = free_entry ∷ free_entry ∷ [];
  nextpid = 1;
  initproc = none;
  ticks = 0;
  pages = 4096 ∷ 8192 ∷ 12288 ∷ 16384 ∷ [];
}

empty_kernel-Fresh : Fresh empty_kernel
empty_kernel-Fresh = record { first_pid = refl; empty = go }
  where
    go :
        (i : ℕ) (p : Proc)
        → get_elem? empty_kernel.procs i ≡ some p
        → (p.state ≡ unused) × (p.pid ≡ 0)
    go zero p e = ground arith
    go (suc zero) p e = ground arith
    go (suc (suc i)) p e = absurd (ground arith)

abbrev cpu : Cpu
cpu = record {
  proc = none;
  rr_remain_time = 30;
  sjf_remain_time = 20;
  fcfs_remain_time = 10;
  last_executed_proc = 0;
}

abbrev booted : Kernel
booted =
    (value_or (empty_kernel, 0)
      (userinit 1 2 frames kernel_pages keep_pages root_dir empty_kernel 0)).0

abbrev running_kernel : Kernel
running_kernel = (value_or (cpu, empty_kernel) (run_process_on_cpu 0 cpu booted)).1

abbrev forked : Kernel
forked =
    (value_or (0, empty_kernel, [], 0)
      (fork 1 2 frames 0 copy_pages no_dup 0 running_kernel [] 0)).1

abbrev Moves : Kernel → Kernel → Type 0
Moves = Step 1 2 frames 0 copy_pages no_dup keep_pages kernel_pages keep_pages root_dir

boot_step : Moves empty_kernel booted
unfolding userinit run_process_on_cpu fork
boot_step = Step.starts empty_kernel 0 booted 0 (omega arith) refl

run_step : Moves booted running_kernel
unfolding userinit run_process_on_cpu fork
run_step = Step.runs 0 cpu booted _ (record cpu { proc = some 0 }) running_kernel refl refl refl

fork_step : Moves running_kernel forked
unfolding userinit run_process_on_cpu fork
fork_step = Step.forks 0 running_kernel [] 0 2 forked [] 0 (_, refl, refl) (omega arith) refl

forked-Reach :
    Reach 1 2 frames 0 copy_pages no_dup keep_pages kernel_pages keep_pages root_dir forked
forked-Reach =
    Reach.later running_kernel forked
      (Reach.later booted running_kernel
        (Reach.later empty_kernel booted (Reach.boots empty_kernel empty_kernel-Fresh) boot_step)
        run_step)
      fork_step

reach_example : Pids forked
reach_example =
    Reach-Pids 1 2 frames 0 copy_pages no_dup keep_pages kernel_pages keep_pages root_dir forked
      forked-Reach
