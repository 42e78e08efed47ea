-- ===== src/Tests/Sched.antt =====
-- Runs of the scheduler.
use operating_system_laborat.Base.{
  ℕ, zero, suc, ◌+◌, ◌≤◌, ◌≡◌, refl, ◌⊎◌, true, none, some, List, [], ◌∷◌, map, arith, get_elem?,
  replicate, ok,
}
use operating_system_laborat.Proc.{Proc, runnable, running, rr, sjf, fcfs, nproc}
use operating_system_laborat.Sched.{
  Cpu, scheduler_turn, aging, round_robin, first_come_first_service, shortest_job_first, eligible,
  quantum_ticks,
}
use operating_system_laborat.Sched.Turn.{scheduler_turn_lem, Runs, Idles}
use operating_system_laborat.Sched.Aging.{aging_lem, UniquePids, promote}
use operating_system_laborat.Sched.RoundRobin.{round_robin_lem, Scan}
use operating_system_laborat.Sched.Choice.{
  first_come_first_service_lem, shortest_job_first-lucky, Chosen, arrival, burst, lucky,
}
use operating_system_laborat.Sched.Tick.{quantum_lem, Kept, ticks_run}
use operating_system_laborat.Tests.{process, times, free_entry, kernel}

abbrev shell : Proc
shell = process runnable 2 (some 0) (times rr 2 0)

abbrev long_job : Proc
long_job = process runnable 3 (some 0) (times sjf 9 5)

abbrev short_job : Proc
short_job = process runnable 4 (some 0) (times sjf 3 6)

abbrev batch : Proc
batch = process runnable 5 (some 0) (times fcfs 2 7)

abbrev table : List Proc
table = long_job ∷ shell ∷ short_job ∷ batch ∷ []

abbrev cpu : ℕ → Cpu
cpu left = record {
  proc = none;
  rr_remain_time = left;
  sjf_remain_time = 20;
  fcfs_remain_time = 10;
  last_executed_proc = 1;
}

scheduler_turn_example :
    Runs (cpu 0) (kernel table 10) (scheduler_turn (cpu 0) (kernel table 10))
    ⊎ Idles (cpu 0) (kernel table 10) (scheduler_turn (cpu 0) (kernel table 10))
scheduler_turn_example = scheduler_turn_lem (cpu 0) (kernel table 10) (omega arith) (omega arith)

abbrev full_table : List Proc
full_table = batch ∷ replicate 63 free_entry

replicate_entry : (n i : ℕ) (p q : Proc) → get_elem? (replicate n p) i ≡ some q → q ≡ p
replicate_entry zero i p q e = cc
replicate_entry (suc n) zero p q e = cc
replicate_entry (suc n) (suc i) p q e = replicate_entry n i p q e

full_table-UniquePids : UniquePids full_table
full_table-UniquePids zero zero p q e f r s = refl
full_table-UniquePids zero (suc j) p q e f r s =
    absurd (ground (arith, replicate_entry 63 j free_entry q f))
full_table-UniquePids (suc i) j p q e f r s =
    absurd (ground (arith, replicate_entry 63 i free_entry p e))

aging_example :
    aging (kernel full_table 1000)
    ≡ ok (record (kernel full_table 1000) { procs = map (promote 1000) full_table })
aging_example = aging_lem (kernel full_table 1000) refl full_table-UniquePids

round_robin_example : Scan nproc 2 table (round_robin 2 table)
round_robin_example = round_robin_lem 2 table (omega arith)

first_come_first_service_example :
    Chosen (eligible fcfs) arrival table (first_come_first_service table)
first_come_first_service_example = first_come_first_service_lem table

job_at : (t : ℕ) → (j : ℕ) (p : Proc) → get_elem? table j ≡ some p → lucky t p ≡ lucky t shell
job_at t zero p e = ground arith
job_at t (suc zero) p e = ground arith
job_at t (suc (suc zero)) p e = ground arith
job_at t (suc (suc (suc zero))) p e = ground arith
job_at t (suc (suc (suc (suc j)))) p e = ground arith

lucky_example : Chosen (eligible sjf) burst table (shortest_job_first 10 table)
lucky_example = shortest_job_first-lucky 10 table (λ j p e f. job_at 10 j p e)

abbrev busy : Proc
busy = process running 3 (some 0) (times rr 2 0)

quantum_example :
    ((n : ℕ) → n ≤ quantum_ticks → Kept n busy (ticks_run n busy))
    × ((ticks_run (quantum_ticks + 1) busy).1 ≡ true)
    × ((ticks_run (quantum_ticks + 1) busy).0.state ≡ runnable)
    × ((ticks_run (quantum_ticks + 1) busy).0.ti.ticks_used ≡ 0)
quantum_example = quantum_lem busy refl
