-- ===== src/Sched.antt =====
-- The scheduler of proc.c, its three queues, and the share of trap.c in it: the choice of the next
-- process, the time slices of the queues, aging. As in Proc.antt the lock does not show.
pub mod Choice
pub mod RoundRobin
pub mod Aging
pub mod Found
pub mod Turn
pub mod Tick
use operating_system_laborat.Base.{
  ℕ, zero, suc, ◌+◌, ◌*◌, ◌/◌, ◌%◌, Bool, true, false, not, ◌&&◌, ◌||◌, Option, none, some, List,
  [], ◌∷◌, ltb, leb, ◌==◌, if◌then◌else◌, get_elem?, u32, sub32, slt, Outcome, ok, panic, fault,
  ◌>>=◌,
}
use operating_system_laborat.Proc.{
  ProcState, running, runnable, is_runnable, is_running, TimeInfo, Proc, Kernel, rr, sjf, fcfs,
  nproc,
}
use operating_system_laborat.Proc.Lookup.{modify, change_queue, yield}

-- The test of the three searches: the process can run and lies in this queue.
abbrev pub eligible : ℕ → Proc → Bool
eligible q p = is_runnable p.state && p.ti.queue == q

abbrev pub eligible_at : ℕ → List Proc → ℕ → Bool
eligible_at q ps i = elim (get_elem? ps i) [ none ↦ false | some p ↦ eligible q p ]

-- The loop of `round_robin`: the rounds left and the index of `p`.
unfoldable pub round_robin_loop : ℕ → ℕ → List Proc → Option ℕ
round_robin_loop zero p ps = none
round_robin_loop (suc n) p ps =
    let q = if leb nproc p then 0 else p in
    let rest = round_robin_loop n (q + 1) ps in if eligible_at rr ps q then some q else rest

-- `sizeof(ptable.proc)`, the number of bytes of the table: 64 times 256.
abbrev pub sizeof_table : ℕ
sizeof_table = 16384

unfoldable pub round_robin : ℕ → List Proc → Option ℕ
unfolding round_robin_loop
round_robin last ps = round_robin_loop sizeof_table last ps

-- The loop that `shortest_job_first` and `first_come_first_service` share: `better p b` is the
-- test by which `p` replaces the best so far, `b`.
module _ (elig : Proc → Bool) (better : Proc → Proc → Bool) where
  unfoldable pub pick_step : ℕ → Proc → Option (ℕ × Proc) → Option (ℕ × Proc)
  pick_step i p none = if elig p then some (i, p) else none
  pick_step i p (some (b, x)) =
      if elig p then some (if better p x then (i, p) else (b, x)) else some (b, x)

  unfoldable pub pick_loop : ℕ → Option (ℕ × Proc) → List Proc → Option (ℕ × Proc)
  unfolding pick_step
  pick_loop i best [] = best
  pick_loop i best (p ∷ ps) = pick_loop (i + 1) (pick_step i p best) ps

abbrev pub pointer : Option (ℕ × Proc) → Option ℕ
pointer none = none
pointer (some (i, p)) = some i

-- `create_random_number`; the caller's seed is not 0.
abbrev pub create_random_number : ℕ → ℕ → ℕ
create_random_number ticks seed = ticks % seed

-- Shorter, and lucky: the confidence is above the random number.
abbrev pub shorter : ℕ → Proc → Proc → Bool
shorter ticks p b =
    slt p.ti.burst_time b.ti.burst_time && slt (create_random_number ticks 100) p.ti.confidence

unfoldable pub shortest_job_first : ℕ → List Proc → Option ℕ
unfolding pick_loop
shortest_job_first ticks ps = pointer (pick_loop (eligible sjf) (shorter ticks) 0 none ps)

abbrev pub earlier : Proc → Proc → Bool
earlier p b = slt p.ti.enter_queue_time b.ti.enter_queue_time

unfoldable pub first_come_first_service : List Proc → Option ℕ
unfolding pick_loop
first_come_first_service ps = pointer (pick_loop (eligible fcfs) earlier 0 none ps)

abbrev pub starvation_boundary : ℕ
starvation_boundary = 800

-- The test of `aging` on the unsigned distances to the two times.
abbrev pub waited : ℕ → Proc → Bool
waited ticks p =
    ltb starvation_boundary (sub32 ticks p.ti.last_run_time)
    && ltb starvation_boundary (sub32 ticks p.ti.enter_queue_time)

-- One round of the loop of `aging`.
unfoldable pub age_entry : ℕ → Kernel → Outcome Kernel
unfolding change_queue
age_entry i k = elim (get_elem? k.procs i) [
  | none ↦ fault
  | some p ↦
      if not (is_runnable p.state) || p.ti.queue == rr
      then ok k
      else if waited k.ticks p
      then if p.ti.queue == sjf
        then change_queue p.pid rr k
        else if p.ti.queue == fcfs
        then change_queue p.pid sjf k
        else ok k
      else ok k
]

unfoldable pub aging_loop : ℕ → ℕ → Kernel → Outcome Kernel
unfolding age_entry
aging_loop zero i k = ok k
aging_loop (suc n) i k = age_entry i k >>= λ k'. aging_loop n (i + 1) k'

unfoldable pub aging : Kernel → Outcome Kernel
unfolding aging_loop
aging k = aging_loop nproc 0 k

-- `struct cpu`, as far as the scheduler uses it, with the local variable of `scheduler`. The times
-- are words of ints.
pub record Cpu : Type 0 where
  pub proc : Option ℕ
  pub rr_remain_time : ℕ
  pub sjf_remain_time : ℕ
  pub fcfs_remain_time : ℕ
  pub last_executed_proc : ℕ

-- `run_process_on_cpu` up to the switch to the process; `switchuvm` panics without a kernel stack
-- or a page directory.
unfoldable pub run_process_on_cpu : ℕ → Cpu → Kernel → Outcome (Cpu × Kernel)
unfolding modify
run_process_on_cpu i c k = elim (get_elem? k.procs i) [
  | none ↦ fault
  | some p ↦
      if p.kstack == 0 || p.pgdir == 0
      then panic
      else ok (
        record c { proc = some i },
        record k { procs = modify i (λ x. record x { state = running }) k.procs },
      )
]

-- The weights times TIME_SLICE_UNIT over SYS_TICK.
abbrev pub refill : Cpu → Cpu
refill c = record c {
  rr_remain_time = 3 * 100 / 10;
  sjf_remain_time = 2 * 100 / 10;
  fcfs_remain_time = 1 * 100 / 10;
}

-- The search of one queue, made only while the queue has time left.
abbrev pub search_if : ℕ → Option ℕ → Option ℕ
search_if remain found = if slt 0 remain then found else none

-- The last branch of the loop body.
unfoldable pub turn_fcfs : Cpu → Kernel → Outcome (Cpu × Kernel)
unfolding run_process_on_cpu first_come_first_service
turn_fcfs c k = elim (search_if c.fcfs_remain_time (first_come_first_service k.procs)) [
  | some p ↦ run_process_on_cpu p c k
  | none ↦ ok (refill c, k)
]

unfoldable pub turn_sjf : Cpu → Kernel → Outcome (Cpu × Kernel)
unfolding run_process_on_cpu shortest_job_first turn_fcfs
turn_sjf c k = elim (search_if c.sjf_remain_time (shortest_job_first k.ticks k.procs)) [
  | some p ↦ run_process_on_cpu p c k
  | none ↦ turn_fcfs c k
]

-- One round of the loop of `scheduler`, up to the switch to the chosen process.
unfoldable pub scheduler_turn : Cpu → Kernel → Outcome (Cpu × Kernel)
unfolding run_process_on_cpu round_robin turn_sjf
scheduler_turn c k = elim (search_if c.rr_remain_time (round_robin c.last_executed_proc k.procs)) [
  | some p ↦ run_process_on_cpu p (record c { last_executed_proc = p }) k
  | none ↦ turn_sjf c k
]

-- `update_remain_times` of trap.c, for a process in queue q
unfoldable pub update_remain_times : ℕ → Cpu → Cpu
update_remain_times q c =
    if q == rr
    then record c { rr_remain_time = sub32 c.rr_remain_time 1 }
    else if q == sjf
    then record c { sjf_remain_time = sub32 c.sjf_remain_time 1 }
    else if q == fcfs
    then record c { fcfs_remain_time = sub32 c.fcfs_remain_time 1 }
    else c

-- QUANTUM / SYS_TICK
abbrev pub quantum_ticks : ℕ
quantum_ticks = 50 / 10

-- What a timer interrupt does to the process on the processor at the end of `trap`; the
-- flag says that it gives the processor up.
unfoldable pub tick_proc : Proc → Proc × Bool
tick_proc p =
    if not (slt p.ti.ticks_used quantum_ticks)
    then (record p { ti = record (p.ti) { ticks_used = 0 }; state = runnable }, true)
    else (
      record p {
        ti = record (p.ti) {
          ticks_used = u32 (p.ti.ticks_used + 1);
          last_run_time = u32 (p.ti.last_run_time + 1);
        };
      },
      false,
    )

-- The last part of `trap` for a timer interrupt, with the processor's running process.
unfoldable pub timer_tail : Cpu → Kernel → Cpu × Kernel
unfolding update_remain_times tick_proc modify
timer_tail c k = elim c.proc [
  | none ↦ (c, k)
  | some i ↦ elim (get_elem? k.procs i) [
    | none ↦ (c, k)
    | some p ↦
        if is_running p.state
        then (
          update_remain_times p.ti.queue c,
          record k { procs = modify i (λ x. (tick_proc x).0) k.procs },
        )
        else (c, k)
  ]
]
