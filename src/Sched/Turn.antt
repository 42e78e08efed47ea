-- ===== src/Sched/Turn.antt =====
-- One round of the scheduler, and the timer interrupt.
use native.Mathlib.Decide.{dec_lt}
use operating_system_laborat.Base.{
  ℕ, ◌≤◌, ◌<◌, ◌≡◌, refl, subst, ◌⊎◌, inl, inr, true, false, Option, none, some, List, arith, ◌==◌,
  if◌then◌else◌, Bool-cases, Option-cases, length, get_elem?, slt, Outcome, ok,
}
use operating_system_laborat.Proc.{running, Proc, Kernel, rr, sjf, fcfs, nproc}
use operating_system_laborat.Sched.{
  round_robin, modify, turn_sjf, search_if, turn_fcfs, scheduler_turn, Cpu, eligible,
  shortest_job_first, first_come_first_service, refill, run_process_on_cpu,
}
use operating_system_laborat.Sched.RoundRobin.{round_robin_lem}
use operating_system_laborat.Sched.Found.{Finds, sjf-Finds, fcfs-Finds, Scan-Finds}
use operating_system_laborat.Sched.Choice.{NoneEligible}

-- The time that a queue has left on the processor.
abbrev pub remain : Cpu → ℕ → ℕ
remain c q =
    if q == rr then c.rr_remain_time else if q == sjf then c.sjf_remain_time else c.fcfs_remain_time

-- The queue has no time left, or no runnable process.
abbrev pub Passed : Cpu → List Proc → ℕ → Type 0
Passed c ps q = (slt 0 (remain c q) ≡ false) ⊎ NoneEligible (eligible q) ps

-- The round runs a runnable process of the first queue that has time left and a runnable process.
pub record Runs (c : Cpu) (k : Kernel) (r : Outcome (Cpu × Kernel)) : Type 0 where
  pub queue : ℕ
  pub index : ℕ
  pub entry : Proc
  pub at_index : get_elem? k.procs index ≡ some entry
  pub fits : eligible queue entry ≡ true
  pub has_time : slt 0 (remain c queue) ≡ true
  pub above : (q : ℕ) → q < queue → Passed c k.procs q
  pub runs :
      r
      ≡ run_process_on_cpu index
          (if queue == rr then record c { last_executed_proc = index } else c)
          k

-- The round finds nothing to run and gives all three queues their time again.
pub record Idles (c : Cpu) (k : Kernel) (r : Outcome (Cpu × Kernel)) : Type 0 where
  pub none_left : (q : ℕ) → q ≤ fcfs → Passed c k.procs q
  pub refills : r ≡ ok (refill c, k)

Passed-search :
    (c : Cpu) (q n : ℕ) (ps : List Proc) (r : Option ℕ)
    → remain c q ≡ n
    → Finds q ps r
    → search_if n r ≡ none
    → Passed c ps q
Passed-search c q n ps none e f h = inr f
Passed-search c q n ps (some i) e f h = elim (Bool-cases (slt 0 n)) [
  | inl t ↦ absurd (ground arith)
  | inr t ↦ inl (rw e t)
]

search_time : (n i : ℕ) (r : Option ℕ) → search_if n r ≡ some i → (slt 0 n ≡ true) × (r ≡ some i)
search_time n i r h = elim (Bool-cases (slt 0 n)) [
  | inl t ↦ (t, ground arith)
  | inr t ↦ absurd (ground arith)
]

found_entry :
    (q i : ℕ) (ps : List Proc) (r : Option ℕ)
    → r ≡ some i
    → Finds q ps r
    → (p : Proc) × (get_elem? ps i ≡ some p) × (eligible q p ≡ true)
found_entry q i ps r e f = rw e at f

abbrev RunsOrIdles : Cpu → Kernel → Outcome (Cpu × Kernel) → Type 0
RunsOrIdles c k r = Runs c k r ⊎ Idles c k r

turn_fcfs_lem :
    (c : Cpu) (k : Kernel)
    → ((q : ℕ) → q < fcfs → Passed c k.procs q)
    → RunsOrIdles c k (turn_fcfs c k)
unfolding turn_fcfs
turn_fcfs_lem c k up =
    elim (Option-cases (search_if c.fcfs_remain_time (first_come_first_service k.procs))) [
      | inl e ↦ inr (record { none_left = left e; refills = rw (e, turn_fcfs) })
      | inr (i, e) ↦
          let (t, f) = search_time _ i _ e in
          let (p, at_p, fit) = found_entry fcfs i k.procs _ f (fcfs-Finds k.procs) in
          inl (record {
            queue = fcfs;
            index = i;
            entry = p;
            at_index = at_p;
            fits = fit;
            has_time = t;
            above = up;
            runs = rw (e, turn_fcfs);
          })
    ]
  where
    left :
        search_if c.fcfs_remain_time (first_come_first_service k.procs) ≡ none
        → (q : ℕ) → q ≤ fcfs
        → Passed c k.procs q
    left e q le = elim (dec_lt q fcfs) [
      | yes lt ↦ up q lt
      | no n ↦
          let s : fcfs ≡ q = omega arith in
          subst (Passed c k.procs) s
            (Passed-search c fcfs c.fcfs_remain_time k.procs _ refl (fcfs-Finds k.procs) e)
    ]

above_sjf : (c : Cpu) (ps : List Proc) → Passed c ps rr → (q : ℕ) → q < sjf → Passed c ps q
above_sjf c ps h q lt = let s : rr ≡ q = omega arith in subst (Passed c ps) s h

above_fcfs :
    (c : Cpu) (ps : List Proc)
    → Passed c ps rr
    → Passed c ps sjf
    → (q : ℕ) → q < fcfs
    → Passed c ps q
above_fcfs c ps h g q lt = elim (dec_lt q sjf) [
  | yes l ↦ above_sjf c ps h q l
  | no n ↦ let s : sjf ≡ q = omega arith in subst (Passed c ps) s g
]

turn_sjf_lem : (c : Cpu) (k : Kernel) → Passed c k.procs rr → RunsOrIdles c k (turn_sjf c k)
unfolding turn_sjf
turn_sjf_lem c k up =
    elim (Option-cases (search_if c.sjf_remain_time (shortest_job_first k.ticks k.procs))) [
      | inl e ↦
          rw (e, turn_sjf)
            (turn_fcfs_lem c k (
              above_fcfs c k.procs up (
                Passed-search c sjf c.sjf_remain_time k.procs _ refl (sjf-Finds k.ticks k.procs)
                  e)))
      | inr (i, e) ↦
          let (t, f) = search_time _ i _ e in
          let (p, at_p, fit) = found_entry sjf i k.procs _ f (sjf-Finds k.ticks k.procs) in
          inl (record {
            queue = sjf;
            index = i;
            entry = p;
            at_index = at_p;
            fits = fit;
            has_time = t;
            above = above_sjf c k.procs up;
            runs = rw (e, turn_sjf);
          })
    ]

-- Every round of the scheduler either runs a runnable process of the highest queue that has both
-- time left and a runnable process (and notes the place if that is the RR queue), or finds that
-- no queue has both, and gives the queues 30, 20 and 10 ticks again.
pub scheduler_turn_lem :
    (c : Cpu) (k : Kernel)
    → c.last_executed_proc < nproc
    → length k.procs ≤ nproc
    → Runs c k (scheduler_turn c k) ⊎ Idles c k (scheduler_turn c k)
unfolding scheduler_turn
scheduler_turn_lem c k h l =
    elim (Option-cases (search_if c.rr_remain_time (round_robin c.last_executed_proc k.procs))) [
      | inl e ↦
          rw (e, scheduler_turn)
            (turn_sjf_lem c k (Passed-search c rr c.rr_remain_time k.procs _ refl finds e))
      | inr (i, e) ↦
          let (t, f) = search_time _ i _ e in
          let (p, at_p, fit) = found_entry rr i k.procs _ f finds in
          inl (record {
            queue = rr;
            index = i;
            entry = p;
            at_index = at_p;
            fits = fit;
            has_time = t;
            above = λ q lt. absurd (omega arith);
            runs = rw (e, scheduler_turn);
          })
    ]
  where
    finds : Finds rr k.procs (round_robin c.last_executed_proc k.procs)
    finds =
        Scan-Finds c.last_executed_proc k.procs _ h l
          (round_robin_lem c.last_executed_proc k.procs h)

-- A process that `run_process_on_cpu` takes runs, is the processor's, and no other entry changes.
pub run_process_on_cpu_lem :
    (i : ℕ) (c : Cpu) (k : Kernel) {c' : Cpu} {k' : Kernel}
    → run_process_on_cpu i c k ≡ ok (c', k')
    → (c'.proc ≡ some i)
      × (k' ≡ record k { procs = modify i (λ x. record x { state = running }) k.procs })
unfolding run_process_on_cpu
run_process_on_cpu_lem i c k h = ground arith
