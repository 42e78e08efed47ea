-- ===== src/Proc/Lookup.antt =====
-- get_proc_by_pid, wakeup1, kill, sleep, yield, change_queue: the functions of proc.c that search or
-- mark the table.
pub mod Laws
use operating_system_laborat.Base.{
  ℕ, zero, suc, ◌+◌, ◌&&◌, Option, none, some, List, [], ◌∷◌, map, ◌==◌, if◌then◌else◌, minus_one,
  Outcome, ok, panic, fault,
}
use operating_system_laborat.Proc.{
  ProcState, sleeping, runnable, is_sleeping, Chan, chan_eq, TimeInfo, Proc, Kernel,
}

-- The loop of `get_proc_by_pid`, `p` being the index reached.
unfoldable pub find_pid : ℕ → ℕ → List Proc → Option ℕ
find_pid pid p [] = none
find_pid pid p (x ∷ xs) = if x.pid == pid then some p else find_pid pid (p + 1) xs

unfoldable pub get_proc_by_pid : ℕ → Kernel → Option ℕ
unfolding find_pid
get_proc_by_pid pid k = find_pid pid 0 k.procs

-- The body of the loop of `wakeup1`.
unfoldable pub wake : Chan → Proc → Proc
wake c p = if is_sleeping p.state && chan_eq p.chan c then record p { state = runnable } else p

unfoldable pub wakeup1 : Chan → List Proc → List Proc
unfolding wake
wakeup1 c ps = map (wake c) ps

unfoldable pub wakeup : Chan → Kernel → Kernel
unfolding wakeup1
wakeup c k = record k { procs = wakeup1 c k.procs }

unfoldable pub kill_proc : Proc → Proc
kill_proc p = record p { killed = 1; state = if is_sleeping p.state then runnable else p.state }

-- The loop of `kill`: what it returns and the table after it.
unfoldable pub kill_loop : ℕ → List Proc → ℕ × List Proc
unfolding kill_proc
kill_loop pid [] = (minus_one, [])
kill_loop pid (p ∷ ps) =
    let (r, qs) = kill_loop pid ps in if p.pid == pid then (0, kill_proc p ∷ ps) else (r, p ∷ qs)

unfoldable pub kill : ℕ → Kernel → ℕ × Kernel
unfolding kill_loop
kill pid k = let (r, ps) = kill_loop pid k.procs in (r, record k { procs = ps })

-- Change one entry of the table; a null or wild pointer changes nothing here.
unfoldable pub modify : ℕ → (Proc → Proc) → List Proc → List Proc
modify i f [] = []
modify zero f (p ∷ ps) = f p ∷ ps
modify (suc i) f (p ∷ ps) = p ∷ modify i f ps

-- `sleep` up to its call of `sched`, where other processes run.
unfoldable pub sleep : Option ℕ → Chan → Kernel → Outcome Kernel
unfolding modify
sleep none c k = panic
sleep (some p) c k =
    ok (record k { procs = modify p (λ x. record x { chan = c; state = sleeping }) k.procs })

-- `sleep` from the return of `sched` on.
unfoldable pub awake : ℕ → Kernel → Kernel
unfolding modify
awake p k = record k { procs = modify p (λ x. record x { chan = Chan.null }) k.procs }

-- `yield` up to its call of `sched`
unfoldable pub yield : ℕ → Kernel → Kernel
unfolding modify
yield p k = record k { procs = modify p (λ x. record x { state = runnable }) k.procs }

unfoldable pub change_queue : ℕ → ℕ → Kernel → Outcome Kernel
unfolding get_proc_by_pid modify
change_queue pid target k = elim (get_proc_by_pid pid k) [
  | none ↦ fault
  | some p ↦ ok (record k {
    procs =
        modify p
          (λ x. record x { ti = record (x.ti) { queue = target; enter_queue_time = k.ticks } })
          k.procs;
  })
]

unfoldable pub set_initial_burst_confidence : ℕ → ℕ → ℕ → Kernel → Outcome Kernel
unfolding get_proc_by_pid modify
set_initial_burst_confidence pid burst confidence k = elim (get_proc_by_pid pid k) [
  | none ↦ fault
  | some p ↦ ok (record k {
    procs =
        modify p
          (λ x. record x { ti = record (x.ti) { burst_time = burst; confidence = confidence } })
          k.procs;
  })
]
