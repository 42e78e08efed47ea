-- ===== src/Proc/Pids/Reach.antt =====
-- Every kernel that can be reached from the first table, by any sequence of these operations.
use operating_system_laborat.Base.{
  ℕ, ◌+◌, ◌^◌, ◌<◌, ◌≡◌, refl, sym, subst, false, Option, some, List, arith, get_elem?, u32,
  Outcome, ok,
}
use operating_system_laborat.File.{File}
use operating_system_laborat.Proc.{
  unused, sleeping, running, runnable, is_unused, Chan, TrapFrame, Proc, Kernel,
}
use operating_system_laborat.Proc.Lookup.{wakeup, kill, sleep, awake, yield, modify, change_queue}
use operating_system_laborat.Proc.Life.{fork}
use operating_system_laborat.Proc.Exit.{exit_table}
use operating_system_laborat.Proc.Wait.{wait, WaitEnd}
use operating_system_laborat.Proc.Pids.{Pids}
use operating_system_laborat.Proc.Pids.Tables.{
  modify-Pids, wakeup-Pids, kill-Pids, change_queue-Pids,
}
use operating_system_laborat.Sched.{Cpu, run_process_on_cpu}
use operating_system_laborat.Sched.Turn.{run_process_on_cpu_lem}
use operating_system_laborat.Proc.Boot.{userinit}
use operating_system_laborat.Proc.Pids.Boot.{userinit-Pids}
use operating_system_laborat.Proc.Pids.Fork.{fork-Pids}
use operating_system_laborat.Proc.Pids.Wait.{wait-Pids}
use operating_system_laborat.Proc.Pids.Exit.{exit_table-Pids}

-- Entry i runs.
abbrev pub RunsAt : ℕ → Kernel → Type 0
RunsAt i k = (p : Proc) × (get_elem? k.procs i ≡ some p) × (p.state ≡ running)

runs-in_use :
    (i : ℕ) (k : Kernel)
    → RunsAt i k
    → (p : Proc) → get_elem? k.procs i ≡ some p
    → is_unused p.state ≡ false
runs-in_use i k (q, e, r) p f = ground arith

-- The first table: no entry is used, and none has a pid.
pub record Fresh (k : Kernel) : Type 0 where
  pub first_pid : k.nextpid ≡ 1
  pub empty : (i : ℕ) (p : Proc) → get_elem? k.procs i ≡ some p → (p.state ≡ unused) × (p.pid ≡ 0)

Fresh-Pids : (k : Kernel) → Fresh k → Pids k
Fresh-Pids k f = record {
  started = omega (arith, f.first_pid);
  below = λ i p e. omega (arith, f.first_pid, (f.empty i p e).1);
  unique = λ i j p q e g s nz. absurd (nz ((f.empty i p e).1));
  live = λ i p e u. absurd (ground (arith, f.empty i p e));
}

module _ (forkret trapret : ℕ) (fresh_frame : ℕ → TrapFrame) {I : Type 0} (kernel_end : ℕ)
    (copyuvm : ℕ → ℕ → List ℕ → Option ℕ × List ℕ) (idup : ℕ → I → I)
    (freevm : ℕ → List ℕ → Outcome (List ℕ)) (setupkvm : List ℕ → Option ℕ × List ℕ)
    (inituvm : ℕ → List ℕ → Outcome (List ℕ)) (namei_root : I → Option ℕ × I) where
  -- One operation on the table. A system call is made by the process that runs; `fork` hands
  -- out a pid, of which there are 2^31.
  pub data Step : Kernel → Kernel → Type 0 where
    starts :
        (k : Kernel) (s : I) (k' : Kernel) (s' : I)
        → k.nextpid + 1 < 2 ^ 31
        → userinit forkret trapret fresh_frame setupkvm inituvm namei_root k s ≡ ok (k', s')
        → Step k k'
    runs :
        (i : ℕ) (c : Cpu) (k : Kernel) (p : Proc) (c' : Cpu) (k' : Kernel)
        → get_elem? k.procs i ≡ some p
        → p.state ≡ runnable
        → run_process_on_cpu i c k ≡ ok (c', k')
        → Step k k'
    forks :
        (cur : ℕ) (k : Kernel) (fs : List File) (s : I) (r : ℕ) (k' : Kernel) (fs' : List File)
        (s' : I)
        → RunsAt cur k
        → k.nextpid + 1 < 2 ^ 31
        → fork forkret trapret fresh_frame kernel_end copyuvm idup cur k fs s ≡ ok (r, k', fs', s')
        → Step k k'
    exits : (cur : ℕ) (k k' : Kernel) → RunsAt cur k → exit_table cur k ≡ ok k' → Step k k'
    waits :
        (cur : ℕ) (k : Kernel) (w : WaitEnd) (k' : Kernel)
        → RunsAt cur k
        → wait kernel_end freevm cur k ≡ ok (w, k')
        → Step k k'
    sleeps :
        (cur : ℕ) (c : Chan) (k k' : Kernel)
        → RunsAt cur k
        → sleep (some cur) c k ≡ ok k'
        → Step k k'
    goes_on : (cur : ℕ) (k : Kernel) → RunsAt cur k → Step k (awake cur k)
    yields : (cur : ℕ) (k : Kernel) → RunsAt cur k → Step k (yield cur k)
    wakes : (c : Chan) (k : Kernel) → Step k (wakeup c k)
    kills : (pid : ℕ) (k : Kernel) → Step k (kill pid k).1
    requeues : (pid target : ℕ) (k k' : Kernel) → change_queue pid target k ≡ ok k' → Step k k'
    ticks : (k : Kernel) → Step k (record k { ticks = u32 (k.ticks + 1) })

  slept :
      (cur : ℕ) (c : Chan) (k k' : Kernel)
      → sleep (some cur) c k ≡ ok k'
      → record k { procs = modify cur (λ x. record x { chan = c; state = sleeping }) k.procs } ≡ k'
  unfolding sleep
  slept cur c k k' e = cc

  Step-Pids : (k k' : Kernel) → Step k k' → Pids k → Pids k'
  unfolding sleep awake yield
  Step-Pids _ _ (starts k s k' s' h e) v =
      userinit-Pids forkret trapret fresh_frame setupkvm inituvm namei_root k s k' s' h e v
  Step-Pids _ _ (runs i c k p c' k' f r e) v =
      subst Pids (sym (run_process_on_cpu_lem i c k e).1)
        (modify-Pids i (λ x. record x { state = running }) k (λ q. refl) (λ q g. ground arith) v)
  Step-Pids _ _ (forks cur k fs s r k' fs' s' run h e) v =
      fork-Pids forkret trapret fresh_frame kernel_end copyuvm idup cur k fs s r k' fs' s' h e v
  Step-Pids _ _ (exits cur k k' run e) v = exit_table-Pids cur k k' e (runs-in_use cur k run) v
  Step-Pids _ _ (waits cur k w k' run e) v =
      wait-Pids kernel_end freevm cur k w k' e (runs-in_use cur k run) v
  Step-Pids _ _ (sleeps cur c k k' run e) v = subst Pids (slept cur c k k' e) (
      modify-Pids cur (λ x. record x { chan = c; state = sleeping }) k (λ p. refl)
        (runs-in_use cur k run) v)
  Step-Pids _ _ (goes_on cur k run) v =
      modify-Pids cur (λ x. record x { chan = Chan.null }) k (λ p. refl) (runs-in_use cur k run) v
  Step-Pids _ _ (yields cur k run) v =
      modify-Pids cur (λ x. record x { state = runnable }) k (λ p. refl) (runs-in_use cur k run) v
  Step-Pids _ _ (wakes c k) v = wakeup-Pids c k v
  Step-Pids _ _ (kills pid k) v = kill-Pids pid k v
  Step-Pids _ _ (requeues pid target k k' e) v = change_queue-Pids pid target k k' e v
  Step-Pids _ _ (ticks k) v = record {
    started = v.started;
    below = v.below;
    unique = v.unique;
    live = v.live;
  }

  pub data Reach : Kernel → Type 0 where
    boots : (k : Kernel) → Fresh k → Reach k
    later : (k k' : Kernel) → Reach k → Step k k' → Reach k'

  -- In every table that can be reached from the empty one, no two processes have the same pid,
  -- a process in use has a pid other than 0, and every pid is below the next one.
  pub Reach-Pids : (k : Kernel) → Reach k → Pids k
  Reach-Pids _ (boots k f) = Fresh-Pids k f
  Reach-Pids _ (later k k' r s) = Step-Pids k k' s (Reach-Pids k r)
