-- ===== src/Sched/Tick.antt =====
-- The timer interrupt's share of the scheduling.
use operating_system_laborat.Base.{
  ℕ, zero, suc, ◌+◌, ◌%◌, ◌^◌, ◌≤◌, ◌<◌, ◌≡◌, refl, sym, ap, ◌∙◌, Bool, true, false, arith,
  if◌then◌else◌,
}
use operating_system_laborat.Proc.{runnable, Proc}
use operating_system_laborat.Sched.{quantum_ticks, tick_proc}

-- n timer interrupts of a process that runs all the time; the flag says that the last one
-- made it give the processor up.
pub ticks_run : ℕ → Proc → Proc × Bool
unfolding tick_proc
ticks_run zero p = (p, false)
ticks_run (suc n) p = let (q, gone) = tick_proc p in if gone then (q, true) else ticks_run n q

tick_proc_early :
    (p : Proc)
    → p.ti.ticks_used < quantum_ticks
    → ((tick_proc p).1 ≡ false)
      × ((tick_proc p).0.ti.ticks_used ≡ p.ti.ticks_used + 1)
      × ((tick_proc p).0.state ≡ p.state)
      × ((tick_proc p).0.ti.last_run_time ≡ (p.ti.last_run_time + 1) % 2 ^ 32)
unfolding tick_proc
tick_proc_early p h = ground arith

tick_proc_late :
    (p : Proc)
    → p.ti.ticks_used ≡ quantum_ticks
    → ((tick_proc p).1 ≡ true)
      × ((tick_proc p).0.state ≡ runnable)
      × ((tick_proc p).0.ti.ticks_used ≡ 0)
unfolding tick_proc
tick_proc_late p h = ground arith

-- What n ticks leave of a process that keeps the processor.
pub record Kept (n : ℕ) (p : Proc) (r : Proc × Bool) : Type 0 where
  pub stays : r.1 ≡ false
  pub used : r.0.ti.ticks_used ≡ p.ti.ticks_used + n
  pub same_state : r.0.state ≡ p.state

ticks_run-Kept : (n : ℕ) (p : Proc) → p.ti.ticks_used + n ≤ quantum_ticks → Kept n p (ticks_run n p)
unfolding ticks_run
ticks_run-Kept zero p h = record { stays = refl; used = omega arith; same_state = refl }
ticks_run-Kept (suc n) p h =
    let (a, b, c, d) = tick_proc_early p (omega arith) in
    let ih = ticks_run-Kept n (tick_proc p).0 (omega arith) in
    rw a
      (record { stays = ih.stays; used = omega (arith, ih.used); same_state = ih.same_state ∙ c })

ticks_run-add :
    (n m : ℕ) (p : Proc)
    → (ticks_run n p).1 ≡ false
    → ticks_run (n + m) p ≡ ticks_run m (ticks_run n p).0
unfolding ticks_run
ticks_run-add zero m p h = ap (λ k. ticks_run k p) (omega arith)
ticks_run-add (suc n) m p h =
    let e : suc n + m ≡ suc (n + m) = omega arith in
    rw e (ground (arith, ticks_run-add n m (tick_proc p).0))

ticks_run_one : (p : Proc) → (tick_proc p).1 ≡ true → ticks_run 1 p ≡ tick_proc p
unfolding ticks_run
ticks_run_one p h = rw h (ap (λ g. (let r : Proc × Bool = ((tick_proc p).0, g) in r)) (sym h))

-- A process whose count is 0 keeps the processor for five timer ticks, which the count
-- records, and gives it up at the sixth, runnable and with the count 0 again.
pub quantum_lem :
    (p : Proc)
    → p.ti.ticks_used ≡ 0
    → ((n : ℕ) → n ≤ quantum_ticks → Kept n p (ticks_run n p))
      × ((ticks_run (quantum_ticks + 1) p).1 ≡ true)
      × ((ticks_run (quantum_ticks + 1) p).0.state ≡ runnable)
      × ((ticks_run (quantum_ticks + 1) p).0.ti.ticks_used ≡ 0)
quantum_lem p h =
    let kept = ticks_run-Kept quantum_ticks p (omega arith) in
    let (a, b, c) = tick_proc_late (ticks_run quantum_ticks p).0 (omega (arith, kept.used)) in
    let one = ticks_run_one (ticks_run quantum_ticks p).0 a in
    let add = ticks_run-add quantum_ticks 1 p kept.stays ∙ one in
    (
      λ n le. ticks_run-Kept n p (omega arith),
      ap (λ r. r.1) add ∙ a,
      ap (λ r. r.0.state) add ∙ b,
      ap (λ r. r.0.ti.ticks_used) add ∙ c,
    )
