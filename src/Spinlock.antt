-- ===== src/Spinlock.antt =====
-- spinlock.c: one lock and the processors that use it. Each access to the lock that other processors can
-- see is a step of its own, so that any interleaving is a sequence of steps.
pub mod Exclusion
use operating_system_laborat.Base.{
  ℕ, ◌+◌, ◌-◌, Bool, true, false, not, ◌&&◌, Option, none, some, List, [], ◌∷◌, ltb, ◌==◌,
  if◌then◌else◌, Outcome, ok, panic, ◌>>=◌,
}

-- What pushcli and popcli use of a processor: `ncli`, `intena`, and the flag FL_IF of %eflags.
pub record Core : Type 0 where
  pub ncli : ℕ
  pub intena : Bool
  pub eflags_if : Bool

unfoldable pub pushcli : Core → Core
pushcli c = record {
  ncli = c.ncli + 1;
  intena = if c.ncli == 0 then c.eflags_if else c.intena;
  eflags_if = false;
}

unfoldable pub popcli : Core → Outcome Core
popcli c =
    if c.eflags_if
    then panic
    else if ltb c.ncli 1
    then panic
    else ok (record c {
      ncli = c.ncli - 1;
      eflags_if = if c.ncli - 1 == 0 && c.intena then true else c.eflags_if;
    })

-- `struct spinlock`, without the name and the call stack
pub record SpinLock : Type 0 where
  pub locked : Bool
  pub cpu : Option ℕ

abbrev pub initlock : SpinLock
initlock = record { locked = false; cpu = none }

abbrev pub is_cpu : Option ℕ → ℕ → Bool
is_cpu none i = false
is_cpu (some j) i = j == i

-- `holding` on processor i
unfoldable pub holding : ℕ → SpinLock → Core → Outcome (Bool × Core)
unfolding pushcli popcli
holding i lk c = popcli (pushcli c) >>= λ c'. ok (lk.locked && is_cpu lk.cpu i, c')

-- Where a processor stands in `acquire` and `release`: before `acquire`, in its loop, between
-- the loop and `lk->cpu = mycpu()`, after `acquire`, and in `release` before the word is cleared.
pub data Phase : Type 0 where
  outside spinning taken inside releasing : Phase

-- `acquire` before its loop
unfoldable pub acquire_start : ℕ → SpinLock → Core → Outcome Core
unfolding pushcli holding
acquire_start i lk c = holding i lk (pushcli c) >>= λ (held, c'). if held then panic else ok c'

-- One `xchg(&lk->locked, 1)` of the loop: the lock, and whether the loop ends.
unfoldable pub xchg_step : SpinLock → SpinLock × Bool
xchg_step lk = (record lk { locked = true }, not lk.locked)

-- `release` up to `lk->cpu = 0`
unfoldable pub release_start : ℕ → SpinLock → Core → Outcome (SpinLock × Core)
unfolding holding
release_start i lk c =
    holding i lk c >>= λ (held, c'). if held then ok (record lk { cpu = none }, c') else panic

-- The lock, and for every processor its own state and where it stands.
pub record Machine : Type 0 where
  pub lock : SpinLock
  pub core : ℕ → Core
  pub phase : ℕ → Phase

abbrev pub put {ℓ} : {A : Type ℓ} → (ℕ → A) → ℕ → A → ℕ → A
put f i a j = if j == i then a else f j

-- Processor i makes its next step.
unfoldable pub step : ℕ → Machine → Outcome Machine
unfolding acquire_start xchg_step release_start popcli
step i m = elim (m.phase i) [
  | outside ↦ acquire_start i m.lock (m.core i) >>= λ c.
      ok (record m { core = put m.core i c; phase = put m.phase i spinning })
  | spinning ↦
      let (lk, through) = xchg_step m.lock in
      ok (record m { lock = lk; phase = put m.phase i (if through then taken else spinning) })
  | taken ↦ ok (record m { lock = record (m.lock) { cpu = some i }; phase = put m.phase i inside })
  | inside ↦ release_start i m.lock (m.core i) >>= λ (lk, c).
      ok (record m { lock = lk; core = put m.core i c; phase = put m.phase i releasing })
  | releasing ↦ popcli (m.core i) >>= λ c. ok (record m {
    lock = record (m.lock) { locked = false };
    core = put m.core i c;
    phase = put m.phase i outside;
  })
]

-- The processors step in this order.
unfoldable pub run : List ℕ → Machine → Outcome Machine
unfolding step
run [] m = ok m
run (i ∷ is) m = step i m >>= λ m'. run is m'
