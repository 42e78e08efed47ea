-- ===== src/Locks.antt =====
-- sleeplock.c, and the reentrant lock of proc.c. Each function holds the inner spin lock from its start
-- to its end or to its `sleep`, so it is one step.
pub mod Reentrant
use operating_system_laborat.Base.{
  ℕ, zero, suc, ◌+◌, Bool, true, false, not, ◌&&◌, Option, none, some, ◌==◌, if◌then◌else◌, u32,
  sub32, Outcome, ok, panic, ◌>>=◌,
}
use operating_system_laborat.Proc.{Chan, is_parent, Kernel}
use operating_system_laborat.Proc.Lookup.{sleep, wakeup}
use operating_system_laborat.Spinlock.{SpinLock, initlock, is_cpu}

-- `struct sleeplock`, without its spin lock and its name
pub record SleepLock : Type 0 where
  pub sl_locked : Bool
  pub sl_pid : ℕ

abbrev pub initsleeplock : SleepLock
initsleeplock = record { sl_locked = false; sl_pid = 0 }

-- One round of the loop of `acquiresleep` of process `cur`: the flag says that it has the lock;
-- otherwise it sleeps, and makes another round after a wakeup.
unfoldable pub acquiresleep :
    ℕ → ℕ → Chan → SleepLock → Kernel → Outcome (Bool × SleepLock × Kernel)
unfolding sleep
acquiresleep cur pid lk_chan lk k =
    if lk.sl_locked
    then (sleep (some cur) lk_chan k >>= λ k'. ok (false, lk, k'))
    else ok (true, record { sl_locked = true; sl_pid = pid }, k)

unfoldable pub releasesleep : Chan → SleepLock → Kernel → SleepLock × Kernel
unfolding wakeup
releasesleep lk_chan lk k = (initsleeplock, wakeup lk_chan k)

abbrev pub holdingsleep : ℕ → SleepLock → Bool
holdingsleep pid lk = lk.sl_locked && lk.sl_pid == pid

-- `struct reentrantlock`
pub record ReentrantLock : Type 0 where
  pub lock : SpinLock
  pub owner : Option ℕ
  pub recursion : ℕ

abbrev pub initreentrantlock : ReentrantLock
initreentrantlock = record { lock = initlock; owner = none; recursion = 0 }

-- Process `me` on processor i; none says that `acquire` spins, as another processor has the lock.
unfoldable pub acquirereentrantlock : ℕ → ℕ → ReentrantLock → Outcome (Option ReentrantLock)
acquirereentrantlock me i lk =
    if is_parent lk.owner me
    then ok (some (record lk { recursion = u32 (lk.recursion + 1) }))
    else if lk.lock.locked
    then if is_cpu lk.lock.cpu i then panic else ok none
    else ok (
        some (record {
          lock = record { locked = true; cpu = some i };
          owner = some me;
          recursion = 1;
        }))

unfoldable pub releasereentrantlock : ℕ → ℕ → ReentrantLock → Outcome ReentrantLock
releasereentrantlock me i lk =
    if not (is_parent lk.owner me)
    then panic
    else if sub32 lk.recursion 1 == 0
    then if lk.lock.locked && is_cpu lk.lock.cpu i
      then ok (record { lock = initlock; owner = none; recursion = 0 })
      else panic
    else ok (record lk { recursion = sub32 lk.recursion 1 })

-- `reentrantlock_test` with `left` calls of itself to make, that is with the count 5 - left; none says that it
-- waits for another processor.
unfoldable pub reentrantlock_test : ℕ → ℕ → ℕ → ReentrantLock → Outcome (Option ReentrantLock)
unfolding acquirereentrantlock releasereentrantlock
reentrantlock_test zero me i lk = ok (some lk)
reentrantlock_test (suc left) me i lk = acquirereentrantlock me i lk >>= λ a. elim a [
  | none ↦ ok none
  | some lk1 ↦ reentrantlock_test left me i lk1 >>= λ b. elim b [
    | none ↦ ok none
    | some lk2 ↦ releasereentrantlock me i lk2 >>= λ lk3. ok (some lk3)
  ]
]
