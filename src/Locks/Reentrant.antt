-- ===== src/Locks/Reentrant.antt =====
-- Nested use of the reentrant lock.
use operating_system_laborat.Base.{
  ℕ, zero, suc, ◌+◌, ◌^◌, ◌<◌, ◌≡◌, refl, true, false, some, arith, ◌==◌, u32, sub32, ok,
}
use operating_system_laborat.Locks.{
  ReentrantLock, initreentrantlock, acquirereentrantlock, releasereentrantlock, reentrantlock_test,
}

-- The lock of process me, taken on processor i and entered r times.
abbrev pub held : ℕ → ℕ → ℕ → ReentrantLock
held me i r = record {
  lock = record { locked = true; cpu = some i };
  owner = some me;
  recursion = r;
}

enter_again :
    (me i r : ℕ)
    → r + 1 < 2 ^ 32
    → acquirereentrantlock me i (held me i r) ≡ ok (some (held me i (r + 1)))
unfolding acquirereentrantlock
enter_again me i r h =
    let mine : (me == me) ≡ true = ground arith in
    let word : u32 (r + 1) ≡ r + 1 = omega arith in rw (mine, word)

leave_again :
    (me i r : ℕ)
    → 0 < r
    → r + 1 < 2 ^ 32
    → releasereentrantlock me i (held me i (r + 1)) ≡ ok (held me i r)
unfolding releasereentrantlock
leave_again me i r p h =
    let mine : (me == me) ≡ true = ground arith in
    let more : (r == 0) ≡ false = ground arith in
    let word : sub32 (r + 1) 1 ≡ r = omega arith in rw (mine, word, more)

nested :
    (left me i r : ℕ)
    → 0 < r
    → r + left < 2 ^ 32
    → reentrantlock_test left me i (held me i r) ≡ ok (some (held me i r))
unfolding reentrantlock_test
nested zero me i r p h = refl
nested (suc left) me i r p h = rw (enter_again me i r (omega arith)) (
    rw (nested left me i (r + 1) (omega arith) (omega arith))
      (rw (leave_again me i r p (omega arith)) refl))

last_leave : (me i : ℕ) → releasereentrantlock me i (held me i 1) ≡ ok initreentrantlock
unfolding releasereentrantlock
last_leave me i =
    let mine : (me == me) ≡ true = ground arith in
    let here : (i == i) ≡ true = ground arith in rw (mine, here)

-- A process that enters a free reentrant lock any number of times, each time inside the last, and
-- leaves it as often neither waits for itself nor panics, and at the end the lock is free again.
pub reentrantlock_test_lem :
    (left me i : ℕ)
    → left < 2 ^ 32
    → reentrantlock_test left me i initreentrantlock ≡ ok (some initreentrantlock)
unfolding reentrantlock_test
reentrantlock_test_lem zero me i h = refl
reentrantlock_test_lem (suc left) me i h =
    rw (nested left me i 1 (omega arith) (omega arith)) (rw (last_leave me i) refl)
