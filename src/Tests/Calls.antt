-- ===== src/Tests/Calls.antt =====
-- Runs of the system calls' entry, of the statistics, and of a spin lock.
use operating_system_laborat.Base.{
  ℕ, zero, suc, ◌+◌, ◌-◌, ◌*◌, ◌^◌, ◌≤◌, ◌<◌, ◌≡◌, refl, subst, ◌↔◌, true, false, some, [], ◌∷◌,
  ◌++◌, arith, length, get_elem?, replicate, u32, ok,
}
use operating_system_laborat.Proc.{Proc, Kernel, running, max_syscalls}
use operating_system_laborat.Proc.Stats.{create_palindrome}
use operating_system_laborat.Proc.Stats.Counts.{Counts}
use operating_system_laborat.Proc.Stats.Palindrome.{create_palindrome_lem, value, flipped, IsDigit}
use operating_system_laborat.Syscall.{argint, argptr, count_call, get_number_of_total_syscalls}
use operating_system_laborat.Syscall.Arguments.{argptr_lem}
use operating_system_laborat.Syscall.Dispatch.{count_call_lem, words, totals_agree, count_traps}
use operating_system_laborat.Spinlock.{initlock, outside, inside, is_cpu, Machine, run}
use operating_system_laborat.Locks.{initreentrantlock, reentrantlock_test}
use operating_system_laborat.Locks.Reentrant.{reentrantlock_test_lem}
use operating_system_laborat.Spinlock.Exclusion.{mutual_exclusion, holds, is_outside, Quiet}
use operating_system_laborat.Tests.{process, times, memory, frame_zero}

abbrev caller : Proc
caller = record (process running 3 (some 0) (times 0 2 0)) {
  frame = record frame_zero { eax = 40; esp = 100 };
  used_syscalls = 0 ∷ 7 ∷ 3 ∷ 7 ∷ replicate 22 0;
}

argptr_example :
    (argptr caller memory 0 4 ≡ some 9)
    ↔ ((argint caller memory 0 ≡ some 9) × (4 < 2 ^ 31) × (9 < 4096) × (9 + 4 ≤ 4096))
argptr_example = argptr_lem caller memory 0 4 (omega arith) (omega arith) 9

reentrant_example : reentrantlock_test 5 3 1 initreentrantlock ≡ ok (some initreentrantlock)
reentrant_example = reentrantlock_test_lem 5 3 1 (omega arith)

-- A call of number 29 adds one to the burst time.
count_call_example :
    (words (count_call 29 caller)
      ≡ 0 ∷ 7 ∷ 3 ∷ 7 ∷ replicate 22 0 ++ 0 ∷ 0 ∷ 3 ∷ 0 ∷ 0 ∷ 0 ∷ 50 ∷ [])
    × (length (count_call 29 caller).used_syscalls ≡ max_syscalls)
    × (count_call 29 caller ≡ record caller {
      used_syscalls = (count_call 29 caller).used_syscalls;
      ti = (count_call 29 caller).ti;
    })
count_call_example = count_call_lem 29 caller (omega arith) (omega arith) refl

abbrev no_effect : ℕ → Kernel → ℕ × Kernel
no_effect num k = (0, k)

totals_example :
    (let (lines, count, total) =
        get_number_of_total_syscalls (
          count_traps
            ((0, 15) ∷ (1, 16) ∷ (0, 5) ∷ [])
            (record { total = 0; cpus = 0 ∷ 0 ∷ [] })) in
      u32 count ≡ u32 total)
totals_example =
    totals_agree ((0, 15) ∷ (1, 16) ∷ (0, 5) ∷ []) (record { total = 0; cpus = 0 ∷ 0 ∷ [] })
      (omega arith, (omega arith, (omega arith, tt))) refl

palindrome_example :
    (let (n, out) = create_palindrome 120 memory memory in
      (out (2 * n) ≡ 0)
      × (0 < n)
      × ((j : ℕ) → j < 2 * n → IsDigit (out j))
      × (out 0 ≡ b'0' → n ≡ 1)
      × ((j : ℕ) → j < 2 * n → out j ≡ out (2 * n - j - 1))
      × (value 0 n (flipped n out) ≡ 120))
palindrome_example = create_palindrome_lem 120 memory memory (omega arith)

zero-Counts : (n : ℕ) → Counts (replicate n 0)
zero-Counts zero = tt
zero-Counts (suc n) = (omega arith, zero-Counts n)

small-Counts : Counts caller.used_syscalls
small-Counts = (omega arith, (omega arith, (omega arith, (omega arith, zero-Counts 22))))

table-Counts : (i : ℕ) (p : Proc) → get_elem? (caller ∷ []) i ≡ some p → Counts p.used_syscalls
table-Counts zero p e =
    let s : caller ≡ p = ground arith in subst (λ q. Counts q.used_syscalls) s small-Counts
table-Counts (suc i) p e = absurd (ground arith)

-- Two processors, before either wants the lock.
abbrev machine : Machine
machine = record {
  lock = initlock;
  core = (λ i. record { ncli = 0; intena = false; eflags_if = true });
  phase = (λ i. outside);
}

machine-Quiet : Quiet machine
machine-Quiet = record {
  unlocked = refl;
  all_outside = (λ i. refl);
  off = (λ i h. absurd (omega arith));
}

exclusion_example :
    (m' : Machine) × (run (0 ∷ 1 ∷ 0 ∷ 1 ∷ 0 ∷ []) machine ≡ ok m')
    × ((i j : ℕ) → holds (m'.phase i) ≡ true → holds (m'.phase j) ≡ true → i ≡ j)
    × ((i : ℕ) → (m'.phase i ≡ inside) ↔ (is_cpu m'.lock.cpu i ≡ true))
    × ((i : ℕ) → is_outside (m'.phase i) ≡ false → (m'.core i).eflags_if ≡ false)
exclusion_example = mutual_exclusion (0 ∷ 1 ∷ 0 ∷ 1 ∷ 0 ∷ []) machine machine-Quiet
