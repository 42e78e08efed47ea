-- ===== src/Syscall/Dispatch.antt =====
-- Which counts a system call changes.
use operating_system_laborat.Base.{
  ℕ, zero, suc, ◌+◌, ◌-◌, ◌^◌, ◌<◌, ◌≡◌, refl, sym, ap, ◌∙◌, inl, inr, false, ◌&&◌, some, List, [],
  ◌∷◌, ◌++◌, arith, ltb, Bool-cases, length, get_elem?, get_or, set, length-set, u32, slt,
  minus_one, ok,
}
use operating_system_laborat.Proc.{TimeInfo, Proc, Kernel, max_syscalls}
use operating_system_laborat.Proc.Lookup.{modify}
use operating_system_laborat.Syscall.{
  bump_ti, count_call, syscall, set_eax, table_size, CallCounts, count_trap, weight,
  get_number_of_total_syscalls, cpu_lines,
}

module _ (run : ℕ → Kernel → ℕ × Kernel) where
  -- A system call number that is not between 1 and 31 as an int runs no function and counts
  -- nothing: the process finds -1 in %eax, and nothing else is changed.
  pub syscall-unknown :
      (cur : ℕ) (k : Kernel) (p : Proc)
      → get_elem? k.procs cur ≡ some p
      → (slt 0 p.frame.eax && ltb p.frame.eax table_size) ≡ false
      → syscall run cur k ≡ ok (record k { procs = modify cur (set_eax minus_one) k.procs })
  unfolding syscall
  syscall-unknown cur k p e h = rw (e, syscall) (rw h refl)

-- The words of a process from `used_syscalls` on, in the order of `struct proc` and `struct timeInfo`.
abbrev pub words : Proc → List ℕ
words p =
    p.used_syscalls
    ++ p.ti.queue ∷ p.ti.ticks_used ∷ p.ti.burst_time ∷ p.ti.creation_time ∷ p.ti.enter_queue_time
      ∷ p.ti.last_run_time ∷ p.ti.confidence ∷ []

set-append_low : (xs ys : List ℕ) (i v : ℕ) → i < length xs → set (xs ++ ys) i v ≡ set xs i v ++ ys
set-append_low [] ys i v h = absurd (omega arith)
set-append_low (x ∷ xs) ys zero v h = refl
set-append_low (x ∷ xs) ys (suc i) v h = ap (λ zs. x ∷ zs) (set-append_low xs ys i v (omega arith))

set-append_high : (xs ys : List ℕ) (i v : ℕ) → set (xs ++ ys) (length xs + i) v ≡ xs ++ set ys i v
set-append_high [] ys i v = ap (λ j. set ys j v) (let e : 0 + i ≡ i = omega arith in e)
set-append_high (x ∷ xs) ys i v =
    ap (λ j. set (x ∷ (xs ++ ys)) j v)
      (let e : suc (length xs) + i ≡ suc (length xs + i) = omega arith in e)
    ∙ ap (λ zs. x ∷ zs) (set-append_high xs ys i v)

get_or-append_low : (xs ys : List ℕ) (i : ℕ) → i < length xs → get_or (xs ++ ys) i 0 ≡ get_or xs i 0
get_or-append_low [] ys i h = absurd (omega arith)
get_or-append_low (x ∷ xs) ys zero h = refl
get_or-append_low (x ∷ xs) ys (suc i) h = get_or-append_low xs ys i (omega arith)

get_or-append_high : (xs ys : List ℕ) (i : ℕ) → get_or (xs ++ ys) (length xs + i) 0 ≡ get_or ys i 0
get_or-append_high [] ys i = ap (λ j. get_or ys j 0) (let e : 0 + i ≡ i = omega arith in e)
get_or-append_high (x ∷ xs) ys i =
    ap (λ j. get_or (x ∷ (xs ++ ys)) j 0)
      (let e : suc (length xs) + i ≡ suc (length xs + i) = omega arith in e)
    ∙ get_or-append_high xs ys i

-- The words of the process after one of them has become one more.
abbrev bumped : ℕ → List ℕ → List ℕ
bumped i ws = set ws i (u32 (get_or ws i 0 + 1))

bumped-low : (xs ys : List ℕ) (i : ℕ) → i < length xs → bumped i (xs ++ ys) ≡ bumped i xs ++ ys
bumped-low xs ys i h =
    ap (λ n. set (xs ++ ys) i (u32 (n + 1))) (get_or-append_low xs ys i h)
    ∙ set-append_low xs ys i (u32 (get_or xs i 0 + 1)) h

bumped-high : (xs ys : List ℕ) (i : ℕ) → bumped (length xs + i) (xs ++ ys) ≡ xs ++ bumped i ys
bumped-high xs ys i =
    ap (λ n. set (xs ++ ys) (length xs + i) (u32 (n + 1))) (get_or-append_high xs ys i)
    ∙ set-append_high xs ys i (u32 (get_or ys i 0 + 1))

abbrev ti_words : TimeInfo → List ℕ
ti_words t =
    t.queue ∷ t.ticks_used ∷ t.burst_time ∷ t.creation_time ∷ t.enter_queue_time ∷ t.last_run_time
    ∷ t.confidence ∷ []

bump_ti-words : (i : ℕ) (t : TimeInfo) → i < 5 → ti_words (bump_ti i t) ≡ bumped i (ti_words t)
bump_ti-words zero t h = refl
bump_ti-words (suc zero) t h = refl
bump_ti-words (suc (suc zero)) t h = refl
bump_ti-words (suc (suc (suc zero))) t h = refl
bump_ti-words (suc (suc (suc (suc zero)))) t h = refl
bump_ti-words (suc (suc (suc (suc (suc i))))) t h = absurd (omega arith)

-- A call with a number from 1 to 31 makes exactly one word of the process one more, modulo 2^32: the
-- word num - 1 from `used_syscalls` on. For the first 26 numbers this is the call's own count; for
-- those from 27 on it lies behind the array, in `ti`. No other word, and nothing else of the
-- process, is changed.
pub count_call_lem :
    (num : ℕ) (p : Proc)
    → 0 < num
    → num < table_size
    → length p.used_syscalls ≡ max_syscalls
    → (words (count_call num p) ≡ set (words p) (num - 1) (u32 (get_or (words p) (num - 1) 0 + 1)))
      × (length (count_call num p).used_syscalls ≡ max_syscalls)
      × (count_call num p ≡ record p {
        used_syscalls = (count_call num p).used_syscalls;
        ti = (count_call num p).ti;
      })
unfolding count_call
count_call_lem num p h l len = elim (Bool-cases (ltb (num - 1) max_syscalls)) [
  | inl y ↦
      let v : ℕ = u32 (get_or p.used_syscalls (num - 1) 0 + 1) in
      rw y (
        sym (bumped-low p.used_syscalls (ti_words p.ti) (num - 1) (ground arith)),
        length-set p.used_syscalls (num - 1) v ∙ len,
        refl,
      )
  | inr n ↦
      let i : ℕ = num - 1 - max_syscalls in
      let place : length p.used_syscalls + i ≡ num - 1 = ground arith in
      rw n (
        ap (λ ws. p.used_syscalls ++ ws) (bump_ti-words i p.ti (omega arith))
            ∙ sym (bumped-high p.used_syscalls (ti_words p.ti) i)
            ∙ ap (λ j. bumped j (words p)) place,
        len,
        refl,
      )
]

abbrev pub sum : List ℕ → ℕ
sum [] = 0
sum (c ∷ cs) = c + sum cs

sum-set : (cs : List ℕ) (i v : ℕ) → i < length cs → sum (set cs i v) + get_or cs i 0 ≡ sum cs + v
sum-set [] i v h = absurd (omega arith)
sum-set (c ∷ cs) zero v h = omega arith
sum-set (c ∷ cs) (suc i) v h = omega (arith, sum-set cs i v)

cpu_lines_lem :
    (i count : ℕ) (cs : List ℕ) → count < 2 ^ 32 → (cpu_lines i count cs).1 ≡ u32 (count + sum cs)
unfolding cpu_lines
cpu_lines_lem i count [] h = omega arith
cpu_lines_lem i count (c ∷ cs) h =
    ground (arith, cpu_lines_lem (i + 1) count cs, cpu_lines_lem (i + 1) (u32 (count + c)) cs)

-- A sequence of system calls, each with its processor and its number.
abbrev pub count_traps : List (ℕ × ℕ) → CallCounts → CallCounts
count_traps [] s = s
count_traps ((cpu, num) ∷ calls) s = count_traps calls (count_trap cpu num s)

abbrev pub OnCpus : ℕ → List (ℕ × ℕ) → Type 0
OnCpus n [] = Unit
OnCpus n ((cpu, num) ∷ calls) = (cpu < n) × OnCpus n calls

-- The global count is the sum of the processors' counts, modulo 2^32.
abbrev pub Agrees : CallCounts → Type 0
Agrees s = u32 s.total ≡ u32 (sum s.cpus)

count_trap-Agrees :
    (cpu num : ℕ) (s : CallCounts)
    → cpu < length s.cpus
    → Agrees s
    → Agrees (count_trap cpu num s) × (length (count_trap cpu num s).cpus ≡ length s.cpus)
unfolding count_trap
count_trap-Agrees cpu num s h v =
    let w : ℕ = u32 (get_or s.cpus cpu 0 + weight num) in
    (omega (arith, sum-set s.cpus cpu w h), length-set s.cpus cpu w)

count_traps-Agrees :
    (calls : List (ℕ × ℕ)) (s : CallCounts)
    → OnCpus (length s.cpus) calls
    → Agrees s
    → Agrees (count_traps calls s)
count_traps-Agrees [] s h v = v
count_traps-Agrees ((cpu, num) ∷ calls) s (lt, h) v =
    let (v', len) = count_trap-Agrees cpu num s lt v in
    count_traps-Agrees calls (count_trap cpu num s) (rw len h) v'

-- However the system calls of the processors follow one another, the two totals that
-- `get_number_of_total_syscalls` prints agree: the sum of the processors' counts and the global one,
-- if they did before.
pub totals_agree :
    (calls : List (ℕ × ℕ)) (s : CallCounts)
    → OnCpus (length s.cpus) calls
    → Agrees s
    → (let (lines, count, total) = get_number_of_total_syscalls (count_traps calls s) in
        u32 count ≡ u32 total)
unfolding get_number_of_total_syscalls
totals_agree calls s h v =
    omega (arith, cpu_lines_lem 0 0 (count_traps calls s).cpus, count_traps-Agrees calls s h v)
