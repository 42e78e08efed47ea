-- ===== src/Proc/Stats.antt =====
-- The functions of proc.c that count and list system calls, and create_palindrome. What a
-- function prints with `cprintf` is part of its result.
pub mod Counts
pub mod Palindrome
use operating_system_laborat.Base.{
  ℕ, zero, suc, ◌+◌, ◌-◌, ◌*◌, ◌/◌, ◌%◌, Option, none, some, List, [], ◌∷◌, ◌==◌, if◌then◌else◌,
  length, get_elem?, u32, sub32, slt, minus_one,
}
use operating_system_laborat.Bytes.{Mem, update}
use operating_system_laborat.Proc.{ProcState, is_unused, Proc, Kernel}
use operating_system_laborat.Proc.Lookup.{get_proc_by_pid}

-- The loop of `get_total_syscalls`, on an int that wraps around.
unfoldable pub total_loop : ℕ → List ℕ → ℕ
total_loop n [] = n
total_loop n (c ∷ cs) = total_loop (u32 (n + c)) cs

-- The entry behind the pointer that `get_proc_by_pid` returns, none for the null pointer.
unfoldable pub entry_of : ℕ → Kernel → Option Proc
unfolding get_proc_by_pid
entry_of pid k = elim (get_proc_by_pid pid k) [ none ↦ none | some i ↦ get_elem? k.procs i ]

unfoldable pub get_total_syscalls : ℕ → Kernel → ℕ
unfolding entry_of total_loop
get_total_syscalls pid k = elim (entry_of pid k) [
  | none ↦ minus_one
  | some p ↦ total_loop 0 p.used_syscalls
]

-- The lines that `sort_syscalls` prints: a number and its usage.
unfoldable pub usage_lines : ℕ → List ℕ → List (ℕ × ℕ)
usage_lines i [] = []
usage_lines i (c ∷ cs) = (i + 1, c) ∷ usage_lines (i + 1) cs

unfoldable pub sort_syscalls : ℕ → Kernel → ℕ × List (ℕ × ℕ)
unfolding entry_of usage_lines
sort_syscalls pid k = elim (entry_of pid k) [
  | none ↦ (minus_one, [])
  | some p ↦ (0, usage_lines 0 p.used_syscalls)
]

-- The loop of `get_most_invoked_syscall`: i, index_max and max_count.
unfoldable pub most_loop : ℕ → ℕ → ℕ → List ℕ → ℕ × ℕ
most_loop i best most [] = (best, most)
most_loop i best most (c ∷ cs) =
    let above = most_loop (i + 1) i c cs in
    let below = most_loop (i + 1) best most cs in if slt most c then above else below

-- The result, and the number and the count that are printed.
unfoldable pub get_most_invoked_syscall : ℕ → Kernel → ℕ × Option (ℕ × ℕ)
unfolding entry_of most_loop
get_most_invoked_syscall pid k = elim (entry_of pid k) [
  | none ↦ (minus_one, none)
  | some p ↦ let (best, most) = most_loop 0 0 0 p.used_syscalls in (0, some (best + 1, most))
]

-- The lines that `list_all_processes` prints: the pid, the name and the total.
unfoldable pub process_lines : Kernel → List Proc → List (ℕ × (ℕ → ℕ) × ℕ)
unfolding get_total_syscalls
process_lines k [] = []
process_lines k (p ∷ ps) =
    let rest = process_lines k ps in
    if is_unused p.state then rest else (p.pid, p.name, get_total_syscalls p.pid k) ∷ rest

unfoldable pub list_all_processes : Kernel → ℕ × List (ℕ × (ℕ → ℕ) × ℕ)
unfolding process_lines
list_all_processes k =
    let lines = process_lines k k.procs in ((if length lines == 0 then minus_one else 0), lines)

-- A line of `print_process_information`, its columns in order.
pub record InfoLine : Type 0 where
  pub process_name : ℕ → ℕ
  pub process_pid : ℕ
  pub process_state : ProcState
  pub process_queue : ℕ
  pub burst : ℕ
  pub waiting : ℕ
  pub arrival : ℕ
  pub consecutive_run : ℕ
  pub process_confidence : ℕ

unfoldable pub print_process_information : ℕ → List Proc → List InfoLine
print_process_information now [] = []
print_process_information now (p ∷ ps) =
    let rest = print_process_information now ps in
    if is_unused p.state
    then rest
    else record {
      process_name = p.name;
      process_pid = p.pid;
      process_state = p.state;
      process_queue = p.ti.queue;
      burst = p.ti.burst_time;
      waiting = sub32 now p.ti.last_run_time;
      arrival = p.ti.enter_queue_time;
      consecutive_run = p.ti.last_run_time;
      process_confidence = p.ti.confidence;
    }
      ∷ rest

-- The loop of `create_palindrome` over the digits, for a number that is not negative: what
-- is left of it, the count of digits, and `num_str`.
unfoldable pub digits_loop : ℕ → ℕ → ℕ → Mem → ℕ × Mem
digits_loop zero num n str = (n, str)
digits_loop (suc fuel) num n str =
    let rest = digits_loop fuel (num / 10) (n + 1) (update str n (num % 10 + b'0')) in
    if num == 0 then (n, str) else rest

-- `num_str` before its terminator, on a stack with these bytes. Ten rounds are enough for an int.
unfoldable pub num_str : ℕ → Mem → ℕ × Mem
unfolding digits_loop
num_str num stack =
    if num == 0
    then (1, update stack 0 b'0')
    else if slt 0 num
    then digits_loop 10 num 0 stack
    else (0, stack)

-- The loop that writes the two halves.
unfoldable pub mirror_loop : ℕ → ℕ → ℕ → Mem → Mem → Mem
mirror_loop zero i n str out = out
mirror_loop (suc m) i n str out =
    mirror_loop m (i + 1) n str (update (update out i (str (n - i - 1))) (n + i) (str i))

-- The number of digits, and `palindrome_str` as it is printed.
unfoldable pub create_palindrome : ℕ → Mem → Mem → ℕ × Mem
unfolding num_str mirror_loop
create_palindrome num stack1 stack2 =
    let (n, str) = num_str num stack1 in
    (n, update (mirror_loop n 0 n (update str n 0) stack2) (2 * n) 0)
