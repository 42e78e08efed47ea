-- ===== src/Syscall.antt =====
-- syscall.c: the arguments of a system call, its dispatch and its counting; and the counting of all
-- system calls in trap.c. `mem` are the bytes at the process's addresses.
pub mod Arguments
pub mod Dispatch
use operating_system_laborat.Base.{
  ℕ, zero, suc, ◌+◌, ◌-◌, ◌*◌, ◌&&◌, ◌||◌, Option, none, some, List, [], ◌∷◌, ltb, leb, ◌==◌,
  if◌then◌else◌, get_elem?, get_or, set, u32, slt, minus_one, Outcome, ok, fault,
}
use operating_system_laborat.Bytes.{Mem}
use operating_system_laborat.Kalloc.{load32}
use operating_system_laborat.Proc.{Proc, Kernel, max_syscalls, TimeInfo, TrapFrame}
use operating_system_laborat.Proc.Lookup.{modify}

-- The int at an address, none for the result -1; `addr+4` wraps around.
unfoldable pub fetchint : ℕ → Mem → ℕ → Option ℕ
unfolding load32
fetchint sz mem addr =
    if leb sz addr || ltb sz (u32 (addr + 4)) then none else some (load32 mem addr)

-- The loop of `fetchstr` with the bytes that are left: the index of the terminator.
unfoldable pub fetchstr_loop : ℕ → Mem → ℕ → ℕ → Option ℕ
fetchstr_loop zero mem addr n = none
fetchstr_loop (suc left) mem addr n =
    let rest = fetchstr_loop left mem (addr + 1) (n + 1) in if mem addr == 0 then some n else rest

-- The length of the string at an address.
unfoldable pub fetchstr : ℕ → Mem → ℕ → Option ℕ
unfolding fetchstr_loop
fetchstr sz mem addr = if leb sz addr then none else fetchstr_loop (sz - addr) mem addr 0

unfoldable pub argint : Proc → Mem → ℕ → Option ℕ
unfolding fetchint
argint p mem n = fetchint p.sz mem (u32 (p.frame.esp + 4 + 4 * n))

-- The pointer, for a block of `size` bytes.
unfoldable pub argptr : Proc → Mem → ℕ → ℕ → Option ℕ
unfolding argint
argptr p mem n size = elim (argint p mem n) [
  | none ↦ none
  | some i ↦ if slt size 0 || leb p.sz i || ltb p.sz (u32 (i + size)) then none else some i
]

-- The pointer and the length of the string.
unfoldable pub argstr : Proc → Mem → ℕ → Option (ℕ × ℕ)
unfolding argint fetchstr
argstr p mem n = elim (argint p mem n) [
  | none ↦ none
  | some addr ↦ elim (fetchstr p.sz mem addr) [ none ↦ none | some len ↦ some (addr, len) ]
]

-- The number of entries of the table `syscalls`; entry 0 is the null pointer.
abbrev pub table_size : ℕ
table_size = 32

-- The word i of `struct timeInfo` is one more.
abbrev pub bump_ti : ℕ → TimeInfo → TimeInfo
bump_ti i t =
    if i == 0
    then record t { queue = u32 (t.queue + 1) }
    else if i == 1
    then record t { ticks_used = u32 (t.ticks_used + 1) }
    else if i == 2
    then record t { burst_time = u32 (t.burst_time + 1) }
    else if i == 3
    then record t { creation_time = u32 (t.creation_time + 1) }
    else if i == 4
    then record t { enter_queue_time = u32 (t.enter_queue_time + 1) }
    else if i == 5
    then record t { last_run_time = u32 (t.last_run_time + 1) }
    else record t { confidence = u32 (t.confidence + 1) }

-- `curproc->used_syscalls[num - 1]++`: past the array lie the words of `ti`.
unfoldable pub count_call : ℕ → Proc → Proc
count_call num p =
    if ltb (num - 1) max_syscalls
    then record p {
      used_syscalls = set p.used_syscalls (num - 1) (u32 (get_or p.used_syscalls (num - 1) 0 + 1));
    }
    else record p { ti = bump_ti (num - 1 - max_syscalls) (p.ti) }

abbrev pub set_eax : ℕ → Proc → Proc
set_eax r p = record p { frame = record (p.frame) { eax = r } }

-- `run` stands for the functions of the table.
module _ (run : ℕ → Kernel → ℕ × Kernel) where
  unfoldable pub syscall : ℕ → Kernel → Outcome Kernel
  unfolding count_call modify
  syscall cur k = elim (get_elem? k.procs cur) [
    | none ↦ fault
    | some p ↦
        let num = p.frame.eax in
        if slt 0 num && ltb num table_size
        then (let (r, k') = run num (record k { procs = modify cur (count_call num) k.procs }) in
            ok (record k' { procs = modify cur (set_eax r) k'.procs }))
        else ok (record k { procs = modify cur (set_eax minus_one) k.procs })
  ]

-- `total_number_of_syscalls` and the processors' `number_of_syscalls`
pub record CallCounts : Type 0 where
  pub total : ℕ
  pub cpus : List ℕ

-- SYS_open counts 3, SYS_write 2, any other 1.
abbrev pub weight : ℕ → ℕ
weight num = if num == 15 then 3 else if num == 16 then 2 else 1

-- What `trap` adds, under the lock, for a system call on a processor.
unfoldable pub count_trap : ℕ → ℕ → CallCounts → CallCounts
count_trap cpu num s = record {
  total = u32 (s.total + weight num);
  cpus = set s.cpus cpu (u32 (get_or s.cpus cpu 0 + weight num));
}

-- The loop of `get_number_of_total_syscalls`: the lines it prints, and `count`.
unfoldable pub cpu_lines : ℕ → ℕ → List ℕ → List (ℕ × ℕ) × ℕ
cpu_lines i count [] = ([], count)
cpu_lines i count (c ∷ cs) =
    let skip = cpu_lines (i + 1) count cs in
    let (lines, total) = cpu_lines (i + 1) (u32 (count + c)) cs in
    if c == 0 then skip else ((i, c) ∷ lines, total)

-- The lines for the processors, and the two totals that are printed.
unfoldable pub get_number_of_total_syscalls : CallCounts → List (ℕ × ℕ) × ℕ × ℕ
unfolding cpu_lines
get_number_of_total_syscalls s =
    let (lines, count) = cpu_lines 0 0 s.cpus in (lines, count, s.total)
