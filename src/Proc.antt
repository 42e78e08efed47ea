-- ===== src/Proc.antt =====
-- proc.h and the process table of proc.c: the data. A `struct proc *` is an index of the table.
-- A function that takes ptable.lock first and drops it on every way out is one atomic step, in
-- which the lock does not show.
pub mod Lookup
pub mod Life
pub mod Boot
pub mod Exit
pub mod Wait
pub mod Stats
pub mod Pids
use operating_system_laborat.Base.{ℕ, Bool, true, false, Option, none, some, List, ◌==◌}

abbrev pub nproc : ℕ
nproc = 64

abbrev pub nofile : ℕ
nofile = 16

abbrev pub max_syscalls : ℕ
max_syscalls = 26

abbrev pub kstacksize : ℕ
kstacksize = 4096

-- `enum levels`. A queue is kept as an int, since `change_queue` stores any.
abbrev pub rr : ℕ
rr = 0

abbrev pub sjf : ℕ
sjf = 1

abbrev pub fcfs : ℕ
fcfs = 2

pub data ProcState : Type 0 where
  unused embryo sleeping runnable running zombie : ProcState

abbrev pub is_unused : ProcState → Bool
is_unused unused = true
is_unused _ = false

abbrev pub is_runnable : ProcState → Bool
is_runnable runnable = true
is_runnable _ = false

abbrev pub is_sleeping : ProcState → Bool
is_sleeping sleeping = true
is_sleeping _ = false

abbrev pub is_running : ProcState → Bool
is_running running = true
is_running _ = false

abbrev pub is_zombie : ProcState → Bool
is_zombie zombie = true
is_zombie _ = false

-- What a process sleeps on: the address of a process, or of another kernel object.
pub data Chan : Type 0 where
  null : Chan
  proc_chan : ℕ → Chan
  object : ℕ → Chan

abbrev pub chan_eq : Chan → Chan → Bool
chan_eq null null = true
chan_eq (proc_chan a) (proc_chan b) = a == b
chan_eq (object a) (object b) = a == b
chan_eq _ _ = false

-- `struct timeInfo`, each field the word of an int
pub record TimeInfo : Type 0 where
  pub queue : ℕ
  pub ticks_used : ℕ
  pub burst_time : ℕ
  pub creation_time : ℕ
  pub enter_queue_time : ℕ
  pub last_run_time : ℕ
  pub confidence : ℕ

-- `struct trapframe` of x86.h, without its padding
pub record TrapFrame : Type 0 where
  pub edi : ℕ
  pub esi : ℕ
  pub ebp : ℕ
  pub oesp : ℕ
  pub ebx : ℕ
  pub edx : ℕ
  pub ecx : ℕ
  pub eax : ℕ
  pub gs : ℕ
  pub fs : ℕ
  pub es : ℕ
  pub ds : ℕ
  pub trapno : ℕ
  pub err : ℕ
  pub eip : ℕ
  pub cs : ℕ
  pub eflags : ℕ
  pub esp : ℕ
  pub ss : ℕ

-- `struct proc`. The trap frame and the context are pointers into the kernel stack: `tf` and
-- `context` are the addresses, `frame`, `return_to` and `context_eip` what lies there (the other
-- saved registers of a new context are 0).
pub record Proc : Type 0 where
  pub sz : ℕ
  pub pgdir : ℕ
  pub kstack : ℕ
  pub state : ProcState
  pub pid : ℕ
  pub parent : Option ℕ
  pub tf : ℕ
  pub frame : TrapFrame
  pub context : ℕ
  pub return_to : ℕ
  pub context_eip : ℕ
  pub chan : Chan
  pub killed : ℕ
  pub ofile : List (Option ℕ)
  pub cwd : Option ℕ
  pub name : ℕ → ℕ
  pub used_syscalls : List ℕ
  pub ti : TimeInfo

-- The table, with the kernel's other variables that its functions use. `pages` is the free list of
-- kalloc.c.
pub record Kernel : Type 0 where
  pub procs : List Proc
  pub nextpid : ℕ
  pub initproc : Option ℕ
  pub ticks : ℕ
  pub pages : List ℕ

abbrev pub is_parent : Option ℕ → ℕ → Bool
is_parent none i = false
is_parent (some j) i = j == i
