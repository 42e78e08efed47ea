-- ===== src/Tests.antt =====
-- Runs on small inputs, and the data they use.
pub mod Text
pub mod Table
pub mod Sched
pub mod Storage
pub mod Calls
pub mod Files
pub mod Keys
use operating_system_laborat.Base.{ℕ, ◌%◌, Option, none, some, List, [], replicate}
use operating_system_laborat.Proc.{
  ProcState, Chan, TimeInfo, TrapFrame, Proc, Kernel, unused, null, nofile, max_syscalls,
}

abbrev pub frame_zero : TrapFrame
frame_zero = record {
  edi = 0;
  esi = 0;
  ebp = 0;
  oesp = 0;
  ebx = 0;
  edx = 0;
  ecx = 0;
  eax = 0;
  gs = 0;
  fs = 0;
  es = 0;
  ds = 0;
  trapno = 0;
  err = 0;
  eip = 0;
  cs = 0;
  eflags = 0;
  esp = 0;
  ss = 0;
}

abbrev pub times : ℕ → ℕ → ℕ → TimeInfo
times queue burst entered = record {
  queue = queue;
  ticks_used = 0;
  burst_time = burst;
  creation_time = 0;
  enter_queue_time = entered;
  last_run_time = 0;
  confidence = 50;
}

-- A process with this state, pid, parent and times.
abbrev pub process : ProcState → ℕ → Option ℕ → TimeInfo → Proc
process st pid parent ti = record {
  sz = 4096;
  pgdir = 8192;
  kstack = 12288;
  state = st;
  pid = pid;
  parent = parent;
  tf = 0;
  frame = frame_zero;
  context = 0;
  return_to = 0;
  context_eip = 0;
  chan = null;
  killed = 0;
  ofile = replicate nofile none;
  cwd = some 0;
  name = (λ i. 0);
  used_syscalls = replicate max_syscalls 0;
  ti = ti;
}

abbrev pub free_entry : Proc
free_entry = process unused 0 none (times 0 0 0)

abbrev pub kernel : List Proc → ℕ → Kernel
kernel ps ticks = record { procs = ps; nextpid = 9; initproc = some 0; ticks = ticks; pages = [] }

-- The bytes of memory: each address holds itself, as far as a byte can.
abbrev pub memory : ℕ → ℕ
memory a = a % 256
