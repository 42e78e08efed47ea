-- ===== src/Proc/Boot.antt =====
-- userinit of proc.c: the first process. The page tables (vm.c) and namei (fs.c) are handed in.
use operating_system_laborat.Base.{
  ℕ, Option, none, some, List, [], ◌∷◌, get_elem?, get_or, Outcome, ok, panic, fault, ◌>>=◌,
}
use operating_system_laborat.Kalloc.{pgsize}
use operating_system_laborat.Proc.{TrapFrame, Proc, Kernel, runnable, rr}
use operating_system_laborat.Proc.Lookup.{modify, change_queue}
use operating_system_laborat.Proc.Life.{allocproc, copy_name}

-- The trap frame that `userinit` writes: segments 3 and 4 at user level, and FL_IF.
abbrev first_frame : TrapFrame
first_frame = record {
  edi = 0;
  esi = 0;
  ebp = 0;
  oesp = 0;
  ebx = 0;
  edx = 0;
  ecx = 0;
  eax = 0;
  gs = 0;
  fs = 0;
  es = 35;
  ds = 35;
  trapno = 0;
  err = 0;
  eip = 0;
  cs = 27;
  eflags = 0x200;
  esp = pgsize;
  ss = 35;
}

-- The bytes of "initcode"
abbrev initcode_name : ℕ → ℕ
initcode_name i = get_or (b'i' ∷ b'n' ∷ b'i' ∷ b't' ∷ b'c' ∷ b'o' ∷ b'd' ∷ b'e' ∷ []) i 0

module _ (forkret trapret : ℕ) (fresh_frame : ℕ → TrapFrame) {I : Type 0}
    (setupkvm : List ℕ → Option ℕ × List ℕ) (inituvm : ℕ → List ℕ → Outcome (List ℕ))
    (namei_root : I → Option ℕ × I) where
  -- The fields of the first process that `userinit` sets.
  unfoldable pub init_proc : ℕ → Option ℕ → Proc → Proc
  unfolding copy_name
  init_proc pgdir root p = record p {
    pgdir = pgdir;
    sz = pgsize;
    frame = first_frame;
    name = copy_name forkret trapret fresh_frame p.name initcode_name;
    cwd = root;
    state = runnable;
  }

  unfoldable pub userinit : Kernel → I → Outcome (Kernel × I)
  unfolding allocproc init_proc modify change_queue
  userinit k s =
      let (np, k1) = allocproc forkret trapret fresh_frame k in
      elim np [
        | none ↦ fault
        | some n ↦
            let (pg, left) = setupkvm k1.pages in
            elim pg [
              | none ↦ panic
              | some d ↦ elim (get_elem? k1.procs n) [
                | none ↦ fault
                | some p ↦
                    let (root, s') = namei_root s in
                    inituvm d left >>= λ pages.
                    change_queue p.pid rr (record k1 {
                      initproc = some n;
                      pages = pages;
                      procs = modify n (init_proc d root) k1.procs;
                    })
                    >>= λ k'. ok (k', s')
              ]
            ]
      ]
