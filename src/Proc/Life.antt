-- ===== src/Proc/Life.antt =====
-- allocproc, growproc and fork of proc.c. The page tables (vm.c) and the inode layer (fs.c) are handed
-- in; pages come from the list of Kalloc.antt.
use operating_system_laborat.Base.{
  ℕ, ◌+◌, ◌-◌, not, ◌&&◌, ◌||◌, Option, none, some, List, [], ◌∷◌, ltb, ◌==◌, if◌then◌else◌,
  get_elem?, replicate, u32, slt, minus_one, Outcome, ok, panic, fault, ◌>>=◌,
}
use operating_system_laborat.Bytes.{Mem, safestrcpy}
use operating_system_laborat.File.{File, filedup}
use operating_system_laborat.Kalloc.{free_page}
use operating_system_laborat.Proc.{
  max_syscalls, kstacksize, rr, fcfs, unused, embryo, runnable, is_unused, TimeInfo, TrapFrame,
  Proc, Kernel,
}
use operating_system_laborat.Proc.Lookup.{modify, change_queue}

-- The search of `allocproc`, p being the index reached.
unfoldable pub find_unused : ℕ → List Proc → Option ℕ
find_unused p [] = none
find_unused p (x ∷ xs) =
    let rest = find_unused (p + 1) xs in if is_unused x.state then some p else rest

-- DEFAULT_BURST_TIME and DEFAULT_CONFIDENCE of param.h
abbrev pub default_burst_time : ℕ
default_burst_time = 2

abbrev pub default_confidence : ℕ
default_confidence = 50

abbrev pub init_ti : ℕ → TimeInfo
init_ti ticks = record {
  queue = fcfs;
  ticks_used = 0;
  burst_time = default_burst_time;
  creation_time = ticks;
  enter_queue_time = ticks;
  last_run_time = 0;
  confidence = default_confidence;
}

abbrev pub sizeof_trapframe : ℕ
sizeof_trapframe = 76

abbrev pub sizeof_context : ℕ
sizeof_context = 20

-- `found:` up to the release of the lock
abbrev pub claim : ℕ → Proc → Proc
claim pid p = record p { state = embryo; pid = pid; used_syscalls = replicate max_syscalls 0 }

abbrev pub unclaim : Proc → Proc
unclaim p = record p { kstack = 0; state = unused }

-- The names of trapasm.S and of the linker, and what lies in a fresh page where the trap frame is put.
module _ (forkret trapret : ℕ) (fresh_frame : ℕ → TrapFrame) where
  -- The last part of `allocproc`: the kernel stack at v, and the first times.
  unfoldable pub set_up : ℕ → ℕ → Proc → Proc
  set_up v ticks p = record p {
    kstack = v;
    tf = v + kstacksize - sizeof_trapframe;
    frame = fresh_frame v;
    context = v + kstacksize - sizeof_trapframe - 4 - sizeof_context;
    return_to = trapret;
    context_eip = forkret;
    ti = init_ti ticks;
  }

  -- `allocproc` from the label `found` on, for the entry i.
  unfoldable pub alloc_at : ℕ → Kernel → Option ℕ × Kernel
  unfolding modify set_up
  alloc_at i k =
      let claimed = modify i (claim k.nextpid) k.procs in
      let k1 = record k { procs = claimed; nextpid = u32 (k.nextpid + 1) } in
      elim k.pages [
        | [] ↦ (none, record k1 { procs = modify i unclaim claimed })
        | v ∷ rest ↦
            (some i, record k1 { procs = modify i (set_up v k.ticks) claimed; pages = rest })
      ]

  unfoldable pub allocproc : Kernel → Option ℕ × Kernel
  unfolding find_unused alloc_at
  allocproc k = elim (find_unused 0 k.procs) [ none ↦ (none, k) | some i ↦ alloc_at i k ]

  -- Two arrays of 16 characters side by side, as memory for `safestrcpy`.
  abbrev pub side_by_side : (ℕ → ℕ) → (ℕ → ℕ) → Mem
  side_by_side a b i = if ltb i 16 then a i else b (i - 16)

  -- `safestrcpy(np->name, curproc->name, sizeof(curproc->name))`
  unfoldable pub copy_name : (ℕ → ℕ) → (ℕ → ℕ) → ℕ → ℕ
  unfolding safestrcpy
  copy_name new old i = if ltb i 16 then safestrcpy (side_by_side new old) 0 16 16 i else new i

  -- The loop of `fork` over the open files: the parent's, the child's, the table.
  unfoldable pub dup_files :
      List (Option ℕ) → List (Option ℕ) → List File → Outcome (List (Option ℕ) × List File)
  unfolding filedup
  dup_files [] ns fs = ok (ns, fs)
  dup_files (c ∷ cs) [] fs = ok ([], fs)
  dup_files (none ∷ cs) (n ∷ ns) fs = dup_files cs ns fs >>= λ r. ok (n ∷ r.0, r.1)
  dup_files (some f ∷ cs) (n ∷ ns) fs =
      filedup f fs >>= λ fs'. dup_files cs ns fs' >>= λ r. ok (some f ∷ r.0, r.1)

  module _ {I : Type 0} (kernel_end : ℕ) (copyuvm : ℕ → ℕ → List ℕ → Option ℕ × List ℕ)
      (idup : ℕ → I → I) where
    -- What `fork` returns: the word of its result, the kernel, the file table, the inode layer.
    abbrev pub ForkResult : Type 0
    ForkResult = ℕ × Kernel × List File × I

    abbrev pub give_back : Proc → Proc
    give_back p = record p { kstack = 0; state = unused }

    -- The parent's working directory is duplicated; a null one would be read through.
    abbrev pub dup_cwd : Option ℕ → I → Outcome I
    dup_cwd none s = fault
    dup_cwd (some ip) s = ok (idup ip s)

    -- The fields of the child that `fork` sets.
    unfoldable pub child : ℕ → Proc → ℕ → List (Option ℕ) → Proc → Proc
    unfolding copy_name
    child cur parent pgdir files p = record p {
      pgdir = pgdir;
      sz = parent.sz;
      parent = some cur;
      frame = record (parent.frame) { eax = 0 };
      ofile = files;
      cwd = parent.cwd;
      name = copy_name p.name parent.name;
      state = runnable;
    }

    -- The last line of `fork` but one.
    abbrev pub first_shell : ℕ → Kernel → Outcome Kernel
    first_shell pid k = if pid == 2 then change_queue pid rr k else ok k

    -- `fork` once the child has the entry n and the page table `pgdir`.
    unfoldable pub fork_into : ℕ → Proc → ℕ → Proc → ℕ → Kernel → List File → I → Outcome ForkResult
    unfolding modify child dup_files change_queue
    fork_into cur parent n new pgdir k fs s =
        dup_files parent.ofile new.ofile fs >>= λ (files, fs'). dup_cwd parent.cwd s >>= λ s'.
        first_shell new.pid (record k { procs = modify n (child cur parent pgdir files) k.procs })
        >>= λ k'. ok (new.pid, k', fs', s')

    unfoldable pub fork : ℕ → Kernel → List File → I → Outcome ForkResult
    unfolding allocproc fork_into free_page modify
    fork cur k fs s = elim (get_elem? k.procs cur) [
      | none ↦ fault
      | some parent ↦
          let (np, k1) = allocproc k in
          elim np [
            | none ↦ ok (minus_one, k1, fs, s)
            | some n ↦ elim (get_elem? k1.procs n) [
              | none ↦ fault
              | some new ↦
                  let (pg, left) = copyuvm parent.pgdir parent.sz k1.pages in
                  elim pg [
                    | none ↦ free_page kernel_end new.kstack left >>= λ pages. ok (
                      minus_one,
                      record k1 { procs = modify n give_back k1.procs; pages = pages },
                      fs,
                      s,
                    )
                    | some d ↦ fork_into cur parent n new d (record k1 { pages = left }) fs s
                  ]
            ]
          ]
    ]

-- `allocuvm` and `deallocuvm` of vm.c: the page directory, the old and the new size and the free pages; they answer
-- with the size reached, 0 for a failure.
module _ (allocuvm deallocuvm : ℕ → ℕ → ℕ → List ℕ → ℕ × List ℕ) where
  -- What `growproc` asks vm.c for.
  abbrev pub resize : ℕ → Proc → List ℕ → ℕ × List ℕ
  resize n p pages =
      if slt 0 n
      then allocuvm p.pgdir p.sz (u32 (p.sz + n)) pages
      else if slt n 0
      then deallocuvm p.pgdir p.sz (u32 (p.sz + n)) pages
      else (p.sz, pages)

  unfoldable pub growproc : ℕ → ℕ → Kernel → Outcome (ℕ × Kernel)
  unfolding modify
  growproc cur n k = elim (get_elem? k.procs cur) [
    | none ↦ fault
    | some p ↦
        let (sz, pages) = resize n p k.pages in
        if not (n == 0) && sz == 0
        then ok (minus_one, record k { pages = pages })
        else if p.kstack == 0 || p.pgdir == 0
        then panic
        else ok
            (0, record k { procs = modify cur (λ x. record x { sz = sz }) k.procs; pages = pages })
  ]
