-- ===== src/Pipe.antt =====
-- pipe.c: a ring of 512 bytes between a writer and a reader. A call runs as one step, with the
-- pipe's lock, up to its end or to its `sleep`, where it stops with what it has left to do; after
-- `wakeup` it goes on from there.
pub mod Queue
use operating_system_laborat.Base.{
  ℕ, zero, suc, ◌+◌, ◌%◌, Bool, true, false, not, ◌&&◌, ◌||◌, List, [], ◌∷◌, ◌==◌, if◌then◌else◌,
  u32,
}

abbrev pub pipesize : ℕ
pipesize = 512

-- `struct pipe`; the two counts are unsigned ints that never stop growing.
pub record Pipe : Type 0 where
  pub store : ℕ → ℕ
  pub nread : ℕ
  pub nwrite : ℕ
  pub readopen : Bool
  pub writeopen : Bool

-- The fields that `pipealloc` sets; the page's old bytes stay in the store.
unfoldable pub pipealloc : (ℕ → ℕ) → Pipe
pipealloc junk = record { store = junk; nread = 0; nwrite = 0; readopen = true; writeopen = true }

-- `pipeclose`: the pipe after it, and whether its page is freed.
unfoldable pub pipeclose : Bool → Pipe → Pipe × Bool
pipeclose writable p =
    let q : Pipe =
      if writable then record p { writeopen = false } else record p { readopen = false } in
    (q, not q.readopen && not q.writeopen)

abbrev pub is_full : Pipe → Bool
is_full p = p.nwrite == u32 (p.nread + pipesize)

abbrev pub is_empty : Pipe → Bool
is_empty p = p.nread == p.nwrite

-- `p->data[p->nwrite++ % PIPESIZE] = addr[i]`
unfoldable pub put_byte : ℕ → Pipe → Pipe
put_byte b p = record p {
  store = λ i. if i == p.nwrite % pipesize then b else p.store i;
  nwrite = u32 (p.nwrite + 1);
}

-- How a call of `pipewrite` stops.
pub data WriteEnd : Type 0 where
  wrote : WriteEnd  -- the loop is through; n is returned
  write_failed : WriteEnd  -- -1
  write_sleeps : List ℕ → WriteEnd  -- asleep, with the bytes left

-- The loops of `pipewrite` over the bytes left.
unfoldable pub pipewrite : Bool → List ℕ → Pipe → WriteEnd × Pipe
unfolding put_byte
pipewrite killed [] p = (wrote, p)
pipewrite killed (b ∷ bs) p =
    let rest = pipewrite killed bs (put_byte b p) in
    if is_full p
    then if not p.readopen || killed then (write_failed, p) else (write_sleeps (b ∷ bs), p)
    else rest

-- `addr[i] = p->data[p->nread++ % PIPESIZE]`
abbrev pub first_byte : Pipe → ℕ
first_byte p = p.store (p.nread % pipesize)

unfoldable pub drop_byte : Pipe → Pipe
drop_byte p = record p { nread = u32 (p.nread + 1) }

-- The copying loop of `piperead` for at most n bytes.
unfoldable pub copy_out : ℕ → Pipe → List ℕ × Pipe
unfolding drop_byte
copy_out zero p = ([], p)
copy_out (suc n) p =
    let rest = copy_out n (drop_byte p) in
    if is_empty p then ([], p) else (first_byte p ∷ rest.0, rest.1)

-- How a call of `piperead` stops.
pub data ReadEnd : Type 0 where
  read_bytes : List ℕ → ReadEnd
  read_failed : ReadEnd
  read_sleeps : ReadEnd

unfoldable pub piperead : Bool → ℕ → Pipe → ReadEnd × Pipe
unfolding copy_out
piperead killed n p =
    if is_empty p && p.writeopen
    then if killed then (read_failed, p) else (read_sleeps, p)
    else (read_bytes (copy_out n p).0, (copy_out n p).1)
