-- ===== src/File.antt =====
-- file.c: the table of open files. A `struct file *` is an index of the table; each function holds
-- ftable.lock throughout, so it is one step. The pipe and inode layers are handed in.
pub mod Refs
pub mod Chunks
use operating_system_laborat.Base.{
  ℕ, zero, suc, ◌+◌, ◌-◌, ◌*◌, ◌/◌, min, Bool, not, Option, none, some, List, [], ◌∷◌, ltb, ◌==◌,
  if◌then◌else◌, length, get_elem?, set, take, drop, u32, slt, minus_one, Outcome, ok, panic, fault,
  ◌>>=◌,
}

abbrev pub nfile : ℕ
nfile = 100

pub data FileType : Type 0 where
  fd_none fd_pipe fd_inode : FileType

-- `struct file`; `ref` is an int that is never negative, `pipe` and `ip` name the object.
pub record File : Type 0 where
  pub type : FileType
  pub ref : ℕ
  pub readable : Bool
  pub writable : Bool
  pub pipe : ℕ
  pub ip : ℕ
  pub off : ℕ

-- The loop of `filealloc`, f being the index reached.
unfoldable pub filealloc_loop : ℕ → List File → Option ℕ × List File
filealloc_loop f [] = (none, [])
filealloc_loop f (x ∷ xs) =
    let (r, ys) = filealloc_loop (f + 1) xs in
    if x.ref == 0 then (some f, record x { ref = 1 } ∷ xs) else (r, x ∷ ys)

unfoldable pub filealloc : List File → Option ℕ × List File
unfolding filealloc_loop
filealloc fs = filealloc_loop 0 fs

unfoldable pub filedup : ℕ → List File → Outcome (List File)
filedup f fs = elim (get_elem? fs f) [
  | none ↦ fault
  | some x ↦ if ltb x.ref 1 then panic else ok (set fs f (record x { ref = x.ref + 1 }))
]

-- What `fileclose` still does after it has dropped the table's lock.
pub data Closing : Type 0 where
  nothing : Closing
  close_pipe : ℕ → Bool → Closing  -- pipeclose(ff.pipe, ff.writable)
  put_inode : ℕ → Closing  -- begin_op(); iput(ff.ip); end_op()

abbrev pub closing : File → Closing
closing x = elim x.type [
  | fd_none ↦ nothing
  | fd_pipe ↦ close_pipe x.pipe x.writable
  | fd_inode ↦ put_inode x.ip
]

unfoldable pub fileclose : ℕ → List File → Outcome (Closing × List File)
fileclose f fs = elim (get_elem? fs f) [
  | none ↦ fault
  | some x ↦
      if ltb x.ref 1
      then panic
      else if ltb 0 (x.ref - 1)
      then ok (nothing, set fs f (record x { ref = x.ref - 1 }))
      else ok (closing x, set fs f (record x { ref = 0; type = fd_none }))
]

-- MAXOPBLOCKS - 1 - 1 - 2 blocks, halved, in bytes
abbrev pub max_chunk : ℕ
max_chunk = (10 - 1 - 1 - 2) / 2 * 512

-- The layers below, over a state S: a result is the word of an int.
module _ {S : Type 0} (pipe_read : ℕ → ℕ → S → ℕ × S) (pipe_write : ℕ → List ℕ → S → ℕ × S)
    (read_inode : ℕ → ℕ → ℕ → S → ℕ × S) (write_inode : ℕ → List ℕ → ℕ → S → ℕ × S) where
  -- `fileread`: the result, the file and the state after it. `read_inode ip off n` stands for
  -- `readi` between `ilock` and `iunlock`.
  unfoldable pub fileread : File → ℕ → S → Outcome (ℕ × File × S)
  fileread f n s = if not f.readable then ok (minus_one, f, s) else elim f.type [
    | fd_pipe ↦ let (r, s') = pipe_read f.pipe n s in ok (r, f, s')
    | fd_inode ↦
        let (r, s') = read_inode f.ip f.off n s in
        ok (r, (if slt 0 r then record f { off = u32 (f.off + r) } else f), s')
    | fd_none ↦ panic
  ]

  -- The loop of `filewrite`: `left` holds the bytes from i on. `write_inode ip bytes off` stands for
  -- `writei` in a transaction of its own, with the inode locked.
  unfoldable pub write_loop : ℕ → File → List ℕ → ℕ → S → Outcome (ℕ × File × S)
  write_loop zero f left i s = fault
  write_loop (suc fuel) f [] i s = ok (i, f, s)
  write_loop (suc fuel) f (b ∷ bs) i s =
      let n1 = min (length (b ∷ bs)) max_chunk in
      let (r, s') = write_inode f.ip (take n1 (b ∷ bs)) f.off s in
      let f' : File = if slt 0 r then record f { off = u32 (f.off + r) } else f in
      let rest = write_loop fuel f' (drop n1 (b ∷ bs)) (i + r) s' in
      if slt r 0 then ok (i, f', s') else if r == n1 then rest else panic

  unfoldable pub filewrite : File → List ℕ → S → Outcome (ℕ × File × S)
  unfolding write_loop
  filewrite f bytes s = if not f.writable then ok (minus_one, f, s) else elim f.type [
    | fd_pipe ↦ let (r, s') = pipe_write f.pipe bytes s in ok (r, f, s')
    | fd_inode ↦ write_loop (suc (length bytes)) f bytes 0 s >>= λ (i, f', s').
        ok ((if i == length bytes then length bytes else minus_one), f', s')
    | fd_none ↦ panic
  ]
