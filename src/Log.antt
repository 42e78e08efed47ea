-- ===== src/Log.antt =====
-- log.c: the write-ahead log. The buffer cache appears as bio.c promises it: `bread` gives the newest content of a
-- block, from the cache while the block is dirty, and `bwrite` puts it on the disk. A block is the
-- bytes of its buffer.
pub mod Header
pub mod Crash
pub mod Commit
pub mod States
pub mod Recovery
pub mod Space
use operating_system_laborat.Base.{
  ℕ, zero, suc, ◌+◌, ◌-◌, ◌*◌, Bool, true, false, ◌||◌, Option, none, some, List, [], ◌∷◌, ltb, leb,
  ◌==◌, if◌then◌else◌, length, sub32, Outcome, ok, panic,
}
use operating_system_laborat.Bytes.{Mem, store32}
use operating_system_laborat.Kalloc.{load32}

abbrev pub Disk : Type 0
Disk = ℕ → Mem

abbrev pub put_block : Disk → ℕ → Mem → Disk
put_block d b x a = if b == a then x else d a

-- The disk, the blocks as `bread` gives them, and how many writes still reach the disk before
-- the power fails.
pub record Machine : Type 0 where
  pub disk : Disk
  pub cache : Disk
  pub left : ℕ

-- `bwrite` of block b with new content x
unfoldable pub bwrite : ℕ → Mem → Machine → Machine
bwrite b x s = elim s.left [
  | zero ↦ record s { cache = put_block s.cache b x }
  | suc n ↦ record { disk = put_block s.disk b x; cache = put_block s.cache b x; left = n }
]

-- The words of `block` from the address a on.
unfoldable pub write_words : Mem → ℕ → List ℕ → Mem
unfolding store32
write_words m a [] = m
write_words m a (w ∷ ws) = write_words (store32 m a w) (a + 4) ws

unfoldable pub read_words : Mem → ℕ → ℕ → List ℕ
unfolding load32
read_words m a zero = []
read_words m a (suc n) = load32 m a ∷ read_words m (a + 4) n

-- `struct logheader` in a block: n, then the n block numbers.
abbrev pub set_header : List ℕ → Mem → Mem
set_header lh m = write_words (store32 m 0 (length lh)) 4 lh

abbrev pub header : Mem → List ℕ
header m = read_words m 4 (load32 m 0)

-- `read_head`: the in-memory header after it
unfoldable pub read_head : ℕ → Machine → List ℕ
unfolding read_words
read_head start s = header (s.cache start)

unfoldable pub write_head : ℕ → List ℕ → Machine → Machine
unfolding bwrite write_words
write_head start lh s = bwrite start (set_header lh (s.cache start)) s

-- The loop of `install_trans` from `tail` on, with the block numbers that are left.
unfoldable pub install_trans : ℕ → ℕ → List ℕ → Machine → Machine
unfolding bwrite
install_trans start tail [] s = s
install_trans start tail (b ∷ bs) s =
    install_trans start (tail + 1) bs (bwrite b (s.cache (start + tail + 1)) s)

-- The loop of `write_log`, likewise.
unfoldable pub write_log : ℕ → ℕ → List ℕ → Machine → Machine
unfolding bwrite
write_log start tail [] s = s
write_log start tail (b ∷ bs) s =
    write_log start (tail + 1) bs (bwrite (start + tail + 1) (s.cache b) s)

-- `commit`; the in-memory header is empty after it.
unfoldable pub commit : ℕ → List ℕ → Machine → Machine
unfolding write_log write_head install_trans
commit start [] s = s
commit start (b ∷ bs) s =
    let s1 = write_log start 0 (b ∷ bs) s in
    let s2 = write_head start (b ∷ bs) s1 in
    let s3 = install_trans start 0 (b ∷ bs) s2 in write_head start [] s3

unfoldable pub recover_from_log : ℕ → Machine → Machine
unfolding read_head install_trans write_head
recover_from_log start s = write_head start [] (install_trans start 0 (read_head start s) s)

-- The machine starts again with this disk: the cache is empty, so that `bread` gives what is
-- on the disk, and n writes will reach it.
abbrev pub restart : ℕ → Disk → Machine
restart n d = record { disk = d; cache = d; left = n }

abbrev pub maxopblocks : ℕ
maxopblocks = 10

abbrev pub logsize : ℕ
logsize = maxopblocks * 3

-- `struct log`, without its lock and the place of the log on the disk
pub record Log : Type 0 where
  pub size : ℕ
  pub outstanding : ℕ
  pub committing : Bool
  pub lh : List ℕ

-- One round of the loop of `begin_op`; none if it sleeps, to make another round after a wakeup.
unfoldable pub begin_op : Log → Option Log
begin_op l =
    if l.committing
    then none
    else if ltb logsize (length l.lh + (l.outstanding + 1) * maxopblocks)
    then none
    else some (record l { outstanding = l.outstanding + 1 })

-- `end_op` up to its `commit`; the flag is `do_commit`.
unfoldable pub end_op : Log → Outcome (Log × Bool)
end_op l =
    if l.committing
    then panic
    else if sub32 l.outstanding 1 == 0
    then ok (record l { outstanding = sub32 l.outstanding 1; committing = true }, true)
    else ok (record l { outstanding = sub32 l.outstanding 1 }, false)

-- The rest of `end_op` after `commit`, which has emptied the header.
unfoldable pub end_commit : Log → Log
end_commit l = record l { lh = []; committing = false }

-- The loop of `log_write`: the block number is put at its place, or behind the others.
unfoldable pub absorb : ℕ → List ℕ → List ℕ
absorb b [] = b ∷ []
absorb b (c ∷ cs) = let rest = absorb b cs in if c == b then b ∷ cs else c ∷ rest

-- `log_write` of block b, without the B_DIRTY flag
unfoldable pub log_write : ℕ → Log → Outcome Log
unfolding absorb
log_write b l =
    if leb logsize (length l.lh) || leb (l.size - 1) (length l.lh)
    then panic
    else if ltb l.outstanding 1
    then panic
    else ok (record l { lh = absorb b l.lh })
