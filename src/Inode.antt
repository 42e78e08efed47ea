-- ===== src/Inode.antt =====
-- fs.c: inodes in the cache and on the disk, and their content. A block that is read is the newest content that
-- the buffer cache has of it. The locks around each operation are left out.
pub mod Cache
pub mod Refs
pub mod Disk
pub mod Content
pub mod Map
pub mod Reading
pub mod Laid
pub mod Writing
use operating_system_laborat.Base.{
  ℕ, zero, suc, ◌+◌, ◌-◌, ◌*◌, ◌/◌, ◌%◌, Bool, true, false, ◌&&◌, Option, none, some, List, [], ◌∷◌,
  ltb, ◌==◌, if◌then◌else◌, Outcome, ok, panic, ◌>>=◌,
}
use operating_system_laborat.Bytes.{Mem, update, store32, memset}
use operating_system_laborat.Kalloc.{load32}
use operating_system_laborat.Log.{write_words, read_words}
use operating_system_laborat.Fs.{bsize, Superblock, Store, write_block, balloc, bfree}

abbrev pub ndirect : ℕ
ndirect = 12

abbrev pub nindirect : ℕ
nindirect = bsize / 4

abbrev pub maxfile : ℕ
maxfile = ndirect + nindirect

-- T_DEV, NDEV
abbrev pub t_dev : ℕ
t_dev = 3

abbrev pub ndev : ℕ
ndev = 10

-- `struct inode`, without its lock; the fields behind `valid` are those of `struct dinode`.
pub record Inode : Type 0 where
  pub dev : ℕ
  pub inum : ℕ
  pub refs : ℕ
  pub valid : Bool
  pub typ : ℕ
  pub major : ℕ
  pub minor : ℕ
  pub nlink : ℕ
  pub size : ℕ
  pub addrs : List ℕ

-- `if(empty == 0 && ip->ref == 0) empty = ip`
abbrev pub first_empty : Option ℕ → ℕ → ℕ → Option ℕ
first_empty (some e) refs i = some e
first_empty none refs i = if refs == 0 then some i else none

abbrev pub is_inode : ℕ → ℕ → Inode → Bool
is_inode dev inum ip = ltb 0 ip.refs && (ip.dev == dev && ip.inum == inum)

-- What the loop of `iget` finds: the inode's entry, or else the first free one.
pub data Slot : Type 0 where
  cached : ℕ → Slot
  empty : Option ℕ → Slot

unfoldable pub iget_scan : ℕ → ℕ → List Inode → ℕ → Option ℕ → Slot
iget_scan dev inum [] i e = empty e
iget_scan dev inum (ip ∷ t) i e =
    let rest = iget_scan dev inum t (i + 1) (first_empty e ip.refs i) in
    if is_inode dev inum ip then cached i else rest

-- The table with its entry i changed.
abbrev pub change : ℕ → (Inode → Inode) → List Inode → List Inode
change i f [] = []
change zero f (ip ∷ t) = f ip ∷ t
change (suc i) f (ip ∷ t) = ip ∷ change i f t

-- `iget` on the table of the cache; its result is the place in the table.
unfoldable pub iget : ℕ → ℕ → List Inode → Outcome (List Inode × ℕ)
unfolding iget_scan
iget dev inum t = elim (iget_scan dev inum t 0 none) [
  | cached i ↦ ok (change i (λ ip. record ip { refs = ip.refs + 1 }) t, i)
  | empty none ↦ panic
  | empty (some i) ↦
      ok (change i (λ ip. record ip { dev = dev; inum = inum; refs = 1; valid = false }) t, i)
]

unfoldable pub idup : ℕ → List Inode → List Inode
idup i t = change i (λ ip. record ip { refs = ip.refs + 1 }) t

-- The end of `iput`: the reference is given back.
unfoldable pub drop_ref : ℕ → List Inode → List Inode
drop_ref i t = change i (λ ip. record ip { refs = ip.refs - 1 }) t

-- A little-endian short
abbrev pub store16 : Mem → ℕ → ℕ → Mem
store16 m a w = update (update m a (w % 256)) (a + 1) (w / 256 % 256)

abbrev pub load16 : Mem → ℕ → ℕ
load16 m a = m a + 256 * m (a + 1)

-- IPB inodes of 64 bytes stand in a block.
abbrev pub ipb : ℕ
ipb = bsize / 64

abbrev pub iblock : ℕ → Superblock → ℕ
iblock inum sb = inum / ipb + sb.inodestart

abbrev pub dinode_at : ℕ → ℕ
dinode_at inum = inum % ipb * 64

-- The stores of `iupdate` into the `struct dinode` at p.
unfoldable pub put_dinode : Mem → ℕ → Inode → Mem
unfolding write_words store32
put_dinode m p ip =
    write_words
      (store32
        (store16 (store16 (store16 (store16 m p ip.typ) (p + 2) ip.major) (p + 4) ip.minor) (p + 6)
          ip.nlink)
        (p + 8) ip.size)
      (p + 12) ip.addrs

unfoldable pub iupdate : Superblock → Inode → Store → Outcome Store
unfolding put_dinode write_block
iupdate sb ip s =
    write_block (iblock ip.inum sb)
      (put_dinode (s.cache (iblock ip.inum sb)) (dinode_at ip.inum) ip) s

-- The reading of `ilock`, which follows the check of the references and the lock.
unfoldable pub get_dinode : Mem → ℕ → Inode → Inode
unfolding read_words load32
get_dinode m p ip = record ip {
  valid = true;
  typ = load16 m p;
  major = load16 m (p + 2);
  minor = load16 m (p + 4);
  nlink = load16 m (p + 6);
  size = load32 m (p + 8);
  addrs = read_words m (p + 12) (ndirect + 1);
}

unfoldable pub ilock : Superblock → Inode → Store → Outcome Inode
unfolding get_dinode
ilock sb ip s =
    let read = get_dinode (s.cache (iblock ip.inum sb)) (dinode_at ip.inum) ip in
    if ltb ip.refs 1
    then panic
    else if ip.valid
    then ok ip
    else if read.typ == 0
    then panic
    else ok read

-- The loop of `ialloc` from inum on, for n rounds; the inode's number is handed to `iget`.
unfoldable pub ialloc_loop : Superblock → ℕ → ℕ → ℕ → Store → Outcome (Store × ℕ)
unfolding write_block memset
ialloc_loop sb typ inum zero s = panic
ialloc_loop sb typ inum (suc n) s =
    let x = s.cache (iblock inum sb) in
    let p = dinode_at inum in
    let rest = ialloc_loop sb typ (inum + 1) n s in
    if load16 x p == 0
    then (write_block (iblock inum sb) (store16 (memset x p 0 64) p typ) s >>= λ d. ok (d, inum))
    else rest

unfoldable pub ialloc : Superblock → ℕ → ℕ → List Inode → Store → Outcome (Store × List Inode × ℕ)
unfolding ialloc_loop iget
ialloc sb dev typ t s = ialloc_loop sb typ 1 (sb.ninodes - 1) s >>= λ (d, inum).
    iget dev inum t >>= λ (u, i). ok (d, u, i)
