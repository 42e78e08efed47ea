-- ===== src/Fs.antt =====
-- fs.c, its lowest layer: the allocator of disk blocks. A block that is read is the newest content that the
-- buffer cache has of it, and a block that is changed is announced to the log.
pub mod Bits
pub mod Marks
pub mod Scan
pub mod Blocks
use Prim.Native.Nat.{bit_and, bit_or}
use operating_system_laborat.Base.{
  ℕ, zero, suc, ◌+◌, ◌-◌, ◌*◌, ◌/◌, ◌%◌, ◌^◌, min, Bool, not, Option, none, some, ltb, ◌==◌,
  if◌then◌else◌, Outcome, ok, panic, ◌>>=◌,
}
use operating_system_laborat.Bytes.{Mem, update, memset}
use operating_system_laborat.Log.{Disk, put_block, Log, log_write}

-- BSIZE and BPB: the bytes of a block, and its bits
abbrev pub bsize : ℕ
bsize = 512

abbrev pub bpb : ℕ
bpb = bsize * 8

pub record Superblock : Type 0 where
  pub size : ℕ
  pub nblocks : ℕ
  pub ninodes : ℕ
  pub nlog : ℕ
  pub logstart : ℕ
  pub inodestart : ℕ
  pub bmapstart : ℕ

-- The blocks as `bread` gives them, and the log.
pub record Store : Type 0 where
  pub cache : Disk
  pub log : Log

-- The new content x of block b and its `log_write`.
unfoldable pub write_block : ℕ → Mem → Store → Outcome Store
unfolding log_write
write_block b x s =
    log_write b s.log >>= λ l. ok (record { cache = put_block s.cache b x; log = l })

-- BBLOCK: the block of the map that has the bit of block b
abbrev pub bblock : Superblock → ℕ → ℕ
bblock sb b = b / bpb + sb.bmapstart

-- `1 << (bi % 8)`
abbrev pub bit_mask : ℕ → ℕ
bit_mask bi = 2 ^ (bi % 8)

-- `(data[bi/8] & m) == 0`
unfoldable pub bit_clear : Mem → ℕ → Bool
bit_clear x bi = bit_and (x (bi / 8)) (bit_mask bi) == 0

unfoldable pub mark : Mem → ℕ → Mem
mark x bi = update x (bi / 8) (bit_or (x (bi / 8)) (bit_mask bi))

-- `data[bi/8] &= ~m`, in a byte
unfoldable pub unmark : Mem → ℕ → Mem
unmark x bi = update x (bi / 8) (bit_and (x (bi / 8)) (255 - bit_mask bi))

unfoldable pub bzero : ℕ → Store → Outcome Store
unfolding write_block memset
bzero b s = write_block b (memset (s.cache b) 0 0 bsize) s

-- The inner loop of `balloc`: the first clear bit from bi on, in n rounds.
unfoldable pub find_clear : Mem → ℕ → ℕ → Option ℕ
unfolding bit_clear
find_clear x bi zero = none
find_clear x bi (suc n) =
    let rest = find_clear x (bi + 1) n in if bit_clear x bi then some bi else rest

-- What `balloc` does with the bit that it found.
unfoldable pub take_block : Superblock → ℕ → ℕ → Store → Outcome (Store × ℕ)
unfolding write_block bzero mark
take_block sb b bi s = write_block (bblock sb b) (mark (s.cache (bblock sb b)) bi) s >>= λ s1.
    bzero (b + bi) s1 >>= λ s2. ok (s2, b + bi)

-- The outer loop of `balloc`, for at most as many blocks of the map as the last argument says.
unfoldable pub balloc_loop : Superblock → ℕ → Store → ℕ → Outcome (Store × ℕ)
unfolding find_clear take_block
balloc_loop sb b s zero = panic
balloc_loop sb b s (suc k) =
    let rest = balloc_loop sb (b + bpb) s k in
    if ltb b sb.size
    then elim (find_clear (s.cache (bblock sb b)) 0 (min bpb (sb.size - b))) [
      | some bi ↦ take_block sb b bi s
      | none ↦ rest
    ]
    else panic

unfoldable pub balloc : Superblock → Store → Outcome (Store × ℕ)
unfolding balloc_loop
balloc sb s = balloc_loop sb 0 s (sb.size / bpb + 1)

unfoldable pub bfree : Superblock → ℕ → Store → Outcome Store
unfolding write_block bit_clear unmark
bfree sb b s =
    if bit_clear (s.cache (bblock sb b)) (b % bpb)
    then panic
    else write_block (bblock sb b) (unmark (s.cache (bblock sb b)) (b % bpb)) s

-- What the map says of block b.
unfoldable pub in_use : Superblock → Store → ℕ → Bool
unfolding bit_clear
in_use sb s b = not (bit_clear (s.cache (bblock sb b)) (b % bpb))
