-- ===== src/Inode/Map.antt =====
-- The blocks of an inode that bmap finds.
use native.Mathlib.Decide.{dec_lt}
use operating_system_laborat.Base.{
  ℕ, ◌-◌, ◌≤◌, ◌<◌, ◌≡◌, refl, ◌≢◌, true, false, arith, ltb, ◌==◌, if◌then◌else◌, get_or, ok,
}
use operating_system_laborat.Kalloc.{load32}
use operating_system_laborat.Fs.{Superblock, Store}
use operating_system_laborat.Inode.{ndirect, nindirect, maxfile, Inode}
use operating_system_laborat.Inode.Content.{word, bmap, bmap_indirect}

-- The block that holds the part bn of the content.
unfoldable pub block_of : Store → Inode → ℕ → ℕ
unfolding load32
block_of s ip bn =
    if ltb bn ndirect
    then get_or ip.addrs bn 0
    else word s (get_or ip.addrs ndirect 0) (bn - ndirect)

-- The part bn has a block.
abbrev pub Mapped : Store → Inode → ℕ → Type 0
Mapped s ip bn =
    (bn < maxfile) × (block_of s ip bn ≢ 0) × (ndirect ≤ bn → get_or ip.addrs ndirect 0 ≢ 0)

-- `bmap` finds a part that has a block and changes nothing.
pub bmap-Mapped :
    (sb : Superblock) (s : Store) (ip : Inode) (bn : ℕ)
    → Mapped s ip bn
    → bmap sb ip bn s ≡ ok (s, ip, block_of s ip bn)
unfolding bmap block_of bmap_indirect
bmap-Mapped sb s ip bn m = elim (dec_lt bn ndirect) [
  | yes lt ↦
      let low : ltb bn ndirect ≡ true = ground arith in
      let there : (get_or ip.addrs bn 0 == 0) ≡ false = ground (arith, m.1) in rw (low, there) refl
  | no ge ↦
      let high : ltb bn ndirect ≡ false = ground arith in
      let inside : ltb (bn - ndirect) nindirect ≡ true = ground (arith, m.0) in
      let table : (get_or ip.addrs ndirect 0 == 0) ≡ false = ground (arith, m.2) in
      let there : (word s (get_or ip.addrs ndirect 0) (bn - ndirect) == 0) ≡ false =
        ground (arith, m.1) in
      rw (high, inside, table, there) refl
]
