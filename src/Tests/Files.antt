-- ===== src/Tests/Files.antt =====
-- The log, the block map, inodes and paths.
use native.Mathlib.Decide.{dec_lt}
use operating_system_laborat.Base.{
  ℕ, zero, suc, ◌+◌, ◌/◌, ◌≤◌, ◌<◌, ◌≡◌, refl, sym, ap, fun_ext, ◌≢◌, ◌⊎◌, inl, inr, Bool, true,
  false, none, some, List, [], ◌∷◌, arith, ◌==◌, if◌then◌else◌, length, get_elem?, replicate,
  minus_one, Outcome, ok, panic, fault,
}
use operating_system_laborat.Kalloc.{load32}
use operating_system_laborat.Log.{Disk, Machine, Log, restart, recover_from_log, commit}
use operating_system_laborat.Log.Crash.{Home}
use operating_system_laborat.Log.Recovery.{Ready, boots, SameHome, commit-recover}
use operating_system_laborat.Fs.{bsize, Superblock, Store, bblock, balloc, bfree, in_use}
use operating_system_laborat.Fs.Blocks.{MapUsed, balloc_lem, bfree_lem}
use operating_system_laborat.Inode.{Inode, iget, iupdate}
use operating_system_laborat.Inode.Content.{writei, readi}
use operating_system_laborat.Inode.Cache.{Unique}
use operating_system_laborat.Inode.Refs.{Got, iget_lem}
use operating_system_laborat.Inode.Disk as InodeDisk
use operating_system_laborat.Inode.Map.{block_of}
use operating_system_laborat.Inode.Reading.{byte, AllMapped}
use operating_system_laborat.Directory.{dirlookup, dirlink, namecmp_zero}
use operating_system_laborat.Directory.Lookup.{find_entry, entries}
use operating_system_laborat.Directory.Link.{free_slot, dirlink-dirlookup}
use operating_system_laborat.Inode.Laid.{Laid}
use operating_system_laborat.Inode.Writing.{writei-readi, writei_loop-Overwrites, writei-loop}
use operating_system_laborat.File.{File, fd_inode, max_chunk, filewrite}
use operating_system_laborat.File.Chunks.{filewrite_lem, Replaced}
use operating_system_laborat.Path.{names}
use operating_system_laborat.Path.Elements.{elements, marked, strings, names-elements}

-- A disk of zeros, and a cache in which block 50 has changed.
abbrev changed : Disk
changed b a = if b == 50 then 7 else 0

abbrev machine : Machine
machine = record { disk = (λ b a. 0); cache = changed; left = 2 }

machine-Ready : Ready 2 40 (50 ∷ []) machine
unfolding load32
machine-Ready = record {
  fits = record {
    short = omega arith;
    word = omega arith;
    words = (omega arith, tt);
    homes = λ t b e. home t b e;
  };
  no_log = refl;
  clean = λ b h a. fun_ext (λ i. let ne : b ≢ 50 = λ e. a 0 (ap some (sym e)) in ground arith);
}
  where
    home : (t b : ℕ) → get_elem? (50 ∷ []) t ≡ some b → Home 2 40 b
    home zero b e = inr (ground (arith, e))
    home (suc t) b e = absurd (ground (arith, e))

commit-recover_example :
    (SameHome 2 40
        (recover_from_log 2 (restart 5 (boots 2 (1 ∷ []) (commit 2 (50 ∷ []) machine).disk))).disk
        machine.disk
      ⊎ SameHome 2 40
          (recover_from_log 2 (restart 5 (boots 2 (1 ∷ []) (commit 2 (50 ∷ []) machine).disk))).disk
          machine.cache)
    × (0 < (commit 2 (50 ∷ []) machine).left
        → SameHome 2 40
            (recover_from_log 2
              (restart 5 (boots 2 (1 ∷ []) (commit 2 (50 ∷ []) machine).disk))).disk
            machine.cache)
commit-recover_example =
    commit-recover 2 40 (50 ∷ []) machine (1 ∷ []) 5 machine-Ready (omega arith)

-- mkfs makes a log of 30 blocks.
abbrev log : ℕ → Log
log running = record { size = 30; outstanding = running; committing = false; lh = [] }

abbrev disk_layout : Superblock
disk_layout = record {
  size = 8;
  nblocks = 5;
  ninodes = 8;
  nlog = 0;
  logstart = 2;
  inodestart = 1;
  bmapstart = 2;
}

-- Blocks 0 to 2 are in use; block 2 holds the map.
abbrev mapped_store : Store
mapped_store = record {
  cache = λ b a. if b == 2 then (if a == 0 then 7 else 0) else 255;
  log = log 1;
}

mapped-MapUsed : MapUsed disk_layout mapped_store
unfolding in_use
mapped-MapUsed b h =
    let e : bblock disk_layout b ≡ 2 = omega arith in ap (in_use disk_layout mapped_store) e

balloc_example :
    (r : Store × ℕ) × (balloc disk_layout mapped_store ≡ ok r)
    × (r.1 < 8)
    × (in_use disk_layout mapped_store r.1 ≡ false)
    × ((m : ℕ) → m < r.1 → in_use disk_layout mapped_store m ≡ true)
    × ((m : ℕ)
        → m < 8
        → in_use disk_layout r.0 m ≡ (if m == r.1 then true else in_use disk_layout mapped_store m))
    × ((a : ℕ) → a < bsize → r.0.cache r.1 a ≡ 0)
unfolding in_use
balloc_example =
    balloc_lem disk_layout mapped_store 3 (omega arith) refl (λ b a. ground arith) mapped-MapUsed
      (omega arith, omega arith, omega arith)

bfree_example :
    (in_use disk_layout mapped_store 1 ≡ false → bfree disk_layout 1 mapped_store ≡ panic)
    × (in_use disk_layout mapped_store 1 ≡ true
        → (s' : Store) × (bfree disk_layout 1 mapped_store ≡ ok s')
          × ((m : ℕ)
              → in_use disk_layout s' m
                ≡ (if m == 1 then false else in_use disk_layout mapped_store m)))
bfree_example =
    bfree_lem disk_layout 1 mapped_store (λ a. ground arith) (omega arith, omega arith, omega arith)

-- An inode with this number of references and two blocks.
abbrev inode : ℕ → Inode
inode refs = record {
  dev = 1;
  inum = 5;
  refs = refs;
  valid = true;
  typ = 2;
  major = 0;
  minor = 0;
  nlink = 1;
  size = 600;
  addrs = 10 ∷ 11 ∷ replicate 11 0;
}

one_inode-Unique : Unique (inode 1 ∷ inode 0 ∷ [])
one_inode-Unique zero zero a b ha hb pa pb d n = refl
one_inode-Unique (suc i) j a b ha hb pa pb d n = absurd (none_used i a ha pa)
  where
    none_used : (i : ℕ) (a : Inode) → get_elem? (inode 0 ∷ []) i ≡ some a → 0 < a.refs → ⊥
    none_used zero a h p = ground arith
    none_used (suc i) a h p = ground arith
one_inode-Unique zero (suc j) a b ha hb pa pb d n = absurd (none_used j b hb pb)
  where
    none_used : (i : ℕ) (a : Inode) → get_elem? (inode 0 ∷ []) i ≡ some a → 0 < a.refs → ⊥
    none_used zero a h p = ground arith
    none_used (suc i) a h p = ground arith

iget_example : Got 1 6 (inode 1 ∷ inode 0 ∷ []) (iget 1 6 (inode 1 ∷ inode 0 ∷ []))
iget_example = iget_lem 1 6 (inode 1 ∷ inode 0 ∷ []) one_inode-Unique

inode-Fits : InodeDisk.Fits (inode 1)
inode-Fits = record {
  typ_short = omega arith;
  major_short = omega arith;
  minor_short = omega arith;
  nlink_short = omega arith;
  size_word = omega arith;
  addrs_words = omega arith;
  addrs_length = refl;
}

iupdate_example :
    (s' : Store) × (iupdate disk_layout (inode 1) mapped_store ≡ ok s')
    × ((jp : Inode) → InodeDisk.on_disk disk_layout s' 5 jp ≡ InodeDisk.loaded jp (inode 1))
    × ((n : ℕ) (jp : Inode)
        → n ≢ 5
        → InodeDisk.on_disk disk_layout s' n jp ≡ InodeDisk.on_disk disk_layout mapped_store n jp)
iupdate_example =
    InodeDisk.iupdate_lem disk_layout (inode 1) mapped_store inode-Fits
      (omega arith, omega arith, omega arith)

part_of : (i : ℕ) → i < 600 → (i / bsize ≡ 0) ⊎ (i / bsize ≡ 1)
part_of i h = elim (dec_lt i 512) [ yes l ↦ inl (omega arith) | no g ↦ inr (omega arith) ]

block_of_part : (i : ℕ) → i < 600 → block_of mapped_store (inode 1) (i / bsize) ≡ 10 + i / bsize
unfolding block_of
block_of_part i h = elim (part_of i h) [ inl e ↦ rw e refl | inr e ↦ rw e refl ]

inode-Laid : Laid mapped_store (inode 1) 600
inode-Laid = record {
  mapped = λ i lo hi.
      (omega arith, (λ e. ground (arith, block_of_part i hi)), λ g. absurd (omega arith));
  single = λ i j hi hj e. omega (arith, block_of_part i hi, block_of_part j hj);
  direct = λ i hi e. ground (arith, block_of_part i hi);
}

writei_example :
    (s' : Store) × (writei disk_layout (inode 1) 510 (1 ∷ 2 ∷ 3 ∷ []) mapped_store
      ≡ ok (s', inode 1, true))
    × (readi (λ d n. none) disk_layout (inode 1) 510 3 s' ≡ ok (s', inode 1, some (1 ∷ 2 ∷ 3 ∷ [])))
    × ((i : ℕ)
        → i < 600
        → (i < 510) ⊎ (513 ≤ i)
        → byte s' (inode 1) i ≡ byte mapped_store (inode 1) i)
writei_example =
    writei-readi (λ d n. none) disk_layout (inode 1) 510 (1 ∷ 2 ∷ 3 ∷ []) mapped_store 2
      (λ e. ground arith) (omega arith) (omega arith) inode-Laid (omega arith)
      (omega arith, omega arith, omega arith)

-- An inode layer of one inode: each write is a transaction of its own, which starts with an empty log.
abbrev answer : ℕ → Store → Outcome (Store × Inode × Bool) → ℕ × Store
answer n s (ok (t, ip, true)) = (n, t)
answer n s (ok (t, ip, false)) = (minus_one, t)
answer n s panic = (minus_one, s)
answer n s fault = (minus_one, s)

abbrev fresh : Store → Store
fresh s = record s { log = log 1 }

abbrev write_transaction : ℕ → List ℕ → ℕ → Store → ℕ × Store
write_transaction ip bs off s = answer (length bs) s (writei disk_layout (inode 1) off bs (fresh s))

fresh-Laid : (s : Store) → Laid s (inode 1) 600 → Laid (fresh s) (inode 1) 600
unfolding block_of
fresh-Laid s l = record { mapped = l.mapped; single = l.single; direct = l.direct }

transaction_lem :
    (ip : ℕ) (bs : List ℕ) (off : ℕ) (s : Store)
    → Laid s (inode 1) 600
    → length bs ≤ max_chunk
    → off + length bs ≤ 600
    → ((write_transaction ip bs off s).0 ≡ length bs)
      × Laid (write_transaction ip bs off s).1 (inode 1) 600
      × Replaced (byte s (inode 1)) (byte (write_transaction ip bs off s).1 (inode 1)) 600 off bs
unfolding block_of
transaction_lem ip bs off s l h g =
    let w =
      writei_loop-Overwrites (length bs) disk_layout (inode 1) off bs (fresh s) 600 4 (omega arith)
        g (fresh-Laid s l) (λ p. omega arith) (omega arith, omega arith, omega arith) in
    let e = writei-loop disk_layout (inode 1) off bs (fresh s) w.0 g (omega arith) w.1 in
    rw e (refl, w.3, w.2)

abbrev no_pipe_read : ℕ → ℕ → Store → ℕ × Store
no_pipe_read p n s = (0, s)

abbrev no_pipe_write : ℕ → List ℕ → Store → ℕ × Store
no_pipe_write p bs s = (0, s)

abbrev no_read : ℕ → ℕ → ℕ → Store → ℕ × Store
no_read ip off n s = (0, s)

abbrev open_file : File
open_file = record {
  type = fd_inode;
  ref = 1;
  readable = false;
  writable = true;
  pipe = 0;
  ip = 5;
  off = 510;
}

-- Three bytes across the border of two blocks.
filewrite_example :
    (f' : File) × (s' : Store) × (filewrite no_pipe_read no_pipe_write no_read write_transaction
        open_file
        (1 ∷ 2 ∷ 3 ∷ [])
        mapped_store
      ≡ ok (3, f', s'))
    × (f'.off ≡ 513)
    × Laid s' (inode 1) 600
    × Replaced (byte mapped_store (inode 1)) (byte s' (inode 1)) 600 510 (1 ∷ 2 ∷ 3 ∷ [])
filewrite_example =
    filewrite_lem no_pipe_read no_pipe_write no_read write_transaction
      (λ ip s. Laid s (inode 1) 600) (λ ip. 600) (λ ip s. byte s (inode 1)) transaction_lem
      open_file (1 ∷ 2 ∷ 3 ∷ []) mapped_store refl refl (omega arith) (omega arith) inode-Laid

-- "/a//bb"
abbrev path : List ℕ
path = b'/' ∷ b'a' ∷ b'/' ∷ b'/' ∷ b'b' ∷ b'b' ∷ []

names_example : strings (names 7 path (replicate 14 0)) ≡ marked (elements path)
names_example = names-elements 7 path (replicate 14 0) (omega arith) (omega arith)

-- A directory with two entries in block 10: a free one, and "a" for inode 7.
abbrev directory : Inode
directory = record (inode 1) { typ = 1; size = 32 }

abbrev directory_store : Store
directory_store = record mapped_store {
  cache = λ b a. if b == 10 then (if a == 16 then 7 else if a == 18 then 97 else 0) else 255;
}

directory-AllMapped : AllMapped directory_store directory 0 32
unfolding block_of
directory-AllMapped i lo hi =
    let first : i / bsize ≡ 0 = omega arith in
    let ten : block_of directory_store directory (i / bsize) ≡ 10 = rw first refl in
    (omega arith, (λ e. ground (arith, ten)), λ g. absurd (omega arith))

directory-Laid : Laid directory_store directory 32
unfolding block_of
directory-Laid = record {
  mapped = directory-AllMapped;
  single = λ i j hi hj e. omega arith;
  direct = λ i hi e.
      let first : i / bsize ≡ 0 = omega arith in
      let ten : block_of directory_store directory (i / bsize) ≡ 10 = rw first refl in
      ground (arith, ten);
}

absent : find_entry (98 ∷ []) (entries directory_store directory 0 2) ≡ none
unfolding block_of namecmp_zero
absent = refl

free_first : free_slot 32 (entries directory_store directory 0 2) ≡ 0
unfolding block_of
free_first = refl

dirlink_example :
    (s' : Store) × (dirlink (λ d n. none) disk_layout (98 ∷ []) 9 directory directory_store
      ≡ ok (s', directory, true))
    × (dirlookup (λ d n. none) disk_layout (98 ∷ []) directory s'
        ≡ ok (s', directory, some (free_slot 32 (entries directory_store directory 0 2), 9)))
dirlink_example =
    dirlink-dirlookup (λ d n. none) disk_layout (98 ∷ []) 9 directory directory_store 2 refl
      (omega arith) refl directory-Laid (omega arith, omega arith, omega arith) (omega arith)
      (λ e. ground arith) absent (omega (arith, free_first))
