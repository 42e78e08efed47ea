-- ===== src/Directory.antt =====
-- fs.c: directories. A `struct dirent` is the list of its 16 bytes; a name that is looked up is the list of its bytes,
-- with or without the 0 that ends it.
pub mod Lookup
pub mod Link
use operating_system_laborat.Base.{
  ℕ, zero, suc, ◌+◌, ◌*◌, ◌/◌, ◌%◌, Bool, true, false, not, Option, none, some, List, [], ◌∷◌, ltb,
  ◌==◌, if◌then◌else◌, length, get_or, drop, replicate, Outcome, ok, panic, ◌>>=◌,
}
use operating_system_laborat.Fs.{Superblock, Store}
use operating_system_laborat.Inode.{Inode}
use operating_system_laborat.Inode.Content.{readi, writei, Devices}
use operating_system_laborat.Path.{dirsiz}

-- T_DIR
abbrev pub t_dir : ℕ
t_dir = 1

abbrev pub dirent_size : ℕ
dirent_size = 16

abbrev pub dirent_inum : List ℕ → ℕ
dirent_inum de = get_or de 0 0 + 256 * get_or de 1 0

abbrev pub dirent_name : List ℕ → List ℕ
dirent_name de = drop 2 de

abbrev pub first_byte_of : List ℕ → ℕ
first_byte_of [] = 0
first_byte_of (c ∷ cs) = c

abbrev pub other_bytes : List ℕ → List ℕ
other_bytes [] = []
other_bytes (c ∷ cs) = cs

-- `strncmp(s, t, n) == 0` on lists.
unfoldable pub same_name : ℕ → List ℕ → List ℕ → Bool
same_name zero s t = true
same_name (suc n) s t =
    let rest = same_name n (other_bytes s) (other_bytes t) in
    if first_byte_of s == 0
    then first_byte_of t == 0
    else if first_byte_of s == first_byte_of t
    then rest
    else false

unfoldable pub namecmp_zero : List ℕ → List ℕ → Bool
unfolding same_name
namecmp_zero s t = same_name dirsiz s t

-- The loop of `dirlookup` from off on, on fuel: the offset and the inode number that it hands to `iget`.
unfoldable pub dirlookup_loop :
    ℕ → Devices → Superblock → List ℕ → ℕ → Inode → Store → Outcome (Store × Inode × Option (ℕ × ℕ))
unfolding readi namecmp_zero
dirlookup_loop zero devsw sb name off dp s = ok (s, dp, none)
dirlookup_loop (suc f) devsw sb name off dp s =
    let round =
      (readi devsw sb dp off dirent_size s >>= λ (s1, dp1, r). elim r [
        | none ↦ panic
        | some de ↦
            let next = dirlookup_loop f devsw sb name (off + dirent_size) dp1 s1 in
            if not (length de == dirent_size)
            then panic
            else if dirent_inum de == 0
            then next
            else if namecmp_zero name (dirent_name de)
            then ok (s1, dp1, some (off, dirent_inum de))
            else next
      ]) in
    if ltb off dp.size then round else ok (s, dp, none)

unfoldable pub dirlookup :
    Devices → Superblock → List ℕ → Inode → Store → Outcome (Store × Inode × Option (ℕ × ℕ))
unfolding dirlookup_loop
dirlookup devsw sb name dp s =
    if dp.typ == t_dir
    then dirlookup_loop (dp.size / dirent_size + 1) devsw sb name 0 dp s
    else panic

-- The second loop of `dirlink`, on fuel: where it stops.
unfoldable pub free_slot_loop :
    ℕ → Devices → Superblock → ℕ → Inode → Store → Outcome (Store × Inode × ℕ)
unfolding readi
free_slot_loop zero devsw sb off dp s = ok (s, dp, off)
free_slot_loop (suc f) devsw sb off dp s =
    let round =
      (readi devsw sb dp off dirent_size s >>= λ (s1, dp1, r). elim r [
        | none ↦ panic
        | some de ↦
            let next = free_slot_loop f devsw sb (off + dirent_size) dp1 s1 in
            if not (length de == dirent_size)
            then panic
            else if dirent_inum de == 0
            then ok (s1, dp1, off)
            else next
      ]) in
    if ltb off dp.size then round else ok (s, dp, off)

-- `strncpy(de.name, name, n)` on lists: n bytes, with zeros from the end of the name on.
unfoldable pub padded : ℕ → List ℕ → List ℕ
padded zero s = []
padded (suc n) s =
    let rest = padded n (other_bytes s) in
    if first_byte_of s == 0 then 0 ∷ replicate n 0 else first_byte_of s ∷ rest

unfoldable pub make_dirent : List ℕ → ℕ → List ℕ
unfolding padded
make_dirent name inum = inum % 256 ∷ (inum / 256 % 256 ∷ padded dirsiz name)

-- `dirlink`: false stands for -1. The reference that `dirlookup` takes is given back at once.
unfoldable pub dirlink :
    Devices → Superblock → List ℕ → ℕ → Inode → Store → Outcome (Store × Inode × Bool)
unfolding dirlookup free_slot_loop make_dirent writei
dirlink devsw sb name inum dp s = dirlookup devsw sb name dp s >>= λ (s1, dp1, there). elim there [
  | some e ↦ ok (s1, dp1, false)
  | none ↦ free_slot_loop (dp1.size / dirent_size + 1) devsw sb 0 dp1 s1 >>= λ (s2, dp2, off).
      writei sb dp2 off (make_dirent name inum) s2 >>= λ (s3, dp3, written).
      if written then ok (s3, dp3, true) else panic
]
