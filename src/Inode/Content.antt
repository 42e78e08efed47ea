-- ===== src/Inode/Content.antt =====
-- fs.c: the blocks of an inode and its content.
use operating_system_laborat.Base.{
  ℕ, zero, suc, ◌+◌, ◌-◌, ◌*◌, ◌/◌, ◌%◌, min, Bool, true, false, ◌&&◌, ◌||◌, Option, none, some,
  List, [], ◌∷◌, ◌++◌, ltb, leb, ◌==◌, if◌then◌else◌, length, get_elem?, get_or, set, take, drop,
  replicate, u32, sub32, Outcome, ok, panic, fault, ◌>>=◌,
}
use operating_system_laborat.Bytes.{Mem, update, store32}
use operating_system_laborat.Kalloc.{load32}
use operating_system_laborat.Fs.{bsize, Superblock, Store, write_block, balloc, bfree}
use operating_system_laborat.Inode.{
  ndirect, nindirect, maxfile, t_dev, ndev, drop_ref, iupdate, Inode,
}

-- The words of the indirect block b.
abbrev pub word : Store → ℕ → ℕ → ℕ
word s b i = load32 (s.cache b) (4 * i)

-- `bmap` from the reading of the indirect block b on.
unfoldable pub bmap_indirect : Superblock → Inode → ℕ → ℕ → Store → Outcome (Store × Inode × ℕ)
unfolding balloc write_block store32 load32
bmap_indirect sb ip b i s =
    if word s b i == 0
    then (balloc sb s >>= λ (d, a).
        write_block b (store32 (d.cache b) (4 * i) a) d >>= λ e. ok (e, ip, a))
    else ok (s, ip, word s b i)

unfoldable pub bmap : Superblock → Inode → ℕ → Store → Outcome (Store × Inode × ℕ)
unfolding balloc bmap_indirect
bmap sb ip bn s =
    let direct = get_or ip.addrs bn 0 in
    let table = get_or ip.addrs ndirect 0 in
    if ltb bn ndirect
    then (if direct == 0
        then (balloc sb s >>= λ (d, b). ok (d, record ip { addrs = set ip.addrs bn b }, b))
        else ok (s, ip, direct))
    else if ltb (bn - ndirect) nindirect
    then ((if table == 0
          then (balloc sb s >>= λ (d, b). ok (d, record ip { addrs = set ip.addrs ndirect b }, b))
          else ok (s, ip, table))
        >>= λ (s1, ip1, b). bmap_indirect sb ip1 b (bn - ndirect) s1)
    else panic

-- The first loop of `itrunc`.
unfoldable pub free_direct : Superblock → List ℕ → Store → Outcome Store
unfolding bfree
free_direct sb [] s = ok s
free_direct sb (a ∷ rest) s =
    let go = (bfree sb a s >>= λ d. free_direct sb rest d) in
    let skip = free_direct sb rest s in if a == 0 then skip else go

-- The second one, over the n words of the indirect block b from j on.
unfoldable pub free_indirect : Superblock → ℕ → ℕ → ℕ → Store → Outcome Store
unfolding bfree load32
free_indirect sb b j zero s = ok s
free_indirect sb b j (suc n) s =
    let go = (bfree sb (word s b j) s >>= λ d. free_indirect sb b (j + 1) n d) in
    let rest = free_indirect sb b (j + 1) n s in if word s b j == 0 then rest else go

unfoldable pub itrunc : Superblock → Inode → Store → Outcome (Store × Inode)
unfolding free_direct free_indirect iupdate
itrunc sb ip s =
    let table = get_or ip.addrs ndirect 0 in
    let gone = record ip { addrs = replicate (ndirect + 1) 0; size = 0 } in
    free_direct sb (take ndirect ip.addrs) s >>= λ s1.
    (if table == 0
      then ok s1
      else (free_indirect sb table 0 nindirect s1 >>= λ s2. bfree sb table s2))
    >>= λ s3. iupdate sb gone s3 >>= λ s4. ok (s4, gone)

-- `iput` of entry i
unfoldable pub iput : Superblock → ℕ → List Inode → Store → Outcome (Store × List Inode)
unfolding itrunc iupdate drop_ref
iput sb i t s = elim (get_elem? t i) [
  | none ↦ fault
  | some ip ↦
      if ip.valid && (ip.nlink == 0 && ip.refs == 1)
      then (itrunc sb ip s >>= λ (s1, gone). iupdate sb (record gone { typ = 0 }) s1 >>= λ s2.
          ok (s2, drop_ref i (set t i (record gone { typ = 0; valid = false }))))
      else ok (s, drop_ref i t)
]

-- The bytes of block x from the offset o on.
abbrev pub bytes_at : Mem → ℕ → ℕ → List ℕ
bytes_at x o zero = []
bytes_at x o (suc n) = x o ∷ bytes_at x (o + 1) n

-- The loop of `readi` on fuel: n bytes are left; the result is the bytes that go to `dst`.
unfoldable pub readi_loop :
    ℕ → Superblock → Inode → ℕ → ℕ → Store → Outcome (Store × Inode × List ℕ)
unfolding bmap
readi_loop zero sb ip off n s = ok (s, ip, [])
readi_loop (suc f) sb ip off n s =
    let m = min n (bsize - off % bsize) in
    let more =
      (bmap sb ip (off / bsize) s >>= λ (s1, ip1, b).
      readi_loop f sb ip1 (off + m) (n - m) s1 >>= λ (s2, ip2, out).
      ok (s2, ip2, bytes_at (s1.cache b) (off % bsize) m ++ out)) in
    if n == 0 then ok (s, ip, []) else more

-- What the read function of a device gives for n bytes; none for -1, or where a device has no such function.
abbrev pub Devices : Type 0
Devices = ℕ → ℕ → Option (List ℕ)

-- `readi`: none stands for -1.
unfoldable pub readi :
    Devices → Superblock → Inode → ℕ → ℕ → Store → Outcome (Store × Inode × Option (List ℕ))
unfolding readi_loop
readi devsw sb ip off n s =
    let m = (if ltb ip.size (u32 (off + n)) then sub32 ip.size off else n) in
    if ip.typ == t_dev
    then (if leb ndev ip.major then ok (s, ip, none) else ok (s, ip, devsw ip.major n))
    else if ltb ip.size off || ltb (u32 (off + n)) off
    then ok (s, ip, none)
    else (readi_loop m sb ip off m s >>= λ (s1, ip1, out). ok (s1, ip1, some out))

-- A block with the bytes put in from the offset o on.
abbrev pub put_bytes : Mem → ℕ → List ℕ → Mem
put_bytes x o [] = x
put_bytes x o (b ∷ bs) = put_bytes (update x o b) (o + 1) bs

-- The loop of `writei` on fuel, with the bytes that are left.
unfoldable pub writei_loop : ℕ → Superblock → Inode → ℕ → List ℕ → Store → Outcome (Store × Inode)
unfolding bmap write_block
writei_loop zero sb ip off src s = ok (s, ip)
writei_loop (suc f) sb ip off src s =
    let m = min (length src) (bsize - off % bsize) in
    let more =
      (bmap sb ip (off / bsize) s >>= λ (s1, ip1, b).
      write_block b (put_bytes (s1.cache b) (off % bsize) (take m src)) s1 >>= λ s2.
      writei_loop f sb ip1 (off + m) (drop m src) s2) in
    if length src == 0 then ok (s, ip) else more

-- `writei` to a file or directory: false stands for -1, else all bytes are written.
unfoldable pub writei : Superblock → Inode → ℕ → List ℕ → Store → Outcome (Store × Inode × Bool)
unfolding writei_loop iupdate
writei sb ip off src s =
    let n = length src in
    if ltb ip.size off || ltb (u32 (off + n)) off
    then ok (s, ip, false)
    else if ltb (maxfile * bsize) (u32 (off + n))
    then ok (s, ip, false)
    else (writei_loop n sb ip off src s >>= λ (s1, ip1).
        if ltb 0 n && ltb ip1.size (off + n)
        then (iupdate sb (record ip1 { size = off + n }) s1 >>= λ s2.
            ok (s2, record ip1 { size = off + n }, true))
        else ok (s1, ip1, true))
