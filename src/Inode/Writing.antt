-- ===== src/Inode/Writing.antt =====
-- What writei writes, readi reads.
use native.Mathlib.Decide.{dec_lt, dec_le}
use operating_system_laborat.Base.{
  ℕ, zero, suc, ◌+◌, ◌-◌, ◌*◌, ◌/◌, ◌%◌, ◌^◌, ◌≤◌, ◌<◌, min, ◌≡◌, refl, ap, ap₂, ◌∙◌, ◌≢◌, ◌⊎◌, inl,
  inr, true, false, ◌&&◌, ◌||◌, Option, none, some, List, [], ◌∷◌, arith, ltb, leb, ◌==◌,
  if◌then◌else◌, length, get_or, take, drop, length-take, u32, Outcome, ok,
}
use operating_system_laborat.Bytes.{Mem}
use operating_system_laborat.Fs.{bsize, Superblock, Store}
use operating_system_laborat.Fs.Marks.{Room, write_block-Room, log_write-Room}
use operating_system_laborat.Inode.{t_dev, maxfile, Inode}
use operating_system_laborat.Inode.Content.{put_bytes, writei_loop, writei, readi, Devices}
use operating_system_laborat.Inode.Map.{block_of, bmap-Mapped}
use operating_system_laborat.Inode.Reading.{byte, content, readi-content}
use operating_system_laborat.Inode.Laid.{
  get_or-take, get_or-drop, length-drop, Laid, wrote, Laid-wrote, byte-wrote,
}

-- Every byte after some were written from off on.
abbrev pub Overwrites : Store → Store → Inode → ℕ → ℕ → List ℕ → Type 0
Overwrites s s' ip n off src =
    (i : ℕ)
    → i < n
    → byte s' ip i
      ≡ (if leb off i && ltb i (off + length src) then get_or src (i - off) 0 else byte s ip i)

-- Two parts written one after the other.
pub two_parts :
    (m off i v w x : ℕ) (src : List ℕ)
    → m ≤ length src
    → v ≡ (
        if leb (off + m) i && ltb i (off + m + (length src - m)) then get_or src (i - off) 0 else w)
    → w ≡ (if leb off i && ltb i (off + m) then get_or src (i - off) 0 else x)
    → v ≡ (if leb off i && ltb i (off + length src) then get_or src (i - off) 0 else x)
two_parts m off i v w x src h hv hw = ground arith

pub second_part :
    (m off i w : ℕ) (src rest : List ℕ)
    → length rest ≡ length src - m
    → get_or rest (i - (off + m)) 0 ≡ get_or src (m + (i - (off + m))) 0
    → (if leb (off + m) i && ltb i (off + m + length rest)
        then get_or rest (i - (off + m)) 0
        else w)
      ≡ (if leb (off + m) i && ltb i (off + m + (length src - m))
          then get_or src (i - off) 0
          else w)
second_part m off i w src rest l g = elim (dec_le (off + m) i) [
  | yes h ↦
      let same : get_or src (m + (i - (off + m))) 0 ≡ get_or src (i - off) 0 =
        ap (λ j. get_or src j 0) (omega arith) in
      ground (arith, l, g, same)
  | no h ↦ ground arith
]

pub first_part :
    (m off i x : ℕ) (src part : List ℕ)
    → length part ≡ min m (length src)
    → m ≤ length src
    → (get_or part (i - off) 0 ≡ get_or src (i - off) 0) ⊎ (m ≤ i - off)
    → (if leb off i && ltb i (off + length part) then get_or part (i - off) 0 else x)
      ≡ (if leb off i && ltb i (off + m) then get_or src (i - off) 0 else x)
first_part m off i x src part l h g = ground arith

pub taken : (m j : ℕ) (src : List ℕ) → (get_or (take m src) j 0 ≡ get_or src j 0) ⊎ (m ≤ j)
taken m j src = elim (dec_lt j m) [ yes h ↦ inl (get_or-take m src j h) | no h ↦ inr (omega arith) ]

writei_loop-round :
    (f : ℕ) (sb : Superblock) (ip : Inode) (off : ℕ) (src : List ℕ) (s : Store) (n k : ℕ)
    → 0 < length src
    → off + length src ≤ n
    → Laid s ip n
    → Room (suc k) s.log
    → writei_loop (suc f) sb ip off src s
      ≡ writei_loop f sb ip
          (off + min (length src) (bsize - off % bsize))
          (drop (min (length src) (bsize - off % bsize)) src)
          (wrote
            (block_of s ip (off / bsize))
            (put_bytes
              (s.cache (block_of s ip (off / bsize)))
              (off % bsize)
              (take (min (length src) (bsize - off % bsize)) src))
            s)
unfolding writei_loop
writei_loop-round f sb ip off src s n k p h l r =
    let found = bmap-Mapped sb s ip (off / bsize) (l.mapped off (omega arith) (omega arith)) in
    let some_left : (length src == 0) ≡ false = ground arith in
    let x : Mem =
      put_bytes (s.cache (block_of s ip (off / bsize))) (off % bsize)
        (take (min (length src) (bsize - off % bsize)) src) in
    rw (some_left, found, write_block-Room k (block_of s ip (off / bsize)) x s r) refl

pub writei_loop-Overwrites :
    (f : ℕ) (sb : Superblock) (ip : Inode) (off : ℕ) (src : List ℕ) (s : Store) (n k : ℕ)
    → length src ≤ f
    → off + length src ≤ n
    → Laid s ip n
    → (0 < length src → off % bsize + length src ≤ bsize * k)
    → Room k s.log
    → (s' : Store) × (writei_loop f sb ip off src s ≡ ok (s', ip))
      × Overwrites s s' ip n off src
      × Laid s' ip n
unfolding writei_loop
writei_loop-Overwrites zero sb ip off [] s n k h g l c r = (s, refl, (λ i lt. ground arith), l)
writei_loop-Overwrites (suc f) sb ip off [] s n k h g l c r = (s, refl, (λ i lt. ground arith), l)
writei_loop-Overwrites zero sb ip off (b ∷ bs) s n k h g l c r = absurd (omega arith)
writei_loop-Overwrites (suc f) sb ip off (b ∷ bs) s n zero h g l c r =
    absurd (omega (arith, c (omega arith)))
writei_loop-Overwrites (suc f) sb ip off (b ∷ bs) s n (suc k) h g l c r =
    let src : List ℕ = b ∷ bs in
    let m : ℕ = min (length src) (bsize - off % bsize) in
    let q : ℕ = block_of s ip (off / bsize) in
    let x : Mem = put_bytes (s.cache q) (off % bsize) (take m src) in
    let s1 : Store = wrote q x s in
    let all = c (omega arith) in
    let lt = length-take m src in
    let ld = length-drop m src in
    let l1 : Laid s1 ip n = Laid-wrote s ip q n x (l.direct off (omega arith)) l in
    let ih =
      writei_loop-Overwrites f sb ip (off + m) (drop m src) s1 n k (omega arith) (omega arith) l1
        (λ p. omega arith) ((log_write-Room k q s.log r).1) in
    (
      ih.0,
      writei_loop-round f sb ip off src s n k (omega arith) g l r ∙ ih.1,
      (λ i hi.
          let len : length (drop m src) ≡ length src - m = ld in
          let got : get_or (drop m src) (i - (off + m)) 0 ≡ get_or src (m + (i - (off + m))) 0 =
            get_or-drop m src (i - (off + m)) in
          let first = byte-wrote s ip n off i (take m src) l (omega arith) hi (omega arith) in
          two_parts m off i (byte ih.0 ip i) (byte s1 ip i) (byte s ip i) src (omega arith)
            (ih.2 i hi ∙ second_part m off i (byte s1 ip i) src (drop m src) ld got)
            (first
              ∙ first_part m off i (byte s ip i) src (take m src) lt (omega arith)
                  (taken m (i - off) src))),
      ih.3,
    )

pub content-all :
    (src : List ℕ) (s : Store) (ip : Inode) (off : ℕ)
    → ((j : ℕ) → j < length src → byte s ip (off + j) ≡ get_or src j 0)
    → content s ip off (length src) ≡ src
content-all [] s ip off h = refl
content-all (b ∷ bs) s ip off h =
    ap₂ ◌∷◌ (ap (byte s ip) (let e : off ≡ off + 0 = omega arith in e) ∙ h 0 (omega arith)) (
      content-all bs s ip (off + 1) (λ j lt.
        ap (byte s ip) (let e : off + 1 + j ≡ off + suc j = omega arith in e)
        ∙ h (suc j) (omega arith)))

pub writei-loop :
    (sb : Superblock) (ip : Inode) (off : ℕ) (src : List ℕ) (s s' : Store)
    → off + length src ≤ ip.size
    → ip.size ≤ maxfile * bsize
    → writei_loop (length src) sb ip off src s ≡ ok (s', ip)
    → writei sb ip off src s ≡ ok (s', ip, true)
unfolding writei
writei-loop sb ip off src s s' h g e =
    let a : ltb ip.size off ≡ false = ground arith in
    let word : u32 (off + length src) ≡ off + length src = omega arith in
    let b : ltb (off + length src) off ≡ false = ground arith in
    let c : ltb (maxfile * bsize) (off + length src) ≡ false = ground arith in
    let d : (ltb 0 (length src) && ltb ip.size (off + length src)) ≡ false = ground arith in
    rw (a, word, b, c, e, d) refl

-- What `writei` writes inside a file, `readi` reads back: on a file or directory of at most 140 blocks
-- whose parts have blocks of their own, with room in the log for the k blocks that the bytes touch, `writei` returns all bytes as
-- written, then `readi` at the same place returns the same bytes, and every byte of the file outside of them is as before.
pub writei-readi :
    (devsw : Devices) (sb : Superblock) (ip : Inode) (off : ℕ) (src : List ℕ) (s : Store) (k : ℕ)
    → ip.typ ≢ t_dev
    → off + length src ≤ ip.size
    → ip.size ≤ maxfile * bsize
    → Laid s ip ip.size
    → off % bsize + length src ≤ bsize * k
    → Room k s.log
    → (s' : Store) × (writei sb ip off src s ≡ ok (s', ip, true))
      × (readi devsw sb ip off (length src) s' ≡ ok (s', ip, some src))
      × ((i : ℕ) → i < ip.size → (i < off) ⊎ (off + length src ≤ i) → byte s' ip i ≡ byte s ip i)
writei-readi devsw sb ip off src s k t h g l c r =
    let w =
      writei_loop-Overwrites (length src) sb ip off src s ip.size k (omega arith) h l (λ p. c) r in
    let s' : Store = w.0 in
    let back : content s' ip off (length src) ≡ src = content-all src s' ip off (λ j lt.
      w.2 (off + j) (omega arith) ∙ inside off j (length src) src (byte s ip (off + j)) lt) in
    let out : (if ltb ip.size off || leb (2 ^ 32) (off + length src)
          then none
          else some (content s' ip off (min (length src) (ip.size - off))))
        ≡ some src =
      whole off (length src) ip.size (content s' ip off) src h (omega arith) back in
    (
      s',
      writei-loop sb ip off src s s' h g w.1,
      readi-content devsw sb ip off (length src) s' t (omega arith) (omega arith) (omega arith)
            (w.3.mapped)
          ∙ ap (returns s' ip) out,
      λ i hi o. w.2 i hi ∙ outside off i (length src) src (byte s ip i) o,
    )
  where
    inside :
        (off j n : ℕ) (src : List ℕ) (x : ℕ)
        → j < n
        → (if leb off (off + j) && ltb (off + j) (off + n) then get_or src (off + j - off) 0 else x)
          ≡ get_or src j 0
    inside off j n src x h =
        let e : get_or src (off + j - off) 0 ≡ get_or src j 0 =
          ap (λ i. get_or src i 0) (omega arith) in
        ground (arith, e)

    outside :
        (off i n : ℕ) (src : List ℕ) (x : ℕ)
        → (i < off) ⊎ (off + n ≤ i)
        → (if leb off i && ltb i (off + n) then get_or src (i - off) 0 else x) ≡ x
    outside off i n src x o = ground arith

    whole :
        (off n size : ℕ) (f : ℕ → List ℕ) (src : List ℕ)
        → off + n ≤ size
        → size < 2 ^ 32
        → f n ≡ src
        → (if ltb size off || leb (2 ^ 32) (off + n) then none else some (f (min n (size - off))))
          ≡ some src
    whole off n size f src h g e =
        let a : ltb size off ≡ false = ground arith in
        let b : leb (2 ^ 32) (off + n) ≡ false = ground arith in
        let c : min n (size - off) ≡ n = omega arith in rw (a, b, c) (ap some e)

    returns : Store → Inode → Option (List ℕ) → Outcome (Store × Inode × Option (List ℕ))
    returns s ip o = ok (s, ip, o)
