-- ===== src/Inode/Disk.antt =====
-- An inode on the disk: what iupdate writes, ilock reads.
use native.Mathlib.Decide.{dec_le}
use operating_system_laborat.Base.{
  ℕ, zero, suc, ◌+◌, ◌*◌, ◌/◌, ◌^◌, ◌≤◌, ◌<◌, ◌≡◌, refl, sym, ap, ap₂, ◌∙◌, ◌≢◌, ◌⊎◌, inl, inr,
  true, List, [], ◌∷◌, arith, length, ok, ℕ_discrete,
}
use operating_system_laborat.Bytes.{Mem, store32}
use operating_system_laborat.Kalloc.{load32}
use operating_system_laborat.Kalloc.Words.{load32-store32, store32_other, load32-congr}
use operating_system_laborat.Log.{write_words, read_words, put_block, absorb}
use operating_system_laborat.Log.Header.{Words, load32-write_words, read_words-write_words}
use operating_system_laborat.Fs.{Superblock, Store}
use operating_system_laborat.Fs.Marks.{Room, write_block-Room}
use operating_system_laborat.Inode.{
  ndirect, Inode, store16, load16, ipb, iblock, dinode_at, put_dinode, get_dinode, iupdate,
}

-- Each field fits its place on the disk.
pub record Fits (ip : Inode) : Type 0 where
  pub typ_short : ip.typ < 2 ^ 16
  pub major_short : ip.major < 2 ^ 16
  pub minor_short : ip.minor < 2 ^ 16
  pub nlink_short : ip.nlink < 2 ^ 16
  pub size_word : ip.size < 2 ^ 32
  pub addrs_words : Words ip.addrs
  pub addrs_length : length ip.addrs ≡ ndirect + 1

write_words_other :
    (m : Mem) (a b : ℕ) (ws : List ℕ)
    → (b < a) ⊎ (a + 4 * length ws ≤ b)
    → write_words m a ws b ≡ m b
unfolding write_words
write_words_other m a b [] h = refl
write_words_other m a b (w ∷ ws) h =
    write_words_other (store32 m a w) (a + 4) b ws
      (elim h [ inl l ↦ inl (omega arith) | inr g ↦ inr (omega arith) ])
    ∙ store32_other m a w b (elim h [ inl l ↦ inl l | inr g ↦ inr (omega arith) ])

-- The four shorts that a dinode begins with.
abbrev shorts : Mem → ℕ → Inode → Mem
shorts m p ip =
    store16 (store16 (store16 (store16 m p ip.typ) (p + 2) ip.major) (p + 4) ip.minor) (p + 6)
      ip.nlink

shorts_other : (m : Mem) (p b : ℕ) (ip : Inode) → (b < p) ⊎ (p + 8 ≤ b) → shorts m p ip b ≡ m b
shorts_other m p b ip h = elim h [ inl l ↦ ground arith | inr g ↦ ground arith ]

put_dinode_head :
    (m : Mem) (p b : ℕ) (ip : Inode) → b < p + 8 → put_dinode m p ip b ≡ shorts m p ip b
unfolding put_dinode
put_dinode_head m p b ip h =
    write_words_other (store32 (shorts m p ip) (p + 8) ip.size) (p + 12) b ip.addrs
      (inl (omega arith))
    ∙ store32_other (shorts m p ip) (p + 8) ip.size b (inl h)

put_dinode_other :
    (m : Mem) (p b : ℕ) (ip : Inode)
    → length ip.addrs ≡ ndirect + 1
    → (b < p) ⊎ (p + 64 ≤ b)
    → put_dinode m p ip b ≡ m b
unfolding put_dinode
put_dinode_other m p b ip l h =
    write_words_other (store32 (shorts m p ip) (p + 8) ip.size) (p + 12) b ip.addrs
      (elim h [ inl a ↦ inl (omega arith) | inr g ↦ inr (omega arith) ])
    ∙ store32_other (shorts m p ip) (p + 8) ip.size b
        (elim h [ inl a ↦ inl (omega arith) | inr g ↦ inr (omega arith) ])
    ∙ shorts_other m p b ip (elim h [ inl a ↦ inl a | inr g ↦ inr (omega arith) ])

load16-head :
    (m : Mem) (p a : ℕ) (ip : Inode)
    → a + 2 ≤ p + 8
    → load16 (put_dinode m p ip) a ≡ load16 (shorts m p ip) a
load16-head m p a ip h =
    ap₂ (λ (x y : ℕ). x + 256 * y) (put_dinode_head m p a ip (omega arith))
      (put_dinode_head m p (a + 1) ip (omega arith))

short_typ : (m : Mem) (p : ℕ) (ip : Inode) → ip.typ < 2 ^ 16 → load16 (shorts m p ip) p ≡ ip.typ
short_typ m p ip h = ground arith

short_major :
    (m : Mem) (p : ℕ) (ip : Inode) → ip.major < 2 ^ 16 → load16 (shorts m p ip) (p + 2) ≡ ip.major
short_major m p ip h = ground arith

short_minor :
    (m : Mem) (p : ℕ) (ip : Inode) → ip.minor < 2 ^ 16 → load16 (shorts m p ip) (p + 4) ≡ ip.minor
short_minor m p ip h = ground arith

short_nlink :
    (m : Mem) (p : ℕ) (ip : Inode) → ip.nlink < 2 ^ 16 → load16 (shorts m p ip) (p + 6) ≡ ip.nlink
short_nlink m p ip h = ground arith

word_size :
    (m : Mem) (p : ℕ) (ip : Inode) → ip.size < 2 ^ 32 → load32 (put_dinode m p ip) (p + 8) ≡ ip.size
unfolding put_dinode
word_size m p ip h =
    load32-write_words (store32 (shorts m p ip) (p + 8) ip.size) (p + 12) (p + 8) ip.addrs
      (omega arith)
    ∙ load32-store32 (shorts m p ip) (p + 8) ip.size h

Words-addrs :
    (m : Mem) (p : ℕ) (ip : Inode)
    → Words ip.addrs
    → length ip.addrs ≡ ndirect + 1
    → read_words (put_dinode m p ip) (p + 12) (ndirect + 1) ≡ ip.addrs
unfolding put_dinode
Words-addrs m p ip w l =
    ap (read_words (put_dinode m p ip) (p + 12)) (sym l)
    ∙ read_words-write_words (store32 (shorts m p ip) (p + 8) ip.size) (p + 12) ip.addrs w

-- The inode jp with what the disk has of ip.
abbrev pub loaded : Inode → Inode → Inode
loaded jp ip = record jp {
  valid = true;
  typ = ip.typ;
  major = ip.major;
  minor = ip.minor;
  nlink = ip.nlink;
  size = ip.size;
  addrs = ip.addrs;
}

get_dinode-put_dinode :
    (m : Mem) (p : ℕ) (ip jp : Inode) → Fits ip → get_dinode (put_dinode m p ip) p jp ≡ loaded jp ip
unfolding get_dinode
get_dinode-put_dinode m p ip jp f =
    let a = load16-head m p p ip (omega arith) ∙ short_typ m p ip f.typ_short in
    let b = load16-head m p (p + 2) ip (omega arith) ∙ short_major m p ip f.major_short in
    let c = load16-head m p (p + 4) ip (omega arith) ∙ short_minor m p ip f.minor_short in
    let d = load16-head m p (p + 6) ip (omega arith) ∙ short_nlink m p ip f.nlink_short in
    let e = word_size m p ip f.size_word in
    let g = Words-addrs m p ip f.addrs_words f.addrs_length in
    λ i. record jp {
      valid = true;
      typ = a i;
      major = b i;
      minor = c i;
      nlink = d i;
      size = e i;
      addrs = g i;
    }

-- A dinode is its 64 bytes.
read_words-congr :
    (n : ℕ) (m m' : Mem) (p : ℕ)
    → ((i : ℕ) → i < 4 * n → m' (p + i) ≡ m (p + i))
    → read_words m' p n ≡ read_words m p n
unfolding read_words
read_words-congr zero m m' p h = refl
read_words-congr (suc n) m m' p h = ap₂ ◌∷◌ (load32-congr m m' p (λ i lt. h i (omega arith))) (
    read_words-congr n m m' (p + 4) (λ i lt.
      let e : p + 4 + i ≡ p + (4 + i) = omega arith in
      ap m' e ∙ h (4 + i) (omega arith) ∙ ap m (sym e)))

get_dinode-congr :
    (m m' : Mem) (p : ℕ) (jp : Inode)
    → ((b : ℕ) → p ≤ b → b < p + 64 → m' b ≡ m b)
    → get_dinode m' p jp ≡ get_dinode m p jp
unfolding get_dinode
get_dinode-congr m m' p jp h =
    let short = λ (a : ℕ) (lo : p ≤ a) (hi : a + 2 ≤ p + 64).
      ap₂ (λ (x y : ℕ). x + 256 * y) (h a lo (omega arith))
        (h (a + 1) (omega arith) (omega arith)) in
    let a = short p (omega arith) (omega arith) in
    let b = short (p + 2) (omega arith) (omega arith) in
    let c = short (p + 4) (omega arith) (omega arith) in
    let d = short (p + 6) (omega arith) (omega arith) in
    let e = load32-congr m m' (p + 8) (λ i lt. h (p + 8 + i) (omega arith) (omega arith)) in
    let g =
      read_words-congr (ndirect + 1) m m' (p + 12)
        (λ i lt. h (p + 12 + i) (omega arith) (omega arith)) in
    λ i. record jp {
      valid = true;
      typ = a i;
      major = b i;
      minor = c i;
      nlink = d i;
      size = e i;
      addrs = g i;
    }

-- The inode number n as the disk has it, read into jp.
abbrev pub on_disk : Superblock → Store → ℕ → Inode → Inode
on_disk sb s n jp = get_dinode (s.cache (iblock n sb)) (dinode_at n) jp

-- Two inodes of one block stand apart in it.
apart :
    (a n c start : ℕ)
    → n ≢ a
    → a / ipb + start ≡ n / ipb + start
    → dinode_at n ≤ c
    → c < dinode_at n + 64
    → (c < dinode_at a) ⊎ (dinode_at a + 64 ≤ c)
apart a n c start ne e lo hi = elim (dec_le (dinode_at a + 64) c) [
  | yes h ↦ inr h
  | no h ↦ inl (omega arith)
]

-- With room for one block in the log, `iupdate` of an inode writes it so that the disk has just its fields under its number, each
-- of them in full; every other inode, also one in the same block, stays on the disk as it was.
pub iupdate_lem :
    (sb : Superblock) (ip : Inode) (s : Store)
    → Fits ip
    → Room 1 s.log
    → (s' : Store) × (iupdate sb ip s ≡ ok s')
      × ((jp : Inode) → on_disk sb s' ip.inum jp ≡ loaded jp ip)
      × ((n : ℕ) (jp : Inode) → n ≢ ip.inum → on_disk sb s' n jp ≡ on_disk sb s n jp)
unfolding iupdate
iupdate_lem sb ip s f r =
    let b : ℕ = iblock ip.inum sb in
    let x : Mem = put_dinode (s.cache b) (dinode_at ip.inum) ip in
    let self : put_block s.cache b x b ≡ x = ground arith in
    (
      record { cache = put_block s.cache b x; log = record s.log { lh = absorb b s.log.lh } },
      write_block-Room 0 b x s r,
      (λ jp.
          ap (λ (m : Mem). get_dinode m (dinode_at ip.inum) jp) self
          ∙ get_dinode-put_dinode (s.cache b) (dinode_at ip.inum) ip jp f),
      λ n jp ne. elim (ℕ_discrete b (iblock n sb)) [
        | yes e ↦
            let there : put_block s.cache b x (iblock n sb) ≡ x = ground arith in
            ap (λ (m : Mem). get_dinode m (dinode_at n) jp) there
            ∙ get_dinode-congr (s.cache b) x (dinode_at n) jp (λ c lo hi.
              put_dinode_other (s.cache b) (dinode_at ip.inum) c ip f.addrs_length
                (apart ip.inum n c sb.inodestart ne e lo hi))
            ∙ ap (λ (k : ℕ). get_dinode (s.cache k) (dinode_at n) jp) e
        | no nb ↦
            let there : put_block s.cache b x (iblock n sb) ≡ s.cache (iblock n sb) =
              ground arith in
            ap (λ (m : Mem). get_dinode m (dinode_at n) jp) there
      ],
    )
