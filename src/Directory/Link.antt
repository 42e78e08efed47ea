-- ===== src/Directory/Link.antt =====
-- What dirlink adds, dirlookup finds.
use operating_system_laborat.Base.{
  ℕ, zero, suc, ◌+◌, ◌-◌, ◌*◌, ◌/◌, ◌^◌, ◌≤◌, ◌<◌, ◌≡◌, refl, sym, ap, ap₂, ◌∙◌, ◌≢◌, inl, inr,
  true, false, Option, none, some, List, [], ◌∷◌, arith, ltb, ◌==◌, if◌then◌else◌, Bool-cases,
  length, get_or, length-replicate, Outcome, ok,
}
use operating_system_laborat.Fs.{bsize, Superblock, Store}
use operating_system_laborat.Fs.Marks.{Room}
use operating_system_laborat.Inode.{Inode, maxfile}
use operating_system_laborat.Inode.Content.{writei, Devices}
use operating_system_laborat.Inode.Reading.{content, AllMapped}
use operating_system_laborat.Inode.Laid.{Laid}
use operating_system_laborat.Inode.Writing.{
  content-all, Overwrites, writei_loop-Overwrites, writei-loop,
}
use operating_system_laborat.Path.{dirsiz}
use operating_system_laborat.Directory.{
  t_dir, dirent_size, dirent_inum, dirent_name, first_byte_of, other_bytes, same_name, namecmp_zero,
  dirlookup, free_slot_loop, padded, make_dirent, dirlink,
}
use operating_system_laborat.Directory.Lookup.{entries, find_entry, entry-read, dirlookup-entries}

length-padded : (n : ℕ) (s : List ℕ) → length (padded n s) ≡ n
unfolding padded
length-padded zero s = refl
length-padded (suc n) s = elim (Bool-cases (first_byte_of s == 0)) [
  | inl e ↦ rw e (ap suc (length-replicate n 0))
  | inr e ↦ rw e (ap suc (length-padded n (other_bytes s)))
]

-- A name equals itself in the array that `strncpy` fills.
same_name-padded : (n : ℕ) (s : List ℕ) → same_name n s (padded n s) ≡ true
unfolding same_name padded
same_name-padded zero s = refl
same_name-padded (suc n) s = elim (Bool-cases (first_byte_of s == 0)) [
  | inl e ↦ rw e refl
  | inr e ↦
      let self : (first_byte_of s == first_byte_of s) ≡ true = ground arith in
      rw (e, self) (same_name-padded n (other_bytes s))
]

namecmp-make_dirent :
    (name : List ℕ) (inum : ℕ) → namecmp_zero name (dirent_name (make_dirent name inum)) ≡ true
unfolding namecmp_zero make_dirent
namecmp-make_dirent name inum = same_name-padded dirsiz name

inum-make_dirent :
    (name : List ℕ) (inum : ℕ) → inum < 2 ^ 16 → dirent_inum (make_dirent name inum) ≡ inum
unfolding make_dirent
inum-make_dirent name inum h = omega arith

-- The offset of the first free entry, or of the end.
abbrev pub free_slot : ℕ → List (ℕ × List ℕ) → ℕ
free_slot end [] = end
free_slot end ((off, de) ∷ es) = if dirent_inum de == 0 then off else free_slot end es

abbrev stops : Store → Inode → ℕ → Outcome (Store × Inode × ℕ)
stops s dp off = ok (s, dp, off)

free_slot_loop-entries :
    (n : ℕ) (devsw : Devices) (sb : Superblock) (off : ℕ) (dp : Inode) (s : Store)
    → dp.typ ≡ t_dir
    → dp.size < 2 ^ 32
    → off + n * dirent_size ≡ dp.size
    → AllMapped s dp 0 dp.size
    → free_slot_loop (suc n) devsw sb off dp s ≡ stops s dp (free_slot dp.size (entries s dp off n))
unfolding free_slot_loop
free_slot_loop-entries zero devsw sb off dp s t h e a =
    let stop : ltb off dp.size ≡ false = ground arith in
    let end : off ≡ dp.size = omega arith in rw stop (ap (stops s dp) end)
free_slot_loop-entries (suc n) devsw sb off dp s t h e a =
    let go : ltb off dp.size ≡ true = ground arith in
    let de : List ℕ = content s dp off dirent_size in
    let got = entry-read devsw sb dp off s t h (omega arith) a in
    let ih = free_slot_loop-entries n devsw sb (off + dirent_size) dp s t h (omega arith) a in
    elim (Bool-cases (dirent_inum de == 0)) [
      | inl free ↦ rw (go, got, free) refl
      | inr used ↦ rw (go, got, used, ih) refl
    ]

-- Where the first free entry stands.
free_slot-place :
    (n : ℕ) (s : Store) (dp : Inode) (off size : ℕ)
    → off + n * dirent_size ≡ size
    → (j : ℕ) × (j ≤ n) × (free_slot size (entries s dp off n) ≡ off + j * dirent_size)
free_slot-place zero s dp off size e = (0, omega arith, omega arith)
free_slot-place (suc n) s dp off size e =
    elim (Bool-cases (dirent_inum (content s dp off dirent_size) == 0)) [
      | inl free ↦ (0, omega arith, rw free (omega arith))
      | inr used ↦
          let w = free_slot-place n s dp (off + dirent_size) size (omega arith) in
          (suc w.0, omega (arith, w.1), rw used (omega (arith, w.2)))
    ]

-- The search at a first entry that holds the name, and at one that does not.
find_entry-first :
    (name de : List ℕ) (off : ℕ) (es : List (ℕ × List ℕ))
    → dirent_inum de ≢ 0
    → namecmp_zero name (dirent_name de) ≡ true
    → find_entry name ((off, de) ∷ es) ≡ some (off, dirent_inum de)
find_entry-first name de off es nz match =
    let used : (dirent_inum de == 0) ≡ false = ground (arith, nz) in rw (used, match) refl

find_entry-later :
    (name de : List ℕ) (off : ℕ) (es es' : List (ℕ × List ℕ)) (o : Option (ℕ × ℕ))
    → find_entry name ((off, de) ∷ es) ≡ none
    → (find_entry name es ≡ none → find_entry name es' ≡ o)
    → find_entry name ((off, de) ∷ es') ≡ o
find_entry-later name de off es es' o old rest = elim (Bool-cases (dirent_inum de == 0)) [
  | inl free ↦
      let before : find_entry name es ≡ none = ground (arith, old, free) in rw free (rest before)
  | inr used ↦ elim (Bool-cases (namecmp_zero name (dirent_name de))) [
    | inl match ↦ absurd (ground (arith, old, used, match))
    | inr other ↦
        let before : find_entry name es ≡ none = ground (arith, old, used, other) in
        rw (used, other) (rest before)
  ]
]

-- A list of entries with one changed to hold the name.
find_entry-added :
    (n : ℕ) (s s' : Store) (dp : Inode) (name : List ℕ) (off j : ℕ) (inum : ℕ)
    → j < n
    → inum < 2 ^ 16
    → inum ≢ 0
    → find_entry name (entries s dp off n) ≡ none
    → content s' dp (off + j * dirent_size) dirent_size ≡ make_dirent name inum
    → ((i : ℕ)
        → i < j
        → content s' dp (off + i * dirent_size) dirent_size
          ≡ content s dp (off + i * dirent_size) dirent_size)
    → find_entry name (entries s' dp off n) ≡ some (off + j * dirent_size, inum)
find_entry-added zero s s' dp name off j inum lt w nz old new same = absurd (omega arith)
find_entry-added (suc n) s s' dp name off zero inum lt w nz old new same =
    let here : off + 0 * dirent_size ≡ off = omega arith in
    let de : content s' dp off dirent_size ≡ make_dirent name inum =
      ap (λ (o : ℕ). content s' dp o dirent_size) (sym here) ∙ new in
    let number = inum-make_dirent name inum w in
    let es : List (ℕ × List ℕ) = entries s' dp (off + dirent_size) n in
    ap (λ (d : List ℕ). find_entry name ((off, d) ∷ es)) de
    ∙ find_entry-first name (make_dirent name inum) off es (omega (arith, number, nz))
        (namecmp-make_dirent name inum)
    ∙ ap₂ (λ (o m : ℕ). some (o, m)) (sym here) number
find_entry-added (suc n) s s' dp name off (suc j) inum lt w nz old new same =
    let here : off + 0 * dirent_size ≡ off = omega arith in
    let kept : content s' dp off dirent_size ≡ content s dp off dirent_size =
      ap (λ (o : ℕ). content s' dp o dirent_size) (sym here)
      ∙ same 0 (omega arith)
      ∙ ap (λ (o : ℕ). content s dp o dirent_size) here in
    let move = λ (i : ℕ).
      let q : off + dirent_size + i * dirent_size ≡ off + suc i * dirent_size = omega arith in q in
    let rest : find_entry name (entries s dp (off + dirent_size) n) ≡ none
        → find_entry name (entries s' dp (off + dirent_size) n)
          ≡ some (off + suc j * dirent_size, inum) =
      λ o.
        find_entry-added n s s' dp name (off + dirent_size) j inum (omega arith) w nz o
          (ap (λ (q : ℕ). content s' dp q dirent_size) (move j) ∙ new)
          (λ i l.
            ap (λ (q : ℕ). content s' dp q dirent_size) (move i)
            ∙ same (suc i) (omega arith)
            ∙ ap (λ (q : ℕ). content s dp q dirent_size) (sym (move i)))
        ∙ ap (λ (q : ℕ). some (q, inum)) (move j) in
    ap (λ (d : List ℕ). find_entry name ((off, d) ∷ entries s' dp (off + dirent_size) n)) kept
    ∙ find_entry-later name (content s dp off dirent_size) off (entries s dp (off + dirent_size) n)
        (entries s' dp (off + dirent_size) n) (some (off + suc j * dirent_size, inum)) old rest

abbrev looks : Store → Inode → Option (ℕ × ℕ) → Outcome (Store × Inode × Option (ℕ × ℕ))
looks s dp o = ok (s, dp, o)

length-make_dirent : (name : List ℕ) (inum : ℕ) → length (make_dirent name inum) ≡ dirent_size
unfolding make_dirent
length-make_dirent name inum = omega (arith, length-padded dirsiz name)

-- The content where something was written, and before it.
content-written :
    (s s' : Store) (ip : Inode) (n off : ℕ) (src : List ℕ)
    → off + length src ≤ n
    → Overwrites s s' ip n off src
    → content s' ip off (length src) ≡ src
content-written s s' ip n off src h w = content-all src s' ip off (λ j lt.
    let place : get_or src (off + j - off) 0 ≡ get_or src j 0 =
      ap (λ i. get_or src i 0) (omega arith) in
    w (off + j) (omega arith) ∙ ground (arith, place))

content-before :
    (m : ℕ) (s s' : Store) (ip : Inode) (n off o : ℕ) (src : List ℕ)
    → o + m ≤ off
    → off ≤ n
    → Overwrites s s' ip n off src
    → content s' ip o m ≡ content s ip o m
content-before zero s s' ip n off o src h g w = refl
content-before (suc m) s s' ip n off o src h g w =
    ap₂ ◌∷◌ (w o (omega arith) ∙ ground arith)
      (content-before m s s' ip n off (o + 1) src (omega arith) g w)

dirlink-run :
    (devsw : Devices) (sb : Superblock) (name : List ℕ) (inum off : ℕ) (dp : Inode) (s s' : Store)
    → dirlookup devsw sb name dp s ≡ ok (s, dp, none)
    → free_slot_loop (dp.size / dirent_size + 1) devsw sb 0 dp s ≡ ok (s, dp, off)
    → writei sb dp off (make_dirent name inum) s ≡ ok (s', dp, true)
    → dirlink devsw sb name inum dp s ≡ ok (s', dp, true)
unfolding dirlink
dirlink-run devsw sb name inum off dp s s' a b c = rw (a, b, c) refl

-- What `dirlink` adds, `dirlookup` finds: in a directory of n entries whose parts have blocks of their own, in which no entry in use has the
-- name and some entry is free, with room in the log for one block, `dirlink` succeeds, and `dirlookup` of the name then gives the place
-- of the first free entry and the inode number that was linked.
pub dirlink-dirlookup :
    (devsw : Devices) (sb : Superblock) (name : List ℕ) (inum : ℕ) (dp : Inode) (s : Store) (n : ℕ)
    → dp.typ ≡ t_dir
    → dp.size ≤ maxfile * bsize
    → n * dirent_size ≡ dp.size
    → Laid s dp dp.size
    → Room 1 s.log
    → inum < 2 ^ 16
    → inum ≢ 0
    → find_entry name (entries s dp 0 n) ≡ none
    → free_slot dp.size (entries s dp 0 n) < dp.size
    → (s' : Store) × (dirlink devsw sb name inum dp s ≡ ok (s', dp, true))
      × (dirlookup devsw sb name dp s'
          ≡ ok (s', dp, some (free_slot dp.size (entries s dp 0 n), inum)))
dirlink-dirlookup devsw sb name inum dp s n t big count l r w nz old free =
    let slot : ℕ = free_slot dp.size (entries s dp 0 n) in
    let src : List ℕ = make_dirent name inum in
    let len = length-make_dirent name inum in
    let pl = free_slot-place n s dp 0 dp.size (omega arith) in
    let at : slot ≡ 0 + pl.0 * dirent_size = pl.2 in
    let fit : slot + dirent_size ≤ dp.size = omega (arith, pl.2) in
    let ow =
      writei_loop-Overwrites (length src) sb dp slot src s dp.size 1 (omega arith) (omega arith) l
        (λ q. omega (arith, pl.2)) r in
    let s' : Store = ow.0 in
    let rounds : dp.size / dirent_size + 1 ≡ suc n = omega arith in
    let look =
      dirlookup-entries devsw sb name dp s n t (omega arith) count l.mapped ∙ ap (looks s dp) old in
    let stop =
      ap (λ f. free_slot_loop f devsw sb 0 dp s) rounds
      ∙ free_slot_loop-entries n devsw sb 0 dp s t (omega arith) (omega arith) l.mapped in
    let wrote = writei-loop sb dp slot src s s' (omega arith) big ow.1 in
    let new : content s' dp (0 + pl.0 * dirent_size) dirent_size ≡ src =
      ap₂ (content s' dp) (sym at) (sym len)
      ∙ content-written s s' dp dp.size slot src (omega arith) ow.2 in
    let found =
      find_entry-added n s s' dp name 0 pl.0 inum (omega (arith, pl.2)) w nz old new (λ i lt.
        content-before dirent_size s s' dp dp.size slot (0 + i * dirent_size) src
          (omega (arith, pl.2)) (omega arith) ow.2) in
    (
      s',
      dirlink-run devsw sb name inum slot dp s s' look stop wrote,
      dirlookup-entries devsw sb name dp s' n t (omega arith) count (ow.3.mapped)
          ∙ ap (looks s' dp) (found ∙ ap (λ (o : ℕ). some (o, inum)) (sym at)),
    )
