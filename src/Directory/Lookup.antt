-- ===== src/Directory/Lookup.antt =====
-- dirlookup against the list of a directory's entries.
use operating_system_laborat.Base.{
  ℕ, zero, suc, ◌+◌, ◌-◌, ◌*◌, ◌/◌, ◌^◌, ◌≤◌, ◌<◌, min, ◌≡◌, refl, ap, ◌∙◌, inl, inr, true, false,
  ◌||◌, Option, none, some, List, [], ◌∷◌, arith, ltb, leb, ◌==◌, if◌then◌else◌, Bool-cases,
  Outcome, ok,
}
use operating_system_laborat.Fs.{Superblock, Store}
use operating_system_laborat.Inode.{Inode}
use operating_system_laborat.Inode.Content.{readi, Devices}
use operating_system_laborat.Inode.Reading.{content, AllMapped, readi-content}
use operating_system_laborat.Directory.{
  t_dir, dirent_size, dirent_inum, dirent_name, namecmp_zero, dirlookup_loop, dirlookup,
}

-- The n entries of a directory from off on, each with its offset.
abbrev pub entries : Store → Inode → ℕ → ℕ → List (ℕ × List ℕ)
entries s dp off zero = []
entries s dp off (suc n) = (off, content s dp off dirent_size) ∷ entries s dp (off + dirent_size) n

-- The first entry in use that has the name.
abbrev pub find_entry : List ℕ → List (ℕ × List ℕ) → Option (ℕ × ℕ)
find_entry name [] = none
find_entry name ((off, de) ∷ es) =
    if dirent_inum de == 0
    then find_entry name es
    else if namecmp_zero name (dirent_name de)
    then some (off, dirent_inum de)
    else find_entry name es

pub entry-read :
    (devsw : Devices) (sb : Superblock) (dp : Inode) (off : ℕ) (s : Store)
    → dp.typ ≡ t_dir
    → dp.size < 2 ^ 32
    → off + dirent_size ≤ dp.size
    → AllMapped s dp 0 dp.size
    → readi devsw sb dp off dirent_size s ≡ ok (s, dp, some (content s dp off dirent_size))
entry-read devsw sb dp off s t h le a =
    let out : (if ltb dp.size off || leb (2 ^ 32) (off + dirent_size)
          then none
          else some (content s dp off (min dirent_size (dp.size - off))))
        ≡ some (content s dp off dirent_size) =
      whole off dp.size (content s dp off) le h in
    readi-content devsw sb dp off dirent_size s (λ e. ground (arith, t)) h (omega arith)
      (omega arith) a
    ∙ ap (returns s dp) out
  where
    returns : Store → Inode → Option (List ℕ) → Outcome (Store × Inode × Option (List ℕ))
    returns s dp o = ok (s, dp, o)

    whole :
        (off size : ℕ) (f : ℕ → List ℕ)
        → off + dirent_size ≤ size
        → size < 2 ^ 32
        → (if ltb size off || leb (2 ^ 32) (off + dirent_size)
            then none
            else some (f (min dirent_size (size - off))))
          ≡ some (f dirent_size)
    whole off size f h g =
        let a : ltb size off ≡ false = ground arith in
        let b : leb (2 ^ 32) (off + dirent_size) ≡ false = ground arith in
        let c : min dirent_size (size - off) ≡ dirent_size = omega arith in rw (a, b, c) refl

abbrev found : Store → Inode → Option (ℕ × ℕ) → Outcome (Store × Inode × Option (ℕ × ℕ))
found s dp o = ok (s, dp, o)

dirlookup_loop-entries :
    (n : ℕ) (devsw : Devices) (sb : Superblock) (name : List ℕ) (off : ℕ) (dp : Inode) (s : Store)
    → dp.typ ≡ t_dir
    → dp.size < 2 ^ 32
    → off + n * dirent_size ≡ dp.size
    → AllMapped s dp 0 dp.size
    → dirlookup_loop (suc n) devsw sb name off dp s
      ≡ found s dp (find_entry name (entries s dp off n))
unfolding dirlookup_loop
dirlookup_loop-entries zero devsw sb name off dp s t h e a =
    let stop : ltb off dp.size ≡ false = ground arith in rw stop refl
dirlookup_loop-entries (suc n) devsw sb name off dp s t h e a =
    let go : ltb off dp.size ≡ true = ground arith in
    let de : List ℕ = content s dp off dirent_size in
    let got = entry-read devsw sb dp off s t h (omega arith) a in
    let ih = dirlookup_loop-entries n devsw sb name (off + dirent_size) dp s t h (omega arith) a in
    elim (Bool-cases (dirent_inum de == 0)) [
      | inl free ↦ rw (go, got, free, ih) refl
      | inr used ↦ elim (Bool-cases (namecmp_zero name (dirent_name de))) [
        | inl same ↦ rw (go, got, used, same) refl
        | inr other ↦ rw (go, got, used, other, ih) refl
      ]
    ]

-- `dirlookup` refines the search of a list: on a directory of n entries whose parts all have blocks it reads every entry,
-- never panics, changes nothing, and gives the offset and the inode number of the first entry in use that
-- has the name, or none where there is none.
pub dirlookup-entries :
    (devsw : Devices) (sb : Superblock) (name : List ℕ) (dp : Inode) (s : Store) (n : ℕ)
    → dp.typ ≡ t_dir
    → dp.size < 2 ^ 32
    → n * dirent_size ≡ dp.size
    → AllMapped s dp 0 dp.size
    → dirlookup devsw sb name dp s ≡ ok (s, dp, find_entry name (entries s dp 0 n))
unfolding dirlookup
dirlookup-entries devsw sb name dp s n t h e a =
    let dir : (dp.typ == t_dir) ≡ true = ground (arith, t) in
    let rounds : dp.size / dirent_size + 1 ≡ suc n = omega arith in
    rw dir (
      ap (λ f. dirlookup_loop f devsw sb name 0 dp s) rounds
      ∙ dirlookup_loop-entries n devsw sb name 0 dp s t h (omega arith) a)
