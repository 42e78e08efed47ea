-- ===== src/Inode/Reading.antt =====
-- What readi reads.
use native.Mathlib.Decide.{dec_lt, dec_le}
use operating_system_laborat.Base.{
  ℕ, zero, suc, ◌+◌, ◌-◌, ◌*◌, ◌/◌, ◌%◌, ◌^◌, ◌≤◌, ◌<◌, min, ◌≡◌, refl, sym, ap, ap₂, ◌∙◌, ◌≢◌,
  true, false, ◌||◌, Option, none, some, List, [], ◌∷◌, ◌++◌, arith, ltb, leb, ◌==◌, if◌then◌else◌,
  u32, sub32, Outcome, ok,
}
use operating_system_laborat.Fs.{bsize, Superblock, Store}
use operating_system_laborat.Inode.{t_dev, Inode}
use operating_system_laborat.Inode.Content.{bytes_at, readi_loop, readi, Devices}
use operating_system_laborat.Inode.Map.{block_of, Mapped, bmap-Mapped}

-- The byte i of a file's content, and n of them from off on.
abbrev pub byte : Store → Inode → ℕ → ℕ
byte s ip i = s.cache (block_of s ip (i / bsize)) (i % bsize)

abbrev pub content : Store → Inode → ℕ → ℕ → List ℕ
content s ip off zero = []
content s ip off (suc n) = byte s ip off ∷ content s ip (off + 1) n

-- The part of a block b from its offset o on.
content-block :
    (m : ℕ) (s : Store) (ip : Inode) (off k b o : ℕ)
    → off ≡ b * bsize + o
    → o + m ≤ bsize
    → content s ip off (m + k)
      ≡ bytes_at (s.cache (block_of s ip b)) o m ++ content s ip (off + m) k
content-block zero s ip off k b o e h =
    ap₂ (content s ip) (let q : off ≡ off + 0 = omega arith in q)
      (let q : 0 + k ≡ k = omega arith in q)
content-block (suc m) s ip off k b o e h =
    ap (content s ip off) (let q : suc m + k ≡ suc (m + k) = omega arith in q)
    ∙ ap₂ ◌∷◌
        (ap₂ (λ (x y : ℕ). s.cache (block_of s ip x) y) (let q : off / bsize ≡ b = omega arith in q)
          (let q : off % bsize ≡ o = omega arith in q))
        (content-block m s ip (off + 1) k b (o + 1) (omega arith) (omega arith)
          ∙ ap (λ x. bytes_at (s.cache (block_of s ip b)) (o + 1) m ++ content s ip x k)
              (let q : off + 1 + m ≡ off + suc m = omega arith in q))

-- Every part that holds one of the n bytes from off on has a block.
abbrev pub AllMapped : Store → Inode → ℕ → ℕ → Type 0
AllMapped s ip off n = (i : ℕ) → off ≤ i → i < off + n → Mapped s ip (i / bsize)

abbrev read_bytes : Store → Inode → List ℕ → Outcome (Store × Inode × List ℕ)
read_bytes s ip l = ok (s, ip, l)

abbrev gives : Store → Inode → Option (List ℕ) → Outcome (Store × Inode × Option (List ℕ))
gives s ip l = ok (s, ip, l)

readi_loop-content :
    (f : ℕ) (sb : Superblock) (ip : Inode) (off n : ℕ) (s : Store)
    → n ≤ f
    → AllMapped s ip off n
    → readi_loop f sb ip off n s ≡ ok (s, ip, content s ip off n)
unfolding readi_loop
readi_loop-content zero sb ip off zero s h a = refl
readi_loop-content (suc f) sb ip off zero s h a = refl
readi_loop-content zero sb ip off (suc n) s h a = absurd (omega arith)
readi_loop-content (suc f) sb ip off (suc n) s h a =
    let m : ℕ = min (suc n) (bsize - off % bsize) in
    let found = bmap-Mapped sb s ip (off / bsize) (a off (omega arith) (omega arith)) in
    let ih =
      readi_loop-content f sb ip (off + m) (suc n - m) s (omega arith)
        (λ i lo hi. a i (omega arith) (omega arith)) in
    let cut : content s ip off (suc n)
        ≡ bytes_at (s.cache (block_of s ip (off / bsize))) (off % bsize) m
          ++ content s ip (off + m) (suc n - m) =
      ap (content s ip off) (let q : suc n ≡ m + (suc n - m) = omega arith in q)
      ∙ content-block m s ip off (suc n - m) (off / bsize) (off % bsize) (omega arith)
          (omega arith) in
    let some_left : (suc n == 0) ≡ false = ground arith in
    rw (some_left, found, ih) (ap (read_bytes s ip) (sym cut))

-- `readi` on a file or directory whose parts all have blocks: it gives -1 exactly where the offset lies
-- behind the end of the file or the offset and the number of bytes wrap round; else it gives the content from the offset on, as many
-- bytes as were asked for or as the file still has, and changes nothing.
pub readi-content :
    (devsw : Devices) (sb : Superblock) (ip : Inode) (off n : ℕ) (s : Store)
    → ip.typ ≢ t_dev
    → ip.size < 2 ^ 32
    → off < 2 ^ 32
    → n < 2 ^ 32
    → AllMapped s ip 0 ip.size
    → readi devsw sb ip off n s
      ≡ ok (
        s,
        ip,
        if ltb ip.size off || leb (2 ^ 32) (off + n)
            then none
            else some (content s ip off (min n (ip.size - off))),
      )
unfolding readi
readi-content devsw sb ip off n s t hs ho hn a =
    let file : (ip.typ == t_dev) ≡ false = ground (arith, t) in
    elim (dec_lt ip.size off) [
      | yes lt ↦ let out : ltb ip.size off ≡ true = ground arith in rw (file, out) refl
      | no ge ↦
          let within : ltb ip.size off ≡ false = ground arith in
          elim (dec_le (2 ^ 32) (off + n)) [
            | yes w ↦
                let wraps : ltb (u32 (off + n)) off ≡ true = ground arith in
                let large : leb (2 ^ 32) (off + n) ≡ true = ground arith in
                rw (file, within, wraps, large) refl
            | no c ↦
                let calm : ltb (u32 (off + n)) off ≡ false = ground arith in
                let small : leb (2 ^ 32) (off + n) ≡ false = ground arith in
                let m : ℕ = (if ltb ip.size (u32 (off + n)) then sub32 ip.size off else n) in
                let size : m ≡ min n (ip.size - off) = ground arith in
                let run : readi_loop m sb ip off m s ≡ ok (s, ip, content s ip off m) =
                  readi_loop-content m sb ip off m s (omega arith)
                    (λ i lo hi. a i (omega arith) (omega (arith, size))) in
                rw (file, within, calm, small, run)
                  (ap (λ k. gives s ip (some (content s ip off k))) size)
          ]
    ]
