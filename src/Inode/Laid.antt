-- ===== src/Inode/Laid.antt =====
-- One block of a file is written.
use native.Mathlib.Decide.{dec_lt}
use operating_system_laborat.Base.{
  ℕ, zero, suc, ◌+◌, ◌-◌, ◌*◌, ◌/◌, ◌%◌, ◌≤◌, ◌<◌, ◌≡◌, refl, sym, ap, ◌∙◌, ◌≢◌, ◌&&◌, List, [],
  ◌∷◌, arith, ltb, leb, if◌then◌else◌, length, get_or, take, drop, ℕ_discrete,
}
use operating_system_laborat.Bytes.{Mem, update}
use operating_system_laborat.Kalloc.{load32}
use operating_system_laborat.Log.{put_block, absorb}
use operating_system_laborat.Fs.{bsize, Store}
use operating_system_laborat.Inode.{ndirect, Inode}
use operating_system_laborat.Inode.Content.{put_bytes}
use operating_system_laborat.Inode.Map.{block_of}
use operating_system_laborat.Inode.Reading.{byte, AllMapped}

put_bytes_lem :
    (bs : List ℕ) (x : Mem) (o j : ℕ)
    → put_bytes x o bs j ≡ (if leb o j && ltb j (o + length bs) then get_or bs (j - o) 0 else x j)
put_bytes_lem [] x o j = ground arith
put_bytes_lem (b ∷ bs) x o j = elim (ℕ_discrete o j) [
  | yes e ↦
      let z : j - o ≡ 0 = omega arith in
      let first : get_or (b ∷ bs) (j - o) 0 ≡ b = ap (λ i. get_or (b ∷ bs) i 0) z in
      ground (arith, put_bytes_lem bs (update x o b) (o + 1) j, first)
  | no ne ↦ elim (dec_lt o j) [
    | yes lt ↦
        let z : j - o ≡ suc (j - (o + 1)) = omega arith in
        let later : get_or (b ∷ bs) (j - o) 0 ≡ get_or bs (j - (o + 1)) 0 =
          ap (λ i. get_or (b ∷ bs) i 0) z in
        ground (arith, put_bytes_lem bs (update x o b) (o + 1) j, later)
    | no ge ↦ ground (arith, put_bytes_lem bs (update x o b) (o + 1) j)
  ]
]

pub get_or-take : (m : ℕ) (src : List ℕ) (j : ℕ) → j < m → get_or (take m src) j 0 ≡ get_or src j 0
get_or-take zero src j h = absurd (omega arith)
get_or-take (suc m) [] j h = refl
get_or-take (suc m) (b ∷ bs) zero h = refl
get_or-take (suc m) (b ∷ bs) (suc j) h = get_or-take m bs j (omega arith)

pub get_or-drop : (m : ℕ) (src : List ℕ) (j : ℕ) → get_or (drop m src) j 0 ≡ get_or src (m + j) 0
get_or-drop zero src j = ap (λ i. get_or src i 0) (let e : j ≡ 0 + j = omega arith in e)
get_or-drop (suc m) [] j = refl
get_or-drop (suc m) (b ∷ bs) j =
    get_or-drop m bs j
    ∙ ap (λ i. get_or (b ∷ bs) i 0) (let e : suc (m + j) ≡ suc m + j = omega arith in e)

pub length-drop : (m : ℕ) (src : List ℕ) → length (drop m src) ≡ length src - m
length-drop zero src = omega arith
length-drop (suc m) [] = omega arith
length-drop (suc m) (b ∷ bs) = omega (arith, length-drop m bs)

-- The parts of the first n bytes have blocks, one for each, and none of them is the indirect block.
pub record Laid (s : Store) (ip : Inode) (n : ℕ) : Type 0 where
  pub mapped : AllMapped s ip 0 n
  pub single :
      (i j : ℕ)
      → i < n
      → j < n
      → block_of s ip (i / bsize) ≡ block_of s ip (j / bsize)
      → i / bsize ≡ j / bsize
  pub direct : (i : ℕ) → i < n → block_of s ip (i / bsize) ≢ get_or ip.addrs ndirect 0

-- The store with block b changed.
abbrev pub wrote : ℕ → Mem → Store → Store
wrote b x s = record {
  cache = put_block s.cache b x;
  log = record s.log { lh = absorb b s.log.lh };
}

block_of-wrote :
    (s : Store) (ip : Inode) (b bn : ℕ) (x : Mem)
    → b ≢ get_or ip.addrs ndirect 0
    → block_of (wrote b x s) ip bn ≡ block_of s ip bn
unfolding block_of
block_of-wrote s ip b bn x h =
    let same : put_block s.cache b x (get_or ip.addrs ndirect 0)
        ≡ s.cache (get_or ip.addrs ndirect 0) =
      ground (arith, h) in
    ap (λ (m : Mem). if ltb bn ndirect then get_or ip.addrs bn 0 else load32 m (4 * (bn - ndirect)))
      same

pub Laid-wrote :
    (s : Store) (ip : Inode) (b n : ℕ) (x : Mem)
    → b ≢ get_or ip.addrs ndirect 0
    → Laid s ip n
    → Laid (wrote b x s) ip n
Laid-wrote s ip b n x h l =
    let same = λ (bn : ℕ). block_of-wrote s ip b bn x h in
    record {
      mapped = λ i lo hi.
          let m = l.mapped i lo hi in (m.0, (λ e. m.1 (sym (same (i / bsize)) ∙ e)), m.2);
      single = λ i j hi hj e. l.single i j hi hj (sym (same (i / bsize)) ∙ e ∙ same (j / bsize));
      direct = λ i hi e. l.direct i hi (sym (same (i / bsize)) ∙ e);
    }

-- One round of the loop, at the offset o of part q.
pub byte-wrote :
    (s : Store) (ip : Inode) (n off i : ℕ) (bs : List ℕ)
    → Laid s ip n
    → off < n
    → i < n
    → off % bsize + length bs ≤ bsize
    → byte
        (wrote
          (block_of s ip (off / bsize))
          (put_bytes (s.cache (block_of s ip (off / bsize))) (off % bsize) bs)
          s)
        ip
        i
      ≡ (if leb off i && ltb i (off + length bs) then get_or bs (i - off) 0 else byte s ip i)
byte-wrote s ip n off i bs l ho hi fit =
    let b : ℕ = block_of s ip (off / bsize) in
    let x : Mem = put_bytes (s.cache b) (off % bsize) bs in
    let at : byte (wrote b x s) ip i
        ≡ put_block s.cache b x (block_of s ip (i / bsize)) (i % bsize) =
      ap (λ (k : ℕ). put_block s.cache b x k (i % bsize))
        (block_of-wrote s ip b (i / bsize) x (l.direct off ho)) in
    elim (ℕ_discrete (off / bsize) (i / bsize)) [
      | yes e ↦
          let blk : block_of s ip (i / bsize) ≡ b = ap (block_of s ip) (sym e) in
          let self : put_block s.cache b x b ≡ x = ground arith in
          let old : byte s ip i ≡ s.cache b (i % bsize) =
            ap (λ (k : ℕ). s.cache k (i % bsize)) blk in
          let place : i % bsize - off % bsize ≡ i - off = omega arith in
          let chosen : get_or bs (i % bsize - off % bsize) 0 ≡ get_or bs (i - off) 0 =
            ap (λ k. get_or bs k 0) place in
          at
          ∙ ap (λ (k : ℕ). put_block s.cache b x k (i % bsize)) blk
          ∙ ap (λ (m : Mem). m (i % bsize)) self
          ∙ put_bytes_lem bs (s.cache b) (off % bsize) (i % bsize)
          ∙ ground (arith, chosen, old)
      | no ne ↦
          let away : b ≢ block_of s ip (i / bsize) = λ q. ne (l.single off i ho hi q) in
          let kept : put_block s.cache b x (block_of s ip (i / bsize))
              ≡ s.cache (block_of s ip (i / bsize)) =
            ground (arith, away) in
          at ∙ ap (λ (m : Mem). m (i % bsize)) kept ∙ ground arith
    ]
