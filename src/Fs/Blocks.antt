-- ===== src/Fs/Blocks.antt =====
-- `balloc` and `bfree` against the set of blocks in use.
use native.Mathlib.Decide.{dec_lt}
use operating_system_laborat.Base.{
  ℕ, zero, suc, ◌+◌, ◌-◌, ◌/◌, ◌%◌, ◌<◌, min, ◌≡◌, refl, ap, ◌∙◌, subst, ◌≢◌, inl, inr, true, false,
  arith, ◌==◌, if◌then◌else◌, Option-cases, ok, panic, ℕ_discrete,
}
use operating_system_laborat.Bytes.{Mem, memset}
use operating_system_laborat.Log.{Log, absorb, put_block}
use operating_system_laborat.Bytes.Move.{memset_lem}
use operating_system_laborat.Fs.{
  Disk, bsize, bpb, Superblock, Store, bblock, bit_clear, mark, unmark, find_clear, balloc_loop,
  balloc, bfree, in_use,
}
use operating_system_laborat.Fs.Marks.{
  Room, write_block-Room, Bytes, bit_clear-mark, bit_clear-unmark,
}
use operating_system_laborat.Fs.Scan.{
  Found, find_clear-Found, taken, in_use-bit, balloc_loop-next, AllUsed, balloc_loop_found,
}

-- The blocks that hold the map are in use themselves.
abbrev pub MapUsed : Superblock → Store → Type 0
MapUsed sb s = (b : ℕ) → b < sb.size → in_use sb s (bblock sb b) ≡ true

in_use-mark :
    (sb : Superblock) (s : Store) (n m : ℕ) (c : Disk)
    → Bytes (s.cache (bblock sb n))
    → (bblock sb n ≡ bblock sb m → c (bblock sb m) ≡ mark (s.cache (bblock sb n)) (n % bpb))
    → (bblock sb n ≢ bblock sb m → c (bblock sb m) ≡ s.cache (bblock sb m))
    → (l : Log)
    → in_use sb (record { cache = c; log = l }) m ≡ (if m == n then true else in_use sb s m)
unfolding in_use
in_use-mark sb s n m c y h g l = elim (ℕ_discrete (bblock sb n) (bblock sb m)) [
  | yes e ↦
      let bit : (m % bpb == n % bpb) ≡ (m == n) = ground arith in
      rw (h e, bit_clear-mark (s.cache (bblock sb n)) (n % bpb) (m % bpb) y, bit, e) (ground arith)
  | no ne ↦ let other : (m == n) ≡ false = ground arith in rw (g ne, other) refl
]

in_use-taken :
    (sb : Superblock) (s : Store) (n m : ℕ)
    → Bytes (s.cache (bblock sb n))
    → n ≢ bblock sb m
    → in_use sb (taken sb n s) m ≡ (if m == n then true else in_use sb s m)
in_use-taken sb s n m y ne =
    in_use-mark sb s n m ((taken sb n s).cache) y (λ e. ground arith) (λ k. ground arith)
      ((taken sb n s).log)

cleared : (x : Mem) (a : ℕ) → a < bsize → memset x 0 0 bsize a ≡ 0
cleared x a h = memset_lem x 0 0 bsize a ∙ ground arith

put_block_self : (d : Disk) (b : ℕ) (x : Mem) → put_block d b x b ≡ x
put_block_self d b x = ground arith

taken_zeros :
    (sb : Superblock) (n : ℕ) (s : Store) (a : ℕ) → a < bsize → (taken sb n s).cache n a ≡ 0
taken_zeros sb n s a h =
    let c : Disk = put_block s.cache (bblock sb n) (mark (s.cache (bblock sb n)) (n % bpb)) in
    ap (λ (x : Mem). x a) (put_block_self c n (memset (c n) 0 0 bsize)) ∙ cleared (c n) a h

-- While some block f is free and the running operation has room for two more blocks in the log, `balloc`
-- finds the first free block, marks it and no other block as in use, and hands it out filled
-- with zeros; the blocks of the map must be in use themselves.
pub balloc_lem :
    (sb : Superblock) (s : Store) (f : ℕ)
    → f < sb.size
    → in_use sb s f ≡ false
    → ((b : ℕ) → Bytes (s.cache b))
    → MapUsed sb s
    → Room 2 s.log
    → (r : Store × ℕ) × (balloc sb s ≡ ok r)
      × (r.1 < sb.size)
      × (in_use sb s r.1 ≡ false)
      × ((m : ℕ) → m < r.1 → in_use sb s m ≡ true)
      × ((m : ℕ) → m < sb.size → in_use sb r.0 m ≡ (if m == r.1 then true else in_use sb s m))
      × ((a : ℕ) → a < bsize → r.0.cache r.1 a ≡ 0)
unfolding balloc
balloc_lem sb s f lt u y w r =
    let t =
      balloc_loop_found sb 0 s (sb.size / bpb + 1) f (omega arith) (omega arith) lt (omega arith) u
        r in
    let n = t.0 in
    (
      (taken sb n s, n),
      t.5,
      t.2,
      t.3,
      (λ m h. t.4 m (omega arith) h),
      (λ m h.
          in_use-taken sb s n m (y (bblock sb n))
            (λ e. ground (arith, ap (in_use sb s) e, w m h, t.3))),
      taken_zeros sb n s,
    )

balloc_loop-full :
    (sb : Superblock) (b : ℕ) (s : Store) (k : ℕ)
    → b % bpb ≡ 0
    → AllUsed sb s b sb.size
    → balloc_loop sb b s k ≡ panic
unfolding balloc_loop
balloc_loop-full sb b s zero z h = refl
balloc_loop-full sb b s (suc k) z h =
    let x : Mem = s.cache (bblock sb b) in
    let n : ℕ = min bpb (sb.size - b) in
    let search : Found x 0 n (find_clear x 0 n) = find_clear-Found x 0 n in
    elim (dec_lt b sb.size) [
      | no ge ↦ ground arith
      | yes lt ↦ elim (Option-cases (find_clear x 0 n)) [
        | inl e ↦
            balloc_loop-next sb b s k lt e
            ∙ balloc_loop-full sb (b + bpb) s k (omega arith) (λ m a c. h m (omega arith) c)
        | inr w ↦
            let f4 = subst (Found x 0 n) (w.1) search in
            let off : b + w.0 - b ≡ w.0 = omega arith in
            let bit = in_use-bit sb s b (b + w.0) z (omega arith) (omega (arith, f4.1)) in
            let used = h (b + w.0) (omega arith) (omega (arith, f4.1)) in
            absurd (ground (arith, bit, used, f4.2, ap (bit_clear x) off))
      ]
    ]

-- `balloc` panics when every block of the disk is in use.
pub balloc-full :
    (sb : Superblock) (s : Store)
    → ((m : ℕ) → m < sb.size → in_use sb s m ≡ true)
    → balloc sb s ≡ panic
unfolding balloc
balloc-full sb s h = balloc_loop-full sb 0 s (sb.size / bpb + 1) (omega arith) (λ m a c. h m c)

-- `bfree` panics at a block that is free. At a block in use, with room in the log for one block, it makes
-- that block free and changes nothing in what the map says of the others.
pub bfree_lem :
    (sb : Superblock) (b : ℕ) (s : Store)
    → Bytes (s.cache (bblock sb b))
    → Room 1 s.log
    → (in_use sb s b ≡ false → bfree sb b s ≡ panic)
      × (in_use sb s b ≡ true
          → (s' : Store) × (bfree sb b s ≡ ok s')
            × ((m : ℕ) → in_use sb s' m ≡ (if m == b then false else in_use sb s m)))
unfolding bfree in_use
bfree_lem sb b s y r = (
  (λ u. ground arith),
  λ u. (
    record {
      cache = put_block s.cache (bblock sb b) (unmark (s.cache (bblock sb b)) (b % bpb));
      log = record s.log { lh = absorb (bblock sb b) s.log.lh };
    },
    (let set : bit_clear (s.cache (bblock sb b)) (b % bpb) ≡ false = ground arith in
        rw (set, write_block-Room 0 (bblock sb b) (unmark (s.cache (bblock sb b)) (b % bpb)) s r)
          refl),
    λ m. elim (ℕ_discrete (bblock sb b) (bblock sb m)) [
      | yes e ↦ ground (arith, bit_clear-unmark (s.cache (bblock sb b)) (b % bpb) (m % bpb) y)
      | no ne ↦ ground arith
    ],
  ),
)
