-- ===== src/Fs/Scan.antt =====
-- The search of balloc for a free block.
use native.Mathlib.Decide.{dec_le, dec_lt}
use operating_system_laborat.Base.{
  ℕ, zero, suc, ◌+◌, ◌-◌, ◌*◌, ◌%◌, ◌≤◌, ◌<◌, min, ◌≡◌, refl, sym, ap, ◌∙◌, subst, inl, inr, true,
  false, not, Option, none, some, arith, Bool-cases, Option-cases, ok, ℕ_discrete,
}
use operating_system_laborat.Bytes.{Mem, memset}
use operating_system_laborat.Log.{absorb, put_block}
use operating_system_laborat.Fs.{
  bsize, bpb, Superblock, Store, bblock, bit_clear, mark, bzero, find_clear, take_block,
  balloc_loop, in_use,
}
use operating_system_laborat.Fs.Marks.{Room, log_write-Room, write_block-Room}

-- What the inner loop of `balloc` found.
abbrev pub Found : Mem → ℕ → ℕ → Option ℕ → Type 0
Found x bi n none = (j : ℕ) → bi ≤ j → j < bi + n → bit_clear x j ≡ false
Found x bi n (some j) =
    (bi ≤ j)
    × (j < bi + n)
    × (bit_clear x j ≡ true)
    × ((i : ℕ) → bi ≤ i → i < j → bit_clear x i ≡ false)

Found-later :
    (x : Mem) (bi n : ℕ) (o : Option ℕ)
    → bit_clear x bi ≡ false
    → Found x (bi + 1) n o
    → Found x bi (suc n) o
Found-later x bi n none h f = λ j a b. first x bi j h a (λ lt. f j lt (omega arith))
  where
    first :
        (x : Mem) (bi j : ℕ)
        → bit_clear x bi ≡ false
        → bi ≤ j
        → (bi + 1 ≤ j → bit_clear x j ≡ false)
        → bit_clear x j ≡ false
    first x bi j h a g = elim (ℕ_discrete bi j) [ yes e ↦ rw (sym e) h | no ne ↦ g (omega arith) ]
Found-later x bi n (some j) h f = (
  omega (arith, f.0),
  omega (arith, f.1),
  f.2,
  λ i a b. elim (ℕ_discrete bi i) [ yes e ↦ rw (sym e) h | no ne ↦ f.3 i (omega arith) b ],
)

pub find_clear-Found : (x : Mem) (bi n : ℕ) → Found x bi n (find_clear x bi n)
unfolding find_clear
find_clear-Found x bi zero = λ j a b. absurd (omega arith)
find_clear-Found x bi (suc n) = elim (Bool-cases (bit_clear x bi)) [
  | inl e ↦ rw e (omega arith, omega arith, e, λ i a b. absurd (omega arith))
  | inr e ↦ rw e (Found-later x bi n (find_clear x (bi + 1) n) e (find_clear-Found x (bi + 1) n))
]

-- The store after block n has been taken: marked, and filled with zeros.
abbrev pub taken : Superblock → ℕ → Store → Store
taken sb n s =
    let c = put_block s.cache (bblock sb n) (mark (s.cache (bblock sb n)) (n % bpb)) in
    record {
      cache = put_block c n (memset (c n) 0 0 bsize);
      log = record s.log { lh = absorb n (absorb (bblock sb n) s.log.lh) };
    }

take_block-taken :
    (sb : Superblock) (b n : ℕ) (s : Store)
    → b % bpb ≡ 0
    → b ≤ n
    → n < b + bpb
    → Room 2 s.log
    → take_block sb b (n - b) s ≡ ok (taken sb n s, n)
unfolding take_block bzero
take_block-taken sb b n s z lo hi r =
    let group : bblock sb b ≡ bblock sb n = omega arith in
    let bit : n - b ≡ n % bpb = omega arith in
    let whole : b + n % bpb ≡ n = omega arith in
    let x : Mem = mark (s.cache (bblock sb n)) (n % bpb) in
    let s1 : Store = record {
      cache = put_block s.cache (bblock sb n) x;
      log = record s.log { lh = absorb (bblock sb n) s.log.lh };
    } in
    rw
      (
        group,
        bit,
        write_block-Room 1 (bblock sb n) x s r,
        whole,
        write_block-Room 0 n (memset (s1.cache n) 0 0 bsize) s1
            ((log_write-Room 1 (bblock sb n) s.log r).1),
      )
      refl

pub in_use-bit :
    (sb : Superblock) (s : Store) (b m : ℕ)
    → b % bpb ≡ 0
    → b ≤ m
    → m < b + bpb
    → in_use sb s m ≡ not (bit_clear (s.cache (bblock sb b)) (m - b))
unfolding in_use
in_use-bit sb s b m z lo hi =
    let group : bblock sb m ≡ bblock sb b = omega arith in
    let bit : m % bpb ≡ m - b = omega arith in rw (group, bit) refl

balloc_loop-here :
    (sb : Superblock) (b bi : ℕ) (s : Store) (k : ℕ)
    → b < sb.size
    → find_clear (s.cache (bblock sb b)) 0 (min bpb (sb.size - b)) ≡ some bi
    → balloc_loop sb b s (suc k) ≡ take_block sb b bi s
unfolding balloc_loop
balloc_loop-here sb b bi s k h e = rw e (ground arith)

pub balloc_loop-next :
    (sb : Superblock) (b : ℕ) (s : Store) (k : ℕ)
    → b < sb.size
    → find_clear (s.cache (bblock sb b)) 0 (min bpb (sb.size - b)) ≡ none
    → balloc_loop sb b s (suc k) ≡ balloc_loop sb (b + bpb) s k
unfolding balloc_loop
balloc_loop-next sb b s k h e = rw e (ground arith)

-- The blocks from b up to n are all in use.
abbrev pub AllUsed : Superblock → Store → ℕ → ℕ → Type 0
AllUsed sb s b n = (m : ℕ) → b ≤ m → m < n → in_use sb s m ≡ true

-- A group of the map with no clear bit.
group-AllUsed :
    (sb : Superblock) (s : Store) (b n : ℕ)
    → b % bpb ≡ 0
    → n ≤ bpb
    → ((j : ℕ) → j < n → bit_clear (s.cache (bblock sb b)) j ≡ false)
    → AllUsed sb s b (b + n)
group-AllUsed sb s b n z le h m lo hi =
    in_use-bit sb s b m z lo (omega arith) ∙ ap not (h (m - b) (omega arith))

-- The first free block from b on, where there is one, is taken.
pub balloc_loop_found :
    (sb : Superblock) (b : ℕ) (s : Store) (k f : ℕ)
    → b % bpb ≡ 0
    → b ≤ f
    → f < sb.size
    → f < b + k * bpb
    → in_use sb s f ≡ false
    → Room 2 s.log
    → (n : ℕ) × (b ≤ n)
      × (n < sb.size)
      × (in_use sb s n ≡ false)
      × AllUsed sb s b n
      × (balloc_loop sb b s k ≡ ok (taken sb n s, n))
balloc_loop_found sb b s zero f z lo hi en u r = absurd (omega arith)
balloc_loop_found sb b s (suc k) f z lo hi en u r =
    let x : Mem = s.cache (bblock sb b) in
    let n : ℕ = min bpb (sb.size - b) in
    let search : Found x 0 n (find_clear x 0 n) = find_clear-Found x 0 n in
    let later = λ (le : b + bpb ≤ f).
      balloc_loop_found sb (b + bpb) s k f (omega arith) le hi (omega arith) u r in
    elim (Option-cases (find_clear x 0 n)) [
      | inl e ↦
          let full : AllUsed sb s b (b + n) =
            group-AllUsed sb s b n z (omega arith)
              (λ j lt. (subst (Found x 0 n) e search) j (omega arith) (omega arith)) in
          let beyond : b + bpb ≤ f = elim (dec_le (b + n) f) [
            | yes h ↦ omega arith
            | no h ↦ absurd (ground (arith, full f lo (omega arith)))
          ] in
          let t = later beyond in
          (
            t.0,
            omega (arith, t.1),
            t.2,
            t.3,
            (λ m a c. elim (dec_lt m (b + n)) [
              | yes p ↦ full m a p
              | no p ↦ t.4 m (omega (arith, t.2)) c
            ]),
            balloc_loop-next sb b s k (omega arith) e ∙ t.5,
          )
      | inr w ↦
          let bi = w.0 in
          let off : b + bi - b ≡ bi = omega arith in
          let f4 = subst (Found x 0 n) (w.1) search in
          let bound : bi < n = omega (arith, f4.1) in
          (
            b + bi,
            omega arith,
            omega arith,
            in_use-bit sb s b (b + bi) z (omega arith) (omega arith) ∙ rw (off, f4.2) refl,
            group-AllUsed sb s b bi z (omega arith) (λ j lt. f4.3 j (omega arith) lt),
            balloc_loop-here sb b bi s k (omega arith) (w.1)
                ∙ ap (λ i. take_block sb b i s) (sym off)
                ∙ take_block-taken sb b (b + bi) s z (omega arith) (omega arith) r,
          )
    ]
