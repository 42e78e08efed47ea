-- ===== src/Fs/Marks.antt =====
-- Writes to a block of the map, and its bits.
use Prim.Native.Nat.{bit_and, bit_or}
use operating_system_laborat.Base.{
  ℕ, suc, ◌+◌, ◌-◌, ◌/◌, ◌%◌, ◌≤◌, ◌<◌, ◌≡◌, refl, ◌≢◌, true, false, arith, ◌==◌, if◌then◌else◌,
  length, ok, ℕ_discrete,
}
use operating_system_laborat.Bytes.{Mem, update}
use operating_system_laborat.Log.{Log, log_write, absorb, logsize, put_block}
use operating_system_laborat.Log.Space.{length-absorb}
use operating_system_laborat.Fs.{Store, write_block, bit_mask, bit_clear, mark, unmark}
use operating_system_laborat.Fs.Bits.{bit_or-bit, bit_and-bit}

-- The running operation can still write k blocks.
abbrev pub Room : ℕ → Log → Type 0
Room k l = (length l.lh + k ≤ logsize) × (length l.lh + k < l.size) × (0 < l.outstanding)

pub log_write-Room :
    (k b : ℕ) (l : Log)
    → Room (suc k) l
    → (log_write b l ≡ ok (record l { lh = absorb b l.lh }))
      × Room k (record l { lh = absorb b l.lh })
unfolding log_write
log_write-Room k b l r = (
  ground arith,
  (omega (arith, length-absorb b l.lh), omega (arith, length-absorb b l.lh), omega arith),
)

pub write_block-Room :
    (k b : ℕ) (x : Mem) (s : Store)
    → Room (suc k) s.log
    → (write_block b x s
        ≡ ok (record {
          cache = put_block s.cache b x;
          log = record s.log { lh = absorb b s.log.lh };
        }))
unfolding write_block
write_block-Room k b x s r = rw ((log_write-Room k b s.log r).0) refl

-- Each byte of the map is a byte.
abbrev pub Bytes : Mem → Type 0
Bytes x = (a : ℕ) → x a < 256

update-at : (x : Mem) (a v : ℕ) → update x a v a ≡ v
update-at x a v = ground arith

update-else : (x : Mem) (a b v : ℕ) → a ≢ b → update x a v b ≡ x b
update-else x a b v h = ground arith

pub bit_clear-mark :
    (x : Mem) (i j : ℕ)
    → Bytes x
    → bit_clear (mark x i) j ≡ (if j == i then false else bit_clear x j)
unfolding bit_clear mark
bit_clear-mark x i j h = elim (ℕ_discrete (i / 8) (j / 8)) [
  | yes e ↦
      let at : update x (i / 8) (bit_or (x (i / 8)) (bit_mask i)) (j / 8)
          ≡ bit_or (x (j / 8)) (bit_mask i) =
        rw e (update-at x (j / 8) _) in
      let bits = bit_or-bit (x (j / 8)) (i % 8) (j % 8) (h (j / 8)) (omega arith) (omega arith) in
      let same : (j % 8 == i % 8) ≡ (j == i) = ground arith in rw (at, bits, same) refl
  | no ne ↦
      let away = update-else x (i / 8) (j / 8) (bit_or (x (i / 8)) (bit_mask i)) ne in
      let other : (j == i) ≡ false = ground arith in rw (away, other) refl
]

pub bit_clear-unmark :
    (x : Mem) (i j : ℕ)
    → Bytes x
    → bit_clear (unmark x i) j ≡ (if j == i then true else bit_clear x j)
unfolding bit_clear unmark
bit_clear-unmark x i j h = elim (ℕ_discrete (i / 8) (j / 8)) [
  | yes e ↦
      let at : update x (i / 8) (bit_and (x (i / 8)) (255 - bit_mask i)) (j / 8)
          ≡ bit_and (x (j / 8)) (255 - bit_mask i) =
        rw e (update-at x (j / 8) _) in
      let bits = bit_and-bit (x (j / 8)) (i % 8) (j % 8) (h (j / 8)) (omega arith) (omega arith) in
      let same : (j % 8 == i % 8) ≡ (j == i) = ground arith in rw (at, bits, same) refl
  | no ne ↦
      let away = update-else x (i / 8) (j / 8) (bit_and (x (i / 8)) (255 - bit_mask i)) ne in
      let other : (j == i) ≡ false = ground arith in rw (away, other) refl
]
