-- ===== src/Ulib/Decimal.antt =====
-- What atoi reads.
use operating_system_laborat.Base.{
  ℕ, zero, suc, ◌+◌, ◌-◌, ◌*◌, ◌≤◌, ◌<◌, ◌≡◌, ap, true, false, some, arith, u32,
}
use operating_system_laborat.Bytes.{Mem}
use operating_system_laborat.Ulib.{atoi, atoi_loop, is_digit}

-- The number that the k digits from s on write behind the number n.
abbrev pub decimal : ℕ → Mem → ℕ → ℕ → ℕ
decimal n m s zero = n
decimal n m s (suc k) = decimal (n * 10 + (m s - b'0')) m (s + 1) k

-- The k bytes from s on are digits, and the next one is not.
abbrev pub Numeral : Mem → ℕ → ℕ → Type 0
Numeral m s zero = is_digit (m s) ≡ false
Numeral m s (suc k) = (is_digit (m s) ≡ true) × Numeral m (s + 1) k

atoi_loop_lem :
    (fuel : ℕ) (m : Mem) (s n k big : ℕ)
    → k < fuel
    → n ≡ u32 big
    → Numeral m s k
    → atoi_loop fuel m s n ≡ some (u32 (decimal big m s k))
unfolding atoi_loop
atoi_loop_lem zero m s n k big lt e d = absurd (omega arith)
atoi_loop_lem (suc fuel) m s n zero big lt e d = rw d (ap some e)
atoi_loop_lem (suc fuel) m s n (suc k) big lt e (d, ds) =
    let low : b'0' ≤ m s = ground arith in
    rw d (
      atoi_loop_lem fuel m (s + 1) (u32 (n * 10 + m s - b'0')) k (big * 10 + (m s - b'0'))
        (omega arith) (omega arith) ds)

-- `atoi` of a string that starts with k digits returns the number that they write, as far as an int
-- holds it, and stops before the first other character; fuel above k is enough.
pub atoi_lem :
    (fuel : ℕ) (m : Mem) (s k : ℕ)
    → k < fuel
    → Numeral m s k
    → atoi fuel m s ≡ some (u32 (decimal 0 m s k))
unfolding atoi
atoi_lem fuel m s k lt d = atoi_loop_lem fuel m s 0 k 0 lt (omega arith) d
