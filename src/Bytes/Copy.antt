-- ===== src/Bytes/Copy.antt =====
-- strncpy, safestrcpy: what lies in memory after the call.
use operating_system_laborat.Base.{
  ℕ, zero, suc, ◌+◌, ◌-◌, ◌^◌, ◌≤◌, ◌<◌, ◌≡◌, refl, ap, ◌⊎◌, inl, inr, Bool, true, false, ◌&&◌,
  ◌||◌, arith, ltb, ◌==◌, if◌then◌else◌, Bool-cases,
}
use operating_system_laborat.Bytes.{
  Mem, update, zero_fill, strncpy_loop, strncpy, rounds, safestrcpy_loop, safestrcpy,
}
use operating_system_laborat.Bytes.Move.{within}

-- One of the first i bytes at t is NUL.
unfoldable pub nul_before : Mem → ℕ → ℕ → Bool
nul_before m t zero = false
nul_before m t (suc i) = m t == 0 || nul_before m (t + 1) i

zero_fill_lem : (n : ℕ) (m : Mem) (s a : ℕ) → zero_fill m s n a ≡ (if within s n a then 0 else m a)
unfolding zero_fill
zero_fill_lem zero m s a = ground arith
zero_fill_lem (suc n) m s a = ground (arith, zero_fill_lem n (update m s 0) (s + 1) a)

-- A store outside the bytes looked at changes nothing.
nul_before-update :
    (i : ℕ) (m : Mem) (t s v : ℕ)
    → (s < t) ⊎ (t + i ≤ s)
    → nul_before (update m s v) t i ≡ nul_before m t i
unfolding nul_before
nul_before-update zero m t s v h = refl
nul_before-update (suc i) m t s v h = ground (arith, nul_before-update i m (t + 1) s v)

-- What `strncpy` leaves at a: the copy up to the first NUL of t, NULs after it.
abbrev pub padded : Mem → ℕ → ℕ → ℕ → ℕ
padded m s t a = if nul_before m t (a - s) then 0 else m (t + (a - s))

nul_before_first : (m : Mem) (t i : ℕ) → (m t == 0) ≡ true → 0 < i → nul_before m t i ≡ true
unfolding nul_before
nul_before_first m t zero e h = absurd (omega arith)
nul_before_first m t (suc i) e h = rw e

nul_before_next :
    (m : Mem) (t i j : ℕ)
    → (m t == 0) ≡ false
    → i ≡ suc j
    → nul_before m t i ≡ nul_before m (t + 1) j
unfolding nul_before
nul_before_next m t zero j e h = absurd (omega arith)
nul_before_next m t (suc i) j e h = rw e (ap (nul_before m (t + 1)) (omega arith))

nul_before_none : (m : Mem) (t i : ℕ) → i ≡ 0 → nul_before m t i ≡ false
unfolding nul_before
nul_before_none m t zero e = refl
nul_before_none m t (suc i) e = absurd (omega arith)

strncpy_loop_lem :
    (n : ℕ) (m : Mem) (s t a : ℕ)
    → (s + n ≤ t) ⊎ (t + n ≤ s)
    → strncpy_loop m s t n a ≡ (if within s n a then padded m s t a else m a)
unfolding strncpy_loop
strncpy_loop_lem zero m s t a h = ground arith
strncpy_loop_lem (suc n) m s t a h = elim (Bool-cases (m t == 0)) [
  | inl e ↦ ground (
    arith,
    zero_fill_lem n (update m s (m t)) (s + 1) a,
    nul_before_first m t (a - s),
    nul_before_none m t (a - s),
  )
  | inr e ↦ ground (
    arith,
    strncpy_loop_lem n (update m s (m t)) (s + 1) (t + 1) a,
    nul_before-update (a - (s + 1)) m (t + 1) s (m t),
    nul_before_next m t (a - s) (a - (s + 1)),
    nul_before_none m t (a - s),
  )
]

-- After `strncpy` between areas that do not overlap, the n bytes at s are the string at t,
-- filled up with NULs (not terminated if it is longer), and no other byte has changed. A count
-- that is not positive as an int changes nothing.
pub strncpy_lem :
    (m : Mem) (s t n a : ℕ)
    → (s + n ≤ t) ⊎ (t + n ≤ s)
    → strncpy m s t n a ≡ (if within s (rounds n) a then padded m s t a else m a)
unfolding strncpy
strncpy_lem m s t n a h = strncpy_loop_lem (rounds n) m s t a (ground arith)

-- The length of the string at t, cut off at n.
unfoldable pub cut : Mem → ℕ → ℕ → ℕ
cut m t zero = 0
cut m t (suc n) = if m t == 0 then 0 else suc (cut m (t + 1) n)

pub cut-le : (n : ℕ) (m : Mem) (t : ℕ) → cut m t n ≤ n
unfolding cut
cut-le zero m t = omega arith
cut-le (suc n) m t = ground (arith, cut-le n m (t + 1))

cut-update :
    (n : ℕ) (m : Mem) (t s v : ℕ) → (s < t) ⊎ (t + n ≤ s) → cut (update m s v) t n ≡ cut m t n
unfolding cut
cut-update zero m t s v h = refl
cut-update (suc n) m t s v h = ground (arith, cut-update n m (t + 1) s v)

-- What `safestrcpy` leaves at a, for a string cut to k of at most n characters: the characters, and
-- a NUL; a second one where the copied string ended before the limit.
abbrev pub terminated : Mem → ℕ → ℕ → ℕ → ℕ → ℕ → ℕ
terminated m s t n k a =
    if within s k a
    then m (t + (a - s))
    else if a == s + k || (ltb k n && a == s + k + 1)
    then 0
    else m a

safestrcpy_loop_lem :
    (n : ℕ) (m : Mem) (s t a : ℕ)
    → (s + n < t) ⊎ (t + n ≤ s)
    → safestrcpy_loop m s t n a ≡ terminated m s t n (cut m t n) a
unfolding safestrcpy_loop cut
safestrcpy_loop_lem zero m s t a h = ground arith
safestrcpy_loop_lem (suc n) m s t a h = ground (
  arith,
  safestrcpy_loop_lem n (update m s (m t)) (s + 1) (t + 1) a,
  cut-update n m (t + 1) s (m t),
  cut-le n m (t + 1),
)

-- `safestrcpy` with room for n bytes between areas that do not overlap: the string at t, cut to
-- n - 1 characters, then a NUL (two, if it was not cut and there is room), and no other byte.
pub safestrcpy_lem :
    (m : Mem) (s t n a : ℕ)
    → 0 < n
    → n < 2 ^ 31
    → (s + n ≤ t) ⊎ (t + n ≤ s)
    → safestrcpy m s t n a ≡ terminated m s t (n - 1) (cut m t (n - 1)) a
unfolding safestrcpy
safestrcpy_lem m s t n a p q h = ground (arith, safestrcpy_loop_lem (n - 1) m s t a)
