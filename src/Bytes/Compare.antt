-- ===== src/Bytes/Compare.antt =====
-- memcmp, strncmp, strlen: what the results say of memory.
use operating_system_laborat.Base.{
  ℕ, zero, suc, ◌+◌, ◌<◌, ◌≡◌, refl, sym, ap, ◌∙◌, ◌≢◌, ◌↔◌, inl, inr, false, some, arith, ◌==◌,
  Bool-cases,
}
use operating_system_laborat.Bytes.{Mem, memcmp, strncmp, strlen_from, strlen}

-- Every cell holds a byte.
abbrev pub IsBytes : Mem → Type 0
IsBytes m = (a : ℕ) → m a < 256

shift : (m : Mem) (p j : ℕ) → m (p + suc j) ≡ m (p + 1 + j)
shift m p j = ap m (omega arith)

at_zero : (m : Mem) (p : ℕ) → m (p + 0) ≡ m p
at_zero m p = ap m (omega arith)

memcmp_sound :
    (n : ℕ) (m : Mem) (p q : ℕ)
    → IsBytes m
    → memcmp m p q n ≡ 0
    → (i : ℕ) → i < n
    → m (p + i) ≡ m (q + i)
unfolding memcmp
memcmp_sound zero m p q b h i lt = absurd (omega arith)
memcmp_sound (suc n) m p q b h zero lt = at_zero m p ∙ ground (arith, b p, b q) ∙ sym (at_zero m q)
memcmp_sound (suc n) m p q b h (suc i) lt =
    shift m p i
    ∙ memcmp_sound n m (p + 1) (q + 1) b (ground (arith, b p, b q)) i (omega arith)
    ∙ sym (shift m q i)

memcmp_complete :
    (n : ℕ) (m : Mem) (p q : ℕ) → ((i : ℕ) → i < n → m (p + i) ≡ m (q + i)) → memcmp m p q n ≡ 0
unfolding memcmp
memcmp_complete zero m p q h = refl
memcmp_complete (suc n) m p q h = ground (
  arith,
  memcmp_complete n m (p + 1) (q + 1)
      (λ i lt. sym (shift m p i) ∙ h (suc i) (omega arith) ∙ shift m q i),
  h 0,
  at_zero m p,
  at_zero m q,
)

-- `memcmp` returns 0 exactly if the n bytes at the two addresses are the same.
pub memcmp_iff :
    (m : Mem) (p q n : ℕ)
    → IsBytes m
    → (memcmp m p q n ≡ 0) ↔ ((i : ℕ) → i < n → m (p + i) ≡ m (q + i))
memcmp_iff m p q n b = (memcmp_sound n m p q b, memcmp_complete n m p q)

-- The strings at p and q agree in their first n characters, the closing NUL included: at each
-- place that no NUL of p comes before, the bytes are the same.
abbrev pub SamePrefix : Mem → ℕ → ℕ → ℕ → Type 0
SamePrefix m p q n = (i : ℕ) → i < n → ((j : ℕ) → j < i → m (p + j) ≢ 0) → m (p + i) ≡ m (q + i)

strncmp_sound : (n : ℕ) (m : Mem) (p q : ℕ) → IsBytes m → strncmp m p q n ≡ 0 → SamePrefix m p q n
unfolding strncmp
strncmp_sound zero m p q b h i lt nz = absurd (omega arith)
strncmp_sound (suc n) m p q b h zero lt nz =
    at_zero m p ∙ ground (arith, b p, b q) ∙ sym (at_zero m q)
strncmp_sound (suc n) m p q b h (suc i) lt nz =
    shift m p i
    ∙ strncmp_sound n m (p + 1) (q + 1) b (ground (arith, b p, b q, nz 0, at_zero m p)) i
        (omega arith) (λ j lt' e. nz (suc j) (omega arith) (shift m p j ∙ e))
    ∙ sym (shift m q i)

strncmp_complete : (n : ℕ) (m : Mem) (p q : ℕ) → SamePrefix m p q n → strncmp m p q n ≡ 0
unfolding strncmp
strncmp_complete zero m p q h = refl
strncmp_complete (suc n) m p q h = elim (Bool-cases (m p == 0)) [
  | inl e ↦ ground (arith, first)
  | inr e ↦ ground (arith, first, strncmp_complete n m (p + 1) (q + 1) (rest e))
]
  where
    first : m p ≡ m q
    first = sym (at_zero m p) ∙ h 0 (omega arith) (λ j lt. absurd (omega arith)) ∙ at_zero m q

    rest : (m p == 0) ≡ false → SamePrefix m (p + 1) (q + 1) n
    rest e i lt nz = sym (shift m p i) ∙ h (suc i) (omega arith) (before e nz) ∙ shift m q i
      where
        before :
            (m p == 0) ≡ false
            → ((j : ℕ) → j < i → m (p + 1 + j) ≢ 0)
            → (j : ℕ) → j < suc i
            → m (p + j) ≢ 0
        before e nz zero lt' z = ground (arith, at_zero m p)
        before e nz (suc j) lt' z = nz j (omega arith) (sym (shift m p j) ∙ z)

-- `strncmp` returns 0 exactly if the strings agree in their first n characters.
pub strncmp_iff : (m : Mem) (p q n : ℕ) → IsBytes m → (strncmp m p q n ≡ 0) ↔ SamePrefix m p q n
strncmp_iff m p q n b = (strncmp_sound n m p q b, strncmp_complete n m p q)

strlen_from_lem :
    (fuel : ℕ) (m : Mem) (s n k : ℕ)
    → k < fuel
    → ((j : ℕ) → j < k → m (s + n + j) ≢ 0)
    → m (s + n + k) ≡ 0
    → strlen_from fuel m s n ≡ some (n + k)
unfolding strlen_from
strlen_from_lem zero m s n k lt nz z = absurd (omega arith)
strlen_from_lem (suc fuel) m s n zero lt nz z = ground (arith, at_zero m (s + n))
strlen_from_lem (suc fuel) m s n (suc k) lt nz z = ground (
  arith,
  nz 0,
  at_zero m (s + n),
  strlen_from_lem fuel m s (n + 1) k (omega arith)
      (λ j lt' e. nz (suc j) (omega arith) (ap m (omega arith) ∙ e)) (ap m (omega arith) ∙ z),
)

-- With fuel above the length `strlen` returns it: the number of bytes before the first NUL.
pub strlen_lem :
    (fuel : ℕ) (m : Mem) (s k : ℕ)
    → k < fuel
    → ((j : ℕ) → j < k → m (s + j) ≢ 0)
    → m (s + k) ≡ 0
    → strlen fuel m s ≡ some k
unfolding strlen
strlen_lem fuel m s k lt nz z =
    strlen_from_lem fuel m s 0 k lt (λ j lt' e. nz j lt' (ap m (omega arith) ∙ e))
      (ap m (omega arith) ∙ z)
    ∙ ap some (omega arith)
