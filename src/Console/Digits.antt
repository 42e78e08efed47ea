-- ===== src/Console/Digits.antt =====
-- What printint prints.
use native.Mathlib.Nat.{div-lt_iff_lt-mul, pow-suc, pow-zero}
use native.Mathlib.Decide.{dec_lt}
use operating_system_laborat.Base.{
  ℕ, zero, suc, ◌+◌, ◌-◌, ◌*◌, ◌/◌, ◌%◌, ◌^◌, ◌≤◌, ◌<◌, ◌≡◌, refl, sym, ap, ◌∙◌, subst, ◌≢◌, ◌⊎◌,
  inl, inr, true, false, List, [], ◌∷◌, arith, ltb, leb, ◌==◌, if◌then◌else◌, Bool-cases, length,
  sub32, slt, Outcome, ok, fault, ◌>>=◌, ℕ_discrete,
}
use operating_system_laborat.Console.Print.{digit, digits_of, put_sign, printint}

-- The value of a digit, and of digits behind the number n.
abbrev digit_value : ℕ → ℕ
digit_value c = if ltb c 58 then c - 48 else c - 87

abbrev pub value : ℕ → ℕ → List ℕ → ℕ
value base n [] = n
value base n (c ∷ cs) = value base (n * base + digit_value c) cs

digit_value-digit : (d : ℕ) → d < 16 → digit_value (digit d) ≡ d
digit_value-digit d h = ground arith

-- Each byte is '0' to '9' or 'a' to 'f', and stands for a number below the base.
abbrev pub IsDigit : ℕ → ℕ → Type 0
IsDigit base c = (digit_value c < base) × (((b'0' ≤ c) × (c ≤ b'9')) ⊎ ((b'a' ≤ c) × (c ≤ b'f')))

abbrev pub Digits : ℕ → List ℕ → Type 0
Digits base [] = Unit
Digits base (c ∷ cs) = IsDigit base c × Digits base cs

digit-IsDigit : (base d : ℕ) → d < base → base ≤ 16 → IsDigit base (digit d)
digit-IsDigit base d h g = ground arith

-- The result r of the digits of x, with this many places left.
abbrev Writes : ℕ → ℕ → ℕ → List ℕ → Outcome (List ℕ) → Type 0
Writes room base x out r =
    (ds : List ℕ) × (r ≡ ok ds)
    × (value base 0 ds ≡ value base x out)
    × Digits base ds
    × (length out < length ds)
    × (length ds ≤ length out + room)

quotient-below : (base room x : ℕ) → 2 ≤ base → x < base ^ suc room → x / base < base ^ room
quotient-below base room x h lt =
    (div-lt_iff_lt-mul {k = base} {x = x} {y = base ^ room} (omega arith)).1
      (subst (λ n. x < n) (pow-suc base room) lt)

quotient-above : (base room x : ℕ) → 2 ≤ base → base ^ suc room ≤ x → base ^ room ≤ x / base
quotient-above base room x h le = elim (dec_lt (x / base) (base ^ room)) [
  | no n ↦ omega arith
  | yes lt ↦
      let back =
        subst (λ n. x < n) (sym (pow-suc base room))
          ((div-lt_iff_lt-mul {k = base} {x = x} {y = base ^ room} (omega arith)).0 lt) in
      absurd (omega (arith, back, le))
]

pow_positive : (base n : ℕ) → 0 < base → 0 < base ^ n
pow_positive base zero h = subst (λ k. 0 < k) (sym (pow-zero base)) (omega arith)
pow_positive base (suc n) h =
    subst (λ k. 0 < k) (sym (pow-suc base n)) (grind (arith, pow_positive base n h))

pow_grows : (base n : ℕ) → 0 < base → base ^ n ≤ base ^ suc n
pow_grows base n h = subst (λ k. base ^ n ≤ k) (sym (pow-suc base n)) (grind arith)

has_room : (base y n : ℕ) → y ≢ 0 → y < base ^ n → 0 < n
has_room base y zero ne h = absurd (omega (arith, pow-zero base))
has_room base y (suc n) ne h = omega arith

digits_of-Writes :
    (room base x : ℕ) (out : List ℕ)
    → 2 ≤ base
    → base ≤ 16
    → Digits base out
    → x < base ^ room
    → 0 < room
    → Writes room base x out (digits_of room base x out)
unfolding digits_of
digits_of-Writes zero base x out h g a b p = absurd (omega arith)
digits_of-Writes (suc room) base x out h g a b p =
    let small : x % base < base = grind arith in
    let low : digit_value (digit (x % base)) ≡ x % base =
      digit_value-digit (x % base) (omega arith) in
    let whole : x / base * base + digit_value (digit (x % base)) ≡ x = grind (arith, low) in
    let good = digit-IsDigit base (x % base) small g in
    elim (ℕ_discrete (x / base) 0) [
      | yes e ↦
          let done : (x / base == 0) ≡ true = ground (arith, e) in
          (
            digit (x % base) ∷ out,
            rw done refl,
            ap (λ n. value base n out) (grind (arith, low, whole, e)),
            (good, a),
            omega arith,
            omega arith,
          )
      | no ne ↦
          let more : (x / base == 0) ≡ false = ground (arith, ne) in
          let some_room : 0 < room =
            has_room base (x / base) room ne (quotient-below base room x h b) in
          let ih =
            digits_of-Writes room base (x / base) (digit (x % base) ∷ out) h g (good, a)
              (quotient-below base room x h b) some_room in
          (
            ih.0,
            rw more ih.1,
            ih.2 ∙ ap (λ n. value base n out) whole,
            ih.3,
            omega (arith, ih.4),
            omega (arith, ih.5),
          )
    ]

no_place : (base x : ℕ) (out ds : List ℕ) → digits_of zero base x out ≡ ok ds → ⊥
unfolding digits_of
no_place base x out ds h = ground arith

same_digits : (ds es : List ℕ) → ok ds ≡ ok es → ds ≡ es
same_digits ds es h = cc

digits_of-full :
    (room base x : ℕ) (out : List ℕ)
    → 2 ≤ base
    → base ^ room ≤ x
    → digits_of room base x out ≡ fault
unfolding digits_of
digits_of-full zero base x out h b = refl
digits_of-full (suc room) base x out h b =
    let le = quotient-above base room x h b in
    let more : (x / base == 0) ≡ false = ground (arith, le, pow_positive base room (omega arith)) in
    rw more (digits_of-full room base (x / base) (digit (x % base) ∷ out) h le)

last_digit :
    (room base x : ℕ) (out : List ℕ)
    → (x / base == 0) ≡ true
    → digits_of (suc room) base x out ≡ ok (digit (x % base) ∷ out)
unfolding digits_of
last_digit room base x out e = rw e refl

next_digit :
    (room base x : ℕ) (out : List ℕ)
    → (x / base == 0) ≡ false
    → digits_of (suc room) base x out ≡ digits_of room base (x / base) (digit (x % base) ∷ out)
unfolding digits_of
next_digit room base x out e = rw e refl

-- More places than are needed change nothing.
digits_of-more :
    (room base x : ℕ) (out ds : List ℕ)
    → digits_of room base x out ≡ ok ds
    → digits_of (suc room) base x out ≡ ok ds
digits_of-more zero base x out ds h = absurd (no_place base x out ds h)
digits_of-more (suc room) base x out ds h = elim (Bool-cases (x / base == 0)) [
  | inl e ↦ last_digit (suc room) base x out e ∙ sym (last_digit room base x out e) ∙ h
  | inr e ↦
      next_digit (suc room) base x out e
      ∙ digits_of-more room base (x / base) (digit (x % base) ∷ out) ds
          (sym (next_digit room base x out e) ∙ h)
]

-- A number has more than k digits if it is not below base ^ k.
digits_of-length :
    (room base x k : ℕ) (out ds : List ℕ)
    → 2 ≤ base
    → digits_of room base x out ≡ ok ds
    → base ^ k ≤ x
    → length out + k < length ds
digits_of-length zero base x k out ds g h le = absurd (no_place base x out ds h)
digits_of-length (suc room) base x zero out ds g h le = elim (Bool-cases (x / base == 0)) [
  | inl e ↦
      let same : digit (x % base) ∷ out ≡ ds =
        same_digits (digit (x % base) ∷ out) ds (sym (last_digit room base x out e) ∙ h) in
      omega (arith, ap length same)
  | inr e ↦
      let rest = sym (next_digit room base x out e) ∙ h in
      let more : base ^ 0 ≤ x / base = ground (arith, pow-zero base) in
      omega
        (arith, digits_of-length room base (x / base) zero (digit (x % base) ∷ out) ds g rest more)
]
digits_of-length (suc room) base x (suc k) out ds g h le =
    let above = quotient-above base k x g le in
    let e : (x / base == 0) ≡ false = ground (arith, above, pow_positive base k (omega arith)) in
    let rest = sym (next_digit room base x out e) ∙ h in
    omega (arith, digits_of-length room base (x / base) k (digit (x % base) ∷ out) ds g rest above)

-- The bytes ds write x in this base.
abbrev pub Numeral : ℕ → ℕ → List ℕ → Type 0
Numeral base x ds = (value base 0 ds ≡ x) × Digits base ds × (0 < length ds)

put_sign-room : (ds : List ℕ) → length ds ≤ 15 → put_sign ds ≡ ok (b'-' ∷ ds)
unfolding put_sign
put_sign-room ds h = let e : leb 16 (length ds) ≡ false = ground arith in rw e refl

put_sign-full : (ds : List ℕ) → 15 < length ds → put_sign ds ≡ fault
unfolding put_sign
put_sign-full ds h = let e : leb 16 (length ds) ≡ true = ground arith in rw e refl

signed-room :
    (base x : ℕ)
    → 2 ≤ base
    → base ≤ 16
    → x < base ^ 15
    → (ds : List ℕ) × ((digits_of 16 base x [] >>= put_sign) ≡ ok (b'-' ∷ ds)) × Numeral base x ds
signed-room base x h g lt =
    let w = digits_of-Writes 15 base x [] h g tt lt (omega arith) in
    (
      w.0,
      ap (λ r. r >>= put_sign) (digits_of-more 15 base x [] w.0 w.1)
          ∙ put_sign-room w.0 (omega (arith, w.5)),
      (w.2, w.3, omega (arith, w.4)),
    )

signed-full :
    (base x : ℕ)
    → 2 ≤ base
    → base ≤ 16
    → base ^ 15 ≤ x
    → (digits_of 16 base x [] >>= put_sign) ≡ fault
signed-full base x h g le = elim (dec_lt x (base ^ 16)) [
  | no n ↦ ap (λ r. r >>= put_sign) (digits_of-full 16 base x [] h (omega arith))
  | yes lt ↦
      let w = digits_of-Writes 16 base x [] h g tt lt (omega arith) in
      ap (λ r. r >>= put_sign) w.1
      ∙ put_sign-full w.0 (omega (arith, digits_of-length 16 base x 15 [] w.0 h w.1 le))
]

-- What `printint` does with a 32-bit word, in a base from 2 to 16. A word below base ^ 16 is printed
-- as digits of this base, at least one, that read back as the word; for a larger one, which only
-- bases 2 and 3 have, a digit is written outside of the array of 16 places. A signed word that is
-- not negative is printed like an unsigned one. A negative one is printed as a minus sign and the
-- digits of its size if this is below base ^ 15; else the sign or a digit is written outside of the
-- array.
pub printint_lem :
    (x base : ℕ)
    → x < 2 ^ 32
    → 2 ≤ base
    → base ≤ 16
    → (x < base ^ 16 → (ds : List ℕ) × (printint x base false ≡ ok ds) × Numeral base x ds)
      × (base ^ 16 ≤ x → printint x base false ≡ fault)
      × (slt x 0 ≡ false → printint x base true ≡ printint x base false)
      × (slt x 0 ≡ true
          → 2 ^ 32 - x < base ^ 15
          → (ds : List ℕ) × (printint x base true ≡ ok (b'-' ∷ ds)) × Numeral base (2 ^ 32 - x) ds)
      × (slt x 0 ≡ true → base ^ 15 ≤ 2 ^ 32 - x → printint x base true ≡ fault)
unfolding printint
printint_lem x base h lo hi =
    let size : slt x 0 ≡ true → sub32 0 x ≡ 2 ^ 32 - x = (λ e. ground arith) in
    (
      (λ lt.
          let w = digits_of-Writes 16 base x [] lo hi tt lt (omega arith) in
          (w.0, w.1, (w.2, w.3, omega (arith, w.4)))),
      (λ le. digits_of-full 16 base x [] lo le),
      (λ e. rw e refl),
      (λ e lt. let w = signed-room base (2 ^ 32 - x) lo hi lt in (w.0, rw (e, size e) w.1, w.2)),
      λ e le. rw (e, size e) (signed-full base (2 ^ 32 - x) lo hi le),
    )
