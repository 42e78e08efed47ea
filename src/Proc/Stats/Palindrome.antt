-- ===== src/Proc/Stats/Palindrome.antt =====
-- What create_palindrome prints.
use native.Mathlib.Decide.{dec_lt}
use operating_system_laborat.Base.{
  ℕ, zero, suc, ◌+◌, ◌-◌, ◌*◌, ◌/◌, ◌%◌, ◌^◌, ◌≤◌, ◌<◌, ◌≡◌, refl, sym, ap, ◌∙◌, subst, ◌≢◌, ◌⊎◌,
  inl, inr, true, false, arith, ◌==◌, Bool-cases, slt, ℕ_discrete,
}
use operating_system_laborat.Bytes.{Mem, update}
use operating_system_laborat.Proc.Stats.{digits_loop, num_str, mirror_loop, create_palindrome}

-- The number that the n digits from index b on write, the lowest digit first.
abbrev pub value : ℕ → ℕ → Mem → ℕ
value b zero str = 0
value b (suc n) str = str b - b'0' + 10 * value (b + 1) n str

-- A number that n digits can write is below this.
abbrev limit : ℕ → ℕ
limit zero = 1
limit (suc n) = 10 * limit n

-- A character from '0' to '9'.
abbrev pub IsDigit : ℕ → Type 0
IsDigit c = (b'0' ≤ c) × (c ≤ b'9')

-- The result r of a search for digits adds the digits of num from index n on, none for 0; the last
-- one is not 0.
record Digits (num n : ℕ) (str : Mem) (r : ℕ × Mem) : Type 0 where
  count : ℕ
  ends : r.0 ≡ n + count
  keeps : (i : ℕ) → i < n → r.1 i ≡ str i
  writes : value n count r.1 ≡ num
  digits : (i : ℕ) → n ≤ i → i < r.0 → IsDigit (r.1 i)
  top : 0 < count → r.1 (r.0 - 1) ≢ b'0'
  some_digit : num ≢ 0 → 0 < count

digits_loop_lem :
    (fuel num n : ℕ) (str : Mem) → num < limit fuel → Digits num n str (digits_loop fuel num n str)
unfolding digits_loop
digits_loop_lem zero num n str h = record {
  count = 0;
  ends = omega arith;
  keeps = λ i lt. refl;
  writes = omega arith;
  digits = λ i le lt. absurd (omega arith);
  top = λ lt. absurd (omega arith);
  some_digit = λ ne. absurd (ne (omega arith));
}
digits_loop_lem (suc fuel) num n str h = elim (Bool-cases (num == 0)) [
  | inl z ↦ rw z (record {
    count = 0;
    ends = omega arith;
    keeps = λ i lt. refl;
    writes = ground arith;
    digits = λ i le lt. absurd (omega arith);
    top = λ lt. absurd (omega arith);
    some_digit = λ ne. absurd (ne (ground arith));
  })
  | inr nz ↦
      let str' : Mem = update str n (num % 10 + b'0') in
      let ih = digits_loop_lem fuel (num / 10) (n + 1) str' (omega arith) in
      let str2 : Mem = (digits_loop fuel (num / 10) (n + 1) str').1 in
      let last : ℕ = (digits_loop fuel (num / 10) (n + 1) str').0 in
      let here : (digits_loop fuel (num / 10) (n + 1) str').1 n ≡ num % 10 + b'0' =
        ground (arith, ih.keeps n (omega arith)) in
      rw nz (record {
        count = suc ih.count;
        ends = omega (arith, ih.ends);
        keeps = λ i lt. ground (arith, ih.keeps i (omega arith));
        writes = omega (arith, ih.writes, here);
        digits = λ i le lt. elim (ℕ_discrete n i) [
          | yes s ↦ subst (λ j. IsDigit (str2 j)) s (omega (arith, here), omega (arith, here))
          | no ne ↦ ih.digits i (omega arith) lt
        ];
        top = λ lt. elim (ℕ_discrete ih.count 0) [
          | yes s ↦
              let at : last - 1 ≡ n = omega (arith, ih.ends) in
              let small : num / 10 ≡ 0 = elim (ℕ_discrete (num / 10) 0) [
                | yes q ↦ q
                | no q ↦ absurd (omega (arith, ih.some_digit q))
              ] in
              let digit : num % 10 ≢ 0 = λ q. ground arith in
              λ q. digit (omega (arith, here, ap str2 (sym at) ∙ q))
          | no ne ↦ ih.top (omega arith)
        ];
        some_digit = λ ne. omega arith;
      })
]

-- The string r writes num in decimal, the lowest digit first: with at least one digit, and no zero
-- above the highest digit.
record Decimal (num : ℕ) (r : ℕ × Mem) : Type 0 where
  writes : value 0 r.0 r.1 ≡ num
  some_digit : 0 < r.0
  digits : (i : ℕ) → i < r.0 → IsDigit (r.1 i)
  top : r.1 (r.0 - 1) ≡ b'0' → r.0 ≡ 1

Digits-Decimal : {num : ℕ} {str : Mem} (r : ℕ × Mem) → num ≢ 0 → Digits num 0 str r → Decimal num r
Digits-Decimal r ne d =
    let same : r.0 ≡ d.count = omega (arith, d.ends) in
    record {
      writes = ap (λ n. value 0 n r.1) same ∙ d.writes;
      some_digit = omega (arith, d.some_digit ne);
      digits = λ i lt. d.digits i (omega arith) lt;
      top = λ z. absurd (d.top (d.some_digit ne) z);
    }

num_str-positive :
    (num : ℕ) (stack : Mem)
    → (num == 0) ≡ false
    → slt 0 num ≡ true
    → num_str num stack ≡ digits_loop 10 num 0 stack
unfolding num_str
num_str-positive num stack nz pos = rw (nz, pos)

num_str-zero :
    (num : ℕ) (stack : Mem) → (num == 0) ≡ true → num_str num stack ≡ (1, update stack 0 b'0')
unfolding num_str
num_str-zero num stack z = rw z

num_str_lem : (num : ℕ) (stack : Mem) → num < 2 ^ 31 → Decimal num (num_str num stack)
num_str_lem num stack h = elim (Bool-cases (num == 0)) [
  | inl z ↦
      let none_left : num ≡ 0 = ground arith in
      rw (num_str-zero num stack z) (record {
        writes = ground arith;
        some_digit = omega arith;
        digits = λ i lt. (ground arith, ground arith);
        top = λ q. refl;
      })
  | inr nz ↦
      rw (num_str-positive num stack nz (ground arith))
        (Digits-Decimal _ (ground arith) (digits_loop_lem 10 num 0 stack (omega arith)))
]

update_self : (m : Mem) (i v : ℕ) → update m i v i ≡ v
update_self m i v = ground arith

update-other : (m : Mem) (i v j : ℕ) → i ≢ j → update m i v j ≡ m j
update-other m i v j h = ground arith

mirror_loop-keeps :
    (m i n : ℕ) (str out : Mem) (j : ℕ)
    → i + m ≡ n
    → (j < i) ⊎ (((n ≤ j) × (j < n + i)) ⊎ (n + n ≤ j))
    → mirror_loop m i n str out j ≡ out j
unfolding mirror_loop
mirror_loop-keeps zero i n str out j h c = refl
mirror_loop-keeps (suc m) i n str out j h c =
    let step : update (update out i (str (n - i - 1))) (n + i) (str i) j ≡ out j = ground arith in
    mirror_loop-keeps m (i + 1) n str _ j (omega arith) (ground arith) ∙ step

-- The loop writes the digits from the highest on, from i to n,
mirror_loop-first :
    (m i n : ℕ) (str out : Mem) (j : ℕ)
    → i + m ≡ n
    → i ≤ j
    → j < n
    → mirror_loop m i n str out j ≡ str (n - j - 1)
unfolding mirror_loop
mirror_loop-first zero i n str out j h le lt = absurd (omega arith)
mirror_loop-first (suc m) i n str out j h le lt = elim (ℕ_discrete i j) [
  | no ne ↦ mirror_loop-first m (i + 1) n str _ j (omega arith) (omega arith) lt
  | yes s ↦
      let step : update (update out i (str (n - i - 1))) (n + i) (str i) j ≡ str (n - j - 1) =
        ground arith in
      mirror_loop-keeps m (i + 1) n str _ j (omega arith) (inl (omega arith)) ∙ step
]

-- and from the lowest on, from n + i to n + n.
mirror_loop-second :
    (m i n : ℕ) (str out : Mem) (j : ℕ)
    → i + m ≡ n
    → n + i ≤ j
    → j < n + n
    → mirror_loop m i n str out j ≡ str (j - n)
unfolding mirror_loop
mirror_loop-second zero i n str out j h le lt = absurd (omega arith)
mirror_loop-second (suc m) i n str out j h le lt = elim (ℕ_discrete (n + i) j) [
  | no ne ↦ mirror_loop-second m (i + 1) n str _ j (omega arith) (omega arith) lt
  | yes s ↦
      let step : update (update out i (str (n - i - 1))) (n + i) (str i) j ≡ str (j - n) =
        ground arith in
      mirror_loop-keeps m (i + 1) n str _ j (omega arith) (inr (inl (omega arith, omega arith)))
      ∙ step
]

-- The n bytes of a buffer from 0 on, the last of them first.
abbrev pub flipped : ℕ → Mem → Mem
flipped n str i = str (n - i - 1)

value-congr :
    (b n : ℕ) (s t : Mem) → ((i : ℕ) → b ≤ i → i < b + n → s i ≡ t i) → value b n s ≡ value b n t
value-congr b zero s t h = refl
value-congr b (suc n) s t h = omega (
  arith,
  h b (omega arith) (omega arith),
  value-congr (b + 1) n s t (λ i le lt. h i (omega arith) (omega arith)),
)

-- For a number that is not negative, `create_palindrome` prints its n decimal digits and the same
-- digits backwards, followed by the terminator: there is at least one digit, all 2 n characters are
-- digits, the first one is 0 only if n is 1, the string reads the same from both ends, and its first
-- half, read from its end on with the lowest digit first, is the number.
pub create_palindrome_lem :
    (num : ℕ) (stack1 stack2 : Mem)
    → num < 2 ^ 31
    → (let (n, out) = create_palindrome num stack1 stack2 in
        (out (2 * n) ≡ 0)
        × (0 < n)
        × ((j : ℕ) → j < 2 * n → IsDigit (out j))
        × (out 0 ≡ b'0' → n ≡ 1)
        × ((j : ℕ) → j < 2 * n → out j ≡ out (2 * n - j - 1))
        × (value 0 n (flipped n out) ≡ num))
unfolding create_palindrome
create_palindrome_lem num stack1 stack2 h = (
  update_self (mirror_loop n 0 n (update str n 0) stack2) (2 * n) 0,
  decimal.some_digit,
  all_digits,
  (λ z.
      decimal.top (
        ap str (let e : n - 1 ≡ n - 0 - 1 = omega arith in e)
        ∙ sym (low 0 decimal.some_digit)
        ∙ z)),
  both,
  first,
)
  where
    decimal : Decimal num (num_str num stack1)
    decimal = num_str_lem num stack1 h

    n : ℕ
    n = (num_str num stack1).0

    str : Mem
    str = (num_str num stack1).1

    out : Mem
    out = (create_palindrome num stack1 stack2).1

    low : (j : ℕ) → j < n → out j ≡ str (n - j - 1)
    low j lt =
        update-other (mirror_loop n 0 n (update str n 0) stack2) (2 * n) 0 j (omega arith)
        ∙ mirror_loop-first n 0 n (update str n 0) stack2 j (omega arith) (omega arith) lt
        ∙ update-other str n 0 (n - j - 1) (omega arith)

    high : (j : ℕ) → n ≤ j → j < n + n → out j ≡ str (j - n)
    high j le lt =
        update-other (mirror_loop n 0 n (update str n 0) stack2) (2 * n) 0 j (omega arith)
        ∙ mirror_loop-second n 0 n (update str n 0) stack2 j (omega arith) (omega arith) lt
        ∙ update-other str n 0 (j - n) (omega arith)

    both : (j : ℕ) → j < 2 * n → out j ≡ out (2 * n - j - 1)
    both j lt = elim (dec_lt j n) [
      | yes l ↦
          low j l ∙ ap str (omega arith) ∙ sym (high (2 * n - j - 1) (omega arith) (omega arith))
      | no l ↦
          high j (omega arith) (omega arith)
          ∙ ap str (omega arith)
          ∙ sym (low (2 * n - j - 1) (omega arith))
    ]

    all_digits : (j : ℕ) → j < 2 * n → IsDigit (out j)
    all_digits j lt = elim (dec_lt j n) [
      | yes l ↦ subst IsDigit (sym (low j l)) (decimal.digits (n - j - 1) (omega arith))
      | no l ↦
          subst IsDigit (sym (high j (omega arith) (omega arith)))
            (decimal.digits (j - n) (omega arith))
    ]

    first : value 0 n (flipped n out) ≡ num
    first =
        value-congr 0 n (flipped n out) str
          (λ i le lt. low (n - i - 1) (omega arith) ∙ ap str (omega arith))
        ∙ decimal.writes
