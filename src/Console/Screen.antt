-- ===== src/Console/Screen.antt =====
-- What the screen shows of the line, as long as it does not scroll.

use mathlib.Core.List.{append-nil}
use operating_system_laborat.Console.History.{History, consoleintr}
use operating_system_laborat.Console.Codes.{codes_of, consoleintr-press_all}
use operating_system_laborat.Base.{
  ℕ, suc, ◌+◌, ◌-◌, ◌*◌, ◌≤◌, ◌<◌, ◌≡◌, refl, sym, ap, ◌∙◌, subst, true, false, ◌&&◌, List, [], ◌∷◌,
  arith, ltb, leb, ◌==◌, if◌then◌else◌, length, ok, ◌>>=◌,
}
use operating_system_laborat.Bytes.{Mem}
use operating_system_laborat.Console.{
  input_buf, Console, backspace_key, left_key, right_key, copy_key, Key, char, erase, left, right,
  copy, press, press_all,
}
use operating_system_laborat.Console.Text.{
  Text, edit, Ahead, Behind, Ahead-moved, Behind-kept, Shows,
}
use operating_system_laborat.Console.Line.{
  Plain, AllPlain, size, edit_all, size-edit, press-Follows,
}
use operating_system_laborat.Console.Cells.{
  cell, cells, length-cells, typed, type_char-typed, consputc-taken, taken_at, typed_low,
  typed_here, typed_high, typed_end,
}

-- Around the cursor stand the cells of the text, and behind it a blank.
pub record Displays (c : Console) (t : Text) : Type 0 where
  pub behind : Behind c.crt c.pos (cells t.0)
  pub ahead : Ahead c.crt c.pos (cells t.1)
  pub blank : c.crt (c.pos + length t.1) ≡ cell b' '

-- The cells before the line.
abbrev Before : ℕ → Console → Console → Type 0
Before start c d = (j : ℕ) → j < start → d.crt j ≡ c.crt j

-- A key does to the screen what it does to the text, and the line starts where it started.
abbrev Draws : Console → Text → Key → Type 0
Draws c t k =
    (d : Console) × (press k c ≡ ok d)
    × Displays d (edit k t)
    × (d.pos + length t.0 ≡ c.pos + length (edit k t).0)
    × Before (c.pos - length t.0) c d

type_char-Draws :
    (c : Console) (ch : ℕ) (bs cs : List ℕ)
    → Shows c (bs, cs)
    → Displays c (bs, cs)
    → Plain (char ch)
    → c.input.e + 1 < input_buf
    → c.pos + 1 < 24 * 80
    → Draws c (bs, cs) (char ch)
unfolding press edit
type_char-Draws c ch bs cs s v p he hp =
    let w = type_char-typed c ch p.0 p.1 he hp in
    let d : Console = w.0 in
    let at : (j : ℕ) → d.crt j ≡ typed c ch j = (λ j. ap (λ (m : Mem). m j) w.2) in
    let back : d.pos - 1 ≡ c.pos = omega (arith, w.3) in
    (
      d,
      w.1,
      record {
        behind = (
          ap d.crt back ∙ at c.pos ∙ typed_here c ch,
          subst (λ q. Behind d.crt q (cells bs)) (sym back)
              (Behind-kept c.crt d.crt c.pos (cells bs) (λ i lt. at i ∙ typed_low c ch i lt)
                (omega (arith, length-cells bs, s.column)) v.behind),
        );
        ahead =
            subst (λ q. Ahead d.crt q (cells cs)) (sym w.3)
              (Ahead-moved c.crt d.crt c.pos (c.pos + 1) (cells cs)
                (λ i lt.
                  at (c.pos + 1 + i) ∙ typed_high c ch i (omega (arith, length-cells cs, s.cursor)))
                v.ahead);
        blank =
            ap d.crt
              (let e : d.pos + length cs ≡ c.pos + 1 + c.lefts = omega (arith, w.3, s.cursor) in e)
            ∙ at (c.pos + 1 + c.lefts)
            ∙ typed_end c ch;
      },
      omega (arith, w.3),
      (λ j lt. at j ∙ typed_low c ch j (omega arith)),
    )

backspace_key-Draws :
    (c : Console) (t : Text) → Shows c t → Displays c t → c.pos < 24 * 80 → Draws c t erase
unfolding press edit backspace_key
backspace_key-Draws c ([], cs) s v hp =
    (c, ground (arith, s.count, s.cursor), v, refl, (λ j lt. refl))
backspace_key-Draws c (b ∷ bs, cs) s v hp =
    let w = consputc-taken c s.fits (omega (arith, s.column)) hp in
    let d : Console = w.0 in
    let go : ltb c.input.w (c.input.e - c.lefts) ≡ true = ground (arith, s.count, s.cursor) in
    let at : (j : ℕ)
        → d.crt j ≡ (
            if j == c.pos - 1 + c.lefts
            then cell b' '
            else if leb (c.pos - 1) j && ltb j (c.pos - 1 + (c.lefts + 1))
            then c.crt (j + 1)
            else c.crt j) =
      (λ j. ap (λ (m : Mem). m j) w.2 ∙ taken_at c j) in
    (
      d,
      rw go w.1,
      record {
        behind =
            subst (λ q. Behind d.crt q (cells bs)) (sym w.3)
              (Behind-kept c.crt d.crt (c.pos - 1) (cells bs) (λ i lt. at i ∙ ground arith)
                (omega (arith, length-cells bs, s.column)) v.behind.1);
        ahead =
            subst (λ q. Ahead d.crt q (cells cs)) (sym w.3)
              (Ahead-moved c.crt d.crt c.pos (c.pos - 1) (cells cs)
                (λ i lt.
                  let e : c.pos - 1 + i + 1 ≡ c.pos + i = omega (arith, s.column) in
                  at (c.pos - 1 + i) ∙ ground (arith, ap c.crt e, length-cells cs, s.cursor))
                v.ahead);
        blank =
            ap d.crt
              (let e : d.pos + length cs ≡ c.pos - 1 + c.lefts = omega (arith, w.3, s.cursor) in e)
            ∙ at (c.pos - 1 + c.lefts)
            ∙ ground arith;
      },
      omega (arith, w.3, s.column),
      (λ j lt. at j ∙ ground arith),
    )

left_key-Draws : (c : Console) (t : Text) → Shows c t → Displays c t → Draws c t left
unfolding press edit left_key
left_key-Draws c ([], cs) s v =
    let stay : ltb c.input.w (c.input.e - c.lefts) ≡ false = ground (arith, s.count, s.cursor) in
    (c, rw stay refl, v, refl, (λ j lt. refl))
left_key-Draws c (b ∷ bs, cs) s v =
    let go : ltb c.input.w (c.input.e - c.lefts) ≡ true = ground (arith, s.count, s.cursor) in
    let near : c.pos - 1 + 1 ≡ c.pos = omega (arith, s.column) in
    let same : c.pos + length cs ≡ c.pos - 1 + suc (length cs) = omega (arith, s.column) in
    (
      record c { pos = c.pos - 1; lefts = c.lefts + 1 },
      rw go refl,
      record {
        behind = v.behind.1;
        ahead = (v.behind.0, subst (λ q. Ahead c.crt q (cells cs)) (sym near) v.ahead);
        blank = ap c.crt (sym same) ∙ v.blank;
      },
      omega (arith, s.column),
      (λ j lt. refl),
    )

right_key-Draws : (c : Console) (t : Text) → Shows c t → Displays c t → Draws c t right
unfolding press edit right_key
right_key-Draws c (bs, []) s v =
    let stay : ltb 0 c.lefts ≡ false = ground (arith, s.cursor) in
    (c, rw stay refl, v, refl, (λ j lt. refl))
right_key-Draws c (bs, x ∷ cs) s v =
    let go : ltb 0 c.lefts ≡ true = ground (arith, s.cursor) in
    let near : c.pos + 1 - 1 ≡ c.pos = omega arith in
    let same : c.pos + suc (length cs) ≡ c.pos + 1 + length cs = omega arith in
    (
      record c { pos = c.pos + 1; lefts = c.lefts - 1 },
      rw go refl,
      record {
        behind =
            (ap c.crt near ∙ v.ahead.0, subst (λ q. Behind c.crt q (cells bs)) (sym near) v.behind);
        ahead = v.ahead.1;
        blank = ap c.crt (sym same) ∙ v.blank;
      },
      omega arith,
      (λ j lt. refl),
    )

press-Draws :
    (k : Key) (c : Console) (t : Text)
    → Shows c t
    → Displays c t
    → Plain k
    → c.input.e + 1 < input_buf
    → c.pos + 1 < 24 * 80
    → Draws c t k
unfolding press edit copy_key
press-Draws (char ch) c (bs, cs) s v p he hp = type_char-Draws c ch bs cs s v p he hp
press-Draws erase c t s v p he hp = backspace_key-Draws c t s v (omega arith)
press-Draws left c t s v p he hp = left_key-Draws c t s v
press-Draws right c t s v p he hp = right_key-Draws c t s v
press-Draws copy c t s v p he hp = (
  copy_key c,
  refl,
  record { behind = v.behind; ahead = v.ahead; blank = v.blank },
  refl,
  (λ j lt. refl),
)

same_console : (c d : Console) → ok c ≡ ok d → c ≡ d
same_console c d e = cc

-- The keys draw on the screen what they do to the text.
pub press_all-Draws :
    (ks : List Key) (c : Console) (t : Text)
    → Shows c t
    → Displays c t
    → AllPlain ks
    → c.input.e + length ks < input_buf
    → size t + length ks ≤ 80
    → c.pos + c.lefts + length ks < 24 * 80
    → (d : Console) × (press_all ks c ≡ ok d)
      × Displays d (edit_all ks t)
      × (d.pos + length t.0 ≡ c.pos + length (edit_all ks t).0)
      × Before (c.pos - length t.0) c d
unfolding press_all
press_all-Draws [] c t s v p he short hp = (c, refl, v, refl, (λ j lt. refl))
press_all-Draws (k ∷ ks) c t s v p he short hp =
    let w = press-Follows k c t s p.0 (omega arith) (omega arith) in
    let x = press-Draws k c t s v p.0 (omega arith) (omega arith) in
    let d : Console = x.0 in
    let same : w.0 ≡ d = same_console w.0 d (sym w.1 ∙ x.1) in
    let s' : Shows d (edit k t) = subst (λ b. Shows b (edit k t)) same w.2 in
    let e' : d.input.e ≤ c.input.e + 1 =
      subst (λ (b : Console). b.input.e ≤ c.input.e + 1) same w.4 in
    let y =
      press_all-Draws ks d (edit k t) s' x.2 p.1 (omega (arith, e')) (omega (arith, size-edit k t))
        (omega (arith, x.3, size-edit k t, s.cursor, s.column, s'.cursor)) in
    (
      y.0,
      ap (λ m. m >>= λ b. press_all ks b) x.1 ∙ y.1,
      y.2,
      omega (arith, x.3, y.3),
      (λ j lt. y.4 j (omega (arith, x.3, s.column, s'.column)) ∙ x.4 j lt),
    )

-- What the line looks like on the screen: while the buffer has room for every key, the line stays
-- below 80 characters and the screen does not scroll, the codes of any keys that type characters,
-- erase, move left and right or copy make `consoleintr` draw the text that the keys make: its
-- characters stand in grey on black around the cursor, with a blank behind them; the line starts
-- where it started, and the cells before it stay. The characters typed are none that end the line or
-- have a meaning of their own to `consoleintr`, and neither ^F nor ?.
pub consoleintr-Displays :
    (ks : List Key) (h : History) (c : Console) (t : Text)
    → Shows c t
    → Displays c t
    → AllPlain ks
    → c.input.e + length ks < input_buf
    → size t + length ks ≤ 80
    → c.pos + c.lefts + length ks < 24 * 80
    → (d : Console) × (consoleintr (codes_of ks) h c ≡ ok (h, d))
      × Displays d (edit_all ks t)
      × (d.pos + length t.0 ≡ c.pos + length (edit_all ks t).0)
      × ((j : ℕ) → j < c.pos - length t.0 → d.crt j ≡ c.crt j)
unfolding consoleintr
consoleintr-Displays ks h c t s v p room short fits =
    let x = press_all-Draws ks c t s v p room short fits in
    let run = consoleintr-press_all ks [] h c x.0 t s p room short x.1 in
    (x.0, ap (λ l. consoleintr l h c) (sym (append-nil (codes_of ks))) ∙ run, x.2, x.3, x.4)
