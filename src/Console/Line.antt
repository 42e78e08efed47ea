-- ===== src/Console/Line.antt =====
-- The line editor against a text with a cursor.
use operating_system_laborat.Base.{
  ℕ, ◌+◌, ◌-◌, ◌≤◌, ◌<◌, ◌≡◌, refl, sym, ap, ◌∙◌, subst, ◌≢◌, true, false, ◌&&◌, List, [], ◌∷◌,
  arith, ltb, leb, ◌==◌, if◌then◌else◌, length, ok,
}
use operating_system_laborat.Bytes.{Mem}
use operating_system_laborat.Console.{
  input_buf, backspace, newline, end_of_file, Console, type_char, backspace_key, left_key,
  right_key, copy_key, Key, char, erase, left, right, copy, press, press_all,
}
use operating_system_laborat.Console.History.{is_case}
use operating_system_laborat.Console.Text.{
  Unread, Text, edit, Ahead, Behind, Ahead-moved, Behind-kept, Shows, Same,
}
use operating_system_laborat.Console.Moves.{inserted, deleted}

after_gap :
    (p i e ch : ℕ) (b : Mem)
    → p + 1 + i ≤ e + 1
    → (if (p + 1 + i) == p
        then ch
        else if ltb p (p + 1 + i) && leb (p + 1 + i) (e + 1)
        then b (p + 1 + i - 1)
        else b (p + 1 + i))
      ≡ b (p + i)
after_gap p i e ch b h =
    let at : b (p + 1 + i - 1) ≡ b (p + i) = ap b (omega arith) in ground (arith, at)

after_hole :
    (p i : ℕ) (b : Mem)
    → 0 < p
    → (if ltb (p - 1 + i) (p - 1) then b (p - 1 + i) else b (p - 1 + i + 1)) ≡ b (p + i)
after_hole p i b h =
    let at : b (p - 1 + i + 1) ≡ b (p + i) = ap b (omega arith) in ground (arith, at)

type_char-Shows :
    (c : Console) (ch : ℕ) (bs cs : List ℕ)
    → Shows c (bs, cs)
    → ch ≢ newline
    → ch ≢ backspace
    → c.input.e + 1 < input_buf
    → length bs + length cs < 80
    → (d : Console) × (type_char ch c ≡ ok d)
      × Shows d (ch ∷ bs, cs)
      × Same c d
      × (d.input.e ≤ c.input.e + 1)
      × Unread c d
type_char-Shows c ch bs cs s hn hb he short =
    let w = inserted c ch hn hb he (omega (arith, s.count, s.cursor)) (omega (arith, s.row)) in
    let d : Console = w.0 in
    let p : ℕ = c.input.e - c.lefts in
    let place : p + length cs ≡ c.input.e = omega (arith, s.count, s.cursor) in
    let next : d.input.e - d.lefts ≡ p + 1 = omega (arith, w.3, w.4, s.cursor) in
    let back : d.input.e - d.lefts - 1 ≡ p = omega arith in
    (
      d,
      w.1,
      record {
        behind = (
          ap d.input.buf back ∙ w.2 p ∙ ground arith,
          subst (λ q. Behind d.input.buf q bs) (sym back)
              (Behind-kept c.input.buf d.input.buf p bs (λ i lt. w.2 i ∙ ground arith)
                (omega (arith, s.count)) s.behind),
        );
        ahead =
            subst (λ q. Ahead d.input.buf q cs) (sym next)
              (Ahead-moved c.input.buf d.input.buf p (p + 1) cs
                (λ i lt. w.2 (p + 1 + i) ∙ after_gap p i c.input.e ch c.input.buf (omega arith))
                s.ahead);
        count = omega (arith, s.count, w.3, w.5);
        cursor = w.4 ∙ s.cursor;
        fits = omega (arith, w.3);
        row = omega (arith, w.6, s.row);
        column = omega (arith, s.column, w.7, s.count, s.fits);
      },
      w.5,
      omega (arith, w.3),
      (λ i lt. w.2 i ∙ ground (arith, s.count, s.cursor)),
    )

pub backspace_key-Shows :
    (c : Console) (t : Text)
    → Shows c t
    → length t.0 + length t.1 ≤ 80
    → (d : Console) × (backspace_key c ≡ ok d)
      × Shows d (edit erase t)
      × Same c d
      × (d.input.e ≤ c.input.e)
      × Unread c d
unfolding backspace_key edit
backspace_key-Shows c ([], cs) s short =
    (c, ground (arith, s.count, s.cursor), s, (refl, refl), omega arith, (λ i lt. refl))
backspace_key-Shows c (b ∷ bs, cs) s short =
    let w =
      deleted c s.fits (omega (arith, s.count, s.cursor)) (omega (arith, s.column))
        (omega (arith, s.row)) in
    let d : Console = w.0 in
    let p : ℕ = c.input.e - c.lefts in
    let place : p + length cs ≡ c.input.e = omega (arith, s.count, s.cursor) in
    let back : d.input.e - d.lefts ≡ p - 1 = omega (arith, w.3, w.4, s.cursor) in
    let go : ltb c.input.w p ≡ true = ground (arith, s.count, s.cursor) in
    (
      d,
      rw go w.1,
      record {
        behind =
            subst (λ q. Behind d.input.buf q bs) (sym back)
              (Behind-kept c.input.buf d.input.buf (p - 1) bs
                (λ i lt. w.2 i (omega arith) ∙ ground arith) (omega (arith, s.count)) (s.behind.1));
        ahead =
            subst (λ q. Ahead d.input.buf q cs) (sym back)
              (Ahead-moved c.input.buf d.input.buf p (p - 1) cs
                (λ i lt.
                  w.2 (p - 1 + i) (omega (arith, s.count, s.cursor))
                  ∙ after_hole p i c.input.buf (omega (arith, s.count)))
                s.ahead);
        count = omega (arith, s.count, w.3, w.5);
        cursor = w.4 ∙ s.cursor;
        fits = omega (arith, w.3, s.fits);
        row = omega (arith, w.6, s.row);
        column = omega (arith, s.column, w.7, s.count, s.fits);
      },
      w.5,
      omega (arith, w.3),
      (λ i lt. w.2 i (omega (arith, s.count, s.cursor)) ∙ ground (arith, s.count, s.cursor)),
    )

left_key-Shows : (c : Console) (t : Text) → Shows c t → Shows (left_key c) (edit left t)
unfolding left_key edit
left_key-Shows c ([], cs) s =
    let stay : ltb c.input.w (c.input.e - c.lefts) ≡ false = ground (arith, s.count, s.cursor) in
    rw stay s
left_key-Shows c (b ∷ bs, cs) s =
    let go : ltb c.input.w (c.input.e - c.lefts) ≡ true = ground (arith, s.count, s.cursor) in
    let p : ℕ = c.input.e - c.lefts in
    let back : c.input.e - (c.lefts + 1) ≡ p - 1 = omega arith in
    let near : p - 1 + 1 ≡ p = omega (arith, s.count, s.cursor) in
    rw go (record {
      behind = subst (λ q. Behind c.input.buf q bs) (sym back) (s.behind.1);
      ahead =
          subst (λ q. Ahead c.input.buf q (b ∷ cs)) (sym back)
            (s.behind.0, subst (λ q. Ahead c.input.buf q cs) (sym near) s.ahead);
      count = omega (arith, s.count);
      cursor = omega (arith, s.cursor);
      fits = s.fits;
      row = omega (arith, s.row);
      column = omega (arith, s.column);
    })

pub right_key-Shows : (c : Console) (t : Text) → Shows c t → Shows (right_key c) (edit right t)
unfolding right_key edit
right_key-Shows c (bs, []) s =
    let stay : ltb 0 c.lefts ≡ false = ground (arith, s.cursor) in rw stay s
right_key-Shows c (bs, x ∷ cs) s =
    let go : ltb 0 c.lefts ≡ true = ground (arith, s.cursor) in
    let p : ℕ = c.input.e - c.lefts in
    let next : c.input.e - (c.lefts - 1) ≡ p + 1 = omega (arith, s.count, s.cursor) in
    let near : p + 1 - 1 ≡ p = omega arith in
    rw go (record {
      behind =
          subst (λ q. Behind c.input.buf q (x ∷ bs)) (sym next)
            (
              ap c.input.buf near ∙ s.ahead.0,
              subst (λ q. Behind c.input.buf q bs) (sym near) s.behind,
            );
      ahead = subst (λ q. Ahead c.input.buf q cs) (sym next) (s.ahead.1);
      count = omega (arith, s.count);
      cursor = omega (arith, s.cursor);
      fits = s.fits;
      row = omega (arith, s.row);
      column = omega (arith, s.column);
    })

copy_key-Shows : (c : Console) (t : Text) → Shows c t → Shows (copy_key c) (edit copy t)
unfolding copy_key edit
copy_key-Shows c t s = record {
  behind = s.behind;
  ahead = s.ahead;
  count = s.count;
  cursor = s.cursor;
  fits = s.fits;
  row = s.row;
  column = s.column;
}

-- A key that types a character or moves in the line. A typed character is not one that ends the line
-- or has a meaning of its own.
abbrev pub Plain : Key → Type 0
Plain (char ch) =
    (ch ≢ newline)
    × (ch ≢ backspace)
    × (ch ≢ end_of_file)
    × (ch ≢ 0)
    × (ch ≢ 13)
    × (is_case ch ≡ false)
    × (ch ≢ 6)
    × (ch ≢ b'?')
Plain erase = Unit
Plain left = Unit
Plain right = Unit
Plain copy = Unit

abbrev pub size : Text → ℕ
size t = length t.0 + length t.1

-- A key does to the console what it does to the text.
abbrev Follows : Console → Text → Key → Type 0
Follows c t k =
    (d : Console) × (press k c ≡ ok d)
    × Shows d (edit k t)
    × Same c d
    × (d.input.e ≤ c.input.e + 1)
    × Unread c d

pub size-edit : (k : Key) (t : Text) → size (edit k t) ≤ size t + 1
unfolding edit
size-edit (char ch) (bs, cs) = omega arith
size-edit erase ([], cs) = omega arith
size-edit erase (b ∷ bs, cs) = omega arith
size-edit left ([], cs) = omega arith
size-edit left (b ∷ bs, cs) = omega arith
size-edit right (bs, []) = omega arith
size-edit right (bs, c ∷ cs) = omega arith
size-edit copy t = omega arith

pub press-Follows :
    (k : Key) (c : Console) (t : Text)
    → Shows c t
    → Plain k
    → c.input.e + 1 < input_buf
    → size t < 80
    → Follows c t k
unfolding press edit left_key right_key copy_key
press-Follows (char ch) c (bs, cs) s h he short = type_char-Shows c ch bs cs s h.0 h.1 he short
press-Follows erase c t s h he short =
    let w = backspace_key-Shows c t s (omega arith) in (w.0, w.1, w.2, w.3, omega (arith, w.4), w.5)
press-Follows left c t s h he short =
    (left_key c, refl, left_key-Shows c t s, ground arith, ground arith, λ i lt. ground arith)
press-Follows right c t s h he short =
    (right_key c, refl, right_key-Shows c t s, ground arith, ground arith, λ i lt. ground arith)
press-Follows copy c t s h he short =
    (copy_key c, refl, copy_key-Shows c t s, (refl, refl), omega arith, λ i lt. refl)

abbrev pub edit_all : List Key → Text → Text
edit_all [] t = t
edit_all (k ∷ ks) t = edit_all ks (edit k t)

pub size-edit_all : (ks : List Key) (t : Text) → size (edit_all ks t) ≤ size t + length ks
size-edit_all [] t = omega arith
size-edit_all (k ∷ ks) t = omega (arith, size-edit_all ks (edit k t), size-edit k t)

abbrev pub AllPlain : List Key → Type 0
AllPlain [] = Unit
AllPlain (k ∷ ks) = Plain k × AllPlain ks

-- The line editor refines a text with a cursor: while the buffer has room for every key and the line
-- stays below 80 characters, any keys that type characters, erase, move left and right or copy do to
-- the console, without a panic, exactly what they do to the text. The indices r and w stay as they
-- are.
pub press_all-refines :
    (ks : List Key) (c : Console) (t : Text)
    → Shows c t
    → AllPlain ks
    → c.input.e + length ks < input_buf
    → size t + length ks ≤ 80
    → (d : Console) × (press_all ks c ≡ ok d)
      × Shows d (edit_all ks t)
      × (d.input.w ≡ c.input.w)
      × (d.input.r ≡ c.input.r)
      × (d.input.e ≤ c.input.e + length ks)
      × Unread c d
unfolding press_all
press_all-refines [] c t s h he short = (c, refl, s, refl, refl, omega arith, (λ i lt. refl))
press_all-refines (k ∷ ks) c t s h he short =
    let w = press-Follows k c t s (h.0) (omega arith) (omega arith) in
    let v =
      press_all-refines ks w.0 (edit k t) w.2 (h.1) (omega (arith, w.4))
        (omega (arith, size-edit k t)) in
    (
      v.0,
      rw w.1 v.1,
      v.2,
      v.3 ∙ w.3.0,
      v.4 ∙ w.3.1,
      omega (arith, v.5, w.4),
      (λ i lt. v.6 i (omega (arith, w.3.0)) ∙ w.5 i lt),
    )
