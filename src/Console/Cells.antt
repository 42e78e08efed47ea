-- ===== src/Console/Cells.antt =====
-- The cells of the screen after a character is put or taken away, as long as the screen does not scroll.
use operating_system_laborat.Base.{
  ℕ, suc, ◌+◌, ◌-◌, ◌*◌, ◌/◌, ◌%◌, ◌<◌, ◌≡◌, refl, ap, ◌∙◌, ◌≢◌, true, false, ◌&&◌, List, [], ◌∷◌,
  arith, ltb, leb, ◌==◌, if◌then◌else◌, length, ok,
}
use operating_system_laborat.Bytes.{Mem, update}
use operating_system_laborat.Console.{
  input_buf, backspace, newline, Console, Input, settle, cgaputc, consputc, shift_up, shift_down,
  shift_left_next_chars, shift_right_next_chars, type_char,
}
use operating_system_laborat.Console.Shift.{shift_down_lem, shift_up_lem}
use operating_system_laborat.Console.Moves.{stored, type_char-stored}

-- The cell of a character: its byte and its colours, light grey on black.
abbrev pub cell : ℕ → ℕ
cell ch = ch % 256 + 0x700

abbrev pub cells : List ℕ → List ℕ
cells [] = []
cells (c ∷ cs) = cell c ∷ cells cs

pub length-cells : (cs : List ℕ) → length (cells cs) ≡ length cs
length-cells [] = refl
length-cells (c ∷ cs) = ap suc (length-cells cs)

settle_calm :
    (c : Console)
    → c.pos < 24 * 80
    → settle c ≡ ok (record c { crt = update c.crt (c.pos + c.lefts) (cell b' ') })
unfolding settle
settle_calm c h =
    let calm : ltb (25 * 80) c.pos ≡ false = ground arith in
    let stay : leb 24 (c.pos / 80) ≡ false = ground arith in rw (calm, stay) refl

update_self : (m : Mem) (i v : ℕ) → update m i v i ≡ v
update_self m i v = ground arith

-- The cells after a character is put at the cursor.
abbrev pub typed : Console → ℕ → Mem
typed c ch =
    update (update (shift_up c.crt c.pos c.lefts) c.pos (cell ch)) (c.pos + 1 + c.lefts) (cell b' ')

pub type_char-typed :
    (c : Console) (ch : ℕ)
    → ch ≢ newline
    → ch ≢ backspace
    → c.input.e + 1 < input_buf
    → c.pos + 1 < 24 * 80
    → (d : Console) × (type_char ch c ≡ ok d)
      × (d.crt ≡ typed c ch)
      × (d.pos ≡ c.pos + 1)
      × (d.lefts ≡ c.lefts)
unfolding consputc cgaputc shift_right_next_chars
type_char-typed c ch hn hb he hp =
    let i : Input = record c.input {
      buf = shift_up c.input.buf (c.input.e - c.lefts) (c.lefts + 1);
      buf_copy = shift_up c.input.buf_copy (c.input.e - c.lefts) (c.lefts + 1);
    } in
    let s : Console = record c {
      crt = update (shift_up c.crt c.pos c.lefts) c.pos (cell ch);
      pos = c.pos + 1;
      input = i;
    } in
    let d : Console = record c { crt = typed c ch; pos = c.pos + 1; input = i } in
    let n1 : (ch == newline) ≡ false = ground arith in
    let n2 : (ch == backspace) ≡ false = ground arith in
    let n3 : leb input_buf (c.input.e + 1) ≡ false = ground arith in
    let put : consputc ch c ≡ ok d = rw (n2, n1, n3) (settle_calm s hp) in
    (stored ch d, type_char-stored ch c d put, refl, refl, refl)

-- The cells after the character before the cursor is taken away.
abbrev pub taken : Console → Mem
taken c = update (shift_down c.crt (c.pos - 1) (c.lefts + 1)) (c.pos - 1 + c.lefts) (cell b' ')

pub consputc-taken :
    (c : Console)
    → c.input.e < input_buf
    → 0 < c.pos
    → c.pos < 24 * 80
    → (d : Console) × (consputc backspace c ≡ ok d)
      × (d.crt ≡ taken c)
      × (d.pos ≡ c.pos - 1)
      × (d.lefts ≡ c.lefts)
unfolding consputc cgaputc shift_left_next_chars
consputc-taken c he h0 hp =
    let j : ℕ = c.input.e - 1 in
    let i : Input = record c.input {
      e = j;
      buf = shift_down (update c.input.buf ((j - c.lefts) % input_buf) 0) (j - c.lefts) c.lefts;
      buf_copy =
          shift_down (update c.input.buf_copy ((j - c.lefts) % input_buf) 0) (j - c.lefts) c.lefts;
    } in
    let s : Console = record c {
      crt = shift_down c.crt (c.pos - 1) (c.lefts + 1);
      pos = c.pos - 1;
      input = i;
    } in
    let n1 : (c.pos == 0) ≡ false = ground arith in
    let n2 : leb input_buf (c.input.e - 1) ≡ false = ground arith in
    let n3 : (ltb 0 c.lefts && false) ≡ false = ground arith in
    (record s { crt = taken c }, rw (n1, n2, n3) (settle_calm s (omega arith)), refl, refl, refl)

typed_at :
    (c : Console) (ch j : ℕ)
    → typed c ch j ≡ (
        if j == c.pos + 1 + c.lefts
        then cell b' '
        else if j == c.pos
        then cell ch
        else if ltb c.pos j && leb j (c.pos + c.lefts)
        then c.crt (j - 1)
        else c.crt j)
typed_at c ch j = ground (arith, shift_up_lem c.lefts c.crt c.pos j)

pub typed_low : (c : Console) (ch j : ℕ) → j < c.pos → typed c ch j ≡ c.crt j
typed_low c ch j h = typed_at c ch j ∙ ground arith

pub typed_here : (c : Console) (ch : ℕ) → typed c ch c.pos ≡ cell ch
typed_here c ch = typed_at c ch c.pos ∙ ground arith

pub typed_high :
    (c : Console) (ch i : ℕ) → i < c.lefts → typed c ch (c.pos + 1 + i) ≡ c.crt (c.pos + i)
typed_high c ch i h =
    let e : c.crt (c.pos + 1 + i - 1) ≡ c.crt (c.pos + i) = ap c.crt (omega arith) in
    let n1 : (c.pos + 1 + i == c.pos + 1 + c.lefts) ≡ false = ground arith in
    let n2 : (c.pos + 1 + i == c.pos) ≡ false = ground arith in
    let y1 : ltb c.pos (c.pos + 1 + i) ≡ true = ground arith in
    let y2 : leb (c.pos + 1 + i) (c.pos + c.lefts) ≡ true = ground arith in
    typed_at c ch (c.pos + 1 + i) ∙ rw (n1, n2, y1, y2) e

pub typed_end : (c : Console) (ch : ℕ) → typed c ch (c.pos + 1 + c.lefts) ≡ cell b' '
typed_end c ch =
    update_self (update (shift_up c.crt c.pos c.lefts) c.pos (cell ch)) (c.pos + 1 + c.lefts)
      (cell b' ')

pub taken_at :
    (c : Console) (j : ℕ)
    → taken c j ≡ (
        if j == c.pos - 1 + c.lefts
        then cell b' '
        else if leb (c.pos - 1) j && ltb j (c.pos - 1 + (c.lefts + 1))
        then c.crt (j + 1)
        else c.crt j)
taken_at c j = ground (arith, shift_down_lem (c.lefts + 1) c.crt (c.pos - 1) j)
