-- ===== src/Console/Moves.antt =====
-- The line after a character is typed or taken away.
use operating_system_laborat.Base.{
  ℕ, ◌+◌, ◌-◌, ◌*◌, ◌%◌, ◌≤◌, ◌<◌, ◌≡◌, refl, ap, ◌∙◌, ◌≢◌, ◌⊎◌, false, ◌&&◌, arith, ltb, leb, ◌==◌,
  if◌then◌else◌, ok,
}
use operating_system_laborat.Bytes.{Mem, update}
use operating_system_laborat.Console.{
  input_buf, backspace, newline, shift_down, shift_up, shift_left_next_chars,
  shift_right_next_chars, Console, Input, cgaputc, consputc, type_char,
}
use operating_system_laborat.Console.Text.{Same}
use operating_system_laborat.Console.Shift.{shift_down_lem, shift_up_lem, settle_lem}

-- The line after `shift_right_next_chars`.
abbrev opened : Console → Input
opened c = record c.input {
  buf = shift_up c.input.buf (c.input.e - c.lefts) (c.lefts + 1);
  buf_copy = shift_up c.input.buf_copy (c.input.e - c.lefts) (c.lefts + 1);
}

consputc-char :
    (c : Console) (ch : ℕ)
    → ch ≢ newline
    → ch ≢ backspace
    → c.input.e + 1 < input_buf
    → c.pos < 25 * 80
    → (d : Console) × (consputc ch c ≡ ok d)
      × (d.input ≡ opened c)
      × (d.lefts ≡ c.lefts)
      × (d.pos ≤ c.pos + 1)
      × ((d.pos ≡ c.pos + 1) ⊎ (23 * 80 ≤ d.pos))
unfolding consputc cgaputc shift_right_next_chars
consputc-char c ch hn hb he hp =
    let s : Console = record c {
      crt = update (shift_up c.crt c.pos c.lefts) c.pos (ch % 256 + 0x700);
      pos = c.pos + 1;
      input = opened c;
    } in
    let t = settle_lem s (omega arith) in
    let n1 : (ch == newline) ≡ false = ground arith in
    let n2 : (ch == backspace) ≡ false = ground arith in
    let n3 : leb input_buf (c.input.e + 1) ≡ false = ground arith in
    (t.0, rw (n2, n1, n3) t.1, t.2, t.3, t.4, t.5)

-- `type_char` behind its `consputc`
abbrev pub stored : ℕ → Console → Console
stored ch d = record d {
  input = record d.input {
    buf = update d.input.buf ((d.input.e - d.lefts) % input_buf) ch;
    buf_copy =
        if d.input.flag_paste
        then update d.input.buf_copy ((d.input.e - d.lefts) % input_buf) 49
        else d.input.buf_copy;
    e = d.input.e + 1;
  };
}

pub type_char-stored :
    (ch : ℕ) (c d : Console) → consputc ch c ≡ ok d → type_char ch c ≡ ok (stored ch d)
unfolding type_char
type_char-stored ch c d e = rw e refl

opened-buf :
    (c : Console) (ch j : ℕ)
    → c.input.e < input_buf
    → c.lefts ≤ c.input.e
    → update (opened c).buf ((c.input.e - c.lefts) % input_buf) ch j ≡ (
        if j == (c.input.e - c.lefts)
        then ch
        else if ltb (c.input.e - c.lefts) j && leb j (c.input.e + 1)
        then c.input.buf (j - 1)
        else c.input.buf j)
opened-buf c ch j h l =
    ground (arith, shift_up_lem (c.lefts + 1) c.input.buf (c.input.e - c.lefts) j)

-- What `type_char` makes of the line at the cursor.
pub inserted :
    (c : Console) (ch : ℕ)
    → ch ≢ newline
    → ch ≢ backspace
    → c.input.e + 1 < input_buf
    → c.lefts ≤ c.input.e
    → c.pos < 25 * 80
    → (d : Console) × (type_char ch c ≡ ok d)
      × ((j : ℕ)
          → d.input.buf j ≡ (
              if j == (c.input.e - c.lefts)
              then ch
              else if ltb (c.input.e - c.lefts) j && leb j (c.input.e + 1)
              then c.input.buf (j - 1)
              else c.input.buf j))
      × (d.input.e ≡ c.input.e + 1)
      × (d.lefts ≡ c.lefts)
      × Same c d
      × (d.pos ≤ c.pos + 1)
      × ((d.pos ≡ c.pos + 1) ⊎ (23 * 80 ≤ d.pos))
inserted c ch hn hb he hl hp =
    let t = consputc-char c ch hn hb he hp in
    let d : Console = t.0 in
    let at : (d.input.e - d.lefts) % input_buf ≡ (c.input.e - c.lefts) % input_buf =
      rw (t.2, t.3) refl in
    (
      stored ch d,
      type_char-stored ch c d t.1,
      (λ j.
          ap (λ k. update d.input.buf k ch j) at
          ∙ ap (λ (i : Input). update i.buf ((c.input.e - c.lefts) % input_buf) ch j) t.2
          ∙ opened-buf c ch j (omega arith) hl),
      ap (λ (i : Input). i.e + 1) t.2,
      t.3,
      (ap (λ (i : Input). i.w) t.2, ap (λ (i : Input). i.r) t.2),
      t.4,
      t.5,
    )

-- The line after the update and the `shift_left_next_chars` of a backspace.
abbrev closed : Console → Input
closed c =
    let i = c.input.e - 1 in
    record c.input {
      e = i;
      buf = shift_down (update c.input.buf ((i - c.lefts) % input_buf) 0) (i - c.lefts) c.lefts;
      buf_copy =
          shift_down (update c.input.buf_copy ((i - c.lefts) % input_buf) 0) (i - c.lefts) c.lefts;
    }

consputc-backspace :
    (c : Console)
    → c.input.e < input_buf
    → 0 < c.pos
    → c.pos ≤ 25 * 80
    → (d : Console) × (consputc backspace c ≡ ok d)
      × (d.input ≡ closed c)
      × (d.lefts ≡ c.lefts)
      × (d.pos ≤ c.pos - 1)
      × ((d.pos ≡ c.pos - 1) ⊎ (23 * 80 ≤ d.pos))
unfolding consputc cgaputc shift_left_next_chars
consputc-backspace c he h0 hp =
    let s : Console = record c {
      crt = shift_down c.crt (c.pos - 1) (c.lefts + 1);
      pos = c.pos - 1;
      input = closed c;
    } in
    let t = settle_lem s (omega arith) in
    let n1 : (c.pos == 0) ≡ false = ground arith in
    let n2 : leb input_buf (c.input.e - 1) ≡ false = ground arith in
    let n3 : (ltb 0 c.lefts && false) ≡ false = ground arith in
    (t.0, rw (n1, n2, n3) t.1, t.2, t.3, t.4, t.5)

-- What `consputc` of a backspace makes of the line.
pub deleted :
    (c : Console)
    → c.input.e < input_buf
    → c.lefts < c.input.e
    → 0 < c.pos
    → c.pos ≤ 25 * 80
    → (d : Console) × (consputc backspace c ≡ ok d)
      × ((j : ℕ)
          → j < c.input.e - 1
          → d.input.buf j
            ≡ (if ltb j (c.input.e - c.lefts - 1) then c.input.buf j else c.input.buf (j + 1)))
      × (d.input.e ≡ c.input.e - 1)
      × (d.lefts ≡ c.lefts)
      × Same c d
      × (d.pos ≤ c.pos - 1)
      × ((d.pos ≡ c.pos - 1) ⊎ (23 * 80 ≤ d.pos))
deleted c he hl h0 hp =
    let t = consputc-backspace c he h0 hp in
    let i : ℕ = c.input.e - 1 in
    let m : Mem = update c.input.buf ((i - c.lefts) % input_buf) 0 in
    (
      t.0,
      t.1,
      (λ j lt.
          ap (λ (k : Input). k.buf j) t.2
          ∙ shift_down_lem c.lefts m (i - c.lefts) j
          ∙ ground arith),
      ap (λ (k : Input). k.e) t.2,
      t.3,
      (ap (λ (k : Input). k.w) t.2, ap (λ (k : Input). k.r) t.2),
      t.4,
      t.5,
    )
