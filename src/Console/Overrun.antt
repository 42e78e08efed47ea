-- ===== src/Console/Overrun.antt =====
-- The buffer of a line is used up by all lines together.
use operating_system_laborat.Base.{
  ℕ, ◌+◌, ◌-◌, ◌≤◌, ◌<◌, ◌≡◌, refl, ◌∙◌, ◌≢◌, true, false, List, [], ◌∷◌, ◌++◌, arith, ltb, leb,
  ◌==◌, length, ok, fault,
}
use operating_system_laborat.Console.{
  Key, input_buf, backspace, newline, Console, cgaputc, consputc, shift_right_next_chars, type_char,
}
use operating_system_laborat.Console.{Key, char}
use operating_system_laborat.Console.Text.{Text, Shows}
use operating_system_laborat.Console.Line.{Plain, AllPlain, size, edit_all, press_all-refines}
use operating_system_laborat.Console.Codes.{codes_of, consoleintr-refines, consoleintr-press_all}
use operating_system_laborat.Console.History.{History, default_key, handle, consoleintr}

type_char-fault :
    (ch : ℕ) (c : Console)
    → ch ≢ newline
    → ch ≢ backspace
    → input_buf ≤ c.input.e + 1
    → type_char ch c ≡ fault
unfolding type_char consputc cgaputc shift_right_next_chars
type_char-fault ch c h g le =
    let n1 : (ch == newline) ≡ false = ground arith in
    let n2 : (ch == backspace) ≡ false = ground arith in
    let n3 : leb input_buf (c.input.e + 1) ≡ true = ground arith in rw (n2, n1, n3) refl

default_key-fault :
    (ch : ℕ) (h : History) (c : Console)
    → Plain (char ch)
    → input_buf ≤ c.input.e + 1
    → c.input.e < input_buf
    → default_key ch h c ≡ fault
unfolding default_key
default_key-fault ch h c p full fits =
    let f = type_char-fault ch c p.0 p.1 full in
    let m1 : (ch == 13) ≡ false = ground (arith, p.4) in
    let m2 : (ch == 0) ≡ false = ground (arith, p.3) in
    let m3 : ltb (c.input.e - c.input.r) input_buf ≡ true = ground arith in rw (m1, m2, m3, f) refl

consoleintr_fault :
    (ch : ℕ) (h : History) (c : Console)
    → Plain (char ch)
    → default_key ch h c ≡ fault
    → consoleintr (ch ∷ []) h c ≡ fault
unfolding consoleintr handle
consoleintr_fault ch h c p e = rw (p.5, e) refl

-- The buffer of the console is used up by all lines since the boot: when keys as those of the line
-- editor have been typed, with room in the buffer and on the line of 80 characters, and the line
-- then ends at index 127, that is when its length and the index w of its start together are 127, any
-- further ordinary character makes `consoleintr` write outside of the array, although its guard lets
-- the character pass; it does so however many bytes the reader has taken. The keys before it are
-- handled without a fault, and the line shows what they make.
pub consoleintr-overrun :
    (ks : List Key) (ch : ℕ) (h : History) (c : Console) (t : Text)
    → Shows c t
    → AllPlain ks
    → Plain (char ch)
    → c.input.e + length ks < input_buf
    → size t + length ks ≤ 80
    → c.input.w + size (edit_all ks t) + 1 ≡ input_buf
    → ((d : Console) × (consoleintr (codes_of ks) h c ≡ ok (h, d)) × Shows d (edit_all ks t))
      × (consoleintr (codes_of ks ++ ch ∷ []) h c ≡ fault)
consoleintr-overrun ks ch h c t s p q room short full =
    let w = press_all-refines ks c t s p room short in
    let d = consoleintr-refines ks h c t s p room short in
    let e : w.0.input.e + 1 ≡ input_buf = omega (arith, w.2.count, w.3) in
    (
      (d.0, d.1, d.2),
      consoleintr-press_all ks (ch ∷ []) h c w.0 t s p room short w.1
          ∙ consoleintr_fault ch h w.0 q (default_key-fault ch h w.0 q (omega arith) (omega arith)),
    )
