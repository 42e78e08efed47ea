-- ===== src/Console/Codes.antt =====
-- The keys as the codes that the keyboard sends.
use mathlib.Core.List.{append-nil}
use operating_system_laborat.Base.{
  ℕ, ◌+◌, ◌-◌, ◌≤◌, ◌<◌, ◌≡◌, refl, sym, ap, ◌∙◌, ◌≢◌, Bool, true, false, List, [], ◌∷◌, ◌++◌,
  arith, ltb, ◌==◌, length, ok, ◌>>=◌,
}
use operating_system_laborat.Console.{
  input_buf, newline, Console, type_char, Key, char, erase, left, right, copy, press, press_all,
  consoleread, reads,
}
use operating_system_laborat.Console.Text.{edit, Text, Shows}
use operating_system_laborat.Console.Line.{
  Plain, AllPlain, size, edit_all, press_all-refines, press-Follows, size-edit,
}
use operating_system_laborat.Console.History.{
  History, default_key, and_history, handle, consoleintr,
}
use operating_system_laborat.Console.Enter.{line, typed-read}

-- The code of a key.
abbrev pub code : Key → ℕ
code (char ch) = ch
code erase = 8
code left = 228
code right = 229
code copy = 19

default_key-char :
    (ch : ℕ) (h : History) (c d : Console)
    → Plain (char ch)
    → c.input.e < input_buf
    → d.input.e < input_buf
    → type_char ch c ≡ ok d
    → default_key ch h c ≡ ok (h, d)
unfolding default_key
default_key-char ch h c d p hc hd t =
    let n1 : (ch == 13) ≡ false = ground (arith, p.4) in
    let n2 : (ch == 0) ≡ false = ground (arith, p.3) in
    let n3 : ltb (c.input.e - c.input.r) input_buf ≡ true = ground arith in
    let n4 : (ch == newline) ≡ false = ground (arith, p.0) in
    let n5 : (ch == 4) ≡ false = ground (arith, p.2) in
    let n6 : (d.input.e == d.input.r + input_buf) ≡ false = ground arith in
    rw (n1, n2, n3, t, n4, n5, n6) refl

-- The switch does with the code of a key what `press` does with the key.
handle-press :
    (k : Key) (h : History) (c d : Console)
    → Plain k
    → c.input.e < input_buf
    → d.input.e < input_buf
    → press k c ≡ ok d
    → handle (code k) h c ≡ ok (h, d)
unfolding handle press
handle-press (char ch) h c d p hc hd e = rw (p.5) (default_key-char ch h c d p hc hd e)
handle-press erase h c d p hc hd e = rw e refl
handle-press left h c d p hc hd e = ap (and_history h) e
handle-press right h c d p hc hd e = ap (and_history h) e
handle-press copy h c d p hc hd e = ap (and_history h) e

abbrev pub codes_of : List Key → List ℕ
codes_of [] = []
codes_of (k ∷ ks) = code k ∷ codes_of ks

same_console : (c d : Console) → ok c ≡ ok d → c ≡ d
same_console c d e = cc

press_all-rest :
    (k : Key) (ks : List Key) (c b d : Console)
    → press k c ≡ ok b
    → press_all (k ∷ ks) c ≡ ok d
    → press_all ks b ≡ ok d
unfolding press_all
press_all-rest k ks c b d e h = sym (ap (λ m. m >>= λ x. press_all ks x) e) ∙ h

consoleintr_step :
    (ch : ℕ) (rest : List ℕ) (h : History) (c d : Console)
    → handle ch h c ≡ ok (h, d)
    → consoleintr (ch ∷ rest) h c ≡ consoleintr rest h d
unfolding consoleintr
consoleintr_step ch rest h c d e = rw e refl

-- The loop of `consoleintr` over the codes of keys runs the keys.
pub consoleintr-press_all :
    (ks : List Key) (rest : List ℕ) (h : History) (c d : Console) (t : Text)
    → Shows c t
    → AllPlain ks
    → c.input.e + length ks < input_buf
    → size t + length ks ≤ 80
    → press_all ks c ≡ ok d
    → consoleintr (codes_of ks ++ rest) h c ≡ consoleintr rest h d
unfolding press_all
consoleintr-press_all [] rest h c d t s p room short e =
    ap (consoleintr rest h) (same_console c d e)
consoleintr-press_all (k ∷ ks) rest h c d t s p room short e =
    let w = press-Follows k c t s p.0 (omega arith) (omega arith) in
    let first = handle-press k h c w.0 p.0 (omega arith) (omega (arith, w.4)) w.1 in
    consoleintr_step (code k) (codes_of ks ++ rest) h c w.0 first
    ∙ consoleintr-press_all ks rest h w.0 d (edit k t) w.2 p.1 (omega (arith, w.4))
        (omega (arith, size-edit k t)) (press_all-rest k ks c w.0 d w.1 e)

-- The line editor refines a text with a cursor: while the buffer has room for every key and the line
-- stays below 80 characters, the codes of any keys that type characters, erase, move left and right
-- or copy make `consoleintr` do to the line in the buffer and its cursor, without a panic, exactly
-- what the keys do to the text. The bytes before the line, which a reader may not have read yet, the
-- history and the indices r and w stay as they are. The characters typed are none that end the line
-- or have a meaning of their own to `consoleintr`, and neither ^F nor ?.
pub consoleintr-refines :
    (ks : List Key) (h : History) (c : Console) (t : Text)
    → Shows c t
    → AllPlain ks
    → c.input.e + length ks < input_buf
    → size t + length ks ≤ 80
    → (d : Console) × (consoleintr (codes_of ks) h c ≡ ok (h, d))
      × Shows d (edit_all ks t)
      × (d.input.w ≡ c.input.w)
      × (d.input.r ≡ c.input.r)
      × ((i : ℕ) → i < c.input.w → d.input.buf i ≡ c.input.buf i)
unfolding consoleintr
consoleintr-refines ks h c t s p room short =
    let w = press_all-refines ks c t s p room short in
    let run = consoleintr-press_all ks [] h c w.0 t s p room short w.1 in
    (w.0, ap (λ l. consoleintr l h c) (sym (append-nil (codes_of ks))) ∙ run, w.2, w.3, w.4, w.6)

consoleintr-newline :
    (h h' : History) (c d : Console)
    → default_key newline h c ≡ ok (h', d)
    → consoleintr (newline ∷ []) h c ≡ ok (h', d)
unfolding consoleintr handle
consoleintr-newline h h' c d e = rw e refl

-- From the keyboard to the reader: on a console whose reader has taken everything and whose line is
-- empty, the codes of any keys that type, erase, move and copy, then the newline, are handled
-- without a panic, and a reader who asks for more bytes than the line has gets exactly the edited
-- line with its newline. The buffer must have room for every key; there are at most 80 keys, and the
-- line is not empty and does not start with an h (it would be compared with the command `history`).
pub consoleintr-consoleread :
    (ks : List Key) (h : History) (c : Console) (x : ℕ) (xs : List ℕ) (k : Bool) (n : ℕ)
    → Shows c ([], [])
    → c.input.r ≡ c.input.w
    → AllPlain ks
    → c.input.e + length ks < input_buf
    → length ks ≤ 80
    → line (edit_all ks ([], [])) ≡ x ∷ xs
    → x ≢ b'h'
    → length (x ∷ xs) < n
    → (h' : History) × (f : Console) × (consoleintr (codes_of ks ++ newline ∷ []) h c ≡ ok (h', f))
      × (consoleread k n f.input
          ≡ (record f.input { r = f.input.w }, reads ((x ∷ xs) ++ newline ∷ [])))
consoleintr-consoleread ks h c x xs k n s same p room short l ne big =
    let w = typed-read ks h c x xs k n s same p room short l ne big in
    let run = consoleintr-press_all ks (newline ∷ []) h c w.0 ([], []) s p room (omega arith) w.3 in
    (w.1, w.2, run ∙ consoleintr-newline h w.1 w.0 w.2 w.4, w.5)
