-- ===== src/Console/Enter.antt =====
-- A line from its keys to its reader.
use operating_system_laborat.Base.{
  ℕ, zero, suc, ◌+◌, ◌-◌, ◌*◌, ◌%◌, ◌≤◌, ◌<◌, ◌≡◌, refl, sym, ap, ◌∙◌, subst, ◌≢◌, Bool, true,
  false, List, [], ◌∷◌, ◌++◌, arith, ltb, ◌==◌, length, ok,
}
use operating_system_laborat.Bytes.{Mem, update}
use operating_system_laborat.Console.{
  input_buf, newline, end_of_file, Console, Input, cgaputc, consputc, type_char, Key, char, erase,
  left, right, copy, press_all, reads, read_loop, consoleread,
}
use operating_system_laborat.Console.Shift.{settle_lem}
use operating_system_laborat.Console.Text.{Text, edit, Ahead, Behind, Ahead-moved, Shows}
use operating_system_laborat.Console.Moves.{stored, type_char-stored}
use operating_system_laborat.Console.Line.{
  Plain, AllPlain, size, edit_all, size-edit_all, press_all-refines,
}
use operating_system_laborat.Console.History.{
  History, history_word, is_history_loop, is_command_history, finish_line, default_key, save,
}

-- The characters of a line in order.
unfoldable pub line : Text → List ℕ
line ([], cs) = cs
line (b ∷ bs, cs) = line (bs, b ∷ cs)

length-line : (bs cs : List ℕ) → length (line (bs, cs)) ≡ length bs + length cs
unfolding line
length-line [] cs = omega arith
length-line (b ∷ bs) cs = omega (arith, length-line bs (b ∷ cs))

-- No character of the list ends a line.
abbrev pub Inside : List ℕ → Type 0
Inside [] = Unit
Inside (c ∷ cs) = (c ≢ newline) × (c ≢ end_of_file) × Inside cs

edit-Inside :
    (k : Key) (t : Text)
    → Plain k
    → Inside t.0 × Inside t.1
    → Inside (edit k t).0 × Inside (edit k t).1
unfolding edit
edit-Inside (char ch) (bs, cs) p h = ((p.0, p.2, h.0), h.1)
edit-Inside erase ([], cs) p h = h
edit-Inside erase (b ∷ bs, cs) p h = (h.0.2, h.1)
edit-Inside left ([], cs) p h = h
edit-Inside left (b ∷ bs, cs) p h = (h.0.2, (h.0.0, h.0.1, h.1))
edit-Inside right (bs, []) p h = h
edit-Inside right (bs, c ∷ cs) p h = ((h.1.0, h.1.1, h.0), h.1.2)
edit-Inside copy t p h = h

edit_all-Inside :
    (ks : List Key) (t : Text)
    → AllPlain ks
    → Inside t.0 × Inside t.1
    → Inside (edit_all ks t).0 × Inside (edit_all ks t).1
edit_all-Inside [] t p h = h
edit_all-Inside (k ∷ ks) t p h = edit_all-Inside ks (edit k t) p.1 (edit-Inside k t p.0 h)

line-Inside : (bs cs : List ℕ) → Inside bs → Inside cs → Inside (line (bs, cs))
unfolding line
line-Inside [] cs h g = g
line-Inside (b ∷ bs) cs h g = line-Inside bs (b ∷ cs) h.2 (h.0, h.1, g)

-- What stands around the cursor stands in order from the start of the line on.
line-Ahead :
    (m : Mem) (p : ℕ) (bs cs : List ℕ)
    → length bs ≤ p
    → Behind m p bs
    → Ahead m p cs
    → Ahead m (p - length bs) (line (bs, cs))
unfolding line
line-Ahead m p [] cs h a b = subst (λ q. Ahead m q cs) (let e : p ≡ p - 0 = omega arith in e) b
line-Ahead m p (x ∷ bs) cs h a b =
    let back : p - 1 + 1 ≡ p = omega arith in
    let e : p - 1 - length bs ≡ p - suc (length bs) = omega arith in
    subst (λ q. Ahead m q (line (bs, x ∷ cs))) e
      (line-Ahead m (p - 1) bs (x ∷ cs) (omega arith) a.1
        (a.0, subst (λ q. Ahead m q cs) (sym back) b))

Ahead-end :
    (m : Mem) (p x : ℕ) (cs : List ℕ)
    → Ahead m p cs
    → m (p + length cs) ≡ x
    → Ahead m p (cs ++ x ∷ [])
Ahead-end m p x [] h e = (ap m (let q : p ≡ p + 0 = omega arith in q) ∙ e, tt)
Ahead-end m p x (c ∷ cs) h e = (
  h.0,
  Ahead-end m (p + 1) x cs h.1
      (ap m (let q : p + 1 + length cs ≡ p + suc (length cs) = omega arith in q) ∙ e),
)

-- The reader finds a line that stands in the buffer, up to its newline.
read_loop-line :
    (cs : List ℕ) (k : Bool) (target n : ℕ) (s : Input)
    → Inside cs
    → Ahead s.buf s.r (cs ++ newline ∷ [])
    → length cs < n
    → s.r + length cs < s.w
    → s.w ≤ input_buf
    → read_loop k target n s ≡ (record s { r = s.r + length cs + 1 }, reads (cs ++ newline ∷ []))
unfolding read_loop
read_loop-line [] k target zero s i h le lt fit = absurd (omega arith)
read_loop-line (c ∷ cs) k target zero s i h le lt fit = absurd (omega arith)
read_loop-line [] k target (suc n) s i h le lt fit =
    let some_left : (s.r == s.w) ≡ false = ground arith in
    let place : s.r % input_buf ≡ s.r = omega arith in
    let step : s.r + 1 ≡ s.r + 0 + 1 = omega arith in
    rw (some_left, place, h.0) (ap (λ (q : ℕ). (record s { r = q }, reads (newline ∷ []))) step)
read_loop-line (c ∷ cs) k target (suc n) s i h le lt fit =
    let some_left : (s.r == s.w) ≡ false = ground arith in
    let place : s.r % input_buf ≡ s.r = omega arith in
    let n1 : (c == end_of_file) ≡ false = ground arith in
    let n2 : (c == newline) ≡ false = ground arith in
    let ih =
      read_loop-line cs k target n (record s { r = s.r + 1 }) i.2 h.1 (omega arith) (omega arith)
        fit in
    let step : s.r + 1 + length cs + 1 ≡ s.r + suc (length cs) + 1 = omega arith in
    rw (some_left, place, h.0, n1, n2, ih)
      (ap (λ (q : ℕ). (record s { r = q }, reads (c ∷ (cs ++ newline ∷ [])))) step)

consputc-newline :
    (c : Console)
    → c.pos < 25 * 80
    → (d : Console) × (consputc newline c ≡ ok d) × (d.input ≡ c.input) × (d.lefts ≡ 0)
unfolding consputc cgaputc
consputc-newline c hp =
    let t = settle_lem (record c { pos = c.pos + (80 - c.pos % 80); lefts = 0 }) (omega arith) in
    (t.0, t.1, t.2, t.3)

-- The line after its newline.
newline-stored :
    (c : Console)
    → c.input.e < input_buf
    → c.pos < 25 * 80
    → (d : Console) × (type_char newline c ≡ ok d)
      × (d.input.buf ≡ update c.input.buf c.input.e newline)
      × (d.input.e ≡ c.input.e + 1)
      × (d.input.w ≡ c.input.w)
      × (d.input.r ≡ c.input.r)
newline-stored c he hp =
    let t = consputc-newline c hp in
    let d : Console = t.0 in
    let at : (c.input.e - 0) % input_buf ≡ c.input.e = omega arith in
    (
      stored newline d,
      type_char-stored newline c d t.1,
      (rw (t.2, t.3, at) refl),
      ap (λ (i : Input). i.e + 1) t.2,
      ap (λ (i : Input). i.w) t.2,
      ap (λ (i : Input). i.r) t.2,
    )

-- A line that does not start with an h is no command `history`.
is_history-no :
    (b : Mem) (i n x : ℕ)
    → b i ≡ x
    → x ≢ b'h'
    → 0 < n
    → is_history_loop b history_word i n ≡ ok false
unfolding is_history_loop
is_history-no b i zero x e h lt = absurd (omega arith)
is_history-no b i (suc n) x e h lt = let ne : (x == b'h') ≡ false = ground arith in rw (e, ne) refl

is_command_history-no :
    (c : Console) (x : ℕ)
    → c.input.buf c.input.r ≡ x
    → x ≢ b'h'
    → 0 < c.input.e - 1 - c.input.r
    → is_command_history c ≡ ok false
unfolding is_command_history
is_command_history-no c x e ne lt =
    is_history-no c.input.buf c.input.r (c.input.e - 1 - c.input.r) x e ne lt

-- The end of a line that is not the command `history`.
finish_line-no :
    (h : History) (c : Console)
    → is_command_history c ≡ ok false
    → finish_line h c
      ≡ ok (
        save h (record c.input { flag_copy = false }),
        record c { input = record c.input { flag_copy = false; w = c.input.e } },
      )
unfolding finish_line
finish_line-no h c e = rw (e, is_command_history) refl

-- The key for the end of a line.
default_key-newline :
    (h : History) (c d : Console)
    → c.input.e < input_buf
    → type_char newline c ≡ ok d
    → default_key newline h c ≡ finish_line h d
unfolding default_key
default_key-newline h c d he t =
    let room : ltb (c.input.e - c.input.r) input_buf ≡ true = ground arith in rw (room, t) refl

-- What the newline makes of a console that shows the text t and has nothing for a reader yet.
entered :
    (h : History) (c : Console) (bs cs : List ℕ) (x : ℕ) (xs : List ℕ)
    → Shows c (bs, cs)
    → line (bs, cs) ≡ x ∷ xs
    → x ≢ b'h'
    → size (bs, cs) ≤ 80
    → c.input.r ≡ c.input.w
    → (h' : History) × (d : Console) × (default_key newline h c ≡ ok (h', d))
      × (d.input.r ≡ c.input.r)
      × (d.input.w ≡ c.input.r + length (x ∷ xs) + 1)
      × (d.input.w ≤ input_buf)
      × Ahead d.input.buf d.input.r ((x ∷ xs) ++ newline ∷ [])
entered h c bs cs x xs s l ne short same =
    let w = newline-stored c s.fits (omega (arith, s.row)) in
    let d : Console = w.0 in
    let size : length bs + length cs ≡ length (x ∷ xs) = sym (length-line bs cs) ∙ ap length l in
    let start : c.input.e - c.lefts - length bs ≡ c.input.r = omega (arith, s.count, s.cursor) in
    let old : Ahead c.input.buf c.input.r (x ∷ xs) =
      subst (λ q. Ahead c.input.buf q (x ∷ xs)) start
        (subst (λ ys. Ahead c.input.buf (c.input.e - c.lefts - length bs) ys) l
          (line-Ahead c.input.buf (c.input.e - c.lefts) bs cs (omega (arith, s.count, s.cursor))
            s.behind s.ahead)) in
    let kept : Ahead d.input.buf d.input.r (x ∷ xs) =
      Ahead-moved c.input.buf d.input.buf c.input.r d.input.r (x ∷ xs)
        (λ i lt.
          ap (λ (m : Mem). m (d.input.r + i)) w.2
          ∙ ap (update c.input.buf c.input.e newline) (ap (λ q. q + i) w.5)
          ∙ (let away : c.input.e ≢ c.input.r + i = omega (arith, s.count) in ground arith))
        old in
    let end : d.input.buf (d.input.r + length (x ∷ xs)) ≡ newline =
      ap (λ (m : Mem). m (d.input.r + length (x ∷ xs))) w.2
      ∙ (let at : c.input.e ≡ d.input.r + length (x ∷ xs) = omega (arith, s.count, w.5) in
          ground arith) in
    let no : is_command_history d ≡ ok false =
      is_command_history-no d x (kept.0) ne (omega (arith, w.3, s.count, w.5)) in
    (
      save h (record d.input { flag_copy = false }),
      record d { input = record d.input { flag_copy = false; w = d.input.e } },
      default_key-newline h c d s.fits w.1 ∙ finish_line-no h d no,
      w.5,
      omega (arith, w.3, s.count),
      omega (arith, w.3, s.fits),
      Ahead-end d.input.buf d.input.r newline (x ∷ xs) kept end,
    )

-- From the keyboard to the reader: on a console whose reader has taken everything and whose line is empty, any
-- keys that type, erase, move and copy, then the newline, give a reader who asks for more bytes than the line has
-- exactly the edited line with its newline, and no key panics. The buffer must have room for every key,
-- the line stays below 80 characters, is not empty and does not start with an h (it would be compared with the command `history`).
pub typed-read :
    (ks : List Key) (h : History) (c : Console) (x : ℕ) (xs : List ℕ) (k : Bool) (n : ℕ)
    → Shows c ([], [])
    → c.input.r ≡ c.input.w
    → AllPlain ks
    → c.input.e + length ks < input_buf
    → length ks ≤ 80
    → line (edit_all ks ([], [])) ≡ x ∷ xs
    → x ≢ b'h'
    → length (x ∷ xs) < n
    → (d : Console) × (h' : History) × (f : Console) × (press_all ks c ≡ ok d)
      × (default_key newline h d ≡ ok (h', f))
      × (consoleread k n f.input
          ≡ (record f.input { r = f.input.w }, reads ((x ∷ xs) ++ newline ∷ [])))
unfolding consoleread
typed-read ks h c x xs k n s same plain room short l ne big =
    let p = press_all-refines ks c ([], []) s plain room (omega arith) in
    let t : Text = edit_all ks ([], []) in
    let inside = edit_all-Inside ks ([], []) plain (tt, tt) in
    let e =
      entered h p.0 t.0 t.1 x xs p.2 l ne (omega (arith, size-edit_all ks ([], [])))
        (p.4 ∙ same ∙ sym p.3) in
    let i : Inside (x ∷ xs) = subst Inside l (line-Inside t.0 t.1 inside.0 inside.1) in
    let f : Console = e.1 in
    let got = read_loop-line (x ∷ xs) k n n f.input i e.6 big (omega (arith, e.3, e.4)) e.5 in
    let at : f.input.r + length (x ∷ xs) + 1 ≡ f.input.w = omega (arith, e.3, e.4) in
    (
      p.0,
      e.0,
      f,
      p.1,
      e.2,
      got ∙ ap (λ (q : ℕ). (record f.input { r = q }, reads ((x ∷ xs) ++ newline ∷ []))) at,
    )
