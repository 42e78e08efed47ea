-- ===== src/Console/History.antt =====
-- The command history of console.c: the ten last lines.
use operating_system_laborat.Base.{
  ℕ, zero, suc, ◌+◌, ◌-◌, Bool, true, false, not, ◌&&◌, ◌||◌, List, [], ◌∷◌, ltb, ◌==◌,
  if◌then◌else◌, u32, sub32, slt, minus_one, Outcome, ok, fault, ◌>>=◌,
}
use operating_system_laborat.Bytes.{Mem}
use operating_system_laborat.Console.{
  input_buf, backspace, newline, end_of_file, Console, Input, consputc, type_char, kill_line,
  backspace_key, copy_key, left_key, right_key,
}
use operating_system_laborat.Console.Print.{cprintf}

-- `struct History`; before the first line `index` and `last` are -1.
pub record History : Type 0 where
  pub hist : ℕ → Input
  pub index : ℕ
  pub count : ℕ
  pub last : ℕ

-- `{'h', 'i', 's', 't', 'o', 'r', 'y'}`
abbrev pub history_word : List ℕ
history_word = b'h' ∷ b'i' ∷ b's' ∷ b't' ∷ b'o' ∷ b'r' ∷ b'y' ∷ []

-- The loop of `is_command_history`, with what is left of the word and n rounds to go; a `fault` is a read behind
-- the word.
unfoldable pub is_history_loop : Mem → List ℕ → ℕ → ℕ → Outcome Bool
is_history_loop b ws i zero = ok true
is_history_loop b [] i (suc n) = fault
is_history_loop b (w ∷ ws) i (suc n) =
    let rest = is_history_loop b ws (i + 1) n in if b i == w then rest else ok false

unfoldable pub is_command_history : Console → Outcome Bool
unfolding is_history_loop
is_command_history c =
    is_history_loop c.input.buf history_word c.input.r (c.input.e - 1 - c.input.r)

-- The string from index i on, in the n bytes up to the end of its array.
unfoldable pub text_from : Mem → ℕ → ℕ → List ℕ
text_from b i zero = []
text_from b i (suc n) = let rest = text_from b (i + 1) n in if b i == 0 then [] else b i ∷ rest

-- The loop of `print_history` from line i on, for n rounds; a line is the format of its own output.
unfoldable pub print_history_loop : History → ℕ → ℕ → Console → Outcome Console
unfolding text_from cprintf
print_history_loop h i zero c = ok c
print_history_loop h i (suc n) c =
    let s = h.hist i in
    cprintf (text_from s.buf s.r (input_buf - s.r)) [] c >>= λ d. print_history_loop h (i + 1) n d

unfoldable pub print_history : History → Console → Outcome Console
unfolding print_history_loop
print_history h c = print_history_loop h 0 h.count c

unfoldable pub shift_left_previous_histories : History → History
shift_left_previous_histories h = record h {
  hist = λ i. if ltb i 9 then h.hist (i + 1) else h.hist i;
}

-- `history.hist[history.last] = input` with what comes before it.
unfoldable pub save : History → Input → History
unfolding shift_left_previous_histories
save h s =
    let old = (if h.count == 10 then shift_left_previous_histories h else h) in
    let new =
      (if ltb old.count 10
        then record old {
          count = old.count + 1;
          last = u32 (old.last + 1);
          index = u32 (u32 (old.last + 1) + 1);
        }
        else record old { index = 10 }) in
    record new { hist = λ i. if i == new.last then s else new.hist i }

-- The end of a line: `consoleintr` after it has put the last character into the line.
unfoldable pub finish_line : History → Console → Outcome (History × Console)
unfolding is_command_history print_history save
finish_line h c =
    let c0 = record c { input = record c.input { flag_copy = false } } in
    is_command_history c0 >>= λ b. (if b then print_history h c0 else ok c0) >>= λ d.
    ok (save h d.input, record d { input = record d.input { w = d.input.e } })

-- The default case of `consoleintr`, at a character that is not ^F or ?.
unfoldable pub default_key : ℕ → History → Console → Outcome (History × Console)
unfolding type_char finish_line
default_key ch h c =
    let key = if ch == 13 then newline else ch in
    if not (ch == 0) && ltb (c.input.e - c.input.r) input_buf
    then (type_char key c >>= λ d.
        if key == newline || (key == end_of_file || d.input.e == d.input.r + input_buf)
        then finish_line h d
        else ok (h, d))
    else ok (h, c)

-- The loop that `move_through_history` begins with: n characters from the end of the line on.
unfoldable pub erase_line : ℕ → ℕ → Console → Outcome Console
unfolding consputc
erase_line i zero c = ok c
erase_line i (suc n) c =
    let skip = erase_line (i - 1) n c in
    let more = (consputc backspace c >>= λ d. erase_line (i - 1) n d) in
    if c.input.buf (i - 1) == newline then skip else more

-- The last loop of `move_through_history`.
unfoldable pub show_line : ℕ → ℕ → Console → Outcome Console
unfolding consputc
show_line i zero c = ok c
show_line i (suc n) c = consputc (c.input.buf i) c >>= λ d. show_line (i + 1) n d

-- The line that becomes the current one.
abbrev pub recalled : Input → Input
recalled s = record s { e = s.e - 1; buf = λ i. if i == s.e - 1 then 0 else s.buf i }

-- `move_through_history`: up, or else down
unfoldable pub move_through_history : Bool → History → Console → Outcome (History × Console)
unfolding erase_line show_line
move_through_history up h c =
    let c0 = record c { lefts = 0 } in
    let first = (if h.index == minus_one then 0 else h.index) in
    let i = (if up then sub32 h.index 1 else u32 (first + 1)) in
    erase_line c0.input.e (c0.input.e - c0.input.w) c0 >>= λ d.
    let s = recalled (h.hist i) in
    show_line s.r (s.e - s.r) (record d { input = s }) >>= λ o. ok (record h { index = i }, o)

unfoldable pub up_key : History → Console → Outcome (History × Console)
unfolding move_through_history
up_key h c = if slt 0 h.count && slt 0 h.index then move_through_history true h c else ok (h, c)

unfoldable pub down_key : History → Console → Outcome (History × Console)
unfolding move_through_history
down_key h c =
    if slt 0 h.count && slt h.index (sub32 h.count 1)
    then move_through_history false h c
    else ok (h, c)

-- The codes with a case of their own: ^P, ^U, ^H, delete, ^S and the arrows
abbrev pub is_case : ℕ → Bool
is_case ch =
    ch == 16
    || (ch == 21
        || (ch == 8
            || (ch == 127 || (ch == 19 || (ch == 228 || (ch == 229 || (ch == 226 || ch == 227)))))))

abbrev pub and_history : History → Outcome Console → Outcome (History × Console)
and_history h m = m >>= λ d. ok (h, d)

-- The `switch` of `consoleintr`. ^P only asks for a listing of the processes after the last key.
unfoldable pub handle : ℕ → History → Console → Outcome (History × Console)
unfolding default_key up_key down_key kill_line backspace_key copy_key left_key right_key
handle ch h c =
    if not (is_case ch)
    then default_key ch h c
    else if ch == 16
    then ok (h, c)
    else if ch == 21
    then and_history h (kill_line c)
    else if ch == 8 || ch == 127
    then and_history h (backspace_key c)
    else if ch == 19
    then ok (h, copy_key c)
    else if ch == 228
    then ok (h, left_key c)
    else if ch == 229
    then ok (h, right_key c)
    else if ch == 226
    then up_key h c
    else down_key h c

-- The loop of `consoleintr` over the codes that `getc` gives.
unfoldable pub consoleintr : List ℕ → History → Console → Outcome (History × Console)
unfolding handle
consoleintr [] h c = ok (h, c)
consoleintr (ch ∷ chs) h c = handle ch h c >>= λ (g, d). consoleintr chs g d
