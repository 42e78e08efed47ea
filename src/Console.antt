-- ===== src/Console.antt =====
-- console.c: the line that is being typed, the screen and what a reader gets. A `fault` is an access
-- outside of an array. The line's indices count up and do not wrap, and a key that takes a character away
-- is guarded by the code, so that subtraction does not stop at 0. The keys ^F and ? are left out.
pub mod Shift
pub mod Text
pub mod Moves
pub mod Line
pub mod Print
pub mod History
pub mod Enter
pub mod Kill
pub mod Digits
pub mod Overrun
pub mod Codes
pub mod Cells
pub mod Screen
use operating_system_laborat.Base.{
  ℕ, zero, suc, ◌+◌, ◌-◌, ◌*◌, ◌/◌, ◌%◌, Bool, true, ◌&&◌, ◌||◌, List, [], ◌∷◌, ltb, leb, ◌==◌,
  if◌then◌else◌, Outcome, ok, panic, fault, ◌>>=◌,
}
use operating_system_laborat.Bytes.{Mem, update}

abbrev pub input_buf : ℕ
input_buf = 128

abbrev pub backspace : ℕ
backspace = 256

abbrev pub newline : ℕ
newline = 10

-- C('D')
abbrev pub end_of_file : ℕ
end_of_file = 4

-- `struct Input`
pub record Input : Type 0 where
  pub buf : Mem
  pub buf_copy : Mem
  pub r : ℕ
  pub w : ℕ
  pub e : ℕ
  pub flag_copy : Bool
  pub flag_paste : Bool

-- The line, how far the cursor stands left of its end, the cells of the screen and the cursor's place.
pub record Console : Type 0 where
  pub input : Input
  pub lefts : ℕ
  pub crt : Mem
  pub pos : ℕ

-- `for(i = lo; i < lo + n; i++) b[i] = b[i + 1]`
unfoldable pub shift_down : Mem → ℕ → ℕ → Mem
shift_down b lo zero = b
shift_down b lo (suc n) = shift_down (update b lo (b (lo + 1))) (lo + 1) n

-- `for(i = lo + n; i > lo; i--) b[i] = b[i - 1]`
unfoldable pub shift_up : Mem → ℕ → ℕ → Mem
shift_up b lo zero = b
shift_up b lo (suc n) = shift_up (update b (lo + suc n) (b (lo + n))) lo n

unfoldable pub shift_left_next_chars : ℕ → Console → Outcome Console
unfolding shift_down
shift_left_next_chars pos c =
    if pos == 0 || (ltb 0 c.lefts && leb input_buf c.input.e)
    then fault
    else ok (record c {
      crt = shift_down c.crt (pos - 1) (c.lefts + 1);
      input = record c.input {
        buf = shift_down c.input.buf (c.input.e - c.lefts) c.lefts;
        buf_copy = shift_down c.input.buf_copy (c.input.e - c.lefts) c.lefts;
      };
    })

unfoldable pub shift_right_next_chars : ℕ → Console → Outcome Console
unfolding shift_up
shift_right_next_chars pos c =
    if leb input_buf (c.input.e + 1)
    then fault
    else ok (record c {
      crt = shift_up c.crt pos c.lefts;
      input = record c.input {
        buf = shift_up c.input.buf (c.input.e - c.lefts) (c.lefts + 1);
        buf_copy = shift_up c.input.buf_copy (c.input.e - c.lefts) (c.lefts + 1);
      };
    })

-- The screen one row up, with zeros from the cell p to the end of row 23.
unfoldable pub scroll : Mem → ℕ → Mem
scroll crt p i =
    if leb p i && ltb i (24 * 80) then 0 else if ltb i (23 * 80) then crt (i + 80) else crt i

-- `cgaputc` from its check of the position on.
unfoldable pub settle : Console → Outcome Console
unfolding scroll
settle c =
    let d =
      (if leb 24 (c.pos / 80)
        then record c { crt = scroll c.crt (c.pos - 80); pos = c.pos - 80 }
        else c) in
    if ltb (25 * 80) c.pos
    then panic
    else ok (record d { crt = update d.crt (d.pos + d.lefts) (32 + 0x700) })

unfoldable pub cgaputc : ℕ → Console → Outcome Console
unfolding settle shift_left_next_chars shift_right_next_chars
cgaputc ch c =
    if ch == newline
    then settle (record c { pos = c.pos + (80 - c.pos % 80); lefts = 0 })
    else if ch == backspace
    then (shift_left_next_chars c.pos c >>= λ d. settle (record d { pos = d.pos - 1 }))
    else (shift_right_next_chars c.pos c >>= λ d.
        settle (record d { crt = update d.crt d.pos (ch % 256 + 0x700); pos = d.pos + 1 }))

-- `consputc` on a machine that has not panicked, without the bytes for the serial port.
unfoldable pub consputc : ℕ → Console → Outcome Console
unfolding cgaputc
consputc ch c =
    if ch == backspace
    then (let i = c.input.e - 1 in
        cgaputc ch (record c {
          input = record c.input {
            e = i;
            buf = update c.input.buf ((i - c.lefts) % input_buf) 0;
            buf_copy = update c.input.buf_copy ((i - c.lefts) % input_buf) 0;
          };
        }))
    else cgaputc ch c

-- The cases of `consoleintr`: backspace, the arrows, ^S
unfoldable pub backspace_key : Console → Outcome Console
unfolding consputc
backspace_key c = if ltb c.input.w (c.input.e - c.lefts) then consputc backspace c else ok c

unfoldable pub left_key : Console → Console
left_key c =
    if ltb c.input.w (c.input.e - c.lefts)
    then record c { pos = c.pos - 1; lefts = c.lefts + 1 }
    else c

unfoldable pub right_key : Console → Console
right_key c = if ltb 0 c.lefts then record c { pos = c.pos + 1; lefts = c.lefts - 1 } else c

-- `clear_buf_copy` from index lo on, for n rounds.
unfoldable pub clear_buf_copy : Mem → ℕ → ℕ → Mem
clear_buf_copy b lo zero = b
clear_buf_copy b lo (suc n) = clear_buf_copy (update b lo 0) (lo + 1) n

unfoldable pub copy_key : Console → Console
unfolding clear_buf_copy
copy_key c = record c {
  input = record c.input {
    buf_copy = clear_buf_copy c.input.buf_copy c.input.r (c.input.e - c.input.r);
    flag_copy = true;
    flag_paste = true;
  };
}

-- The loop of ^U, on fuel: each round takes one character.
unfoldable pub kill_line_loop : ℕ → Console → Outcome Console
unfolding consputc
kill_line_loop zero c = ok c
kill_line_loop (suc n) c =
    let more = (consputc backspace c >>= λ d. kill_line_loop n d) in
    if c.input.e == c.input.w || c.input.buf ((c.input.e - 1) % input_buf) == newline
    then ok c
    else more

unfoldable pub kill_line : Console → Outcome Console
unfolding kill_line_loop
kill_line c = kill_line_loop (c.input.e - c.input.w) (record c { pos = c.pos + c.lefts; lefts = 0 })

-- The default case up to the end of the line, at a character that is not ^F or ?.
unfoldable pub type_char : ℕ → Console → Outcome Console
unfolding consputc
type_char ch c = consputc ch c >>= λ d. ok (record d {
  input = record d.input {
    buf = update d.input.buf ((d.input.e - d.lefts) % input_buf) ch;
    buf_copy =
        if d.input.flag_paste
        then update d.input.buf_copy ((d.input.e - d.lefts) % input_buf) 49
        else d.input.buf_copy;
    e = d.input.e + 1;
  };
})

-- A key of the line editor.
pub data Key : Type 0 where
  char : ℕ → Key
  erase : Key
  left : Key
  right : Key
  copy : Key

unfoldable pub press : Key → Console → Outcome Console
unfolding type_char backspace_key left_key right_key copy_key
press (char ch) c = type_char ch c
press erase c = backspace_key c
press left c = ok (left_key c)
press right c = ok (right_key c)
press copy c = ok (copy_key c)

-- The loop of `consoleintr` over keys that do not end the line.
unfoldable pub press_all : List Key → Console → Outcome Console
unfolding press
press_all [] c = ok c
press_all (k ∷ ks) c = press k c >>= λ d. press_all ks d

-- What a reader gets: bytes, nothing yet after these bytes, or an error since it was killed.
pub data Reading : Type 0 where
  reads : List ℕ → Reading
  sleeps : List ℕ → Reading
  killed : Reading

abbrev pub prepend : ℕ → Input × Reading → Input × Reading
prepend ch (s, reads cs) = (s, reads (ch ∷ cs))
prepend ch (s, sleeps cs) = (s, sleeps (ch ∷ cs))
prepend ch (s, killed) = (s, killed)

-- The loop of `consoleread`, up to where it sleeps; the flag is that of the reading process.
unfoldable pub read_loop : Bool → ℕ → ℕ → Input → Input × Reading
read_loop k target zero s = (s, reads [])
read_loop k target (suc n) s =
    let ch = s.buf (s.r % input_buf) in
    let next = record s { r = s.r + 1 } in
    let rest = prepend ch (read_loop k target n next) in
    if s.r == s.w
    then (if k then (s, killed) else (s, sleeps []))
    else if ch == end_of_file
    then (if ltb (suc n) target then (s, reads []) else (next, reads []))
    else if ch == newline
    then (next, reads (ch ∷ []))
    else rest

unfoldable pub consoleread : Bool → ℕ → Input → Input × Reading
unfolding read_loop
consoleread k n s = read_loop k n n s
