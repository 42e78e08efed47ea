-- ===== src/Tests/Keys.antt =====
-- The console.
use operating_system_laborat.Base.{
  ℕ, ◌+◌, ◌-◌, ◌^◌, ◌≤◌, ◌<◌, ◌≡◌, refl, true, false, List, [], ◌∷◌, arith, slt, ok, fault,
}
use operating_system_laborat.Console.{
  Input, Console, Key, char, left, newline, kill_line, consoleread, reads,
}
use operating_system_laborat.Console.Text.{edit, Shows}
use operating_system_laborat.Console.Line.{Plain, AllPlain, edit_all}
use operating_system_laborat.Console.History.{History, consoleintr}
use operating_system_laborat.Console.Enter.{line}
use operating_system_laborat.Console.Codes.{consoleintr-refines, consoleintr-consoleread}
use operating_system_laborat.Console.Cells.{cell}
use operating_system_laborat.Console.Screen.{Displays, consoleintr-Displays}
use operating_system_laborat.Console.Kill.{kill_line_lem}
use operating_system_laborat.Console.Overrun.{consoleintr-overrun}
use operating_system_laborat.Console.Print.{printint}
use operating_system_laborat.Console.Digits.{printint_lem, Numeral}

-- A line that ends at index e, nothing of it being read.
abbrev input : ℕ → ℕ → Input
input w e = record {
  buf = λ i. 97;
  buf_copy = λ i. 0;
  r = w;
  w = w;
  e = e;
  flag_copy = false;
  flag_paste = false;
}

abbrev console : ℕ → ℕ → ℕ → Console
console w e lefts = record { input = input w e; lefts = lefts; crt = (λ i. 0); pos = e - lefts }

abbrev no_history : History
no_history = record { hist = (λ i. input 0 0); index = 4294967295; count = 0; last = 4294967295 }

empty-Shows : Shows (console 0 0 0) ([], [])
empty-Shows = record {
  behind = tt;
  ahead = tt;
  count = refl;
  cursor = refl;
  fits = omega arith;
  row = omega arith;
  column = omega arith;
}

-- c, l, left, a
abbrev keys : List Key
keys = char b'c' ∷ char b'l' ∷ left ∷ char b'a' ∷ []

c-Plain : Plain (char b'c')
c-Plain = (
  (λ e. ground arith),
  (λ e. ground arith),
  (λ e. ground arith),
  (λ e. ground arith),
  (λ e. ground arith),
  refl,
  (λ e. ground arith),
  (λ e. ground arith),
)

l-Plain : Plain (char b'l')
l-Plain = (
  (λ e. ground arith),
  (λ e. ground arith),
  (λ e. ground arith),
  (λ e. ground arith),
  (λ e. ground arith),
  refl,
  (λ e. ground arith),
  (λ e. ground arith),
)

a-Plain : Plain (char b'a')
a-Plain = (
  (λ e. ground arith),
  (λ e. ground arith),
  (λ e. ground arith),
  (λ e. ground arith),
  (λ e. ground arith),
  refl,
  (λ e. ground arith),
  (λ e. ground arith),
)

keys-AllPlain : AllPlain keys
keys-AllPlain = (c-Plain, (l-Plain, (tt, (a-Plain, tt))))

consoleintr_example :
    (d : Console) × (consoleintr (99 ∷ 108 ∷ 228 ∷ 97 ∷ []) no_history (console 0 0 0)
      ≡ ok (no_history, d))
    × Shows d (edit_all keys ([], []))
    × (d.input.w ≡ 0)
    × (d.input.r ≡ 0)
    × ((i : ℕ) → i < 0 → d.input.buf i ≡ 97)
consoleintr_example =
    consoleintr-refines keys no_history (console 0 0 0) ([], []) empty-Shows keys-AllPlain
      (omega arith) (omega arith)

-- A screen full of blanks.
abbrev blank_screen : Console
blank_screen = record (console 0 0 0) { crt = (λ i. cell b' ') }

blank-Shows : Shows blank_screen ([], [])
blank-Shows = record {
  behind = tt;
  ahead = tt;
  count = refl;
  cursor = refl;
  fits = omega arith;
  row = omega arith;
  column = omega arith;
}

screen_example :
    (d : Console) × (consoleintr (99 ∷ 108 ∷ 228 ∷ 97 ∷ []) no_history blank_screen
      ≡ ok (no_history, d))
    × Displays d (97 ∷ 99 ∷ [], 108 ∷ [])
    × (d.pos + 0 ≡ 2)
    × ((j : ℕ) → j < 0 → d.crt j ≡ cell b' ')
unfolding edit
screen_example =
    consoleintr-Displays keys no_history blank_screen ([], []) blank-Shows
      (record { behind = tt; ahead = tt; blank = refl }) keys-AllPlain (omega arith) (omega arith)
      (omega arith)

-- The reader gets "cal".
typed_example :
    (h' : History) × (f : Console) × (consoleintr
        (99 ∷ 108 ∷ 228 ∷ 97 ∷ newline ∷ [])
        no_history
        (console 0 0 0)
      ≡ ok (h', f))
    × (consoleread false 100 f.input
        ≡ (record f.input { r = f.input.w }, reads (b'c' ∷ b'a' ∷ b'l' ∷ newline ∷ [])))
unfolding edit line
typed_example =
    consoleintr-consoleread keys no_history (console 0 0 0) b'c' (b'a' ∷ b'l' ∷ []) false 100
      empty-Shows refl keys-AllPlain (omega arith) (omega arith) refl (λ e. ground arith)
      (omega arith)

two-Shows : Shows (console 0 2 1) (97 ∷ [], 97 ∷ [])
two-Shows = record {
  behind = (refl, tt);
  ahead = (refl, tt);
  count = refl;
  cursor = refl;
  fits = omega arith;
  row = omega arith;
  column = omega arith;
}

kill_line_example :
    (d : Console) × (kill_line (console 0 2 1) ≡ ok d)
    × Shows d ([], [])
    × (d.input.w ≡ 0)
    × (d.input.r ≡ 0)
    × ((i : ℕ) → i < 0 → d.input.buf i ≡ 97)
kill_line_example =
    kill_line_lem (console 0 2 1) (97 ∷ []) (97 ∷ []) two-Shows
      ((λ e. ground arith), (λ e. ground arith), tt) ((λ e. ground arith), (λ e. ground arith), tt)
      (omega arith)

-- A line that starts at index 124 and gets three characters.
line_124-Shows : Shows (console 124 124 0) ([], [])
line_124-Shows = record {
  behind = tt;
  ahead = tt;
  count = refl;
  cursor = refl;
  fits = omega arith;
  row = omega arith;
  column = omega arith;
}

overrun_example :
    ((d : Console) × (consoleintr (99 ∷ 108 ∷ 97 ∷ []) no_history (console 124 124 0)
        ≡ ok (no_history, d))
      × Shows d (97 ∷ 108 ∷ 99 ∷ [], []))
    × (consoleintr (99 ∷ 108 ∷ 97 ∷ 97 ∷ []) no_history (console 124 124 0) ≡ fault)
unfolding edit
overrun_example =
    consoleintr-overrun (char b'c' ∷ char b'l' ∷ char b'a' ∷ []) b'a' no_history (console 124 124 0)
      ([], []) line_124-Shows (c-Plain, (l-Plain, (a-Plain, tt))) a-Plain (omega arith)
      (omega arith) refl

-- -7 in decimal
printint_example :
    (4294967289 < 10 ^ 16
      → (ds : List ℕ) × (printint 4294967289 10 false ≡ ok ds) × Numeral 10 4294967289 ds)
    × (10 ^ 16 ≤ 4294967289 → printint 4294967289 10 false ≡ fault)
    × (slt 4294967289 0 ≡ false → printint 4294967289 10 true ≡ printint 4294967289 10 false)
    × (slt 4294967289 0 ≡ true
        → 2 ^ 32 - 4294967289 < 10 ^ 15
        → (ds : List ℕ) × (printint 4294967289 10 true ≡ ok (b'-' ∷ ds))
          × Numeral 10 (2 ^ 32 - 4294967289) ds)
    × (slt 4294967289 0 ≡ true
        → 10 ^ 15 ≤ 2 ^ 32 - 4294967289
        → printint 4294967289 10 true ≡ fault)
printint_example = printint_lem 4294967289 10 (omega arith) (omega arith) (omega arith)
