-- ===== src/Console/Kill.antt =====
-- ^U: the line is taken away.
use operating_system_laborat.Base.{
  ℕ, ◌+◌, ◌-◌, ◌%◌, ◌≤◌, ◌<◌, ◌≡◌, refl, sym, ap, ap₂, ◌∙◌, subst, false, List, [], ◌∷◌, arith,
  ◌==◌, length, ok,
}
use operating_system_laborat.Console.{
  input_buf, backspace, newline, Console, consputc, backspace_key, right_key, kill_line_loop,
  kill_line,
}
use operating_system_laborat.Console.Text.{Unread, edit, Shows}
use operating_system_laborat.Console.Line.{size, right_key-Shows, backspace_key-Shows}
use operating_system_laborat.Console.Enter.{Inside}

-- The text with the cursor at its end.
abbrev at_end : List ℕ → List ℕ → List ℕ
at_end bs [] = bs
at_end bs (c ∷ cs) = at_end (c ∷ bs) cs

length-at_end : (bs cs : List ℕ) → length (at_end bs cs) ≡ length bs + length cs
length-at_end bs [] = omega arith
length-at_end bs (c ∷ cs) = omega (arith, length-at_end (c ∷ bs) cs)

at_end-Inside : (bs cs : List ℕ) → Inside bs → Inside cs → Inside (at_end bs cs)
at_end-Inside bs [] h g = h
at_end-Inside bs (c ∷ cs) h g = at_end-Inside (c ∷ bs) cs (g.0, g.1, h) g.2

-- The console after the cursor went to the end of the line.
abbrev go_end : Console → Console
go_end c = record c { pos = c.pos + c.lefts; lefts = 0 }

right_key-moved :
    (c : Console) → 0 < c.lefts → right_key c ≡ record c { pos = c.pos + 1; lefts = c.lefts - 1 }
unfolding right_key
right_key-moved c h = ground arith

go_end-Shows :
    (cs : List ℕ) (c : Console) (bs : List ℕ)
    → Shows c (bs, cs)
    → Shows (go_end c) (at_end bs cs, [])
unfolding edit
go_end-Shows [] c bs s =
    let none_left : c.lefts ≡ 0 = omega (arith, s.cursor) in
    let same : c ≡ go_end c =
      ap₂ (λ (p l : ℕ). record c { pos = p; lefts = l })
        (let q : c.pos ≡ c.pos + c.lefts = omega arith in q) none_left in
    subst (λ d. Shows d (bs, [])) same s
go_end-Shows (x ∷ cs) c bs s =
    let d : Console = record c { pos = c.pos + 1; lefts = c.lefts - 1 } in
    let moved : right_key c ≡ d = right_key-moved c (omega (arith, s.cursor)) in
    let s' : Shows d (x ∷ bs, cs) =
      subst (λ (k : Console). Shows k (x ∷ bs, cs)) moved (right_key-Shows c (bs, x ∷ cs) s) in
    let place : c.pos + 1 + (c.lefts - 1) ≡ c.pos + c.lefts = omega (arith, s.cursor) in
    subst (λ (p : ℕ). Shows (record c { pos = p; lefts = 0 }) (at_end (x ∷ bs) cs, [])) place
      (go_end-Shows cs d (x ∷ bs) s')

backspace_key-consputc :
    (c : Console) → c.input.w < c.input.e - c.lefts → backspace_key c ≡ consputc backspace c
unfolding backspace_key
backspace_key-consputc c h = ground arith

kill_line_loop-Shows :
    (bs : List ℕ) (c : Console)
    → Shows c (bs, [])
    → Inside bs
    → length bs ≤ 80
    → (d : Console) × (kill_line_loop (length bs) c ≡ ok d)
      × Shows d ([], [])
      × (d.input.w ≡ c.input.w)
      × (d.input.r ≡ c.input.r)
      × Unread c d
unfolding kill_line_loop edit
kill_line_loop-Shows [] c s h le = (c, refl, s, refl, refl, (λ i lt. refl))
kill_line_loop-Shows (b ∷ bs) c s h le =
    let w = backspace_key-Shows c (b ∷ bs, []) s (omega arith) in
    let ih = kill_line_loop-Shows bs w.0 w.2 h.2 (omega arith) in
    let run : consputc backspace c ≡ ok (w.0) =
      sym (backspace_key-consputc c (omega (arith, s.count, s.cursor))) ∙ w.1 in
    let some_left : (c.input.e == c.input.w) ≡ false = ground (arith, s.count) in
    let place : (c.input.e - 1) % input_buf ≡ c.input.e - c.lefts - 1 =
      omega (arith, s.fits, s.cursor) in
    let char : (b == newline) ≡ false = ground (arith, h.0) in
    (
      ih.0,
      rw (some_left, place, s.behind.0, char, run) ih.1,
      ih.2,
      ih.3 ∙ w.3.0,
      ih.4 ∙ w.3.1,
      (λ i lt. ih.5 i (omega (arith, w.3.0)) ∙ w.5 i lt),
    )

-- ^U on a line of at most 80 characters, none of them a newline or ^D: wherever the cursor stands,
-- the loop ends without a panic and the line is empty; the indices r and w and the bytes before the
-- line, which a reader may not have read yet, stay as they are.
pub kill_line_lem :
    (c : Console) (bs cs : List ℕ)
    → Shows c (bs, cs)
    → Inside bs
    → Inside cs
    → size (bs, cs) ≤ 80
    → (d : Console) × (kill_line c ≡ ok d)
      × Shows d ([], [])
      × (d.input.w ≡ c.input.w)
      × (d.input.r ≡ c.input.r)
      × ((i : ℕ) → i < c.input.w → d.input.buf i ≡ c.input.buf i)
unfolding kill_line
kill_line_lem c bs cs s h g le =
    let l = length-at_end bs cs in
    let t =
      kill_line_loop-Shows (at_end bs cs) (go_end c) (go_end-Shows cs c bs s)
        (at_end-Inside bs cs h g) (omega arith) in
    let fuel : c.input.e - c.input.w ≡ length (at_end bs cs) = omega (arith, s.count) in
    (t.0, ap (λ n. kill_line_loop n (go_end c)) fuel ∙ t.1, t.2, t.3, t.4, t.5)
