-- ===== src/Console/Text.antt =====
-- A text with a cursor, and the console that shows it.
use operating_system_laborat.Base.{
  ℕ, ◌+◌, ◌-◌, ◌*◌, ◌≤◌, ◌<◌, ◌≡◌, sym, ap, ◌∙◌, List, [], ◌∷◌, arith, length,
}
use operating_system_laborat.Bytes.{Mem}
use operating_system_laborat.Console.{input_buf, Console, Key, char, erase, left, right, copy}

-- The characters before the cursor, the nearest first, and those behind it.
abbrev pub Text : Type 0
Text = List ℕ × List ℕ

unfoldable pub edit : Key → Text → Text
edit (char ch) (bs, cs) = (ch ∷ bs, cs)
edit erase ([], cs) = ([], cs)
edit erase (b ∷ bs, cs) = (bs, cs)
edit left ([], cs) = ([], cs)
edit left (b ∷ bs, cs) = (bs, b ∷ cs)
edit right (bs, []) = (bs, [])
edit right (bs, c ∷ cs) = (c ∷ bs, cs)
edit copy t = t

-- The bytes from p on, and those before p read backwards.
abbrev pub Ahead : Mem → ℕ → List ℕ → Type 0
Ahead m p [] = Unit
Ahead m p (c ∷ cs) = (m p ≡ c) × Ahead m (p + 1) cs

abbrev pub Behind : Mem → ℕ → List ℕ → Type 0
Behind m p [] = Unit
Behind m p (b ∷ bs) = (m (p - 1) ≡ b) × Behind m (p - 1) bs

pub Ahead-moved :
    (m m' : Mem) (p p' : ℕ) (cs : List ℕ)
    → ((i : ℕ) → i < length cs → m' (p' + i) ≡ m (p + i))
    → Ahead m p cs
    → Ahead m' p' cs
Ahead-moved m m' p p' [] h a = tt
Ahead-moved m m' p p' (c ∷ cs) h a =
    let none_p : p + 0 ≡ p = omega arith in
    let none_q : p' + 0 ≡ p' = omega arith in
    (
      ap m' (sym none_q) ∙ h 0 (omega arith) ∙ ap m none_p ∙ a.0,
      Ahead-moved m m' (p + 1) (p' + 1) cs
          (λ i lt.
            ap m' (let e : p' + 1 + i ≡ p' + (i + 1) = omega arith in e)
            ∙ h (i + 1) (omega arith)
            ∙ ap m (let e : p + (i + 1) ≡ p + 1 + i = omega arith in e))
          a.1,
    )

pub Behind-kept :
    (m m' : Mem) (p : ℕ) (bs : List ℕ)
    → ((i : ℕ) → i < p → m' i ≡ m i)
    → length bs ≤ p
    → Behind m p bs
    → Behind m' p bs
Behind-kept m m' p [] h le a = tt
Behind-kept m m' p (b ∷ bs) h le a = (
  h (p - 1) (omega arith) ∙ a.0,
  Behind-kept m m' (p - 1) bs (λ i lt. h i (omega arith)) (omega arith) a.1,
)

-- The console shows a line with the cursor in it: between the indices w and e of the buffer stand
-- the characters of the text, and the cursor stands on the screen right of what is before it.
pub record Shows (c : Console) (t : Text) : Type 0 where
  pub behind : Behind c.input.buf (c.input.e - c.lefts) t.0
  pub ahead : Ahead c.input.buf (c.input.e - c.lefts) t.1
  pub count : c.input.w + length t.0 + length t.1 ≡ c.input.e
  pub cursor : c.lefts ≡ length t.1
  pub fits : c.input.e < input_buf
  pub row : c.pos < 24 * 80 + length t.0
  pub column : length t.0 ≤ c.pos

-- What stands before the line, where a reader has still to read, stays.
abbrev pub Unread : Console → Console → Type 0
Unread c d = (i : ℕ) → i < c.input.w → d.input.buf i ≡ c.input.buf i

-- What stays of the indices.
abbrev pub Same : Console → Console → Type 0
Same c d = (d.input.w ≡ c.input.w) × (d.input.r ≡ c.input.r)
