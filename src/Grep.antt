-- ===== src/Grep.antt =====
-- grep.c: the matcher of regular expressions with ^ . * $. A C string is the list of the
-- bytes before its NUL.
pub mod Relation
pub mod Laws
use operating_system_laborat.Base.{
  ℕ, Bool, true, false, ◌&&◌, ◌||◌, List, [], ◌∷◌, ◌==◌, if◌then◌else◌,
}

-- `re[0]=='.' || re[0]==*text`
abbrev pub fits : ℕ → ℕ → Bool
fits c x = c == b'.' || c == x

abbrev pub is_end : List ℕ → Bool
is_end [] = true
is_end (x ∷ t) = false

-- The last test of `matchhere`, with the match of `re+1` handed in.
unfoldable pub match_one : ℕ → (List ℕ → Bool) → List ℕ → Bool
match_one c rest [] = false
match_one c rest (x ∷ t) = fits c x && rest t

-- The loop of `matchstar`, with `matchhere(re, ·)` handed in.
unfoldable pub matchstar : ℕ → (List ℕ → Bool) → List ℕ → Bool
matchstar c rest [] = rest []
matchstar c rest (x ∷ t) = rest (x ∷ t) || (fits c x && matchstar c rest t)

unfoldable pub matchhere : List ℕ → List ℕ → Bool
unfolding match_one matchstar
matchhere [] t = true
matchhere (c ∷ []) t = if c == b'$' then is_end t else match_one c (λ r. true) t
matchhere (c ∷ (d ∷ re)) t = elim (d == b'*') [
  | true ↦ matchstar c (matchhere re) t
  | false ↦ match_one c (matchhere (d ∷ re)) t
]

-- The `do` loop of `match`: every suffix of the text, the empty one too.
unfoldable pub match_from : List ℕ → List ℕ → Bool
unfolding matchhere
match_from re [] = matchhere re []
match_from re (x ∷ t) = matchhere re (x ∷ t) || match_from re t

-- `match` of grep.c
unfoldable pub match_line : List ℕ → List ℕ → Bool
unfolding match_from
match_line [] t = match_from [] t
match_line (c ∷ re) t = if c == b'^' then matchhere re t else match_from (c ∷ re) t
