-- ===== src/Grep/Relation.antt =====
-- What the expressions of grep.c mean, with no mention of the matcher.
use operating_system_laborat.Base.{ℕ, ◌≡◌, ◌≢◌, ◌⊎◌, List, [], ◌∷◌}

-- The character `x` is an instance of the expression character `c`.
abbrev pub Fits : ℕ → ℕ → Type 0
Fits c x = (c ≡ b'.') ⊎ (c ≡ x)

-- A `*` stands second, so the first character is repeated.
abbrev pub IsStarred : List ℕ → Type 0
IsStarred [] = ⊥
IsStarred (d ∷ re) = d ≡ b'*'

-- `$` stands last and means the end of the text.
abbrev pub IsDollar : ℕ → List ℕ → Type 0
IsDollar c [] = c ≡ b'$'
IsDollar c (d ∷ re) = ⊥

-- Some prefix of the text is matched.
pub data Here : List ℕ → List ℕ → Type 0 where
  done : {t : List ℕ} → Here [] t
  at_end : {c : ℕ} → c ≡ b'$' → Here (c ∷ []) []
  star_zero : {c d : ℕ} {re t : List ℕ} → d ≡ b'*' → Here re t → Here (c ∷ (d ∷ re)) t
  star_more :
      {c d x : ℕ} {re t : List ℕ}
      → d ≡ b'*'
      → Fits c x
      → Here (c ∷ (d ∷ re)) t
      → Here (c ∷ (d ∷ re)) (x ∷ t)
  one :
      {c x : ℕ} {re t : List ℕ}
      → ¬ IsStarred re
      → ¬ IsDollar c re
      → Fits c x
      → Here re t
      → Here (c ∷ re) (x ∷ t)

-- Some part of the text is matched.
pub data Found (re : List ℕ) : List ℕ → Type 0 where
  here : {t : List ℕ} → Here re t → Found re t
  there : {x : ℕ} {t : List ℕ} → Found re t → Found re (x ∷ t)

-- `^` ties the match to the start of the line.
pub data Selected : List ℕ → List ℕ → Type 0 where
  anchored : {c : ℕ} {re t : List ℕ} → c ≡ b'^' → Here re t → Selected (c ∷ re) t
  empty : {t : List ℕ} → Selected [] t
  floating : {c : ℕ} {re t : List ℕ} → c ≢ b'^' → Found (c ∷ re) t → Selected (c ∷ re) t
