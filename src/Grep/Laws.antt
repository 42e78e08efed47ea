-- ===== src/Grep/Laws.antt =====
-- The matcher of grep.c decides the relation of Grep/Relation.antt.
use operating_system_laborat.Base.{
  ℕ, ◌≡◌, refl, ◌≢◌, ◌↔◌, ◌⊎◌, inl, inr, Bool, true, false, ◌&&◌, ◌||◌, List, [], ◌∷◌, arith, ◌==◌,
}
use native.Mathlib.Decide.{ℕ_discrete}
use operating_system_laborat.Grep.{fits, match_one, matchstar, matchhere, match_from, match_line}
use operating_system_laborat.Grep.Relation.{
  Fits, IsStarred, IsDollar, Here, done, at_end, star_zero, star_more, one, Found, here, there,
  Selected, anchored, empty, floating,
}

fits_sound : (c x : ℕ) → fits c x ≡ true → Fits c x
fits_sound c x h = ground arith

fits_complete : (c x : ℕ) → Fits c x → fits c x ≡ true
fits_complete c x h = ground arith

-- The two halves of a disjunction and of a conjunction that hold.
or_split : (a b : Bool) → (a || b) ≡ true → (a ≡ true) ⊎ (b ≡ true)
or_split true b h = inl refl
or_split false b h = inr h

and_split : (a b : Bool) → (a && b) ≡ true → (a ≡ true) × (b ≡ true)
and_split true b h = (refl, h)
and_split false b h = cc

-- `matchstar` finds a match after zero or more instances.
matchstar_sound :
    (c d : ℕ) (re t : List ℕ)
    → d ≡ b'*'
    → ((s : List ℕ) → matchhere re s ≡ true → Here re s)
    → matchstar c (matchhere re) t ≡ true
    → Here (c ∷ (d ∷ re)) t
unfolding matchstar
matchstar_sound c d re [] e ih h = star_zero e (ih [] h)
matchstar_sound c d re (x ∷ t) e ih h = elim (or_split _ _ h) [
  | inl p ↦ star_zero e (ih (x ∷ t) p)
  | inr q ↦
      let (f, r) = and_split _ _ q in
      star_more e (fits_sound c x f) (matchstar_sound c d re t e ih r)
]

matchhere_star :
    (c d : ℕ) (re t : List ℕ) → d ≡ b'*' → matchhere (c ∷ (d ∷ re)) t ≡ matchstar c (matchhere re) t
unfolding matchhere
matchhere_star c d re t e = let h : (d == b'*') ≡ true = ground arith in rw (h, matchhere)

matchhere_plain :
    (c d : ℕ) (re t : List ℕ)
    → d ≢ b'*'
    → matchhere (c ∷ (d ∷ re)) t ≡ match_one c (matchhere (d ∷ re)) t
unfolding matchhere
matchhere_plain c d re t e = let h : (d == b'*') ≡ false = ground arith in rw (h, matchhere)

match_one_sound :
    (c : ℕ) (re t : List ℕ)
    → ¬ IsStarred re
    → ¬ IsDollar c re
    → ((s : List ℕ) → matchhere re s ≡ true → Here re s)
    → match_one c (matchhere re) t ≡ true
    → Here (c ∷ re) t
unfolding match_one
match_one_sound c re [] ns nd ih h = cc
match_one_sound c re (x ∷ t) ns nd ih h =
    let (f, r) = and_split _ _ h in one ns nd (fits_sound c x f) (ih t r)

matchhere_last :
    (c : ℕ) (t : List ℕ) → c ≢ b'$' → matchhere (c ∷ []) t ≡ match_one c (matchhere []) t
unfolding matchhere
matchhere_last c [] e = ground arith
matchhere_last c (x ∷ t) e = ground arith

matchhere_dollar : (c : ℕ) (t : List ℕ) → c ≡ b'$' → matchhere (c ∷ []) t ≡ true → t ≡ []
unfolding matchhere
matchhere_dollar c [] e h = refl
matchhere_dollar c (x ∷ t) e h = ground arith

matchhere_sound : (re t : List ℕ) → matchhere re t ≡ true → Here re t
matchhere_sound [] t h = done
matchhere_sound (c ∷ []) t h = elim (ℕ_discrete c b'$') [
  | yes e ↦ rw (matchhere_dollar c t e h) (at_end e)
  | no e ↦ match_one_sound c [] t (λ p. p) e (λ s q. done) (rw (← matchhere_last c t e) h)
]
matchhere_sound (c ∷ (d ∷ re)) t h = elim (ℕ_discrete d b'*') [
  | yes e ↦
      matchstar_sound c d re t e (λ s. matchhere_sound re s) (rw (← matchhere_star c d re t e) h)
  | no e ↦
      match_one_sound c (d ∷ re) t e (λ p. p) (λ s. matchhere_sound (d ∷ re) s)
        (rw (← matchhere_plain c d re t e) h)
]

matchstar_here :
    (c d : ℕ) (re t : List ℕ) → matchhere re t ≡ true → matchstar c (matchhere re) t ≡ true
unfolding matchstar
matchstar_here c d re [] h = h
matchstar_here c d re (x ∷ t) h = rw h

matchhere_one :
    (c x : ℕ) (re t : List ℕ)
    → ¬ IsStarred re
    → ¬ IsDollar c re
    → Fits c x
    → matchhere re t ≡ true
    → matchhere (c ∷ re) (x ∷ t) ≡ true
unfolding match_one
matchhere_one c x [] t ns nd f h = rw (matchhere_last c (x ∷ t) nd, fits_complete c x f) h
matchhere_one c x (d ∷ re) t ns nd f h =
    rw (matchhere_plain c d re (x ∷ t) ns, fits_complete c x f) h

-- `||` with a right side that holds
or_right : (a b : Bool) → b ≡ true → (a || b) ≡ true
or_right true b h = refl
or_right false b h = h

matchstar_more :
    (c x : ℕ) (p : List ℕ → Bool) (t : List ℕ)
    → fits c x ≡ true
    → matchstar c p t ≡ true
    → matchstar c p (x ∷ t) ≡ true
unfolding matchstar
matchstar_more c x p t f h = ground (arith, or_right (p (x ∷ t)) (fits c x && matchstar c p t))

matchhere_complete : {re t : List ℕ} → Here re t → matchhere re t ≡ true
unfolding matchhere
matchhere_complete done = refl
matchhere_complete (at_end {c} e) = ground arith
matchhere_complete (star_zero {c} {d} {re} {t} e h) =
    rw (matchhere_star c d re t e) (matchstar_here c d re t (matchhere_complete h))
matchhere_complete (star_more {c} {d} {x} {re} {t} e f h) = rw (matchhere_star c d re (x ∷ t) e) (
    matchstar_more c x (matchhere re) t (fits_complete c x f)
      (rw (← matchhere_star c d re t e) (matchhere_complete h)))
matchhere_complete (one {c} {x} {re} {t} ns nd f h) =
    matchhere_one c x re t ns nd f (matchhere_complete h)

-- `matchhere` says yes exactly on the texts with a prefix that the expression matches.
pub matchhere_iff : (re t : List ℕ) → (matchhere re t ≡ true) ↔ Here re t
matchhere_iff re t = (matchhere_sound re t, matchhere_complete)

match_from_sound : (re t : List ℕ) → match_from re t ≡ true → Found re t
unfolding match_from
match_from_sound re [] h = here (matchhere_sound re [] h)
match_from_sound re (x ∷ t) h = elim (or_split _ _ h) [
  | inl p ↦ here (matchhere_sound re (x ∷ t) p)
  | inr p ↦ there (match_from_sound re t p)
]

match_from-Here : (re t : List ℕ) → Here re t → match_from re t ≡ true
unfolding match_from
match_from-Here re [] h = matchhere_complete h
match_from-Here re (x ∷ t) h = rw (matchhere_complete h)

match_from_complete : {re t : List ℕ} → Found re t → match_from re t ≡ true
unfolding match_from
match_from_complete {re} {t} (here h) = match_from-Here re t h
match_from_complete (there h) = or_right _ _ (match_from_complete h)

match_line_sound : (re t : List ℕ) → match_line re t ≡ true → Selected re t
unfolding match_line
match_line_sound [] t h = empty
match_line_sound (c ∷ re) t h = elim (ℕ_discrete c b'^') [
  | yes e ↦ anchored e (matchhere_sound re t (ground arith))
  | no e ↦ floating e (match_from_sound (c ∷ re) t (ground arith))
]

match_line_complete : {re t : List ℕ} → Selected re t → match_line re t ≡ true
unfolding match_line
match_line_complete (anchored e h) = ground (arith, matchhere_complete h)
match_line_complete {t} empty = match_from-Here [] t done
match_line_complete (floating e h) = ground (arith, match_from_complete h)

-- grep selects a line exactly if it has a part that the expression matches, at its start under `^`.
pub match_line_iff : (re t : List ℕ) → (match_line re t ≡ true) ↔ Selected re t
match_line_iff re t = (match_line_sound re t, match_line_complete)
