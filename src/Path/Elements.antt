-- ===== src/Path/Elements.antt =====
-- The names that the loop of namex visits are the elements of the path.
use native.Mathlib.Decide.{dec_le}
use operating_system_laborat.Base.{
  ℕ, zero, suc, ◌+◌, ◌≤◌, ◌<◌, ◌≡◌, refl, sym, ap, ap₂, ◌∙◌, subst, ◌≢◌, ◌⊎◌, inl, inr, Bool, true,
  false, none, some, List, [], ◌∷◌, ◌++◌, arith, leb, ◌==◌, if◌then◌else◌, Bool-cases, length, take,
  drop,
}
use operating_system_laborat.Path.{
  dirsiz, slash, skip_slashes, element, behind_element, put_name, skipelem, names, is_end_of_path,
}

-- A path cut at every slash.
abbrev onto_head : ℕ → List (List ℕ) → List (List ℕ)
onto_head c [] = (c ∷ []) ∷ []
onto_head c (p ∷ ps) = (c ∷ p) ∷ ps

unfoldable pub pieces : List ℕ → List (List ℕ)
pieces [] = [] ∷ []
pieces (c ∷ cs) = let rest = pieces cs in if c == slash then [] ∷ rest else onto_head c rest

abbrev pub nonempty : List (List ℕ) → List (List ℕ)
nonempty [] = []
nonempty ([] ∷ ps) = nonempty ps
nonempty ((c ∷ cs) ∷ ps) = (c ∷ cs) ∷ nonempty ps

-- The elements of a path: its pieces that are not empty.
abbrev pub elements : List ℕ → List (List ℕ)
elements p = nonempty (pieces p)

-- The string in an array: its bytes up to the first 0.
unfoldable pub string_in : List ℕ → List ℕ
string_in [] = []
string_in (c ∷ cs) = let rest = string_in cs in if c == 0 then [] else c ∷ rest

-- Each name up to its end, and true for the last one only.
abbrev pub marked : List (List ℕ) → List (List ℕ × Bool)
marked [] = []
marked (e ∷ []) = (take dirsiz e, true) ∷ []
marked (e ∷ (d ∷ es)) = (take dirsiz e, false) ∷ marked (d ∷ es)

abbrev pub strings : List (List ℕ × Bool) → List (List ℕ × Bool)
strings [] = []
strings ((n, b) ∷ ns) = (string_in n, b) ∷ strings ns

abbrev pub NoZero : List ℕ → Type 0
NoZero [] = Unit
NoZero (c ∷ cs) = (c ≢ 0) × NoZero cs

string_in-append : (s r : List ℕ) → NoZero s → string_in (s ++ (0 ∷ r)) ≡ s
unfolding string_in
string_in-append [] r h = refl
string_in-append (c ∷ cs) r h =
    let e : (c == 0) ≡ false = ground (arith, h.0) in rw (e, string_in-append cs r h.1) refl

string_in-take : (n : ℕ) (s : List ℕ) → NoZero s → string_in (take n s) ≡ take n s
unfolding string_in
string_in-take zero s h = refl
string_in-take (suc n) [] h = refl
string_in-take (suc n) (c ∷ cs) h =
    let e : (c == 0) ≡ false = ground (arith, h.0) in rw (e, string_in-take n cs h.1) refl

take-all : (n : ℕ) (s : List ℕ) → length s ≤ n → take n s ≡ s
take-all zero [] h = refl
take-all zero (c ∷ cs) h = absurd (omega arith)
take-all (suc n) [] h = refl
take-all (suc n) (c ∷ cs) h = ap (λ l. c ∷ l) (take-all n cs (omega arith))

put_name-string : (s name : List ℕ) → NoZero s → string_in (put_name s name) ≡ take dirsiz s
unfolding put_name
put_name-string s name h = elim (dec_le dirsiz (length s)) [
  | yes le ↦ let e : leb dirsiz (length s) ≡ true = ground arith in rw e (string_in-take dirsiz s h)
  | no gt ↦
      let e : leb dirsiz (length s) ≡ false = ground arith in
      rw e (string_in-append s (drop (length s + 1) name) h ∙ sym (take-all dirsiz s (omega arith)))
]

skip_slashes-NoZero : (p : List ℕ) → NoZero p → NoZero (skip_slashes p)
unfolding skip_slashes
skip_slashes-NoZero [] h = tt
skip_slashes-NoZero (c ∷ cs) h = elim (Bool-cases (c == slash)) [
  | inl e ↦ rw e (skip_slashes-NoZero cs h.1)
  | inr e ↦ rw e h
]

element-NoZero : (p : List ℕ) → NoZero p → NoZero (element p)
unfolding element
element-NoZero [] h = tt
element-NoZero (c ∷ cs) h = elim (Bool-cases (c == slash)) [
  | inl e ↦ rw e tt
  | inr e ↦ rw e (h.0, element-NoZero cs h.1)
]

behind_element-NoZero : (p : List ℕ) → NoZero p → NoZero (behind_element p)
unfolding behind_element
behind_element-NoZero [] h = tt
behind_element-NoZero (c ∷ cs) h = elim (Bool-cases (c == slash)) [
  | inl e ↦ rw e h
  | inr e ↦ rw e (behind_element-NoZero cs h.1)
]

pieces-slash : (c : ℕ) (cs : List ℕ) → (c == slash) ≡ true → pieces (c ∷ cs) ≡ [] ∷ pieces cs
unfolding pieces
pieces-slash c cs e = rw e refl

skip_slashes-slash :
    (c : ℕ) (cs : List ℕ) → (c == slash) ≡ true → skip_slashes (c ∷ cs) ≡ skip_slashes cs
unfolding skip_slashes
skip_slashes-slash c cs e = rw e refl

skip_slashes-other : (c : ℕ) (cs : List ℕ) → (c == slash) ≡ false → skip_slashes (c ∷ cs) ≡ c ∷ cs
unfolding skip_slashes
skip_slashes-other c cs e = rw e refl

behind_element-slash :
    (c : ℕ) (cs : List ℕ) → (c == slash) ≡ true → behind_element (c ∷ cs) ≡ c ∷ cs
unfolding behind_element
behind_element-slash c cs e = rw e refl

elements-skip : (p : List ℕ) → elements (skip_slashes p) ≡ elements p
unfolding skip_slashes pieces
elements-skip [] = refl
elements-skip (c ∷ cs) = elim (Bool-cases (c == slash)) [
  | inl e ↦
      ap elements (skip_slashes-slash c cs e)
      ∙ elements-skip cs
      ∙ sym (ap nonempty (pieces-slash c cs e))
  | inr e ↦ ap elements (skip_slashes-other c cs e)
]

-- The first piece is the element, and the others are behind it.
pieces-element :
    (p : List ℕ)
    → (r : List (List ℕ)) × (pieces p ≡ element p ∷ r) × (nonempty r ≡ elements (behind_element p))
unfolding pieces element behind_element
pieces-element [] = ([], refl, refl)
pieces-element (c ∷ cs) =
    let ih = pieces-element cs in
    elim (Bool-cases (c == slash)) [
      | inl e ↦ (
        pieces cs,
        rw e refl,
        sym (ap nonempty (pieces-slash c cs e)) ∙ sym (ap elements (behind_element-slash c cs e)),
      )
      | inr e ↦ (ih.0, rw (e, ih.1) refl, rw e ih.2)
    ]

length-behind_element : (p : List ℕ) → length (behind_element p) ≤ length p
unfolding behind_element
length-behind_element [] = omega arith
length-behind_element (c ∷ cs) = ground (arith, length-behind_element cs)

length-skip_slashes : (p : List ℕ) → length (skip_slashes p) ≤ length p
unfolding skip_slashes
length-skip_slashes [] = omega arith
length-skip_slashes (c ∷ cs) = ground (arith, length-skip_slashes cs)

skip_slashes-nil : skip_slashes [] ≡ []
unfolding skip_slashes
skip_slashes-nil = refl

elements-nil : elements [] ≡ []
unfolding pieces
elements-nil = refl

-- A path without leading slashes has an element unless it is empty.
skip_slashes-first :
    (p : List ℕ) (c : ℕ) (cs : List ℕ) → skip_slashes p ≡ c ∷ cs → (c == slash) ≡ false
skip_slashes-first [] c cs e = ground (arith, skip_slashes-nil)
skip_slashes-first (d ∷ ds) c cs e = elim (Bool-cases (d == slash)) [
  | inl s ↦ skip_slashes-first ds c cs (sym (skip_slashes-slash d ds s) ∙ e)
  | inr s ↦
      let same : d ∷ ds ≡ c ∷ cs = sym (skip_slashes-other d ds s) ∙ e in ground (arith, s, same)
]

element-first : (c : ℕ) (cs : List ℕ) → (c == slash) ≡ false → element (c ∷ cs) ≡ c ∷ element cs
unfolding element
element-first c cs e = rw e refl

behind_element-first :
    (c : ℕ) (cs : List ℕ) → (c == slash) ≡ false → behind_element (c ∷ cs) ≡ behind_element cs
unfolding behind_element
behind_element-first c cs e = rw e refl

elements-cons :
    (c : ℕ) (cs : List ℕ)
    → (c == slash) ≡ false
    → elements (c ∷ cs) ≡ element (c ∷ cs) ∷ elements (behind_element (c ∷ cs))
elements-cons c cs e =
    let t = pieces-element (c ∷ cs) in
    let first = element-first c cs e in
    ap nonempty (t.1 ∙ ap (λ l. l ∷ t.0) first)
    ∙ ap (λ l. (c ∷ element cs) ∷ l) t.2
    ∙ ap (λ l. l ∷ elements (behind_element (c ∷ cs))) (sym first)

-- The test for the last element.
marked-cons :
    (e q : List ℕ) (f : List (List ℕ))
    → ((c : ℕ) (cs : List ℕ) → q ≡ c ∷ cs → (c == slash) ≡ false)
    → elements q ≡ f
    → marked (e ∷ f) ≡ (take dirsiz e, is_end_of_path q) ∷ marked f
marked-cons e [] f g h =
    subst (λ k. marked (e ∷ k) ≡ (take dirsiz e, true) ∷ marked k) (sym elements-nil ∙ h) refl
marked-cons e (c ∷ cs) f g h =
    subst (λ k. marked (e ∷ k) ≡ (take dirsiz e, false) ∷ marked k)
      (sym (elements-cons c cs (g c cs refl)) ∙ h) refl

skipelem-none : (p name : List ℕ) → skip_slashes p ≡ [] → skipelem p name ≡ none
unfolding skipelem
skipelem-none p name e = rw (e, skipelem) refl

skipelem-some :
    (p name : List ℕ) (c : ℕ) (cs : List ℕ)
    → skip_slashes p ≡ c ∷ cs
    → skipelem p name
      ≡ some (skip_slashes (behind_element (c ∷ cs)), put_name (element (c ∷ cs)) name)
unfolding skipelem
skipelem-some p name c cs e = rw (e, skipelem) refl

names-none : (f : ℕ) (p name : List ℕ) → skipelem p name ≡ none → names (suc f) p name ≡ []
unfolding names
names-none f p name e = rw (e, names) refl

names-some :
    (f : ℕ) (p name p' name' : List ℕ)
    → skipelem p name ≡ some (p', name')
    → names (suc f) p name ≡ (name', is_end_of_path p') ∷ names f p' name'
unfolding names
names-some f p name p' name' e = rw (e, names) refl

list_cases : (l : List ℕ) → (l ≡ []) ⊎ ((c : ℕ) × (cs : List ℕ) × (l ≡ c ∷ cs))
list_cases [] = inl refl
list_cases (c ∷ cs) = inr (c, cs, refl)

-- The loop of `namex` visits the elements of the path, in order: with as many rounds as the path has bytes and one more, the
-- names that `skipelem` fills are exactly the pieces between slashes that are not empty, each cut
-- after 14 bytes, and the test `*path == 0` is true at the last one only.
pub names-elements :
    (f : ℕ) (p name : List ℕ)
    → length p < f
    → NoZero p
    → strings (names f p name) ≡ marked (elements p)
names-elements zero p name lt z = absurd (omega arith)
names-elements (suc f) p name lt z = elim (list_cases (skip_slashes p)) [
  | inl e ↦
      ap strings (names-none f p name (skipelem-none p name e))
      ∙ ap marked (sym elements-nil ∙ ap elements (sym e) ∙ elements-skip p)
  | inr w ↦
      let c = w.0 in
      let cs = w.1 in
      let first = skip_slashes-first p c cs w.2 in
      let q : List ℕ = behind_element (c ∷ cs) in
      let e : List ℕ = element (c ∷ cs) in
      let clean : NoZero (c ∷ cs) = subst NoZero w.2 (skip_slashes-NoZero p z) in
      let shorter : length (skip_slashes q) < f = omega (
        arith,
        length-skip_slashes q,
        length-behind_element cs,
        ap (length {A = ℕ}) (behind_element-first c cs first),
        length-skip_slashes p,
        ap (length {A = ℕ}) w.2,
      ) in
      let ih =
        names-elements f (skip_slashes q) (put_name e name) shorter
          (skip_slashes-NoZero q (behind_element-NoZero (c ∷ cs) clean)) in
      let all : elements p ≡ e ∷ elements (skip_slashes q) =
        sym (elements-skip p)
        ∙ ap elements w.2
        ∙ elements-cons c cs first
        ∙ ap (λ l. e ∷ l) (sym (elements-skip q)) in
      ap strings
        (names-some f p name (skip_slashes q) (put_name e name) (skipelem-some p name c cs w.2))
      ∙ ap₂ (λ (s : List ℕ) (l : List (List ℕ × Bool)). (s, is_end_of_path (skip_slashes q)) ∷ l)
          (put_name-string e name (element-NoZero (c ∷ cs) clean)) ih
      ∙ sym (
          ap marked all
          ∙ marked-cons e (skip_slashes q) (elements (skip_slashes q)) (skip_slashes-first q) refl)
]
