-- ===== src/File/Refs.antt =====
-- The reference counts of the file table.
use operating_system_laborat.Base.{
  ℕ, zero, suc, ◌+◌, ◌-◌, ◌<◌, ◌≡◌, refl, ap, ◌∙◌, ◌≢◌, inl, inr, Option, none, some, List, [], ◌∷◌,
  arith, ◌==◌, if◌then◌else◌, Bool-cases, Option-cases, length, get_elem?, set, get_elem?-set_self,
  get_elem?-set_ne, get_elem?-lt, set-set, set-get_elem?, ok, panic, ℕ_discrete,
}
use operating_system_laborat.File.{
  fd_none, File, filealloc_loop, filealloc, filedup, nothing, closing, fileclose,
}

-- The number of references to file f.
abbrev pub refs : List File → ℕ → ℕ
refs fs f = elim (get_elem? fs f) [ none ↦ 0 | some x ↦ x.ref ]

refs-set :
    (fs : List File) (f g : ℕ) (x : File)
    → f < length fs
    → refs (set fs f x) g ≡ (if f == g then x.ref else refs fs g)
refs-set fs f g x h = elim (ℕ_discrete f g) [
  | yes e ↦ rw (← e) (ground (arith, get_elem?-set_self fs f x h))
  | no n ↦ ground (arith, get_elem?-set_ne fs f g x n)
]

-- What `filealloc` may answer for the entries from b on.
abbrev pub Allocated : ℕ → List File → Option ℕ × List File → Type 0
Allocated b fs (none, gs) = (gs ≡ fs) × ((j : ℕ) (x : File) → get_elem? fs j ≡ some x → x.ref ≢ 0)
Allocated b fs (some f, gs) =
    (i : ℕ) × (f ≡ b + i)
    × (i < length fs)
    × (refs fs i ≡ 0)
    × ((g : ℕ) → refs gs g ≡ (if i == g then 1 else refs fs g))

Allocated-cons :
    (b : ℕ) (x : File) (fs : List File) (r : Option ℕ × List File)
    → x.ref ≢ 0
    → Allocated (b + 1) fs r
    → Allocated b (x ∷ fs) (r.0, x ∷ r.1)
Allocated-cons b x fs (none, gs) n (e, h) = (ap (λ l. x ∷ l) e, go)
  where
    go : (j : ℕ) (y : File) → get_elem? (x ∷ fs) j ≡ some y → y.ref ≢ 0
    go zero y f = ground arith
    go (suc j) y f = h j y f
Allocated-cons b x fs (some f, gs) n (i, e, lt, z, h) = (suc i, omega arith, omega arith, z, go)
  where
    go : (g : ℕ) → refs (x ∷ gs) g ≡ (if suc i == g then 1 else refs (x ∷ fs) g)
    go zero = ground arith
    go (suc g) = ground (arith, h g)

filealloc_loop_lem : (b : ℕ) (fs : List File) → Allocated b fs (filealloc_loop b fs)
unfolding filealloc_loop
filealloc_loop_lem b [] = (refl, λ j x e. cc)
filealloc_loop_lem b (x ∷ fs) = elim (Bool-cases (x.ref == 0)) [
  | inl e ↦ rw e (0, omega arith, omega arith, ground arith, go)
  | inr e ↦ rw e (Allocated-cons b x fs _ (ground arith) (filealloc_loop_lem (b + 1) fs))
]
  where
    go : (g : ℕ) → refs (record x { ref = 1 } ∷ fs) g ≡ (if 0 == g then 1 else refs (x ∷ fs) g)
    go zero = ground arith
    go (suc g) = ground arith

-- `filealloc` answers with a free entry, which then has one reference while the other counts stay, or
-- with the null pointer and the table unchanged exactly if no entry is free.
pub filealloc_lem : (fs : List File) → Allocated 0 fs (filealloc fs)
unfolding filealloc
filealloc_lem fs = filealloc_loop_lem 0 fs

filedup_at :
    (f : ℕ) (fs : List File) (x : File)
    → get_elem? fs f ≡ some x
    → 0 < x.ref
    → filedup f fs ≡ ok (set fs f (record x { ref = x.ref + 1 }))
unfolding filedup
filedup_at f fs x e h = rw (e, filedup) (ground arith)

fileclose_at :
    (f : ℕ) (fs : List File) (x : File)
    → get_elem? fs f ≡ some x
    → 1 < x.ref
    → fileclose f fs ≡ ok (nothing, set fs f (record x { ref = x.ref - 1 }))
unfolding fileclose
fileclose_at f fs x e h = rw (e, fileclose) (ground arith)

fileclose_last :
    (f : ℕ) (fs : List File) (x : File)
    → get_elem? fs f ≡ some x
    → x.ref ≡ 1
    → fileclose f fs ≡ ok (closing x, set fs f (record x { ref = 0; type = fd_none }))
unfolding fileclose
fileclose_last f fs x e h = rw (e, fileclose) (ground arith)

fileclose_free :
    (f : ℕ) (fs : List File) (x : File)
    → get_elem? fs f ≡ some x
    → x.ref ≡ 0
    → fileclose f fs ≡ panic
unfolding fileclose
fileclose_free f fs x e h = rw (e, fileclose) (ground arith)

-- On a file in use `filedup` adds one to its count and leaves all others, and a `fileclose` after it
-- restores the table and lets nothing go.
pub filedup-fileclose :
    (f : ℕ) (fs : List File)
    → 0 < refs fs f
    → (gs : List File) × (filedup f fs ≡ ok gs)
      × ((g : ℕ) → refs gs g ≡ (if f == g then refs fs f + 1 else refs fs g))
      × (fileclose f gs ≡ ok (nothing, fs))
filedup-fileclose f fs h = elim (Option-cases (get_elem? fs f)) [
  | inl e ↦ absurd (ground arith)
  | inr (x, e) ↦
      let y : File = record x { ref = x.ref + 1 } in
      let lt : f < length fs = get_elem?-lt fs f e in
      let back : record y { ref = x.ref + 1 - 1 } ≡ x = ground arith in
      (
        set fs f y,
        filedup_at f fs x e (ground arith),
        λ g. refs-set fs f g y lt ∙ ground arith,
        fileclose_at f (set fs f y) y (get_elem?-set_self fs f y lt) (ground arith)
            ∙ ap (λ l. ok (nothing, l))
                (set-set fs f y (record y { ref = x.ref + 1 - 1 })
                  ∙ rw back (set-get_elem? fs f x e)),
      )
]

-- `fileclose` of a file that is not in use panics; otherwise its count alone goes down by one,
-- and exactly with the last reference the pipe or inode below is let go.
pub fileclose_lem :
    (f : ℕ) (fs : List File) (x : File)
    → get_elem? fs f ≡ some x
    → ((x.ref ≡ 0) → fileclose f fs ≡ panic)
      × ((0 < x.ref)
          → (gs : List File) × (fileclose f fs
              ≡ ok ((if x.ref == 1 then closing x else nothing), gs))
            × ((g : ℕ) → refs gs g ≡ (if f == g then x.ref - 1 else refs fs g)))
fileclose_lem f fs x e = (fileclose_free f fs x e, used)
  where
    lt : f < length fs
    lt = get_elem?-lt fs f e

    used :
        0 < x.ref
        → (gs : List File) × (fileclose f fs ≡ ok ((if x.ref == 1 then closing x else nothing), gs))
          × ((g : ℕ) → refs gs g ≡ (if f == g then x.ref - 1 else refs fs g))
    used h = elim (ℕ_discrete x.ref 1) [
      | yes one ↦ (
        set fs f (record x { ref = 0; type = fd_none }),
        fileclose_last f fs x e one ∙ ground arith,
        λ g. refs-set fs f g (record x { ref = 0; type = fd_none }) lt ∙ ground arith,
      )
      | no more ↦ (
        set fs f (record x { ref = x.ref - 1 }),
        fileclose_at f fs x e (omega arith) ∙ ground arith,
        λ g. refs-set fs f g (record x { ref = x.ref - 1 }) lt ∙ ground arith,
      )
    ]
