-- ===== src/Proc/Wait/Reap.antt =====
-- Which child wait finds.
use operating_system_laborat.Base.{
  ℕ, zero, suc, ◌+◌, ◌≡◌, refl, ◌↔◌, ◌⊎◌, inl, inr, Bool, true, false, ◌&&◌, Option, none, some,
  List, [], ◌∷◌, arith, if◌then◌else◌, Bool-cases, get_elem?,
}
use operating_system_laborat.Proc.{Proc, is_parent, is_zombie}
use operating_system_laborat.Proc.Wait.{wait_scan}

abbrev pub child_of : ℕ → Proc → Bool
child_of cur p = is_parent p.parent cur

-- A child of cur stands somewhere in the table.
abbrev pub HasChild : ℕ → List Proc → Type 0
HasChild cur ps = (j : ℕ) × (p : Proc) × (get_elem? ps j ≡ some p) × (child_of cur p ≡ true)

-- What a scan of the table may answer, from index b on.
abbrev pub Scanned : ℕ → List Proc → ℕ → Bool → Option ℕ × Bool → Type 0
Scanned cur ps b kids (none, k) =
    ((j : ℕ) (p : Proc)
      → get_elem? ps j ≡ some p
      → child_of cur p ≡ true
      → is_zombie p.state ≡ false)
    × ((k ≡ true) ↔ ((kids ≡ true) ⊎ HasChild cur ps))
Scanned cur ps b kids (some i, k) =
    (j : ℕ) × (p : Proc) × (i ≡ b + j)
    × (get_elem? ps j ≡ some p)
    × (child_of cur p ≡ true)
    × (is_zombie p.state ≡ true)

scan_next :
    (cur : ℕ) (p : Proc) (ps : List Proc) (b : ℕ) (kids : Bool) (r : Option ℕ × Bool)
    → (child_of cur p && is_zombie p.state) ≡ false
    → Scanned cur ps (b + 1) (if child_of cur p then true else kids) r
    → Scanned cur (p ∷ ps) b kids r
scan_next cur p ps b kids (none, k) n (h, (f, g)) = (quiet, (to, from))
  where
    quiet :
        (j : ℕ) (q : Proc)
        → get_elem? (p ∷ ps) j ≡ some q
        → child_of cur q ≡ true
        → is_zombie q.state ≡ false
    quiet zero q e c = ground arith
    quiet (suc j) q e c = h j q e c

    back :
        ((if child_of cur p then true else kids) ≡ true) ⊎ HasChild cur ps
        → (kids ≡ true) ⊎ HasChild cur (p ∷ ps)
    back (inl e) = elim (Bool-cases (child_of cur p)) [
      | inl c ↦ inr (0, p, refl, c)
      | inr c ↦ inl (rw c at e)
    ]
    back (inr (j, q, e, c)) = inr (suc j, q, e, c)

    to : k ≡ true → (kids ≡ true) ⊎ HasChild cur (p ∷ ps)
    to e = back (f e)

    from : (kids ≡ true) ⊎ HasChild cur (p ∷ ps) → k ≡ true
    from (inl e) = g (inl (ground arith))
    from (inr (zero, q, e, c)) = g (inl (ground arith))
    from (inr (suc j, q, e, c)) = g (inr (j, q, e, c))
scan_next cur p ps b kids (some i, k) n (j, q, e, f, c, z) = (suc j, q, omega arith, f, c, z)

-- One scan of `wait` finds a child of the process that has exited, if there is one; otherwise it
-- finds none, and `havekids` tells whether the process has any child.
pub wait_scan_lem :
    (cur b : ℕ) (kids : Bool) (ps : List Proc) → Scanned cur ps b kids (wait_scan cur b kids ps)
unfolding wait_scan
wait_scan_lem cur b kids [] =
    ((λ j p e. cc), ((λ e. inl e), λ h. elim h [ inl e ↦ e | inr (j, p, e, c) ↦ absurd (cc) ]))
wait_scan_lem cur b kids (p ∷ ps) = elim (Bool-cases (child_of cur p && is_zombie p.state)) [
  | inl y ↦ rw y (0, p, omega arith, refl, ground arith, ground arith)
  | inr n ↦ rw n (
      scan_next cur p ps b kids _ n
        (wait_scan_lem cur (b + 1) (if child_of cur p then true else kids) ps))
]
