-- ===== src/Console/Shift.antt =====
-- The loops that move the characters behind the cursor, and the cursor on the screen.
use native.Mathlib.Decide.{dec_lt}
use operating_system_laborat.Base.{
  ℕ, zero, suc, ◌+◌, ◌-◌, ◌*◌, ◌/◌, ◌≤◌, ◌≡◌, refl, ap, ◌⊎◌, inl, inr, true, false, ◌&&◌, arith,
  ltb, leb, if◌then◌else◌, ok, ℕ_discrete,
}
use operating_system_laborat.Bytes.{Mem, update}
use operating_system_laborat.Console.{shift_down, shift_up, Console, settle, scroll}

pub shift_down_lem :
    (n : ℕ) (b : Mem) (lo j : ℕ)
    → shift_down b lo n j ≡ (if leb lo j && ltb j (lo + n) then b (j + 1) else b j)
unfolding shift_down
shift_down_lem zero b lo j = ground arith
shift_down_lem (suc n) b lo j =
    ground (arith, shift_down_lem n (update b lo (b (lo + 1))) (lo + 1) j)

pub shift_up_lem :
    (n : ℕ) (b : Mem) (lo j : ℕ)
    → shift_up b lo n j ≡ (if ltb lo j && leb j (lo + n) then b (j - 1) else b j)
unfolding shift_up
shift_up_lem zero b lo j = ground arith
shift_up_lem (suc n) b lo j =
    let ih = shift_up_lem n (update b (lo + suc n) (b (lo + n))) lo j in
    elim (ℕ_discrete j (lo + suc n)) [
      | yes e ↦ let at : b (j - 1) ≡ b (lo + n) = ap b (omega arith) in ground (arith, ih)
      | no ne ↦ ground (arith, ih)
    ]

-- `cgaputc` does not panic at a position up to the end of row 24; it leaves the line as it is, and scrolls
-- where the position is on row 24.
pub settle_lem :
    (c : Console)
    → c.pos ≤ 25 * 80
    → (d : Console) × (settle c ≡ ok d)
      × (d.input ≡ c.input)
      × (d.lefts ≡ c.lefts)
      × (d.pos ≤ c.pos)
      × ((d.pos ≡ c.pos) ⊎ (23 * 80 ≤ d.pos))
unfolding settle
settle_lem c h =
    let calm : ltb (25 * 80) c.pos ≡ false = ground arith in
    elim (dec_lt c.pos (24 * 80)) [
      | yes lt ↦
          let stay : leb 24 (c.pos / 80) ≡ false = ground arith in
          (
            record c { crt = update c.crt (c.pos + c.lefts) (32 + 0x700) },
            rw (calm, stay) refl,
            refl,
            refl,
            omega arith,
            inl refl,
          )
      | no ge ↦
          let up : leb 24 (c.pos / 80) ≡ true = ground arith in
          let d : Console = record c { crt = scroll c.crt (c.pos - 80); pos = c.pos - 80 } in
          (
            record d { crt = update d.crt (d.pos + d.lefts) (32 + 0x700) },
            rw (calm, up) refl,
            refl,
            refl,
            omega arith,
            inr (omega arith),
          )
    ]
