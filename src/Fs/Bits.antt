-- ===== src/Fs/Bits.antt =====
-- The bits of a byte of the block map, checked for every byte.
use Prim.Native.Nat.{bit_and, bit_or}
use operating_system_laborat.Base.{
  ℕ, zero, suc, ◌-◌, ◌^◌, ◌<◌, ◌≡◌, refl, Bool, true, false, arith, ◌==◌, if◌then◌else◌, ℕ_discrete,
}

-- Whether f holds at each number under the bound.
holds_under : (ℕ → Bool) → ℕ → Bool
holds_under f zero = true
holds_under f (suc bound) = let rest = holds_under f bound in if f bound then rest else false

holds_under_top :
    (f : ℕ → Bool) (bound : ℕ)
    → holds_under f (suc bound) ≡ true
    → (f bound ≡ true) × (holds_under f bound ≡ true)
unfolding holds_under
holds_under_top f bound e = (ground arith, ground arith)

holds_under_at : (f : ℕ → Bool) (bound i : ℕ) → i < bound → holds_under f bound ≡ true → f i ≡ true
holds_under_at f zero i lt e = absurd (omega arith)
holds_under_at f (suc bound) i lt e = elim (ℕ_discrete i bound) [
  | yes last ↦ rw last ((holds_under_top f bound e).0)
  | no earlier ↦ holds_under_at f bound i (omega arith) ((holds_under_top f bound e).1)
]

same : Bool → Bool → Bool
same true b = b
same false true = false
same false false = true

same_sound : (a b : Bool) → same a b ≡ true → a ≡ b
unfolding same
same_sound true b h = ground arith
same_sound false true h = cc
same_sound false false h = refl

or_right : ℕ → ℕ → ℕ → Bool
unfolding same
or_right x k j =
    same (bit_and (bit_or x (2 ^ k)) (2 ^ j) == 0)
      (if j == k then false else bit_and x (2 ^ j) == 0)

and_right : ℕ → ℕ → ℕ → Bool
unfolding same
and_right x k j =
    same (bit_and (bit_and x (255 - 2 ^ k)) (2 ^ j) == 0)
      (if j == k then true else bit_and x (2 ^ j) == 0)

or_table : holds_under (λ x. holds_under (λ k. holds_under (or_right x k) 8) 8) 256 ≡ true
unfolding holds_under or_right
or_table = refl

and_table : holds_under (λ x. holds_under (λ k. holds_under (and_right x k) 8) 8) 256 ≡ true
unfolding holds_under and_right
and_table = refl

table_sound :
    (p : ℕ → ℕ → ℕ → Bool) (x k j : ℕ)
    → holds_under (λ x. holds_under (λ k. holds_under (p x k) 8) 8) 256 ≡ true
    → x < 256
    → k < 8
    → j < 8
    → p x k j ≡ true
table_sound p x k j t hx hk hj =
    let of_byte = holds_under_at (λ x. holds_under (λ k. holds_under (p x k) 8) 8) 256 x hx t in
    let of_mask = holds_under_at (λ k. holds_under (p x k) 8) 8 k hk of_byte in
    holds_under_at (p x k) 8 j hj of_mask

pub bit_or-bit :
    (x k j : ℕ)
    → x < 256
    → k < 8
    → j < 8
    → (bit_and (bit_or x (2 ^ k)) (2 ^ j) == 0) ≡ (if j == k then false else bit_and x (2 ^ j) == 0)
unfolding or_right
bit_or-bit x k j hx hk hj = same_sound _ _ (table_sound or_right x k j or_table hx hk hj)

pub bit_and-bit :
    (x k j : ℕ)
    → x < 256
    → k < 8
    → j < 8
    → (bit_and (bit_and x (255 - 2 ^ k)) (2 ^ j) == 0)
      ≡ (if j == k then true else bit_and x (2 ^ j) == 0)
unfolding and_right
bit_and-bit x k j hx hk hj = same_sound _ _ (table_sound and_right x k j and_table hx hk hj)
