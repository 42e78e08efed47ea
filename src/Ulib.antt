-- ===== src/Ulib.antt =====
-- ulib.c: the routines on strings for user programs. Their loops have fuel; none says that it ran out.
pub mod Decimal
use operating_system_laborat.Base.{
  ℕ, zero, suc, ◌+◌, ◌-◌, ◌*◌, Bool, not, ◌&&◌, Option, none, some, leb, ◌==◌, if◌then◌else◌, u32,
  sub32,
}
use operating_system_laborat.Bytes.{Mem, update, copy_up, rounds}

unfoldable pub strcpy : ℕ → Mem → ℕ → ℕ → Option Mem
strcpy zero m s t = none
strcpy (suc fuel) m s t =
    let rest = strcpy fuel (update m s (m t)) (s + 1) (t + 1) in
    if m t == 0 then some (update m s (m t)) else rest

-- The word of the difference.
unfoldable pub strcmp : ℕ → Mem → ℕ → ℕ → Option ℕ
strcmp zero m p q = none
strcmp (suc fuel) m p q =
    let rest = strcmp fuel m (p + 1) (q + 1) in
    if not (m p == 0) && m p == m q then rest else some (sub32 (m p) (m q))

-- The address found, 0 if the character is not there.
unfoldable pub strchr : ℕ → Mem → ℕ → ℕ → Option ℕ
strchr zero m s c = none
strchr (suc fuel) m s c =
    let rest = strchr fuel m (s + 1) c in
    if m s == 0 then some 0 else if m s == c then some s else rest

abbrev pub is_digit : ℕ → Bool
is_digit c = leb b'0' c && leb c b'9'

-- The loop of `atoi`, with the int n so far.
unfoldable pub atoi_loop : ℕ → Mem → ℕ → ℕ → Option ℕ
atoi_loop zero m s n = none
atoi_loop (suc fuel) m s n =
    let rest = atoi_loop fuel m (s + 1) (u32 (n * 10 + m s - b'0')) in
    if is_digit (m s) then rest else some n

unfoldable pub atoi : ℕ → Mem → ℕ → Option ℕ
unfolding atoi_loop
atoi fuel m s = atoi_loop fuel m s 0

-- `memmove` of ulib.c, which only copies upwards
unfoldable pub memmove_up : Mem → ℕ → ℕ → ℕ → Mem
unfolding copy_up
memmove_up m vdst vsrc n = copy_up m vdst vsrc (rounds n)
