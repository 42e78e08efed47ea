-- ===== src/Bytes/Move.antt =====
-- memset, memmove: every byte of memory after the call.
use operating_system_laborat.Base.{
  ℕ, zero, suc, ◌+◌, ◌-◌, ◌*◌, ◌/◌, ◌%◌, ◌≤◌, ◌<◌, ◌≡◌, ◌⊎◌, Bool, ◌&&◌, arith, ltb, leb,
  if◌then◌else◌,
}
use operating_system_laborat.Bytes.{
  Mem, update, stosb, stosl, store32, spread, memset, copy_up, copy_down, memmove,
}

-- a lies among the n addresses from d on
abbrev pub within : ℕ → ℕ → ℕ → Bool
within d n a = leb d a && ltb a (d + n)

pub copy_up_lem :
    (n : ℕ) (m : Mem) (d s a : ℕ)
    → (d ≤ s) ⊎ (s + n ≤ d)
    → copy_up m d s n a ≡ (if within d n a then m (s + a - d) else m a)
unfolding copy_up
copy_up_lem zero m d s a h = ground arith
copy_up_lem (suc n) m d s a h = ground (arith, copy_up_lem n (update m d (m s)) (d + 1) (s + 1) a)

pred_end : (d n : ℕ) → d + suc n - 1 ≡ d + n
pred_end d n = omega arith

pub copy_down_lem :
    (n : ℕ) (m : Mem) (d s a : ℕ)
    → s < d
    → copy_down m (d + n) (s + n) n a ≡ (if within d n a then m (s + a - d) else m a)
unfolding copy_down
copy_down_lem zero m d s a h = ground arith
copy_down_lem (suc n) m d s a h =
    rw (pred_end d n, pred_end s n)
      (ground (arith, copy_down_lem n (update m (d + n) (m (s + n))) d s a h))

-- After `memmove` each of the n bytes from d on is the byte that its counterpart from s on was before,
-- whether the two areas overlap or not, and no other byte has changed.
pub memmove_lem :
    (m : Mem) (d s n a : ℕ) → memmove m d s n a ≡ (if within d n a then m (s + a - d) else m a)
unfolding memmove
memmove_lem m d s n a = ground (arith, copy_up_lem n m d s a, copy_down_lem n m d s a)

stosb_lem :
    (n : ℕ) (m : Mem) (d c a : ℕ) → stosb m d c n a ≡ (if within d n a then c % 256 else m a)
unfolding stosb
stosb_lem zero m d c a = ground arith
stosb_lem (suc n) m d c a = ground (arith, stosb_lem n (update m d (c % 256)) (d + 1) c a)

spread_bytes :
    (c : ℕ)
    → c < 256
    → (spread c % 256 ≡ c)
      × (spread c / 256 % 256 ≡ c)
      × (spread c / 65536 % 256 ≡ c)
      × (spread c / 16777216 % 256 ≡ c)
spread_bytes c h = omega arith

store32_lem :
    (m : Mem) (d c a : ℕ) → c < 256 → store32 m d (spread c) a ≡ (if within d 4 a then c else m a)
unfolding store32
store32_lem m d c a h = ground (arith, spread_bytes c h)

stosl_lem :
    (n : ℕ) (m : Mem) (d c a : ℕ)
    → c < 256
    → stosl m d (spread c) n a ≡ (if within d (4 * n) a then c else m a)
unfolding stosl
stosl_lem zero m d c a h = ground arith
stosl_lem (suc n) m d c a h =
    ground (arith, stosl_lem n (store32 m d (spread c)) (d + 4) c a h, store32_lem m d c a h)

-- After `memset` each of the n bytes from d on is the low byte of c, whether they were stored as words or
-- one by one, and no other byte has changed.
pub memset_lem :
    (m : Mem) (d c n a : ℕ) → memset m d c n a ≡ (if within d n a then c % 256 else m a)
unfolding memset
memset_lem m d c n a = ground (arith, stosb_lem n m d c a, stosl_lem (n / 4) m d (c % 256) a)
