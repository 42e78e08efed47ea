-- ===== src/Pipe/Queue.antt =====
-- A pipe is a queue of at most 512 bytes, also when its counts wrap round at 2 ^ 32.
use mathlib.Core.List.{append-nil, append_assoc}
use operating_system_laborat.Base.{
  ℕ, zero, suc, ◌+◌, ◌%◌, ◌^◌, ◌≤◌, ◌<◌, min, ◌≡◌, refl, sym, ap, ap₂, ◌∙◌, ◌≢◌, inl, inr, Bool,
  true, false, not, ◌&&◌, ◌||◌, List, [], ◌∷◌, ◌++◌, arith, ◌==◌, if◌then◌else◌, Bool-cases, length,
  u32, sub32,
}
use operating_system_laborat.Pipe.{
  wrote, write_failed, write_sleeps, read_bytes, read_failed, read_sleeps, read_bytes, write_sleeps,
  write_failed, copy_out, WriteEnd, pipewrite, ReadEnd, piperead, Pipe, pipesize, is_full, is_empty,
  put_byte, first_byte, drop_byte,
}

-- The n bytes of the ring from count r on.
abbrev pub window : (ℕ → ℕ) → ℕ → ℕ → List ℕ
window d r zero = []
window d r (suc n) = d (r % pipesize) ∷ window d (u32 (r + 1)) n

abbrev pub stored : Pipe → ℕ
stored p = sub32 p.nwrite p.nread

-- The bytes in the pipe, oldest first.
abbrev pub contents : Pipe → List ℕ
contents p = window p.store p.nread (stored p)

pub record IsValid (p : Pipe) : Type 0 where
  pub read_word : p.nread < 2 ^ 32
  pub write_word : p.nwrite < 2 ^ 32
  pub few : stored p ≤ pipesize

pub length-window : (d : ℕ → ℕ) (r n : ℕ) → length (window d r n) ≡ n
length-window d r zero = refl
length-window d r (suc n) = ap suc (length-window d (u32 (r + 1)) n)

-- A byte stored just behind the window joins it.
window_put :
    (d : ℕ → ℕ) (b w n r : ℕ)
    → n < pipesize
    → r < 2 ^ 32
    → w ≡ u32 (r + n)
    → window (λ i. if i == w % pipesize then b else d i) r (suc n) ≡ window d r n ++ (b ∷ [])
window_put d b w zero r h l e = ground arith
window_put d b w (suc n) r h l e =
    ap₂ ◌∷◌ (ground arith)
      (window_put d b w n (u32 (r + 1)) (omega arith) (omega arith) (omega arith))

window-suc :
    (d : ℕ → ℕ) (r n m : ℕ) → n ≡ suc m → window d r n ≡ d (r % pipesize) ∷ window d (u32 (r + 1)) m
window-suc d r n m e = rw e

pub put_byte_lem :
    (b : ℕ) (p : Pipe)
    → IsValid p
    → is_full p ≡ false
    → IsValid (put_byte b p) × (contents (put_byte b p) ≡ contents p ++ (b ∷ []))
unfolding put_byte
put_byte_lem b p v h =
    let room : stored p < pipesize = ground arith in
    let one_more : stored (put_byte b p) ≡ suc (stored p) = omega arith in
    (
      omega arith,
      rw one_more (window_put p.store b p.nwrite (stored p) p.nread room v.read_word (omega arith)),
    )

stored-drop_byte :
    (p : Pipe) → IsValid p → is_empty p ≡ false → stored p ≡ suc (stored (drop_byte p))
unfolding drop_byte
stored-drop_byte p v h = let some_left : p.nread ≢ p.nwrite = ground arith in omega arith

pub drop_byte_lem :
    (p : Pipe)
    → IsValid p
    → is_empty p ≡ false
    → IsValid (drop_byte p) × (contents p ≡ first_byte p ∷ contents (drop_byte p))
unfolding drop_byte
drop_byte_lem p v h =
    let some_left : p.nread ≢ p.nwrite = ground arith in
    (omega arith, window-suc p.store p.nread (stored p) (stored (drop_byte p)) (omega arith))

-- Why a write stopped, with these bytes left.
abbrev pub Stopped : Bool → Pipe → List ℕ → WriteEnd → Type 0
Stopped killed p left wrote = left ≡ []
Stopped killed p left write_failed =
    (is_full p ≡ true) × (left ≢ []) × ((not p.readopen || killed) ≡ true)
Stopped killed p left (write_sleeps bs) =
    (is_full p ≡ true) × (left ≢ []) × (bs ≡ left) × (p.readopen ≡ true) × (killed ≡ false)

-- What a run of `pipewrite` does to the queue.
pub record Writes (killed : Bool) (bs : List ℕ) (p : Pipe) (r : WriteEnd × Pipe) : Type 0 where
  pub put : List ℕ
  pub left : List ℕ
  pub split : bs ≡ put ++ left
  pub valid : IsValid r.1
  pub queued : contents r.1 ≡ contents p ++ put
  pub reason : Stopped killed r.1 left r.0

Writes-cons :
    (killed : Bool) (b : ℕ) (bs : List ℕ) (p : Pipe) (r : WriteEnd × Pipe)
    → contents (put_byte b p) ≡ contents p ++ (b ∷ [])
    → Writes killed bs (put_byte b p) r
    → Writes killed (b ∷ bs) p r
Writes-cons killed b bs p r h w = record {
  put = b ∷ w.put;
  left = w.left;
  split = ap (λ l. b ∷ l) w.split;
  valid = w.valid;
  queued = w.queued ∙ rw h (append_assoc (contents p) (b ∷ []) w.put);
  reason = w.reason;
}

stays_put :
    (killed : Bool) (b : ℕ) (bs : List ℕ) (p : Pipe) (e : WriteEnd)
    → IsValid p
    → Stopped killed p (b ∷ bs) e
    → Writes killed (b ∷ bs) p (e, p)
stays_put killed b bs p e v h = record {
  put = [];
  left = b ∷ bs;
  split = refl;
  valid = v;
  queued = sym (append-nil (contents p));
  reason = h;
}

-- `pipewrite` appends a first part of its bytes to the queue, in order, and keeps the pipe valid.
-- It ends with n only when all are in; it fails only with the pipe full and the reader's end closed or
-- the process killed, and otherwise sleeps only with the pipe full, on the bytes that are left.
pub pipewrite_lem :
    (killed : Bool) (bs : List ℕ) (p : Pipe)
    → IsValid p
    → Writes killed bs p (pipewrite killed bs p)
unfolding pipewrite
pipewrite_lem killed [] p v = record {
  put = [];
  left = [];
  split = refl;
  valid = v;
  queued = sym (append-nil (contents p));
  reason = refl;
}
pipewrite_lem killed (b ∷ bs) p v = elim (Bool-cases (is_full p)) [
  | inl full ↦ elim (Bool-cases (not p.readopen || killed)) [
    | inl bad ↦ rw (full, bad) (stays_put killed b bs p write_failed v (full, λ e. cc, bad))
    | inr fine ↦
        rw (full, fine)
          (stays_put killed b bs p (write_sleeps (b ∷ bs)) v (
            full,
            λ e. cc,
            refl,
            open_end p.readopen killed fine,
            not_killed p.readopen killed fine,
          ))
  ]
  | inr room ↦
      let (v', q) = put_byte_lem b p v room in
      rw room (Writes-cons killed b bs p _ q (pipewrite_lem killed bs (put_byte b p) v'))
]
  where
    open_end : (a b : Bool) → (not a || b) ≡ false → a ≡ true
    open_end true b h = refl
    open_end false b h = cc

    not_killed : (a b : Bool) → (not a || b) ≡ false → b ≡ false
    not_killed true b h = h
    not_killed false b h = cc

-- What a run of the copying loop takes from the queue.
pub record Takes (n : ℕ) (p : Pipe) (r : List ℕ × Pipe) : Type 0 where
  pub valid : IsValid r.1
  pub queued : contents p ≡ r.0 ++ contents r.1
  pub count : length r.0 ≡ min n (stored p)

pub copy_out_lem : (n : ℕ) (p : Pipe) → IsValid p → Takes n p (copy_out n p)
unfolding copy_out
copy_out_lem zero p v = record { valid = v; queued = refl; count = omega arith }
copy_out_lem (suc n) p v = elim (Bool-cases (is_empty p)) [
  | inl e ↦
      let none_left : stored p ≡ 0 = ground arith in
      rw e (record { valid = v; queued = refl; count = omega arith })
  | inr e ↦
      let (v', q) = drop_byte_lem p v e in
      let ih = copy_out_lem n (drop_byte p) v' in
      let one_less : stored p ≡ suc (stored (drop_byte p)) = stored-drop_byte p v e in
      rw e (record {
        valid = ih.valid;
        queued = q ∙ ap (λ l. first_byte p ∷ l) ih.queued;
        count = omega (arith, ih.count);
      })
]

-- What a call of `piperead` returns, and the queue it leaves.
abbrev pub Reads : Bool → ℕ → Pipe → ReadEnd × Pipe → Type 0
Reads killed n p (read_bytes bs, q) = Takes n p (bs, q) × ((stored p ≡ 0) → p.writeopen ≡ false)
Reads killed n p (read_failed, q) =
    (q ≡ p) × (stored p ≡ 0) × (p.writeopen ≡ true) × (killed ≡ true)
Reads killed n p (read_sleeps, q) =
    (q ≡ p) × (stored p ≡ 0) × (p.writeopen ≡ true) × (killed ≡ false)

-- `piperead` takes the oldest bytes from the queue, at most n and as many as there are, in order.
-- It returns no bytes from an empty pipe only if the writer's end is closed; while that is open it
-- sleeps, or fails for a killed process, and leaves the pipe as it is.
pub piperead_lem :
    (killed : Bool) (n : ℕ) (p : Pipe) → IsValid p → Reads killed n p (piperead killed n p)
unfolding piperead
piperead_lem killed n p v = elim (Bool-cases (is_empty p && p.writeopen)) [
  | inl e ↦ elim (Bool-cases killed) [
    | inl k ↦ rw (e, k) (refl, ground arith, ground arith, refl)
    | inr k ↦ rw (e, k) (refl, ground arith, ground arith, refl)
  ]
  | inr e ↦ rw e (copy_out_lem n p v, λ z. ground arith)
]
