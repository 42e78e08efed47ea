-- ===== src/File/Chunks.antt =====
-- How `filewrite` cuts a write to a file into transactions.
use operating_system_laborat.Base.{
  ℕ, zero, suc, ◌+◌, ◌-◌, ◌^◌, ◌≤◌, ◌<◌, min, ◌≡◌, refl, ap, ◌∙◌, subst, true, false, ◌&&◌, List,
  [], ◌∷◌, arith, ltb, leb, ◌==◌, if◌then◌else◌, length, get_or, take, drop, length-take, u32, slt,
  Outcome, ok,
}
use operating_system_laborat.File.{fd_inode, File, max_chunk, write_loop, filewrite}
use operating_system_laborat.Inode.Laid.{get_or-drop, length-drop}
use operating_system_laborat.Inode.Writing.{two_parts, second_part, first_part, taken}

-- Of the bytes of a file below index n, those from off on are now bs, and the others are as they were.
abbrev pub Replaced : (ℕ → ℕ) → (ℕ → ℕ) → ℕ → ℕ → List ℕ → Type 0
Replaced old new n off bs =
    (i : ℕ)
    → i < n
    → new i ≡ (if leb off i && ltb i (off + length bs) then get_or bs (i - off) 0 else old i)

Replaced-nothing : (old : ℕ → ℕ) (n off : ℕ) → Replaced old old n off []
Replaced-nothing old n off i lt = ground arith

-- A part of the bytes is written, then the rest behind it.
Replaced-parts :
    (old mid new : ℕ → ℕ) (n off m : ℕ) (bs : List ℕ)
    → m ≤ length bs
    → Replaced old mid n off (take m bs)
    → Replaced mid new n (off + m) (drop m bs)
    → Replaced old new n off bs
Replaced-parts old mid new n off m bs h first rest i lt =
    let got = get_or-drop m bs (i - (off + m)) in
    let len : length (take m bs) ≡ min m (length bs) = length-take m bs in
    two_parts m off i (new i) (mid i) (old i) bs h
      (rest i lt ∙ second_part m off i (mid i) bs (drop m bs) (length-drop m bs) got)
      (first i lt ∙ first_part m off i (old i) bs (take m bs) len h (taken m (i - off) bs))

-- The layers below. For each inode ip, `Fine ip` holds of the states in which its file can be
-- written, up to the size `size ip`, and `contents ip` gives its bytes.
module _ {S : Type 0} (pipe_read : ℕ → ℕ → S → ℕ × S) (pipe_write : ℕ → List ℕ → S → ℕ × S)
    (read_inode : ℕ → ℕ → ℕ → S → ℕ × S) (write_inode : ℕ → List ℕ → ℕ → S → ℕ × S)
    (Fine : ℕ → S → Type 0) (size : ℕ → ℕ) (contents : ℕ → S → ℕ → ℕ)
    -- a write within the file of bytes that fit one transaction is done in full
    (full : (ip : ℕ) (bs : List ℕ) (off : ℕ) (s : S)
      → Fine ip s
      → length bs ≤ max_chunk
      → off + length bs ≤ size ip
      → ((write_inode ip bs off s).0 ≡ length bs)
        × Fine ip (write_inode ip bs off s).1
        × Replaced (contents ip s) (contents ip (write_inode ip bs off s).1) (size ip) off bs) where
  abbrev loop : ℕ → File → List ℕ → ℕ → S → Outcome (ℕ × File × S)
  loop = write_loop pipe_read pipe_write read_inode write_inode

  -- The loop goes through, and writes all its bytes.
  abbrev Through : File → List ℕ → ℕ → S → Outcome (ℕ × File × S) → Type 0
  Through f left i s r =
      (f' : File) × (s' : S) × (r ≡ ok (i + length left, f', s'))
      × (f'.off ≡ f.off + length left)
      × Fine f.ip s'
      × Replaced (contents f.ip s) (contents f.ip s') (size f.ip) f.off left

  abbrev chunk : List ℕ → ℕ
  chunk left = min (length left) max_chunk

  -- One round, in the shape that the induction wants.
  one_round :
      (fuel : ℕ) (f : File) (b : ℕ) (bs : List ℕ) (i n : ℕ) (s s' : S)
      → write_inode f.ip (take (chunk (b ∷ bs)) (b ∷ bs)) f.off s ≡ (n, s')
      → n ≡ chunk (b ∷ bs)
      → loop (suc fuel) f (b ∷ bs) i s
        ≡ loop fuel (record f { off = u32 (f.off + n) }) (drop (chunk (b ∷ bs)) (b ∷ bs)) (i + n) s'
  unfolding write_loop
  one_round fuel f b bs i n s s' e h =
      let small : n ≤ 1536 = omega arith in
      let some_bytes : 0 < n = omega arith in
      let not_failed : slt n 0 ≡ false = ground arith in
      let moved : slt 0 n ≡ true = ground arith in
      let whole : (n == chunk (b ∷ bs)) ≡ true = ground arith in
      rw (e, write_loop) (rw (not_failed, moved, whole))

  write_loop_lem :
      (fuel : ℕ) (f : File) (left : List ℕ) (i : ℕ) (s : S)
      → length left < fuel
      → f.off + length left ≤ size f.ip
      → size f.ip < 2 ^ 32
      → Fine f.ip s
      → Through f left i s (loop fuel f left i s)
  unfolding write_loop
  write_loop_lem zero f left i s h o g v = absurd (omega arith)
  write_loop_lem (suc fuel) f [] i s h o g v = (
    f,
    s,
    ap (λ n. ok (n, f, s)) (omega arith),
    omega arith,
    v,
    Replaced-nothing (contents f.ip s) (size f.ip) f.off,
  )
  write_loop_lem (suc fuel) f (b ∷ bs) i s h o g v =
      let left : List ℕ = b ∷ bs in
      let n : ℕ = chunk (b ∷ bs) in
      let small : length (take n (b ∷ bs)) ≡ n = omega (arith, length-take n (b ∷ bs)) in
      let w = full f.ip (take n (b ∷ bs)) f.off s v (omega arith) (omega arith) in
      let s1 : S = (write_inode f.ip (take n (b ∷ bs)) f.off s).1 in
      let step = one_round fuel f b bs i n s s1 (ap (λ c. (c, s1)) (w.0 ∙ small)) refl in
      let len = length-drop n (b ∷ bs) in
      let moved : u32 (f.off + n) ≡ f.off + n = omega arith in
      let ih =
        write_loop_lem fuel (record f { off = u32 (f.off + n) }) (drop n (b ∷ bs)) (i + n) s1
          (omega (arith, len)) (omega (arith, len, moved)) g w.1 in
      let rest : Replaced (contents f.ip s1) (contents f.ip ih.1) (size f.ip) (f.off + n)
          (drop n (b ∷ bs)) =
        subst
          (λ k. Replaced (contents f.ip s1) (contents f.ip ih.1) (size f.ip) k (drop n (b ∷ bs)))
          moved ih.5 in
      (
        ih.0,
        ih.1,
        step ∙ ih.2 ∙ ap (λ m. ok (m, ih.0, ih.1)) (omega (arith, len)),
        ih.3 ∙ omega (arith, len, moved),
        ih.4,
        Replaced-parts (contents f.ip s) (contents f.ip s1) (contents f.ip ih.1) (size f.ip) f.off n
            (b ∷ bs) (omega arith) w.2 rest,
      )

  -- A write of any length within a file that is open for writing returns its length, moves the
  -- offset by it, and leaves in the file all the bytes from the old offset on and every other byte
  -- as it was, provided that the inode layer does so for the bytes of one transaction, at most 1536,
  -- in each of the states `Fine`.
  pub filewrite_lem :
      (f : File) (bytes : List ℕ) (s : S)
      → f.type ≡ fd_inode
      → f.writable ≡ true
      → f.off + length bytes ≤ size f.ip
      → size f.ip < 2 ^ 32
      → Fine f.ip s
      → (f' : File) × (s' : S) × (filewrite pipe_read pipe_write read_inode write_inode f bytes s
          ≡ ok (length bytes, f', s'))
        × (f'.off ≡ f.off + length bytes)
        × Fine f.ip s'
        × Replaced (contents f.ip s) (contents f.ip s') (size f.ip) f.off bytes
  unfolding filewrite
  filewrite_lem f bytes s t w o g v =
      let r = write_loop_lem (suc (length bytes)) f bytes 0 s (omega arith) o g v in
      (r.0, r.1, rw (w, t, r.2) (ground arith), r.3, r.4, r.5)
