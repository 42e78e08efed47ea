-- ===== src/Log/States.antt =====
-- The states of the disk that a commit goes through, write by write.
use operating_system_laborat.Base.{
  ℕ, ◌+◌, ◌<◌, ◌≡◌, refl, sym, ap, ◌∙◌, subst, ◌⊎◌, inl, inr, some, List, [], ◌∷◌, arith, get_elem?,
  ℕ_discrete,
}
use operating_system_laborat.Bytes.{Mem}
use operating_system_laborat.Kalloc.{load32}
use operating_system_laborat.Log.{
  Disk, Machine, bwrite, write_log, write_head, install_trans, header, set_header,
}
use operating_system_laborat.Log.Header.{header-set_header, count-set_header}
use operating_system_laborat.Log.Crash.{Home, Absent, Fits, Old, Mid, New, bwrite_frame}
use operating_system_laborat.Log.Commit.{
  write_log_lem, write_log-Old, install_trans_lem, Writes, bwrite_left, bwrite_cache,
}

pub bwrite_dead : (s : Machine) (b : ℕ) (x : Mem) → s.left ≡ 0 → (bwrite b x s).disk ≡ s.disk
unfolding bwrite
bwrite_dead s b x h = ground arith

pub bwrite_alive : (s : Machine) (b : ℕ) (x : Mem) → 0 < s.left → (bwrite b x s).disk b ≡ x
unfolding bwrite
bwrite_alive s b x h = ground arith

install_dead :
    (start tail : ℕ) (bs : List ℕ) (s : Machine)
    → s.left ≡ 0
    → ((install_trans start tail bs s).left ≡ 0) × ((install_trans start tail bs s).disk ≡ s.disk)
unfolding install_trans bwrite
install_dead start tail [] s z = (z, refl)
install_dead start tail (b ∷ bs) s z =
    let s1 : Machine = bwrite b (s.cache (start + tail + 1)) s in
    let z1 : s1.left ≡ 0 = ground arith in
    let (l, d) = install_dead start (tail + 1) bs s1 z1 in
    (l, d ∙ bwrite_dead s b (s.cache (start + tail + 1)) z)

header_dead :
    (start : ℕ) (lh : List ℕ) (s : Machine) → s.left ≡ 0 → (write_head start lh s).left ≡ 0
unfolding write_head bwrite
header_dead start lh s z = ground arith

-- The cache after write_head, but for the header block itself.
header_cache :
    (start : ℕ) (lh : List ℕ) (s : Machine) (a : ℕ)
    → start < a
    → (write_head start lh s).cache a ≡ s.cache a
unfolding write_head
header_cache start lh s a lt = bwrite_cache s start (set_header lh (s.cache start)) a ∙ ground arith

pub header_write :
    (start : ℕ) (lh : List ℕ) (s : Machine)
    → write_head start lh s ≡ bwrite start (set_header lh (s.cache start)) s
unfolding write_head
header_write start lh s = refl

module _ (start size : ℕ) (D C : Disk) (lh : List ℕ) (fits : Fits start size lh) where
  abbrev pub OldD : Disk → Type 0
  OldD = Old start size D C lh

  abbrev pub MidD : Disk → Type 0
  MidD = Mid start size D C lh

  abbrev pub NewD : Disk → Type 0
  NewD = New start size D C lh

  -- The write of the header is the point at which the transaction takes effect.
  place_header :
      (s : Machine) (x : Mem)
      → header x ≡ lh
      → OldD s.disk
      → ((b : ℕ) → Home start size b → Absent b lh → C b ≡ D b)
      → (0 < s.left → (t b : ℕ) → get_elem? lh t ≡ some b → s.disk (start + t + 1) ≡ C b)
      → ((s.left ≡ 0) × OldD (bwrite start x s).disk) ⊎ MidD (bwrite start x s).disk
  place_header s x hd o agree logged = elim (ℕ_discrete s.left 0) [
    | yes z ↦ inl (z, subst OldD (sym (bwrite_dead s start x z)) o)
    | no nz ↦
        let pos : 0 < size = omega (arith, fits.short) in
        inr (record {
          listed = ap header (bwrite_alive s start x (omega arith)) ∙ hd;
          logged = λ t b e.
              bwrite_frame s start x (start + t + 1) (omega arith) ∙ logged (omega arith) t b e;
          outside =
              λ b h a. bwrite_frame s start x b (ground arith) ∙ o.before b h ∙ sym (agree b h a);
        })
  ]

  -- The log is cleared once every home block is up to date.
  clear_header :
      (s : Machine) (x : Mem)
      → load32 x 0 ≡ 0
      → MidD s.disk
      → (0 < s.left → (b : ℕ) → Home start size b → s.disk b ≡ C b)
      → (MidD (bwrite start x s).disk ⊎ NewD (bwrite start x s).disk)
        × (0 < s.left → NewD (bwrite start x s).disk)
  clear_header s x z m all = elim (ℕ_discrete s.left 0) [
    | yes dead ↦
        (inl (subst MidD (sym (bwrite_dead s start x dead)) m), λ alive. absurd (omega arith))
    | no nz ↦ (inr (new (omega arith)), new)
  ]
    where
      new : 0 < s.left → NewD (bwrite start x s).disk
      new alive =
          let pos : 0 < size = omega (arith, fits.short) in
          record {
            cleared = ap (λ m. load32 m 0) (bwrite_alive s start x alive) ∙ z;
            after = λ b h. bwrite_frame s start x b (ground arith) ∙ all alive b h;
          }

  -- The writes of a commit, one after another.
  abbrev pub all_writes : List ℕ → Machine → Machine
  all_writes bs s =
      write_head start [] (install_trans start 0 bs (write_head start bs (write_log start 0 bs s)))

  -- What the writes of a commit may leave: the old state, the whole log, or the new state; and the new
  -- state if all of them have reached the disk.
  abbrev pub Left : Machine → Type 0
  Left s = (OldD s.disk ⊎ (MidD s.disk ⊎ NewD s.disk)) × (0 < s.left → NewD s.disk)

  -- What an installation may leave: the whole log, or the new state.
  abbrev pub Installed : Machine → Type 0
  Installed s = (MidD s.disk ⊎ NewD s.disk) × (0 < s.left → NewD s.disk)

  lost :
      (s2 : Machine)
      → s2.left ≡ 0
      → OldD s2.disk
      → Left (write_head start [] (install_trans start 0 lh s2))
  unfolding write_head
  lost s2 z o =
      let (z3, d3) = install_dead start 0 lh s2 z in
      let s3 : Machine = install_trans start 0 lh s2 in
      (
        inl (subst OldD (sym (bwrite_dead s3 start (set_header [] (s3.cache start)) z3 ∙ d3)) o),
        λ alive.
            absurd (omega (arith, (bwrite_left s3 start (set_header [] (s3.cache start)) alive).0)),
      )

  pub installed :
      (s2 : Machine)
      → MidD s2.disk
      → ((t b : ℕ) → get_elem? lh t ≡ some b → s2.cache (start + (0 + t) + 1) ≡ C b)
      → Installed (write_head start [] (install_trans start 0 lh s2))
  unfolding write_head
  installed s2 m c =
      let s3 : Machine = install_trans start 0 lh s2 in
      let (m3, done) =
        install_trans_lem start size C lh fits D 0 lh s2
          (λ t b e. ap (get_elem? lh) (omega arith) ∙ e) m c (λ b h a alive. m.outside b h a) in
      let (states, new) =
        clear_header s3 (set_header [] (s3.cache start))
          (count-set_header [] (s3.cache start) (omega arith)) m3 (λ alive. (done alive).1) in
      (states, λ alive. new (bwrite_left s3 start (set_header [] (s3.cache start)) alive).0)

  pub all_writes-Left :
      (s : Machine)
      → OldD s.disk
      → ((b : ℕ) → Home start size b → s.cache b ≡ C b)
      → ((b : ℕ) → Home start size b → Absent b lh → C b ≡ D b)
      → Left (all_writes lh s)
  all_writes-Left s o c agree = elim placed [
    | inl (z, o2) ↦ lost (write_head start lh s1) (header_dead start lh s1 z) (same_old o2)
    | inr m2 ↦
        let (states, new) = installed (write_head start lh s1) (same_mid m2) in_cache in
        (inr states, new)
  ]
    where
      s1 : Machine
      s1 = write_log start 0 lh s

      w : Writes start 0 lh C s s1
      w =
          write_log_lem start size C lh fits 0 lh s (omega arith)
            (λ t b e. ap (get_elem? lh) (omega arith) ∙ e) c

      x : Mem
      x = set_header lh (s1.cache start)

      placed : ((s1.left ≡ 0) × OldD (bwrite start x s1).disk) ⊎ MidD (bwrite start x s1).disk
      placed =
          place_header s1 x
            (header-set_header lh (s1.cache start) (omega (arith, fits.short, fits.word))
              fits.words)
            (write_log-Old start size C lh fits D 0 lh s (omega (arith, fits.short)) o) agree
            (λ alive t b e. ap s1.disk (omega arith) ∙ (w.on_disk alive).1 t b e)

      same_old : OldD (bwrite start x s1).disk → OldD (write_head start lh s1).disk
      same_old h = rw (header_write start lh s1) h

      same_mid : MidD (bwrite start x s1).disk → MidD (write_head start lh s1).disk
      same_mid h = rw (header_write start lh s1) h

      in_cache :
          (t b : ℕ)
          → get_elem? lh t ≡ some b
          → (write_head start lh s1).cache (start + (0 + t) + 1) ≡ C b
      in_cache t b e =
          header_cache start lh s1 (start + (0 + t) + 1) (omega arith) ∙ w.in_cache t b e
