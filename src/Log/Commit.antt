-- ===== src/Log/Commit.antt =====
-- What `commit` leaves on the disk, whenever the power fails.
use operating_system_laborat.Base.{
  ℕ, zero, suc, ◌+◌, ◌<◌, ◌≡◌, refl, sym, ap, ◌∙◌, subst, ◌≢◌, some, List, [], ◌∷◌, arith, ◌==◌,
  if◌then◌else◌, length, get_elem?, get_elem?-lt, ℕ_discrete,
}
use operating_system_laborat.Bytes.{Mem}
use operating_system_laborat.Log.{Disk, Machine, bwrite, write_log, install_trans}
use operating_system_laborat.Log.Crash.{
  Home, Absent, Fits, Old, Mid, bwrite-Old, bwrite-Mid, bwrite_frame,
}

pub bwrite_cache :
    (s : Machine) (b : ℕ) (x : Mem) (a : ℕ)
    → (bwrite b x s).cache a ≡ (if b == a then x else s.cache a)
unfolding bwrite
bwrite_cache s b x a = ground arith

-- A write either is lost, with all later ones, or has reached the disk.
pub bwrite_left :
    (s : Machine) (b : ℕ) (x : Mem)
    → 0 < (bwrite b x s).left
    → (0 < s.left) × ((bwrite b x s).disk b ≡ x)
unfolding bwrite
bwrite_left s b x h = ground arith

-- Entry t of the rest of a list is entry `tail + t` of the list.
abbrev pub From : ℕ → List ℕ → List ℕ → Type 0
From tail bs lh = (t b : ℕ) → get_elem? bs t ≡ some b → get_elem? lh (tail + t) ≡ some b

From-next : (tail b : ℕ) (bs lh : List ℕ) → From tail (b ∷ bs) lh → From (tail + 1) bs lh
From-next tail b bs lh f t c e =
    let s : tail + suc t ≡ tail + 1 + t = omega arith in rw s at (f (suc t) c e)

From-first : (tail b : ℕ) (bs lh : List ℕ) → From tail (b ∷ bs) lh → get_elem? lh tail ≡ some b
From-first tail b bs lh f = let s : tail + 0 ≡ tail = omega arith in rw s at (f 0 b refl)

-- What holds of the first log block and of those behind it holds of all.
each_block :
    (P : ℕ → ℕ → Type 0) (start tail b : ℕ) (bs : List ℕ)
    → P (start + tail + 1) b
    → ((t c : ℕ) → get_elem? bs t ≡ some c → P (start + (tail + 1 + t) + 1) c)
    → (t c : ℕ) → get_elem? (b ∷ bs) t ≡ some c
    → P (start + (tail + t) + 1) c
each_block P start tail b bs p ps zero c e =
    let i : start + tail + 1 ≡ start + (tail + 0) + 1 = omega arith in
    let same : b ≡ c = ground arith in
    subst (P (start + (tail + 0) + 1)) same (subst (λ n. P n b) i p)
each_block P start tail b bs p ps (suc t) c e =
    let i : start + (tail + 1 + t) + 1 ≡ start + (tail + suc t) + 1 = omega arith in
    subst (λ n. P n c) i (ps t c e)

-- What `write_log` leaves of the blocks before its place, and what it puts at the rest.
pub record Writes (start tail : ℕ) (bs : List ℕ) (C : Disk) (s s' : Machine) : Type 0 where
  pub home_cache : (b : ℕ) → b < start + tail + 1 → s'.cache b ≡ s.cache b
  pub home_disk : (b : ℕ) → b < start + tail + 1 → s'.disk b ≡ s.disk b
  pub far_cache : (b : ℕ) → start + tail + length bs < b → s'.cache b ≡ s.cache b
  pub in_cache : (t b : ℕ) → get_elem? bs t ≡ some b → s'.cache (start + (tail + t) + 1) ≡ C b
  pub on_disk :
      0 < s'.left
      → (0 < s.left)
        × ((t b : ℕ) → get_elem? bs t ≡ some b → s'.disk (start + (tail + t) + 1) ≡ C b)

module _ (start size : ℕ) (C : Disk) (lh : List ℕ) (fits : Fits start size lh) where
  pub write_log_lem :
      (tail : ℕ) (bs : List ℕ) (s : Machine)
      → tail + length bs ≡ length lh
      → From tail bs lh
      → ((b : ℕ) → Home start size b → s.cache b ≡ C b)
      → Writes start tail bs C s (write_log start tail bs s)
  unfolding write_log
  write_log_lem tail [] s len f c = record {
    home_cache = λ b h. refl;
    home_disk = λ b h. refl;
    far_cache = λ b h. refl;
    in_cache = λ t b e. cc;
    on_disk = λ h. (h, λ t b e. cc);
  }
  write_log_lem tail (b ∷ bs) s len f c =
      let here : get_elem? lh tail ≡ some b = From-first tail b bs lh f in
      let home : Home start size b = fits.homes tail b here in
      let x : Mem = s.cache b in
      let s1 : Machine = bwrite (start + tail + 1) x s in
      let short : tail + 1 < size = omega (arith, fits.short) in
      let w =
        write_log_lem (tail + 1) bs s1 (omega arith) (From-next tail b bs lh f)
          (λ a h. bwrite_cache s (start + tail + 1) x a ∙ ground (arith, c a h)) in
      record {
        home_cache = λ a h.
            w.home_cache a (omega arith) ∙ bwrite_cache s (start + tail + 1) x a ∙ ground arith;
        home_disk = λ a h.
            w.home_disk a (omega arith) ∙ bwrite_frame s (start + tail + 1) x a (omega arith);
        far_cache = λ a h.
            w.far_cache a (omega arith) ∙ bwrite_cache s (start + tail + 1) x a ∙ ground arith;
        in_cache =
            each_block (λ n a. (write_log start (tail + 1) bs s1).cache n ≡ C a) start tail b bs
              (w.home_cache (start + tail + 1) (omega arith)
                ∙ bwrite_cache s (start + tail + 1) x (start + tail + 1)
                ∙ ground (arith, c b home))
              w.in_cache;
        on_disk = λ alive.
            let (alive1, far) = w.on_disk alive in
            let (alive0, at_b) = bwrite_left s (start + tail + 1) x alive1 in
            (
              alive0,
              each_block (λ n a. (write_log start (tail + 1) bs s1).disk n ≡ C a) start tail b bs
                  (w.home_disk (start + tail + 1) (omega arith) ∙ at_b ∙ c b home) far,
            );
      }

  -- The disk keeps an empty log and its home blocks while the log is written.
  pub write_log-Old :
      (D : Disk) (tail : ℕ) (bs : List ℕ) (s : Machine)
      → tail + length bs < size
      → Old start size D C lh s.disk
      → Old start size D C lh (write_log start tail bs s).disk
  unfolding write_log
  write_log-Old D tail [] s h o = o
  write_log-Old D tail (b ∷ bs) s h o =
      write_log-Old D (tail + 1) bs (bwrite (start + tail + 1) (s.cache b) s) (omega arith)
        (bwrite-Old start size D C lh s tail (s.cache b) (omega arith) o)

  -- The disk keeps the whole transaction while it is installed; once all is written, every home block
  -- is up to date.
  pub install_trans_lem :
      (D : Disk) (tail : ℕ) (bs : List ℕ) (s : Machine)
      → From tail bs lh
      → Mid start size D C lh s.disk
      → ((t b : ℕ) → get_elem? bs t ≡ some b → s.cache (start + (tail + t) + 1) ≡ C b)
      → ((b : ℕ) → Home start size b → Absent b bs → (0 < s.left) → s.disk b ≡ C b)
      → Mid start size D C lh (install_trans start tail bs s).disk
        × (0 < (install_trans start tail bs s).left
            → (0 < s.left)
              × ((b : ℕ) → Home start size b → (install_trans start tail bs s).disk b ≡ C b))
  unfolding install_trans
  install_trans_lem D tail [] s f m c i = (m, λ alive. (alive, λ b h. i b h (λ t e. cc) alive))
  install_trans_lem D tail (b ∷ bs) s f m c i =
      let here : get_elem? lh tail ≡ some b = From-first tail b bs lh f in
      let home : Home start size b = fits.homes tail b here in
      let x : Mem = s.cache (start + tail + 1) in
      let s1 : Machine = bwrite b x s in
      let new : x ≡ C b = ap s.cache (omega arith) ∙ c 0 b refl in
      let (m', done) =
        install_trans_lem D (tail + 1) bs s1 (From-next tail b bs lh f)
          (bwrite-Mid start size D C lh s b x fits (tail, here) m) (rest_cache home x)
          (installed x new) in
      (m', λ alive. let (alive1, all) = done alive in ((bwrite_left s b x alive1).0, all))
    where
      rest_cache :
          Home start size b
          → (x : Mem) (t a : ℕ) → get_elem? bs t ≡ some a
          → (bwrite b x s).cache (start + (tail + 1 + t) + 1) ≡ C a
      rest_cache home x t a e =
          let n : get_elem? lh (tail + suc t) ≡ some a = f (suc t) a e in
          let lt : tail + suc t < length lh = get_elem?-lt lh (tail + suc t) n in
          let short : length lh < size = fits.short in
          let i : start + (tail + 1 + t) + 1 ≡ start + (tail + suc t) + 1 = omega arith in
          let old : s.cache (start + (tail + 1 + t) + 1) ≡ C a = ap s.cache i ∙ c (suc t) a e in
          bwrite_cache s b x (start + (tail + 1 + t) + 1) ∙ ground (arith, old)

      installed :
          (x : Mem)
          → x ≡ C b
          → (a : ℕ) → Home start size a
          → Absent a bs
          → 0 < (bwrite b x s).left
          → (bwrite b x s).disk a ≡ C a
      installed x new a h absent alive = elim (ℕ_discrete b a) [
        | yes same ↦
            subst (λ n. (bwrite b x s).disk n ≡ C n) same ((bwrite_left s b x alive).1 ∙ new)
        | no ne ↦
            bwrite_frame s b x a (λ e. ne (sym e))
            ∙ i a h (absent_cons a absent ne) (bwrite_left s b x alive).0
      ]
        where
          absent_cons : (a : ℕ) → Absent a bs → b ≢ a → Absent a (b ∷ bs)
          absent_cons a absent ne zero e = ne (ground arith)
          absent_cons a absent ne (suc t) e = absent t e
