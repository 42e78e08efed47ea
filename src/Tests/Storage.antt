-- ===== src/Tests/Storage.antt =====
-- Runs of pipes, open files and the page allocator.
use operating_system_laborat.Base.{
  ℕ, ◌<◌, ◌≡◌, refl, ◌↔◌, ◌⊎◌, true, false, List, [], ◌∷◌, arith, ◌==◌, if◌then◌else◌, ok, panic,
}
use operating_system_laborat.Pipe.{Pipe, pipewrite, piperead}
use operating_system_laborat.Pipe.Queue.{pipewrite_lem, piperead_lem, IsValid, Writes, Reads}
use operating_system_laborat.File.{File, fileclose, closing, nothing, fd_pipe, fd_inode}
use operating_system_laborat.File.Refs.{fileclose_lem, refs}
use operating_system_laborat.Kalloc.{Kmem, kfree, kalloc, free_page, take_page, load32}
use operating_system_laborat.Kalloc.FreeList.{kfree_refines, kalloc_refines, Holds}
use operating_system_laborat.Tests.{memory}

-- A pipe whose counts are about to wrap round, with three bytes in it.
abbrev pipe : Pipe
pipe = record { store = memory; nread = 4294967294; nwrite = 1; readopen = true; writeopen = true }

pipe-IsValid : IsValid pipe
pipe-IsValid = record { read_word = omega arith; write_word = omega arith; few = omega arith }

pipewrite_example : Writes false (7 ∷ 8 ∷ []) pipe (pipewrite false (7 ∷ 8 ∷ []) pipe)
pipewrite_example = pipewrite_lem false (7 ∷ 8 ∷ []) pipe pipe-IsValid

piperead_example : Reads false 2 pipe (piperead false 2 pipe)
piperead_example = piperead_lem false 2 pipe pipe-IsValid

abbrev reader : File
reader = record {
  type = fd_pipe;
  ref = 1;
  readable = true;
  writable = false;
  pipe = 3;
  ip = 0;
  off = 0;
}

abbrev disk_file : File
disk_file = record {
  type = fd_inode;
  ref = 2;
  readable = true;
  writable = true;
  pipe = 0;
  ip = 5;
  off = 100;
}

abbrev no_file : File
no_file = record reader { ref = 0 }

abbrev files : List File
files = reader ∷ no_file ∷ disk_file ∷ []

fileclose_example :
    ((reader.ref ≡ 0) → fileclose 0 files ≡ panic)
    × ((0 < reader.ref)
        → (gs : List File) × (fileclose 0 files
            ≡ ok ((if reader.ref == 1 then closing reader else nothing), gs))
          × ((g : ℕ) → refs gs g ≡ (if 0 == g then 0 else refs files g)))
fileclose_example = fileclose_lem 0 files reader refl

-- One free page, with no next one.
abbrev one_page : Kmem
one_page = record { mem = (λ a. 0); freelist = 0x80400000 }

one_page-Holds : Holds one_page (0x80400000 ∷ [])
unfolding load32
one_page-Holds = (refl, refl, (λ e. ground arith), tt, refl)

kfree_example :
    (free_page 0x80100000 0x80500000 (0x80400000 ∷ []) ≡ panic)
      × (kfree 0x80100000 0x80500000 one_page ≡ panic)
    ⊎ ((km' : Kmem) × (free_page 0x80100000 0x80500000 (0x80400000 ∷ [])
          ≡ ok (0x80500000 ∷ 0x80400000 ∷ []))
        × (kfree 0x80100000 0x80500000 one_page ≡ ok km')
        × Holds km' (0x80500000 ∷ 0x80400000 ∷ []))
kfree_example =
    kfree_refines 0x80100000 0x80500000 one_page (0x80400000 ∷ []) (omega arith) (omega arith)
      ((λ e. ground arith), tt) one_page-Holds

kalloc_example :
    ((kalloc one_page).0 ≡ (take_page (0x80400000 ∷ [])).0)
    × Holds (kalloc one_page).1 (take_page (0x80400000 ∷ [])).1
    × ((kalloc one_page).0 ≡ 0 ↔ ((let ps : List ℕ = 0x80400000 ∷ [] in ps) ≡ []))
kalloc_example = kalloc_refines one_page (0x80400000 ∷ []) one_page-Holds
