-- ===== src/Path.antt =====
-- fs.c: the names in a path. A path is the list of its bytes up to the 0 that ends it, a pointer into it the list from
-- there on; a name is the array of DIRSIZ bytes that skipelem fills.
pub mod Elements
use operating_system_laborat.Base.{
  ℕ, zero, suc, ◌+◌, Bool, true, false, Option, none, some, List, [], ◌∷◌, ◌++◌, leb, ◌==◌,
  if◌then◌else◌, length, take, drop,
}

abbrev pub dirsiz : ℕ
dirsiz = 14

abbrev pub slash : ℕ
slash = b'/'

-- `while(*path == '/') path++`
unfoldable pub skip_slashes : List ℕ → List ℕ
skip_slashes [] = []
skip_slashes (c ∷ cs) = let rest = skip_slashes cs in if c == slash then rest else c ∷ cs

-- `while(*path != '/' && *path != 0) path++`: what it passes over, and where it stops
unfoldable pub element : List ℕ → List ℕ
element [] = []
element (c ∷ cs) = let rest = element cs in if c == slash then [] else c ∷ rest

unfoldable pub behind_element : List ℕ → List ℕ
behind_element [] = []
behind_element (c ∷ cs) = let rest = behind_element cs in if c == slash then c ∷ cs else rest

-- What the two calls of `memmove` leave in the name.
unfoldable pub put_name : List ℕ → List ℕ → List ℕ
put_name s name =
    if leb dirsiz (length s) then take dirsiz s else s ++ (0 ∷ drop (length s + 1) name)

-- The pointer that it returns and the name; none for the null pointer.
unfoldable pub skipelem : List ℕ → List ℕ → Option (List ℕ × List ℕ)
unfolding skip_slashes element behind_element put_name
skipelem path name = elim (skip_slashes path) [
  | [] ↦ none
  | c ∷ cs ↦ some (skip_slashes (behind_element (c ∷ cs)), put_name (element (c ∷ cs)) name)
]

abbrev pub is_end_of_path : List ℕ → Bool
is_end_of_path [] = true
is_end_of_path (c ∷ cs) = false

-- The loop of `namex` on fuel: the names that it looks up one after the other, each with what
-- its test `*path == '\0'` says.
unfoldable pub names : ℕ → List ℕ → List ℕ → List (List ℕ × Bool)
unfolding skipelem
names zero path name = []
names (suc f) path name = elim (skipelem path name) [
  | none ↦ []
  | some (path', name') ↦ (name', is_end_of_path path') ∷ names f path' name'
]
