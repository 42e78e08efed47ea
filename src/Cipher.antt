-- ===== src/Cipher.antt =====
-- encode.c and decode.c: the Caesar cipher on the letters of the command line.
use operating_system_laborat.Base.{
  ℕ, ◌+◌, ◌-◌, ◌%◌, ◌≡◌, ◌&&◌, List, [], ◌∷◌, ◌++◌, map, arith, ltb, if◌then◌else◌,
}

abbrev pub key : ℕ
key = (90 + 14 + 57) % 26

-- One round of the loop over `argv[i][j]`. A byte from 128 on is a negative `char`, which
-- no branch changes; here it fails both upper tests.
pub encode_char : ℕ → ℕ
encode_char c =
    if ltb 64 c && ltb c 91
    then (c - 65 + key) % 26 + 65
    else if ltb 96 c && ltb c 123
    then (c - 97 + key) % 26 + 97
    else c

pub decode_char : ℕ → ℕ
decode_char c =
    if ltb 64 c && ltb c 91
    then (c - 65 + (26 - key)) % 26 + 65
    else if ltb 96 c && ltb c 123
    then (c - 97 + (26 - key)) % 26 + 97
    else c

-- The bytes written to result.txt for the arguments from `argv[1]` on.
pub encode_output : List (List ℕ) → List ℕ
unfolding encode_char
encode_output [] = b'\n' ∷ []
encode_output (a ∷ as') = map encode_char a ++ (b' ' ∷ encode_output as')

pub decode_output : List (List ℕ) → List ℕ
unfolding decode_char
decode_output [] = b'\n' ∷ []
decode_output (a ∷ as') = map decode_char a ++ (b' ' ∷ decode_output as')

-- decode.c gives back every character that encode.c has changed.
pub decode_char-encode_char : (c : ℕ) → decode_char (encode_char c) ≡ c
unfolding encode_char decode_char
decode_char-encode_char c = ground arith

-- encode.c gives back every character that decode.c has changed.
pub encode_char-decode_char : (c : ℕ) → encode_char (decode_char c) ≡ c
unfolding encode_char decode_char
encode_char-decode_char c = ground arith
