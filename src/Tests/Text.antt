-- ===== src/Tests/Text.antt =====
-- Runs of the string routines, grep and the cipher.
use operating_system_laborat.Base.{◌≡◌, ◌↔◌, true, [], ◌∷◌, arith}
use operating_system_laborat.Bytes.{memmove}
use operating_system_laborat.Bytes.Move.{memmove_lem}
use operating_system_laborat.Bytes.Compare.{IsBytes}
use operating_system_laborat.Grep.{match_line}
use operating_system_laborat.Grep.Relation.{Selected}
use operating_system_laborat.Grep.Laws.{match_line_iff}
use operating_system_laborat.Cipher.{encode_char, decode_char, decode_char-encode_char}
use operating_system_laborat.Tests.{memory}

memory-IsBytes : IsBytes memory
memory-IsBytes a = omega arith

-- areas that overlap, destination above the source
memmove_example : memmove memory 10 8 4 11 ≡ 9
memmove_example = memmove_lem memory 10 8 4 11

-- the expression ^a*b on the line aab
match_line_example :
    (match_line (b'^' ∷ b'a' ∷ b'*' ∷ b'b' ∷ []) (b'a' ∷ b'a' ∷ b'b' ∷ []) ≡ true)
    ↔ Selected (b'^' ∷ b'a' ∷ b'*' ∷ b'b' ∷ []) (b'a' ∷ b'a' ∷ b'b' ∷ [])
match_line_example = match_line_iff (b'^' ∷ b'a' ∷ b'*' ∷ b'b' ∷ []) (b'a' ∷ b'a' ∷ b'b' ∷ [])

decode_example : decode_char (encode_char b'z') ≡ b'z'
decode_example = decode_char-encode_char b'z'
