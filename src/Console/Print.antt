-- ===== src/Console/Print.antt =====
-- cprintf and printint of console.c. The arguments of a call are numbers and strings; reading an argument
-- that was not passed is a `fault`.
use Prim.Native.Char.{code}
use Prim.Native.String.{String}
use operating_system_laborat.Base.{
  ℕ, zero, suc, ◌+◌, ◌/◌, ◌%◌, Bool, true, false, ◌&&◌, ◌||◌, List, [], ◌∷◌, ◌++◌, ltb, leb, ◌==◌,
  if◌then◌else◌, length, sub32, slt, Outcome, ok, fault, ◌>>=◌,
}
use operating_system_laborat.Console.{Console, consputc}

pub data Arg : Type 0 where
  number : ℕ → Arg
  text : List ℕ → Arg
  null : Arg

-- "0123456789abcdef"
abbrev pub digit : ℕ → ℕ
digit d = if ltb d 10 then d + 48 else d + 87

-- The first loop of `printint`, with the places of `buf` that are left: the digits of x before those that
-- are there already, the last one written first. A digit without a place is a `fault`.
unfoldable pub digits_of : ℕ → ℕ → ℕ → List ℕ → Outcome (List ℕ)
digits_of zero base x out = fault
digits_of (suc room) base x out =
    let rest = digits_of room base (x / base) (digit (x % base) ∷ out) in
    if x / base == 0 then ok (digit (x % base) ∷ out) else rest

-- `char buf[16]` of `printint`
abbrev pub buf_size : ℕ
buf_size = 16

-- `buf[i++] = '-'`
unfoldable pub put_sign : List ℕ → Outcome (List ℕ)
put_sign out = if leb buf_size (length out) then fault else ok (b'-' ∷ out)

-- `printint` as the bytes that it prints.
unfoldable pub printint : ℕ → ℕ → Bool → Outcome (List ℕ)
unfolding digits_of put_sign
printint xx base sign =
    if sign && slt xx 0
    then (digits_of buf_size base (sub32 0 xx) [] >>= put_sign)
    else digits_of buf_size base xx []

abbrev pub codes : String → List ℕ
codes String.[] = []
codes (String.◌∷◌ c s) = code c ∷ codes s

-- The bytes for one argument.
unfoldable pub shown : ℕ → Arg → Outcome (List ℕ)
unfolding printint
shown c (number n) =
    if c == b'd'
    then printint n 10 true
    else if c == b'x' || c == b'p'
    then printint n 16 false
    else fault
shown c (text cs) = if c == b's' then ok cs else fault
shown c null = if c == b's' then ok (codes "(null)") else fault

abbrev pub takes_argument : ℕ → Bool
takes_argument c = c == b'd' || (c == b'x' || (c == b'p' || c == b's'))

-- What an unknown directive and "%%" print.
abbrev pub as_is : ℕ → List ℕ → List ℕ
as_is c out = if c == b'%' then b'%' ∷ out else b'%' ∷ c ∷ out

unfoldable mutual
  unfolding shown

  -- `cprintf` as the bytes that it prints
  pub format : List ℕ → List Arg → Outcome (List ℕ)
  format [] args = ok []
  format (c ∷ fmt) args =
      if c == b'%' then directive fmt args else (format fmt args >>= λ out. ok (c ∷ out))

  pub directive : List ℕ → List Arg → Outcome (List ℕ)
  directive [] args = ok []
  directive (c ∷ fmt) [] =
      if takes_argument c then fault else (format fmt [] >>= λ out. ok (as_is c out))
  directive (c ∷ fmt) (a ∷ args) =
      if takes_argument c
      then (shown c a >>= λ bytes. format fmt args >>= λ out. ok (bytes ++ out))
      else (format fmt (a ∷ args) >>= λ out. ok (as_is c out))

unfoldable pub put_all : List ℕ → Console → Outcome Console
unfolding consputc
put_all [] c = ok c
put_all (b ∷ bs) c = consputc b c >>= λ d. put_all bs d

unfoldable pub cprintf : List ℕ → List Arg → Console → Outcome Console
unfolding format put_all
cprintf fmt args c = format fmt args >>= λ bytes. put_all bytes c
