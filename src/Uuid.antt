-- ===== src/Uuid.antt =====
-- loader/utl/uuid_parse.c and loader/utl/uuid_unparse.c: the text of a UUID.
pub mod RoundTrip
mod Tests
use nkos.Common.{
  true, false, ℕ, zero, suc, ◌+◌, ◌-◌, ◌*◌, ◌/◌, ◌%◌, Bool, ◌&&◌, ◌||◌, Option, none, some, List,
  [], ◌∷◌, leb, ◌==◌, if◌then◌else◌, set, get_elem?, replicate,
}
use Prim.Native.Nat.{bit_or}

-- The positions of the dashes in the text.
abbrev pub is_dash : ℕ → Bool
is_dash i = i == 8 || (i == 13 || (i == 18 || i == 23))

-- The value of a digit; none is EINVAL.
unfoldable pub digit_value : ℕ → Option ℕ
digit_value c =
    if leb b'0' c && leb c b'9'
    then some (c - b'0')
    else if leb b'a' c && leb c b'f'
    then some (c - b'a' + 10)
    else none

-- a | b at an index that is in range
abbrev pub or_with : Option ℕ → ℕ → ℕ
or_with none v = v
or_with (some w) v = bit_or w v

-- uu[j >> 1] |= ((j & 1) == 1 ? v : v << 4)
unfoldable pub put_nibble : List ℕ → ℕ → ℕ → List ℕ
put_nibble uu j v =
    set uu (j / 2) (or_with (get_elem? uu (j / 2)) (if j % 2 == 1 then v else v * 16))

-- How `uuid_parse` ends: -1 with errno = EINVAL, or 0, and what is in the uuid by then.
pub data Parsed : Type 0 where
  einval : List ℕ → Parsed
  parsed : List ℕ → Parsed

-- The `for` from i on, for k characters more, where `in` is at the front of the list; the end of the
-- list is the NUL.
unfoldable pub parse_from : ℕ → List ℕ → ℕ → ℕ → List ℕ → Parsed
parse_from zero cs i j uu = parsed uu
parse_from (suc k) [] i j uu = einval uu
parse_from (suc k) (c ∷ cs) i j uu = elim (is_dash i) [
  | true ↦ elim (c == b'-') [ true ↦ parse_from k cs (suc i) j uu | false ↦ einval uu ]
  | false ↦ elim (digit_value c) [
    | none ↦ einval uu
    | some v ↦ parse_from k cs (suc i) (suc j) (put_nibble uu j v)
  ]
]

unfoldable pub uuid_parse : List ℕ → Parsed
uuid_parse text = parse_from 36 text 0 0 (replicate 16 0)

-- The digit of a nibble.
unfoldable pub nibble_digit : ℕ → ℕ
nibble_digit v = if leb 10 v then v + (b'a' - 10) else v + b'0'

-- The `for` of `uuid_unparse` from byte i on.
unfoldable pub unparse_from : ℕ → List ℕ → List ℕ
unparse_from i [] = []
unparse_from i (v ∷ uu) =
    let rest = unparse_from (suc i) uu in
    let tail = if i == 3 || (i == 5 || (i == 7 || i == 9)) then b'-' ∷ rest else rest in
    nibble_digit (v / 16) ∷ nibble_digit (v % 16) ∷ tail

-- The text without its NUL.
unfoldable pub uuid_unparse : List ℕ → List ℕ
uuid_unparse uu = unparse_from 0 uu
