-- ===== src/Kvprinto/Fields.antt =====
-- How a conversion lays out its field: the labels fmt_d, fmt_u and fmt_s of `kvprinto`, from the
-- digits or the string to the characters that are put out.
use nkos.Common.{
  ℕ, ◌-◌, Bool, ◌&&◌, List, [], ◌∷◌, ◌++◌, ltb, if◌then◌else◌, length, take, replicate,
}

-- FLAG_ZERO, FLAG_LEFT, FLAG_ALT, FLAG_SPACE and FLAG_PLUS, one Bool for each bit.
pub record Flags : Type 0 where
  pub zero_pad : Bool
  pub left : Bool
  pub alt : Bool
  pub space : Bool
  pub plus : Bool

-- fmt_t
pub record Fmt : Type 0 where
  pub width : ℕ
  pub precision : ℕ
  pub size : ℕ
  pub base : ℕ
  pub sign : Bool
  pub flags : Flags

abbrev pub zeros : ℕ → List ℕ
zeros n = replicate n b'0'

abbrev pub blanks : ℕ → List ℕ
blanks n = replicate n b' '

-- `sigchr`, as often as `siglen` says.
unfoldable pub sign_text : Fmt → List ℕ
sign_text f =
    if f.sign
    then b'-' ∷ []
    else if f.flags.plus
    then b'+' ∷ []
    else if f.flags.space
    then b' ' ∷ []
    else []

-- A number with its sign. Where C tests a difference before it subtracts, `-` on ℕ stops at 0.
unfoldable pub number_field : Fmt → List ℕ → List ℕ → List ℕ
number_field f sig v =
    let len = length v in
    let siglen = length sig in
    let padlen = f.precision - len in
    let fill = f.width - len - siglen in
    if f.flags.left
    then sig ++ (zeros padlen ++ (v ++ blanks (f.width - len - siglen - padlen)))
    else if ltb 0 f.precision
    then blanks (f.width - len - padlen - siglen) ++ (sig ++ (zeros padlen ++ v))
    else if f.flags.zero_pad
    then sig ++ (zeros fill ++ v)
    else blanks fill ++ (sig ++ v)

-- `out_str(val.s, len)` with its padding.
unfoldable pub string_field : Fmt → List ℕ → List ℕ
string_field f s =
    let len = if ltb 0 f.precision && ltb f.precision (length s) then f.precision else length s in
    let padlen = f.width - len in
    if f.flags.left then take len s ++ blanks padlen else blanks padlen ++ take len s
