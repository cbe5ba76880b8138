-- ===== src/Kvprinto/Classes.antt =====
-- The character classes of kernel/utl/printf.c.
use nkos.Common.{ℕ, ◌-◌, ◌&&◌, ◌||◌, Option, some, ltb, leb, ◌==◌, if◌then◌else◌}

-- CC_DEFAULT, CC_SPACE, …, CC_POINTER
pub data Class : Type 0 where
  cc_default : Class
  cc_space : Class
  cc_number : Class
  cc_percent : Class
  cc_asterisk : Class
  cc_dollar : Class
  cc_plus : Class
  cc_minus : Class
  cc_dot : Class
  cc_zero : Class
  cc_digit : Class
  cc_long : Class
  cc_half : Class
  cc_signed : Class
  cc_unsigned : Class
  cc_string : Class
  cc_pointer : Class

-- The table `cclass`, by the character. An entry that the table does not name is 0, CC_DEFAULT.
unfoldable pub cclass : ℕ → Class
cclass c =
    if c == b' '
    then cc_space
    else if c == b'%'
    then cc_percent
    else if c == b'0'
    then cc_zero
    else if leb b'1' c && leb c b'9'
    then cc_digit
    else if c == b'd' || c == b'i'
    then cc_signed
    else if c == b'u' || c == b'x' || c == b'X' || c == b'o'
    then cc_unsigned
    else if c == b'p'
    then cc_pointer
    else if c == b's'
    then cc_string
    else if c == b'h' || c == b'H'
    then cc_half
    else if c == b'l' || c == b'L'
    then cc_long
    else if c == b'+'
    then cc_plus
    else if c == b'-'
    then cc_minus
    else if c == b'#'
    then cc_number
    else if c == b'.'
    then cc_dot
    else if c == b'*'
    then cc_asterisk
    else cc_default

-- sizeof(cclass): its last entry is that of 'x'.
abbrev pub cclass_size : ℕ
cclass_size = 89

-- `get_class` of a char, which is signed: a byte from 128 on is negative. The test lets the index
-- `cclass_size` pass, one behind the table: `past` is the class that the byte there reads as, none
-- if it is no class.
unfoldable pub get_class : Option Class → ℕ → Option Class
unfolding cclass
get_class past c =
    if leb 128 c || ltb c b' ' || ltb cclass_size (c - b' ')
    then some cc_default
    else if c - b' ' == cclass_size
    then past
    else some (cclass c)
