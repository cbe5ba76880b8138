-- ===== src/Kvprinto/Jumps.antt =====
-- The states of `kvprinto` and its jump tables, one function for each JT_… array.
use nkos.Kvprinto.Classes.{
  Class, cc_default, cc_space, cc_number, cc_percent, cc_asterisk, cc_dollar, cc_plus, cc_minus,
  cc_dot, cc_zero, cc_digit, cc_long, cc_half, cc_signed, cc_unsigned, cc_string, cc_pointer,
}

-- state_t: the label that the next character is handled at.
pub data State : Type 0 where
  normal : State
  fmtini : State
  percent : State
  width : State
  dot : State
  prec : State
  pwidth : State
  pprec : State
  flags : State
  m_half : State
  m_long : State
  fmt_u : State
  fmt_d : State
  fmt_s : State

-- The arrays that `jt` can point to.
pub data Table : Type 0 where
  jt_normal : Table
  jt_fmtini : Table
  jt_flags : Table
  jt_width : Table
  jt_pwidth : Table
  jt_dot : Table
  jt_prec : Table
  jt_pprec : Table
  jt_m_half : Table
  jt_m_long : Table

unfoldable pub normal_row : Class → State
normal_row cc_default = normal
normal_row cc_space = normal
normal_row cc_number = normal
normal_row cc_percent = fmtini
normal_row cc_asterisk = normal
normal_row cc_dollar = normal
normal_row cc_plus = normal
normal_row cc_minus = normal
normal_row cc_dot = normal
normal_row cc_zero = normal
normal_row cc_digit = normal
normal_row cc_long = normal
normal_row cc_half = normal
normal_row cc_signed = normal
normal_row cc_unsigned = normal
normal_row cc_string = normal
normal_row cc_pointer = normal

unfoldable pub fmtini_row : Class → State
fmtini_row cc_default = normal
fmtini_row cc_space = flags
fmtini_row cc_number = flags
fmtini_row cc_percent = percent
fmtini_row cc_asterisk = pwidth
fmtini_row cc_dollar = normal
fmtini_row cc_plus = flags
fmtini_row cc_minus = flags
fmtini_row cc_dot = dot
fmtini_row cc_zero = flags
fmtini_row cc_digit = width
fmtini_row cc_long = m_long
fmtini_row cc_half = m_half
fmtini_row cc_signed = fmt_d
fmtini_row cc_unsigned = fmt_u
fmtini_row cc_string = fmt_s
fmtini_row cc_pointer = normal

unfoldable pub flags_row : Class → State
flags_row cc_default = normal
flags_row cc_space = flags
flags_row cc_number = flags
flags_row cc_percent = percent
flags_row cc_asterisk = pwidth
flags_row cc_dollar = normal
flags_row cc_plus = flags
flags_row cc_minus = flags
flags_row cc_dot = prec
flags_row cc_zero = flags
flags_row cc_digit = width
flags_row cc_long = m_long
flags_row cc_half = m_half
flags_row cc_signed = fmt_d
flags_row cc_unsigned = fmt_u
flags_row cc_string = fmt_s
flags_row cc_pointer = normal

unfoldable pub width_row : Class → State
width_row cc_default = normal
width_row cc_space = normal
width_row cc_number = normal
width_row cc_percent = normal
width_row cc_asterisk = normal
width_row cc_dollar = normal
width_row cc_plus = normal
width_row cc_minus = normal
width_row cc_dot = dot
width_row cc_zero = width
width_row cc_digit = width
width_row cc_long = m_long
width_row cc_half = m_half
width_row cc_signed = fmt_d
width_row cc_unsigned = fmt_u
width_row cc_string = fmt_s
width_row cc_pointer = normal

unfoldable pub pwidth_row : Class → State
pwidth_row cc_default = normal
pwidth_row cc_space = normal
pwidth_row cc_number = normal
pwidth_row cc_percent = normal
pwidth_row cc_asterisk = normal
pwidth_row cc_dollar = normal
pwidth_row cc_plus = normal
pwidth_row cc_minus = normal
pwidth_row cc_dot = dot
pwidth_row cc_zero = normal
pwidth_row cc_digit = normal
pwidth_row cc_long = m_long
pwidth_row cc_half = m_half
pwidth_row cc_signed = fmt_d
pwidth_row cc_unsigned = fmt_u
pwidth_row cc_string = fmt_s
pwidth_row cc_pointer = normal

unfoldable pub dot_row : Class → State
dot_row cc_default = normal
dot_row cc_space = normal
dot_row cc_number = normal
dot_row cc_percent = normal
dot_row cc_asterisk = pprec
dot_row cc_dollar = normal
dot_row cc_plus = normal
dot_row cc_minus = normal
dot_row cc_dot = normal
dot_row cc_zero = prec
dot_row cc_digit = prec
dot_row cc_long = m_long
dot_row cc_half = m_half
dot_row cc_signed = fmt_d
dot_row cc_unsigned = fmt_u
dot_row cc_string = fmt_s
dot_row cc_pointer = normal

unfoldable pub prec_row : Class → State
prec_row cc_default = normal
prec_row cc_space = normal
prec_row cc_number = normal
prec_row cc_percent = normal
prec_row cc_asterisk = normal
prec_row cc_dollar = normal
prec_row cc_plus = normal
prec_row cc_minus = normal
prec_row cc_dot = normal
prec_row cc_zero = prec
prec_row cc_digit = prec
prec_row cc_long = m_long
prec_row cc_half = m_half
prec_row cc_signed = fmt_d
prec_row cc_unsigned = fmt_u
prec_row cc_string = fmt_s
prec_row cc_pointer = normal

unfoldable pub pprec_row : Class → State
pprec_row cc_default = normal
pprec_row cc_space = normal
pprec_row cc_number = normal
pprec_row cc_percent = normal
pprec_row cc_asterisk = normal
pprec_row cc_dollar = normal
pprec_row cc_plus = normal
pprec_row cc_minus = normal
pprec_row cc_dot = normal
pprec_row cc_zero = normal
pprec_row cc_digit = normal
pprec_row cc_long = m_long
pprec_row cc_half = m_half
pprec_row cc_signed = fmt_d
pprec_row cc_unsigned = fmt_u
pprec_row cc_string = fmt_s
pprec_row cc_pointer = normal

unfoldable pub m_half_row : Class → State
m_half_row cc_default = normal
m_half_row cc_space = normal
m_half_row cc_number = normal
m_half_row cc_percent = normal
m_half_row cc_asterisk = normal
m_half_row cc_dollar = normal
m_half_row cc_plus = normal
m_half_row cc_minus = normal
m_half_row cc_dot = normal
m_half_row cc_zero = normal
m_half_row cc_digit = normal
m_half_row cc_long = normal
m_half_row cc_half = normal
m_half_row cc_signed = fmt_d
m_half_row cc_unsigned = fmt_u
m_half_row cc_string = fmt_s
m_half_row cc_pointer = normal

unfoldable pub m_long_row : Class → State
m_long_row cc_default = normal
m_long_row cc_space = normal
m_long_row cc_number = normal
m_long_row cc_percent = normal
m_long_row cc_asterisk = normal
m_long_row cc_dollar = normal
m_long_row cc_plus = normal
m_long_row cc_minus = normal
m_long_row cc_dot = normal
m_long_row cc_zero = normal
m_long_row cc_digit = normal
m_long_row cc_long = normal
m_long_row cc_half = normal
m_long_row cc_signed = fmt_d
m_long_row cc_unsigned = fmt_u
m_long_row cc_string = fmt_s
m_long_row cc_pointer = normal

-- jt[cc]
unfoldable pub jump : Table → Class → State
unfolding normal_row fmtini_row flags_row width_row pwidth_row dot_row prec_row pprec_row m_half_row
    m_long_row
jump jt_normal c = normal_row c
jump jt_fmtini c = fmtini_row c
jump jt_flags c = flags_row c
jump jt_width c = width_row c
jump jt_pwidth c = pwidth_row c
jump jt_dot c = dot_row c
jump jt_prec c = prec_row c
jump jt_pprec c = pprec_row c
jump jt_m_half c = m_half_row c
jump jt_m_long c = m_long_row c
