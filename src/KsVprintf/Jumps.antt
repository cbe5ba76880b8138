-- ===== src/KsVprintf/Jumps.antt =====
-- The states of `ks_vprintf` of kernel/boot/utl/printf.c and its jump tables, one function for each JT_… array.
use nkos.Kvprinto.Classes.{
  Class, cc_default, cc_space, cc_number, cc_percent, cc_asterisk, cc_dollar, cc_plus, cc_minus,
  cc_dot, cc_zero, cc_digit, cc_long, cc_half, cc_signed, cc_unsigned, cc_string, cc_pointer,
}

-- state_t: the label that the next character is handled at.
pub data KsState : Type 0 where
  normal : KsState
  fmtini : KsState
  percent : KsState
  width : KsState
  dot : KsState
  prec : KsState
  pwidth : KsState
  pprec : KsState
  flags : KsState
  fmt_u : KsState
  fmt_d : KsState
  fmt_s : KsState

-- The arrays that `jt` can point to.
pub data KsTable : Type 0 where
  jt_normal : KsTable
  jt_fmtini : KsTable
  jt_flags : KsTable
  jt_width : KsTable
  jt_pwidth : KsTable
  jt_dot : KsTable
  jt_prec : KsTable
  jt_pprec : KsTable

unfoldable pub row_normal : Class → KsState
row_normal cc_default = normal
row_normal cc_space = normal
row_normal cc_number = normal
row_normal cc_percent = fmtini
row_normal cc_asterisk = normal
row_normal cc_dollar = normal
row_normal cc_plus = normal
row_normal cc_minus = normal
row_normal cc_dot = normal
row_normal cc_zero = normal
row_normal cc_digit = normal
row_normal cc_long = normal
row_normal cc_half = normal
row_normal cc_signed = normal
row_normal cc_unsigned = normal
row_normal cc_string = normal
row_normal cc_pointer = normal

unfoldable pub row_fmtini : Class → KsState
row_fmtini cc_default = normal
row_fmtini cc_space = flags
row_fmtini cc_number = flags
row_fmtini cc_percent = percent
row_fmtini cc_asterisk = pwidth
row_fmtini cc_dollar = normal
row_fmtini cc_plus = flags
row_fmtini cc_minus = flags
row_fmtini cc_dot = dot
row_fmtini cc_zero = flags
row_fmtini cc_digit = width
row_fmtini cc_long = normal
row_fmtini cc_half = normal
row_fmtini cc_signed = fmt_d
row_fmtini cc_unsigned = fmt_u
row_fmtini cc_string = fmt_s
row_fmtini cc_pointer = normal

unfoldable pub row_flags : Class → KsState
row_flags cc_default = normal
row_flags cc_space = flags
row_flags cc_number = flags
row_flags cc_percent = percent
row_flags cc_asterisk = pwidth
row_flags cc_dollar = normal
row_flags cc_plus = flags
row_flags cc_minus = flags
row_flags cc_dot = prec
row_flags cc_zero = flags
row_flags cc_digit = width
row_flags cc_long = normal
row_flags cc_half = normal
row_flags cc_signed = fmt_d
row_flags cc_unsigned = fmt_u
row_flags cc_string = fmt_s
row_flags cc_pointer = normal

unfoldable pub row_width : Class → KsState
row_width cc_default = normal
row_width cc_space = normal
row_width cc_number = normal
row_width cc_percent = normal
row_width cc_asterisk = normal
row_width cc_dollar = normal
row_width cc_plus = normal
row_width cc_minus = normal
row_width cc_dot = dot
row_width cc_zero = width
row_width cc_digit = width
row_width cc_long = normal
row_width cc_half = normal
row_width cc_signed = fmt_d
row_width cc_unsigned = fmt_u
row_width cc_string = fmt_s
row_width cc_pointer = normal

unfoldable pub row_pwidth : Class → KsState
row_pwidth cc_default = normal
row_pwidth cc_space = normal
row_pwidth cc_number = normal
row_pwidth cc_percent = normal
row_pwidth cc_asterisk = normal
row_pwidth cc_dollar = normal
row_pwidth cc_plus = normal
row_pwidth cc_minus = normal
row_pwidth cc_dot = dot
row_pwidth cc_zero = normal
row_pwidth cc_digit = normal
row_pwidth cc_long = normal
row_pwidth cc_half = normal
row_pwidth cc_signed = fmt_d
row_pwidth cc_unsigned = fmt_u
row_pwidth cc_string = fmt_s
row_pwidth cc_pointer = normal

unfoldable pub row_dot : Class → KsState
row_dot cc_default = normal
row_dot cc_space = normal
row_dot cc_number = normal
row_dot cc_percent = normal
row_dot cc_asterisk = pprec
row_dot cc_dollar = normal
row_dot cc_plus = normal
row_dot cc_minus = normal
row_dot cc_dot = normal
row_dot cc_zero = prec
row_dot cc_digit = prec
row_dot cc_long = normal
row_dot cc_half = normal
row_dot cc_signed = fmt_d
row_dot cc_unsigned = fmt_u
row_dot cc_string = fmt_s
row_dot cc_pointer = normal

unfoldable pub row_prec : Class → KsState
row_prec cc_default = normal
row_prec cc_space = normal
row_prec cc_number = normal
row_prec cc_percent = normal
row_prec cc_asterisk = normal
row_prec cc_dollar = normal
row_prec cc_plus = normal
row_prec cc_minus = normal
row_prec cc_dot = normal
row_prec cc_zero = prec
row_prec cc_digit = prec
row_prec cc_long = normal
row_prec cc_half = normal
row_prec cc_signed = fmt_d
row_prec cc_unsigned = fmt_u
row_prec cc_string = fmt_s
row_prec cc_pointer = normal

unfoldable pub row_pprec : Class → KsState
row_pprec cc_default = normal
row_pprec cc_space = normal
row_pprec cc_number = normal
row_pprec cc_percent = normal
row_pprec cc_asterisk = normal
row_pprec cc_dollar = normal
row_pprec cc_plus = normal
row_pprec cc_minus = normal
row_pprec cc_dot = normal
row_pprec cc_zero = normal
row_pprec cc_digit = normal
row_pprec cc_long = normal
row_pprec cc_half = normal
row_pprec cc_signed = fmt_d
row_pprec cc_unsigned = fmt_u
row_pprec cc_string = fmt_s
row_pprec cc_pointer = normal

-- jt[cc]
unfoldable pub ks_jump : KsTable → Class → KsState
ks_jump jt_normal c = row_normal c
ks_jump jt_fmtini c = row_fmtini c
ks_jump jt_flags c = row_flags c
ks_jump jt_width c = row_width c
ks_jump jt_pwidth c = row_pwidth c
ks_jump jt_dot c = row_dot c
ks_jump jt_prec c = row_prec c
ks_jump jt_pprec c = row_pprec c
