-- ===== src/KsVprintf/Tables.antt =====
-- Theorems on the jump tables of kernel/boot/utl/printf.c and those of kernel/utl/printf.c.
use nkos.Common.{◌≡◌, ◌≢◌, arith}
use nkos.Kvprinto.Classes.{Class, cc_long, cc_half}
use nkos.Kvprinto.Jumps.{
  State, Table, jump, normal_row, fmtini_row, flags_row, width_row, pwidth_row, dot_row, prec_row,
  pprec_row,
}
use nkos.KsVprintf.Jumps.{
  KsState, KsTable, ks_jump, row_normal, row_fmtini, row_flags, row_width, row_pwidth, row_dot,
  row_prec, row_pprec,
}

-- The table of the kernel with the same name.
abbrev pub table_of : KsTable → Table
table_of KsTable.jt_normal = Table.jt_normal
table_of KsTable.jt_fmtini = Table.jt_fmtini
table_of KsTable.jt_flags = Table.jt_flags
table_of KsTable.jt_width = Table.jt_width
table_of KsTable.jt_pwidth = Table.jt_pwidth
table_of KsTable.jt_dot = Table.jt_dot
table_of KsTable.jt_prec = Table.jt_prec
table_of KsTable.jt_pprec = Table.jt_pprec

abbrev pub state_of : KsState → State
state_of KsState.normal = State.normal
state_of KsState.fmtini = State.fmtini
state_of KsState.percent = State.percent
state_of KsState.width = State.width
state_of KsState.dot = State.dot
state_of KsState.prec = State.prec
state_of KsState.pwidth = State.pwidth
state_of KsState.pprec = State.pprec
state_of KsState.flags = State.flags
state_of KsState.fmt_u = State.fmt_u
state_of KsState.fmt_d = State.fmt_d
state_of KsState.fmt_s = State.fmt_s

-- A class of a character that is no modifier.
abbrev pub IsPlain : Class → Type 0
IsPlain cc = (cc ≢ cc_long) × (cc ≢ cc_half)

pub jump-table_of :
    (t : KsTable) (cc : Class) → IsPlain cc → jump (table_of t) cc ≡ state_of (ks_jump t cc)
unfolding jump ks_jump normal_row fmtini_row flags_row width_row pwidth_row dot_row prec_row
    pprec_row row_normal row_fmtini row_flags row_width row_pwidth row_dot row_prec row_pprec
jump-table_of KsTable.jt_normal cc (l, h) = ground arith
jump-table_of KsTable.jt_fmtini cc (l, h) = ground arith
jump-table_of KsTable.jt_flags cc (l, h) = ground arith
jump-table_of KsTable.jt_width cc (l, h) = ground arith
jump-table_of KsTable.jt_pwidth cc (l, h) = ground arith
jump-table_of KsTable.jt_dot cc (l, h) = ground arith
jump-table_of KsTable.jt_prec cc (l, h) = ground arith
jump-table_of KsTable.jt_pprec cc (l, h) = ground arith
