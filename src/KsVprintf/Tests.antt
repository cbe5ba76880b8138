-- ===== src/KsVprintf/Tests.antt =====
-- Runs of `ks_vprintf` of kernel/boot/utl/printf.c, and its theorems at concrete inputs.
use Prim.Native.String.{String}
use Prim.Native.Char.{code}
use nkos.Common.{ℕ, ◌-◌, ◌^◌, ◌≡◌, refl, Option, none, some, List, [], ◌∷◌, arith}
use nkos.Kvprinto.Classes.{Class, cc_default, get_class}
use nkos.Kvprinto.Itoa.{itoa, digit}
use nkos.Kvprinto.Fields.{sign_text, number_field, string_field}
use nkos.Kvprinto.Jumps.{jump}
use nkos.Kvprinto.Machine.{
  Arg, word, str, fresh_fmt, set_flag, magnitude, arg_bits, put_number, do_fmt_d, do_fmt_u,
  do_fmt_s, do_pwidth, do_pprec, label, dispatch, print_from, kvprinto, done, failure, undefined,
}
use nkos.KsVprintf.Jumps.{ks_jump, row_normal, row_fmtini, row_flags, row_width, row_pwidth}
use nkos.KsVprintf.Machine.{
  ks_itoa_loop, ks_vprintf, ks_print_from, ks_dispatch, ks_label, ks_fmt_d, ks_fmt_u, ks_fmt_s,
  ks_pwidth, ks_pprec, ks_put_number, ks_itoa, ks_arg_bits,
}
use nkos.KsVprintf.Runs.{ArePlain, ks_vprintf-kvprinto}

abbrev codes : String → List ℕ
codes String.[] = []
codes (String.◌∷◌ c s) = code c ∷ codes s

abbrev past : Option Class
past = some cc_default

-- The line `unfolding run` opens the whole machine.
run : String → List Arg → List ℕ
unfolding ks_vprintf ks_print_from ks_dispatch get_class ks_jump ks_label ks_fmt_d ks_fmt_u ks_fmt_s
    ks_pwidth ks_pprec ks_put_number ks_itoa ks_itoa_loop digit row_normal row_fmtini row_flags
    row_width row_pwidth magnitude ks_arg_bits set_flag sign_text number_field string_field
run format args = elim (ks_vprintf past fresh_fmt (codes format) args) [
  | done o ↦ o
  | failure o ↦ codes "failed"
  | undefined ↦ codes "undefined"
]

mixed_line :
    run "%08x %-5d|%+4i|%*s%%"
      (word 0xabcd ∷ word (2 ^ 32 - 42) ∷ word 7 ∷ word (2 ^ 32 - 3) ∷ str (codes "ok") ∷ [])
    ≡ codes "0000abcd -42  |  +7|ok %"
unfolding run
mixed_line = refl

-- A modifier is put out, and the conversion goes on behind it.
long_modifier : run "%ld" (word 7 ∷ []) ≡ codes "l7"
unfolding run
long_modifier = refl

-- A width of 2 ^ 32 + 3 is taken for 3.
width_wraps : run "%4294967299d" (word 7 ∷ []) ≡ codes "  7"
unfolding run
width_wraps = refl

format_plain : ArePlain past (codes "%3d|%x")
unfolding get_class
format_plain = ground arith

ks_vprintf-kvprinto_example :
    ks_vprintf none fresh_fmt (codes "%3d|%x") (word (2 ^ 32 - 7) ∷ word 255 ∷ [])
    ≡ done (codes " -7|ff")
unfolding get_class kvprinto print_from dispatch jump label do_fmt_d do_fmt_u do_fmt_s do_pwidth
    do_pprec put_number itoa magnitude arg_bits set_flag sign_text number_field string_field
ks_vprintf-kvprinto_example =
    ks_vprintf-kvprinto past none fresh_fmt (codes "%3d|%x") (codes " -7|ff")
      (word (2 ^ 32 - 7) ∷ word 255 ∷ []) format_plain (omega arith, (omega arith, tt)) refl
