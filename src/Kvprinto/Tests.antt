-- ===== src/Kvprinto/Tests.antt =====
-- Runs of `kvprinto`, and its theorems at concrete inputs.
use Prim.Native.String.{String}
use Prim.Native.Char.{code}
use nkos.Common.{
  ℕ, ◌-◌, ◌^◌, ◌<◌, ◌≡◌, refl, true, Option, some, List, [], ◌∷◌, ◌++◌, arith, length,
}
use nkos.Kvprinto.Classes.{Class, cc_default, get_class}
use nkos.Kvprinto.Jumps.{jt_normal, jump}
use nkos.Kvprinto.Itoa.{itoa}
use nkos.Kvprinto.Fields.{Fmt, sign_text, number_field, string_field}
use nkos.Kvprinto.Machine.{
  Arg, word, str, Printer, fresh_fmt, set_flag, magnitude, arg_bits, put_number, do_fmt_d, do_fmt_u,
  do_fmt_s, do_pwidth, do_pprec, label, dispatch, print_from, done, failure, undefined, kvprinto,
}
use nkos.Kvprinto.Digits.{Prints, itoa-Prints}
use nkos.Kvprinto.ReadBack.{read_number}
use nkos.Kvprinto.Runs.{IsSigned32, kvprinto-d, kvprinto-flag_dot}

abbrev codes : String → List ℕ
codes String.[] = []
codes (String.◌∷◌ c s) = code c ∷ codes s

-- 'y' reads as a character of class CC_DEFAULT, and `fmt` starts as zeros.
abbrev past : Option Class
past = some cc_default

-- The line `unfolding run` opens the whole machine.
run : String → List Arg → List ℕ
unfolding kvprinto print_from dispatch get_class jump label do_fmt_d do_fmt_u do_fmt_s do_pwidth
    do_pprec put_number itoa magnitude arg_bits set_flag sign_text number_field string_field
run format args = elim (kvprinto past fresh_fmt (codes format) args) [
  | done o ↦ o
  | failure o ↦ codes "failed"
  | undefined ↦ codes "undefined"
]

mixed_line :
    run "mem %016lx %-5d|%+4i|%s%%"
      (word 0xabcd ∷ word (2 ^ 32 - 42) ∷ word 7 ∷ str (codes "ok") ∷ [])
    ≡ codes "mem 000000000000abcd -42  |  +7|ok%"
unfolding run
mixed_line = refl

precisions :
    run "%.4d %.2s %*x %hd"
      (word 37 ∷ str (codes "abc") ∷ word (2 ^ 64 - 6) ∷ word 255 ∷ word 65535 ∷ [])
    ≡ codes "0037 ab ff     -1"
unfolding run
precisions = refl

missing_argument : run "%d" [] ≡ codes "undefined"
unfolding run
missing_argument = refl

itoa-Prints_example :
    (ds : List ℕ) × (itoa (2 ^ 64 - 1) 64 8 ≡ some ds) × Prints 8 (2 ^ 64 - 1) ds × (length ds < 64)
itoa-Prints_example =
    itoa-Prints 8 (omega arith) (omega arith) (2 ^ 64 - 1) 64 (omega arith) (omega arith)

abbrev minus : List ℕ
minus = codes "-"

abbrev wide : Fmt
wide = record fresh_fmt { width = 8; precision = 4; sign = true }

abbrev printer : Printer
printer = record { jt = jt_normal; fmt = record fresh_fmt { width = 9 }; ap = []; out = codes "x" }

abbrev minus_five : ℕ
minus_five = 2 ^ 32 - 5

abbrev hello : List ℕ
hello = codes "hello "

kvprinto-d_example :
    (field : List ℕ) × (kvprinto past fresh_fmt
        (hello ++ b'%' ∷ b'd' ∷ hello)
        (word minus_five ∷ [])
      ≡ done (hello ++ field ++ hello))
    × IsSigned32 minus_five (read_number 10 field)
kvprinto-d_example = kvprinto-d past fresh_fmt hello hello minus_five [] (omega arith) (omega arith)

kvprinto-flag_dot_example :
    kvprinto past fresh_fmt (hello ++ b'%' ∷ b'-' ∷ b'.' ∷ codes "3s") (str hello ∷ [])
    ≡ failure hello
kvprinto-flag_dot_example =
    kvprinto-flag_dot past fresh_fmt hello (codes "3s") b'-' (str hello ∷ []) (omega arith) refl
