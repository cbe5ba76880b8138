-- ===== src/KsVprintf/Machine.antt =====
-- The loop of `ks_vprintf` of kernel/boot/utl/printf.c over the format string.
use nkos.Common.{
  ℕ, zero, suc, ◌+◌, ◌-◌, ◌*◌, ◌/◌, ◌%◌, ◌^◌, true, false, ◌||◌, Option, none, some, List, [], ◌∷◌,
  ◌++◌, ltb, ◌==◌, if◌then◌else◌, u32_mod,
}
use nkos.Kvprinto.Classes.{Class, get_class}
use nkos.Kvprinto.Itoa.{digit}
use nkos.Kvprinto.Fields.{Fmt, sign_text, number_field, string_field}
use nkos.Kvprinto.Machine.{
  Arg, word, str, Outcome, done, failure, undefined, set_flag, max_width, magnitude, fresh_fmt,
  signed_fmt, conversion_base,
}
use nkos.KsVprintf.Jumps.{
  KsState, normal, fmtini, percent, width, dot, prec, pwidth, pprec, flags, fmt_u, fmt_d, fmt_s,
  KsTable, jt_normal, jt_fmtini, jt_flags, jt_width, jt_pwidth, jt_dot, jt_prec, jt_pprec, ks_jump,
}

-- `jt`, `fmt`, `ap` and what has been put out. An argument is a word of 32 bits, or a string.
pub record KsPrinter : Type 0 where
  pub jt : KsTable
  pub fmt : Fmt
  pub ap : List Arg
  pub out : List ℕ

-- How a step ends: it goes on, it jumps to `failure`, or the behaviour is undefined.
pub data KsStep : Type 0 where
  ok : KsPrinter → KsStep
  failed : List ℕ → KsStep
  fault : KsStep

-- The `while` of `itoa`, with the room that is left in the buffer.
unfoldable pub ks_itoa_loop : ℕ → ℕ → ℕ → List ℕ → Option (List ℕ)
ks_itoa_loop zero base val p = if val == 0 then some p else none
ks_itoa_loop (suc room) base val p = elim (val == 0) [
  | true ↦ some p
  | false ↦ ks_itoa_loop room base (val / base) (digit (val % base) ∷ p)
]

-- `itoa(val, tmp, sizeof(tmp), &len, base)`, without the NUL.
unfoldable pub ks_itoa : ℕ → ℕ → ℕ → Option (List ℕ)
ks_itoa val len base = if val == 0 then some (b'0' ∷ []) else ks_itoa_loop (len - 1) base val []

-- v *= 10 and v += c - '0' in 32 bits.
abbrev pub ks_push_digit : ℕ → ℕ → ℕ
ks_push_digit v c = (v * 10 % u32_mod + (c + u32_mod - b'0')) % u32_mod

-- The width of the argument: 16 and 8 as they are, any other size reads 32 bits.
unfoldable pub ks_arg_bits : ℕ → ℕ
ks_arg_bits size = if size == 16 || size == 8 then size else 32

-- The field of a number, or `failure`.
unfoldable pub ks_put_number : KsPrinter → Fmt → List ℕ → Option (List ℕ) → KsStep
ks_put_number s f sig none = failed s.out
ks_put_number s f sig (some v) =
    ok (record s { jt = jt_normal; fmt = f; out = s.out ++ number_field f sig v })

-- The label fmt_d.
unfoldable pub ks_fmt_d : KsPrinter → List Arg → KsStep
ks_fmt_d s (word a ∷ ap) =
    let (neg, val) = magnitude (ks_arg_bits s.fmt.size) a in
    ks_put_number (record s { ap = ap }) (signed_fmt s.fmt neg) (sign_text (signed_fmt s.fmt neg))
      (ks_itoa val 32 10)
ks_fmt_d s _ = fault

-- The label fmt_u, for the conversion character c.
unfoldable pub ks_fmt_u : ℕ → KsPrinter → List Arg → KsStep
ks_fmt_u c s (word a ∷ ap) =
    let base = conversion_base c s.fmt.base in
    let f = record (s.fmt) { base = base } in
    ks_put_number (record s { ap = ap }) f [] (ks_itoa (a % 2 ^ ks_arg_bits s.fmt.size) 32 base)
ks_fmt_u c s _ = fault

-- The label fmt_s.
unfoldable pub ks_fmt_s : KsPrinter → List Arg → KsStep
ks_fmt_s s (str t ∷ ap) =
    ok (record s { jt = jt_normal; ap = ap; out = s.out ++ string_field s.fmt t })
ks_fmt_s s _ = fault

-- The label pwidth: a negative width sets FLAG_LEFT.
unfoldable pub ks_pwidth : KsPrinter → List Arg → KsStep
ks_pwidth s (word a ∷ ap) =
    let (neg, val) = magnitude 32 a in
    let fl = s.fmt.flags in
    ok (record s {
      jt = jt_pwidth;
      ap = ap;
      fmt = record (s.fmt) { width = val; flags = if neg then record fl { left = true } else fl };
    })
ks_pwidth s _ = fault

-- The label pprec: a precision that is not positive is ignored.
unfoldable pub ks_pprec : KsPrinter → List Arg → KsStep
ks_pprec s (word a ∷ ap) =
    let (neg, val) = magnitude 32 a in
    ok (record s {
      jt = jt_pprec;
      ap = ap;
      fmt = record (s.fmt) {
        precision = if neg then s.fmt.precision else if val == 0 then s.fmt.precision else val;
      };
    })
ks_pprec s _ = fault

-- The code at a label, for the character c.
unfoldable pub ks_label : KsState → ℕ → KsPrinter → KsStep
ks_label fmtini c s = ok (record s { jt = jt_fmtini; fmt = fresh_fmt })
ks_label flags c s =
    ok (record s { jt = jt_flags; fmt = record (s.fmt) { flags = set_flag c s.fmt.flags } })
ks_label width c s =
    let w = ks_push_digit s.fmt.width c in
    if ltb max_width w
    then failed s.out
    else ok (record s { jt = jt_width; fmt = record (s.fmt) { width = w } })
ks_label pwidth c s = ks_pwidth s s.ap
ks_label dot c s = ok (record s { jt = jt_dot })
ks_label pprec c s = ks_pprec s s.ap
ks_label prec c s =
    let w = ks_push_digit s.fmt.precision c in
    if ltb max_width w
    then failed s.out
    else ok (record s { jt = jt_prec; fmt = record (s.fmt) { precision = w } })
ks_label percent c s = ok (record s { jt = jt_normal; out = s.out ++ c ∷ [] })
ks_label normal c s = ok (record s { out = s.out ++ c ∷ [] })
ks_label fmt_d c s = ks_fmt_d s s.ap
ks_label fmt_u c s = ks_fmt_u c s s.ap
ks_label fmt_s c s = ks_fmt_s s s.ap

-- `goto *jumps[jt[cc]]`, where a class that is none indexes behind the table.
unfoldable pub ks_dispatch : Option Class → ℕ → KsPrinter → KsStep
ks_dispatch none c s = fault
ks_dispatch (some cc) c s = ks_label (ks_jump s.jt cc) c s

-- The `for` over the rest of the format string.
unfoldable pub ks_print_from : Option Class → List ℕ → KsPrinter → Outcome
ks_print_from past [] s = done s.out
ks_print_from past (c ∷ p) s = elim (ks_dispatch (get_class past c) c s) [
  | ok t ↦ ks_print_from past p t
  | failed out ↦ failure out
  | fault ↦ undefined
]

-- `fmt` is not initialised: `junk` stands for what it holds.
unfoldable pub ks_vprintf : Option Class → Fmt → List ℕ → List Arg → Outcome
ks_vprintf past junk format ap =
    ks_print_from past format (record { jt = jt_normal; fmt = junk; ap = ap; out = [] })
