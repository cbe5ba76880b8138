-- ===== src/Kvprinto/Machine.antt =====
-- The loop of `kvprinto` over the format string: the state that it keeps, and one step for each
-- character.
use nkos.Common.{
  ℕ, ◌+◌, ◌-◌, ◌*◌, ◌/◌, ◌%◌, ◌^◌, Bool, true, false, ◌||◌, Option, none, some, List, [], ◌∷◌, ◌++◌,
  ltb, leb, ◌==◌, if◌then◌else◌, u64_mod,
}
use nkos.Kvprinto.Classes.{Class, get_class}
use nkos.Kvprinto.Jumps.{
  State, normal, fmtini, percent, width, dot, prec, pwidth, pprec, flags, m_half, m_long, fmt_u,
  fmt_d, fmt_s, Table, jt_normal, jt_fmtini, jt_flags, jt_width, jt_pwidth, jt_dot, jt_prec,
  jt_pprec, jt_m_half, jt_m_long, jump,
}
use nkos.Kvprinto.Itoa.{itoa}
use nkos.Kvprinto.Fields.{Flags, Fmt, sign_text, number_field, string_field}

-- An argument: a word of 64 bits, or a pointer to a string, given by its bytes before the NUL.
pub data Arg : Type 0 where
  word : ℕ → Arg
  str : List ℕ → Arg

-- `jt`, `fmt`, `ap` and what has been put out.
pub record Printer : Type 0 where
  pub jt : Table
  pub fmt : Fmt
  pub ap : List Arg
  pub out : List ℕ

-- How a step ends: it goes on, it jumps to `failure`, or the behaviour is undefined.
pub data Step : Type 0 where
  ok : Printer → Step
  failed : List ℕ → Step
  fault : Step

-- MAX_WIDTH and MAX_PRECISION
abbrev pub max_width : ℕ
max_width = 4000000000

abbrev pub no_flags : Flags
no_flags = record { zero_pad = false; left = false; alt = false; space = false; plus = false }

abbrev pub fresh_fmt : Fmt
fresh_fmt = record {
  width = 0;
  precision = 0;
  size = 32;
  base = 10;
  sign = false;
  flags = no_flags;
}

-- v * 10 + (c - '0') in 64 bits: the difference is negative for a character below '0'.
abbrev pub push_digit : ℕ → ℕ → ℕ
push_digit v c = (v * 10 + (c + u64_mod - b'0')) % u64_mod

-- The flag that a character stands for.
unfoldable pub set_flag : ℕ → Flags → Flags
set_flag c f =
    if c == b'0'
    then record f { zero_pad = true }
    else if c == b'+'
    then record f { plus = true }
    else if c == b' '
    then record f { space = true }
    else if c == b'-'
    then record f { left = true }
    else if c == b'#'
    then record f { alt = true }
    else f

-- The argument of a signed conversion of w bits: whether it is negative, and its magnitude.
unfoldable pub magnitude : ℕ → ℕ → Bool × ℕ
magnitude w v =
    let m = v % 2 ^ w in if leb (2 ^ w / 2) m then (true, (2 ^ w - m) % 2 ^ w) else (false, m)

-- The width of the argument: 64, 16 and 8 as they are, any other size reads 32 bits.
unfoldable pub arg_bits : ℕ → ℕ
arg_bits size = if size == 64 || (size == 16 || size == 8) then size else 32

-- `itoa(val, tmp, 64, &len, base)` and the field, or `failure`.
unfoldable pub put_number : Printer → Fmt → List ℕ → Option (List ℕ) → Step
put_number s f sig none = failed s.out
put_number s f sig (some v) =
    ok (record s { jt = jt_normal; fmt = f; out = s.out ++ number_field f sig v })

-- `fmt` as fmt_d leaves it: FLAG_LEFT clears FLAG_ZERO, and a negative argument sets the sign.
abbrev pub signed_fmt : Fmt → Bool → Fmt
signed_fmt f neg = record f {
  sign = f.sign || neg;
  flags = if f.flags.left then record (f.flags) { zero_pad = false } else f.flags;
}

-- The label fmt_d.
unfoldable pub do_fmt_d : Printer → List Arg → Step
do_fmt_d s (word a ∷ ap) =
    let (neg, val) = magnitude (arg_bits s.fmt.size) a in
    put_number (record s { ap = ap }) (signed_fmt s.fmt neg) (sign_text (signed_fmt s.fmt neg))
      (itoa val 64 10)
do_fmt_d s _ = fault

-- The base of an unsigned conversion.
abbrev pub conversion_base : ℕ → ℕ → ℕ
conversion_base c base = if c == b'x' || c == b'X' then 16 else if c == b'o' then 8 else base

-- The label fmt_u, for the conversion character c.
unfoldable pub do_fmt_u : ℕ → Printer → List Arg → Step
do_fmt_u c s (word a ∷ ap) =
    let base = conversion_base c s.fmt.base in
    let f = record (s.fmt) { base = base } in
    put_number (record s { ap = ap }) f [] (itoa (a % 2 ^ arg_bits s.fmt.size) 64 base)
do_fmt_u c s _ = fault

-- The label fmt_s.
unfoldable pub do_fmt_s : Printer → List Arg → Step
do_fmt_s s (str t ∷ ap) =
    ok (record s { jt = jt_normal; ap = ap; out = s.out ++ string_field s.fmt t })
do_fmt_s s _ = fault

-- The label pwidth: a negative width sets FLAG_LEFT.
unfoldable pub do_pwidth : Printer → List Arg → Step
do_pwidth s (word a ∷ ap) =
    let (neg, val) = magnitude 64 a in
    let fl = s.fmt.flags in
    ok (record s {
      jt = jt_pwidth;
      ap = ap;
      fmt = record (s.fmt) { width = val; flags = if neg then record fl { left = true } else fl };
    })
do_pwidth s _ = fault

-- The label pprec: a precision that is not positive is ignored.
unfoldable pub do_pprec : Printer → List Arg → Step
do_pprec s (word a ∷ ap) =
    let (neg, val) = magnitude 64 a in
    ok (record s {
      jt = jt_pprec;
      ap = ap;
      fmt = record (s.fmt) {
        precision = if neg then s.fmt.precision else if val == 0 then s.fmt.precision else val;
      };
    })
do_pprec s _ = fault

-- The code at a label, for the character c.
unfoldable pub label : State → ℕ → Printer → Step
label fmtini c s = ok (record s { jt = jt_fmtini; fmt = fresh_fmt })
label flags c s =
    ok (record s { jt = jt_flags; fmt = record (s.fmt) { flags = set_flag c s.fmt.flags } })
label width c s =
    let w = push_digit s.fmt.width c in
    if ltb max_width w
    then failed s.out
    else ok (record s { jt = jt_width; fmt = record (s.fmt) { width = w } })
label pwidth c s = do_pwidth s s.ap
label dot c s = ok (record s { jt = jt_dot })
label pprec c s = do_pprec s s.ap
label prec c s =
    let w = push_digit s.fmt.precision c in
    if ltb max_width w
    then failed s.out
    else ok (record s { jt = jt_prec; fmt = record (s.fmt) { precision = w } })
label m_half c s = ok (record s { jt = jt_m_half; fmt = record (s.fmt) { size = s.fmt.size / 2 } })
label m_long c s =
    ok (record s { jt = jt_m_long; fmt = record (s.fmt) { size = s.fmt.size * 2 % 2 ^ 16 } })
label percent c s = ok (record s { jt = jt_normal; out = s.out ++ c ∷ [] })
label normal c s = ok (record s { out = s.out ++ c ∷ [] })
label fmt_d c s = do_fmt_d s s.ap
label fmt_u c s = do_fmt_u c s s.ap
label fmt_s c s = do_fmt_s s s.ap

-- `goto *jumps[jt[cc]]`, where a class that is none indexes behind the table.
unfoldable pub dispatch : Option Class → ℕ → Printer → Step
dispatch none c s = fault
dispatch (some cc) c s = label (jump s.jt cc) c s

-- How `kvprinto` ends: it returns 0, or -1, having put out the bytes; or the behaviour is undefined.
pub data Outcome : Type 0 where
  done : List ℕ → Outcome
  failure : List ℕ → Outcome
  undefined : Outcome

-- The `for` over the rest of the format string.
unfoldable pub print_from : Option Class → List ℕ → Printer → Outcome
print_from past [] s = done s.out
print_from past (c ∷ p) s = elim (dispatch (get_class past c) c s) [
  | ok t ↦ print_from past p t
  | failed out ↦ failure out
  | fault ↦ undefined
]

-- `fmt` is not initialised: `junk` stands for what it holds.
unfoldable pub kvprinto : Option Class → Fmt → List ℕ → List Arg → Outcome
kvprinto past junk format ap =
    print_from past format (record { jt = jt_normal; fmt = junk; ap = ap; out = [] })
