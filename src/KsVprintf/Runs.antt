-- ===== src/KsVprintf/Runs.antt =====
-- Theorems on `ks_vprintf` of kernel/boot/utl/printf.c and `kvprinto` of kernel/utl/printf.c on the same format.
use nkos.Common.{
  false, ◌==◌, ◌-◌, ◌||◌, leb, ℕ, ◌<◌, ◌≡◌, ◌≢◌, ◌⊎◌, inl, inr, Option, none, some, List, [], ◌∷◌,
  ltb, refl, sym, ap, arith, map, Bool-cases, subst,
}
use nkos.Kvprinto.Classes.{cclass_size, Class, get_class, cc_long, cc_half}
use nkos.Kvprinto.Fields.{Fmt}
use nkos.Kvprinto.Machine.{
  Arg, Step, Outcome, done, failure, undefined, label, dispatch, print_from, kvprinto, push_digit,
  max_width,
}
use nkos.KsVprintf.Jumps.{KsState, KsTable, ks_jump, row_normal}
use nkos.KsVprintf.Machine.{
  KsPrinter, KsStep, ok, failed, fault, ks_label, ks_dispatch, ks_print_from, ks_vprintf,
}
use nkos.KsVprintf.Numbers.{push_digit-fits}
use nkos.KsVprintf.Tables.{state_of, IsPlain, jump-table_of}
use nkos.KsVprintf.Agree.{
  extend_arg, Are32, lift, IsFmt, IsReady, IsAgreeing, printer, failed-IsAgreeing, fmt_d-IsAgreeing,
  fmt_u-IsAgreeing, fmt_s-IsAgreeing, pwidth-IsAgreeing, pprec-IsAgreeing,
}

-- At these labels nothing is read of fmt.
abbrev IsStart : KsState → Type 0
IsStart st = (st ≡ KsState.normal) ⊎ (st ≡ KsState.fmtini)

width-IsAgreeing :
    (c : ℕ) (jt : KsTable) (fmt : Fmt) (args : List Arg) (out : List ℕ)
    → c < 256
    → IsFmt fmt
    → Are32 args
    → IsAgreeing
        (ks_label KsState.width c (printer jt fmt args out))
        (label (state_of KsState.width) c (lift (printer jt fmt args out)))
unfolding ks_label label
width-IsAgreeing c jt fmt args out byte (size, base, w, p) words =
    elim (Bool-cases (ltb max_width (push_digit fmt.width c))) [
      | inl t ↦ rw t (failed-IsAgreeing (ks_label KsState.width c (printer jt fmt args out)) out)
      | inr t ↦
          let (same, fits) = push_digit-fits fmt.width c w byte t in
          rw (same, t) (refl, (inr (size, base, fits, p), words))
    ]

prec-IsAgreeing :
    (c : ℕ) (jt : KsTable) (fmt : Fmt) (args : List Arg) (out : List ℕ)
    → c < 256
    → IsFmt fmt
    → Are32 args
    → IsAgreeing
        (ks_label KsState.prec c (printer jt fmt args out))
        (label (state_of KsState.prec) c (lift (printer jt fmt args out)))
unfolding ks_label label
prec-IsAgreeing c jt fmt args out byte (size, base, w, p) words =
    elim (Bool-cases (ltb max_width (push_digit fmt.precision c))) [
      | inl t ↦ rw t (failed-IsAgreeing (ks_label KsState.prec c (printer jt fmt args out)) out)
      | inr t ↦
          let (same, fits) = push_digit-fits fmt.precision c p byte t in
          rw (same, t) (refl, (inr (size, base, w, fits), words))
    ]

-- A label that reads fmt is not reached from the table of normal characters.
ready-IsFmt :
    (jt : KsTable) (fmt : Fmt) (st : KsState)
    → (jt ≡ KsTable.jt_normal) ⊎ IsFmt fmt
    → (jt ≡ KsTable.jt_normal → IsStart st)
    → st ≢ KsState.normal
    → st ≢ KsState.fmtini
    → IsFmt fmt
ready-IsFmt jt fmt st (inr f) start n i = f
ready-IsFmt jt fmt st (inl e) start n i = elim (start e) [
  | inl a ↦ absurd (n a)
  | inr b ↦ absurd (i b)
]

label-IsAgreeing :
    (st : KsState) (c : ℕ) (jt : KsTable) (fmt : Fmt) (args : List Arg) (out : List ℕ)
    → c < 256
    → (jt ≡ KsTable.jt_normal) ⊎ IsFmt fmt
    → (jt ≡ KsTable.jt_normal → IsStart st)
    → Are32 args
    → IsAgreeing
        (ks_label st c (printer jt fmt args out))
        (label (state_of st) c (lift (printer jt fmt args out)))
unfolding ks_label label
label-IsAgreeing KsState.fmtini c jt fmt args out byte ready start words =
    (refl, (inr (refl, refl, omega arith, omega arith), words))
label-IsAgreeing KsState.normal c jt fmt args out byte ready start words = (refl, (ready, words))
label-IsAgreeing KsState.percent c jt fmt args out byte ready start words =
    (refl, (inl refl, words))
label-IsAgreeing KsState.flags c jt fmt args out byte ready start words =
    (refl, (inr (ready-IsFmt jt fmt KsState.flags ready start (λ e. cc) (λ e. cc)), words))
label-IsAgreeing KsState.dot c jt fmt args out byte ready start words =
    (refl, (inr (ready-IsFmt jt fmt KsState.dot ready start (λ e. cc) (λ e. cc)), words))
label-IsAgreeing KsState.width c jt fmt args out byte ready start words =
    width-IsAgreeing c jt fmt args out byte
      (ready-IsFmt jt fmt KsState.width ready start (λ e. cc) (λ e. cc)) words
label-IsAgreeing KsState.prec c jt fmt args out byte ready start words =
    prec-IsAgreeing c jt fmt args out byte
      (ready-IsFmt jt fmt KsState.prec ready start (λ e. cc) (λ e. cc)) words
label-IsAgreeing KsState.pwidth c jt fmt args out byte ready start words =
    pwidth-IsAgreeing jt fmt args out
      (ready-IsFmt jt fmt KsState.pwidth ready start (λ e. cc) (λ e. cc)) words
label-IsAgreeing KsState.pprec c jt fmt args out byte ready start words =
    pprec-IsAgreeing jt fmt args out
      (ready-IsFmt jt fmt KsState.pprec ready start (λ e. cc) (λ e. cc)) words
label-IsAgreeing KsState.fmt_d c jt fmt args out byte ready start words =
    let is = ready-IsFmt jt fmt KsState.fmt_d ready start (λ e. cc) (λ e. cc) in
    fmt_d-IsAgreeing jt fmt args out is.0 words
label-IsAgreeing KsState.fmt_u c jt fmt args out byte ready start words =
    let is = ready-IsFmt jt fmt KsState.fmt_u ready start (λ e. cc) (λ e. cc) in
    fmt_u-IsAgreeing c jt fmt args out is.0 is.1 words
label-IsAgreeing KsState.fmt_s c jt fmt args out byte ready start words =
    fmt_s-IsAgreeing jt fmt args out words

normal-IsStart : (cc : Class) → IsStart (ks_jump KsTable.jt_normal cc)
unfolding ks_jump row_normal
normal-IsStart cc = ground arith

-- The characters of a format are bytes, and none of them is a modifier, or 'y', whose class lies behind the table.
abbrev pub ArePlain : Option Class → List ℕ → Type 0
ArePlain past [] = Unit {0}
ArePlain past (c ∷ p) =
    (c < 256)
    × (c ≢ b'y')
    × (get_class past c ≢ some cc_long)
    × (get_class past c ≢ some cc_half)
    × ArePlain past p

dispatch-IsAgreeing :
    (cc : Option Class) (c : ℕ) (s : KsPrinter)
    → c < 256
    → cc ≢ some cc_long
    → cc ≢ some cc_half
    → IsReady s
    → IsAgreeing (ks_dispatch cc c s) (dispatch cc c (lift s))
unfolding ks_dispatch dispatch
dispatch-IsAgreeing none c s byte l h ready = tt
dispatch-IsAgreeing (some cc) c s byte l h (ready, words) =
    let plain : IsPlain cc = (λ e. l (ap some e), λ e. h (ap some e)) in
    let start : s.jt ≡ KsTable.jt_normal → IsStart (ks_jump s.jt cc) =
      λ e. subst (λ jt. IsStart (ks_jump jt cc)) (sym e) (normal-IsStart cc) in
    subst (λ st. IsAgreeing (ks_label (ks_jump s.jt cc) c s) (label st c (lift s)))
      (sym (jump-table_of s.jt cc plain))
      (label-IsAgreeing (ks_jump s.jt cc) c s.jt s.fmt s.ap s.out byte ready start words)

-- One turn of both loops, when the rest of the loops agrees.
turn :
    (past past2 : Option Class) (p out : List ℕ) (k : KsStep) (r : Step)
    → IsAgreeing k r
    → ((b : KsPrinter)
        → IsReady b
        → print_from past p (lift b) ≡ done out
        → ks_print_from past2 p b ≡ done out)
    → ◌≡◌ {A = Outcome}
        (elim r [
          | Step.ok t ↦ print_from past p t
          | Step.failed o ↦ failure o
          | Step.fault ↦ undefined
        ])
        (done out)
    → ◌≡◌ {A = Outcome}
        (elim k [ ok t ↦ ks_print_from past2 p t | failed o ↦ failure o | fault ↦ undefined ])
        (done out)
turn past past2 p out (ok b) (Step.ok t) (same, ready) rest e =
    rest b ready (subst (λ t. print_from past p t ≡ done out) (sym same) e)
turn past past2 p out (failed o) (Step.ok t) agrees rest e = absurd agrees
turn past past2 p out fault (Step.ok t) agrees rest e = absurd agrees
turn past past2 p out k (Step.failed o) agrees rest e = cc
turn past past2 p out k Step.fault agrees rest e = cc

-- Both programs give any other character the same class.
get_class-past :
    (past past2 : Option Class) (c : ℕ) → c ≢ b'y' → get_class past2 c ≡ get_class past c
unfolding get_class
get_class-past past past2 c h =
    elim (Bool-cases (leb 128 c || ltb c b' ' || ltb cclass_size (c - b' '))) [
      | inl e ↦ rw e refl
      | inr e ↦ let inside : (c - b' ' == cclass_size) ≡ false = ground arith in rw (e, inside) refl
    ]

print_from-agrees :
    (past past2 : Option Class) (p out : List ℕ) (s : KsPrinter)
    → ArePlain past p
    → IsReady s
    → print_from past p (lift s) ≡ done out
    → ks_print_from past2 p s ≡ done out
unfolding print_from ks_print_from
print_from-agrees past past2 [] out s plain ready e = e
print_from-agrees past past2 (c ∷ p) out s (byte, y, l, h, plain) ready e =
    subst
      (λ cc.
        ◌≡◌ {A = Outcome}
          (elim (ks_dispatch cc c s) [
            | ok t ↦ ks_print_from past2 p t
            | failed o ↦ failure o
            | fault ↦ undefined
          ])
          (done out))
      (sym (get_class-past past past2 c y))
      (turn past past2 p out (ks_dispatch (get_class past c) c s)
        (dispatch (get_class past c) c (lift s))
        (dispatch-IsAgreeing (get_class past c) c s byte l h ready)
        (λ b is. print_from-agrees past past2 p out b plain is) e)

-- A format of bytes with no modifier h, H, l or L and no 'y', and arguments that are words of 32 bits or strings: where
-- `kvprinto`, given the words with their signs extended to 64 bits, returns 0, `ks_vprintf` returns 0 and has put out
-- the same characters, whatever lies behind the table of the classes in either program.
pub ks_vprintf-kvprinto :
    (past past2 : Option Class) (junk : Fmt) (format out : List ℕ) (args : List Arg)
    → ArePlain past format
    → Are32 args
    → kvprinto past junk format (map extend_arg args) ≡ done out
    → ks_vprintf past2 junk format args ≡ done out
unfolding kvprinto ks_vprintf
ks_vprintf-kvprinto past past2 junk format out args plain words e =
    print_from-agrees past past2 format out (printer KsTable.jt_normal junk args []) plain
      (inl refl, words) e
