-- ===== src/KsVprintf/Agree.antt =====
-- Theorems on the labels of `ks_vprintf` of kernel/boot/utl/printf.c and those of `kvprinto`: where they agree.
use nkos.Common.{
  ℕ, ◌%◌, ◌^◌, ◌<◌, ◌≡◌, ◌⊎◌, inl, inr, some, List, [], ◌∷◌, u32_mod, refl, ap, ◌∙◌, arith, map,
}
use nkos.Kvprinto.Itoa.{itoa}
use nkos.KsVprintf.Jumps.{KsTable}
use nkos.KsVprintf.Tables.{table_of}
use nkos.Kvprinto.Fields.{Fmt}
use nkos.Kvprinto.Machine.{
  conversion_base, Arg, word, str, Printer, Step, do_fmt_d, do_fmt_u, do_fmt_s, do_pwidth, do_pprec,
  put_number, arg_bits, magnitude,
}
use nkos.KsVprintf.Machine.{
  ks_itoa, KsPrinter, KsStep, ok, failed, fault, ks_fmt_d, ks_fmt_u, ks_fmt_s, ks_pwidth, ks_pprec,
  ks_put_number, ks_arg_bits,
}
use nkos.KsVprintf.Numbers.{
  extend, magnitude-extend, magnitude32-extend, extend-low, itoa-ks_itoa, ks_itoa-fits,
}

-- The arguments as the kernel takes them: words of 64 bits.
abbrev pub extend_arg : Arg → Arg
extend_arg (word a) = word (extend a)
extend_arg (str t) = str t

abbrev pub Are32 : List Arg → Type 0
Are32 [] = Unit {0}
Are32 (word a ∷ args) = (a < u32_mod) × Are32 args
Are32 (str t ∷ args) = Are32 args

abbrev pub lift : KsPrinter → Printer
lift s = record { jt = table_of s.jt; fmt = s.fmt; ap = map extend_arg s.ap; out = s.out }

-- A conversion that has been read in part.
abbrev pub IsFmt : Fmt → Type 0
IsFmt f = (f.size ≡ 32) × (f.base ≡ 10) × (f.width < u32_mod) × (f.precision < u32_mod)

abbrev pub IsReady : KsPrinter → Type 0
IsReady s = ((s.jt ≡ KsTable.jt_normal) ⊎ IsFmt s.fmt) × Are32 s.ap

-- Where the kernel goes on, so does the boot stage, to the same state.
abbrev pub IsAgreeing : KsStep → Step → Type 0
IsAgreeing (ok b) (Step.ok t) = (lift b ≡ t) × IsReady b
IsAgreeing (failed out) (Step.ok t) = ⊥
IsAgreeing fault (Step.ok t) = ⊥
IsAgreeing k (Step.failed out) = Unit {0}
IsAgreeing k Step.fault = Unit {0}

abbrev pub printer : KsTable → Fmt → List Arg → List ℕ → KsPrinter
printer jt fmt args out = record { jt = jt; fmt = fmt; ap = args; out = out }

magnitude-fits : (a : ℕ) → (magnitude 32 a).1 < u32_mod
unfolding magnitude
magnitude-fits a = ground arith

magnitude-fits10 : (a : ℕ) → (magnitude 32 a).1 < 10 ^ 31
magnitude-fits10 a = let fits = magnitude-fits a in omega arith

ap_bits : (size : ℕ) → size ≡ 32 → arg_bits size ≡ 32
unfolding arg_bits
ap_bits size e = ground arith

ap_ks_bits : (size : ℕ) → size ≡ 32 → ks_arg_bits size ≡ 32
unfolding ks_arg_bits
ap_ks_bits size e = ground arith

pub fmt_d-IsAgreeing :
    (jt : KsTable) (fmt : Fmt) (args : List Arg) (out : List ℕ)
    → fmt.size ≡ 32
    → Are32 args
    → IsAgreeing
        (ks_fmt_d (printer jt fmt args out) args)
        (do_fmt_d (lift (printer jt fmt args out)) (map extend_arg args))
unfolding ks_fmt_d do_fmt_d put_number ks_put_number
fmt_d-IsAgreeing jt fmt [] out size words = tt
fmt_d-IsAgreeing jt fmt (str t ∷ args) out size words = tt
fmt_d-IsAgreeing jt fmt (word a ∷ args) out size (a_word, words) =
    let bits : arg_bits fmt.size ≡ 32 = ap_bits fmt.size size in
    let ks_bits : ks_arg_bits fmt.size ≡ 32 = ap_ks_bits fmt.size size in
    let (ds, k, e) =
      ks_itoa-fits 10 (magnitude 32 a).1 (omega arith) (omega arith) (magnitude-fits10 a) in
    rw (bits, ks_bits, magnitude32-extend a a_word, k, e) (refl, (inl refl, words))

pub fmt_u-IsAgreeing :
    (c : ℕ) (jt : KsTable) (fmt : Fmt) (args : List Arg) (out : List ℕ)
    → fmt.size ≡ 32
    → fmt.base ≡ 10
    → Are32 args
    → IsAgreeing
        (ks_fmt_u c (printer jt fmt args out) args)
        (do_fmt_u c (lift (printer jt fmt args out)) (map extend_arg args))
unfolding ks_fmt_u do_fmt_u put_number ks_put_number
fmt_u-IsAgreeing c jt fmt [] out size base words = tt
fmt_u-IsAgreeing c jt fmt (str t ∷ args) out size base words = tt
fmt_u-IsAgreeing c jt fmt (word a ∷ args) out size base (a_word, words) =
    let bits : arg_bits fmt.size ≡ 32 = ap_bits fmt.size size in
    let ks_bits : ks_arg_bits fmt.size ≡ 32 = ap_ks_bits fmt.size size in
    let m = a % 2 ^ 32 in
    let (ds, k, e) = itoa-ks_itoa c m (omega arith) in
    let k_base : ks_itoa m 32 (conversion_base c fmt.base) ≡ some ds =
      ap (λ b. ks_itoa m 32 (conversion_base c b)) base ∙ k in
    let e_base : itoa m 64 (conversion_base c fmt.base) ≡ some ds =
      ap (λ b. itoa m 64 (conversion_base c b)) base ∙ e in
    rw (bits, ks_bits, extend-low a a_word, k_base, e_base) (refl, (inl refl, words))

pub fmt_s-IsAgreeing :
    (jt : KsTable) (fmt : Fmt) (args : List Arg) (out : List ℕ)
    → Are32 args
    → IsAgreeing
        (ks_fmt_s (printer jt fmt args out) args)
        (do_fmt_s (lift (printer jt fmt args out)) (map extend_arg args))
unfolding ks_fmt_s do_fmt_s
fmt_s-IsAgreeing jt fmt [] out words = tt
fmt_s-IsAgreeing jt fmt (word a ∷ args) out words = tt
fmt_s-IsAgreeing jt fmt (str t ∷ args) out words = (refl, (inl refl, words))

pub pwidth-IsAgreeing :
    (jt : KsTable) (fmt : Fmt) (args : List Arg) (out : List ℕ)
    → IsFmt fmt
    → Are32 args
    → IsAgreeing
        (ks_pwidth (printer jt fmt args out) args)
        (do_pwidth (lift (printer jt fmt args out)) (map extend_arg args))
unfolding ks_pwidth do_pwidth
pwidth-IsAgreeing jt fmt [] out ready words = tt
pwidth-IsAgreeing jt fmt (str t ∷ args) out ready words = tt
pwidth-IsAgreeing jt fmt (word a ∷ args) out (size, base, w, p) (a_word, words) =
    rw (magnitude-extend a a_word) (refl, (inr (size, base, magnitude-fits a, p), words))

pub pprec-IsAgreeing :
    (jt : KsTable) (fmt : Fmt) (args : List Arg) (out : List ℕ)
    → IsFmt fmt
    → Are32 args
    → IsAgreeing
        (ks_pprec (printer jt fmt args out) args)
        (do_pprec (lift (printer jt fmt args out)) (map extend_arg args))
unfolding ks_pprec do_pprec
pprec-IsAgreeing jt fmt [] out ready words = tt
pprec-IsAgreeing jt fmt (str t ∷ args) out ready words = tt
pprec-IsAgreeing jt fmt (word a ∷ args) out (size, base, w, p) (a_word, words) =
    let fits = magnitude-fits a in
    rw (magnitude-extend a a_word) (refl, (inr (size, base, w, ground arith), words))

-- Where the kernel fails, nothing is said.
pub failed-IsAgreeing : (k : KsStep) (out : List ℕ) → IsAgreeing k (Step.failed out)
failed-IsAgreeing (ok b) out = tt
failed-IsAgreeing (failed o) out = tt
failed-IsAgreeing fault out = tt
