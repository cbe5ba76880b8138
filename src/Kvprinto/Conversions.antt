-- ===== src/Kvprinto/Conversions.antt =====
-- The number conversions of `kvprinto`, for any flags, width, precision and size.

use nkos.Common.{
  ◌||◌, ℕ, ◌%◌, ◌^◌, ◌≤◌, ◌<◌, ◌≡◌, ◌∙◌, refl, ap, inl, inr, ◌⊎◌, Bool, false, List, [], ◌∷◌, ◌++◌,
  arith, length,
}
use nkos.Kvprinto.Jumps.{jt_normal}
use nkos.Kvprinto.Fields.{number_field, sign_text}
use nkos.Kvprinto.Machine.{
  Arg, word, Printer, ok, magnitude, arg_bits, put_number, signed_fmt, do_fmt_d, conversion_base,
  do_fmt_u,
}
use nkos.Kvprinto.Digits.{itoa-Prints}
use nkos.Kvprinto.Widths.{length-number_field}
use nkos.Kvprinto.ReadBack.{read_number, number_field-reads, unsigned_field-reads}

magnitude-lt : (a size : ℕ) → (magnitude (arg_bits size) a).1 < 2 ^ 64
unfolding magnitude arg_bits
magnitude-lt a size = ground arith

-- The step of a signed conversion, for any flags, width, precision and size and a format whose sign
-- is not set: it consumes one argument, goes back to plain text, and puts out a field that reads back
-- as the argument, a signed integer of the size, and is at least as wide as was asked for.
pub do_fmt_d_lem :
    (s : Printer) (a : ℕ) (ap' : List Arg)
    → s.fmt.sign ≡ false
    → (field : List ℕ) × (t : Printer) × (do_fmt_d s (word a ∷ ap') ≡ ok t)
      × (t.out ≡ s.out ++ field)
      × (t.ap ≡ ap')
      × (t.jt ≡ jt_normal)
      × (read_number 10 field ≡ magnitude (arg_bits s.fmt.size) a)
      × (s.fmt.width ≤ length field)
unfolding do_fmt_d put_number
do_fmt_d_lem s a ap' plain =
    let (neg, val) = magnitude (arg_bits s.fmt.size) a in
    let (ds, e, pr, _) =
      itoa-Prints 10 (omega arith) (omega arith) val 64 (omega arith)
        (omega (arith, magnitude-lt a s.fmt.size)) in
    let f = signed_fmt s.fmt neg in
    (
      number_field f (sign_text f) ds,
      record s {
        jt = jt_normal;
        fmt = f;
        ap = ap';
        out = s.out ++ number_field f (sign_text f) ds;
      },
      rw e,
      refl,
      refl,
      refl,
      number_field-reads ds pr f ∙ ap (λ b. (b, val)) (sign_cleared neg),
      omega (arith, length-number_field f (sign_text f) ds),
    )
  where
    sign_cleared : (neg : Bool) → (s.fmt.sign || neg) ≡ neg
    sign_cleared neg = rw plain

Base-cases : (b : ℕ) → (b ≡ 8) ⊎ ((b ≡ 10) ⊎ (b ≡ 16)) → (2 ≤ b) × (b ≤ 16) × (2 ^ 64 ≤ b ^ 63)
Base-cases b (inl e) = rw e (omega arith, omega arith, omega arith)
Base-cases b (inr (inl e)) = rw e (omega arith, omega arith, omega arith)
Base-cases b (inr (inr e)) = rw e (omega arith, omega arith, omega arith)

mod-arg_bits-lt : (a size : ℕ) → a % 2 ^ arg_bits size < 2 ^ 64
unfolding arg_bits
mod-arg_bits-lt a size = ground arith

conversion_base-cases : (c : ℕ) → let b = conversion_base c 10 in (b ≡ 8) ⊎ ((b ≡ 10) ⊎ (b ≡ 16))
conversion_base-cases c = ground arith

-- The step of an unsigned conversion (%u, %x, %X, %o), for any flags, width, precision and size: it
-- consumes one argument, goes back to plain text, and puts out a field that reads back, in the base
-- of the conversion, as the argument cut to its size, and is at least as wide as was asked for.
pub do_fmt_u_lem :
    (c : ℕ) (s : Printer) (a : ℕ) (ap' : List Arg)
    → s.fmt.base ≡ 10
    → (field : List ℕ) × (t : Printer) × (do_fmt_u c s (word a ∷ ap') ≡ ok t)
      × (t.out ≡ s.out ++ field)
      × (t.ap ≡ ap')
      × (t.jt ≡ jt_normal)
      × (read_number (conversion_base c 10) field ≡ (false, a % 2 ^ arg_bits s.fmt.size))
      × (s.fmt.width ≤ length field)
unfolding do_fmt_u put_number
do_fmt_u_lem c s a ap' ten =
    let b = conversion_base c 10 in
    let (lo, hi, room) = Base-cases b (conversion_base-cases c) in
    let val = a % 2 ^ arg_bits s.fmt.size in
    let (ds, e, pr, _) =
      itoa-Prints b lo hi val 64 (omega arith) (omega (arith, mod-arg_bits-lt a s.fmt.size)) in
    let f = record (s.fmt) { base = b } in
    (
      number_field f [] ds,
      record s { jt = jt_normal; fmt = f; ap = ap'; out = s.out ++ number_field f [] ds },
      rw (ten, e),
      refl,
      refl,
      refl,
      unsigned_field-reads ds pr f,
      omega (arith, length-number_field f [] ds),
    )
