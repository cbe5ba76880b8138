-- ===== src/KsVprintf/Numbers.antt =====
-- Theorems on the numbers of kernel/boot/utl/printf.c, in 32 bits, and those of kernel/utl/printf.c.
use nkos.Common.{
  ◌||◌, ℕ, zero, suc, ◌+◌, ◌-◌, ◌/◌, ◌%◌, ◌^◌, ◌≤◌, ◌<◌, ◌≡◌, inl, inr, false, Option, none, some,
  List, [], ◌∷◌, ltb, ◌==◌, if◌then◌else◌, u32_mod, refl, arith, Bool-cases,
}
use nkos.Kvprinto.Itoa.{itoa, itoa_loop, digit}
use nkos.Kvprinto.Digits.{itoa-Prints}
use nkos.Kvprinto.Machine.{magnitude, push_digit, max_width, conversion_base}
use nkos.KsVprintf.Machine.{ks_itoa, ks_itoa_loop, ks_push_digit}

ks_itoa_loop_lem :
    (room base val : ℕ) (p : List ℕ) → ks_itoa_loop room base val p ≡ itoa_loop room base val p
unfolding ks_itoa_loop itoa_loop
ks_itoa_loop_lem zero base val p = refl
ks_itoa_loop_lem (suc room) base val p = elim (Bool-cases (val == 0)) [
  | inl e ↦ rw (e, itoa_loop, ks_itoa_loop) refl
  | inr e ↦
      rw (e, itoa_loop, ks_itoa_loop)
        (ks_itoa_loop_lem room base (val / base) (digit (val % base) ∷ p))
]

-- What fits in a buffer fits in a longer one.
itoa_loop-longer :
    (room long base val : ℕ) (p ds : List ℕ)
    → room ≤ long
    → itoa_loop room base val p ≡ some ds
    → itoa_loop long base val p ≡ some ds
unfolding itoa_loop
itoa_loop-longer zero zero base val p ds l e = e
itoa_loop-longer zero (suc long) base val p ds l e = elim (Bool-cases (val == 0)) [
  | inl t ↦ rw (t, itoa_loop) (rw t at e)
  | inr t ↦ let no : ◌≡◌ {A = Option (List ℕ)} none (some ds) = rw t at e in cc
]
itoa_loop-longer (suc room) zero base val p ds l e = absurd (omega arith)
itoa_loop-longer (suc room) (suc long) base val p ds l e = elim (Bool-cases (val == 0)) [
  | inl t ↦ rw (t, itoa_loop) (rw (t, itoa_loop) at e)
  | inr t ↦
      rw (t, itoa_loop)
        (itoa_loop-longer room long base (val / base) (digit (val % base) ∷ p) ds (omega arith)
          (rw (t, itoa_loop) at e))
]

pub ks_itoa-fits :
    (base val : ℕ)
    → 2 ≤ base
    → base ≤ 16
    → val < base ^ 31
    → (ds : List ℕ) × (ks_itoa val 32 base ≡ some ds) × (itoa val 64 base ≡ some ds)
unfolding ks_itoa itoa
ks_itoa-fits base val lo hi h =
    let (ds, e, _, _) = itoa-Prints base lo hi val 32 (omega arith) h in
    elim (Bool-cases (val == 0)) [
      | inl t ↦ (ds, rw t (rw t at e), rw t (rw t at e))
      | inr t ↦
          let short : itoa_loop 31 base val [] ≡ some ds = rw t at e in
          (
            ds,
            rw (t, ks_itoa_loop_lem 31 base val []) short,
            rw t (itoa_loop-longer 31 63 base val [] ds (omega arith) short),
          )
    ]

-- A number of 32 bits in a base of the conversions.
pub itoa-ks_itoa :
    (c val : ℕ)
    → val < u32_mod
    → (ds : List ℕ) × (ks_itoa val 32 (conversion_base c 10) ≡ some ds)
      × (itoa val 64 (conversion_base c 10) ≡ some ds)
itoa-ks_itoa c val h = elim (Bool-cases (c == b'x' || c == b'X')) [
  | inl t ↦ rw t (ks_itoa-fits 16 val (omega arith) (omega arith) (omega arith))
  | inr t ↦ elim (Bool-cases (c == b'o')) [
    | inl o ↦ rw (t, o) (ks_itoa-fits 8 val (omega arith) (omega arith) (omega arith))
    | inr o ↦ rw (t, o) (ks_itoa-fits 10 val (omega arith) (omega arith) (omega arith))
  ]
]

-- A word of 32 bits as a signed number in 64 bits.
abbrev pub extend : ℕ → ℕ
extend a = if ltb a (2 ^ 31) then a else a + 2 ^ 64 - 2 ^ 32

pub magnitude-extend : (a : ℕ) → a < u32_mod → magnitude 64 (extend a) ≡ magnitude 32 a
unfolding magnitude
magnitude-extend a h = ground arith

pub magnitude32-extend : (a : ℕ) → a < u32_mod → magnitude 32 (extend a) ≡ magnitude 32 a
unfolding magnitude
magnitude32-extend a h = ground arith

pub extend-low : (a : ℕ) → a < u32_mod → extend a % u32_mod ≡ a % u32_mod
extend-low a h = ground arith

pub push_digit-fits :
    (v c : ℕ)
    → v < u32_mod
    → c < 256
    → ltb max_width (push_digit v c) ≡ false
    → (ks_push_digit v c ≡ push_digit v c) × (push_digit v c < u32_mod)
push_digit-fits v c h l fits = (ground arith, ground arith)
