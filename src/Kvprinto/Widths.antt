-- ===== src/Kvprinto/Widths.antt =====
-- The length of the fields that the conversions of `kvprinto` lay out.
use nkos.Common.{
  ℕ, ◌+◌, ◌≡◌, inl, inr, List, max, min, arith, ltb, ◌==◌, if◌then◌else◌, Bool-cases, length,
  length-append, length-replicate, length-take,
}
use nkos.Kvprinto.Fields.{Fmt, zeros, blanks, number_field, string_field}

length-zeros : (n : ℕ) → length (zeros n) ≡ n
length-zeros n = length-replicate n b'0'

length-blanks : (n : ℕ) → length (blanks n) ≡ n
length-blanks n = length-replicate n b' '

ruleset lengths = (length-append, length-zeros, length-blanks, length-take)

-- A number field has the width asked for, unless the sign and the digits, filled up with zeros to
-- the precision, need more: then it has their length.
pub length-number_field :
    (f : Fmt) (sig v : List ℕ)
    → length (number_field f sig v) ≡ max f.width (length sig + max f.precision (length v))
unfolding number_field
length-number_field f sig v = elim (Bool-cases f.flags.left) [
  | inl e ↦ rw e (simp lengths (omega arith))
  | inr e ↦ rw e (elim (Bool-cases (ltb 0 f.precision)) [
    | inl p ↦ rw p (simp lengths (omega arith))
    | inr p ↦
        let none_asked : f.precision ≡ 0 = ground arith in
        rw p (elim (Bool-cases f.flags.zero_pad) [
          | inl z ↦ rw z (simp lengths (omega arith))
          | inr z ↦ rw z (simp lengths (omega arith))
        ])
  ])
]

-- A string field has the width asked for, unless the string, cut to a precision that is not 0,
-- needs more: then it has its length.
pub length-string_field :
    (f : Fmt) (s : List ℕ)
    → length (string_field f s)
      ≡ max f.width (if f.precision == 0 then length s else min f.precision (length s))
unfolding string_field
length-string_field f s = elim (Bool-cases f.flags.left) [
  | inl e ↦ rw e (simp lengths (ground arith))
  | inr e ↦ rw e (simp lengths (ground arith))
]
