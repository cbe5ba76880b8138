-- ===== src/Kvprinto/ReadBack.antt =====
-- Reading a number field: blanks, a sign, and digits up to the next blank.
use nkos.Common.{
  ℕ, zero, suc, ◌+◌, ◌-◌, ◌*◌, ◌<◌, ◌≤◌, ◌≡◌, ◌∙◌, refl, ap, subst, ◌≢◌, inl, inr, Bool, true,
  false, ◌&&◌, ◌||◌, List, [], ◌∷◌, ◌++◌, arith, ltb, leb, ◌==◌, if◌then◌else◌, Bool-cases, length,
  All,
}
use mathlib.Core.List.{append-nil}
use nkos.Kvprinto.Itoa.{digit}
use nkos.Kvprinto.Fields.{Fmt, zeros, blanks, sign_text, number_field}
use nkos.Kvprinto.Digits.{digit_value, number, IsDigit, Leads, Prints}

abbrev is_digit : ℕ → Bool
is_digit c = (leb b'0' c && leb c b'9') || (leb b'a' c && leb c b'f')

-- The digits at the front of a text, behind digits that stand for `acc`.
unfoldable pub read_digits : ℕ → ℕ → List ℕ → ℕ
read_digits base acc [] = acc
read_digits base acc (c ∷ cs) =
    let more = read_digits base (acc * base + digit_value c) cs in if is_digit c then more else acc

-- A sign, and then digits.
unfoldable pub read_signed : ℕ → List ℕ → Bool × ℕ
read_signed base [] = (false, 0)
read_signed base (c ∷ cs) =
    if c == b'-'
    then (true, read_digits base 0 cs)
    else if c == b'+'
    then (false, read_digits base 0 cs)
    else (false, read_digits base 0 (c ∷ cs))

-- Blanks, a sign, and then digits.
unfoldable pub read_number : ℕ → List ℕ → Bool × ℕ
read_number base [] = (false, 0)
read_number base (c ∷ cs) =
    let rest = read_number base cs in if c == b' ' then rest else read_signed base (c ∷ cs)

module _ (base : ℕ) where
  read_digits-blanks : (n acc : ℕ) → read_digits base acc (blanks n) ≡ acc
  unfolding read_digits
  read_digits-blanks zero acc = refl
  read_digits-blanks (suc n) acc = refl

  is_digit-digit : (d : ℕ) → d < 16 → is_digit (digit d) ≡ true
  unfolding digit
  is_digit-digit d h = ground arith

  is_digit-IsDigit : (c : ℕ) → IsDigit c → is_digit c ≡ true
  is_digit-IsDigit c (d, small, e) = rw e (is_digit-digit d small)

  read_digits-number :
      (n acc : ℕ) (ds : List ℕ)
      → All IsDigit ds
      → read_digits base acc (ds ++ blanks n) ≡ number base acc ds
  unfolding read_digits number
  read_digits-number n acc [] ok = read_digits-blanks n acc
  read_digits-number n acc (c ∷ ds) ok =
      rw (is_digit-IsDigit c ok.0) (read_digits-number n (acc * base + digit_value c) ds ok.1)

  read_digits-zeros :
      (k : ℕ) (t : List ℕ) → read_digits base 0 (zeros k ++ t) ≡ read_digits base 0 t
  unfolding read_digits
  read_digits-zeros zero t = refl
  read_digits-zeros (suc k) t =
      let nothing : 0 * base + 0 ≡ 0 = omega arith in rw nothing (read_digits-zeros k t)

  read_number-blanks : (n : ℕ) (t : List ℕ) → read_number base (blanks n ++ t) ≡ read_number base t
  unfolding read_number
  read_number-blanks zero t = refl
  read_number-blanks (suc n) t = read_number-blanks n t

-- A field in its five parts.
abbrev laid_out : ℕ → List ℕ → ℕ → List ℕ → ℕ → List ℕ
laid_out n sig k v m = blanks n ++ (sig ++ (zeros k ++ (v ++ blanks m)))

number_field-laid_out :
    (f : Fmt) (sig v : List ℕ) → (n k m : ℕ) × (number_field f sig v ≡ laid_out n sig k v m)
unfolding number_field
number_field-laid_out f sig v = elim (Bool-cases f.flags.left) [
  | inl e ↦
      (0, f.precision - length v, f.width - length v - length sig - (f.precision - length v), rw e)
  | inr e ↦ elim (Bool-cases (ltb 0 f.precision)) [
    | inl p ↦ (
      f.width - length v - (f.precision - length v) - length sig,
      f.precision - length v,
      0,
      rw (e, p, append-nil v),
    )
    | inr p ↦ elim (Bool-cases f.flags.zero_pad) [
      | inl z ↦ (0, f.width - length v - length sig, 0, rw (e, p, z, append-nil v))
      | inr z ↦ (f.width - length v - length sig, 0, 0, rw (e, p, z, append-nil v))
    ]
  ]
]

digit-bounds : (d : ℕ) → d < 16 → b'0' ≤ digit d
unfolding digit
digit-bounds d h = ground arith

-- A digit is no blank and no sign.
IsDigit-bounds : (c : ℕ) → IsDigit c → b'0' ≤ c
IsDigit-bounds c (d, small, e) = rw e (digit-bounds d small)

read_number-digits :
    (base m : ℕ) (v : List ℕ)
    → v ≢ []
    → All IsDigit v
    → read_number base (v ++ blanks m) ≡ (false, number base 0 v)
unfolding read_number read_signed
read_number-digits base m [] some_digit ok = absurd (some_digit refl)
read_number-digits base m (c ∷ ds) some_digit ok =
    let lo = IsDigit-bounds c ok.0 in
    let no_blank : (c == b' ') ≡ false = ground arith in
    let no_minus : (c == b'-') ≡ false = ground arith in
    let no_plus : (c == b'+') ≡ false = ground arith in
    rw (no_blank, no_minus, no_plus)
      (ap (λ n. (false, n)) (read_digits-number base m 0 (c ∷ ds) ok))

Prints-nonempty : {base val : ℕ} {v : List ℕ} → Prints base val v → v ≢ []
Prints-nonempty {val} {v} pr e = elim (Bool-cases (val == 0)) [
  | inl z ↦ cc (pr.zero_text (ground arith))
  | inr z ↦ subst Leads e (pr.leads (ground arith))
]

module _ {base val : ℕ} (v : List ℕ) (pr : Prints base val v) where
  -- Behind the sign.
  read_digits-padded : (k m : ℕ) → read_digits base 0 (zeros k ++ (v ++ blanks m)) ≡ val
  read_digits-padded k m =
      read_digits-zeros base k (v ++ blanks m) ∙ read_digits-number base m 0 v pr.digits ∙ pr.reads

  read_number-zeros : (k m : ℕ) → read_number base (zeros k ++ (v ++ blanks m)) ≡ (false, val)
  unfolding read_number read_signed
  read_number-zeros zero m =
      read_number-digits base m v (Prints-nonempty pr) pr.digits ∙ ap (λ n. (false, n)) pr.reads
  read_number-zeros (suc k) m = ap (λ n. (false, n)) (read_digits-padded (suc k) m)

  read_number-sign :
      (f : Fmt) (k m : ℕ)
      → read_number base (sign_text f ++ (zeros k ++ (v ++ blanks m))) ≡ (f.sign, val)
  unfolding read_number read_signed sign_text
  read_number-sign f k m = elim (Bool-cases f.sign) [
    | inl s ↦ rw s (ap (λ n. (true, n)) (read_digits-padded k m))
    | inr s ↦ rw s (elim (Bool-cases f.flags.plus) [
      | inl p ↦ rw p (ap (λ n. (false, n)) (read_digits-padded k m))
      | inr p ↦ rw p (elim (Bool-cases f.flags.space) [
        | inl b ↦ rw b (read_number-zeros k m)
        | inr b ↦ rw b (read_number-zeros k m)
      ])
    ])
  ]

  -- Whatever flags, width and precision are asked for, a number field reads back as its sign and
  -- its number.
  pub number_field-reads :
      (f : Fmt) → read_number base (number_field f (sign_text f) v) ≡ (f.sign, val)
  number_field-reads f =
      let (n, k, m, e) = number_field-laid_out f (sign_text f) v in
      rw e (read_number-blanks base n _ ∙ read_number-sign f k m)

  -- The same of a field with no sign.
  pub unsigned_field-reads : (f : Fmt) → read_number base (number_field f [] v) ≡ (false, val)
  unsigned_field-reads f =
      let (n, k, m, e) = number_field-laid_out f [] v in
      rw e (read_number-blanks base n _ ∙ read_number-zeros k m)
