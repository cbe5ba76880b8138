-- ===== src/Kvprinto/Digits.antt =====
-- Theorems on `itoa` of kernel/utl/printf.c: the value of the digits, and the room they take.
use native.Mathlib.Nat.{pow-suc, pow-zero, div-lt_iff_lt-mul}
use nkos.Common.{
  ℕ, zero, suc, ◌+◌, ◌-◌, ◌*◌, ◌/◌, ◌%◌, ◌^◌, ◌≤◌, ◌<◌, ◌≡◌, ◌≢◌, ◌∙◌, refl, ap, sym, subst, inl,
  inr, some, List, [], ◌∷◌, arith, ltb, ◌==◌, if◌then◌else◌, Bool-cases, length, All,
}
use nkos.Kvprinto.Itoa.{digit, itoa_loop, itoa}

-- The number that a digit stands for.
abbrev pub digit_value : ℕ → ℕ
digit_value c = if ltb c b'a' then c - b'0' else c + 10 - b'a'

-- What a text of digits stands for, behind digits that stand for `acc`.
unfoldable pub number : ℕ → ℕ → List ℕ → ℕ
number base acc [] = acc
number base acc (c ∷ cs) = number base (acc * base + digit_value c) cs

-- A character from '0' to '9' or from 'a' to 'f'.
abbrev pub IsDigit : ℕ → Type 0
IsDigit c = (d : ℕ) × (d < 16) × (c ≡ digit d)

abbrev pub Leads : List ℕ → Type 0
Leads [] = ⊥
Leads (c ∷ cs) = c ≢ b'0'

-- `ds` is the text of `val` in the base.
pub record Prints (base val : ℕ) (ds : List ℕ) : Type 0 where
  pub reads : number base 0 ds ≡ val
  pub digits : All IsDigit ds
  pub zero_text : val ≡ 0 → ds ≡ b'0' ∷ []
  pub leads : 0 < val → Leads ds

digit_value-digit : (d : ℕ) → d < 16 → digit_value (digit d) ≡ d
unfolding digit
digit_value-digit d h = ground arith

digit-ne-zero : (d : ℕ) → 0 < d → d < 16 → digit d ≢ b'0'
unfolding digit
digit-ne-zero d p h = ground arith

div-lt-pow : (base room val : ℕ) → 0 < base → val < base ^ suc room → val / base < base ^ room
div-lt-pow base room val b h = (div-lt_iff_lt-mul b).1 (rw pow-suc at h)

-- What the loop makes of `val` in front of the text `p`.
record Written (base val bound : ℕ) (p ds : List ℕ) : Type 0 where
  same : number base 0 ds ≡ number base val p
  digits : All IsDigit ds
  done : val ≡ 0 → ds ≡ p
  leads : 0 < val → Leads ds
  fits : length ds ≤ bound

module _ (base : ℕ) (lo : 2 ≤ base) (hi : base ≤ 16) where
  Written-zero :
      (val bound : ℕ) (p : List ℕ)
      → val ≡ 0
      → All IsDigit p
      → length p ≤ bound
      → Written base val bound p p
  unfolding number
  Written-zero val bound p z ok fits = record {
    same = same_zero p;
    digits = ok;
    done = λ _. refl;
    leads = λ pos. absurd (omega arith);
    fits = fits;
  }
    where
      same_zero : (p : List ℕ) → number base 0 p ≡ number base val p
      same_zero p = rw z

  Written-step :
      (val bound : ℕ) (p ds : List ℕ)
      → 0 < val
      → Written base (val / base) bound (digit (val % base) ∷ p) ds
      → Written base val bound p ds
  unfolding number
  Written-step val bound p ds pos w =
      let small : val % base < 16 = omega arith in
      record {
        same =
            w.same
            ∙ ap (λ t. number base t p) (omega (arith, digit_value-digit (val % base) small));
        digits = w.digits;
        done = λ z. absurd (omega arith);
        leads = λ _. leads_nonzero small;
        fits = w.fits;
      }
    where
      leads_nonzero : val % base < 16 → Leads ds
      leads_nonzero small = elim (Bool-cases (val / base == 0)) [
        | inl e ↦
            let q : val / base ≡ 0 = ground arith in
            let r : 0 < val % base = omega (arith, ap (λ (t : ℕ). base * t) q) in
            subst Leads (sym (w.done q)) (digit-ne-zero (val % base) r small)
        | inr e ↦ w.leads (ground arith)
      ]

  Written-le :
      {val : ℕ} (m n : ℕ) {p : List ℕ} (ds : List ℕ)
      → m ≤ n
      → Written base val m p ds
      → Written base val n p ds
  Written-le m n ds le w = record {
    same = w.same;
    digits = w.digits;
    done = w.done;
    leads = w.leads;
    fits = omega (arith, w.fits);
  }

  itoa_loop-Written :
      (room val : ℕ) (p : List ℕ)
      → val < base ^ room
      → All IsDigit p
      → (ds : List ℕ) × (itoa_loop room base val p ≡ some ds)
        × Written base val (room + length p) p ds
  unfolding itoa_loop
  itoa_loop-Written zero val p h ok =
      let z : val ≡ 0 = omega (arith, pow-zero base) in
      (p, rw z, Written-zero val (0 + length p) p z ok (omega arith))
  itoa_loop-Written (suc room) val p h ok = elim (Bool-cases (val == 0)) [
    | inl e ↦ (p, rw (e, itoa_loop), Written-zero val _ p (ground arith) ok (omega arith))
    | inr e ↦
        let small : val % base < 16 = omega arith in
        let (ds, f, w) =
          itoa_loop-Written room (val / base) (digit (val % base) ∷ p)
            (div-lt-pow base room val (omega arith) h) ((val % base, small, refl), ok) in
        (
          ds,
          rw (e, itoa_loop) f,
          Written-step val _ p ds (ground arith) (Written-le _ _ ds (omega arith) w),
        )
  ]

  -- `itoa` with a buffer of `len` bytes succeeds on every number that has fewer than `len` digits,
  -- and writes its digits in the base.
  pub itoa-Prints :
      (val len : ℕ)
      → 2 ≤ len
      → val < base ^ (len - 1)
      → (ds : List ℕ) × (itoa val len base ≡ some ds) × Prints base val ds × (length ds < len)
  unfolding itoa number digit
  itoa-Prints val len two h = elim (Bool-cases (val == 0)) [
    | inl e ↦
        let z : val ≡ 0 = ground arith in
        (
          b'0' ∷ [],
          rw e,
          record {
            reads = omega arith;
            digits = ((0, omega arith, refl), tt);
            zero_text = λ _. refl;
            leads = λ pos. absurd (omega arith);
          },
          omega arith,
        )
    | inr e ↦
        let (ds, f, w) = itoa_loop-Written (len - 1) val [] h tt in
        (
          ds,
          rw e f,
          record {
            reads = w.same;
            digits = w.digits;
            zero_text = λ z. absurd (ground arith);
            leads = w.leads;
          },
          omega (arith, w.fits),
        )
  ]
