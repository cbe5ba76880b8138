-- ===== src/Common/Masks.antt =====
-- Rounding by a mask: the low bits of a word, and the multiple of a power of two above it.
use nkos.Common.{
  ℕ, zero, suc, ◌+◌, ◌-◌, ◌*◌, ◌/◌, ◌%◌, ◌^◌, ◌<◌, ◌≤◌, ◌≡◌, ◌∙◌, ap, sym, arith, min,
}
use Prim.Native.Nat.{bit_and, bit_and-bitwise, digits}
use native.Mathlib.Nat.{
  pow-suc, one-le-pow, add-mul-mod_self_right, mod-lt, div-add-mod', mod-eq_of_lt,
}

pub two_pow-add : (k m : ℕ) → 2 ^ (k + m) ≡ 2 ^ k * 2 ^ m
two_pow-add zero m =
    let e : zero + m ≡ m = omega arith in
    let one : 2 ^ m ≡ 1 * 2 ^ m = omega arith in ap (λ n. 2 ^ n) e ∙ one
two_pow-add (suc k) m =
    let e : suc k + m ≡ suc (k + m) = omega arith in
    let swap : 2 ^ k * 2 ^ m * 2 ≡ 2 ^ k * 2 * 2 ^ m = omega arith in
    ap (λ n. 2 ^ n) e
    ∙ pow-suc 2 (k + m)
    ∙ ap (λ n. n * 2) (two_pow-add k m)
    ∙ swap
    ∙ ap (λ n. n * 2 ^ m) (sym (pow-suc 2 k))

mod-double : (x m : ℕ) → 0 < m → x / 2 % m * 2 + x % 2 ≡ x % (m * 2)
mod-double x m h =
    let q = x / 2 / m in
    let r = x / 2 % m in
    let parts = div-add-mod' (x / 2) m in
    let small = mod-lt (x / 2) h in
    let whole : x ≡ (r * 2 + x % 2) + q * (m * 2) = omega arith in
    let low = add-mul-mod_self_right (r * 2 + x % 2) q (m * 2) in
    let own : (r * 2 + x % 2) % (m * 2) ≡ r * 2 + x % 2 = mod-eq_of_lt (omega arith) in
    sym (ap (λ x. x % (m * 2)) whole ∙ low ∙ own)

low_digits : (n a k : ℕ) → a ≤ n → digits (λ b. zero) min n a (2 ^ k - 1) ≡ a % 2 ^ k
low_digits zero zero k h = sym (mod-eq_of_lt (one-le-pow k 2 (omega arith)))
low_digits zero (suc a) k h = absurd (omega arith)
low_digits (suc n) zero k h = sym (mod-eq_of_lt (one-le-pow k 2 (omega arith)))
low_digits (suc n) (suc a) zero h =
    let rest = low_digits n (suc a / 2) zero (omega arith) in omega (arith, rest)
low_digits (suc n) (suc a) (suc k) h =
    let m = 2 ^ k in
    let some_bits = one-le-pow k 2 (omega arith) in
    let rest = low_digits n (suc a / 2) k (omega arith) in
    let half : (m * 2 - 1) / 2 ≡ m - 1 = omega arith in
    let odd : (m * 2 - 1) % 2 ≡ 1 = omega arith in
    rw (pow-suc 2 k, half, odd)
      (ap (λ d. d * 2 + min (suc a % 2) 1) rest
        ∙ last_digit (suc a) m
        ∙ mod-double (suc a) m some_bits)
  where
    last_digit : (x m : ℕ) → x / 2 % m * 2 + min (x % 2) 1 ≡ x / 2 % m * 2 + x % 2
    last_digit x m = omega arith

-- A mask of k ones keeps the low k bits.
pub bit_and-mask : (a k : ℕ) → bit_and a (2 ^ k - 1) ≡ a % 2 ^ k
bit_and-mask a k = bit_and-bitwise a (2 ^ k - 1) ∙ low_digits a a k (omega arith)

-- Clearing the low bits: the multiple of 2 ^ k below.
pub minus_mask : (a k : ℕ) → a - bit_and a (2 ^ k - 1) ≡ a / 2 ^ k * 2 ^ k
minus_mask a k = let parts = div-add-mod' a (2 ^ k) in let low = bit_and-mask a k in omega arith
