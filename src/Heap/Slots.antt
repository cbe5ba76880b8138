-- ===== src/Heap/Slots.antt =====
-- Theorems on the bins of large chunks of loader/krn/mm.c: which sizes a bin holds, and the keys of its tree.
use nkos.Common.{
  ltb, ◌+◌, ◌-◌, ◌*◌, ◌/◌, ◌%◌, ◌^◌, ◌≤◌, ◌<◌, ◌≡◌, ◌⊎◌, inl, inr, ◌∙◌, sym, ap, ◌==◌, leb, u32_mod,
  ℕ, zero, suc, Bool-cases, leb→le, arith,
}
use nkos.Common.Masks.{two_pow-add}
use mathlib.Core.Path.{ap₂}
use nkos.Heap.Large.{highest_bit, bsr, mm_slot_large, mm_key_large}
use native.Mathlib.Nat.{
  pow-suc, mul-le-mul_right, div-lt_iff_lt-mul, le-div_iff_mul-le, div-mul-le_self, lt-mul-div-succ,
  pow-le-pow_right, mod-lt, one-le-pow,
}

-- The highest bit of a number that is not zero.
highest_bit-lem :
    (n v : ℕ)
    → 0 < v
    → v < 2 ^ suc n
    → (2 ^ highest_bit n v ≤ v) × (v < 2 ^ suc (highest_bit n v)) × (highest_bit n v ≤ n)
highest_bit-lem zero v h l = (omega arith, l, omega arith)
highest_bit-lem (suc n) v h l = elim (Bool-cases (leb (2 ^ suc n) v)) [
  | inl e ↦ rw e (leb→le (2 ^ suc n) v e, l, omega arith)
  | inr e ↦
      let small : v < 2 ^ suc n = ground arith in
      let (a, b, c) = highest_bit-lem n v h small in rw e (a, b, omega arith)
]

bsr-lem : (v : ℕ) → 0 < v → v < u32_mod → (2 ^ bsr v ≤ v) × (v < 2 ^ suc (bsr v)) × (bsr v ≤ 31)
unfolding bsr
bsr-lem v h l = highest_bit-lem 31 v h l

-- A size of the bin 4 * e + q.
abbrev pub IsBinSize : ℕ → ℕ → ℕ → Type 0
IsBinSize v e q = (q < 4) × (e ≤ 23) × ((4 + q) * 2 ^ (e + 6) ≤ v) × (v < (5 + q) * 2 ^ (e + 6))

power_below : (a b : ℕ) → 2 ^ a < 2 ^ b → a < b
power_below a b h = elim (Bool-cases (leb b a)) [
  | inl e ↦
      let up = pow-le-pow_right {n = 2} (omega arith) {i = b} {j = a} (leb→le b a e) in
      absurd (omega arith)
  | inr e ↦ ground arith
]

-- A size has one highest bit.
bsr_unique : (v b : ℕ) → v < u32_mod → 2 ^ b ≤ v → v < 2 ^ suc b → bsr v ≡ b
bsr_unique v b l low high =
    let one = one-le-pow b 2 (omega arith) in
    let (own_low, own_high, _) = bsr-lem v (omega arith) l in
    let up = power_below b (suc (bsr v)) (omega arith) in
    let down = power_below (bsr v) (suc b) (omega arith) in omega arith

pub slot_large-IsBinSize :
    (v : ℕ)
    → 256 ≤ v
    → v < u32_mod
    → (e : ℕ) × (q : ℕ) × (mm_slot_large v ≡ 4 * e + q) × IsBinSize v e q
unfolding mm_slot_large
slot_large-IsBinSize v h l =
    let e = bsr (v / 256) in
    let (low, high, small) = bsr-lem (v / 256) (omega arith) (omega arith) in
    let p = 2 ^ (e + 6) in
    let p_at : p ≡ 2 ^ e * 64 = two_pow-add e 6 in
    let double : 2 ^ suc e ≡ 2 ^ e * 2 = pow-suc 2 e in
    let some_p = one-le-pow (e + 6) 2 (omega arith) in
    let t = v / p in
    let four : 4 * p ≤ v = omega arith in
    let eight : v < 8 * p = omega arith in
    let t_low : 4 ≤ t = (le-div_iff_mul-le {x = 4} {y = v} some_p).1 four in
    let t_high : t < 8 = (div-lt_iff_lt-mul some_p).1 eight in
    let below = div-mul-le_self v p in
    let above = lt-mul-div-succ v some_p in
    let range = power_below e 24 (omega arith) in
    let quarter : 4 + t % 4 ≡ t = omega arith in
    let low_at : (4 + t % 4) * p ≡ t * p = ap (λ n. n * p) quarter in
    let fifth : 5 + t % 4 ≡ t + 1 = omega arith in
    let high_at : (5 + t % 4) * p ≡ (t + 1) * p = ap (λ n. n * p) fifth in
    (e, t % 4, omega arith, (omega arith, omega arith, omega arith, omega arith))

-- The sizes of a bin lie below those of the bins after it.
slot_below :
    (v w e q d r : ℕ) → v ≤ w → IsBinSize v e q → IsBinSize w d r → (e < d) ⊎ ((e ≡ d) × (q ≤ r))
slot_below v w e q d r h (q4, e23, v_low, v_high) (r4, d23, w_low, w_high) =
    elim (Bool-cases (ltb d e)) [
      | inl t ↦
          let up =
            pow-le-pow_right {n = 2} (omega arith) {i = suc (d + 6)} {j = e + 6} (ground arith) in
          let double : 2 ^ suc (d + 6) ≡ 2 ^ (d + 6) * 2 = pow-suc 2 (d + 6) in
          let v_at : 4 * 2 ^ (e + 6) ≤ (4 + q) * 2 ^ (e + 6) = omega arith in
          let most : 5 + r ≤ 8 = omega arith in
          let w_at = mul-le-mul_right (2 ^ (d + 6)) most in absurd (omega arith)
      | inr t ↦ elim (Bool-cases (e == d)) [
        | inl same ↦
            let eq : e ≡ d = ground arith in
            let p_eq : 2 ^ (e + 6) ≡ 2 ^ (d + 6) = ap (λ n. 2 ^ (n + 6)) eq in
            elim (Bool-cases (ltb r q)) [
              | inl s ↦
                  let less : 5 + r ≤ 4 + q = ground arith in
                  let w_at = mul-le-mul_right (2 ^ (d + 6)) less in
                  let v_at : (4 + q) * 2 ^ (e + 6) ≡ (4 + q) * 2 ^ (d + 6) =
                    ap (λ n. (4 + q) * n) p_eq in
                  absurd (omega arith)
              | inr s ↦ inr (eq, ground arith)
            ]
        | inr other ↦ inl (ground arith)
      ]
    ]

-- Of two sizes of at least 256 bytes, the bin of the smaller one is not behind the bin of the larger one.
pub slot_large-monotone :
    (v w : ℕ) → 256 ≤ v → v ≤ w → w < u32_mod → mm_slot_large v ≤ mm_slot_large w
slot_large-monotone v w h l b =
    let (e, q, v_at, v_in) = slot_large-IsBinSize v h (omega arith) in
    let (d, r, w_at, w_in) = slot_large-IsBinSize w (omega arith) b in
    let q4 : q < 4 = v_in.0 in
    elim (slot_below v w e q d r l v_in w_in) [
      | inl less ↦ omega arith
      | inr (same, le) ↦ omega arith
    ]

pub slot_large-bound : (v : ℕ) → 256 ≤ v → v < u32_mod → mm_slot_large v < 96
slot_large-bound v h l = let (e, q, at, (q4, e23, _, _)) = slot_large-IsBinSize v h l in omega arith

-- The key of a size of the bin 4 * e + q: what it has beyond the smallest size of the bin, at the top of a
-- word.
key_large-IsBinSize :
    (v e q : ℕ)
    → v < u32_mod
    → IsBinSize v e q
    → mm_key_large v ≡ (v - (4 + q) * 2 ^ (e + 6)) * 2 ^ (26 - e)
unfolding mm_key_large
key_large-IsBinSize v e q l (q4, e23, low, high) =
    let p = 2 ^ (e + 6) in
    let k = 2 ^ (26 - e) in
    let r = v - (4 + q) * p in
    let top : 2 ^ (e + 8) ≡ p * 4 = ap (λ n. 2 ^ n) (omega arith) ∙ two_pow-add (e + 6) 2 in
    let above : 2 ^ suc (e + 8) ≡ 2 ^ (e + 8) * 2 = pow-suc 2 (e + 8) in
    let most : 5 + q ≤ 8 = omega arith in
    let v_most = mul-le-mul_right p most in
    let bit = bsr_unique v (e + 8) l (omega arith) (omega arith) in
    let shift : (34 - bsr v) % 32 ≡ 26 - e = omega arith in
    let sum : (e + 6) + (26 - e) ≡ 32 = omega arith in
    let whole : p * k ≡ 2 ^ 32 = sym (two_pow-add (e + 6) (26 - e)) ∙ ap (λ n. 2 ^ n) sum in
    let parts : v ≡ r + (4 + q) * p = omega arith in
    let times : v * k ≡ (r + (4 + q) * p) * k = ap (λ n. n * k) parts in
    let some_k = one-le-pow (26 - e) 2 (omega arith) in
    let less : suc r ≤ p = omega arith in
    let r_most = mul-le-mul_right k less in
    let split : (r + (4 + q) * p) * k ≡ r * k + (4 + q) * (p * k) = omega arith in
    let high_part : (4 + q) * (p * k) ≡ (4 + q) * 2 ^ 32 = ap (λ n. (4 + q) * n) whole in
    ap (λ s. v * 2 ^ s % u32_mod) shift ∙ (omega arith)

-- Of two different sizes of one bin, from 256 bytes on and below 2 ^ 32, the larger one has the larger key.
pub key_large-monotone :
    (v w : ℕ)
    → 256 ≤ v
    → v < u32_mod
    → 256 ≤ w
    → w < u32_mod
    → mm_slot_large v ≡ mm_slot_large w
    → v < w
    → mm_key_large v < mm_key_large w
key_large-monotone v w h l i m same less =
    let (e, q, v_at, v_in) = slot_large-IsBinSize v h l in
    let (d, r, w_at, w_in) = slot_large-IsBinSize w i m in
    let q4 : q < 4 = v_in.0 in
    let r4 : r < 4 = w_in.0 in
    let eq : d ≡ e = omega arith in
    let rq : r ≡ q = omega arith in
    let base : (4 + r) * 2 ^ (d + 6) ≡ (4 + q) * 2 ^ (e + 6) =
      ap₂ (λ n m. (4 + n) * 2 ^ (m + 6)) rq eq in
    let v_key = key_large-IsBinSize v e q l v_in in
    let w_key = key_large-IsBinSize w d r m w_in in
    let w_shift : mm_key_large w ≡ (w - (4 + q) * 2 ^ (e + 6)) * 2 ^ (26 - e) =
      w_key ∙ ap₂ (λ b n. (w - b) * 2 ^ (26 - n)) base eq in
    let some_k = one-le-pow (26 - e) 2 (omega arith) in
    let b = (4 + q) * 2 ^ (e + 6) in
    let k = 2 ^ (26 - e) in
    let v_low : b ≤ v = v_in.2 in
    let step : suc (v - b) ≤ w - b = omega arith in
    let scaled = mul-le-mul_right k step in omega arith

pub key_large-bound : (v : ℕ) → mm_key_large v < u32_mod
unfolding mm_key_large
key_large-bound v = mod-lt (v * 2 ^ ((34 - bsr v) % 32)) (omega arith)
