-- ===== src/Bitmap/NewZone.antt =====
-- Theorems on `_setup_zone` of kernel/mm/palloc_bitmap.c.
use nkos.Common.{
  refl, zero, inr, inl, ◌==◌, Bool-cases, ◌∙◌, ap, subst, ◌≤◌, ◌*◌, ◌≡◌, ◌/◌, ◌^◌, ◌-◌, ◌<◌, ◌+◌, ℕ,
  suc, arith,
}
use nkos.Palloc.{max_order, page_size}
use nkos.Bitmap.{true, ltb, leb, add64, block}
use nkos.Bitmap.Setup.{bmsz, whole_blocks, bitmap_setup_zone}
use nkos.Bitmap.Shape.{first, block_pos, block_le, block-suc}
use nkos.Bitmap.Inside.{leb-mul, block-mul, first-le, le-first, around-suc}
use nkos.Bitmap.Alloc.{IsZone}
use native.Mathlib.Nat.{mul-div_left}

-- The first block of order i from the address on.
abbrev ceil : ℕ → ℕ → ℕ
ceil base i = (base + (block i - 1)) / block i

minus-mul : (c k m : ℕ) → (c + k) * m - c * m ≡ k * m
minus-mul c k m = omega arith

whole_blocks-minus :
    (base size i : ℕ)
    → base + size < 2 ^ 63
    → i < max_order
    → whole_blocks base size i ≡ (base + size) / block i - ceil base i
whole_blocks-minus base size i h l =
    let m = block i in
    let low = block_pos i in
    let high = block_le i l in
    let f = (base + size) / m in
    let c = ceil base i in
    let b : add64 base (m - 1) ≡ base + (m - 1) = omega arith in
    let e : add64 base size ≡ base + size = omega arith in
    let test : leb (f * m) (c * m) ≡ leb f c = leb-mul f c m (omega arith) in
    elim (Bool-cases (leb f c)) [
      | inl empty ↦
          let zero_left : f - c ≡ 0 = ground arith in rw (b, e, test, empty, zero_left) refl
      | inr some_left ↦
          let sum : f ≡ c + (f - c) = ground arith in
          let d : f * m - c * m ≡ (f - c) * m =
            ap (λ f. f * m - c * m) sum ∙ minus-mul c (f - c) m in
          rw (b, e, test, some_left, d) (mul-div_left (f - c) {n = m} (omega arith))
    ]

bmsz-minus :
    (i base size : ℕ)
    → base + size < 2 ^ 63
    → i < max_order
    → bmsz base size i ≡ (base + size) / block i - ceil base i
unfolding bmsz
bmsz-minus zero base size h l = whole_blocks-minus base size 0 h l
bmsz-minus (suc i) base size h l =
    let rest = bmsz-minus i base size h (omega arith) in
    let m = block i in
    let low = block_pos i in
    let low' = block_pos (suc i) in
    let c = ceil base (suc i) in
    let top = le-first base (block (suc i)) c (omega arith) (omega arith) in
    let swap : c * (m * 2) ≡ 2 * c * m = omega arith in
    let under : base ≤ 2 * c * m =
      subst (λ n. base ≤ n) (ap (λ b. c * b) (block-suc i) ∙ swap) top in
    let double = first-le base m (2 * c) (omega arith) under in
    let half = around-suc (base + size) i in
    elim (Bool-cases (bmsz base size i == 0)) [
      | inl none_left ↦
          let empty : bmsz base size i ≡ 0 = ground arith in rw none_left (omega arith)
      | inr some_left ↦ rw some_left (whole_blocks-minus base size (suc i) h l)
    ]

ceil-page : (base i : ℕ) → ceil ((base + (page_size - 1)) / page_size * page_size) i ≡ ceil base i
ceil-page base i =
    let m = block i in
    let low = block_pos i in
    let p = (base + (page_size - 1)) / page_size * page_size in
    let c = ceil base i in
    let q = 2 ^ (i - 0) in
    let assoc : c * (q * 4096) ≡ c * q * 4096 = omega arith in
    let wide : c * m ≡ c * q * 4096 = ap (λ b. c * b) (block-mul 0 i (omega arith)) ∙ assoc in
    let above = le-first base m c (omega arith) (omega arith) in
    let covered : p ≤ c * m = page_up base (c * m) (c * q) wide above in
    let up = first-le p m c (omega arith) covered in
    let own = le-first p m (ceil p i) (omega arith) (omega arith) in
    let grown : base ≤ p = omega arith in
    let down = first-le base m (ceil p i) (omega arith) (omega arith) in omega arith
  where
    page_up :
        (base b y : ℕ)
        → b ≡ y * 4096
        → base ≤ b
        → (base + (page_size - 1)) / page_size * page_size ≤ b
    page_up base b y e h = omega arith

-- `_setup_zone` for memory that ends below 2 ^ 63: the bitmaps of the new zone have exactly the whole blocks of each order
-- between its first and its last address, and agree with each other.
pub bitmap_setup_zone-IsZone :
    (base size : ℕ) → base + size < 2 ^ 63 → IsZone (bitmap_setup_zone base size) (base + size)
unfolding bitmap_setup_zone
bitmap_setup_zone-IsZone base size h =
    let page : add64 base (page_size - 1) ≡ base + (page_size - 1) = omega arith in
    let z = bitmap_setup_zone base size in
    let same : (j : ℕ) → first z j ≡ ceil base j = λ j.
      ap (λ b. (b / page_size * page_size + (block j - 1)) / block j) page ∙ ceil-page base j in
    let count : (j : ℕ) → j < max_order → z.count j ≡ (base + size) / block j - first z j = λ j l.
      (let in_order : ltb j max_order ≡ true = ground arith in
        rw (same j) (rw in_order (bmsz-minus j base size h l))) in
    ((omega arith, omega arith, count), λ i x l k m. refl)
