-- ===== src/Bitmap/Shape.antt =====
-- Theorems on the geometry of a zone of kernel/mm/palloc_bitmap.c: where the blocks of an order lie.
use nkos.Common.{
  inr, inl, ◌%◌, Bool-cases, ℕ, suc, ◌+◌, ◌-◌, ◌*◌, ◌/◌, ◌^◌, ◌≤◌, ◌<◌, ◌≡◌, ◌∙◌, ap, arith, true,
  Bool, some, refl, ltb, leb, u64_mod, lt→ltb,
}
use nkos.Palloc.{max_order}
use nkos.Bitmap.{
  sub64, BitmapZone, block, bitmap_zone_bgn, bitmap_zone_end, bitmap_zone_pfn, zone_set,
  zone_get_busy, bmap_words, set_bit,
}
use native.Mathlib.Nat.{
  pow-le-pow_right, pow-suc, mul-div_left, div-mul-le_self, mul-le-mul_right, mul-le-mul_left,
}

-- The number of the first block of order j that lies in a zone, counted from address 0.
abbrev pub first : BitmapZone → ℕ → ℕ
first z j = (z.base + (block j - 1)) / block j

-- The zone reaches up to the address hi: each order has the whole blocks from base to hi.
abbrev pub IsShape : BitmapZone → ℕ → Type 0
IsShape z hi =
    (z.base + 2 ^ 22 ≤ u64_mod)
    × (hi < u64_mod)
    × ((j : ℕ) → j < max_order → z.count j ≡ hi / block j - first z j)

pub block_pos : (j : ℕ) → 4096 ≤ block j
block_pos j = pow-le-pow_right {n = 2} (omega arith) {i = 12} {j = 12 + j} (omega arith)

pub block_le : (j : ℕ) → j < max_order → block j ≤ 2 ^ 22
block_le j h = pow-le-pow_right {n = 2} (omega arith) {i = 12 + j} {j = 22} (omega arith)

pub block-suc : (j : ℕ) → block (suc j) ≡ block j * 2
block-suc j =
    let e : 12 + suc j ≡ suc (12 + j) = omega arith in ap (λ n. 2 ^ n) e ∙ pow-suc 2 (12 + j)

pub bgn-first :
    (z : BitmapZone) (hi j : ℕ)
    → IsShape z hi
    → j < max_order
    → bitmap_zone_bgn z j ≡ first z j * block j
unfolding bitmap_zone_bgn
bgn-first z hi j s h =
    let m = block j in
    let base = z.base in
    let low = block_pos j in
    let high = block_le j h in
    let room = s.0 in
    let e : (base + (m - 1)) % u64_mod ≡ base + (m - 1) = omega arith in ap (λ n. n / m * m) e

larger :
    (f h m low high : ℕ)
    → f * m ≤ low
    → h * m ≤ high
    → low < u64_mod
    → high < u64_mod
    → (f + (h - f)) * m < u64_mod
larger f h m low high a b c d = elim (Bool-cases (leb f h)) [
  | inl le ↦ let e : f + (h - f) ≡ h = ground arith in rw e (omega arith)
  | inr gt ↦ let e : f + (h - f) ≡ f = ground arith in rw e (omega arith)
]

-- The blocks that the zone counts end below 2 ^ 64.
pub count-fits :
    (z : BitmapZone) (hi j : ℕ)
    → IsShape z hi
    → j < max_order
    → (first z j + z.count j) * block j < u64_mod
count-fits z hi j s h =
    let m = block j in
    let fits =
      larger (first z j) (hi / m) m (z.base + (m - 1)) hi (div-mul-le_self (z.base + (m - 1)) m)
        (div-mul-le_self hi m)
        (let low = block_pos j in let high = block_le j h in let room = s.0 in omega arith) s.1 in
    rw (s.2 j h) fits

-- An order without wrap-around: where the bitmap begins, ends and how long it can be.
pub bgn-le-end :
    (z : BitmapZone) (hi j : ℕ)
    → IsShape z hi
    → j < max_order
    → first z j * block j + z.count j * block j < u64_mod
bgn-le-end z hi j s h = let fits = count-fits z hi j s h in omega arith

pub count-small : (z : BitmapZone) (hi j : ℕ) → IsShape z hi → j < max_order → z.count j < 2 ^ 52
count-small z hi j s h =
    let fits = bgn-le-end z hi j s h in
    let wide = mul-le-mul_left (z.count j) (block_pos j) in omega arith

pub end-last :
    (z : BitmapZone) (hi j : ℕ)
    → IsShape z hi
    → j < max_order
    → bitmap_zone_end z j ≡ (first z j + z.count j) * block j
unfolding bitmap_zone_end
end-last z hi j s h = let fits = bgn-le-end z hi j s h in rw (bgn-first z hi j s h) (omega arith)

pub pfn-first :
    (z : BitmapZone) (hi j n : ℕ)
    → IsShape z hi
    → j < max_order
    → n < z.count j
    → bitmap_zone_pfn z ((first z j + n) * block j) j ≡ n
unfolding bitmap_zone_pfn
pfn-first z hi j n s h k =
    let m = block j in
    let low = block_pos j in
    let fits = bgn-le-end z hi j s h in
    let le : suc n ≤ z.count j = omega arith in
    let inside = mul-le-mul_right m le in
    let e : sub64 ((first z j + n) * m) (first z j * m) ≡ n * m = omega arith in
    rw (bgn-first z hi j s h, e) (mul-div_left n {n = m} (omega arith))

pub in_map :
    (z : BitmapZone) (hi j n : ℕ)
    → IsShape z hi
    → j < max_order
    → n < z.count j
    → ltb (n / 64) (bmap_words (z.count j)) ≡ true
in_map z hi j n s h k = let small = count-small z hi j s h in lt→ltb (n / 64) _ (omega arith)

-- The zone with other bits.
abbrev pub with_bits : BitmapZone → (ℕ → ℕ → Bool) → BitmapZone
with_bits z b = record z { bits = b }

-- `_zone_set_busy` and `_zone_set_free` on a block of the zone.
pub zone_set-block :
    (v : Bool) (z : BitmapZone) (hi j n : ℕ)
    → IsShape z hi
    → j < max_order
    → n < z.count j
    → zone_set v z ((first z j + n) * block j) j ≡ some (with_bits z (set_bit z.bits j n v))
unfolding zone_set
zone_set-block v z hi j n s h k = rw (pfn-first z hi j n s h k, in_map z hi j n s h k) refl

pub zone_get_busy-block :
    (z : BitmapZone) (hi j n : ℕ)
    → IsShape z hi
    → j < max_order
    → n < z.count j
    → zone_get_busy z ((first z j + n) * block j) j ≡ some (z.bits j n)
unfolding zone_get_busy
zone_get_busy-block z hi j n s h k = rw (pfn-first z hi j n s h k, in_map z hi j n s h k) refl
