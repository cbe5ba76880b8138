-- ===== src/Slab/Layout.antt =====
-- Theorems on `_slab_cache_init` of kernel/mm/slab.c for small objects: what fits in a page.
use nkos.Common.{add64, ◌∙◌, ◌/◌, ap, sub64, ◌-◌, ◌+◌, ◌^◌, ◌*◌, ◌<◌, ◌≤◌, ◌≡◌, ℕ, arith}
use nkos.Common.Masks.{minus_mask}
use nkos.Palloc.{page_size}
use nkos.Slab.{SlabCache, slab_header_size, round_up, slab_bytes, buf_bytes}
use native.Mathlib.Nat.{lt-mul-div-succ, pow-le-pow_right, div-mul-le_self}

abbrev pub IsMultiple : ℕ → ℕ → Type 0
IsMultiple a x = (m : ℕ) × (x ≡ m * a)

-- With the alignment 2 ^ k, all colours and all objects are in the page of a slab.
abbrev pub IsFitting : SlabCache → ℕ → Type 0
IsFitting c k =
    (3 ≤ k)
    × (k ≤ 12)
    × (c.align ≡ 2 ^ k)
    × (c.order ≡ 0)
    × (c.osize < 512)
    × IsMultiple (2 ^ k) c.osize
    × IsMultiple (2 ^ k) c.offset
    × (2 ≤ c.nobjs)
    × (c.nobjs < 2 ^ 15)
    × (c.nxtcol < c.colors)
    × (c.colors < 2 ^ 15)
    × (slab_header_size c.nobjs c.align + c.nobjs * c.osize + (c.colors - 1) * c.offset ≤ page_size)

pub power_range : (k : ℕ) → 3 ≤ k → k ≤ 12 → (8 ≤ 2 ^ k) × (2 ^ k ≤ 4096)
power_range k h l = (
  pow-le-pow_right {n = 2} (omega arith) {i = 3} {j = k} h,
  pow-le-pow_right {n = 2} (omega arith) {i = k} {j = 12} l,
)

pub round_up-power :
    (x k : ℕ)
    → x < 2 ^ 32
    → 3 ≤ k
    → k ≤ 12
    → (x ≤ round_up x (2 ^ k))
      × (round_up x (2 ^ k) < x + 2 ^ k)
      × IsMultiple (2 ^ k) (round_up x (2 ^ k))
round_up-power x k small h l =
    let (low, high) = power_range k h l in
    let a = 2 ^ k in
    let s : sub64 (add64 x a) 1 ≡ x + a - 1 = omega arith in
    let e : round_up x a ≡ (x + a - 1) / a * a =
      minus_mask (sub64 (add64 x a) 1) k ∙ ap (λ s. s / a * a) s in
    let under = div-mul-le_self (x + a - 1) a in
    let over = lt-mul-div-succ (x + a - 1) {b = a} (omega arith) in
    (omega arith, omega arith, ((x + a - 1) / a, e))

-- `_slab_header_size` with the alignment 2 ^ k.
pub header-power :
    (n k : ℕ)
    → n < 2 ^ 16
    → 3 ≤ k
    → k ≤ 12
    → (slab_bytes + n * buf_bytes ≤ slab_header_size n (2 ^ k))
      × (slab_header_size n (2 ^ k) < slab_bytes + n * buf_bytes + 2 ^ k)
      × IsMultiple (2 ^ k) (slab_header_size n (2 ^ k))
unfolding slab_header_size
header-power n k small h l = round_up-power (slab_bytes + n * buf_bytes) k (omega arith) h l

-- The objects of a page with their header, and what is left.
IsFit : ℕ → ℕ → ℕ × ℕ → Type 0
IsFit osize k f =
    (2 ≤ f.0)
    × (f.0 < 2 ^ 15)
    × (f.1 ≤ page_size)
    × (slab_header_size f.0 (2 ^ k) + f.0 * osize + f.1 ≡ page_size)
