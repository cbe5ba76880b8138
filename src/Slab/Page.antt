-- ===== src/Slab/Page.antt =====
-- Theorems on `_slab_grow_small` of kernel/mm/slab.c: where the objects of a new slab lie.
use nkos.Common.{
  inr, inl, leb, Bool-cases, u32_mod, ◌⊎◌, ◌∙◌, ◌-◌, [], ◌%◌, refl, add64, ◌^◌, zero, ◌∷◌, ◌≤◌, ◌<◌,
  ap, List, ◌*◌, length, ◌≡◌, ◌+◌, ℕ, suc, arith,
}
use nkos.Palloc.{page_size}
use nkos.Slab.{
  u16_mod, Slab, SlabCache, objects, grow_small, pma2vma, slab_header_size, slab_bytes, buf_bytes,
}
use nkos.Common.Masks.{two_pow-add}
use mathlib.Core.Path.{subst, ap₂}
use native.Mathlib.Nat.{mul-mod_left, mul-le-mul_right}
use nkos.Slab.Layout.{power_range, IsFitting, IsMultiple, header-power}

-- The chain goes down from top: each object ends where the one before it begins or earlier, the last one
-- does not begin below low, and all are multiples of a.
abbrev pub AreObjects : ℕ → ℕ → ℕ → List ℕ → ℕ → Type 0
AreObjects a osize low [] top = low ≤ top
AreObjects a osize low (obj ∷ objs) top =
    (obj + osize ≤ top) × (obj % a ≡ 0) × AreObjects a osize low objs obj

objects-AreObjects :
    (n a osize low top : ℕ)
    → IsMultiple a low
    → IsMultiple a osize
    → low + n * osize ≤ top
    → top < 2 ^ 64
    → n * osize < 2 ^ 32
    → 0 < a
    → AreObjects a osize low (objects n low osize) top
unfolding objects
objects-AreObjects zero a osize low top m o h l w p = omega arith
objects-AreObjects (suc i) a osize low top (m, e) (o, f) h l w p =
    let at : add64 low (i * osize % u32_mod) ≡ low + i * osize = omega arith in
    let sum : m * a + i * (o * a) ≡ (m + i * o) * a = omega arith in
    let whole : low + i * osize ≡ (m + i * o) * a = ap₂ (λ l s. l + i * s) e f ∙ sum in
    rw at (
      omega arith,
      ap (λ x. x % a) whole ∙ mul-mod_left (m + i * o) a,
      objects-AreObjects i a osize low (low + i * osize) (m, e) (o, f) (omega arith) (omega arith)
          (omega arith) p,
    )

length-objects : (n low osize : ℕ) → length (objects n low osize) ≡ n
unfolding objects
length-objects zero low osize = refl
length-objects (suc n) low osize = ap suc (length-objects n low osize)

-- A slab on a page. Its structures begin at the colour of the cache, and its objects lie behind them.
abbrev pub IsSlabOn : SlabCache → ℕ → ℕ → Slab → Type 0
IsSlabOn c k page s =
    (s.page ≡ page)
    × (s.bsy ≡ 0)
    × (s.cnt ≡ c.nobjs)
    × (length s.free ≡ c.nobjs)
    × ((low : ℕ) × (page + c.nxtcol * c.offset + slab_bytes + c.nobjs * buf_bytes ≤ low)
        × AreObjects (2 ^ k) c.osize low s.free (page + page_size))

abbrev first_slab : ℕ → ℕ → List ℕ → Slab
first_slab n page free = record { page = page; free = free; bsy = 0; cnt = n }

-- The objects begin at a multiple of the alignment.
low-IsMultiple :
    (g q a n offset header : ℕ)
    → IsMultiple a offset
    → IsMultiple a header
    → 4096 ≡ q * a
    → IsMultiple a (g * 4096 + n * offset + header)
low-IsMultiple g q a n offset header (m, e) (h, f) p =
    let sum : g * (q * a) + n * (m * a) + h * a ≡ (g * q + n * m + h) * a = omega arith in
    (
      g * q + n * m + h,
      ap₂ (λ b o. g * b + n * o + header) p e ∙ ap (λ h. g * (q * a) + n * (m * a) + h) f ∙ sum,
    )

-- The colour of the next slab is the next multiple of the offset, and the first one after the last.
abbrev pub IsNextColour : SlabCache → SlabCache → Type 0
IsNextColour c d =
    ((c.nxtcol + 1 < c.colors) × (d.nxtcol ≡ c.nxtcol + 1))
    ⊎ ((c.nxtcol + 1 ≡ c.colors) × (d.nxtcol ≡ 0))

next-IsNextColour :
    (c : SlabCache) (pma : ℕ)
    → c.nxtcol < c.colors
    → c.colors < 2 ^ 15
    → IsNextColour c (grow_small c pma)
unfolding grow_small
next-IsNextColour c pma inside few =
    let small : (c.nxtcol + 1) % u16_mod ≡ c.nxtcol + 1 = omega arith in
    elim (Bool-cases (leb c.colors (c.nxtcol + 1))) [
      | inl last ↦ inr (ground arith, rw (small, last) refl)
      | inr more ↦ inl (ground arith, rw (small, more) refl)
    ]

-- `_slab_grow_small` of a cache for small objects, on a page of 4096 bytes that does not reach the end of the addresses: the
-- new slab in front of the free ones has all its objects free, they lie behind its structures, which begin at the colour of the
-- cache, and inside the page, do not overlap, and are multiples of the alignment; the next slab gets the next colour, and the
-- cache keeps what fits in a page.
pub grow_small-IsSlabOn :
    (c : SlabCache) (k g : ℕ)
    → IsFitting c k
    → g * page_size + page_size + 0xffff800000000000 < 2 ^ 64
    → (s : Slab) × ((grow_small c (g * page_size)).slab_free ≡ s ∷ c.slab_free)
      × IsSlabOn c k (g * page_size + 0xffff800000000000) s
      × IsNextColour c (grow_small c (g * page_size))
      × IsFitting (grow_small c (g * page_size)) k
unfolding grow_small
grow_small-IsSlabOn c k g (h, l, align, order, small, o_mul, f_mul, two, few, colour, colours, fits)
      room =
    let page = g * page_size + 0xffff800000000000 in
    let n = c.nobjs in
    let (h_low, h_high, (hm, h_mul)) = header-power n k (omega arith) h l in
    let header = slab_header_size n (2 ^ k) in
    let header_at : slab_header_size n c.align ≡ header = ap (slab_header_size n) align in
    let power = power_range k h l in
    let q = 2 ^ (12 - k) in
    let twelve : k ≤ 12 = l in
    let exponent : 12 ≡ (12 - k) + k = omega arith in
    let whole_page : 4096 ≡ q * 2 ^ k = ap (λ n. 2 ^ n) exponent ∙ two_pow-add (12 - k) k in
    let last_colour : c.nxtcol ≤ c.colors - 1 = omega arith in
    let shift = mul-le-mul_right c.offset last_colour in
    let swap : c.offset * c.nxtcol ≡ c.nxtcol * c.offset = omega arith in
    let low = page + c.nxtcol * c.offset + header in
    let inside : low + n * c.osize ≤ page + page_size = omega arith in
    let start : add64 (add64 (pma2vma (g * page_size)) (c.offset * c.nxtcol))
          (slab_header_size n c.align)
        ≡ low =
      omega arith in
    let page_number : (g + 0xffff800000000) * 4096 ≡ page = omega arith in
    let multiple : IsMultiple (2 ^ k) low =
      subst (λ p. IsMultiple (2 ^ k) (p + c.nxtcol * c.offset + header)) page_number
        (low-IsMultiple (g + 0xffff800000000) q (2 ^ k) c.nxtcol c.offset header f_mul (hm, h_mul)
          whole_page) in
    let objs = objects n low c.osize in
    let all =
      objects-AreObjects n (2 ^ k) c.osize low (page + page_size) multiple o_mul inside
        (omega arith) (omega arith) (omega arith) in
    let s : Slab = record { page = pma2vma (g * page_size); free = objs; bsy = 0; cnt = n } in
    let chain : objects n
          (add64 (add64 (pma2vma (g * page_size)) (c.offset * c.nxtcol))
            (slab_header_size n c.align))
          c.osize
        ≡ objs =
      ap (λ d. objects n d c.osize) start in
    (
      s,
      ap (λ f. first_slab n (pma2vma (g * page_size)) f ∷ c.slab_free) chain,
      (omega arith, refl, refl, length-objects n low c.osize, (low, omega arith, all)),
      next-IsNextColour c (g * page_size) colour colours,
      (h, l, align, order, small, o_mul, f_mul, two, few, ground arith, colours, fits),
    )
