-- ===== src/Bitmap/Inside.antt =====
-- Theorems on the geometry of a zone of kernel/mm/palloc_bitmap.c: the blocks of one order inside those
-- of another.
use nkos.Common.{
  ◌%◌, sym, subst, inr, leb→le, ◌∙◌, inl, ◌/◌, Bool-cases, ap, ◌*◌, ◌-◌, ◌+◌, ◌^◌, ◌≡◌, ◌≤◌, ◌<◌, ℕ,
  suc, arith,
}
use nkos.Common.Masks.{two_pow-add}
use nkos.Bitmap.{leb, ltb, BitmapZone, block}
use nkos.Bitmap.Shape.{block-suc, IsShape, first, block_pos}
use nkos.Palloc.{max_order}
use native.Mathlib.Nat.{
  mod-lt, div-add-mod', div-div-eq-div-mul, one-le-pow, div-lt_iff_lt-mul, le-div_iff_mul-le,
  mul-le-mul_right,
}

-- The block g of order j, counted from address 0, lies between the base and the address hi.
abbrev pub Holds : BitmapZone → ℕ → ℕ → ℕ → Type 0
Holds z hi j g = (z.base ≤ g * block j) × (suc g * block j ≤ hi)

pub leb-mul : (a b m : ℕ) → 0 < m → leb (a * m) (b * m) ≡ leb a b
leb-mul a b m h = elim (Bool-cases (leb a b)) [
  | inl le ↦ let k = mul-le-mul_right m (leb→le a b le) in rw le (ground arith)
  | inr gt ↦
      let less : suc b ≤ a = ground arith in let k = mul-le-mul_right m less in rw gt (ground arith)
]

pub ltb-mul : (a b m : ℕ) → 0 < m → ltb (a * m) (b * m) ≡ ltb a b
ltb-mul a b m h = let k = leb-mul b a m h in ground arith

pub first-le : (base m g : ℕ) → 0 < m → base ≤ g * m → (base + (m - 1)) / m ≤ g
first-le base m g h le =
    let k = (div-lt_iff_lt-mul {k = m} {x = base + (m - 1)} {y = suc g} h).1 (omega arith) in
    omega arith

pub le-first : (base m g : ℕ) → 0 < m → (base + (m - 1)) / m ≤ g → base ≤ g * m
le-first base m g h le =
    let k = (div-lt_iff_lt-mul {k = m} {x = base + (m - 1)} {y = suc g} h).0 (omega arith) in
    omega arith

pub Holds-index :
    (z : BitmapZone) (hi j g : ℕ)
    → IsShape z hi
    → j < max_order
    → Holds z hi j g
    → (first z j ≤ g) × (g - first z j < z.count j)
Holds-index z hi j g s h k =
    let low = block_pos j in
    let begins = first-le z.base (block j) g (omega arith) k.0 in
    let ends = (le-div_iff_mul-le {k = block j} {x = suc g} {y = hi} (omega arith)).1 k.1 in
    let count = s.2 j h in (begins, omega arith)

pub index-Holds :
    (z : BitmapZone) (hi j n : ℕ)
    → IsShape z hi
    → j < max_order
    → n < z.count j
    → Holds z hi j (first z j + n)
index-Holds z hi j n s h k =
    let low = block_pos j in
    let count = s.2 j h in
    (
      le-first z.base (block j) (first z j + n) (omega arith) (omega arith),
      (le-div_iff_mul-le {k = block j} {x = suc (first z j + n)} {y = hi} (omega arith)).0
          (omega arith),
    )

pub block-mul : (j o : ℕ) → j ≤ o → block o ≡ 2 ^ (o - j) * block j
block-mul j o h =
    let e : 12 + o ≡ (o - j) + (12 + j) = omega arith in
    ap (λ n. 2 ^ n) e ∙ two_pow-add (o - j) (12 + j)

-- The first and the last block of order j in the block g of order o.
pub Holds-inner :
    (z : BitmapZone) (hi j o g n : ℕ)
    → j ≤ o
    → Holds z hi o g
    → n < 2 ^ (o - j)
    → Holds z hi j (g * 2 ^ (o - j) + n)
Holds-inner z hi j o g n h k l =
    let q = 2 ^ (o - j) in
    let m = block j in
    let e = block-mul j o h in
    let last = mul-le-mul_right m l in
    let low : z.base ≤ g * (q * m) = subst (λ b. z.base ≤ g * b) e k.0 in
    let high : suc g * (q * m) ≤ hi = subst (λ b. suc g * b ≤ hi) e k.1 in
    (omega arith, omega arith)

-- The two halves of a block.
pub Holds-halves :
    (z : BitmapZone) (hi i g : ℕ)
    → Holds z hi (suc i) g
    → Holds z hi i (2 * g) × Holds z hi i (suc (2 * g))
Holds-halves z hi i g k =
    let m = block i in
    let e = block-suc i in
    let low : z.base ≤ g * (m * 2) = subst (λ b. z.base ≤ g * b) e k.0 in
    let high : suc g * (m * 2) ≤ hi = subst (λ b. suc g * b ≤ hi) e k.1 in
    ((omega arith, omega arith), (omega arith, omega arith))

-- The block of order i around an address is in the zone only if the smaller block around it is.
pub Holds-around :
    (z : BitmapZone) (hi j i addr : ℕ)
    → j ≤ i
    → Holds z hi i (addr / block i)
    → Holds z hi j (addr / block j)
Holds-around z hi j i addr h k =
    let q = 2 ^ (i - j) in
    let p = addr / block j in
    let some_block = one-le-pow (i - j) 2 (omega arith) in
    let swap : q * block j ≡ block j * q = omega arith in
    let g : addr / block i ≡ p / q =
      ap (λ b. addr / b) (block-mul j i h ∙ swap) ∙ sym (div-div-eq-div-mul addr (block j) q) in
    let parts : p / q * q + p % q ≡ p = div-add-mod' p q in
    let rest : p % q < q = mod-lt p (omega arith) in
    subst (Holds z hi j) parts
      (Holds-inner z hi j i (p / q) (p % q) h (subst (Holds z hi i) g k) rest)

-- The block of the next order around an address.
pub around-suc : (addr i : ℕ) → addr / block (suc i) ≡ addr / block i / 2
around-suc addr i = ap (λ b. addr / b) (block-suc i) ∙ sym (div-div-eq-div-mul addr (block i) 2)
