-- ===== src/Bitmap/Touches.antt =====
-- Theorems on the blocks of kernel/mm/palloc_bitmap.c that share an address with a range.
use nkos.Common.{◌∙◌, ap, ◌-◌, ◌+◌, ◌^◌, ◌/◌, ◌||◌, ◌&&◌, ◌==◌, ◌≡◌, ◌*◌, ◌<◌, ◌≤◌, ℕ, suc, arith}
use nkos.Bitmap.{leb, ltb, Bool, block}
use nkos.Bitmap.Shape.{block_pos, block-suc}
use nkos.Bitmap.Inside.{block-mul, leb-mul, ltb-mul}
use mathlib.Core.Logic.{◌↔◌}
use native.Mathlib.Nat.{div-lt_iff_lt-mul, le-div_iff_mul-le}

-- The block x of order i, counted from address 0, has an address of the range from a on and before e.
abbrev pub touches : ℕ → ℕ → ℕ → ℕ → Bool
touches i x a e = ltb (x * block i) e && ltb a (suc x * block i)

-- A block touches a range exactly if one of its halves does.
pub touches-halves :
    (i x a e : ℕ)
    → a < e
    → touches (suc i) x a e ≡ (touches i (2 * x) a e || touches i (suc (2 * x)) a e)
touches-halves i x a e h =
    let m = block i in
    let p : x * block (suc i) ≡ 2 * (x * m) =
      let s : x * (m * 2) ≡ 2 * (x * m) = omega arith in ap (λ b. x * b) (block-suc i) ∙ s in
    let r : suc x * block (suc i) ≡ 2 * (x * m) + 2 * m =
      let s : suc x * (m * 2) ≡ 2 * (x * m) + 2 * m = omega arith in
      ap (λ b. suc x * b) (block-suc i) ∙ s in
    let a0 : 2 * x * m ≡ 2 * (x * m) = omega arith in
    let a1 : suc (2 * x) * m ≡ 2 * (x * m) + m = omega arith in
    let a2 : suc (suc (2 * x)) * m ≡ 2 * (x * m) + 2 * m = omega arith in
    rw (p, r, a0, a1, a2) (halves (2 * (x * m)) m a e h)
  where
    halves :
        (y m a e : ℕ)
        → a < e
        → (ltb y e && ltb a (y + 2 * m))
          ≡ ((ltb y e && ltb a (y + m)) || (ltb (y + m) e && ltb a (y + 2 * m)))
    halves y m a e h = ground arith

-- A smaller block touches a block exactly if it lies in it.
pub touches-inner :
    (i o g x : ℕ)
    → i ≤ o
    → touches i x (g * block o) (suc g * block o)
      ≡ (leb (g * block o) (x * block i) && ltb (x * block i) (suc g * block o))
touches-inner i o g x h =
    let m = block i in
    let q = 2 ^ (o - i) in
    let low = block_pos i in
    let swap : g * (q * m) ≡ g * q * m = omega arith in
    let start : g * block o ≡ g * q * m = ap (λ b. g * b) (block-mul i o h) ∙ swap in
    let above : ltb (g * block o) (suc x * m) ≡ ltb (g * q) (suc x) =
      rw start (ltb-mul (g * q) (suc x) m (omega arith)) in
    let at : leb (g * block o) (x * m) ≡ leb (g * q) x =
      rw start (leb-mul (g * q) x m (omega arith)) in
    rw (above, at) (ground arith)

pub touches-same : (o g x : ℕ) → touches o x (g * block o) (suc g * block o) ≡ (x == g)
touches-same o g x =
    let low = block_pos o in
    let left = ltb-mul x (suc g) (block o) (omega arith) in
    let right = ltb-mul g (suc x) (block o) (omega arith) in rw (left, right) (ground arith)

-- A larger block touches a block exactly if it is the one around its address.
pub touches-outer :
    (i o g x : ℕ)
    → o ≤ i
    → touches i x (g * block o) (suc g * block o) ≡ (x == g * block o / block i)
touches-outer i o g x h =
    let m = block o in
    let q = 2 ^ (i - o) in
    let low = block_pos o in
    let high = block_pos i in
    let swap : x * (q * m) ≡ x * q * m = omega arith in
    let start : x * block i ≡ x * q * m = ap (λ b. x * b) (block-mul o i h) ∙ swap in
    let before : ltb (x * block i) (suc g * m) ≡ ltb (x * q) (suc g) =
      rw start (ltb-mul (x * q) (suc g) m (omega arith)) in
    let from : leb (x * block i) (g * m) ≡ leb (x * q) g =
      rw start (leb-mul (x * q) g m (omega arith)) in
    let low_iff = le-div_iff_mul-le {k = block i} {x = x} {y = g * m} (omega arith) in
    let high_iff = div-lt_iff_lt-mul {k = block i} {x = g * m} {y = suc x} (omega arith) in
    around (x * block i) (suc x * block i) (x * q) x g (g * m) (g * m / block i) (suc g * m) before
      from low_iff high_iff
  where
    around :
        (b e c x g a p next : ℕ)
        → ltb b next ≡ ltb c (suc g)
        → leb b a ≡ leb c g
        → (x ≤ p) ↔ (b ≤ a)
        → (p < suc x) ↔ (a < e)
        → (ltb b next && ltb a e) ≡ (x == p)
    around b e c x g a p h k l r = ground arith
