-- ===== src/Bitmap/Release.antt =====
-- Theorems on `_free` of kernel/mm/palloc_bitmap.c in the zone of the block.
use nkos.Common.{
  ◌||◌, ◌/◌, refl, ◌∙◌, ◌^◌, ap, sym, subst, inl, inr, ◌==◌, Bool-cases, ◌+◌, ◌-◌, ◌&&◌, ◌*◌, ◌≡◌,
  ◌≤◌, ◌<◌, ℕ, suc, arith,
}
use nkos.Palloc.{max_order}
use nkos.Bitmap.{leb, ltb, not, false, Bool, BitmapZone, block, set_bit}
use nkos.Bitmap.Shape.{IsShape, first, block_pos}
use nkos.Bitmap.Inside.{Holds, Holds-index, Holds-halves, around-suc}
use nkos.Bitmap.Below.{spread}
use nkos.Bitmap.Above.{bit}
use nkos.Bitmap.Touches.{touches, touches-inner, touches-same}
use mathlib.Core.Path.{ap₂}
use native.Mathlib.Nat.{mul-div_left}
use nkos.Bitmap.Shape.{block-suc}
use nkos.Bitmap.Inside.{block-mul, leb-mul, ltb-mul}
use nkos.Bitmap.Clear.{IsExactBut}
use nkos.Bitmap.Alloc.{IsZone}

-- The bits after the loops of `_free` over the block's order and the smaller ones.
abbrev pub lowered : BitmapZone → ℕ → ℕ → ℕ → ℕ → Bool
lowered z o g =
    spread z o 0 (g * block o) (suc g * block o) false (set_bit z.bits o (g - first z o) false)

pub lowered-low :
    (z : BitmapZone) (hi o g i x : ℕ)
    → IsShape z hi
    → o < max_order
    → i ≤ o
    → Holds z hi o g
    → Holds z hi i x
    → bit z (lowered z o g) i x
      ≡ (bit z z.bits i x && not (touches i x (g * block o) (suc g * block o)))
lowered-low z hi o g i x s h l block_in k =
    let within = Holds-index z hi i x s (omega arith) k in
    let taken = Holds-index z hi o g s h block_in in
    let at : first z i + (x - first z i) ≡ x = omega arith in
    elim (Bool-cases (i == o)) [
      | inr below ↦ let same = touches-inner i o g x (ground arith) in rw (at, same) (ground arith)
      | inl here ↦
          let e : i ≡ o = ground arith in
          let same : touches i x (g * block o) (suc g * block o) ≡ (x == g) =
            subst (λ j. touches j x (g * block o) (suc g * block o) ≡ (x == g)) (sym e)
              (touches-same o g x) in
          let f : first z i ≡ first z o = ap (first z) e in rw same (ground arith)
    ]

pub lowered-high : (z : BitmapZone) (o g i n : ℕ) → o < i → lowered z o g i n ≡ z.bits i n
lowered-high z o g i n h = ground arith

-- The halves of a block inside the block to be freed lie in it too.
touches-both :
    (i o g x : ℕ)
    → suc i ≤ o
    → (touches i (2 * x) (g * block o) (suc g * block o)
        ≡ touches (suc i) x (g * block o) (suc g * block o))
      × (touches i (suc (2 * x)) (g * block o) (suc g * block o)
          ≡ touches (suc i) x (g * block o) (suc g * block o))
touches-both i o g x h =
    let m = block i in
    let q = 2 ^ (o - suc i) in
    let low = block_pos i in
    let wide : block o ≡ q * (m * 2) = block-mul (suc i) o h ∙ ap (λ b. q * b) (block-suc i) in
    let s0 : g * (q * (m * 2)) ≡ 2 * (g * q) * m = omega arith in
    let s1 : suc g * (q * (m * 2)) ≡ 2 * (suc g * q) * m = omega arith in
    let start : g * block o ≡ 2 * (g * q) * m = ap (λ b. g * b) wide ∙ s0 in
    let stop : suc g * block o ≡ 2 * (suc g * q) * m = ap (λ b. suc g * b) wide ∙ s1 in
    let x0 : x * (m * 2) ≡ 2 * x * m = omega arith in
    let even : x * block (suc i) ≡ 2 * x * m = ap (λ b. x * b) (block-suc i) ∙ x0 in
    let from : (y : ℕ) → leb (g * block o) (y * m) ≡ leb (2 * (g * q)) y =
      λ y. rw start (leb-mul (2 * (g * q)) y m (omega arith)) in
    let before : (y : ℕ) → ltb (y * m) (suc g * block o) ≡ ltb y (2 * (suc g * q)) =
      λ y. rw stop (ltb-mul y (2 * (suc g * q)) m (omega arith)) in
    let left = touches-inner i o g (2 * x) (omega arith) in
    let right = touches-inner i o g (suc (2 * x)) (omega arith) in
    let whole = touches-inner (suc i) o g x h in
    let a = from (2 * x) in
    let b = before (2 * x) in
    let c = from (suc (2 * x)) in
    let d = before (suc (2 * x)) in
    let all : touches (suc i) x (g * block o) (suc g * block o)
        ≡ (leb (2 * (g * q)) (2 * x) && ltb (2 * x) (2 * (suc g * q))) =
      whole ∙ rw (even, a, b) refl in
    let even_half : touches i (2 * x) (g * block o) (suc g * block o)
        ≡ (leb (2 * (g * q)) (2 * x) && ltb (2 * x) (2 * (suc g * q))) =
      left ∙ rw (a, b) refl in
    let odd_half : touches i (suc (2 * x)) (g * block o) (suc g * block o)
        ≡ (leb (2 * (g * q)) (2 * x) && ltb (2 * x) (2 * (suc g * q))) =
      right ∙ rw (c, d) (ground arith) in
    (even_half ∙ sym all, odd_half ∙ sym all)

join :
    (p q r w a b t : Bool)
    → w ≡ (a || b)
    → p ≡ (w && not t)
    → q ≡ (a && not t)
    → r ≡ (b && not t)
    → p ≡ (q || r)
join p q r w a b t h k l m = ground arith

pub lowered-IsExactBut :
    (z : BitmapZone) (hi o g : ℕ)
    → IsZone z hi
    → o < max_order
    → Holds z hi o g
    → IsExactBut z hi (lowered z o g) (suc o) (g * block o)
lowered-IsExactBut z hi o g v h k i x l m other =
    let (left, right) = Holds-halves z hi i x m in
    let exact = v.1 i x (omega arith) l m in
    elim (Bool-cases (ltb i o)) [
      | inl below ↦
          let (lt, rt) = touches-both i o g x (ground arith) in
          let le : i ≤ o = ground arith in
          join _ _ _ (bit z z.bits (suc i) x) (bit z z.bits i (2 * x))
            (bit z z.bits i (suc (2 * x))) (touches (suc i) x (g * block o) (suc g * block o)) exact
            (lowered-low z hi o g (suc i) x v.0 h (ground arith) k m)
            (lowered-low z hi o g i (2 * x) v.0 h le k left
              ∙ ap (λ t. bit z z.bits i (2 * x) && not t) lt)
            (lowered-low z hi o g i (suc (2 * x)) v.0 h le k right
              ∙ ap (λ t. bit z z.bits i (suc (2 * x)) && not t) rt)
      | inr over ↦
          let up = lowered-high z o g (suc i) (x - first z (suc i)) (ground arith) in
          elim (Bool-cases (i == o)) [
            | inr above ↦
                let same = lowered-high z o g i in
                let more : o < i = ground arith in
                up ∙ exact ∙ sym (ap₂ (λ a b. a || b) (same _ more) (same _ more))
            | inl here ↦
                let e : i ≡ o = ground arith in
                let low_o = block_pos o in
                let half : g * block o / block (suc o) ≡ g / 2 =
                  around-suc (g * block o) o ∙ ap (λ n. n / 2) (mul-div_left g (omega arith)) in
                let (l_off, r_off) =
                  not_halves i o x g (g * block o / block (suc o)) e other half in
                let l_same : touches i (2 * x) (g * block o) (suc g * block o) ≡ false =
                  subst (λ j. touches j (2 * x) (g * block o) (suc g * block o) ≡ false) (sym e)
                    (touches-same o g (2 * x) ∙ l_off) in
                let r_same : touches i (suc (2 * x)) (g * block o) (suc g * block o) ≡ false =
                  subst (λ j. touches j (suc (2 * x)) (g * block o) (suc g * block o) ≡ false)
                    (sym e) (touches-same o g (suc (2 * x)) ∙ r_off) in
                let le : i ≤ o = omega arith in
                join _ _ _ (bit z z.bits (suc i) x) (bit z z.bits i (2 * x))
                  (bit z z.bits i (suc (2 * x))) false exact (up ∙ keep _)
                  (lowered-low z hi o g i (2 * x) v.0 h le k left
                    ∙ ap (λ t. bit z z.bits i (2 * x) && not t) l_same)
                  (lowered-low z hi o g i (suc (2 * x)) v.0 h le k right
                    ∙ ap (λ t. bit z z.bits i (suc (2 * x)) && not t) r_same)
          ]
    ]
  where
    keep : (a : Bool) → a ≡ (a && not false)
    keep a = ground arith

    not_halves :
        (i o x g h : ℕ)
        → i ≡ o
        → (suc i == suc o && x == h) ≡ false
        → h ≡ g / 2
        → ((2 * x == g) ≡ false) × ((suc (2 * x) == g) ≡ false)
    not_halves i o x g h e other half = (ground arith, ground arith)
