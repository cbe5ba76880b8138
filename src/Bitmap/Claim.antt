-- ===== src/Bitmap/Claim.antt =====
-- Theorems on the part of `_alloc` in kernel/mm/palloc_bitmap.c that takes a block.
use nkos.Common.{
  ap, sym, subst, ◌&&◌, refl, inr, inl, Bool-cases, ◌%◌, ◌^◌, ◌||◌, ◌==◌, ◌*◌, ◌≡◌, ◌+◌, ◌-◌, ◌<◌,
  ℕ, suc, arith,
}
use nkos.Palloc.{max_order}
use nkos.Bitmap.{
  leb, u64_mod, true, some, false, bitmap_zone_bgn, add64, ltb, Bool, BitmapZone, block, set_bit,
  claim,
}
use nkos.Bitmap.Shape.{IsShape, first, block_pos, with_bits, zone_set-block, bgn-first}
use nkos.Bitmap.Inside.{Holds, Holds-index, index-Holds}
use nkos.Bitmap.Below.{spread, set_below-spread}
use nkos.Bitmap.Above.{bit, IsExactFrom, raise, set_above-raise}
use nkos.Bitmap.Touches.{touches, touches-inner, touches-same, touches-outer}

-- The bits that `_alloc` leaves, as its loops write them.
abbrev pub claimed : BitmapZone → ℕ → ℕ → ℕ → ℕ → ℕ → ℕ → Bool
claimed z o n a e =
    raise z (max_order - suc o) (suc o) a (spread z o 0 a e true (set_bit z.bits o n true))

-- These are the blocks that share an address with the one taken.
pub claimed-touches :
    (z : BitmapZone) (hi o n i x : ℕ)
    → IsShape z hi
    → o < max_order
    → i < max_order
    → Holds z hi i x
    → claimed z o n ((first z o + n) * block o) (suc (first z o + n) * block o) i (x - first z i)
      ≡ (bit z z.bits i x
          || touches i x ((first z o + n) * block o) (suc (first z o + n) * block o))
claimed-touches z hi o n i x s h l k =
    let g = first z o + n in
    let within = Holds-index z hi i x s l k in
    let at : first z i + (x - first z i) ≡ x = omega arith in
    elim (Bool-cases (ltb i o)) [
      | inl below ↦ let same = touches-inner i o g x (ground arith) in rw (at, same) (ground arith)
      | inr over ↦ elim (Bool-cases (i == o)) [
        | inl here ↦
            let e : i ≡ o = ground arith in
            let same : touches i x (g * block o) (suc g * block o) ≡ (x == g) =
              subst (λ j. touches j x (g * block o) (suc g * block o) ≡ (x == g)) (sym e)
                (touches-same o g x) in
            let f : first z i ≡ first z o = ap (first z) e in rw same (ground arith)
        | inr above ↦
            let same = touches-outer i o g x (ground arith) in rw (at, same) (ground arith)
      ]
    ]

-- Spreading a value below an order leaves what stands above.
IsExactFrom-below :
    (z : BitmapZone) (hi o n a e : ℕ) (v : Bool) (bits : ℕ → ℕ → Bool)
    → IsExactFrom z hi bits 0
    → IsExactFrom z hi (spread z o 0 a e v (set_bit bits o n v)) (suc o)
IsExactFrom-below z hi o n a e v bits x i g h l k =
    let low : (leb 0 i && ltb i (0 + o)) ≡ false = ground arith in
    let next : (leb 0 (suc i) && ltb (suc i) (0 + o)) ≡ false = ground arith in
    let other : (i == o) ≡ false = ground arith in
    let another : (suc i == o) ≡ false = ground arith in
    rw (low, next, other, another) (x i g (omega arith) l k)

-- The address that `_alloc` computes.
pub claim-address :
    (z : BitmapZone) (hi o n : ℕ)
    → IsShape z hi
    → o < max_order
    → n < z.count o
    → add64 (bitmap_zone_bgn z o) (n * block o % u64_mod) ≡ (first z o + n) * block o
claim-address z hi o n s h k =
    let low = block_pos o in
    let top = (index-Holds z hi o n s h k).1 in
    let room = s.1 in rw (bgn-first z hi o s h) (omega arith)

pub claim-claimed :
    (z : BitmapZone) (hi o n : ℕ)
    → IsShape z hi
    → IsExactFrom z hi z.bits 0
    → o < max_order
    → n < z.count o
    → claim z o n
      ≡ some (
        (first z o + n) * block o,
        record z {
          bits = claimed z o n ((first z o + n) * block o) (suc (first z o + n) * block o);
          busy = add64 z.busy (2 ^ o);
        },
      )
unfolding claim
claim-claimed z hi o n s x h k =
    let g = first z o + n in
    let holds = index-Holds z hi o n s h k in
    let w = with_bits z (set_bit z.bits o n true) in
    let under = spread z o 0 (g * block o) (suc g * block o) true w.bits in
    rw
      (
        claim-address z hi o n s h k,
        zone_set-block true z hi o n s h k,
        set_below-spread o true w hi 0 o g s h (omega arith) holds,
        set_above-raise (max_order - suc o) (with_bits z under) hi (suc o) (g * block o) s
            (omega arith)
            (IsExactFrom-below z hi o n (g * block o) (suc g * block o) true z.bits x),
      )
      refl
