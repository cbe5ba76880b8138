-- ===== src/Bitmap/Free.antt =====
-- Theorems on `_free` of kernel/mm/palloc_bitmap.c, and on what it undoes.
use nkos.Common.{
  zero, ◌||◌, refl, sym, subst, ◌/◌, ap, ◌^◌, ◌+◌, ◌-◌, ◌∙◌, ◌*◌, ◌&&◌, ◌≡◌, ◌<◌, ℕ, suc, arith,
}
use nkos.Palloc.{max_order}
use nkos.Bitmap.{false, zone_set, sub64, not, some, true, Bool, BitmapZone, block, set_bit, release}
use nkos.Bitmap.Shape.{first, block_pos, with_bits, zone_set-block}
use nkos.Bitmap.Inside.{Holds, Holds-index, Holds-halves}
use nkos.Bitmap.Below.{set_below-spread}
use nkos.Bitmap.Above.{bit, IsExactFrom, busy_up}
use nkos.Bitmap.Touches.{touches}
use nkos.Bitmap.Clear.{clear_above-IsCleared}
use nkos.Bitmap.Alloc.{IsZone}
use nkos.Bitmap.Release.{lowered, lowered-low, lowered-high, lowered-IsExactBut}
use mathlib.Core.Path.{ap₂}
use native.Mathlib.Nat.{mul-div_left}

-- A block of order o at the address is given back: its pages are free, all others are as before.
pub record IsFreed (o : ℕ) (addr : ℕ) (z w : BitmapZone) (hi : ℕ) : Type 0 where
  pub pages :
      (x : ℕ)
      → Holds z hi 0 x
      → bit w w.bits 0 x ≡ (bit z z.bits 0 x && not (touches 0 x addr (addr + block o)))
  pub same_base : w.base ≡ z.base
  pub same_count : w.count ≡ z.count
  pub counted : w.busy ≡ sub64 z.busy (2 ^ o)
  pub valid : IsZone w hi

pub release-IsFreed :
    (z : BitmapZone) (hi o g : ℕ)
    → IsZone z hi
    → o < max_order
    → Holds z hi o g
    → bit z z.bits o g ≡ true
    → (w : BitmapZone) × (release z (g * block o) o ≡ some w) × IsFreed o (g * block o) z w hi
unfolding release
release-IsFreed z hi o g v h k busy =
    let a = g * block o in
    let low_o = block_pos o in
    let (low, high) = Holds-index z hi o g v.0 h k in
    let n = g - first z o in
    let at : g ≡ first z o + n = omega arith in
    let first_step : zone_set false z a o ≡ some (with_bits z (set_bit z.bits o n false)) =
      ap (λ g. zone_set false z (g * block o) o) at ∙ zone_set-block false z hi o n v.0 h high in
    let w1 = with_bits z (set_bit z.bits o n false) in
    let second = set_below-spread o false w1 hi 0 o g v.0 h (omega arith) k in
    let w2 = with_bits z (lowered z o g) in
    let same_block : a / block o ≡ g = mul-div_left g (omega arith) in
    let parent_busy : suc o < max_order
        → Holds z hi (suc o) (a / block (suc o))
        → bit z w2.bits (suc o) (a / block (suc o)) ≡ true =
      λ l m.
        lowered-high z o g (suc o) (a / block (suc o) - first z (suc o)) (omega arith)
        ∙ busy_up 1 z hi z.bits o (suc o) a (λ i x p. v.1 i x (omega arith)) (omega arith) l m
            (subst (λ g. bit z z.bits o g ≡ true) (sym same_block) busy) in
    let (bits, third, exact, same) =
      clear_above-IsCleared (max_order - suc o) w2 hi o a v.0 (omega arith)
        (lowered-IsExactBut z hi o g v h k) parent_busy in
    let w : BitmapZone = record z { bits = bits; busy = sub64 z.busy (2 ^ o) } in
    let end : suc g * block o ≡ a + block o = omega arith in
    (
      w,
      rw (first_step, second, third) refl,
      record {
        pages = λ x m.
            same 0 (x - first z 0) (omega arith)
            ∙ lowered-low z hi o g 0 x v.0 h (omega arith) k m
            ∙ ap (λ e. bit z z.bits 0 x && not (touches 0 x a e)) end;
        same_base = refl;
        same_count = refl;
        counted = refl;
        valid = (v.0, exact);
      },
    )

-- Bitmaps that agree with each other are determined by the pages.
pub exact_unique :
    (i : ℕ) (z : BitmapZone) (hi x : ℕ) (bits others : ℕ → ℕ → Bool)
    → IsExactFrom z hi bits 0
    → IsExactFrom z hi others 0
    → ((x : ℕ) → Holds z hi 0 x → bit z bits 0 x ≡ bit z others 0 x)
    → i < max_order
    → Holds z hi i x
    → bit z bits i x ≡ bit z others i x
exact_unique zero z hi x bits others e f pages h k = pages x k
exact_unique (suc i) z hi x bits others e f pages h k =
    let (left, right) = Holds-halves z hi i x k in
    let l = exact_unique i z hi (2 * x) bits others e f pages (omega arith) left in
    let r = exact_unique i z hi (suc (2 * x)) bits others e f pages (omega arith) right in
    e i x (omega arith) h k ∙ ap₂ (λ a b. a || b) l r ∙ sym (f i x (omega arith) h k)
