-- ===== src/Bitmap/RoundTrip.antt =====
-- Theorems on `_free` after `_alloc` in kernel/mm/palloc_bitmap.c.
use nkos.Common.{
  ◌*◌, ◌/◌, ◌≤◌, ◌∙◌, ◌&&◌, ◌||◌, ◌≡◌, ◌^◌, ◌<◌, ◌+◌, ◌-◌, ℕ, suc, arith, add64, sub64, not, false,
  true, Bool, some, refl, ap, sym, subst,
}
use nkos.Palloc.{max_order}
use nkos.Bitmap.{BitmapZone, block, release}
use nkos.Bitmap.Shape.{first, block_pos}
use nkos.Bitmap.Inside.{Holds}
use nkos.Bitmap.Above.{bit, IsExactFrom}
use nkos.Bitmap.Touches.{touches, touches-same}
use nkos.Bitmap.Alloc.{IsZone, IsTaken}
use nkos.Bitmap.Free.{release-IsFreed, exact_unique}
use mathlib.Core.Path.{ap₂}
use native.Mathlib.Nat.{pow-le-pow_right, div-add-mod'}

-- `_free` in a zone, after `_alloc` took a block of order o there: it returns, the busy blocks of every order are
-- those before both, and so is the number of busy pages if it is below 2 ^ 64.
pub release-IsTaken :
    (z w : BitmapZone) (hi o addr : ℕ)
    → IsZone z hi
    → o < max_order
    → z.busy < 2 ^ 64
    → IsTaken o addr z w hi
    → (u : BitmapZone) × (release w addr o ≡ some u)
      × ((i x : ℕ) → i < max_order → Holds z hi i x → bit u u.bits i x ≡ bit z z.bits i x)
      × (u.busy ≡ z.busy)
release-IsTaken z w hi o addr v h small t =
    let g = addr / block o in
    let parts = div-add-mod' addr (block o) in
    let rest = t.aligned in
    let same : g * block o ≡ addr = omega arith in
    let end : addr + block o ≡ suc g * block o = omega arith in
    let into : (i x : ℕ) → Holds z hi i x → Holds w hi i x =
      λ i x k. (subst (λ b. b ≤ x * block i) (sym t.same_base) k.0, k.1) in
    let holds : Holds z hi o g =
      (subst (λ a. z.base ≤ a) (sym same) t.inside.0, (let k = t.inside.1 in omega arith)) in
    let low_o = block_pos o in
    let own : touches o g addr (addr + block o) ≡ true =
      ap₂ (touches o g) (sym same) end ∙ touches-same o g g ∙ ground arith in
    let busy : bit w w.bits o g ≡ true = t.now o g h holds ∙ rw own (ground arith) in
    let (u, e, f) = release-IsFreed w hi o g t.valid h (into o g holds) busy in
    let base : u.base ≡ z.base = f.same_base ∙ t.same_base in
    let at : (i : ℕ) → first u i ≡ first z i = λ i. ap (λ b. (b + (block i - 1)) / block i) base in
    let into_u : (i x : ℕ) → Holds z hi i x → Holds u hi i x =
      λ i x k. (subst (λ b. b ≤ x * block i) (sym base) k.0, k.1) in
    let moved : (i x : ℕ) → bit u u.bits i x ≡ bit z u.bits i x =
      λ i x. ap (λ n. u.bits i (x - n)) (at i) in
    let exact : IsExactFrom z hi u.bits 0 = λ i x l m k.
      (sym (moved (suc i) x)
        ∙ f.valid.1 i x l m (into_u (suc i) x k)
        ∙ ap₂ (λ a b. a || b) (moved i (2 * x)) (moved i (suc (2 * x)))) in
    let pages : (x : ℕ) → Holds z hi 0 x → bit z u.bits 0 x ≡ bit z z.bits 0 x = λ x k.
      (sym (moved 0 x)
        ∙ f.pages x (into 0 x k)
        ∙ ap (λ a. bit w w.bits 0 x && not (touches 0 x a (a + block o))) same
        ∙ ap (λ b. b && not (touches 0 x addr (addr + block o))) (t.now 0 x (omega arith) k)
        ∙ cancel (bit z z.bits 0 x) (touches 0 x addr (addr + block o)) (t.was_free x k)) in
    let power = pow-le-pow_right {n = 2} (omega arith) {i = o} {j = 10} (omega arith) in
    (
      u,
      subst (λ a. release w a o ≡ some u) same e,
      λ i x l k. moved i x ∙ exact_unique i z hi x u.bits z.bits exact v.1 pages l k,
      f.counted ∙ ap (λ b. sub64 b (2 ^ o)) t.counted ∙ back z.busy (2 ^ o) power small,
    )
  where
    cancel : (b t : Bool) → (t ≡ true → b ≡ false) → ((b || t) && not t) ≡ b
    cancel b true h = let clear = h refl in ground arith
    cancel b false h = ground arith

    back : (n k : ℕ) → k ≤ 2 ^ 10 → n < 2 ^ 64 → sub64 (add64 n k) k ≡ n
    back n k h l = omega arith
