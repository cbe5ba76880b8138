-- ===== src/Bitmap/Clear.antt =====
-- Theorems on the loop of `_free` in kernel/mm/palloc_bitmap.c over the orders above that of a block.
use nkos.Common.{
  sym, zero, ap, refl, ◌+◌, ◌∙◌, if◌then◌else◌, subst, inl, inr, ◌-◌, Bool-cases, ◌||◌, ◌*◌, ◌&&◌,
  ◌≡◌, ◌==◌, ◌/◌, ◌<◌, ℕ, suc, arith,
}
use nkos.Palloc.{max_order}
use nkos.Bitmap.{
  bitmap_zone_end, bitmap_zone_bgn, leb, ltb, not, true, add64, false, some, Option, Bool,
  BitmapZone, block, set_bit, zone_set, zone_get_busy, clear_above,
}
use nkos.Bitmap.Shape.{IsShape, first, block-suc, with_bits, zone_set-block, zone_get_busy-block}
use nkos.Bitmap.Inside.{Holds, Holds-index, Holds-halves, index-Holds, around-suc}
use nkos.Bitmap.Above.{bit, IsExactFrom, either, outside-index}

-- The bitmaps agree but for the block around an address in order j.
abbrev pub IsExactBut : BitmapZone → ℕ → (ℕ → ℕ → Bool) → ℕ → ℕ → Type 0
IsExactBut z hi bits j addr =
    (i g : ℕ)
    → suc i < max_order
    → Holds z hi (suc i) g
    → (suc i == j && g == addr / block j) ≡ false
    → bit z bits (suc i) g ≡ (bit z bits i (2 * g) || bit z bits i (suc (2 * g)))

-- The bits that the loop may change.
abbrev pub IsSameBut : BitmapZone → (ℕ → ℕ → Bool) → (ℕ → ℕ → Bool) → ℕ → Type 0
IsSameBut z bits now j = (i n : ℕ) → i < j → now i n ≡ bits i n

-- What holds after the loop from order j on.
abbrev pub IsCleared : BitmapZone → ℕ → ℕ → Option BitmapZone → Type 0
IsCleared z hi j r =
    (bits : ℕ → ℕ → Bool) × (r ≡ some (with_bits z bits))
    × IsExactFrom z hi bits 0
    × IsSameBut z z.bits bits j

-- Writing the bit of one block of the zone.
pub bit-set_bit :
    (z : BitmapZone) (hi i j g p : ℕ) (v : Bool)
    → IsShape z hi
    → i < max_order
    → j < max_order
    → Holds z hi i g
    → Holds z hi j p
    → bit z (set_bit z.bits j (p - first z j) v) i g
      ≡ (if i == j && g == p then v else bit z z.bits i g)
bit-set_bit z hi i j g p v s h l k m =
    let at = Holds-index z hi i g s h k in
    let here = Holds-index z hi j p s l m in
    elim (Bool-cases (i == j)) [
      | inl same ↦
          let e : i ≡ j = ground arith in
          let f : first z i ≡ first z j = ap (first z) e in ground arith
      | inr other ↦ rw other refl
    ]

-- At the block itself: its bit against those of its halves.
exact-all :
    (z : BitmapZone) (hi j addr : ℕ)
    → IsExactBut z hi z.bits (suc j) addr
    → (suc j < max_order
        → Holds z hi (suc j) (addr / block (suc j))
        → bit z z.bits (suc j) (addr / block (suc j)) ≡ (
            bit z z.bits j (2 * (addr / block (suc j)))
            || bit z z.bits j (suc (2 * (addr / block (suc j))))))
    → IsExactFrom z hi z.bits 0
exact-all z hi j addr but at i g low h k =
    elim (Bool-cases (suc i == suc j && g == addr / block (suc j))) [
      | inr other ↦ but i g h k other
      | inl this ↦
          let e : i ≡ j = ground arith in
          let r : g ≡ addr / block (suc j) = ground arith in
          let h_j : suc j < max_order = omega arith in
          let k_j : Holds z hi (suc j) (addr / block (suc j)) =
            subst (λ i. Holds z hi (suc i) (addr / block (suc j))) e
              (subst (Holds z hi (suc i)) r k) in
          rw (e, r) (at h_j k_j)
    ]

skip-half :
    (i j g p q : ℕ)
    → (suc i == suc (suc j) && g == q) ≡ false
    → q ≡ p / 2
    → ((i == suc j && 2 * g == p) ≡ false) × ((i == suc j && suc (2 * g) == p) ≡ false)
skip-half i j g p q h e = (ground arith, ground arith)

-- Clearing the bit of a block whose halves are clear moves the disagreement one order up.
but-next :
    (z : BitmapZone) (hi j addr : ℕ)
    → IsShape z hi
    → suc j < max_order
    → Holds z hi (suc j) (addr / block (suc j))
    → IsExactBut z hi z.bits (suc j) addr
    → bit z z.bits j (2 * (addr / block (suc j))) ≡ false
    → bit z z.bits j (suc (2 * (addr / block (suc j)))) ≡ false
    → IsExactBut z hi
        (set_bit z.bits (suc j) (addr / block (suc j) - first z (suc j)) false)
        (suc (suc j))
        addr
but-next z hi j addr s h holds but left right i g l k other =
    let p = addr / block (suc j) in
    let n_bits = set_bit z.bits (suc j) (p - first z (suc j)) false in
    let (lower, upper) = Holds-halves z hi i g k in
    let up = bit-set_bit z hi (suc i) (suc j) g p false s l h k holds in
    let le : i < max_order = omega arith in
    let low = bit-set_bit z hi i (suc j) (2 * g) p false s le h lower holds in
    let high = bit-set_bit z hi i (suc j) (suc (2 * g)) p false s le h upper holds in
    let half : addr / block (suc (suc j)) ≡ p / 2 = around-suc addr (suc j) in
    up ∙ elim (Bool-cases (suc i == suc j && g == p)) [
      | inl this ↦
          let e : i ≡ j = ground arith in
          let r : g ≡ p = ground arith in
          let far : (i == suc j) ≡ false = ground arith in
          let l_clear : bit z z.bits i (2 * g) ≡ false = rw (e, r) left in
          let r_clear : bit z z.bits i (suc (2 * g)) ≡ false = rw (e, r) right in
          rw (this, low, high, far, l_clear, r_clear) refl
      | inr that ↦
          let (skip_low, skip_high) = skip-half i j g p _ other half in
          rw (that, low, high, skip_low, skip_high) (but i g l k that)
    ]

-- The blocks that the loop reads.
read_halves :
    (z : BitmapZone) (hi j p : ℕ)
    → IsShape z hi
    → suc j < max_order
    → Holds z hi (suc j) p
    → (zone_get_busy z (p * block (suc j)) j ≡ some (bit z z.bits j (2 * p)))
      × (zone_get_busy z (add64 (p * block (suc j)) (block j)) j
          ≡ some (bit z z.bits j (suc (2 * p))))
read_halves z hi j p s h k =
    let m = block j in
    let (left, right) = Holds-halves z hi j p k in
    let (l_low, l_high) = Holds-index z hi j (2 * p) s (omega arith) left in
    let (r_low, r_high) = Holds-index z hi j (suc (2 * p)) s (omega arith) right in
    let assoc : p * (m * 2) ≡ 2 * p * m = omega arith in
    let start : p * block (suc j) ≡ 2 * p * m = ap (λ b. p * b) (block-suc j) ∙ assoc in
    let l_at : 2 * p ≡ first z j + (2 * p - first z j) = omega arith in
    let r_at : suc (2 * p) ≡ first z j + (suc (2 * p) - first z j) = omega arith in
    let top = right.1 in
    let room = s.1 in
    let sum : add64 (2 * p * m) m ≡ suc (2 * p) * m = omega arith in
    (
      ap (λ b. zone_get_busy z b j) (start ∙ ap (λ g. g * m) l_at)
          ∙ zone_get_busy-block z hi j (2 * p - first z j) s (omega arith) l_high,
      ap (λ b. zone_get_busy z b j) (ap (λ b. add64 b m) start ∙ sum ∙ ap (λ g. g * m) r_at)
          ∙ zone_get_busy-block z hi j (suc (2 * p) - first z j) s (omega arith) r_high,
    )

clear-step :
    (k : ℕ) (z w : BitmapZone) (j addr : ℕ) (left right : Bool)
    → (z.count (suc j) == 0
        || (ltb (addr / block (suc j) * block (suc j)) (bitmap_zone_bgn z (suc j))
            || leb (bitmap_zone_end z (suc j)) (addr / block (suc j) * block (suc j))))
      ≡ false
    → zone_get_busy z (addr / block (suc j) * block (suc j)) j ≡ some left
    → zone_get_busy z (add64 (addr / block (suc j) * block (suc j)) (block j)) j ≡ some right
    → zone_set false z (addr / block (suc j) * block (suc j)) (suc j) ≡ some w
    → clear_above (suc k) z addr (suc j)
      ≡ (if left || right then some z else clear_above k w addr (suc (suc j)))
unfolding clear_above
clear-step k z w j addr true right h l r m =
    let pred : suc j - 1 ≡ j = omega arith in rw (h, pred, l) refl
clear-step k z w j addr false true h l r m =
    let pred : suc j - 1 ≡ j = omega arith in rw (h, pred, l, r) refl
clear-step k z w j addr false false h l r m =
    let pred : suc j - 1 ≡ j = omega arith in rw (h, pred, l, r, m) refl

clear-outside :
    (k : ℕ) (z : BitmapZone) (j addr : ℕ)
    → (z.count j == 0
        || (ltb (addr / block j * block j) (bitmap_zone_bgn z j)
            || leb (bitmap_zone_end z j) (addr / block j * block j)))
      ≡ true
    → clear_above (suc k) z addr j ≡ some z
unfolding clear_above
clear-outside k z j addr h = rw h refl

set_bit-below : (bits : ℕ → ℕ → Bool) (i j m n : ℕ) → i < j → set_bit bits j n false i m ≡ bits i m
set_bit-below bits i j m n h = ground arith

-- The loop over the larger orders makes the bitmaps agree again.
pub clear_above-IsCleared :
    (k : ℕ) (z : BitmapZone) (hi j addr : ℕ)
    → IsShape z hi
    → suc j + k ≡ max_order
    → IsExactBut z hi z.bits (suc j) addr
    → (suc j < max_order
        → Holds z hi (suc j) (addr / block (suc j))
        → bit z z.bits (suc j) (addr / block (suc j)) ≡ true)
    → IsCleared z hi (suc j) (clear_above k z addr (suc j))
unfolding clear_above
clear_above-IsCleared zero z hi j addr s e but busy =
    (z.bits, refl, exact-all z hi j addr but (λ h k. absurd (omega arith)), λ i n h. refl)
clear_above-IsCleared (suc k) z hi j addr s e but busy =
    let p = addr / block (suc j) in
    let h : suc j < max_order = omega arith in
    let guard = outside-index z hi (suc j) p s h in
    elim (Bool-cases (not (leb (first z (suc j)) p && ltb p (first z (suc j) + z.count (suc j))))) [
      | inl out ↦ (
        z.bits,
        clear-outside k z (suc j) addr (guard ∙ out),
        exact-all z hi j addr but
            (λ l m. (let in_zone = Holds-index z hi (suc j) p s h m in ground arith)),
        λ i n l. refl,
      )
      | inr within ↦
          let n = p - first z (suc j) in
          let at : first z (suc j) + n ≡ p = ground arith in
          let less : n < z.count (suc j) = ground arith in
          let holds : Holds z hi (suc j) p =
            subst (Holds z hi (suc j)) at (index-Holds z hi (suc j) n s h less) in
          let (left, right) = read_halves z hi j p s h holds in
          let w = with_bits z (set_bit z.bits (suc j) n false) in
          let write =
            ap (λ g. zone_set false z (g * block (suc j)) (suc j)) (sym at)
            ∙ zone_set-block false z hi (suc j) n s h less in
          let step = clear-step k z w j addr _ _ (guard ∙ within) left right write in
          let set = busy h holds in
          elim (Bool-cases (bit z z.bits j (2 * p) || bit z z.bits j (suc (2 * p)))) [
            | inl stop ↦ (
              z.bits,
              step ∙ rw stop refl,
              exact-all z hi j addr but (λ l m. set ∙ sym stop),
              λ i n l. refl,
            )
            | inr go ↦
                let l_clear : bit z z.bits j (2 * p) ≡ false = ground arith in
                let r_clear : bit z z.bits j (suc (2 * p)) ≡ false = ground arith in
                let next_but = but-next z hi j addr s h holds but l_clear r_clear in
                let apart : (suc (suc j) == suc j) ≡ false = ground arith in
                let next_busy : suc (suc j) < max_order
                    → Holds z hi (suc (suc j)) (addr / block (suc (suc j)))
                    → bit z w.bits (suc (suc j)) (addr / block (suc (suc j))) ≡ true =
                  λ l m.
                    (let g = addr / block (suc (suc j)) in
                      let not_here : (suc (suc j) == suc j && g == addr / block (suc j)) ≡ false =
                        rw apart refl in
                      rw apart (
                        either p g (bit z z.bits (suc j)) _ (around-suc addr (suc j)) set
                          (but (suc j) g l m not_here))) in
                let (bits, r, exact, same) =
                  clear_above-IsCleared k w hi (suc j) addr s (omega arith) next_but next_busy in
                (
                  bits,
                  step ∙ rw go r,
                  exact,
                  λ i m l. same i m (omega arith) ∙ set_bit-below z.bits i (suc j) m n l,
                )
          ]
    ]
