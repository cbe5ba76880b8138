-- ===== src/Bitmap/Above.antt =====
-- Theorems on the loop of `_alloc` in kernel/mm/palloc_bitmap.c over the orders above that of a block.
use nkos.Common.{
  ◌&&◌, if◌then◌else◌, refl, zero, inr, ◌∙◌, inl, ◌==◌, ◌%◌, Bool-cases, ◌||◌, ◌/◌, ◌*◌, ◌<◌, ◌≡◌,
  ◌+◌, ◌-◌, ◌≤◌, ℕ, suc, arith,
}
use nkos.Palloc.{max_order}
use nkos.Bitmap.{
  bitmap_zone_end, bitmap_zone_bgn, ltb, leb, false, some, not, true, Bool, BitmapZone, block,
  set_bit, zone_set, zone_get_busy, set_above,
}
use nkos.Bitmap.Shape.{
  end-last, bgn-first, IsShape, first, block_pos, with_bits, zone_set-block, zone_get_busy-block,
}
use nkos.Bitmap.Inside.{Holds, Holds-index, Holds-around, leb-mul, ltb-mul, index-Holds, around-suc}
use mathlib.Core.Path.{ap, sym, subst, fun_ext}

-- The bit of the block g of order i, counted from address 0.
abbrev pub bit : BitmapZone → (ℕ → ℕ → Bool) → ℕ → ℕ → Bool
bit z bits i g = bits i (g - first z i)

-- From order j on, a block of the zone is busy exactly if one of its halves is.
abbrev pub IsExactFrom : BitmapZone → ℕ → (ℕ → ℕ → Bool) → ℕ → Type 0
IsExactFrom z hi bits j =
    (i g : ℕ)
    → j ≤ i
    → suc i < max_order
    → Holds z hi (suc i) g
    → bit z bits (suc i) g ≡ (bit z bits i (2 * g) || bit z bits i (suc (2 * g)))

-- The half of the block g that holds something is the block p.
pub either :
    (p g : ℕ) (f : ℕ → Bool) (b : Bool)
    → g ≡ p / 2
    → f p ≡ true
    → b ≡ (f (2 * g) || f (suc (2 * g)))
    → b ≡ true
either p g f b h k both = elim (Bool-cases (p % 2 == 0)) [
  | inl even ↦ let e : p ≡ 2 * g = ground arith in both ∙ rw (sym e, k) refl
  | inr odd ↦ let e : p ≡ suc (2 * g) = ground arith in both ∙ rw (sym e, k) (ground arith)
]

-- A busy block makes the larger blocks around it busy.
pub busy_up :
    (d : ℕ) (z : BitmapZone) (hi : ℕ) (bits : ℕ → ℕ → Bool) (j i addr : ℕ)
    → IsExactFrom z hi bits j
    → j + d ≡ i
    → i < max_order
    → Holds z hi i (addr / block i)
    → bit z bits j (addr / block j) ≡ true
    → bit z bits i (addr / block i) ≡ true
busy_up zero z hi bits j i addr x e h k busy =
    let same : j ≡ i = omega arith in subst (λ i. bit z bits i (addr / block i) ≡ true) same busy
busy_up (suc d) z hi bits j zero addr x e h k busy = absurd (omega arith)
busy_up (suc d) z hi bits j (suc i) addr x e h k busy =
    let le : i ≤ suc i = omega arith in
    let inner = Holds-around z hi i (suc i) addr le k in
    let rest = busy_up d z hi bits j i addr x (omega arith) (omega arith) inner busy in
    let both = x i (addr / block (suc i)) (omega arith) h k in
    let half = around-suc addr i in
    either (addr / block i) (addr / block (suc i)) (bit z bits i) _ half rest both

-- The bits of the k orders from j on whose blocks are around the address are set.
abbrev pub raise : BitmapZone → ℕ → ℕ → ℕ → (ℕ → ℕ → Bool) → ℕ → ℕ → Bool
raise z k j addr bits = λ i n.
    if (leb j i && ltb i (j + k)) && (ltb n (z.count i) && first z i + n == addr / block i)
    then true
    else bits i n

-- The tests of the loops: whether the block of order j around an address is outside the zone.
pub outside-index :
    (z : BitmapZone) (hi j p : ℕ)
    → IsShape z hi
    → j < max_order
    → (z.count j == 0
        || (ltb (p * block j) (bitmap_zone_bgn z j) || leb (bitmap_zone_end z j) (p * block j)))
      ≡ not (leb (first z j) p && ltb p (first z j + z.count j))
outside-index z hi j p s h =
    let low = block_pos j in
    let m = block j in
    let below : ltb (p * m) (bitmap_zone_bgn z j) ≡ ltb p (first z j) =
      rw (bgn-first z hi j s h) (ltb-mul p (first z j) m (omega arith)) in
    let behind : leb (bitmap_zone_end z j) (p * m) ≡ leb (first z j + z.count j) p =
      rw (end-last z hi j s h) (leb-mul (first z j + z.count j) p m (omega arith)) in
    rw (below, behind) (ground arith)

-- Outside the zone there is no larger block around the address.
pub raise-outside :
    (k : ℕ) (z : BitmapZone) (hi j addr : ℕ) (bits : ℕ → ℕ → Bool) (i n : ℕ)
    → IsShape z hi
    → j + k ≡ max_order
    → not (leb (first z j) (addr / block j) && ltb (addr / block j) (first z j + z.count j)) ≡ true
    → bits i n ≡ raise z k j addr bits i n
raise-outside k z hi j addr bits i n s e out =
    elim (Bool-cases
      ((leb j i && ltb i (j + k)) && (ltb n (z.count i) && first z i + n == addr / block i))) [
        | inr none_there ↦ rw none_there refl
        | inl there ↦
            let at : first z i + n ≡ addr / block i = ground arith in
            let holds : Holds z hi i (addr / block i) =
              subst (Holds z hi i) at (index-Holds z hi i n s (ground arith) (ground arith)) in
            let inner = Holds-around z hi j i addr (ground arith) holds in
            let found = Holds-index z hi j (addr / block j) s (ground arith) inner in ground arith
      ]

raise-busy :
    (k : ℕ) (z : BitmapZone) (hi j addr : ℕ) (bits : ℕ → ℕ → Bool) (i n : ℕ)
    → IsShape z hi
    → j + k ≡ max_order
    → IsExactFrom z hi bits j
    → bit z bits j (addr / block j) ≡ true
    → bits i n ≡ raise z k j addr bits i n
raise-busy k z hi j addr bits i n s e x busy =
    elim (Bool-cases
      ((leb j i && ltb i (j + k)) && (ltb n (z.count i) && first z i + n == addr / block i))) [
        | inr none_there ↦ rw none_there refl
        | inl there ↦
            let at : first z i + n ≡ addr / block i = ground arith in
            let holds : Holds z hi i (addr / block i) =
              subst (Holds z hi i) at (index-Holds z hi i n s (ground arith) (ground arith)) in
            let up : bit z bits i (addr / block i) ≡ true =
              busy_up (i - j) z hi bits j i addr x (ground arith) (ground arith) holds busy in
            let here : addr / block i - first z i ≡ n = omega arith in
            let set : bits i n ≡ true = subst (λ n. bits i n ≡ true) here up in rw (there, set) refl
      ]

pub raise-set_bit :
    (k : ℕ) (z : BitmapZone) (j addr m : ℕ) (bits : ℕ → ℕ → Bool) (i n : ℕ)
    → first z j + m ≡ addr / block j
    → m < z.count j
    → raise z k (suc j) addr (set_bit bits j m true) i n ≡ raise z (suc k) j addr bits i n
raise-set_bit k z j addr m bits i n e h = elim (Bool-cases (i == j)) [
  | inl same ↦ let here : i ≡ j = ground arith in rw (here, sym e) (ground arith)
  | inr other ↦ rw other (ground arith)
]

IsExactFrom-set_bit :
    (z : BitmapZone) (hi j m : ℕ) (v : Bool) (bits : ℕ → ℕ → Bool)
    → IsExactFrom z hi bits j
    → IsExactFrom z hi (set_bit bits j m v) (suc j)
IsExactFrom-set_bit z hi j m v bits x i g h k holds =
    let other : (i == j) ≡ false = ground arith in
    let next : (suc i == j) ≡ false = ground arith in rw (other, next) (x i g (omega arith) k holds)

-- The loop of `_alloc` over the larger orders.
pub set_above-raise :
    (k : ℕ) (z : BitmapZone) (hi j addr : ℕ)
    → IsShape z hi
    → j + k ≡ max_order
    → IsExactFrom z hi z.bits j
    → set_above k z addr j ≡ some (with_bits z (raise z k j addr z.bits))
unfolding set_above
set_above-raise zero z hi j addr s e x =
    ap (λ b. some (with_bits z b)) (fun_ext (λ i. fun_ext (λ n. (ground arith))))
set_above-raise (suc k) z hi j addr s e x =
    let p = addr / block j in
    let guard = outside-index z hi j p s (omega arith) in
    elim (Bool-cases (not (leb (first z j) p && ltb p (first z j + z.count j)))) [
      | inl out ↦
          rw (guard, out)
            (ap (λ b. some (with_bits z b))
              (fun_ext (λ i. fun_ext (λ n. raise-outside (suc k) z hi j addr z.bits i n s e out))))
      | inr within ↦
          let n = p - first z j in
          let at : first z j + n ≡ p = ground arith in
          let less : n < z.count j = ground arith in
          let here : p * block j ≡ (first z j + n) * block j = ap (λ g. g * block j) (sym at) in
          let read =
            ap (λ b. zone_get_busy z b j) here
            ∙ zone_get_busy-block z hi j n s (omega arith) less in
          let write =
            ap (λ b. zone_set true z b j) here
            ∙ zone_set-block true z hi j n s (omega arith) less in
          elim (Bool-cases (z.bits j n)) [
            | inl busy ↦
                rw (guard, within, read, busy)
                  (ap (λ b. some (with_bits z b))
                    (fun_ext
                      (λ i. fun_ext (λ m. raise-busy (suc k) z hi j addr z.bits i m s e x busy))))
            | inr clear ↦
                rw (guard, within, read, clear, write)
                  (set_above-raise k (with_bits z (set_bit z.bits j n true)) hi (suc j) addr s
                      (omega arith) (IsExactFrom-set_bit z hi j n true z.bits x)
                    ∙ ap (λ b. some (with_bits z b))
                        (fun_ext
                          (λ i. fun_ext (λ m. raise-set_bit k z j addr n z.bits i m at less))))
          ]
    ]
