-- ===== src/Bitmap/Reserve.antt =====
-- Theorems on `_page_reserve` of kernel/mm/palloc_bitmap.c and its caller, with the loop over the orders begun
-- at 0.
use nkos.Common.{
  ◌==◌, refl, lt→ltb, zero, ◌∙◌, inr, inl, ◌&&◌, Bool-cases, ◌/◌, ◌-◌, ◌||◌, ◌≡◌, ◌∷◌, ◌+◌, ◌≤◌,
  ◌*◌, ◌<◌, ℕ, suc, arith,
}
use nkos.Palloc.{max_order, page_size}
use nkos.Bitmap.{
  Bool, Option, false, List, true, not, leb, [], some, ltb, add64, BitmapZone, block, set_bit,
  zone_set, bitmap_zone_bgn, bitmap_zone_end,
}
use nkos.Bitmap.Setup.{reserve_orders, page_reserve, zone_reserve_from, zone_reserve}
use nkos.Bitmap.Shape.{
  IsShape, first, block_pos, with_bits, zone_set-block, bgn-first, end-last, count-fits,
}
use nkos.Bitmap.Inside.{Holds, Holds-index, leb-mul, ltb-mul}
use nkos.Bitmap.Above.{bit, raise, raise-outside, raise-set_bit}
use nkos.Bitmap.Touches.{touches, touches-outer, touches-same}
use nkos.Bitmap.Alloc.{IsZone, IsExactFrom-touches}
use mathlib.Core.Path.{sym, ap, fun_ext}

out_of_range :
    (z : BitmapZone) (hi j p : ℕ)
    → IsShape z hi
    → j < max_order
    → (ltb (p * block j) (bitmap_zone_bgn z j) || leb (bitmap_zone_end z j) (p * block j))
      ≡ not (leb (first z j) p && ltb p (first z j + z.count j))
out_of_range z hi j p s h =
    let low = block_pos j in
    let m = block j in
    let below : ltb (p * m) (bitmap_zone_bgn z j) ≡ ltb p (first z j) =
      rw (bgn-first z hi j s h) (ltb-mul p (first z j) m (omega arith)) in
    let behind : leb (bitmap_zone_end z j) (p * m) ≡ leb (first z j + z.count j) p =
      rw (end-last z hi j s h) (leb-mul (first z j + z.count j) p m (omega arith)) in
    rw (below, behind) (ground arith)

reserve_orders-raise :
    (k : ℕ) (z : BitmapZone) (hi j addr : ℕ)
    → IsShape z hi
    → j + k ≡ max_order
    → reserve_orders k z addr j ≡ some (with_bits z (raise z k j addr z.bits))
unfolding reserve_orders
reserve_orders-raise zero z hi j addr s e =
    ap (λ b. some (with_bits z b)) (fun_ext (λ i. fun_ext (λ n. (ground arith))))
reserve_orders-raise (suc k) z hi j addr s e =
    let p = addr / block j in
    let guard = out_of_range z hi j p s (omega arith) in
    elim (Bool-cases (not (leb (first z j) p && ltb p (first z j + z.count j)))) [
      | inl out ↦
          rw (guard, out)
            (ap (λ b. some (with_bits z b))
              (fun_ext (λ i. fun_ext (λ n. raise-outside (suc k) z hi j addr z.bits i n s e out))))
      | inr within ↦
          let n = p - first z j in
          let at : first z j + n ≡ p = ground arith in
          let less : n < z.count j = ground arith in
          let write =
            ap (λ g. zone_set true z (g * block j) j) (sym at)
            ∙ zone_set-block true z hi j n s (omega arith) less in
          rw (guard, within, write)
            (reserve_orders-raise k (with_bits z (set_bit z.bits j n true)) hi (suc j) addr s
                (omega arith)
              ∙ ap (λ b. some (with_bits z b))
                  (fun_ext (λ i. fun_ext (λ m. raise-set_bit k z j addr n z.bits i m at less))))
    ]

-- A page of the zone is marked: what the zone is then.
abbrev marked : BitmapZone → ℕ → BitmapZone
marked z g = record z { bits = raise z max_order 0 (g * page_size) z.bits; busy = add64 z.busy 1 }

marked-touches :
    (z : BitmapZone) (hi g i x : ℕ)
    → IsShape z hi
    → i < max_order
    → Holds z hi i x
    → bit z (marked z g).bits i x
      ≡ (bit z z.bits i x || touches i x (g * block 0) (suc g * block 0))
marked-touches z hi g i x s l k =
    let within = Holds-index z hi i x s l k in
    let at : first z i + (x - first z i) ≡ x = omega arith in
    let same = touches-outer i 0 g x (omega arith) in rw (at, same) (ground arith)

marked-IsZone : (z : BitmapZone) (hi g : ℕ) → IsZone z hi → IsZone (marked z g) hi
marked-IsZone z hi g v = (
  v.0,
  IsExactFrom-touches z hi (g * block 0) (suc g * block 0) (marked z g).bits (omega arith) v.1
      (λ i x l k. marked-touches z hi g i x v.0 l k),
)

reserve-here :
    (i : ℕ) (z w : BitmapZone) (zs : List BitmapZone) (addr : ℕ)
    → (ltb addr (bitmap_zone_bgn z 0) || leb (bitmap_zone_end z 0) (add64 addr page_size)) ≡ false
    → reserve_orders (max_order - i) z addr i ≡ some w
    → page_reserve i (z ∷ zs) addr ≡ some (record w { busy = add64 w.busy 1 } ∷ zs)
unfolding page_reserve
reserve-here i z w zs addr h e = rw (h, e) refl

page_reserve-marked :
    (z : BitmapZone) (hi g : ℕ)
    → IsShape z hi
    → first z 0 ≤ g
    → suc g < first z 0 + z.count 0
    → page_reserve 0 (z ∷ []) (g * page_size) ≡ some (marked z g ∷ [])
page_reserve-marked z hi g s h l =
    let fits = count-fits z hi 0 s (omega arith) in
    let bgn = bgn-first z hi 0 s (omega arith) in
    let end = end-last z hi 0 s (omega arith) in
    let guard : (ltb (g * page_size) (bitmap_zone_bgn z 0)
          || leb (bitmap_zone_end z 0) (add64 (g * page_size) page_size))
        ≡ false =
      rw (bgn, end) (ground arith) in
    reserve-here 0 z (with_bits z (raise z max_order 0 (g * page_size) z.bits)) [] (g * page_size)
      guard (reserve_orders-raise max_order z hi 0 (g * page_size) s refl)

turn :
    (k i : ℕ) (zs ws : List BitmapZone) (p end : ℕ)
    → ltb (add64 p page_size) end ≡ true
    → page_reserve i zs p ≡ some ws
    → zone_reserve_from (suc k) i zs p end ≡ zone_reserve_from k i ws (add64 p page_size) end
unfolding zone_reserve_from
turn k i zs ws p end h e = rw (h, e) refl

done :
    (k i : ℕ) (zs : List BitmapZone) (p end : ℕ)
    → ltb (add64 p page_size) end ≡ false
    → zone_reserve_from k i zs p end ≡ some zs
unfolding zone_reserve_from
done zero i zs p end h = rw h refl
done (suc k) i zs p end h = rw h refl

-- The zone after the pages from g on, and before the page that ends at e, are marked.
abbrev pub IsReserved : BitmapZone → ℕ → ℕ → ℕ → Option (List BitmapZone) → Type 0
IsReserved z hi g e r =
    (w : BitmapZone) × (r ≡ some (w ∷ []))
    × IsZone w hi
    × ((x : ℕ)
        → Holds z hi 0 x
        → bit z w.bits 0 x ≡ (bit z z.bits 0 x || (leb g x && ltb (suc x) e)))

last_page :
    (k : ℕ) (z : BitmapZone) (hi g e : ℕ)
    → IsZone z hi
    → e ≤ first z 0 + z.count 0
    → e ≤ suc g
    → g < e
    → IsReserved z hi g e (zone_reserve_from k 0 (z ∷ []) (g * page_size) (e * page_size))
last_page k z hi g e v high over some_page =
    let fits = count-fits z hi 0 v.0 (omega arith) in
    let ended : ltb (add64 (g * page_size) page_size) (e * page_size) ≡ false = ground arith in
    (
      z,
      done k 0 (z ∷ []) (g * page_size) (e * page_size) ended,
      v,
      λ x m. nothing (bit z z.bits 0 x) g e x over,
    )
  where
    nothing : (b : Bool) (g e x : ℕ) → e ≤ suc g → b ≡ (b || (leb g x && ltb (suc x) e))
    nothing b g e x h = ground arith

zone_reserve_from-IsReserved :
    (k : ℕ) (z : BitmapZone) (hi g e : ℕ)
    → IsZone z hi
    → first z 0 ≤ g
    → e ≤ first z 0 + z.count 0
    → e ≤ suc (g + k)
    → g < e
    → IsReserved z hi g e (zone_reserve_from k 0 (z ∷ []) (g * page_size) (e * page_size))
zone_reserve_from-IsReserved zero z hi g e v low high fuel some_page =
    last_page zero z hi g e v high (omega arith) some_page
zone_reserve_from-IsReserved (suc k) z hi g e v low high fuel some_page =
    let fits = count-fits z hi 0 v.0 (omega arith) in
    let next : add64 (g * page_size) page_size ≡ suc g * page_size = omega arith in
    elim (Bool-cases (ltb (suc g) e)) [
      | inl more ↦
          let less : suc g < e = ground arith in
          let going : ltb (add64 (g * page_size) page_size) (e * page_size) ≡ true =
            lt→ltb _ _ (omega arith) in
          let step =
            turn k 0 (z ∷ []) (marked z g ∷ []) (g * page_size) (e * page_size) going
              (page_reserve-marked z hi g v.0 low (omega arith)) in
          let (w, r, valid, pages) =
            zone_reserve_from-IsReserved k (marked z g) hi (suc g) e (marked-IsZone z hi g v)
              (omega arith) high (omega arith) less in
          (
            w,
            step ∙ ap (λ p. zone_reserve_from k 0 (marked z g ∷ []) p (e * page_size)) next ∙ r,
            valid,
            λ x m.
                pages x m
                ∙ ap (λ b. b || (leb (suc g) x && ltb (suc x) e))
                    (marked-touches z hi g 0 x v.0 (omega arith) m
                      ∙ ap (λ t. bit z z.bits 0 x || t) (touches-same 0 g x))
                ∙ one_more (bit z z.bits 0 x) g e x less,
          )
      | inr last ↦ last_page (suc k) z hi g e v high (ground arith) some_page
    ]
  where
    one_more :
        (b : Bool) (g e x : ℕ)
        → suc g < e
        → ((b || x == g) || (leb (suc g) x && ltb (suc x) e)) ≡ (b || (leb g x && ltb (suc x) e))
    one_more b g e x h = ground arith

-- `__zone_reserve` with the loop variable of `_page_reserve` at 0, on a range of one or more whole pages inside the
-- only zone: it returns, all pages of the range but the last are busy besides those before, and the bitmaps
-- agree with each other as before.
pub zone_reserve-IsReserved :
    (z : BitmapZone) (hi g n : ℕ)
    → IsZone z hi
    → first z 0 ≤ g
    → g + n ≤ first z 0 + z.count 0
    → 0 < n
    → IsReserved z hi g
        (g + n)
        (zone_reserve 0 (z ∷ []) (record { base = g * page_size; size = n * page_size }))
unfolding zone_reserve
zone_reserve-IsReserved z hi g n v low high some_page =
    let fits = count-fits z hi 0 v.0 (omega arith) in
    let fuel : n * page_size / page_size ≡ n = omega arith in
    let start : add64 (g * page_size) (page_size - 1) / page_size * page_size ≡ g * page_size =
      omega arith in
    let stop : add64 (g * page_size) (n * page_size) ≡ (g + n) * page_size = omega arith in
    rw (fuel, start, stop)
      (zone_reserve_from-IsReserved n z hi g (g + n) v low high (omega arith) (omega arith))
