-- ===== src/Bitmap.antt =====
-- kernel/mm/palloc_bitmap.c: for each order a bitmap of the blocks of a zone, where a set bit is a busy
-- block.
--
-- The words of a bitmap are a function from the number of the bit, of which the first
-- 64 * bmap_words exist; `none` is an access to a word behind them.
mod Shape
mod Inside
mod Below
mod Above
mod Touches
mod Claim
mod Alloc
mod Zones
mod Clear
mod Release
mod Free
mod Undo
mod RoundTrip
mod NewZone
mod Reserve
mod Find
mod Setup
mod Tests
use nkos.Common.{
  ℕ, zero, suc, ◌+◌, ◌-◌, ◌*◌, ◌/◌, ◌%◌, ◌^◌, Bool, true, false, ◌&&◌, ◌||◌, not, Option, none,
  some, List, [], ◌∷◌, ◌++◌, ltb, leb, ◌==◌, if◌then◌else◌, add64, sub64, u64_mod,
}
use nkos.Common.Memory.{◌>>=◌}
use nkos.Palloc.{Answer, panic, undefined, returns, Span, Vtbl, page_size, page_log_size, max_order}

-- struct zone_t, without the links of the list: `count` and `bits` are bmap.
pub record BitmapZone : Type 0 where
  pub base : ℕ
  pub count : ℕ → ℕ
  pub bits : ℕ → ℕ → Bool
  pub busy : ℕ

-- 1ULL << (PAGE_LOG_SIZE + i)
abbrev pub block : ℕ → ℕ
block i = 2 ^ (page_log_size + i)

-- `_zone_bgn`
unfoldable pub bitmap_zone_bgn : BitmapZone → ℕ → ℕ
bitmap_zone_bgn z i = add64 z.base (block i - 1) / block i * block i

-- `_zone_end`
unfoldable pub bitmap_zone_end : BitmapZone → ℕ → ℕ
unfolding bitmap_zone_bgn
bitmap_zone_end z i = add64 (bitmap_zone_bgn z i) (z.count i * block i % u64_mod)

-- `_zone_pfn`
unfoldable pub bitmap_zone_pfn : BitmapZone → ℕ → ℕ → ℕ
unfolding bitmap_zone_bgn
bitmap_zone_pfn z addr i = sub64 addr (bitmap_zone_bgn z i) / block i

-- ((c + 63ULL) & ~63ULL) >> 6
abbrev pub bmap_words : ℕ → ℕ
bmap_words c = add64 c 63 / 64

abbrev pub set_bit : (ℕ → ℕ → Bool) → ℕ → ℕ → Bool → ℕ → ℕ → Bool
set_bit bits order pfn v = λ j n. if j == order && n == pfn then v else bits j n

-- `_zone_set_busy` for true and `_zone_set_free` for false.
unfoldable pub zone_set : Bool → BitmapZone → ℕ → ℕ → Option BitmapZone
unfolding bitmap_zone_pfn
zone_set v z p order =
    let pfn = bitmap_zone_pfn z p order in
    if ltb (pfn / 64) (bmap_words (z.count order))
    then some (record z { bits = set_bit z.bits order pfn v })
    else none

-- `_zone_get_busy`
unfoldable pub zone_get_busy : BitmapZone → ℕ → ℕ → Option Bool
unfolding bitmap_zone_pfn
zone_get_busy z p order =
    let pfn = bitmap_zone_pfn z p order in
    if ltb (pfn / 64) (bmap_words (z.count order)) then some (z.bits order pfn) else none

-- The first clear one of the k bits from n on: `bscan_forward` of the complement of a word.
unfoldable pub first_clear : (ℕ → Bool) → ℕ → ℕ → Option ℕ
first_clear bits n zero = none
first_clear bits n (suc k) =
    let rest = first_clear bits (suc n) k in if bits n then rest else some n

abbrev pub below : ℕ → Option ℕ → Option ℕ
below count none = none
below count (some pfn) = if leb count pfn then none else some pfn

-- The loop of `_alloc` over the k words from word i on, up to the `break`: the block to be taken.
unfoldable pub find_pfn : (ℕ → Bool) → ℕ → ℕ → ℕ → Option ℕ
unfolding first_clear
find_pfn bits count i zero = none
find_pfn bits count i (suc k) = elim (first_clear bits (64 * i) 64) [
  | none ↦ find_pfn bits count (suc i) k
  | some pfn ↦ below count (some pfn)
]

-- The loop over the blocks of order j from b to e, with fuel; none if that is used up.
unfoldable pub set_blocks : ℕ → Bool → BitmapZone → ℕ → ℕ → ℕ → Option BitmapZone
unfolding zone_set
set_blocks zero v z b e j = if ltb b e then none else some z
set_blocks (suc k) v z b e j =
    if ltb b e then (zone_set v z b j >>= λ w. set_blocks k v w (add64 b (block j)) e j) else some z

-- The loop over the k orders from j on, below the order of the block.
unfoldable pub set_below : ℕ → Bool → BitmapZone → ℕ → ℕ → ℕ → Option BitmapZone
unfolding set_blocks
set_below zero v z addr order j = some z
set_below (suc k) v z addr order j =
    set_blocks (2 ^ (order - j)) v z addr (add64 addr (block order)) j >>= λ w.
    set_below k v w addr order (suc j)

-- The loop of `_alloc` over the k orders from j on, above the order of the block.
unfoldable pub set_above : ℕ → BitmapZone → ℕ → ℕ → Option BitmapZone
unfolding zone_set zone_get_busy bitmap_zone_bgn bitmap_zone_end
set_above zero z addr j = some z
set_above (suc k) z addr j =
    let b = addr / block j * block j in
    if z.count j == 0 || (ltb b (bitmap_zone_bgn z j) || leb (bitmap_zone_end z j) b)
    then some z
    else (zone_get_busy z b j >>= λ busy.
        if busy then some z else (zone_set true z b j >>= λ w. set_above k w addr (suc j)))

-- The body of the loop of `_alloc` once a block is found.
unfoldable pub claim : BitmapZone → ℕ → ℕ → Option (ℕ × BitmapZone)
unfolding bitmap_zone_bgn zone_set set_below set_above
claim z order pfn =
    let addr = add64 (bitmap_zone_bgn z order) (pfn * block order % u64_mod) in
    zone_set true z addr order
    >>= (λ w. set_below order true w addr order 0)
    >>= (λ w. set_above (max_order - suc order) w addr (suc order))
    >>= (λ w. some (addr, record w { busy = add64 w.busy (2 ^ order) }))

-- `_alloc` on the list of the zones, for an order below MAX_ORDER: 0 if no block is found.
unfoldable pub bitmap_get : List BitmapZone → ℕ → Option (ℕ × List BitmapZone)
unfolding find_pfn claim
bitmap_get [] order = some (0, [])
bitmap_get (z ∷ zs) order =
    elim (find_pfn (z.bits order) (z.count order) 0 (bmap_words (z.count order))) [
      | none ↦ bitmap_get zs order >>= λ r. some (r.0, z ∷ r.1)
      | some pfn ↦ claim z order pfn >>= λ r. some (r.0, r.1 ∷ zs)
    ]

-- The loop of `_free` over the k orders from j on, above the order of the block.
unfoldable pub clear_above : ℕ → BitmapZone → ℕ → ℕ → Option BitmapZone
unfolding zone_set zone_get_busy bitmap_zone_bgn bitmap_zone_end
clear_above zero z addr j = some z
clear_above (suc k) z addr j =
    let b0 = addr / block j * block j in
    let b1 = add64 b0 (block (j - 1)) in
    if z.count j == 0 || (ltb b0 (bitmap_zone_bgn z j) || leb (bitmap_zone_end z j) b0)
    then some z
    else (zone_get_busy z b0 (j - 1) >>= λ left.
        if left
        then some z
        else (zone_get_busy z b1 (j - 1) >>= λ right.
            if right
            then some z
            else (zone_set false z b0 j >>= λ w. clear_above k w addr (suc j))))

-- The body of the loop of `_free` in the right zone.
unfoldable pub release : BitmapZone → ℕ → ℕ → Option BitmapZone
unfolding zone_set set_below clear_above
release z addr order =
    zone_set false z addr order
    >>= (λ w. set_below order false w addr order 0)
    >>= (λ w. clear_above (max_order - suc order) w addr (suc order))
    >>= (λ w. some (record w { busy = sub64 w.busy (2 ^ order) }))

-- The loop of `_free` over the zones; without a zone it fails an assertion.
unfoldable pub release_in : List BitmapZone → ℕ → ℕ → Answer (List BitmapZone)
unfolding release bitmap_zone_bgn bitmap_zone_end
release_in [] addr order = panic
release_in (z ∷ zs) addr order =
    let others = release_in zs addr order in
    if z.count order == 0
      || (ltb addr (bitmap_zone_bgn z order) || leb (bitmap_zone_end z order) addr)
    then keep_zone z others
    else first_zone zs (release z addr order)
  where
    keep_zone : BitmapZone → Answer (List BitmapZone) → Answer (List BitmapZone)
    keep_zone z panic = panic
    keep_zone z undefined = undefined
    keep_zone z (returns zs) = returns (z ∷ zs)

    first_zone : List BitmapZone → Option BitmapZone → Answer (List BitmapZone)
    first_zone zs none = undefined
    first_zone zs (some z) = returns (z ∷ zs)

-- `_free`
unfoldable pub bitmap_free : List BitmapZone → ℕ → ℕ → Answer (List BitmapZone)
unfolding release_in
bitmap_free zs addr order =
    if leb max_order order
    then undefined
    else if addr % block order == 0
    then release_in zs addr order
    else panic

abbrev defined : Option (ℕ × List BitmapZone) → Answer (ℕ × List BitmapZone)
defined none = undefined
defined (some r) = returns r

-- `_alloc`
unfoldable pub bitmap_alloc : List BitmapZone → ℕ → Answer (ℕ × List BitmapZone)
unfolding bitmap_get
bitmap_alloc zs order = if leb max_order order then undefined else defined (bitmap_get zs order)
