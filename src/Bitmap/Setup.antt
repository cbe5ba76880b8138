-- ===== src/Bitmap/Setup.antt =====
-- kernel/mm/palloc_bitmap.c: how the allocator is set up from the zones and the pages of the one before.
use nkos.Common.{◌||◌, zero, ◌==◌, none, [], ◌++◌, ◌*◌, if◌then◌else◌, ◌-◌, ◌/◌, ◌+◌, ℕ}
use nkos.Common.Memory.{◌>>=◌}
use nkos.Bitmap.{
  true, false, leb, ltb, [], ◌∷◌, some, suc, Option, add64, List, BitmapZone, block, zone_set,
  bitmap_zone_bgn, bitmap_zone_end, bitmap_alloc, bitmap_free,
}
use nkos.Palloc.{Answer, undefined, returns, Span, Vtbl, page_size, max_order}

-- The blocks of order i that `_setup_zone` finds between base and base + size.
abbrev pub whole_blocks : ℕ → ℕ → ℕ → ℕ
whole_blocks base size i =
    let b = add64 base (block i - 1) / block i * block i in
    let e = add64 base size / block i * block i in if leb e b then 0 else (e - b) / block i

-- bmsz: the orders from the first one without a block on stay 0.
unfoldable pub bmsz : ℕ → ℕ → ℕ → ℕ
bmsz base size zero = whole_blocks base size 0
bmsz base size (suc i) = if bmsz base size i == 0 then 0 else whole_blocks base size (suc i)

-- The bytes of the bitmaps of the first k orders.
unfoldable pub bmap_bytes : (ℕ → ℕ) → ℕ → ℕ
bmap_bytes count zero = 0
bmap_bytes count (suc k) = bmap_bytes count k + (count k + 63) / 64 * 8

-- (sizeof(struct zone_t) + 7ULL) & ~7ULL: three pointers or addresses, `busy`, and 11 pairs of words.
abbrev pub zone_bytes : ℕ
zone_bytes = 208

-- The pages that `_setup_zone` maps for the structure and its bitmaps.
unfoldable pub zone_pages : ℕ → ℕ → ℕ
unfolding bmsz bmap_bytes
zone_pages base size =
    (zone_bytes + bmap_bytes (bmsz base size) max_order + page_size - 1) / page_size

-- `_setup_zone`: the zone that it adds behind the others, its memory cleared.
unfoldable pub bitmap_setup_zone : ℕ → ℕ → BitmapZone
unfolding bmsz
bitmap_setup_zone base size = record {
  base = add64 base (page_size - 1) / page_size * page_size;
  count = λ i. if ltb i max_order then bmsz base size i else 0;
  bits = λ i n. false;
  busy = 0;
}

-- The loop of `_page_reserve` over the k orders from i on.
unfoldable pub reserve_orders : ℕ → BitmapZone → ℕ → ℕ → Option BitmapZone
unfolding zone_set bitmap_zone_bgn bitmap_zone_end
reserve_orders zero z addr i = some z
reserve_orders (suc k) z addr i =
    let p = addr / block i * block i in
    if ltb p (bitmap_zone_bgn z i) || leb (bitmap_zone_end z i) p
    then some z
    else (zone_set true z p i >>= λ w. reserve_orders k w addr (suc i))

-- `_page_reserve`; the loop does not set its variable at the start, which is the parameter i.
unfoldable pub page_reserve : ℕ → List BitmapZone → ℕ → Option (List BitmapZone)
unfolding reserve_orders bitmap_zone_bgn bitmap_zone_end
page_reserve i [] addr = some []
page_reserve i (z ∷ zs) addr =
    let others = page_reserve i zs addr in
    if ltb addr (bitmap_zone_bgn z 0) || leb (bitmap_zone_end z 0) (add64 addr page_size)
    then (others >>= λ ws. some (z ∷ ws))
    else (reserve_orders (max_order - i) z addr i >>= λ w.
        some (record w { busy = add64 w.busy 1 } ∷ zs))

-- The loop of `__zone_reserve` from p on, with fuel; none if that is used up.
unfoldable pub zone_reserve_from : ℕ → ℕ → List BitmapZone → ℕ → ℕ → Option (List BitmapZone)
unfolding page_reserve
zone_reserve_from zero i zs p end = if ltb (add64 p page_size) end then none else some zs
zone_reserve_from (suc k) i zs p end =
    if ltb (add64 p page_size) end
    then (page_reserve i zs p >>= λ ws. zone_reserve_from k i ws (add64 p page_size) end)
    else some zs

-- `__zone_reserve`
unfoldable pub zone_reserve : ℕ → List BitmapZone → Span → Option (List BitmapZone)
unfolding zone_reserve_from
zone_reserve i zs r =
    zone_reserve_from (r.size / page_size) i zs
      (add64 r.base (page_size - 1) / page_size * page_size) (add64 r.base r.size)

-- The two loops of `_init`, over the zones and the pages of the old allocator.
abbrev pub setup_all : List BitmapZone → List Span → List BitmapZone
setup_all zs [] = zs
setup_all zs (r ∷ rs) = setup_all (zs ++ bitmap_setup_zone r.base r.size ∷ []) rs

abbrev pub zone_reserve_all : ℕ → List BitmapZone → List Span → Option (List BitmapZone)
zone_reserve_all i zs [] = some zs
zone_reserve_all i zs (r ∷ rs) = zone_reserve i zs r >>= λ ws. zone_reserve_all i ws rs

abbrev inited : Option (List BitmapZone) → Answer (List BitmapZone)
inited none = undefined
inited (some zs) = returns zs

-- `_init`; i is what the variable of `_page_reserve` holds.
unfoldable pub bitmap_init : ℕ → List BitmapZone → List Span → List Span → Answer (List BitmapZone)
bitmap_init i zs zones pages = inited (zone_reserve_all i (setup_all zs zones) pages)

-- `_vtbl`: the two functions that enumerate make no call.
abbrev pub bitmap : ℕ → Vtbl (List BitmapZone)
bitmap i = record {
  init = some (bitmap_init i);
  alloc = some bitmap_alloc;
  free = some bitmap_free;
  foreach_zone = λ zs. [];
  foreach_page = λ zs. [];
}

-- The totals of `_debug`, in pages: all, and those given out.
unfoldable pub debug_totals : List BitmapZone → ℕ × ℕ
debug_totals [] = (0, 0)
debug_totals (z ∷ zs) =
    let rest = debug_totals zs in (add64 (z.count 0) rest.0, add64 z.busy rest.1)
