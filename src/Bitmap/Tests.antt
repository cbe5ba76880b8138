-- ===== src/Bitmap/Tests.antt =====
-- kernel/mm/palloc_bitmap.c at concrete inputs.
use nkos.Common.{◌^◌, ◌+◌, ◌<◌, ◌≤◌, ℕ, List, [], ◌∷◌, some, ◌≡◌, refl, arith}
use nkos.Palloc.{Answer, returns, max_order}
use nkos.Bitmap.{
  false, true, BitmapZone, zone_set, zone_get_busy, first_clear, find_pfn, set_blocks, set_below,
  set_above, claim, bitmap_get, bitmap_alloc, release, release_in, bitmap_free, clear_above,
  bitmap_zone_bgn, bitmap_zone_end, bitmap_zone_pfn,
}
use nkos.Bitmap.Setup.{bmsz, bitmap_setup_zone, bmap_bytes, zone_pages, zone_reserve}
use nkos.Bitmap.Shape.{first}
use nkos.Bitmap.Inside.{Holds}
use nkos.Bitmap.Above.{bit}
use nkos.Bitmap.Alloc.{IsZone, AreZones, IsTaken, claim-IsTaken}
use nkos.Bitmap.Zones.{IsAnswer, bitmap_alloc-IsAnswer}
use nkos.Bitmap.Undo.{IsFreeing, bitmap_free-IsFreeing, holds_block}
use nkos.Bitmap.RoundTrip.{release-IsTaken}
use nkos.Bitmap.NewZone.{bitmap_setup_zone-IsZone}
use nkos.Bitmap.Reserve.{IsReserved, zone_reserve-IsReserved}

-- 9 pages from the second page on, so that one block of order 3 and one of order 2 is whole.
abbrev small_zone : BitmapZone
small_zone = bitmap_setup_zone 0x100800 0xA000

small_zone-IsZone : IsZone small_zone 0x10A800
small_zone-IsZone = bitmap_setup_zone-IsZone 0x100800 0xA000 (omega arith)

counts :
    (bmsz 0x100800 0xA000 0 ≡ 9)
    × (bmsz 0x100800 0xA000 1 ≡ 4)
    × (bmsz 0x100800 0xA000 2 ≡ 1)
    × (bmsz 0x100800 0xA000 3 ≡ 0)
unfolding bmsz
counts = (refl, refl, refl, refl)

pages_for_zone : zone_pages 0x100000 0x40000000 ≡ 17
unfolding zone_pages bmap_bytes bmsz
pages_for_zone = refl

-- The addresses that three calls of `_alloc` give.
two_then_one : Answer (ℕ × List BitmapZone) → ℕ × ℕ × ℕ
two_then_one (returns r) = more (bitmap_alloc r.1 2) r.0
  where
    more : Answer (ℕ × List BitmapZone) → ℕ → ℕ × ℕ × ℕ
    more (returns r) a = last (bitmap_alloc r.1 0) a r.0
      where
        last : Answer (ℕ × List BitmapZone) → ℕ → ℕ → ℕ × ℕ × ℕ
        last (returns r) a b = (a, b, r.0)
        last other a b = (a, b, 1)
    more other a = (a, 1, 1)
two_then_one other = (1, 1, 1)

-- There is one block of order 2.
three_calls : two_then_one (bitmap_alloc (small_zone ∷ []) 2) ≡ (0x104000, 0, 0x101000)
unfolding bitmap_alloc bitmap_get find_pfn first_clear claim set_above set_below set_blocks zone_set
    zone_get_busy bitmap_zone_bgn bitmap_zone_end bitmap_zone_pfn bitmap_setup_zone bmsz bitmap_free
    release_in release clear_above two_then_one
three_calls = refl

has_block : 0 < small_zone.count 2
unfolding bitmap_setup_zone bmsz
has_block = omega arith

is_clear : small_zone.bits 2 0 ≡ false
unfolding bitmap_setup_zone
is_clear = refl

not_counted : small_zone.busy < 2 ^ 64
unfolding bitmap_setup_zone
not_counted = omega arith

starts : first small_zone 0 ≤ 0x102
unfolding bitmap_setup_zone
starts = omega arith

ends : 0x102 + 3 ≤ first small_zone 0 + small_zone.count 0
unfolding bitmap_setup_zone bmsz
ends = omega arith

-- The zone after the block of order 2 is taken.
abbrev taken_zone : BitmapZone
taken_zone =
    (claim-IsTaken small_zone 0x10A800 2 0 small_zone-IsZone (omega arith) has_block is_clear).0

taken_zone-IsTaken : IsTaken 2 0x104000 small_zone taken_zone 0x10A800
unfolding bitmap_setup_zone bmsz
taken_zone-IsTaken =
    (claim-IsTaken small_zone 0x10A800 2 0 small_zone-IsZone (omega arith) has_block is_clear).2

in_zone : Holds small_zone 0x10A800 2 0x41
unfolding bitmap_setup_zone
in_zone = (omega arith, omega arith)

is_taken : holds_block 2 0x41 taken_zone ≡ true → bit taken_zone taken_zone.bits 2 0x41 ≡ true
unfolding bitmap_setup_zone bmsz
is_taken h = taken_zone-IsTaken.now 2 0x41 (omega arith) in_zone

bitmap_alloc-IsAnswer_example :
    (addr : ℕ) × (ws : List BitmapZone) × (bitmap_alloc (small_zone ∷ []) 2 ≡ returns (addr, ws))
    × AreZones ws
    × IsAnswer 2 (small_zone ∷ []) addr ws
bitmap_alloc-IsAnswer_example =
    bitmap_alloc-IsAnswer (small_zone ∷ []) 2 ((0x10A800, small_zone-IsZone), tt) (omega arith)

release-IsTaken_example :
    (u : BitmapZone) × (release taken_zone 0x104000 2 ≡ some u)
    × ((i x : ℕ)
        → i < max_order
        → Holds small_zone 0x10A800 i x
        → bit u u.bits i x ≡ bit small_zone small_zone.bits i x)
    × (u.busy ≡ small_zone.busy)
release-IsTaken_example =
    release-IsTaken small_zone taken_zone 0x10A800 2 0x104000 small_zone-IsZone (omega arith)
      not_counted taken_zone-IsTaken

bitmap_free-IsFreeing_example :
    IsFreeing 2 0x41 (taken_zone ∷ []) (bitmap_free (taken_zone ∷ []) 0x104000 2)
bitmap_free-IsFreeing_example =
    bitmap_free-IsFreeing (taken_zone ∷ []) 2 0x104000 ((0x10A800, taken_zone-IsTaken.valid), tt)
      (omega arith) (is_taken, tt)

zone_reserve-IsReserved_example :
    IsReserved small_zone 0x10A800 0x102 0x105
      (zone_reserve 0 (small_zone ∷ []) (record { base = 0x102000; size = 0x3000 }))
zone_reserve-IsReserved_example =
    zone_reserve-IsReserved small_zone 0x10A800 0x102 3 small_zone-IsZone starts ends (omega arith)
