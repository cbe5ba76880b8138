-- ===== src/Zones/Tests.antt =====
-- Runs of `zone_init`, and its theorem at a concrete table.
use nkos.Common.{
  ◌/◌, leb, if◌then◌else◌, ◌%◌, true, ◌^◌, ◌<◌, ◌+◌, refl, [], some, get_elem?, ◌∷◌, List, ◌≡◌, ℕ,
}
use nkos.E820.{Region, live}
use nkos.Palloc.{returns}
use nkos.Zones.{Zone, max_addr, zone_add, add_zones, zone_init, zone_dma32}
use nkos.Zones.Cover.{zones_at, flags_at, in_region, zone_init-zones_at}

abbrev region : ℕ → ℕ → ℕ → Region
region b s k = record { base = b; size = s; kind = k }

abbrev map : List Region
map = region 0x1000 0x9ec00 1 ∷ region 0x150000 0x7ea0000 1 ∷ region 0xf0000000 0x1000 2 ∷ []

two_zones :
    zone_init map
    ≡ returns (
        record { bgn = 0x1000000; end = 0x7ff0000; flags = zone_dma32 }
        ∷ record { bgn = 0; end = 0xffffff; flags = 0x11 }
        ∷ [])
unfolding zone_init add_zones zone_add max_addr live
two_zones = refl

zone_init-zones_at_example :
    (zones : List Zone) × (zone_init map ≡ returns zones)
    × ((j : ℕ) (r : Region) (x : ℕ)
        → get_elem? (live map) j ≡ some r
        → r.kind ≡ 1
        → r.base + r.size < 2 ^ 64
        → in_region x r ≡ true
        → (zones_at x zones ≡ 1)
          × (flags_at x zones % 2 ≡ (if leb x 0xffffff then 1 else 0))
          × (0x1000000 < max_addr 0 (live map)
              → flags_at x zones / 16 ≡ (if leb x 0xffffffff then 1 else 0)))
zone_init-zones_at_example = zone_init-zones_at map
