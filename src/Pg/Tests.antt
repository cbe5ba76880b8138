-- ===== src/Pg/Tests.antt =====
-- A region with small and large pages, and the theorems on regions at concrete ones.
use nkos.Common.{arith, ◌+◌, ◌<◌, refl, All, some, ◌≡◌, ◌*◌, List, [], ◌∷◌, ℕ}
use nkos.Pg.{Mapping, small_size, level_of, pg_map_region_optimized}
use nkos.Pg.Translate.{translate, IsAligned, pg_map_region_optimized-translate}

abbrev mapping : ℕ → ℕ → ℕ → Mapping
mapping v p level = record { v = v; p = p; level = level }

three_mappings :
    pg_map_region_optimized 514 0x3ff000 0x1ff000 0x202000
    ≡ some (
        mapping 0x3ff000 0x1ff000 0
        ∷ mapping 0x400000 0x200000 1
        ∷ mapping 0x600000 0x400000 0
        ∷ [])
unfolding pg_map_region_optimized level_of
three_mappings = refl

pg_map_region_optimized-translate_example :
    (ms : List Mapping) × (pg_map_region_optimized 514 0x3ff000 0x1ff000 (small_size * 514)
      ≡ some ms)
    × All IsAligned ms
    × ((o : ℕ) → o < small_size * 514 → translate (0x3ff000 + o) ms ≡ some (0x1ff000 + o))
pg_map_region_optimized-translate_example =
    pg_map_region_optimized-translate 0x3ff000 0x1ff000 514 refl refl (omega arith) (omega arith)
