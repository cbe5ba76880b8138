-- ===== src/Pg.antt =====
-- kernel/mm/pg.c: how a region is divided into mappings of 4 kB and 2 MB.
mod Translate
mod Tests
use nkos.Common.{
  ℕ, zero, suc, ◌+◌, ◌-◌, ◌*◌, ◌%◌, Option, none, some, List, [], ◌∷◌, ◌&&◌, ◌==◌, leb, ltb,
  if◌then◌else◌, add64, sub64,
}
use nkos.Common.Memory.{◌>>=◌}

-- A call of `_pg_map`: the addresses, and the level, 0 for a small and 1 for a large page.
pub record Mapping : Type 0 where
  pub v : ℕ
  pub p : ℕ
  pub level : ℕ

abbrev pub small_size : ℕ
small_size = 0x1000

abbrev pub large_size : ℕ
large_size = 0x200000

-- The level of the next mapping; a & 0x1fffff is the rest of the division by 2 MB.
unfoldable pub level_of : ℕ → ℕ → ℕ → ℕ
level_of v p s = if p % large_size == 0 && (v % large_size == 0 && leb large_size s) then 1 else 0

abbrev pub size_of : ℕ → ℕ
size_of level = if level == 1 then large_size else small_size

-- The loop of `pg_map_region_optimized`, with fuel; none says that it is not at its end.
unfoldable pub pg_map_region_optimized : ℕ → ℕ → ℕ → ℕ → Option (List Mapping)
pg_map_region_optimized zero v p s = if s == 0 then some [] else none
pg_map_region_optimized (suc k) v p s =
    let level = level_of v p s in
    let ps = size_of level in
    let rest = pg_map_region_optimized k (add64 v ps) (add64 p ps) (sub64 s ps) in
    if s == 0 then some [] else (rest >>= λ ms. some (record { v = v; p = p; level = level } ∷ ms))

-- The loop of `pg_map_region`.
unfoldable pub pg_map_region : ℕ → ℕ → ℕ → ℕ → Option (List Mapping)
pg_map_region zero v p s = if s == 0 then some [] else none
pg_map_region (suc k) v p s =
    let rest = pg_map_region k (add64 v small_size) (add64 p small_size) (sub64 s small_size) in
    if s == 0 then some [] else (rest >>= λ ms. some (record { v = v; p = p; level = 0 } ∷ ms))
