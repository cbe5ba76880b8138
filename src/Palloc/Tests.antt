-- ===== src/Palloc/Tests.antt =====
-- A run from the memory map to the first pages, and the theorems on allocators at concrete inputs.
use nkos.Common.{
  zero, ◌&&◌, suc, ◌==◌, ◌≤◌, ap, ◌-◌, [], ◌^◌, ◌<◌, refl, if◌then◌else◌, ◌≡◌, ◌+◌, List, All, ◌∷◌,
  get_elem?, ◌*◌, arith, ℕ,
}
use nkos.E820.{Region, live}
use mathlib.Core.Option.{some, none-ne-some}
use nkos.Palloc.{Span, returns, page_size, palloc_get, palloc_init}
use nkos.Palloc.Bootstrap.{bootstrap, bootstrap_zones, zones_of, zone_of}
use nkos.Palloc.Contiguous.{
  Contiguous, contiguous, contiguous_data, contiguous_alloc, contiguous_pages, entry_of,
}
use nkos.Palloc.Chosen.{IsPool, palloc_init-IsPool}
use nkos.Palloc.Blocks.{get_all, get_all-pages, bytes, Chain}
use nkos.Palloc.Buddy.{regs, setup_in, setup_zone}
use nkos.Palloc.Usable.{
  in_zone, in_usable, any_of, IsRoomy, ArePages, bootstrap_zones-pages, zone_of-small,
}
use nkos.Palloc.Buddy.{
  Pages, buddy_init, reserve_all, reserve, reserve_from, setup_zones, setup_pieces, setup_piece,
  scan,
}
use nkos.Palloc.Runs.{runs_at, type_of}
use nkos.Palloc.Free.{zones_at, buddy_init-runs_at}

abbrev region : ℕ → ℕ → ℕ → Region
region b s k = record { base = b; size = s; kind = k }

abbrev span : ℕ → ℕ → Span
span b s = record { base = b; size = s }

-- A table that `e820_init` leaves.
abbrev map : List Region
map = region 0 0x1000 5 ∷ region 0x1000 0x9ec00 1 ∷ region 0x150000 0x7ea0000 1 ∷ []

map_zones : bootstrap_zones map ≡ span 0x1000 0x9e000 ∷ span 0x150000 0x7ea0000 ∷ []
unfolding bootstrap_zones zones_of zone_of live
map_zones = refl

first_pages :
    palloc_get
      (contiguous 0x100000)
      (record { zones = span 0x150000 0x7ea0000 ∷ []; zidx = 0; pbgn = 0x150000; pend = 0x151000 })
      1
    ≡ returns (
      0x151000,
      record { zones = span 0x150000 0x7ea0000 ∷ []; zidx = 0; pbgn = 0x150000; pend = 0x153000 },
    )
unfolding palloc_get contiguous_alloc
first_pages = refl

-- With no zone above the kernel, the first block is at the address -1.
no_zone :
    palloc_get
      (contiguous 0x100000)
      (record { zones = span 0x1000 0x9e000 ∷ []; zidx = 0; pbgn = 2 ^ 64 - 1; pend = 2 ^ 64 - 1 })
      0
    ≡ returns (
      2 ^ 64 - 1,
      record { zones = span 0x1000 0x9e000 ∷ []; zidx = 0; pbgn = 2 ^ 64 - 1; pend = 4095 },
    )
unfolding palloc_get contiguous_alloc
no_zone = refl

three_pieces :
    setup_zone regs 0x1000 0x180000000
    ≡ record { region = span 0 0x1000000; bgn = 0x1000; end = 0x1000000 }
      ∷ record { region = span 0x1000000 0xFF000000; bgn = 0x1000000; end = 0x100000000 }
      ∷ record { region = span 0x100000000 0x3FFF00000000; bgn = 0x100000000; end = 0x180000000 }
      ∷ []
unfolding setup_zone setup_in
three_pieces = refl

map-fits :
    (i : ℕ) (z : Span)
    → get_elem? (bootstrap_zones map) i ≡ some z
    → z.base + z.size + 2 ^ 22 < 2 ^ 64
unfolding bootstrap_zones zones_of zone_of live
map-fits zero z e = omega (arith, ap (λ o. (entry_of o).base) e, ap (λ o. (entry_of o).size) e)
map-fits (suc zero) z e =
    omega (arith, ap (λ o. (entry_of o).base) e, ap (λ o. (entry_of o).size) e)
map-fits (suc (suc i)) z e = absurd (none-ne-some z e)

palloc_init-IsPool_example :
    (d : Contiguous) × (z : Span) × (palloc_init (contiguous 0x100000) contiguous_data bootstrap map
      ≡ returns d)
    × IsPool z d
    × (0x100000 < z.base)
    × ((i : ℕ) (v : Span)
        → get_elem? (bootstrap_zones map) i ≡ some v
        → 0x100000 < v.base
        → z.base ≤ v.base)
    × (contiguous_pages d ≡ [])
unfolding bootstrap_zones zones_of zone_of live
palloc_init-IsPool_example =
    palloc_init-IsPool bootstrap map 0x100000 1 (span 0x150000 0x7ea0000) (omega arith) map-fits
      refl (omega arith)

abbrev pool : Contiguous
pool = record { zones = span 0x150000 0x4000 ∷ []; zidx = 0; pbgn = 0x150000; pend = 0x150000 }

pool-IsPool : IsPool (span 0x150000 0x4000) pool
pool-IsPool = record {
  zone = refl;
  start = refl;
  above = omega arith;
  grown = omega arith;
  inside = omega arith;
  fits = omega arith;
}

get_all-pages_example :
    (blocks : List Span) × (e : Contiguous) × (get_all 0 (0 ∷ 1 ∷ []) pool ≡ returns (blocks, e))
    × Chain 0x150000 blocks (0x150000 + bytes blocks)
    × (0x150000 + bytes blocks ≤ 0x150000 + 0x4000)
    × (contiguous_pages e ≡ (if bytes blocks == 0 then [] else span 0x150000 (bytes blocks) ∷ []))
get_all-pages_example =
    get_all-pages 0 (span 0x150000 0x4000) (0 ∷ 1 ∷ []) pool pool-IsPool refl (omega arith)

map-IsRoomy : All IsRoomy (live map)
unfolding live
map-IsRoomy = (λ e. omega arith, (λ e. omega arith, (λ e. omega arith, tt)))

bootstrap_zones-pages_example :
    (any_of (in_zone (page_size * 0x151)) (bootstrap_zones map)
      ≡ any_of (in_usable (page_size * 0x151)) (live map))
    × All ArePages (bootstrap_zones map)
bootstrap_zones-pages_example = bootstrap_zones-pages 0x151 map map-IsRoomy

zone_of-small_example : (zone_of (region 0x1100 0x100 1)).size ≡ 2 ^ 64 - page_size
zone_of-small_example = zone_of-small (region 0x1100 0x100 1) (omega arith) (omega arith)

abbrev fresh : Pages
fresh = λ frame. record { type = 0; order = 0 }

-- Eight pages, of which the third and fourth were given out.
two_runs :
    (buddy_init fresh (span 0x1000 0x8000 ∷ []) (span 0x3000 0x2000 ∷ [])).1
    ≡ record { b = 0x1000; e = 0x3000 } ∷ record { b = 0x5000; e = 0x9000 } ∷ []
unfolding buddy_init reserve_all reserve reserve_from setup_zones setup_pieces setup_piece scan
    setup_zone setup_in
two_runs = refl

buddy_init-runs_at_example :
    runs_at (page_size * 5) (buddy_init fresh (span 0x1000 0x8000 ∷ []) (span 0x3000 0x2000 ∷ [])).1
    ≡ (if type_of fresh (page_size * 5) == 0
          && zones_at (page_size * 5) (span 0x3000 0x2000 ∷ []) == 0
        then zones_at (page_size * 5) (span 0x1000 0x8000 ∷ [])
        else 0)
buddy_init-runs_at_example =
    buddy_init-runs_at fresh (span 0x1000 0x8000 ∷ []) (span 0x3000 0x2000 ∷ []) 5
      ((1, 9, omega arith, omega arith, refl, refl), tt)
      ((3, 5, omega arith, omega arith, refl, refl), tt)
