-- ===== src/Zones.antt =====
-- kernel/mm/zone.c: the memory zones for devices with short addresses, from the end of the memory.
mod Cover
mod Tests
use nkos.Common.{ℕ, suc, ◌+◌, ◌^◌, List, [], ◌∷◌, ◌++◌, ◌==◌, ltb, length, if◌then◌else◌, add64}
use nkos.E820.{Region, live}
use nkos.Palloc.{Answer, panic, returns, ◌>>=◌}
use Prim.Native.Nat.{bit_or}

-- struct zone_t, without its name
pub record Zone : Type 0 where
  pub bgn : ℕ
  pub end : ℕ
  pub flags : ℕ

-- MAX_ZONES
abbrev pub max_zones : ℕ
max_zones = 3

-- ZONE_DMA
abbrev pub zone_dma : ℕ
zone_dma = 0x01

-- ZONE_DMA32
abbrev pub zone_dma32 : ℕ
zone_dma32 = 0x10

-- The loop of `zone_init`: the highest end of a usable entry.
unfoldable pub max_addr : ℕ → List Region → ℕ
max_addr a [] = a
max_addr a (p ∷ m) =
    max_addr
      (if p.kind == 1 then (if ltb a (add64 p.base p.size) then add64 p.base p.size else a) else a)
      m

-- `_zone_add`, on the first _zcnt zones.
unfoldable pub zone_add : ℕ → ℕ → ℕ → List Zone → Answer (List Zone)
zone_add bgn end flags zones =
    if ltb (length zones) max_zones
    then returns (zones ++ record { bgn = bgn; end = end; flags = flags } ∷ [])
    else panic

-- The calls of `_zone_add` for the end of the memory.
unfoldable pub add_zones : ℕ → List Zone → Answer (List Zone)
unfolding zone_add
add_zones maxaddr zones =
    if ltb 0x00000000ffffffff maxaddr
    then (zone_add 0x0000000100000000 maxaddr 0 zones
        >>= zone_add 0x0000000001000000 0x00000000ffffffff zone_dma32
        >>= zone_add 0x0000000000000000 0x0000000000ffffff (bit_or zone_dma32 zone_dma))
    else if ltb 0x0000000001000000 maxaddr
    then (zone_add 0x0000000001000000 maxaddr zone_dma32 zones
        >>= zone_add 0x0000000000000000 0x0000000000ffffff (bit_or zone_dma32 zone_dma))
    else zone_add 0x0000000000000000 maxaddr zone_dma zones

-- `zone_init`, with _zcnt = 0 at the start.
unfoldable pub zone_init : List Region → Answer (List Zone)
zone_init mem = add_zones (max_addr 0 (live mem)) []
