-- ===== src/Zones/Cover.antt =====
-- Theorems on `zone_init`: which zone holds an address of the memory.
use nkos.Common.{
  zero, suc, true, ◌^◌, ◌/◌, ◌%◌, add64, ◌==◌, get_elem?, ◌<◌, refl, inr, inl, ltb, Bool-cases, ◌+◌,
  arith, ◌&&◌, if◌then◌else◌, ◌≡◌, ◌≤◌, ◌∷◌, leb, [], List, Bool, ℕ,
}
use nkos.E820.{Region, live}
use nkos.Palloc.{returns}
use nkos.Zones.{Zone, max_addr, zone_add, add_zones, zone_init, zone_dma, zone_dma32}
use mathlib.Core.Option.{some, none-ne-some, some-injective}

-- Both ends belong to a zone.
abbrev pub in_zone : ℕ → Zone → Bool
in_zone x z = leb z.bgn x && leb x z.end

abbrev pub in_region : ℕ → Region → Bool
in_region x r = leb r.base x && ltb x (r.base + r.size)

-- How many zones hold the address.
unfoldable pub zones_at : ℕ → List Zone → ℕ
zones_at x [] = 0
zones_at x (z ∷ zs) = (if in_zone x z then 1 else 0) + zones_at x zs

-- The flags of the first zone that holds the address, 0 if there is none.
unfoldable pub flags_at : ℕ → List Zone → ℕ
flags_at x [] = 0
flags_at x (z ∷ zs) = if in_zone x z then z.flags else flags_at x zs

-- The highest end so far, with one entry more.
abbrev longer : ℕ → Region → ℕ
longer a p =
    if p.kind == 1 then (if ltb a (add64 p.base p.size) then add64 p.base p.size else a) else a

max_addr-le : (a : ℕ) (m : List Region) → a ≤ max_addr a m
unfolding max_addr
max_addr-le a [] = omega arith
max_addr-le a (p ∷ m) =
    let rest = max_addr-le (longer a p) m in
    let grown : a ≤ longer a p = ground arith in omega arith

max_addr-ends :
    (a j : ℕ) (m : List Region) (r : Region)
    → get_elem? m j ≡ some r
    → r.kind ≡ 1
    → r.base + r.size < 2 ^ 64
    → r.base + r.size ≤ max_addr a m
unfolding max_addr
max_addr-ends a j [] r e k fit = absurd (none-ne-some r e)
max_addr-ends a zero (p ∷ m) r e k fit =
    let same : p ≡ r = some-injective p r e in
    let grown : r.base + r.size ≤ longer a r = ground arith in
    let rest = max_addr-le (longer a r) m in rw same (omega arith)
max_addr-ends a (suc j) (p ∷ m) r e k fit = max_addr-ends (longer a p) j m r e k fit

add_zones-zones_at :
    (a : ℕ)
    → (zones : List Zone) × (add_zones a [] ≡ returns zones)
      × ((x : ℕ) → x ≤ a → zones_at x zones ≡ 1)
      × ((x : ℕ)
          → x < a
          → (flags_at x zones % 2 ≡ (if leb x 0xffffff then 1 else 0))
            × (flags_at x zones / 16 ≡ (if leb x 0xffffffff && ltb 0x1000000 a then 1 else 0)))
unfolding add_zones zone_add zones_at flags_at
add_zones-zones_at a = elim (Bool-cases (ltb 0xffffffff a)) [
  | inl high ↦ (
    record { bgn = 0x100000000; end = a; flags = 0 }
        ∷ record { bgn = 0x1000000; end = 0xffffffff; flags = zone_dma32 }
        ∷ record { bgn = 0; end = 0xffffff; flags = 0x11 }
        ∷ [],
    rw high refl,
    λ x h. ground arith,
    λ x h. ground arith,
  )
  | inr low ↦ rw low (elim (Bool-cases (ltb 0x1000000 a)) [
    | inl middle ↦ (
      record { bgn = 0x1000000; end = a; flags = zone_dma32 }
          ∷ record { bgn = 0; end = 0xffffff; flags = 0x11 }
          ∷ [],
      rw middle refl,
      λ x h. ground arith,
      λ x h. ground arith,
    )
    | inr small ↦ (
      record { bgn = 0; end = a; flags = zone_dma } ∷ [],
      rw small refl,
      λ x h. ground arith,
      λ x h. ground arith,
    )
  ])
]

-- `zone_init` never fails its assertion. Every address of a usable entry that does not reach the end
-- of the address space is in exactly one zone; this zone has ZONE_DMA exactly below 16 MB, and, on a
-- machine with more memory than that, ZONE_DMA32 exactly below 4 GB.
pub zone_init-zones_at :
    (mem : List Region)
    → (zones : List Zone) × (zone_init mem ≡ returns zones)
      × ((j : ℕ) (r : Region) (x : ℕ)
          → get_elem? (live mem) j ≡ some r
          → r.kind ≡ 1
          → r.base + r.size < 2 ^ 64
          → in_region x r ≡ true
          → (zones_at x zones ≡ 1)
            × (flags_at x zones % 2 ≡ (if leb x 0xffffff then 1 else 0))
            × (0x1000000 < max_addr 0 (live mem)
                → flags_at x zones / 16 ≡ (if leb x 0xffffffff then 1 else 0)))
unfolding zone_init
zone_init-zones_at mem =
    let (zones, e, one, flag) = add_zones-zones_at (max_addr 0 (live mem)) in
    (
      zones,
      e,
      λ j r x f k fit at.
          let end = max_addr-ends 0 j (live mem) r f k fit in
          let below : x < max_addr 0 (live mem) = ground arith in
          (one x (omega arith), (flag x below).0, λ more. ground (arith, flag x below)),
    )
