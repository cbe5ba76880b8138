-- ===== src/Palloc/Usable.antt =====
-- Theorems on the zones that the bootstrap allocator finds in the memory map.
use nkos.Common.{
  ◌%◌, refl, inr, ==_iff, arith, inl, ◌<◌, [], ◌||◌, ◌/◌, Bool-cases, ◌-◌, ◌*◌, ◌∷◌, ◌^◌, ◌&&◌, leb,
  false, All, ◌==◌, ◌≤◌, List, Bool, ◌≡◌, ◌+◌, ℕ,
}
use nkos.E820.{Region, live}
use nkos.Palloc.{Span, page_size, page_ceil}
use nkos.Palloc.Bootstrap.{zone_of, zones_of, bootstrap_zones}

-- Whether the page at p lies in the zone, and in the region.
abbrev pub in_zone : ℕ → Span → Bool
in_zone p z = leb z.base p && leb (p + page_size) (z.base + z.size)

abbrev pub in_usable : ℕ → Region → Bool
in_usable p r = r.kind == 1 && (leb r.base p && leb (p + page_size) (r.base + r.size))

abbrev pub any_of {ℓ} : {A : Type ℓ} → (A → Bool) → List A → Bool
any_of test [] = false
any_of test (a ∷ rest) = test a || any_of test rest

-- A usable region ends before the last page of the address space, and its first page boundary is not
-- behind its last one: it holds a page or lies on a boundary.
abbrev pub IsRoomy : Region → Type 0
IsRoomy r =
    r.kind ≡ 1
    → (r.base + r.size + page_size ≤ 2 ^ 64)
      × ((r.base + (page_size - 1)) / page_size ≤ (r.base + r.size) / page_size)

head-lem :
    (r : Region)
    → r.base + r.size + page_size ≤ 2 ^ 64
    → page_ceil r.base ≡ (r.base + 4095) / 4096 * 4096
head-lem r h = omega arith

zone_of-bounds :
    (r : Region)
    → r.base + r.size + page_size ≤ 2 ^ 64
    → (r.base + 4095) / 4096 ≤ (r.base + r.size) / 4096
    → ((zone_of r).base ≡ (r.base + 4095) / 4096 * 4096)
      × ((zone_of r).base + (zone_of r).size ≡ (r.base + r.size) / 4096 * 4096)
unfolding zone_of
zone_of-bounds r h k = (omega arith, omega arith)

zone_of-page :
    (k : ℕ) (r : Region)
    → r.base + r.size + page_size ≤ 2 ^ 64
    → (r.base + 4095) / 4096 ≤ (r.base + r.size) / 4096
    → in_zone (page_size * k) (zone_of r)
      ≡ (leb r.base (page_size * k) && leb (page_size * k + page_size) (r.base + r.size))
zone_of-page k r h le = let (b, e) = zone_of-bounds r h le in ground arith

zones_of-pages :
    (k : ℕ) (m : List Region)
    → All IsRoomy m
    → any_of (in_zone (page_size * k)) (zones_of m) ≡ any_of (in_usable (page_size * k)) m
unfolding zones_of
zones_of-pages k [] h = refl
zones_of-pages k (r ∷ m) h =
    let rest = zones_of-pages k m h.1 in
    elim (Bool-cases (r.kind == 1)) [
      | inl one ↦
          let (fit, room) = h.0 ((==_iff r.kind 1).0 one) in
          rw (one, zone_of-page k r fit room, rest) refl
      | inr other ↦ rw (other, rest) refl
    ]

-- The zone begins and ends at a page boundary.
abbrev pub ArePages : Span → Type 0
ArePages z = (z.base % page_size ≡ 0) × ((z.base + z.size) % page_size ≡ 0)

zones_of-ArePages : (m : List Region) → All IsRoomy m → All ArePages (zones_of m)
unfolding zones_of
zones_of-ArePages [] h = tt
zones_of-ArePages (r ∷ m) h =
    let rest = zones_of-ArePages m h.1 in
    elim (Bool-cases (r.kind == 1)) [
      | inl one ↦
          let (fit, room) = h.0 ((==_iff r.kind 1).0 one) in
          let (b, e) = zone_of-bounds r fit room in rw one ((omega arith, omega arith), rest)
      | inr other ↦ rw other rest
    ]

-- The zones that `_foreach_zone` reports begin and end at page boundaries and hold exactly the whole pages of the usable
-- regions, where every usable region is roomy.
pub bootstrap_zones-pages :
    (k : ℕ) (mem : List Region)
    → All IsRoomy (live mem)
    → (any_of (in_zone (page_size * k)) (bootstrap_zones mem)
        ≡ any_of (in_usable (page_size * k)) (live mem))
      × All ArePages (bootstrap_zones mem)
unfolding bootstrap_zones
bootstrap_zones-pages k mem h = (zones_of-pages k (live mem) h, zones_of-ArePages (live mem) h)

-- A usable region that lies inside one page, with the first page boundary behind the last one, is
-- reported as a zone of 2 ^ 64 - 4096 bytes.
pub zone_of-small :
    (r : Region)
    → r.base + r.size + page_size ≤ 2 ^ 64
    → (r.base + r.size) / page_size < (r.base + (page_size - 1)) / page_size
    → (zone_of r).size ≡ 2 ^ 64 - page_size
unfolding zone_of
zone_of-small r h k = omega arith
