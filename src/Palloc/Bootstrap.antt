-- ===== src/Palloc/Bootstrap.antt =====
-- kernel/mm/palloc_bootstrap.c: the allocator that only knows the memory map.
use nkos.Common.{none, some, List, [], ◌∷◌, ◌==◌, if◌then◌else◌, add64, sub64}
use nkos.E820.{Region, live}
use nkos.Palloc.{Span, panic, Vtbl, page_floor, page_ceil}

-- The zone of an entry: from its first page boundary to its last, with the difference in 64 bits.
unfoldable pub zone_of : Region → Span
zone_of p =
    let head = page_ceil p.base in
    let tail = page_floor (add64 p.size p.base) in record { base = head; size = sub64 tail head }

-- The loop over the entries that are used.
unfoldable pub zones_of : List Region → List Span
zones_of [] = []
zones_of (p ∷ m) = if p.kind == 1 then zone_of p ∷ zones_of m else zones_of m

-- `_foreach_zone`
unfoldable pub bootstrap_zones : List Region → List Span
bootstrap_zones mem = zones_of (live mem)

-- `_vtbl`: `_alloc` is ASSERT(0), `_foreach_page` calls nothing, and there is no `init` and no `free`.
abbrev pub bootstrap : Vtbl (List Region)
bootstrap = record {
  init = none;
  alloc = some (λ mem order. panic);
  free = none;
  foreach_zone = bootstrap_zones;
  foreach_page = λ mem. [];
}
