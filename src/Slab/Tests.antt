-- ===== src/Slab/Tests.antt =====
-- kernel/mm/slab.c at concrete inputs.
use nkos.Common.{◌<◌, inl, ◌⊎◌, inr, ◌*◌, ◌∷◌, true, refl, ◌+◌, ◌≡◌, [], ℕ, arith}
use nkos.Palloc.{Span, Answer, returns, panic, page_size, palloc_get, ◌>>=◌}
use nkos.Palloc.Contiguous.{Contiguous, contiguous, contiguous_alloc}
use nkos.Palloc.Chosen.{IsPool}
use nkos.Palloc.Blocks.{palloc_get-contiguous, IsPool-grow}
use nkos.Slab.{
  Slab, SlabCache, slab_cache_init, coloured, small_fit, large_fit, slab_align, slab_header_size,
  grow_small, objects, take_object, take_first, take_busy, take_free, is_out,
}
use nkos.Slab.Calls.{Sa, slab_allocate, slab_grow_small}
use nkos.Slab.Layout.{IsFitting}
use nkos.Slab.Page.{IsSlabOn, IsNextColour, grow_small-IsSlabOn}
use nkos.Slab.Allocate.{IsPalloc, IsAllocated, slab_allocate-IsAllocated}

-- The cache of `struct buf_t`, with lines of 64 bytes.
abbrev buf_cache : SlabCache
buf_cache = record {
  slab_free = [];
  slab_busy = [];
  slab_full = [];
  osize = 24;
  nobjs = 83;
  order = 0;
  align = 8;
  offset = 64;
  colors = 2;
  nxtcol = 0;
  bsy = 0;
  cnt = 0;
}

buf_cache_init : slab_cache_init 64 7 9 24 8 ≡ returns buf_cache
unfolding slab_cache_init coloured small_fit large_fit slab_align slab_header_size
buf_cache_init = refl

-- One object of 4096 bytes to a slab.
order_and_number : Answer SlabCache → ℕ × ℕ
order_and_number (returns c) = (c.order, c.nobjs)
order_and_number other = (0, 0)

large_cache_init : order_and_number (slab_cache_init 64 7 9 4096 8) ≡ (0, 1)
unfolding slab_cache_init coloured small_fit large_fit slab_align slab_header_size order_and_number
large_cache_init = refl

buf_cache-IsFitting : IsFitting buf_cache 3
unfolding slab_header_size
buf_cache-IsFitting = (
  omega arith,
  omega arith,
  refl,
  refl,
  omega arith,
  (3, refl),
  (8, refl),
  omega arith,
  omega arith,
  omega arith,
  omega arith,
  omega arith,
)

-- The contiguous allocator with three pages left.
abbrev zone : Span
zone = record { base = 0x100000; size = 0x4000 }

abbrev pool : Contiguous
pool = record { zones = zone ∷ []; zidx = 0; pbgn = 0x100000; pend = 0x100000 }

abbrev get_page : Contiguous → ℕ → Answer (ℕ × Contiguous)
get_page = palloc_get (contiguous 0)

-- Its free part begins at a page.
abbrev HasPool : Contiguous → Type 0
HasPool d = IsPool zone d × ((g : ℕ) × (d.pend ≡ g * page_size))

pool-HasPool : HasPool pool
pool-HasPool = (
  record {
    zone = refl;
    start = refl;
    above = omega arith;
    grown = omega arith;
    inside = omega arith;
    fits = omega arith;
  },
  (0x100, refl),
)

get_page-IsPalloc : IsPalloc get_page HasPool
get_page-IsPalloc d (is, (g, e)) = elim (palloc_get-contiguous 0 0 zone d is (omega arith)) [
  | inl (room, got) ↦
      let above = is.grown in
      let start = is.start in
      let positive : 0 < g = omega arith in
      (
        d.pend,
        record d { pend = d.pend + page_size },
        got,
        (IsPool-grow zone d page_size is room, (g + 1, omega arith)),
        inr (g, e, positive, omega arith),
      )
  | inr (full, got) ↦ (0, d, got, (is, (g, e)), inl refl)
]

abbrev buf_sa : Sa Contiguous
buf_sa = record { allocator = pool; caches = λ i. buf_cache }

object_of : Answer (ℕ × Sa Contiguous) → ℕ
object_of (returns r) = r.0
object_of other = 0

-- The first object is the last one on the page, and the next one lies before it.
first_objects :
    (object_of (slab_allocate 1 get_page buf_sa 2) ≡ 0xffff800000100000 + 2040 + 82 * 24)
    × (object_of (slab_allocate 1 get_page buf_sa 2 >>= λ r. slab_allocate 1 get_page r.1 2)
        ≡ 0xffff800000100000 + 2040 + 81 * 24)
unfolding slab_allocate slab_grow_small grow_small objects take_object take_first take_busy
    take_free slab_header_size object_of palloc_get contiguous_alloc
first_objects = (refl, refl)

grow_small-IsSlabOn_example :
    (s : Slab) × ((grow_small buf_cache 0x100000).slab_free ≡ s ∷ [])
    × IsSlabOn buf_cache 3 0xffff800000100000 s
    × IsNextColour buf_cache (grow_small buf_cache 0x100000)
    × IsFitting (grow_small buf_cache 0x100000) 3
grow_small-IsSlabOn_example =
    grow_small-IsSlabOn buf_cache 3 0x100 buf_cache-IsFitting (omega arith)

slab_allocate-IsAllocated_example :
    ((slab_allocate 1 get_page buf_sa 2 ≡ panic)
      × (is_out buf_cache ≡ true)
      × ((e : Contiguous) × (get_page pool 0 ≡ returns (0, e))))
    ⊎ IsAllocated get_page HasPool buf_sa 2 3 (slab_allocate 1 get_page buf_sa 2)
slab_allocate-IsAllocated_example =
    slab_allocate-IsAllocated get_page HasPool 0 buf_sa 2 3 get_page-IsPalloc pool-HasPool
      buf_cache-IsFitting (tt, tt, tt)
