-- ===== src/Slab/Calls.antt =====
-- kernel/mm/slab.c: the calls that get pages, or objects of other caches.
use nkos.Common.{[], ◌∷◌, ◌%◌, ◌*◌, add64, ◌==◌, ltb, zero, List, if◌then◌else◌, suc, ℕ}
use nkos.Palloc.{Answer, panic, undefined, returns, page_size, ◌>>=◌}
use nkos.Slab.{
  SlabCache, cycle_color, insert_free, pma2vma, grow_small, take_object, is_out, slab_cache_init,
  cache_bytes, slab_bytes, buf_bytes, u32_mod,
}

-- `_sa`: the allocator of pages, and the caches by number; 1 is cache_slab and 2 cache_buf.
pub record Sa (D : Type 0) : Type 0 where
  pub allocator : D
  pub caches : ℕ → SlabCache

abbrev pub cache_slab : ℕ
cache_slab = 1

abbrev pub cache_buf : ℕ
cache_buf = 2

module _ {D : Type 0} where
  abbrev pub set_cache : Sa D → ℕ → SlabCache → Sa D
  set_cache sa c v = record sa { caches = λ i. if i == c then v else sa.caches i }

  -- `_slab_grow_small`
  unfoldable pub slab_grow_small : (D → ℕ → Answer (ℕ × D)) → Sa D → ℕ → Answer (Sa D)
  unfolding grow_small
  slab_grow_small get sa c =
      let cache = sa.caches c in
      get sa.allocator cache.order >>= λ r.
      if r.0 == 0
      then panic
      else returns (set_cache (record sa { allocator = r.1 }) c (grow_small cache r.0))

  -- The loop of `_slab_grow_large` over n buffers: the objects that are chained, the first one at obj.
  unfoldable pub chain_objects :
      (Sa D → ℕ → Answer (ℕ × Sa D)) → ℕ → Sa D → ℕ → ℕ → List ℕ → Answer (List ℕ × Sa D)
  chain_objects allocate zero sa osize obj free = returns (free, sa)
  chain_objects allocate (suc n) sa osize obj free = allocate sa cache_buf >>= λ r.
      if r.0 == 0
      then undefined
      else chain_objects allocate n r.1 osize (add64 obj osize) (obj ∷ free)

  -- `_slab_grow_large`
  unfoldable pub slab_grow_large :
      (D → ℕ → Answer (ℕ × D)) → (Sa D → ℕ → Answer (ℕ × Sa D)) → Sa D → ℕ → Answer (Sa D)
  unfolding chain_objects
  slab_grow_large get allocate sa c =
      let cache = sa.caches c in
      get sa.allocator cache.order >>= λ r.
      if r.0 == 0
      then panic
      else (let page = pma2vma r.0 in
          allocate (set_cache (record sa { allocator = r.1 }) c (cycle_color cache)) cache_slab
          >>= λ s.
              if s.0 == 0
              then panic
              else (chain_objects allocate cache.nobjs s.1 cache.osize
                    (add64 page (cache.offset * cache.nxtcol)) []
                  >>= λ o. returns (
                      set_cache o.1 c (
                        insert_free (o.1.caches c)
                          (record { page = page; free = o.0; bsy = 0; cnt = cache.nobjs })))))

  -- `_slab_grow`
  abbrev pub slab_grow :
      (D → ℕ → Answer (ℕ × D)) → (Sa D → ℕ → Answer (ℕ × Sa D)) → Sa D → ℕ → Answer (Sa D)
  slab_grow get allocate sa c =
      if ltb ((sa.caches c).osize * 8 % u32_mod) page_size
      then slab_grow_small get sa c
      else slab_grow_large get allocate sa c

  -- `slab_allocate`, where the fuel bounds the calls inside calls; undefined if it is used up.
  unfoldable pub slab_allocate : ℕ → (D → ℕ → Answer (ℕ × D)) → Sa D → ℕ → Answer (ℕ × Sa D)
  unfolding slab_grow_small slab_grow_large take_object
  slab_allocate zero get sa c = undefined
  slab_allocate (suc k) get sa c =
      (if is_out (sa.caches c) then slab_grow get (slab_allocate k get) sa c else returns sa)
      >>= λ sa. take_object (sa.caches c) >>= λ r. returns (r.0, set_cache sa c r.1)

  -- `slab_register`: the cache that `slab_allocate(&_ca)` gives the memory for is number c; stale is what
  -- nobjs and rsize of `_slab_cache_init` hold before they are set.
  unfoldable pub slab_register :
      ℕ → (D → ℕ → Answer (ℕ × D)) → ℕ → ℕ × ℕ → Sa D → ℕ → ℕ → ℕ → Answer (Sa D)
  unfolding slab_allocate slab_cache_init
  slab_register k get line stale sa c size align = slab_allocate k get sa 0 >>= λ r.
      slab_cache_init line stale.0 stale.1 size align >>= λ cache. returns (set_cache r.1 c cache)

  -- `slab_init`, where the two caches are registered in this order.
  unfoldable pub slab_init : ℕ → (D → ℕ → Answer (ℕ × D)) → ℕ → ℕ × ℕ → Sa D → D → Answer (Sa D)
  unfolding slab_register slab_cache_init
  slab_init k get line stale sa d = slab_cache_init line stale.0 stale.1 cache_bytes 8 >>= λ cache.
      slab_register k get line stale (set_cache (record sa { allocator = d }) 0 cache) cache_slab
        slab_bytes 8
      >>= λ sa. slab_register k get line stale sa cache_buf buf_bytes 8
