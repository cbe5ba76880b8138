-- ===== src/Slab.antt =====
-- kernel/mm/slab.c: caches of objects of one size, on slabs of pages.
--
-- A slab is what `struct slab_t` says of it, with the chain of its free `struct buf_t` as the list of their
-- `data`. The chains of slabs of a cache are lists; the pointer `prev` is never read. The addresses of the
-- structures themselves are kept where they are objects of another cache.
mod Calls
mod Layout
mod Objects
mod Page
mod Allocate
mod Tests
use nkos.Common.{
  ℕ, zero, suc, ◌+◌, ◌-◌, ◌*◌, ◌/◌, ◌%◌, ◌^◌, Bool, true, false, ◌&&◌, List, [], ◌∷◌, ltb, leb,
  ◌==◌, if◌then◌else◌, add64, sub64, u64_mod, u32_mod,
}
use nkos.Palloc.{Answer, panic, undefined, returns, page_size, max_order, ◌>>=◌}
use Prim.Native.Nat.{bit_and}

-- struct slab_t, without the pointers to the cache and to the slab before.
pub record Slab : Type 0 where
  pub page : ℕ
  pub free : List ℕ
  pub bsy : ℕ
  pub cnt : ℕ

-- struct slab_cache_t, without its name and the links of the list of caches.
pub record SlabCache : Type 0 where
  pub slab_free : List Slab
  pub slab_busy : List Slab
  pub slab_full : List Slab
  pub osize : ℕ
  pub nobjs : ℕ
  pub order : ℕ
  pub align : ℕ
  pub offset : ℕ
  pub colors : ℕ
  pub nxtcol : ℕ
  pub bsy : ℕ
  pub cnt : ℕ

-- sizeof(struct slab_t), sizeof(struct buf_t) and sizeof(struct slab_cache_t)
abbrev pub slab_bytes : ℕ
slab_bytes = 48

abbrev pub buf_bytes : ℕ
buf_bytes = 24

abbrev pub cache_bytes : ℕ
cache_bytes = 80

abbrev pub u16_mod : ℕ
u16_mod = 2 ^ 16

-- (r + a - 1) & ~(a - 1)
abbrev pub round_up : ℕ → ℕ → ℕ
round_up r a = let s = sub64 (add64 r a) 1 in s - bit_and s (a - 1)

-- `_slab_header_size`
unfoldable pub slab_header_size : ℕ → ℕ → ℕ
slab_header_size n a = round_up (slab_bytes + n * buf_bytes) a

-- The alignment that `_slab_cache_init` makes of the one asked for.
unfoldable pub slab_align : ℕ → ℕ
slab_align align =
    let a = if leb page_size align then page_size else align in
    let b = if leb a 8 then 8 else a in (b + 8 - 1) / 8 * 8

-- The objects of a small cache on its page, and the bytes that are left.
unfoldable pub small_fit : ℕ → ℕ → ℕ × ℕ
unfolding slab_header_size
small_fit osize align =
    let nobjs = (page_size - cache_bytes) / (buf_bytes + osize) % u16_mod in
    let rsize = slab_header_size nobjs align + nobjs * osize in
    let less = nobjs - 1 in
    if ltb page_size rsize
    then (less, sub64 page_size (slab_header_size less align + less * osize))
    else (nobjs, sub64 page_size rsize)

-- The loop over the k orders from order on: the order, nobjs and rsize.
unfoldable pub large_fit : ℕ → ℕ → ℕ → ℕ → ℕ → ℕ × ℕ × ℕ
large_fit zero osize order nobjs rsize = (order, nobjs, rsize)
large_fit (suc k) osize order nobjs rsize =
    let tsize = page_size * 2 ^ order in
    let n = tsize / osize in
    let r = tsize - n * osize in
    let skipped = large_fit k osize (suc order) nobjs rsize in
    let rest = large_fit k osize (suc order) n r in
    if ltb tsize osize then skipped else if ltb (r * 8) tsize then (order, n, r) else rest

-- The end of `_slab_cache_init`, where offset is 0 only if the division fails.
unfoldable pub coloured : ℕ → ℕ → ℕ → ℕ → ℕ → ℕ → Answer SlabCache
coloured line align osize order nobjs rsize =
    let s = (line + align - 1) % u16_mod in
    let offset = s - bit_and s (align - 1) in
    if offset == 0
    then undefined
    else returns (record {
      slab_free = [];
      slab_busy = [];
      slab_full = [];
      osize = osize;
      nobjs = nobjs % u16_mod;
      order = order;
      align = align;
      offset = offset;
      colors = (rsize % u16_mod / offset + 1) % u16_mod;
      nxtcol = 0;
      bsy = 0;
      cnt = 0;
    })

-- `_slab_cache_init`, with the length of a cache line and what nobjs and rsize hold before they are set.
unfoldable pub slab_cache_init : ℕ → ℕ → ℕ → ℕ → ℕ → Answer SlabCache
unfolding slab_align small_fit large_fit coloured
slab_cache_init line nobjs rsize size align =
    let a = slab_align align in
    let osize = round_up size a % u32_mod in
    let small = small_fit osize a in
    let (order, n, r) = large_fit max_order osize 0 nobjs rsize in
    if leb (page_size * 2 ^ max_order) size
    then panic
    else if ltb (osize * 8 % u32_mod) page_size
    then coloured line a osize 0 small.0 small.1
    else coloured line a osize (if order == max_order then order - 1 else order) n r

-- `buf[i].data` of the first n objects, the last one at the head of the chain.
unfoldable pub objects : ℕ → ℕ → ℕ → List ℕ
objects zero obj osize = []
objects (suc i) obj osize = add64 obj (i * osize % u32_mod) ∷ objects i obj osize

-- The next colour.
abbrev pub cycle_color : SlabCache → SlabCache
cycle_color c =
    let next = (c.nxtcol + 1) % u16_mod in
    record c { nxtcol = if leb c.colors next then 0 else next }

-- A new slab in front of the free ones, its objects counted.
abbrev pub insert_free : SlabCache → Slab → SlabCache
insert_free c s = record c { slab_free = s ∷ c.slab_free; cnt = add64 c.cnt s.cnt }

-- pg_pma2vma
abbrev pub pma2vma : ℕ → ℕ
pma2vma page = add64 page 0xffff800000000000

-- The part of `_slab_grow_small` behind the call of `palloc_get`.
unfoldable pub grow_small : SlabCache → ℕ → SlabCache
unfolding objects slab_header_size
grow_small c pma =
    let page = pma2vma pma in
    let slab = add64 page (c.offset * c.nxtcol) in
    let obj = add64 slab (slab_header_size c.nobjs c.align) in
    insert_free (cycle_color c)
      (record { page = page; free = objects c.nobjs obj c.osize; bsy = 0; cnt = c.nobjs })

-- An object of a busy slab: with the last one the slab goes to the full ones.
unfoldable pub take_busy : SlabCache → Slab → List Slab → List ℕ → Answer (ℕ × SlabCache)
take_busy c s busy [] = undefined
take_busy c s busy (obj ∷ free) =
    let bsy = (s.bsy + 1) % u16_mod in
    let used : Slab = record s { free = free; bsy = bsy } in
    let counted : SlabCache = record c { bsy = add64 c.bsy 1 } in
    returns (
      obj,
      if bsy == s.cnt
          then record counted { slab_busy = busy; slab_full = used ∷ c.slab_full }
          else record counted { slab_busy = used ∷ busy },
    )

-- An object of a free slab: the slab goes to the busy ones.
unfoldable pub take_free : SlabCache → Slab → List Slab → List ℕ → Answer (ℕ × SlabCache)
take_free c s others [] = undefined
take_free c s others (obj ∷ free) =
    let used : Slab = record s { free = free; bsy = (s.bsy + 1) % u16_mod } in
    returns
      (obj, record c { slab_free = others; slab_busy = used ∷ c.slab_busy; bsy = add64 c.bsy 1 })

unfoldable pub take_first : SlabCache → List Slab → List Slab → Answer (ℕ × SlabCache)
unfolding take_busy take_free
take_first c (s ∷ busy) free = take_busy c s busy s.free
take_first c [] (s ∷ others) = take_free c s others s.free
take_first c [] [] = undefined

-- `slab_allocate` behind the call of `_slab_grow`. A slab without a free object is undefined.
unfoldable pub take_object : SlabCache → Answer (ℕ × SlabCache)
unfolding take_first
take_object c = take_first c c.slab_busy c.slab_free

-- The test of `slab_allocate`: no slab has a free object.
abbrev pub no_slab : List Slab → List Slab → Bool
no_slab [] [] = true
no_slab other slabs = false

abbrev pub is_out : SlabCache → Bool
is_out c = no_slab c.slab_busy c.slab_free
