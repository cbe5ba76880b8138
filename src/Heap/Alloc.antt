-- ===== src/Heap/Alloc.antt =====
-- The heap of loader/krn/mm.c: its start, and chunks taken from it and given back.
use nkos.Common.{◌+◌, ◌*◌, ◌==◌, if◌then◌else◌, leb, ltb, ℕ, Option, some}
use nkos.Common.Memory.{◌>>=◌}
use nkos.Heap.{
  Heap, sub32, add32, mm_align4, mm_align8, mm_set_csize, mm_set_psize, mm_set_pbusy, mm_set_cbusy,
  mm_clr_pbusy, mm_clr_cbusy, mm_get_csize, mm_get_psize, mm_is_cbusy, mm_is_pbusy, mm_first,
  mm_last, mm_next, mm_prev, mm_chunk2data, mm_data2chunk, max_small,
}
use nkos.Heap.Large.{mm_link, mm_unlink}
use nkos.Heap.Search.{mm_find_large, mm_find_small}

abbrev pub mm_start : ℕ
mm_start = 0x10000

abbrev pub mm_end : ℕ
mm_end = 0xa0000

-- sizeof(struct arena_t): two pointers, 96 large bins, 32 small ones, and cf.
abbrev pub arena_bytes : ℕ
arena_bytes = 4 * (2 + 96 + 32 + 1)

-- The first chunk is all of the memory, the last one has no payload.
unfoldable pub first_chunks : Heap → ℕ → ℕ → Heap
first_chunks h s e =
    let h = mm_set_csize h s (sub32 (sub32 h.end h.start) 8) in
    let h = mm_set_pbusy h s in
    let h = mm_clr_cbusy h s in
    let h = mm_set_csize h e 0 in
    let h = mm_set_psize h e (mm_get_csize h s) in let h = mm_clr_pbusy h e in mm_set_cbusy h e

unfoldable pub mm_init : ℕ → Heap → Option Heap
mm_init fuel h =
    let h = record h { start = mm_align4 (mm_start + arena_bytes); end = mm_end } in
    let s = mm_first h in
    let h = first_chunks h s (mm_last h) in mm_link fuel h s >>= λ h. some (record h { cf = s })

-- The part of mm_split on a chunk that is large enough, after the unlink: the rest is a chunk.
unfoldable pub split_chunk : ℕ → Heap → ℕ → ℕ → ℕ → Option (Heap × ℕ)
split_chunk fuel h p sini sreq =
    let h = mm_set_csize h p sreq in
    let h = mm_set_cbusy h p in
    let n = mm_next h p in
    let h = mm_set_csize h n (sub32 (sub32 sini sreq) 4) in
    let h = mm_set_pbusy h n in
    let h = mm_clr_cbusy h n in
    let h = mm_set_psize h (mm_next h n) (mm_get_csize h n) in mm_link fuel h n >>= λ h. some (h, n)

-- The part of mm_split on a chunk that is too small to split, after the unlink.
unfoldable pub whole_chunk : Heap → ℕ → Heap
whole_chunk h p = let h = mm_set_cbusy h p in mm_set_pbusy h (mm_next h p)

unfoldable pub mm_split : ℕ → Heap → ℕ → ℕ → Option (Heap × ℕ)
mm_split fuel h p sreq =
    let sini = mm_get_csize h p in
    mm_unlink fuel h p >>= λ h.
    if leb 20 (sub32 sini sreq) then split_chunk fuel h p sini sreq else some (whole_chunk h p, 0)

-- The chunk joined with the next one, when that is free.
unfoldable pub join_next : ℕ → Heap → ℕ → Option Heap
join_next fuel h p =
    let n = mm_next h p in
    if mm_is_cbusy h n
    then some h
    else (mm_unlink fuel h n >>= λ h.
        some (mm_set_csize h p (add32 (add32 (mm_get_csize h n) (mm_get_csize h p)) 4)))

-- The chunk joined with the one before it, when that is free: the chunk that results.
unfoldable pub join_prev : ℕ → Heap → ℕ → Option (Heap × ℕ)
join_prev fuel h p =
    if mm_is_pbusy h p
    then some (h, p)
    else (let s = add32 (add32 (mm_get_psize h p) (mm_get_csize h p)) 4 in
        let p = mm_prev h p in
        mm_unlink fuel h p >>= λ h.
        (let h = mm_set_csize h p s in some (mm_set_psize h (mm_next h p) s, p)))

-- The part of mm_coalesce after the join with the next chunk.
unfoldable pub finish : ℕ → Heap → ℕ → Option (Heap × ℕ)
finish fuel h p =
    let n = mm_next h p in
    let h = mm_set_psize h n (mm_get_csize h p) in
    let h = mm_clr_pbusy h n in
    join_prev fuel h p >>= λ r. (mm_link fuel r.0 r.1 >>= λ h. some (h, r.1))

unfoldable pub mm_coalesce : ℕ → Heap → ℕ → Option (Heap × ℕ)
mm_coalesce fuel h p = join_next fuel (mm_clr_cbusy h p) p >>= λ h. finish fuel h p

-- The size that mm_malloc asks the bins for.
unfoldable pub request : ℕ → ℕ
request size = mm_align8 (if ltb size 16 then 16 else size)

unfoldable pub mm_malloc : ℕ → Heap → ℕ → Option (Heap × ℕ)
mm_malloc fuel h size =
    let size = request size in
    (if leb max_small size then mm_find_large fuel h size else mm_find_small fuel h size) >>= λ p.
    if p == 0 then some (h, 0) else (mm_split fuel h p size >>= λ r. some (r.0, mm_chunk2data p))

unfoldable pub mm_free : ℕ → Heap → ℕ → Option Heap
mm_free fuel h ptr = mm_coalesce fuel h (mm_data2chunk ptr) >>= λ r. some r.0
