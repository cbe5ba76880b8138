-- ===== src/Heap/Malloc.antt =====
-- Theorems on mm_malloc of loader/krn/mm.c: it takes the next block of the arena.
use nkos.Common.{
  ◌+◌, ◌%◌, ◌≤◌, ◌<◌, ◌≡◌, inl, inr, ◌∙◌, refl, sym, ap, ◌==◌, if◌then◌else◌, leb, u32_mod, ℕ, suc,
  true, false, Bool-cases, leb→le, arith, Option, some, none, List,
}
use nkos.Heap.{mm_align8, Heap, add32, mm_chunk2data}
use nkos.Heap.Alloc.{mm_split, mm_malloc, request}
use nkos.Heap.Search.{mm_find_large, mm_find_small}
use nkos.Heap.Find.{find_large_clear, find_small_clear, find_large_only, find_small_only}
use nkos.Heap.Only.{IsClear, IsOnly, IsChunk}
use nkos.Heap.Tags.{size_of}
use nkos.Heap.Arena.{Arena, IsHeap, take_block, AreBlocks-first, AreBlocks-end, IsBelow, end_of}
use nkos.Heap.Cut.{split-IsHeap}

pub request-lem :
    (size : ℕ)
    → size ≤ 0xfffffff8
    → (16 ≤ request size)
      × (request size % 8 ≡ 0)
      × (size ≤ request size)
      × (request size < u32_mod)
unfolding request mm_align8
request-lem size h = ground arith

-- The search of mm_malloc.
abbrev find : ℕ → Heap → ℕ → Option ℕ
find fuel h r = if leb 256 r then mm_find_large fuel h r else mm_find_small fuel h r

malloc-none :
    (fuel : ℕ) (h : Heap) (size : ℕ)
    → find fuel h (request size) ≡ some 0
    → mm_malloc fuel h size ≡ some (h, 0)
unfolding mm_malloc
malloc-none fuel h size e = rw e refl

malloc-found :
    (fuel : ℕ) (h g : Heap) (size p n : ℕ)
    → find fuel h (request size) ≡ some p
    → 0 < p
    → p + 8 < u32_mod
    → mm_split fuel h p (request size) ≡ some (g, n)
    → mm_malloc fuel h size ≡ some (g, p + 8)
unfolding mm_malloc mm_chunk2data
malloc-found fuel h g size p n e some_p b cut =
    let found : (p == 0) ≡ false = ground arith in
    let at : add32 p 8 ≡ p + 8 = omega arith in rw (e, found, cut, at) refl

find_clear : (fuel : ℕ) (h : Heap) (r : ℕ) → IsClear h → find (suc fuel) h r ≡ some 0
find_clear fuel h r clear = elim (Bool-cases (leb 256 r)) [
  | inl t ↦ rw t (find_large_clear fuel h r clear)
  | inr t ↦ rw t (find_small_clear fuel h r clear)
]

find_room :
    (fuel : ℕ) (h : Heap) (r p s : ℕ)
    → IsOnly h p s
    → IsChunk h p s
    → r < u32_mod
    → r % 8 ≡ 0
    → s < 0xffffffff
    → find (suc (suc fuel)) h r ≡ some (if leb r s then p else 0)
find_room fuel h r p s only chunk word eight b = elim (Bool-cases (leb 256 r)) [
  | inl t ↦ rw t (find_large_only fuel h r p s only chunk (leb→le 256 r t) word b)
  | inr t ↦ rw t (find_small_only fuel h r p s only chunk (ground arith) eight b)
]

pub take_block-fits :
    (blocks : List (ℕ × ℕ)) (p s r : ℕ)
    → leb r s ≡ true
    → (take_block (record { blocks = blocks; room = some (p, s) }) r).1 ≡ p + 8
take_block-fits blocks p s r t = elim (Bool-cases (leb (r + 20) s)) [
  | inl e ↦ rw e refl
  | inr e ↦ rw (e, t) refl
]

-- mm_malloc with the room p of s bytes.
malloc_room :
    (fuel : ℕ) (h : Heap) (blocks : List (ℕ × ℕ)) (p s size : ℕ)
    → IsHeap h (record { blocks = blocks; room = some (p, s) })
    → size ≤ 0xfffffff8
    → let a : Arena = record { blocks = blocks; room = some (p, s) } in
      (g : Heap) × (mm_malloc (suc (suc fuel)) h size ≡ some (g, (take_block a (request size)).1))
      × IsHeap g (take_block a (request size)).0
      × IsBelow h g (end_of a.blocks)
malloc_room fuel h blocks p s size is_heap l =
    let (top, chain, (p_top, end, some_s, four, tag, last, only)) = is_heap in
    let (r_some, r_eight, r_size, r_word) = request-lem size l in
    let low = AreBlocks-first h.word blocks top chain in
    let r = request size in
    let size_p = size_of h p s 1 tag four (omega arith) in
    let some_p : 0 < p = omega arith in
    let found = find_room fuel h r p s only (some_p, some_s, size_p) r_word r_eight (omega arith) in
    elim (Bool-cases (leb r s)) [
      | inl t ↦
          let (g, n, cut, is, below) =
            split-IsHeap (suc fuel) h blocks p s r is_heap (omega arith) r_some (leb→le r s t) in
          let here : find (suc (suc fuel)) h r ≡ some p =
            found ∙ ap (λ b. some (if b then p else 0)) t in
          let done = malloc-found (suc (suc fuel)) h g size p n here some_p (omega arith) cut in
          let data_at = take_block-fits blocks p s r t in
          (
            g,
            done ∙ ap (λ d. some (g, d)) (sym data_at),
            is,
            rw (AreBlocks-end h.word blocks top chain, sym p_top) below,
          )
      | inr t ↦
          let here : find (suc (suc fuel)) h r ≡ some 0 =
            found ∙ ap (λ b. some (if b then p else 0)) t in
          let less : leb (r + 20) s ≡ false = ground arith in
          let done = malloc-none (suc (suc fuel)) h size here in
          (h, rw (less, t) done, rw (less, t) is_heap, λ x b. refl)
    ]

-- mm_malloc on a heap of blocks and one room, of a size that does not wrap when it is rounded: it returns what the
-- arena gives, and the heap is the one that the arena has then.
pub malloc-IsHeap :
    (fuel : ℕ) (h : Heap) (a : Arena) (size : ℕ)
    → IsHeap h a
    → size ≤ 0xfffffff8
    → (g : Heap) × (mm_malloc (suc (suc fuel)) h size ≡ some (g, (take_block a (request size)).1))
      × IsHeap g (take_block a (request size)).0
      × IsBelow h g (end_of a.blocks)
malloc-IsHeap fuel h a size is_heap l = malloc_of fuel h a.blocks a.room size is_heap l
  where
    malloc_of :
        (fuel : ℕ) (h : Heap) (blocks : List (ℕ × ℕ)) (room : Option (ℕ × ℕ)) (size : ℕ)
        → IsHeap h (record { blocks = blocks; room = room })
        → size ≤ 0xfffffff8
        → let a : Arena = record { blocks = blocks; room = room } in
          (g : Heap) × (mm_malloc (suc (suc fuel)) h size
            ≡ some (g, (take_block a (request size)).1))
          × IsHeap g (take_block a (request size)).0
          × IsBelow h g (end_of a.blocks)
    malloc_of fuel h blocks none size is_heap l =
        let (top, chain, (at, clear, tag)) = is_heap in
        (
          h,
          malloc-none (suc (suc fuel)) h size (find_clear (suc fuel) h (request size) clear),
          is_heap,
          λ x b. refl,
        )
    malloc_of fuel h blocks (some (p, s)) size is_heap l =
        malloc_room fuel h blocks p s size is_heap l
