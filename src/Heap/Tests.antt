-- ===== src/Heap/Tests.antt =====
-- loader/krn/mm.c at concrete inputs.
use nkos.Common.{
  ◌<◌, ◌≡◌, inl, inr, refl, ◌==◌, if◌then◌else◌, ℕ, arith, Option, some, none, [], ◌∷◌,
}
use nkos.Common.Memory.{◌>>=◌}
use nkos.Heap.{
  Heap, mm_get_csize, mm_unlink_small, mm_link_small, mm_align4, mm_align8, mm_set_csize,
  mm_set_psize, mm_set_pbusy, mm_set_cbusy, mm_clr_pbusy, mm_clr_cbusy, mm_get_psize, mm_is_cbusy,
  mm_is_pbusy, mm_first, mm_last, mm_next, mm_prev, mm_chunk2data, mm_data2chunk, detach,
  link_after,
}
use nkos.Heap.Large.{
  bsr, mm_slot_large, mm_key_large, mm_unlink_large, mm_link_large, alone, insert, rightmost,
  unlink_leaf, unlink_ring, replace, branch, mm_link, mm_unlink,
}
use nkos.Heap.Search.{
  descend, leftmost, larger_bins, own_bin, mm_find_large, last_bin, mm_find_small,
}
use nkos.Heap.Alloc.{
  mm_init, first_chunks, split_chunk, whole_chunk, mm_split, join_next, join_prev, finish,
  mm_coalesce, request, mm_malloc, mm_free,
}
use nkos.Heap.Arena.{Arena, IsHeap, IsBelow, end_of, take_block, first_chunk, last_chunk}
use nkos.Heap.Init.{whole_room}
use nkos.Heap.Runs.{Step, Reach, mm_init-Reach, empty_arena}
use nkos.Heap.Blocks.{IsGiven, malloc-IsGiven, malloc-free}
use nkos.Heap.Free.{free-IsHeap}
use nkos.Heap.Slots.{key_large-monotone}
use nkos.Heap.Rings.{IsRing}
use nkos.Heap.Unlink.{unlink_small-IsRing, unlink_large-loops}

abbrev zeros : Heap
zeros = record { word = λ a. 0; start = 0; end = 0; lb = λ i. 0; sb = λ i. 0; cf = 0 }

-- The pointers of three requests, the second block of which is given back before the third one.
abbrev three : Option (ℕ × ℕ × ℕ)
three = mm_init 4 zeros >>= λ h.
    (mm_malloc 4 h 100 >>= λ a.
    (mm_malloc 4 a.0 1000 >>= λ b.
    (mm_free 4 b.0 b.1 >>= λ h. (mm_malloc 4 h 20 >>= λ c. some (a.1, b.1, c.1)))))

three_pointers : three ≡ some (0x10210, 0x1027c, 0x1027c)
unfolding mm_init first_chunks split_chunk whole_chunk mm_split join_next join_prev finish
    mm_coalesce request mm_malloc mm_free descend leftmost larger_bins own_bin mm_find_large
    last_bin mm_find_small bsr mm_slot_large mm_key_large mm_unlink_large mm_link_large alone insert
    rightmost unlink_leaf unlink_ring replace branch mm_link mm_unlink mm_get_csize mm_unlink_small
    mm_link_small mm_align4 mm_align8 mm_set_csize mm_set_psize mm_set_pbusy mm_set_cbusy
    mm_clr_pbusy mm_clr_cbusy mm_get_psize mm_is_cbusy mm_is_pbusy mm_first mm_last mm_next mm_prev
    mm_chunk2data mm_data2chunk detach link_after
three_pointers = refl

heap_or : Heap → Option Heap → Heap
heap_or h none = h
heap_or h (some g) = g

-- The heap after mm_init.
abbrev start_heap : Heap
start_heap = record {
  word = λ a.
      if a == 0x1020c
      then 0x8fded
      else if a == 0x9fff8
      then 0x8fdec
      else if a == 0x9fffc
      then 2
      else if a == 0x10210
      then 0x10208
      else if a == 0x10214
      then 0x10208
      else if a == 0x10224
      then 44
      else 0;
  start = 0x1020c;
  end = 0xa0000;
  lb = λ i. if i == 44 then 0x10208 else 0;
  sb = λ i. 0;
  cf = 0x10208;
}

start_heap-IsHeap : IsHeap start_heap empty_arena
unfolding mm_slot_large bsr
start_heap-IsHeap = (
  first_chunk,
  refl,
  (
    refl,
    refl,
    omega arith,
    refl,
    refl,
    refl,
    ((λ i. refl), (λ i. refl), refl, refl, λ l. (refl, refl, refl, refl)),
  ),
)

malloc-IsGiven_example :
    (g : Heap) × (p : ℕ) × (b : Arena) × (mm_malloc 2 start_heap 100 ≡ some (g, p))
    × IsHeap g b
    × IsGiven empty_arena 100 p b
    × IsBelow start_heap g (end_of [])
malloc-IsGiven_example = malloc-IsGiven 0 start_heap empty_arena 100 start_heap-IsHeap (omega arith)

malloc-free_example :
    (g : Heap) × (f : Heap) × (mm_malloc 2 start_heap 100 ≡ some (g, 0x10210))
    × (mm_free 2 g 0x10210 ≡ some f)
    × IsHeap f empty_arena
    × IsBelow start_heap f (end_of [])
unfolding request mm_align8
malloc-free_example =
    malloc-free 0 start_heap [] first_chunk whole_room 100 start_heap-IsHeap (omega arith)
      (omega arith)

-- All of the memory is one block of 0x8fdec bytes.
abbrev full_heap : Heap
full_heap = record {
  word = λ a. if a == 0x1020c then 0x8fdef else if a == 0x9fffc then 3 else 0;
  start = 0x1020c;
  end = 0xa0000;
  lb = λ i. 0;
  sb = λ i. 0;
  cf = 0x10208;
}

full_heap-IsHeap :
    IsHeap full_heap (record { blocks = (first_chunk, whole_room) ∷ []; room = none })
full_heap-IsHeap =
    (last_chunk, (refl, omega arith, refl, refl, refl), (refl, ((λ i. refl), (λ i. refl)), refl))

free-IsHeap_example :
    (g : Heap) × (mm_free 1 full_heap 0x10210 ≡ some g)
    × IsHeap g empty_arena
    × IsBelow full_heap g first_chunk
free-IsHeap_example = free-IsHeap 0 full_heap first_chunk whole_room [] none full_heap-IsHeap

key_large-monotone_example : mm_key_large 1028 < mm_key_large 1032
unfolding mm_slot_large mm_key_large bsr
key_large-monotone_example =
    key_large-monotone 1028 1032 (omega arith) (omega arith) (omega arith) (omega arith) refl
      (omega arith)

-- The bin of 32 bytes has the chunks at 0x20000 and 0x20100.
abbrev ring_heap : Heap
ring_heap = record {
  word = λ a.
      if a == 0x20004
      then 35
      else if a == 0x20104
      then 35
      else if a == 0x20008
      then 0x20100
      else if a == 0x2000c
      then 0x20100
      else if a == 0x20108
      then 0x20000
      else if a == 0x2010c
      then 0x20000
      else 0;
  start = 0x1020c;
  end = 0xa0000;
  lb = λ i. 0;
  sb = λ i. if i == 4 then 0x20000 else 0;
  cf = 0x10208;
}

unlink_small-IsRing_example :
    IsRing (mm_unlink_small ring_heap 0x20100).word 0x20000 []
    × ((mm_unlink_small ring_heap 0x20100).sb ≡ ring_heap.sb)
unfolding mm_get_csize
unlink_small-IsRing_example =
    unlink_small-IsRing ring_heap 0x20100 0x20000 [] refl (refl, refl, (refl, refl))
      (inr (omega arith), tt) (tt, tt)

-- A chunk of the bin 4 with a left child.
abbrev tree_heap : Heap
tree_heap = record {
  word = λ a. if a == 0x2000c then 0x20000 else if a == 0x20014 then 0x30000 else 0;
  start = 0x1020c;
  end = 0xa0000;
  lb = λ i. if i == 0 then 0x20000 else 0;
  sb = λ i. 0;
  cf = 0x10208;
}

unlink_large-loops_example : mm_unlink_large 1000 tree_heap 0x20000 ≡ none
unlink_large-loops_example = unlink_large-loops 1000 tree_heap 0x20000 refl (inl (omega arith))

abbrev first_heap : Heap
first_heap = heap_or zeros (mm_init 2 zeros)

pair_or : Heap → Option (Heap × ℕ) → Heap × ℕ
pair_or h none = (h, 0)
pair_or h (some r) = r

abbrev second_heap : Heap × ℕ
second_heap = pair_or zeros (mm_malloc 2 first_heap 100)

-- After one request of 100 bytes.
mm_init-Reach_example : IsHeap second_heap.0 (take_block empty_arena (request 100)).0
unfolding heap_or pair_or mm_init first_chunks mm_align4 mm_first mm_last mm_link mm_link_large
    alone mm_slot_large bsr mm_key_large mm_set_csize mm_set_psize mm_set_pbusy mm_set_cbusy
    mm_clr_pbusy mm_clr_cbusy mm_get_csize mm_malloc request mm_align8 mm_find_small last_bin
    mm_find_large own_bin larger_bins leftmost descend mm_split mm_unlink mm_unlink_large rightmost
    unlink_leaf split_chunk mm_next mm_chunk2data
mm_init-Reach_example =
    mm_init-Reach zeros first_heap second_heap.0 (take_block empty_arena (request 100)).0
      ((λ i. refl), (λ i. refl)) refl
      (Reach.then_step first_heap empty_arena second_heap.0 (take_block empty_arena (request 100)).0
        Reach.here (Step.malloc 100 second_heap.1 second_heap.0 (omega arith) refl))
