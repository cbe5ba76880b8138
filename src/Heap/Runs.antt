-- ===== src/Heap/Runs.antt =====
-- Theorems on the heap of loader/krn/mm.c in use: calls of mm_malloc, calls of mm_free in the reverse order, and
-- writes to the data of the blocks.
use nkos.Common.{
  subst, ◌+◌, ◌%◌, ◌≤◌, ◌≡◌, ◌⊎◌, inl, inr, ◌∙◌, refl, sym, ℕ, arith, Option, some, none, List, [],
  ◌∷◌,
}
use nkos.Heap.{Heap, put, write}
use nkos.Heap.Alloc.{mm_malloc, mm_free, request, mm_init}
use nkos.Heap.Only.{IsClear, IsOnly-kept}
use nkos.Heap.Arena.{
  Arena, AreBlocks, IsHeap, take_block, grown, first_chunk, AreBlocks-kept, AreBlocks-first,
}
use nkos.Heap.Malloc.{malloc-IsHeap}
use nkos.Heap.Free.{free-IsHeap}
use nkos.Heap.Init.{mm_init-IsHeap, whole_room}

-- A word inside the data of one of the blocks.
abbrev pub InBlock : ℕ → List (ℕ × ℕ) → Type 0
InBlock a [] = ⊥
InBlock a ((q, n) ∷ blocks) = ((q + 8 ≤ a) × (a + 4 ≤ q + 8 + n)) ⊎ InBlock a blocks

-- A step of the users of the heap, with the arena that it leaves. Fuel 2 is enough.
pub data Step (h : Heap) (a : Arena) : Heap → Arena → Type 0 where
  malloc :
      (size p : ℕ) (g : Heap)
      → size ≤ 0xfffffff8
      → mm_malloc 2 h size ≡ some (g, p)
      → Step h a g (take_block a (request size)).0
  free :
      (q n : ℕ) (blocks : List (ℕ × ℕ)) (g : Heap)
      → a.blocks ≡ (q, n) ∷ blocks
      → mm_free 2 h (q + 8) ≡ some g
      → Step h a g (record { blocks = blocks; room = some (grown q n a.room) })
  store : (at v : ℕ) → at % 4 ≡ 0 → InBlock at a.blocks → Step h a (put h at v) a

-- The first component of two equal results.
same_heap : (g f : Heap) (p r : ℕ) → ◌≡◌ {A = Option (Heap × ℕ)} (some (g, p)) (some (f, r)) → g ≡ f
same_heap g f p r e = cc

same_some : (g f : Heap) → ◌≡◌ {A = Option Heap} (some g) (some f) → g ≡ f
same_some g f e = cc

-- A write to the data of a block changes no size of a block.
store_AreBlocks :
    (w : ℕ → ℕ) (at v : ℕ) (blocks : List (ℕ × ℕ)) (top : ℕ)
    → at % 4 ≡ 0
    → InBlock at blocks
    → AreBlocks w blocks top
    → AreBlocks (write w at v) blocks top × (at ≤ top) × (first_chunk ≤ at)
store_AreBlocks w at v [] top four inside chain = absurd inside
store_AreBlocks w at v ((q, n) ∷ blocks) top four (inl (low, high))
      (end, some_n, n_four, tag, chain) =
    let first = AreBlocks-first w blocks q chain in
    (
      (
        end,
        some_n,
        n_four,
        ground arith,
        AreBlocks-kept w (write w at v) blocks q chain (λ a l. ground arith),
      ),
      omega arith,
      omega arith,
    )
store_AreBlocks w at v ((q, n) ∷ blocks) top four (inr inside) (end, some_n, n_four, tag, chain) =
    let (rest, le, first) = store_AreBlocks w at v blocks q four inside chain in
    ((end, some_n, n_four, ground arith, rest), omega arith, first)

store-IsHeap :
    (h : Heap) (blocks : List (ℕ × ℕ)) (room : Option (ℕ × ℕ)) (at v : ℕ)
    → at % 4 ≡ 0
    → InBlock at blocks
    → IsHeap h (record { blocks = blocks; room = room })
    → IsHeap (put h at v) (record { blocks = blocks; room = room })
store-IsHeap h blocks none at v four inside (top, chain, (t, clear, tag)) =
    let (kept, le, first) = store_AreBlocks h.word at v blocks top four inside chain in
    (top, kept, (t, clear, ground arith))
store-IsHeap h blocks (some (p, s)) at v four inside
      (top, chain, (p_top, end, some_s, s_four, tag, last, only)) =
    let (kept, le, first) = store_AreBlocks h.word at v blocks top four inside chain in
    let still = IsOnly-kept h (put h at v) p s only (λ i. refl) (λ i. refl) (λ a l. ground arith) in
    (top, kept, (p_top, end, some_s, s_four, ground arith, ground arith, still))

free_step :
    (h g : Heap) (a : Arena) (q n : ℕ) (blocks : List (ℕ × ℕ))
    → a.blocks ≡ (q, n) ∷ blocks
    → mm_free 2 h (q + 8) ≡ some g
    → IsHeap h a
    → IsHeap g (record { blocks = blocks; room = some (grown q n a.room) })
free_step h g a q n blocks e freed is_heap =
    let is =
      subst (λ (b : List (ℕ × ℕ)). IsHeap h (record { blocks = b; room = a.room })) e is_heap in
    let (f, done, after, _) = free-IsHeap 1 h q n blocks a.room is in
    subst (λ h. IsHeap h (record { blocks = blocks; room = some (grown q n a.room) }))
      (same_some f g (sym done ∙ freed)) after

step-IsHeap : (h : Heap) (a : Arena) (f : Heap) (b : Arena) → Step h a f b → IsHeap h a → IsHeap f b
step-IsHeap h a f b (malloc size p g l e) is_heap =
    let (k, done, after, _) = malloc-IsHeap 0 h a size is_heap l in
    subst (λ h. IsHeap h (take_block a (request size)).0)
      (same_heap k g (take_block a (request size)).1 p (sym done ∙ e)) after
step-IsHeap h a f b (free q n blocks g e freed) is_heap = free_step h g a q n blocks e freed is_heap
step-IsHeap h a f b (store at v four inside) is_heap =
    store-IsHeap h a.blocks a.room at v four inside is_heap

-- The states after mm_init.
pub data Reach (h : Heap) (a : Arena) : Heap → Arena → Type 0 where
  here : Reach h a h a
  then_step :
      (g : Heap) (b : Arena) (f : Heap) (c : Arena) → Reach h a g b → Step g b f c → Reach h a f c

Reach-IsHeap :
    (h : Heap) (a : Arena) (f : Heap) (c : Arena) → IsHeap h a → Reach h a f c → IsHeap f c
Reach-IsHeap h a f c is_heap here = is_heap
Reach-IsHeap h a f c is_heap (then_step g b k d before step) =
    step-IsHeap g b k d step (Reach-IsHeap h a g b is_heap before)

abbrev pub empty_arena : Arena
empty_arena = record { blocks = []; room = some (first_chunk, whole_room) }

-- After mm_init with null bins, and any number of calls of mm_malloc with sizes of at most 0xfffffff8 bytes, calls of
-- mm_free for the last block, and writes of words to the data of the blocks, in any order: the memory and the bins
-- hold the blocks and the room.
pub mm_init-Reach :
    (h g f : Heap) (a : Arena)
    → IsClear h
    → mm_init 2 h ≡ some g
    → Reach g empty_arena f a
    → IsHeap f a
mm_init-Reach h g f a clear e steps =
    let (k, done, is) = mm_init-IsHeap 2 h clear in
    let start = subst (λ h. IsHeap h empty_arena) (same_some k g (sym done ∙ e)) is in
    Reach-IsHeap g empty_arena f a start steps
