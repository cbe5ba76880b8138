-- ===== src/Heap/Blocks.antt =====
-- Theorems on the blocks that mm_malloc of loader/krn/mm.c gives out and mm_free takes back.
use nkos.Common.{
  ◌+◌, ◌-◌, ◌%◌, ◌≤◌, ◌<◌, ◌≡◌, ◌⊎◌, inl, inr, ◌∙◌, refl, ap, leb, ℕ, suc, true, Bool-cases, arith,
  Option, some, none, List, [], ◌∷◌, subst,
}
use nkos.Heap.{Heap}
use nkos.Heap.Alloc.{mm_malloc, mm_free, request}
use nkos.Heap.Arena.{
  Arena, AreBlocks, IsHeap, take_block, first_chunk, last_chunk, AreBlocks-first, end_of, IsBelow,
  AreBlocks-end,
}
use nkos.Heap.Malloc.{malloc-IsHeap, request-lem, take_block-fits}
use nkos.Heap.Free.{free-IsHeap}
use nkos.Heap.Runs.{InBlock}

-- There is no room, or it is smaller than what is asked of the bins.
abbrev pub IsShort : Option (ℕ × ℕ) → ℕ → Type 0
IsShort none size = Unit {0}
IsShort (some (p, s)) size = s < request size

-- What mm_malloc returns: null, and the arena stays; or the data of a new block of n bytes, behind those of
-- all blocks, inside the memory.
abbrev pub IsGiven : Arena → ℕ → ℕ → Arena → Type 0
IsGiven a size p b =
    ((p ≡ 0) × (b ≡ a) × IsShort a.room size)
    ⊎ ((n : ℕ) × (size ≤ n)
        × (b.blocks ≡ (p - 8, n) ∷ a.blocks)
        × (p % 4 ≡ 0)
        × (first_chunk + 8 ≤ p)
        × (p + n ≤ last_chunk + 4)
        × ((x : ℕ) → InBlock x a.blocks → x + 4 < p))

InBlock-end :
    (w : ℕ → ℕ) (blocks : List (ℕ × ℕ)) (top x : ℕ)
    → AreBlocks w blocks top
    → InBlock x blocks
    → x ≤ top
InBlock-end w [] top x chain inside = absurd inside
InBlock-end w ((q, n) ∷ blocks) top x (end, _, _, _, chain) (inl (low, high)) = omega arith
InBlock-end w ((q, n) ∷ blocks) top x (end, _, _, _, chain) (inr inside) =
    let below = InBlock-end w blocks q x chain inside in omega arith

AreBlocks-four :
    (w : ℕ → ℕ) (blocks : List (ℕ × ℕ)) (top : ℕ) → AreBlocks w blocks top → top % 4 ≡ 0
AreBlocks-four w [] top chain = omega arith
AreBlocks-four w ((q, n) ∷ blocks) top (end, _, n_four, _, chain) =
    let below = AreBlocks-four w blocks q chain in omega arith

take_block-IsGiven :
    (h : Heap) (blocks : List (ℕ × ℕ)) (room : Option (ℕ × ℕ)) (size : ℕ)
    → IsHeap h (record { blocks = blocks; room = room })
    → size ≤ 0xfffffff8
    → let a : Arena = record { blocks = blocks; room = room } in
      IsGiven a size (take_block a (request size)).1 (take_block a (request size)).0
take_block-IsGiven h blocks none size is_heap l = inl (refl, refl, tt)
take_block-IsGiven h blocks (some (p, s)) size
      (top, chain, (p_top, end, some_s, s_four, tag, last, only)) l =
    let r = request size in
    let (r_some, r_eight, r_size, r_word) = request-lem size l in
    let low = AreBlocks-first h.word blocks top chain in
    let four = AreBlocks-four h.word blocks top chain in
    let back : (p + 8) - 8 ≡ p = omega arith in
    let behind : (x : ℕ) → InBlock x blocks → x + 4 < p + 8 =
      λ x inside. (let under = InBlock-end h.word blocks top x chain inside in omega arith) in
    elim (Bool-cases (leb (r + 20) s)) [
      | inl t ↦ rw (t, back) (inr (r, r_size, refl, omega arith, omega arith, ground arith, behind))
      | inr t ↦ elim (Bool-cases (leb r s)) [
        | inl e ↦
            rw (t, e, back)
              (inr (s, ground arith, refl, omega arith, omega arith, omega arith, behind))
        | inr e ↦ rw (t, e) (inl (refl, refl, ground arith))
      ]
    ]

-- mm_malloc on a heap of blocks and at most one room behind them, of a size of at most 0xfffffff8 bytes: it
-- returns. It gives null and leaves the blocks and the room, if there is no room or the room is smaller than the
-- rounded size; or a pointer to a new block of at least that size, on a multiple of 4, inside the memory of the heap
-- and behind the data of all blocks. The heap holds the new blocks and room, and what the old blocks hold stays.
pub malloc-IsGiven :
    (fuel : ℕ) (h : Heap) (a : Arena) (size : ℕ)
    → IsHeap h a
    → size ≤ 0xfffffff8
    → (g : Heap) × (p : ℕ) × (b : Arena) × (mm_malloc (suc (suc fuel)) h size ≡ some (g, p))
      × IsHeap g b
      × IsGiven a size p b
      × IsBelow h g (end_of a.blocks)
malloc-IsGiven fuel h a size is_heap l =
    let (g, e, is, below) = malloc-IsHeap fuel h a size is_heap l in
    let (b, p) = take_block a (request size) in
    (g, p, b, e, is, take_block-IsGiven h a.blocks a.room size is_heap l, below)

-- A room from which a block is taken is the room that the block grows to.
take_block-grown :
    (fuel : ℕ) (h g : Heap) (blocks : List (ℕ × ℕ)) (p s r : ℕ)
    → p + s + 4 ≡ last_chunk
    → r ≤ s
    → IsHeap g (take_block (record { blocks = blocks; room = some (p, s) }) r).0
    → (f : Heap) × (mm_free (suc fuel) g (p + 8) ≡ some f)
      × IsHeap f (record { blocks = blocks; room = some (p, s) })
      × IsBelow g f p
take_block-grown fuel h g blocks p s r end le is = elim (Bool-cases (leb (r + 20) s)) [
  | inl t ↦
      let cut : IsHeap g (record { blocks = (p, r) ∷ blocks; room = some (p + r + 4, s - r - 4) }) =
        rw t at is in
      let (f, freed, after, below) =
        free-IsHeap fuel g p r blocks (some (p + r + 4, s - r - 4)) cut in
      let whole : r + (s - r - 4) + 4 ≡ s = ground arith in
      (
        f,
        freed,
        subst (λ n. IsHeap f (record { blocks = blocks; room = some (p, n) })) whole after,
        below,
      )
  | inr t ↦
      let fits : leb r s ≡ true = ground arith in
      let all : IsHeap g (record { blocks = (p, s) ∷ blocks; room = none }) = rw (t, fits) at is in
      free-IsHeap fuel g p s blocks none all
]

-- mm_malloc of a size that fits in the room, and mm_free of what it returned: the heap has the same blocks and the same
-- room as before, and the blocks hold what they held.
pub malloc-free :
    (fuel : ℕ) (h : Heap) (blocks : List (ℕ × ℕ)) (p s size : ℕ)
    → IsHeap h (record { blocks = blocks; room = some (p, s) })
    → size ≤ 0xfffffff8
    → request size ≤ s
    → (g : Heap) × (f : Heap) × (mm_malloc (suc (suc fuel)) h size ≡ some (g, p + 8))
      × (mm_free (suc (suc fuel)) g (p + 8) ≡ some f)
      × IsHeap f (record { blocks = blocks; room = some (p, s) })
      × IsBelow h f (end_of blocks)
malloc-free fuel h blocks p s size is_heap l le =
    let a : Arena = record { blocks = blocks; room = some (p, s) } in
    let (top, chain, (p_top, end, some_s, s_four, tag, last, only)) = is_heap in
    let (g, e, is, below) = malloc-IsHeap fuel h a size is_heap l in
    let (f, freed, after, kept) =
      take_block-grown (suc fuel) h g blocks p s (request size) end le is in
    let fits : leb (request size) s ≡ true = ground arith in
    let at = AreBlocks-end h.word blocks top chain in
    (
      g,
      f,
      e ∙ ap (λ d. some (g, d)) (take_block-fits blocks p s (request size) fits),
      freed,
      after,
      λ x b. kept x (omega arith) ∙ below x b,
    )
