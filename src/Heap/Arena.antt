-- ===== src/Heap/Arena.antt =====
-- What the heap of loader/krn/mm.c promises when chunks are given back in the reverse order: a stack of
-- blocks, and one room behind them.
use nkos.Common.{
  ◌+◌, ◌-◌, ◌%◌, ◌≤◌, ◌<◌, ◌≡◌, ◌∙◌, sym, if◌then◌else◌, leb, ℕ, arith, Option, some, none, List,
  [], ◌∷◌,
}
use nkos.Heap.{Heap, csz}
use nkos.Heap.Only.{IsClear, IsOnly}

-- The blocks by address and size, the last one first, and the free chunk.
pub record Arena : Type 0 where
  pub blocks : List (ℕ × ℕ)
  pub room : Option (ℕ × ℕ)

abbrev pub first_chunk : ℕ
first_chunk = 0x10208

abbrev pub last_chunk : ℕ
last_chunk = 0x9fff8

-- The smallest rest that becomes a chunk, with the word for its size.
abbrev pub least_rest : ℕ
least_rest = 20

-- The next block is cut from the room, or the room is given out whole; its data begin 8 bytes behind it.
abbrev pub take_block : Arena → ℕ → Arena × ℕ
take_block a r = elim a.room [
  | none ↦ (a, 0)
  | some (p, s) ↦
      if leb (r + least_rest) s
      then (record { blocks = (p, r) ∷ a.blocks; room = some (p + r + 4, s - r - 4) }, p + 8)
      else if leb r s
      then (record { blocks = (p, s) ∷ a.blocks; room = none }, p + 8)
      else (a, 0)
]

-- The block at q becomes room again, with the room behind it.
abbrev pub grown : ℕ → ℕ → Option (ℕ × ℕ) → ℕ × ℕ
grown q n none = (q, n)
grown q n (some (p, s)) = (q, n + s + 4)

-- The blocks lie one behind the other from the first chunk on, and the last one ends at top; each
-- is marked busy, behind a busy chunk.
abbrev pub AreBlocks : (ℕ → ℕ) → List (ℕ × ℕ) → ℕ → Type 0
AreBlocks w [] top = top ≡ first_chunk
AreBlocks w ((q, n) ∷ blocks) top =
    (top ≡ q + n + 4) × (16 ≤ n) × (n % 4 ≡ 0) × (w (csz q) ≡ n + 3) × AreBlocks w blocks q

-- The room reaches from top to the last chunk, and is the one free chunk of the bins.
abbrev pub IsRoom : Heap → Option (ℕ × ℕ) → ℕ → Type 0
IsRoom h none top = (top ≡ last_chunk) × IsClear h × (h.word (csz last_chunk) ≡ 3)
IsRoom h (some (p, s)) top =
    (p ≡ top)
    × (p + s + 4 ≡ last_chunk)
    × (16 ≤ s)
    × (s % 4 ≡ 0)
    × (h.word (csz p) ≡ s + 1)
    × (h.word (csz last_chunk) ≡ 2)
    × IsOnly h p s

-- The memory and the bins hold the arena.
abbrev pub IsHeap : Heap → Arena → Type 0
IsHeap h a = (top : ℕ) × AreBlocks h.word a.blocks top × IsRoom h a.room top

-- The end of the last block.
abbrev pub end_of : List (ℕ × ℕ) → ℕ
end_of [] = first_chunk
end_of ((q, n) ∷ blocks) = q + n + 4

-- The memory is the same up to the size of the chunk at top: the data of the blocks that end at top.
abbrev pub IsBelow : Heap → Heap → ℕ → Type 0
IsBelow h g top = (x : ℕ) → x < top + 4 → g.word x ≡ h.word x

pub AreBlocks-end :
    (w : ℕ → ℕ) (blocks : List (ℕ × ℕ)) (top : ℕ) → AreBlocks w blocks top → end_of blocks ≡ top
AreBlocks-end w [] top b = sym b
AreBlocks-end w ((q, n) ∷ blocks) top (end, _, _, _, _) = sym end

-- The blocks stay where the memory below their end stays.
pub AreBlocks-kept :
    (w v : ℕ → ℕ) (blocks : List (ℕ × ℕ)) (top : ℕ)
    → AreBlocks w blocks top
    → ((a : ℕ) → a < top → v a ≡ w a)
    → AreBlocks v blocks top
AreBlocks-kept w v [] top b k = b
AreBlocks-kept w v ((q, n) ∷ blocks) top (end, some_n, four, tag, rest) k = (
  end,
  some_n,
  four,
  k (csz q) (omega arith) ∙ tag,
  AreBlocks-kept w v blocks q rest (λ a l. k a (omega arith)),
)

pub AreBlocks-first :
    (w : ℕ → ℕ) (blocks : List (ℕ × ℕ)) (top : ℕ) → AreBlocks w blocks top → first_chunk ≤ top
AreBlocks-first w [] top b = omega arith
AreBlocks-first w ((q, n) ∷ blocks) top (end, _, _, _, rest) =
    let below = AreBlocks-first w blocks q rest in omega arith
