-- ===== src/Heap/Search.antt =====
-- The search for a free chunk in loader/krn/mm.c.
use nkos.Common.{
  ◌+◌, ◌-◌, ◌*◌, ◌/◌, ◌%◌, ◌^◌, ◌==◌, if◌then◌else◌, leb, ltb, not, ◌&&◌, u32_mod, ℕ, zero, suc,
  Option, none, some,
}
use nkos.Common.Memory.{◌>>=◌}
use nkos.Heap.{Heap, child, mm_get_csize}
use nkos.Heap.Large.{mm_slot_large, mm_key_large}

-- The smallest size met and its chunk: the variables m and c.
abbrev pub Best : Type 0
Best = ℕ × ℕ

-- The chunk p in place of the best one, when it fits s better.
abbrev pub better : Heap → ℕ → ℕ → Best → Best
better h s p (m, c) = let w = mm_get_csize h p in if leb s w && ltb w m then (w, p) else (m, c)

-- The way down along the key k: where it ends, a is the last right branch that was left aside. It stops at
-- a chunk of size s.
unfoldable pub descend : ℕ → Heap → ℕ → ℕ → ℕ → ℕ → Best → Option (ℕ × Best)
descend zero h s k p a b = none
descend (suc fuel) h s k p a b =
    let w = mm_get_csize h p in
    let j = k / 2 ^ 31 in
    let aside = if j == 0 && not (h.word (child p 1) == 0) then h.word (child p 1) else a in
    let exact = leb s w && ltb w b.0 && w == s in
    let b = better h s p b in
    let below = descend fuel h s (k * 2 % u32_mod) (h.word (child p j)) aside b in
    if exact then some (p, b) else if h.word (child p j) == 0 then some (aside, b) else below

-- The way down along the left children.
unfoldable pub leftmost : ℕ → Heap → ℕ → ℕ → Best → Option Best
leftmost zero h s p b = none
leftmost (suc fuel) h s p b =
    let j = if h.word (child p 0) == 0 then 1 else 0 in
    let below = leftmost fuel h s (h.word (child p j)) (better h s p b) in
    if p == 0 then some b else below

-- The bins from j on, n of them.
unfoldable pub larger_bins : ℕ → Heap → ℕ → ℕ → ℕ → Best → Option Best
larger_bins fuel h s zero j b = some b
larger_bins fuel h s (suc n) j b =
    leftmost fuel h s (h.lb j) b >>= λ b. larger_bins fuel h s n (j + 1) b

-- The bin of the size s itself.
unfoldable pub own_bin : ℕ → Heap → ℕ → Option Best
own_bin fuel h s =
    let i = mm_slot_large s in
    let b : Best = (0xffffffff, 0) in
    if h.lb i == 0
    then some b
    else (descend fuel h s (mm_key_large s) (h.lb i) 0 b >>= λ r. leftmost fuel h s r.0 r.1)

unfoldable pub mm_find_large : ℕ → Heap → ℕ → Option ℕ
mm_find_large fuel h s =
    let i = mm_slot_large s in
    own_bin fuel h s >>= λ b.
    if b.1 == 0 then (larger_bins fuel h s (96 - (i + 1)) (i + 1) b >>= λ b. some b.1) else some b.1

-- The last bin with a chunk, of the n from j on, or p.
unfoldable pub last_bin : Heap → ℕ → ℕ → ℕ → ℕ
last_bin h zero j p = p
last_bin h (suc n) j p = last_bin h n (j + 1) (if h.sb j == 0 then p else h.sb j)

unfoldable pub mm_find_small : ℕ → Heap → ℕ → Option ℕ
mm_find_small fuel h s =
    let i = s / 8 in
    let p = last_bin h (32 - i) i 0 in if p == 0 then mm_find_large fuel h 0x100 else some p
