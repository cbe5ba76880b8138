-- ===== src/Heap/Large.antt =====
-- The trees of large chunks of loader/krn/mm.c, one for each bin, and the choice of the bin.
use nkos.Common.{
  ltb, ◌+◌, ◌-◌, ◌*◌, ◌/◌, ◌%◌, ◌^◌, ◌==◌, if◌then◌else◌, leb, not, ◌&&◌, ◌||◌, u32_mod, ℕ, zero,
  suc, Option, none, some,
}
use nkos.Common.Memory.{◌>>=◌}
use nkos.Heap.{
  Heap, put, put_lb, prev, next, parent, child, slot, max_small, mm_get_csize, mm_link_small,
  mm_unlink_small, detach,
}

-- The instruction bsr: the highest set bit, of the bits up to n.
abbrev pub highest_bit : ℕ → ℕ → ℕ
highest_bit zero v = 0
highest_bit (suc n) v = let rest = highest_bit n v in if leb (2 ^ suc n) v then suc n else rest

unfoldable pub bsr : ℕ → ℕ
bsr v = highest_bit 31 v

unfoldable pub mm_slot_large : ℕ → ℕ
mm_slot_large v = let e = bsr (v / 2 ^ 8) in e * 4 + v / 2 ^ (e + 6) % 4

-- The processor takes the count of a shift modulo 32.
unfoldable pub mm_key_large : ℕ → ℕ
mm_key_large v = v * 2 ^ ((34 - bsr v) % 32) % u32_mod

-- The loop that goes down the tree from p, and links the chunk n of size s.
unfoldable pub insert : ℕ → Heap → ℕ → ℕ → ℕ → ℕ → Option Heap
insert zero h n s k p = none
insert (suc fuel) h n s k p =
    if s == mm_get_csize h p
    then (let h = put h (next n) (h.word (next p)) in
        let h = put h (prev n) p in
        let h = put h (next p) n in some (put h (prev (h.word (next n))) n))
    else (let j = k / 2 ^ 31 in
        let below = insert fuel h n s (k * 2 % u32_mod) (h.word (child p j)) in
        if h.word (child p j) == 0 then some (put (put h (child p j) n) (parent n) p) else below)

-- A chunk that is alone in its ring and has no links.
unfoldable pub alone : Heap → ℕ → ℕ → Heap
alone h n i =
    let h = put h (parent n) 0 in
    let h = put h (slot n) i in
    let h = put h (child n 0) 0 in
    let h = put h (child n 1) 0 in let h = put h (next n) n in put h (prev n) n

unfoldable pub mm_link_large : ℕ → Heap → ℕ → Option Heap
mm_link_large fuel h n =
    let s = mm_get_csize h n in
    let i = mm_slot_large s in
    let h = alone h n i in
    if h.lb i == 0
    then some (put (put_lb h i n) (parent n) 0)
    else insert fuel h n s (mm_key_large s) (h.lb i)

-- The loop that looks for the rightmost child: c stays the same from round to round.
unfoldable pub rightmost : ℕ → Heap → ℕ → Option ℕ
rightmost zero h c = none
rightmost (suc fuel) h c =
    let j = if h.word (child c 1) == 0 then 0 else 1 in
    let again = rightmost fuel h c in if h.word (child c j) == 0 then some c else again

-- The branch of p in its parent.
unfoldable pub branch : Heap → ℕ → ℕ
branch h p = if h.word (child (h.word (parent p)) 0) == p then 0 else 1

-- A chunk that has others in its ring: the next one takes its place.
unfoldable pub unlink_ring : Heap → ℕ → Heap
unlink_ring h p =
    let h = detach h p in
    let n = h.word (next p) in
    if not (h.word (parent p) == 0) || p == h.lb (h.word (slot p))
    then (let h = put h (child n 0) (h.word (child p 0)) in
        let h = put h (child n 1) (h.word (child p 1)) in
        let up = h.word (parent p) in
        let h =
          if not (up == 0) && h.word (child up 0) == p
          then put h (child up 0) n
          else if not (up == 0) && h.word (child up 1) == p
          then put h (child up 1) n
          else h in
        if p == h.lb (h.word (slot p)) then put_lb h (h.word (slot p)) n else h)
    else h

-- A chunk with no children.
unfoldable pub unlink_leaf : Heap → ℕ → Heap
unlink_leaf h p =
    let h =
      if h.word (parent p) == 0 then h else put h (child (h.word (parent p)) (branch h p)) 0 in
    if h.lb (h.word (slot p)) == p then put_lb h (h.word (slot p)) 0 else h

-- A chunk with children: c takes its place.
unfoldable pub replace : Heap → ℕ → ℕ → Heap
replace h p c =
    let h = put h (child (h.word (parent c)) (branch h c)) 0 in
    let h = put h (child c 0) (h.word (child p 0)) in
    let h = put h (child c 1) (h.word (child p 1)) in
    let h =
      if h.word (parent p) == 0 then h else put h (child (h.word (parent p)) (branch h p)) c in
    if h.lb (h.word (slot p)) == p then put_lb h (h.word (slot p)) c else h

unfoldable pub mm_unlink_large : ℕ → Heap → ℕ → Option Heap
mm_unlink_large fuel h p =
    if h.word (next p) == p
    then (rightmost fuel h p >>= λ c. some (if c == p then unlink_leaf h p else replace h p c))
    else some (unlink_ring h p)

unfoldable pub mm_link : ℕ → Heap → ℕ → Option Heap
mm_link fuel h p =
    if ltb (mm_get_csize h p) max_small then some (mm_link_small h p) else mm_link_large fuel h p

unfoldable pub mm_unlink : ℕ → Heap → ℕ → Option Heap
mm_unlink fuel h p =
    if ltb (mm_get_csize h p) max_small
    then some (mm_unlink_small h p)
    else mm_unlink_large fuel h p
