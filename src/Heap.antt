-- ===== src/Heap.antt =====
-- loader/krn/mm.c: the chunks of the heap of the loader, and the bins of small ones.
--
-- The memory is a function from addresses to 32-bit words, and a chunk is its address. The arena is kept
-- apart from the memory: only its last word, cf, lies in a chunk, as the psz of the first one, which is
-- never read, since that chunk has no chunk before it.
mod Large
mod Search
mod Alloc
mod Slots
mod Only
mod Bins
mod Find
mod Tags
mod Split
mod Arena
mod Cut
mod Malloc
mod Free
mod Init
mod Runs
mod Blocks
mod Rings
mod Unlink
mod Tests
use nkos.Common.{◌+◌, ◌-◌, ◌*◌, ◌/◌, ◌%◌, ◌^◌, ◌==◌, if◌then◌else◌, u32_mod, ℕ, Bool}

abbrev pub write : (ℕ → ℕ) → ℕ → ℕ → ℕ → ℕ
write w a v = λ b. if b == a then v else w b

-- struct arena_t, and the memory.
pub record Heap : Type 0 where
  pub word : ℕ → ℕ
  pub start : ℕ
  pub end : ℕ
  pub lb : ℕ → ℕ
  pub sb : ℕ → ℕ
  pub cf : ℕ

abbrev pub add32 : ℕ → ℕ → ℕ
add32 a b = (a + b) % u32_mod

abbrev pub sub32 : ℕ → ℕ → ℕ
sub32 a b = (a + u32_mod - b) % u32_mod

abbrev pub put : Heap → ℕ → ℕ → Heap
put h a v = record h { word = write h.word a v }

abbrev pub put_sb : Heap → ℕ → ℕ → Heap
put_sb h i p = record h { sb = write h.sb i p }

abbrev pub put_lb : Heap → ℕ → ℕ → Heap
put_lb h i p = record h { lb = write h.lb i p }

-- The fields of struct chunk_t.
abbrev pub csz : ℕ → ℕ
csz p = p + 4

abbrev pub prev : ℕ → ℕ
prev p = p + 8

abbrev pub next : ℕ → ℕ
next p = p + 12

abbrev pub parent : ℕ → ℕ
parent p = p + 16

-- c[j]
abbrev pub child : ℕ → ℕ → ℕ
child p j = p + 20 + 4 * j

abbrev pub slot : ℕ → ℕ
slot p = p + 28

abbrev pub max_small : ℕ
max_small = 0x100

unfoldable pub mm_align4 : ℕ → ℕ
mm_align4 size = let r = size / 4 * 4 in if r == size then r else add32 r 4

unfoldable pub mm_align8 : ℕ → ℕ
mm_align8 size = let r = size / 8 * 8 in if r == size then r else add32 r 8

-- The two low bits of csz stay.
unfoldable pub mm_set_csize : Heap → ℕ → ℕ → Heap
mm_set_csize h p size = put h (csz p) (size / 4 * 4 + h.word (csz p) % 4)

unfoldable pub mm_set_psize : Heap → ℕ → ℕ → Heap
mm_set_psize h p size = put h p (size / 4 * 4)

-- csz |= 1
unfoldable pub mm_set_pbusy : Heap → ℕ → Heap
mm_set_pbusy h p = put h (csz p) (h.word (csz p) / 2 * 2 + 1)

-- csz |= 2
unfoldable pub mm_set_cbusy : Heap → ℕ → Heap
mm_set_cbusy h p = put h (csz p) (h.word (csz p) / 4 * 4 + 2 + h.word (csz p) % 2)

-- csz &= 0xFFFFFFFE
unfoldable pub mm_clr_pbusy : Heap → ℕ → Heap
mm_clr_pbusy h p = put h (csz p) (h.word (csz p) / 2 * 2)

-- csz &= 0xFFFFFFFD
unfoldable pub mm_clr_cbusy : Heap → ℕ → Heap
mm_clr_cbusy h p = put h (csz p) (h.word (csz p) / 4 * 4 + h.word (csz p) % 2)

unfoldable pub mm_get_csize : Heap → ℕ → ℕ
mm_get_csize h p = h.word (csz p) / 4 * 4

unfoldable pub mm_get_psize : Heap → ℕ → ℕ
mm_get_psize h p = h.word p

unfoldable pub mm_is_cbusy : Heap → ℕ → Bool
mm_is_cbusy h p = h.word (csz p) / 2 % 2 == 1

unfoldable pub mm_is_pbusy : Heap → ℕ → Bool
mm_is_pbusy h p = h.word (csz p) % 2 == 1

unfoldable pub mm_first : Heap → ℕ
mm_first h = sub32 h.start 4

unfoldable pub mm_last : Heap → ℕ
mm_last h = sub32 h.end 8

unfoldable pub mm_next : Heap → ℕ → ℕ
mm_next h p = add32 (add32 p (mm_get_csize h p)) 4

unfoldable pub mm_prev : Heap → ℕ → ℕ
mm_prev h p = sub32 (sub32 p (mm_get_psize h p)) 4

unfoldable pub mm_chunk2data : ℕ → ℕ
mm_chunk2data p = add32 p 8

unfoldable pub mm_data2chunk : ℕ → ℕ
mm_data2chunk p = sub32 p 8

-- A chunk after the first one of its bin.
unfoldable pub link_after : Heap → ℕ → ℕ → Heap
link_after h p head =
    let h = put h (prev p) head in
    let h = put h (next p) (h.word (next (h.word (prev p)))) in
    let h = put h (prev (h.word (next p))) p in put h (next (h.word (prev p))) p

unfoldable pub mm_link_small : Heap → ℕ → Heap
mm_link_small h p =
    let i = mm_get_csize h p / 8 in
    if h.sb i == 0 then put_sb (put (put h (prev p) p) (next p) p) i p else link_after h p (h.sb i)

-- The neighbours of a chunk in its ring get to know each other.
unfoldable pub detach : Heap → ℕ → Heap
detach h p =
    let h = put h (prev (h.word (next p))) (h.word (prev p)) in
    put h (next (h.word (prev p))) (h.word (next p))

unfoldable pub mm_unlink_small : Heap → ℕ → Heap
mm_unlink_small h p =
    let i = mm_get_csize h p / 8 in
    let h = detach h p in
    let h = if h.word (next p) == h.word (prev p) then put (put h (next p) 0) (prev p) 0 else h in
    if h.sb i == p then put_sb h i (h.word (next p)) else h
