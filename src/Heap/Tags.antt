-- ===== src/Heap/Tags.antt =====
-- Theorems on the sizes and busy bits of the chunks of loader/krn/mm.c: what each sequence of writes leaves.
use nkos.Common.{◌+◌, ◌%◌, ◌<◌, ◌≡◌, ◌⊎◌, ap, u32_mod, ℕ, arith}
use nkos.Heap.{
  Heap, put, csz, mm_get_csize, mm_set_csize, mm_set_psize, mm_set_cbusy, mm_set_pbusy,
  mm_clr_cbusy, mm_clr_pbusy, mm_next,
}
use mathlib.Core.Path.{fun_ext}

abbrev pub with_word : Heap → (ℕ → ℕ) → Heap
with_word h w = record h { word = w }

-- A free chunk behind a busy one becomes busy, of another size.
pub busy_tag :
    (h : Heap) (p s r : ℕ)
    → h.word (csz p) ≡ s + 1
    → s % 4 ≡ 0
    → r % 4 ≡ 0
    → mm_set_cbusy (mm_set_csize h p r) p ≡ put h (csz p) (r + 3)
unfolding mm_set_cbusy mm_set_csize
busy_tag h p s r at e f = ap (with_word h) (fun_ext (λ a. ground arith))

pub whole_tag :
    (h : Heap) (p s : ℕ)
    → h.word (csz p) ≡ s + 1
    → s % 4 ≡ 0
    → mm_set_cbusy h p ≡ put h (csz p) (s + 3)
unfolding mm_set_cbusy
whole_tag h p s at e = ap (with_word h) (fun_ext (λ a. ground arith))

-- A new free chunk behind a busy one.
pub free_tag :
    (h : Heap) (p s : ℕ)
    → s % 4 ≡ 0
    → mm_clr_cbusy (mm_set_pbusy (mm_set_csize h p s) p) p ≡ put h (csz p) (s + 1)
unfolding mm_clr_cbusy mm_set_pbusy mm_set_csize
free_tag h p s e = ap (with_word h) (fun_ext (λ a. ground arith))

pub psize_tag : (h : Heap) (p s : ℕ) → s % 4 ≡ 0 → mm_set_psize h p s ≡ put h p s
unfolding mm_set_psize
psize_tag h p s e = ap (with_word h) (fun_ext (λ a. ground arith))

-- A busy chunk behind a busy one becomes free.
pub released_tag :
    (h : Heap) (p s : ℕ)
    → h.word (csz p) ≡ s + 3
    → s % 4 ≡ 0
    → mm_clr_cbusy h p ≡ put h (csz p) (s + 1)
unfolding mm_clr_cbusy
released_tag h p s at e = ap (with_word h) (fun_ext (λ a. ground arith))

pub joined_tag :
    (h : Heap) (p s r : ℕ)
    → h.word (csz p) ≡ s + 1
    → s % 4 ≡ 0
    → r % 4 ≡ 0
    → mm_set_csize h p r ≡ put h (csz p) (r + 1)
unfolding mm_set_csize
joined_tag h p s r at e f = ap (with_word h) (fun_ext (λ a. ground arith))

-- The bit of the chunk before it, in the last chunk.
pub last_set : (h : Heap) (p : ℕ) → h.word (csz p) ≡ 2 → mm_set_pbusy h p ≡ put h (csz p) 3
unfolding mm_set_pbusy
last_set h p at = ap (with_word h) (fun_ext (λ a. ground arith))

pub last_clear :
    (h : Heap) (p : ℕ)
    → (h.word (csz p) ≡ 2) ⊎ (h.word (csz p) ≡ 3)
    → mm_clr_pbusy h p ≡ put h (csz p) 2
unfolding mm_clr_pbusy
last_clear h p at = ap (with_word h) (fun_ext (λ a. ground arith))

pub size_of :
    (h : Heap) (p s t : ℕ) → h.word (csz p) ≡ s + t → s % 4 ≡ 0 → t < 4 → mm_get_csize h p ≡ s
unfolding mm_get_csize
size_of h p s t at e f = omega arith

pub next_of :
    (h : Heap) (p s : ℕ) → mm_get_csize h p ≡ s → p + s + 4 < u32_mod → mm_next h p ≡ p + s + 4
unfolding mm_next
next_of h p s e f = omega arith
