-- ===== src/Heap/Init.antt =====
-- Theorems on mm_init of loader/krn/mm.c: all of the memory is one room.
use nkos.Common.{◌+◌, ◌%◌, ◌≡◌, inl, inr, ◌∙◌, refl, ap, ℕ, arith, some, []}
use nkos.Common.Memory.{◌>>=◌}
use nkos.Heap.{
  Heap, put, csz, sub32, mm_get_csize, mm_set_csize, mm_set_psize, mm_clr_pbusy, mm_set_cbusy,
  mm_align4, mm_first, mm_last,
}
use nkos.Heap.Alloc.{first_chunks, mm_init}
use nkos.Heap.Large.{mm_link}
use nkos.Heap.Only.{IsClear, link-IsOnly}
use nkos.Heap.Tags.{with_word, free_tag, size_of}
use nkos.Heap.Arena.{IsHeap, first_chunk, last_chunk}
use mathlib.Core.Path.{fun_ext}

-- The payload of the first chunk, when it is all of the memory.
abbrev pub whole_room : ℕ
whole_room = 0x8fdec

abbrev with_cf : Heap → Heap
with_cf h = record h { cf = first_chunk }

last_tag :
    (h : Heap) (e n : ℕ)
    → n % 4 ≡ 0
    → mm_set_cbusy (mm_clr_pbusy (mm_set_psize (mm_set_csize h e 0) e n) e) e
      ≡ put (put h e n) (csz e) 2
unfolding mm_set_cbusy mm_clr_pbusy mm_set_psize mm_set_csize
last_tag h e n four = ap (with_word h) (fun_ext (λ a. ground arith))

-- The arena of mm_init before the first chunks.
abbrev placed : Heap → Heap
placed h = record h { start = 0x1020c; end = 0xa0000 }

abbrev first_words : Heap → Heap
first_words h =
    put (put (put h (csz first_chunk) (whole_room + 1)) last_chunk whole_room) (csz last_chunk) 2

size_first :
    (h : Heap)
    → h.word (csz first_chunk) ≡ whole_room + 1
    → mm_get_csize (mm_set_csize h last_chunk 0) first_chunk ≡ whole_room
unfolding mm_get_csize mm_set_csize
size_first h at = omega arith

first_chunks-words :
    (h : Heap) → first_chunks (placed h) first_chunk last_chunk ≡ first_words (placed h)
unfolding first_chunks
first_chunks-words h =
    let g = placed h in
    let room : sub32 (sub32 0xa0000 0x1020c) 8 ≡ whole_room = omega arith in
    let g_s = put g (csz first_chunk) (whole_room + 1) in
    let size : mm_get_csize (mm_set_csize g_s last_chunk 0) first_chunk ≡ whole_room =
      size_first g_s refl in
    rw (free_tag g first_chunk whole_room refl, size) (last_tag g_s last_chunk whole_room refl)

mm_init-words :
    (fuel : ℕ) (h : Heap)
    → mm_init fuel h ≡ (mm_link fuel (first_words (placed h)) first_chunk >>= λ g. some (with_cf g))
unfolding mm_init mm_align4 mm_first mm_last
mm_init-words fuel h = rw (first_chunks-words h) refl

-- mm_init with all bins null: no blocks, and one room from the end of the arena to the end of
-- the memory.
pub mm_init-IsHeap :
    (fuel : ℕ) (h : Heap)
    → IsClear h
    → (g : Heap) × (mm_init fuel h ≡ some g)
      × IsHeap g (record { blocks = []; room = some (first_chunk, whole_room) })
mm_init-IsHeap fuel h clear =
    let f = first_words (placed h) in
    let size = size_of f first_chunk whole_room 1 refl refl (omega arith) in
    let (g, linked, only, kept) =
      link-IsOnly fuel f first_chunk whole_room clear (omega arith, omega arith, size) in
    (
      with_cf g,
      mm_init-words fuel h ∙ ap (λ o. o >>= λ g. some (with_cf g)) linked,
      (
        first_chunk,
        refl,
        (
          refl,
          refl,
          omega arith,
          refl,
          kept (csz first_chunk) (inl (omega arith)),
          kept (csz last_chunk) (inr (omega arith)),
          only,
        ),
      ),
    )
