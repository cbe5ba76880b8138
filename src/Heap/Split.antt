-- ===== src/Heap/Split.antt =====
-- Theorems on mm_split of loader/krn/mm.c when there is one free chunk.
use nkos.Common.{◌+◌, ◌-◌, ◌%◌, ◌≤◌, ◌<◌, ◌≡◌, ◌∙◌, refl, ap, u32_mod, ℕ, arith, some}
use nkos.Heap.{Heap, put, csz, sub32}
use nkos.Common.Memory.{◌>>=◌}
use nkos.Heap.Large.{mm_link}
use nkos.Heap.Alloc.{split_chunk}
use nkos.Heap.Only.{IsClear, IsOnly, IsKept, link-IsOnly}
use nkos.Heap.Tags.{busy_tag, free_tag, psize_tag, size_of, next_of}

-- The heap when the chunk p of r bytes is busy, and the chunk behind it is free: the last chunk is at last.
abbrev pub split_words : Heap → ℕ → ℕ → ℕ → ℕ → Heap
split_words h p r rest last =
    put (put (put h (csz p) (r + 3)) (csz (p + r + 4)) (rest + 1)) last rest

-- The tags that split_chunk writes before it links the rest.
split_chunk-words :
    (fuel : ℕ) (h : Heap) (p s r : ℕ)
    → h.word (csz p) ≡ s + 1
    → s % 4 ≡ 0
    → r % 4 ≡ 0
    → r + 20 ≤ s
    → p + s + 4 < u32_mod
    → split_chunk fuel h p s r ≡ (
        mm_link fuel (split_words h p r (s - r - 4) (p + s + 4)) (p + r + 4) >>= λ g.
        some (g, p + r + 4))
unfolding split_chunk
split_chunk-words fuel h p s r at e f l b =
    let n = p + r + 4 in
    let rest = s - r - 4 in
    let h_p = put h (csz p) (r + 3) in
    let h_n = put h_p (csz n) (rest + 1) in
    let left : sub32 (sub32 s r) 4 ≡ rest = omega arith in
    let size_p = size_of h_p p r 3 (ground arith) f (omega arith) in
    let next_p = next_of h_p p r size_p (omega arith) in
    let size_n = size_of h_n n rest 1 (ground arith) (omega arith) (omega arith) in
    let end : n + rest + 4 ≡ p + s + 4 = omega arith in
    let next_n = next_of h_n n rest size_n (omega arith) ∙ end in
    let l_tag = psize_tag h_n (p + s + 4) rest (omega arith) in
    rw
      (
        left,
        busy_tag h p s r at e f,
        next_p,
        free_tag h_p n rest (omega arith),
        next_n,
        size_n,
        l_tag,
      )
      refl

pub split_chunk-lem :
    (fuel : ℕ) (h : Heap) (p s r : ℕ)
    → IsClear h
    → h.word (csz p) ≡ s + 1
    → s % 4 ≡ 0
    → r % 4 ≡ 0
    → r + 20 ≤ s
    → p + s + 4 < u32_mod
    → (g : Heap) × (split_chunk fuel h p s r ≡ some (g, p + r + 4))
      × IsOnly g (p + r + 4) (s - r - 4)
      × IsKept (split_words h p r (s - r - 4) (p + s + 4)) g (p + r + 4) (s - r - 4)
split_chunk-lem fuel h p s r clear at e f l b =
    let n = p + r + 4 in
    let rest = s - r - 4 in
    let h_l = split_words h p r rest (p + s + 4) in
    let size_l = size_of h_l n rest 1 (ground arith) (omega arith) (omega arith) in
    let (g, linked, only, kept) =
      link-IsOnly fuel h_l n rest clear (omega arith, omega arith, size_l) in
    (
      g,
      split_chunk-words fuel h p s r at e f l b ∙ ap (λ o. o >>= λ g. some (g, n)) linked,
      only,
      kept,
    )
