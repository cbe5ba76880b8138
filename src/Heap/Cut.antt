-- ===== src/Heap/Cut.antt =====
-- Theorems on mm_split of loader/krn/mm.c: a block is cut from the room.
use nkos.Common.{
  subst, ◌+◌, ◌-◌, ◌%◌, ◌≤◌, ◌≡◌, inl, inr, ◌∙◌, refl, sym, ap, leb, ℕ, suc, true, false,
  Bool-cases, leb→le, arith, some, none, List, ◌∷◌,
}
use nkos.Heap.{Heap, put, csz, sub32, mm_get_csize, mm_next}
use nkos.Heap.Large.{mm_unlink}
use nkos.Heap.Alloc.{split_chunk, whole_chunk, mm_split}
use nkos.Heap.Only.{IsClear, IsKept, unlink-IsClear}
use nkos.Heap.Tags.{whole_tag, last_set, size_of, next_of}
use nkos.Heap.Split.{split_chunk-lem}
use nkos.Heap.Arena.{
  AreBlocks, IsHeap, take_block, last_chunk, AreBlocks-kept, AreBlocks-first, IsBelow,
}

whole_chunk-lem :
    (h : Heap) (p s : ℕ)
    → h.word (csz p) ≡ s + 1
    → s % 4 ≡ 0
    → p + s + 4 ≡ last_chunk
    → 16 ≤ s
    → h.word (csz last_chunk) ≡ 2
    → whole_chunk h p ≡ put (put h (csz p) (s + 3)) (csz last_chunk) 3
unfolding whole_chunk
whole_chunk-lem h p s at e end some_s last =
    let h_p = put h (csz p) (s + 3) in
    let size_p = size_of h_p p s 3 (ground arith) e (omega arith) in
    let next_p : mm_next h_p p ≡ last_chunk = next_of h_p p s size_p (omega arith) ∙ end in
    let set = last_set h_p last_chunk (ground arith) in rw (whole_tag h p s at e, next_p) set

-- The heap after the unlink of its room p of s bytes: h is the heap before it.
cut-IsHeap :
    (fuel : ℕ) (h g : Heap) (blocks : List (ℕ × ℕ)) (p s r : ℕ)
    → AreBlocks h.word blocks p
    → IsKept h g p s
    → IsClear g
    → g.word (csz p) ≡ s + 1
    → g.word (csz last_chunk) ≡ 2
    → s % 4 ≡ 0
    → p + s + 4 ≡ last_chunk
    → r % 4 ≡ 0
    → 16 ≤ r
    → r + 20 ≤ s
    → (f : Heap) × (split_chunk fuel g p s r ≡ some (f, p + r + 4))
      × IsHeap f (record { blocks = (p, r) ∷ blocks; room = some (p + r + 4, s - r - 4) })
      × IsBelow h f p
cut-IsHeap fuel h g blocks p s r chain kept clear tag last four end r_four some_r le =
    let n = p + r + 4 in
    let (f, cut, only, f_kept) =
      split_chunk-lem fuel g p s r clear tag four r_four le (omega arith) in
    let below : IsBelow h f p =
      λ a l. f_kept a (inl (omega arith)) ∙ (ground arith ∙ kept a (inl (omega arith))) in
    (
      f,
      cut,
      (
        n,
        (
          refl,
          some_r,
          r_four,
          f_kept (csz p) (inl (omega arith)) ∙ ground arith,
          AreBlocks-kept h.word f.word blocks p chain (λ a l. below a (omega arith)),
        ),
        (
          refl,
          omega arith,
          omega arith,
          omega arith,
          f_kept (csz n) (inl (omega arith)) ∙ ground arith,
          f_kept (csz last_chunk) (inr (omega arith)) ∙ (ground arith ∙ last),
          only,
        ),
      ),
      below,
    )

whole-IsHeap :
    (h g : Heap) (blocks : List (ℕ × ℕ)) (p s : ℕ)
    → AreBlocks h.word blocks p
    → IsKept h g p s
    → IsClear g
    → s % 4 ≡ 0
    → p + s + 4 ≡ last_chunk
    → 16 ≤ s
    → IsHeap
        (put (put g (csz p) (s + 3)) (csz last_chunk) 3)
        (record { blocks = (p, s) ∷ blocks; room = none })
      × IsBelow h (put (put g (csz p) (s + 3)) (csz last_chunk) 3) p
whole-IsHeap h g blocks p s chain kept clear four end some_s =
    let f = put (put g (csz p) (s + 3)) (csz last_chunk) 3 in
    let below : IsBelow h f p = λ a l. ground (arith, kept a (inl (omega arith))) in
    let blocks_kept = AreBlocks-kept h.word f.word blocks p chain (λ a l. below a (omega arith)) in
    (
      (last_chunk, (sym end, some_s, four, ground arith, blocks_kept), (refl, clear, ground arith)),
      below,
    )

mm_split-cut :
    (fuel : ℕ) (h g : Heap) (p s r : ℕ)
    → mm_get_csize h p ≡ s
    → mm_unlink fuel h p ≡ some g
    → leb 20 (sub32 s r) ≡ true
    → mm_split fuel h p r ≡ split_chunk fuel g p s r
unfolding mm_split
mm_split-cut fuel h g p s r size unlinked room = rw (size, unlinked, room) refl

mm_split-whole :
    (fuel : ℕ) (h g : Heap) (p s r : ℕ)
    → mm_get_csize h p ≡ s
    → mm_unlink fuel h p ≡ some g
    → leb 20 (sub32 s r) ≡ false
    → mm_split fuel h p r ≡ some (whole_chunk g p, 0)
unfolding mm_split
mm_split-whole fuel h g p s r size unlinked room = rw (size, unlinked, room) refl

-- mm_split of the room for a request that fits.
pub split-IsHeap :
    (fuel : ℕ) (h : Heap) (blocks : List (ℕ × ℕ)) (p s r : ℕ)
    → IsHeap h (record { blocks = blocks; room = some (p, s) })
    → r % 4 ≡ 0
    → 16 ≤ r
    → r ≤ s
    → (g : Heap) × (n : ℕ) × (mm_split (suc fuel) h p r ≡ some (g, n))
      × IsHeap g (take_block (record { blocks = blocks; room = some (p, s) }) r).0
      × IsBelow h g p
split-IsHeap fuel h blocks p s r (top, chain, (p_top, end, some_s, four, tag, last, only)) r_four
      some_r le =
    let low = AreBlocks-first h.word blocks top chain in
    let size_p = size_of h p s 1 tag four (omega arith) in
    let (g, unlinked, clear, kept) = unlink-IsClear fuel h p s only (omega arith, some_s, size_p) in
    let g_tag : g.word (csz p) ≡ s + 1 = kept (csz p) (inl (omega arith)) ∙ tag in
    let g_last : g.word (csz last_chunk) ≡ 2 = kept (csz last_chunk) (inr (omega arith)) ∙ last in
    let chain_p = subst (AreBlocks h.word blocks) (sym p_top) chain in
    elim (Bool-cases (leb (r + 20) s)) [
      | inl t ↦
          let (f, cut, is_heap, below) =
            cut-IsHeap (suc fuel) h g blocks p s r chain_p kept clear g_tag g_last four end r_four
              some_r (leb→le (r + 20) s t) in
          let room : leb 20 (sub32 s r) ≡ true = ground arith in
          (
            f,
            p + r + 4,
            mm_split-cut (suc fuel) h g p s r size_p unlinked room ∙ cut,
            rw t is_heap,
            below,
          )
      | inr t ↦
          let whole = whole_chunk-lem g p s g_tag four end some_s g_last in
          let (whole_heap, below) =
            whole-IsHeap h g blocks p s chain_p kept clear four end some_s in
          let small : leb 20 (sub32 s r) ≡ false = ground arith in
          let fits : leb r s ≡ true = ground arith in
          (
            put (put g (csz p) (s + 3)) (csz last_chunk) 3,
            0,
            mm_split-whole (suc fuel) h g p s r size_p unlinked small ∙ ap (λ h. some (h, 0)) whole,
            rw (t, fits) whole_heap,
            below,
          )
    ]
