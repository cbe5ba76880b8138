-- ===== src/Heap/Free.antt =====
-- Theorems on mm_free of loader/krn/mm.c: the last block goes back to the room.
use nkos.Common.{
  ◌+◌, ◌/◌, ◌%◌, ◌≤◌, ◌<◌, ◌≡◌, ◌⊎◌, inl, inr, ◌∙◌, refl, ap, ◌==◌, u32_mod, ℕ, suc, true, false,
  arith, Option, some, none, List, ◌∷◌,
}
use nkos.Common.Memory.{◌>>=◌}
use nkos.Heap.{
  Heap, put, csz, add32, sub32, mm_next, mm_data2chunk, mm_is_cbusy, mm_is_pbusy, mm_clr_cbusy,
}
use nkos.Heap.Large.{mm_link, mm_unlink}
use nkos.Heap.Alloc.{join_next, join_prev, finish, mm_coalesce, mm_free}
use nkos.Heap.Only.{IsClear, link-IsOnly, unlink-IsClear, IsOnly-kept}
use nkos.Heap.Tags.{psize_tag, released_tag, joined_tag, last_clear, size_of, next_of}
use nkos.Heap.Arena.{AreBlocks, IsHeap, grown, last_chunk, AreBlocks-kept, AreBlocks-first, IsBelow}

-- The heap when the last chunk knows that the room of n bytes is before it.
abbrev ended : Heap → ℕ → Heap
ended h n = put (put h last_chunk n) (csz last_chunk) 2

finish-words :
    (fuel : ℕ) (h : Heap) (q n : ℕ)
    → h.word (csz q) ≡ n + 1
    → n % 4 ≡ 0
    → 16 ≤ n
    → q + n + 4 ≡ last_chunk
    → (h.word (csz last_chunk) ≡ 2) ⊎ (h.word (csz last_chunk) ≡ 3)
    → finish fuel h q ≡ (mm_link fuel (ended h n) q >>= λ g. some (g, q))
unfolding finish join_prev mm_is_pbusy
finish-words fuel h q n tag four some_n end last =
    let size_q = size_of h q n 1 tag four (omega arith) in
    let next_q : mm_next h q ≡ last_chunk = next_of h q n size_q (omega arith) ∙ end in
    let h_l = put h last_chunk n in
    let l_tag : (h_l.word (csz last_chunk) ≡ 2) ⊎ (h_l.word (csz last_chunk) ≡ 3) = last in
    let behind : ((ended h n).word (csz q) % 2 == 1) ≡ true = ground arith in
    rw (next_q, size_q, psize_tag h last_chunk n four, last_clear h_l last_chunk l_tag, behind) refl

-- The end of mm_coalesce for the chunk q of n bytes at the end of the blocks.
finish-IsHeap :
    (fuel : ℕ) (h : Heap) (blocks : List (ℕ × ℕ)) (q n : ℕ)
    → AreBlocks h.word blocks q
    → IsClear h
    → h.word (csz q) ≡ n + 1
    → n % 4 ≡ 0
    → 16 ≤ n
    → q + n + 4 ≡ last_chunk
    → (h.word (csz last_chunk) ≡ 2) ⊎ (h.word (csz last_chunk) ≡ 3)
    → (g : Heap) × (finish fuel h q ≡ some (g, q))
      × IsHeap g (record { blocks = blocks; room = some (q, n) })
      × IsBelow h g q
finish-IsHeap fuel h blocks q n chain clear tag four some_n end last =
    let low = AreBlocks-first h.word blocks q chain in
    let f = ended h n in
    let f_tag : f.word (csz q) ≡ n + 1 = ground arith in
    let size_q = size_of f q n 1 f_tag four (omega arith) in
    let (g, linked, only, kept) = link-IsOnly fuel f q n clear (omega arith, some_n, size_q) in
    let below : IsBelow h g q = λ a l. kept a (inl (omega arith)) ∙ ground arith in
    (
      g,
      finish-words fuel h q n tag four some_n end last ∙ ap (λ o. o >>= λ g. some (g, q)) linked,
      (
        q,
        AreBlocks-kept h.word g.word blocks q chain (λ a l. below a (omega arith)),
        (
          refl,
          end,
          some_n,
          four,
          kept (csz q) (inl (omega arith)) ∙ f_tag,
          kept (csz last_chunk) (inr (omega arith)) ∙ ground arith,
          only,
        ),
      ),
      below,
    )

-- The room behind the block that mm_free gives back: its bit of q is clear already.
join_next-room :
    (fuel : ℕ) (h g : Heap) (q n p s : ℕ)
    → mm_next h q ≡ p
    → h.word (csz p) ≡ s + 1
    → s % 4 ≡ 0
    → mm_unlink fuel h p ≡ some g
    → g.word (csz p) ≡ s + 1
    → g.word (csz q) ≡ n + 1
    → n % 4 ≡ 0
    → n + s + 4 < u32_mod
    → join_next fuel h q ≡ some (put g (csz q) (n + s + 4 + 1))
unfolding join_next mm_is_cbusy
join_next-room fuel h g q n p s next_q tag four unlinked g_tag q_tag n_four b =
    let free : (h.word (csz p) / 2 % 2 == 1) ≡ false = ground arith in
    let size_p = size_of g p s 1 g_tag four (omega arith) in
    let size_q = size_of g q n 1 q_tag n_four (omega arith) in
    let sum : add32 (add32 s n) 4 ≡ n + s + 4 = omega arith in
    rw (next_q, free, unlinked, size_p, size_q, sum)
      (ap some (joined_tag g q n (n + s + 4) q_tag n_four (omega arith)))

join_next-last :
    (fuel : ℕ) (h : Heap) (q : ℕ)
    → mm_next h q ≡ last_chunk
    → h.word (csz last_chunk) ≡ 3
    → join_next fuel h q ≡ some h
unfolding join_next mm_is_cbusy
join_next-last fuel h q next_q tag = rw (next_q, tag) refl

coalesce-of :
    (fuel : ℕ) (h h_q g f : Heap) (q : ℕ)
    → mm_clr_cbusy h q ≡ h_q
    → join_next fuel h_q q ≡ some g
    → finish fuel g q ≡ some (f, q)
    → q + 8 < u32_mod
    → mm_free fuel h (q + 8) ≡ some f
unfolding mm_free mm_coalesce mm_data2chunk
coalesce-of fuel h h_q g f q cleared joined done b =
    let at : sub32 (q + 8) 8 ≡ q = omega arith in rw (at, cleared, joined, done) refl

-- mm_free of the last block of a heap of blocks and at most one room: it returns, the block becomes the room, with
-- the room behind it, and what the other blocks hold stays.
pub free-IsHeap :
    (fuel : ℕ) (h : Heap) (q n : ℕ) (blocks : List (ℕ × ℕ)) (room : Option (ℕ × ℕ))
    → IsHeap h (record { blocks = (q, n) ∷ blocks; room = room })
    → (g : Heap) × (mm_free (suc fuel) h (q + 8) ≡ some g)
      × IsHeap g (record { blocks = blocks; room = some (grown q n room) })
      × IsBelow h g q
free-IsHeap fuel h q n blocks none (top, (t, some_n, four, tag, chain), (top_last, clear, last)) =
    let h_q = put h (csz q) (n + 1) in
    let end : q + n + 4 ≡ last_chunk = omega arith in
    let low = AreBlocks-first h.word blocks q chain in
    let size_q = size_of h_q q n 1 (ground arith) four (omega arith) in
    let next_q : mm_next h_q q ≡ last_chunk = next_of h_q q n size_q (omega arith) ∙ end in
    let q_last : h_q.word (csz last_chunk) ≡ 3 = ground arith in
    let chain_q = AreBlocks-kept h.word h_q.word blocks q chain (λ a l. ground arith) in
    let (g, done, is, below) =
      finish-IsHeap (suc fuel) h_q blocks q n chain_q clear (ground arith) four some_n end
        (inr q_last) in
    (
      g,
      coalesce-of (suc fuel) h h_q h_q g q (released_tag h q n tag four)
          (join_next-last (suc fuel) h_q q next_q q_last) done (omega arith),
      is,
      λ a l. below a l ∙ ground arith,
    )
free-IsHeap fuel h q n blocks (some (p, s))
      (top, (t, some_n, four, tag, chain), (p_top, end, some_s, s_four, p_tag, last, only)) =
    let h_q = put h (csz q) (n + 1) in
    let low = AreBlocks-first h.word blocks q chain in
    let p_at : q + n + 4 ≡ p = omega arith in
    let size_q = size_of h_q q n 1 (ground arith) four (omega arith) in
    let next_q : mm_next h_q q ≡ p = next_of h_q q n size_q (omega arith) ∙ p_at in
    let q_tag : h_q.word (csz p) ≡ s + 1 = ground arith in
    let size_p = size_of h_q p s 1 q_tag s_four (omega arith) in
    let q_only = IsOnly-kept h h_q p s only (λ i. refl) (λ i. refl) (λ a l. ground arith) in
    let (g, unlinked, clear, kept) =
      unlink-IsClear fuel h_q p s q_only (omega arith, some_s, size_p) in
    let g_p : g.word (csz p) ≡ s + 1 = kept (csz p) (inl (omega arith)) ∙ q_tag in
    let g_q : g.word (csz q) ≡ n + 1 = kept (csz q) (inl (omega arith)) ∙ ground arith in
    let m = n + s + 4 in
    let j = put g (csz q) (m + 1) in
    let joined =
      join_next-room (suc fuel) h_q g q n p s next_q q_tag s_four unlinked g_p g_q four
        (omega arith) in
    let j_below : IsBelow h j q =
      λ a l. ground arith ∙ (kept a (inl (omega arith)) ∙ ground arith) in
    let chain_j = AreBlocks-kept h.word j.word blocks q chain (λ a l. j_below a (omega arith)) in
    let j_last : j.word (csz last_chunk) ≡ 2 =
      ground arith ∙ (kept (csz last_chunk) (inr (omega arith)) ∙ (ground arith ∙ last)) in
    let (f, done, is, below) =
      finish-IsHeap (suc fuel) j blocks q m chain_j clear (ground arith) (omega arith) (omega arith)
        (omega arith) (inl j_last) in
    (
      f,
      coalesce-of (suc fuel) h h_q j f q (released_tag h q n tag four) joined done (omega arith),
      is,
      λ a l. below a l ∙ j_below a l,
    )
