-- ===== src/Heap/Bins.antt =====
-- Theorems on the loops over the large bins of loader/krn/mm.c when there is one free chunk.
use nkos.Common.{
  ◌≢◌, ◌+◌, ◌/◌, ◌^◌, ◌≤◌, ◌<◌, ◌≡◌, inl, inr, refl, ◌==◌, if◌then◌else◌, leb, ltb, ◌&&◌, u32_mod,
  ℕ, zero, suc, true, false, Bool-cases, arith, some,
}
use nkos.Heap.{Heap, child}
use nkos.Heap.Large.{mm_key_large, mm_slot_large}
use nkos.Heap.Search.{Best, leftmost, larger_bins, own_bin, descend}
use nkos.Heap.Only.{IsOnly, IsChunk}
use nkos.Heap.Slots.{key_large-bound}

pub larger_bins_empty :
    (fuel : ℕ) (h : Heap) (r n j : ℕ) (b : Best)
    → ((i : ℕ) → j ≤ i → h.lb i ≡ 0)
    → larger_bins (suc fuel) h r n j b ≡ some b
unfolding larger_bins leftmost
larger_bins_empty fuel h r zero j b e = refl
larger_bins_empty fuel h r (suc n) j b e =
    rw (e j (omega arith)) (larger_bins_empty fuel h r n (j + 1) b (λ i l. e i (omega arith)))

-- The way down from a chunk without children.
leftmost_leaf :
    (fuel : ℕ) (h : Heap) (r p s m c : ℕ)
    → IsOnly h p s
    → IsChunk h p s
    → 256 ≤ s
    → leftmost (suc (suc fuel)) h r p (m, c) ≡ some (if leb r s && ltb s m then (s, p) else (m, c))
unfolding leftmost
leftmost_leaf fuel h r p s m c (_, _, _, _, links) (some_p, _, at) l =
    let (_, _, left, right) = links l in ground arith

leftmost_null : (fuel : ℕ) (h : Heap) (r : ℕ) (b : Best) → leftmost (suc fuel) h r 0 b ≡ some b
unfolding leftmost
leftmost_null fuel h r b = refl

pub larger_bins_only :
    (fuel : ℕ) (h : Heap) (r n j p s m : ℕ)
    → IsOnly h p s
    → IsChunk h p s
    → 256 ≤ s
    → r ≤ s
    → s < m
    → j ≤ mm_slot_large s
    → mm_slot_large s < j + n
    → larger_bins (suc (suc fuel)) h r n j (m, 0) ≡ some (s, p)
unfolding larger_bins
larger_bins_only fuel h r zero j p s m only chunk l le lt j_low j_high = absurd (omega arith)
larger_bins_only fuel h r (suc n) j p s m only chunk l le lt j_low j_high =
    let large = only.1 in
    elim (Bool-cases (j == mm_slot_large s)) [
      | inl t ↦
          let here : h.lb j ≡ p = ground (arith, large j) in
          let found : leftmost (suc (suc fuel)) h r p (m, 0) ≡ some (s, p) =
            ground (arith, leftmost_leaf fuel h r p s m 0 only chunk l) in
          rw (here, found)
            (larger_bins_empty (suc fuel) h r n (j + 1) (s, p) (λ i b. ground (arith, large i)))
      | inr t ↦
          let here : h.lb j ≡ 0 = ground (arith, large j) in
          let empty : leftmost (suc (suc fuel)) h r 0 (m, 0) ≡ some (m, 0) =
            leftmost_null (suc fuel) h r (m, 0) in
          rw (here, empty)
            (larger_bins_only fuel h r n (j + 1) p s m only chunk l le lt (ground arith)
              (omega arith))
    ]

descend_leaf :
    (fuel : ℕ) (h : Heap) (r k p s m : ℕ)
    → IsOnly h p s
    → IsChunk h p s
    → 256 ≤ s
    → k < u32_mod
    → descend (suc fuel) h r k p 0 (m, 0)
      ≡ some (
        if leb r s && ltb s m && s == r then p else 0,
        if leb r s && ltb s m then (s, p) else (m, 0),
      )
unfolding descend
descend_leaf fuel h r k p s m (_, _, _, _, links) (some_p, _, at) l word =
    let (_, _, left, right) = links l in
    let j = k / 2 ^ 31 in
    let none_below : h.word (child p j) ≡ 0 = elim (Bool-cases (j == 0)) [
      | inl t ↦ ground arith
      | inr t ↦ ground arith
    ] in
    rw (none_below, right, at) (ground arith)

pub own_bin_here :
    (fuel : ℕ) (h : Heap) (r p s : ℕ)
    → IsOnly h p s
    → IsChunk h p s
    → s < 0xffffffff
    → 256 ≤ s
    → mm_slot_large r ≡ mm_slot_large s
    → own_bin (suc (suc fuel)) h r ≡ some (if leb r s then (s, p) else (0xffffffff, 0))
unfolding own_bin
own_bin_here fuel h r p s only chunk b l same =
    let large = only.1 in
    let here : h.lb (mm_slot_large r) ≡ p = ground (arith, large (mm_slot_large r)) in
    let word : mm_key_large r < u32_mod = key_large-bound r in
    let down = descend_leaf (suc fuel) h r (mm_key_large r) p s 0xffffffff only chunk l word in
    let some_p : (p == 0) ≡ false = ground arith in
    let small : ltb s 0xffffffff ≡ true = ground arith in
    let none_left = leftmost_null (suc fuel) h r in
    let last = leftmost_leaf fuel h r p s s p only chunk l in
    elim (Bool-cases (leb r s)) [
      | inl t ↦
          rw (here, some_p, down, t, small)
            (elim (Bool-cases (s == r)) [
              | inl e ↦ rw e (ground (arith, last))
              | inr e ↦ rw e (none_left (s, p))
            ])
      | inr t ↦ rw (here, some_p, down, t) (none_left (0xffffffff, 0))
    ]

pub own_bin_other :
    (fuel : ℕ) (h : Heap) (r p s : ℕ)
    → IsOnly h p s
    → (256 ≤ s → mm_slot_large r ≢ mm_slot_large s)
    → own_bin (suc (suc fuel)) h r ≡ some (0xffffffff, 0)
unfolding own_bin
own_bin_other fuel h r p s only other =
    let large = only.1 in ground (arith, large (mm_slot_large r), other)
