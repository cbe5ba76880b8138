-- ===== src/Heap/Only.antt =====
-- Theorems on the bins of loader/krn/mm.c when there is one free chunk: it is linked to empty bins, and
-- unlinked.
use nkos.Common.{
  ltb→lt, ◌+◌, ◌/◌, ◌≤◌, ◌<◌, ◌≡◌, ◌⊎◌, inl, inr, ◌∙◌, refl, ◌==◌, if◌then◌else◌, leb, ltb, ◌&&◌, ℕ,
  suc, Bool-cases, arith, some,
}
use nkos.Heap.{
  Heap, put_lb, prev, next, parent, child, slot, mm_get_csize, mm_link_small, mm_unlink_small,
  detach,
}
use nkos.Heap.Large.{
  mm_slot_large, mm_link_large, mm_unlink_large, mm_link, mm_unlink, alone, rightmost, unlink_leaf,
}

-- No bin has a chunk.
abbrev pub IsClear : Heap → Type 0
IsClear h = ((i : ℕ) → h.sb i ≡ 0) × ((i : ℕ) → h.lb i ≡ 0)

-- The chunk p of size s is the only one in the bins.
abbrev pub IsOnly : Heap → ℕ → ℕ → Type 0
IsOnly h p s =
    ((i : ℕ) → h.sb i ≡ (if ltb s 256 && i == s / 8 then p else 0))
    × ((i : ℕ) → h.lb i ≡ (if leb 256 s && i == mm_slot_large s then p else 0))
    × (h.word (next p) ≡ p)
    × (h.word (prev p) ≡ p)
    × (256 ≤ s
        → (h.word (parent p) ≡ 0)
          × (h.word (slot p) ≡ mm_slot_large s)
          × (h.word (child p 0) ≡ 0)
          × (h.word (child p 1) ≡ 0))

-- The memory outside of the payload of the chunk p of size s is the same.
abbrev pub IsKept : Heap → Heap → ℕ → ℕ → Type 0
IsKept h g p s = (a : ℕ) → (a < p + 8) ⊎ (p + s + 4 ≤ a) → g.word a ≡ h.word a

-- A chunk has room for the links of its bin.
abbrev pub IsChunk : Heap → ℕ → ℕ → Type 0
IsChunk h p s = (0 < p) × (16 ≤ s) × (mm_get_csize h p ≡ s)

link_small-IsOnly :
    (h : Heap) (p s : ℕ)
    → IsClear h
    → IsChunk h p s
    → s < 256
    → IsOnly (mm_link_small h p) p s × IsKept h (mm_link_small h p) p s
unfolding mm_link_small
link_small-IsOnly h p s (small, large) (some_p, some_s, at) l =
    rw (at, small (s / 8))
      (
        (
          λ i. ground (arith, small i),
          λ i. ground (arith, large i),
          ground arith,
          ground arith,
          λ b. absurd (omega arith),
        ),
        λ a out. ground arith,
      )

unlink_small-IsClear :
    (h : Heap) (p s : ℕ)
    → IsOnly h p s
    → IsChunk h p s
    → s < 256
    → IsClear (mm_unlink_small h p) × IsKept h (mm_unlink_small h p) p s
unfolding mm_unlink_small detach
unlink_small-IsClear h p s (small, large, n, m, links) (some_p, some_s, at) l =
    rw (at, n, m)
      (
        (λ i. ground (arith, small i, small (s / 8), n, m), λ i. ground (arith, large i)),
        λ a out. ground (arith, n, m),
      )

link_large-IsOnly :
    (fuel : ℕ) (h : Heap) (p s : ℕ)
    → IsClear h
    → IsChunk h p s
    → 256 ≤ s
    → (g : Heap) × (mm_link_large fuel h p ≡ some g) × IsOnly g p s × IsKept h g p s
unfolding mm_link_large alone
link_large-IsOnly fuel h p s (small, large) (some_p, some_s, at) l =
    rw (at, large (mm_slot_large s))
      (
        _,
        refl,
        (
          λ i. ground (arith, small i),
          λ i. ground (arith, large i),
          ground arith,
          ground arith,
          λ b. (ground arith, ground arith, ground arith, ground arith),
        ),
        λ a out. ground arith,
      )

unlink_large-IsClear :
    (fuel : ℕ) (h : Heap) (p s : ℕ)
    → IsOnly h p s
    → IsChunk h p s
    → 256 ≤ s
    → (g : Heap) × (mm_unlink_large (suc fuel) h p ≡ some g) × IsClear g × IsKept h g p s
unfolding mm_unlink_large rightmost unlink_leaf
unlink_large-IsClear fuel h p s (small, large, n, m, links) (some_p, some_s, at) l =
    let (up, own_slot, left, right) = links l in
    let e : mm_unlink_large (suc fuel) h p ≡ some (put_lb h (mm_slot_large s) 0) =
      ground (arith, large (mm_slot_large s)) in
    (
      put_lb h (mm_slot_large s) 0,
      e,
      (λ i. ground (arith, small i), λ i. ground (arith, large i)),
      λ a out. ground arith,
    )

pub link-IsOnly :
    (fuel : ℕ) (h : Heap) (p s : ℕ)
    → IsClear h
    → IsChunk h p s
    → (g : Heap) × (mm_link fuel h p ≡ some g) × IsOnly g p s × IsKept h g p s
unfolding mm_link
link-IsOnly fuel h p s clear chunk =
    let at = chunk.2 in
    elim (Bool-cases (ltb s 256)) [
      | inl t ↦
          let (bins, kept) = link_small-IsOnly h p s clear chunk (ltb→lt s 256 t) in
          (mm_link_small h p, rw (at, t) refl, bins, kept)
      | inr t ↦
          let (g, e, bins, kept) = link_large-IsOnly fuel h p s clear chunk (ground arith) in
          (g, rw (at, t) e, bins, kept)
    ]

pub unlink-IsClear :
    (fuel : ℕ) (h : Heap) (p s : ℕ)
    → IsOnly h p s
    → IsChunk h p s
    → (g : Heap) × (mm_unlink (suc fuel) h p ≡ some g) × IsClear g × IsKept h g p s
unfolding mm_unlink
unlink-IsClear fuel h p s only chunk =
    let at = chunk.2 in
    elim (Bool-cases (ltb s 256)) [
      | inl t ↦
          let (bins, kept) = unlink_small-IsClear h p s only chunk (ltb→lt s 256 t) in
          (mm_unlink_small h p, rw (at, t) refl, bins, kept)
      | inr t ↦
          let (g, e, bins, kept) = unlink_large-IsClear fuel h p s only chunk (ground arith) in
          (g, rw (at, t) e, bins, kept)
    ]

-- The chunk stays the only one while its links stay.
pub IsOnly-kept :
    (h g : Heap) (p s : ℕ)
    → IsOnly h p s
    → ((i : ℕ) → g.sb i ≡ h.sb i)
    → ((i : ℕ) → g.lb i ≡ h.lb i)
    → ((a : ℕ) → p + 8 ≤ a → g.word a ≡ h.word a)
    → IsOnly g p s
IsOnly-kept h g p s (small, large, n, m, links) same_sb same_lb kept = (
  λ i. same_sb i ∙ small i,
  λ i. same_lb i ∙ large i,
  kept (p + 12) (omega arith) ∙ n,
  kept (p + 8) (omega arith) ∙ m,
  λ l.
      (let (up, own_slot, left, right) = links l in
        (
          kept (p + 16) (omega arith) ∙ up,
          kept (p + 28) (omega arith) ∙ own_slot,
          kept (child p 0) (omega arith) ∙ left,
          kept (child p 1) (omega arith) ∙ right,
        )),
)
