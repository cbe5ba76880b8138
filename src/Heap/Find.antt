-- ===== src/Heap/Find.antt =====
-- Theorems on the search of loader/krn/mm.c when there is one free chunk.
use nkos.Common.{
  ◌≢◌, ◌+◌, ◌-◌, ◌/◌, ◌%◌, ◌≤◌, ◌<◌, ◌≡◌, inl, inr, refl, ◌==◌, if◌then◌else◌, leb, ltb, ◌&&◌,
  u32_mod, ℕ, zero, suc, true, false, Bool-cases, leb→le, arith, some,
}
use nkos.Heap.{Heap}
use nkos.Heap.Large.{mm_slot_large}
use nkos.Heap.Search.{own_bin, mm_find_large, mm_find_small, last_bin}
use nkos.Heap.Only.{IsClear, IsOnly, IsChunk}
use nkos.Heap.Slots.{slot_large-monotone, slot_large-bound}
use nkos.Heap.Bins.{larger_bins_empty, larger_bins_only, own_bin_here, own_bin_other}

find_own :
    (fuel : ℕ) (h : Heap) (r p s : ℕ)
    → IsChunk h p s
    → r ≤ s
    → own_bin (suc (suc fuel)) h r ≡ some (if leb r s then (s, p) else (0xffffffff, 0))
    → mm_find_large (suc (suc fuel)) h r ≡ some (if leb r s then p else 0)
unfolding mm_find_large
find_own fuel h r p s chunk le own =
    let some_p = chunk.0 in
    let fits : leb r s ≡ true = ground arith in
    let found : (p == 0) ≡ false = ground arith in rw (own, fits, found) refl

-- The bins behind that of r, after a search that found nothing.
find_behind :
    (fuel : ℕ) (h : Heap) (r p s : ℕ)
    → IsOnly h p s
    → IsChunk h p s
    → 256 ≤ r
    → r < u32_mod
    → s < 0xffffffff
    → (256 ≤ s → mm_slot_large r ≡ mm_slot_large s → s < r)
    → own_bin (suc (suc fuel)) h r ≡ some (0xffffffff, 0)
    → mm_find_large (suc (suc fuel)) h r ≡ some (if leb r s then p else 0)
unfolding mm_find_large
find_behind fuel h r p s only chunk l r_word b other own =
    let i = mm_slot_large r in
    let large = only.1 in
    elim (Bool-cases (leb r s)) [
      | inl t ↦
          let r_s : r ≤ s = leb→le r s t in
          let up = slot_large-monotone r s l r_s (omega arith) in
          let bound = slot_large-bound s (omega arith) (omega arith) in
          let differ : mm_slot_large r ≢ mm_slot_large s =
            λ e. absurd (omega (arith, other (omega arith) e)) in
          let found =
            larger_bins_only fuel h r (96 - (i + 1)) (i + 1) p s 0xffffffff only chunk (omega arith)
              r_s b (ground arith) (omega arith) in
          rw (own, t, found) refl
      | inr t ↦
          let up : 256 ≤ s → mm_slot_large s ≤ i =
            λ s_large. slot_large-monotone s r s_large (ground arith) r_word in
          let empty =
            larger_bins_empty (suc fuel) h r (96 - (i + 1)) (i + 1) (0xffffffff, 0)
              (λ k k_low. ground (arith, large k, up)) in
          rw (own, t, empty) refl
    ]

pub find_large_only :
    (fuel : ℕ) (h : Heap) (r p s : ℕ)
    → IsOnly h p s
    → IsChunk h p s
    → 256 ≤ r
    → r < u32_mod
    → s < 0xffffffff
    → mm_find_large (suc (suc fuel)) h r ≡ some (if leb r s then p else 0)
find_large_only fuel h r p s only chunk l r_word b =
    elim (Bool-cases (leb 256 s && (mm_slot_large r == mm_slot_large s))) [
      | inl here ↦
          let own = own_bin_here fuel h r p s only chunk b (ground arith) (ground arith) in
          elim (Bool-cases (leb r s)) [
            | inl t ↦ find_own fuel h r p s chunk (leb→le r s t) own
            | inr t ↦
                let none_found : own_bin (suc (suc fuel)) h r ≡ some (0xffffffff, 0) =
                  rw t at own in
                find_behind fuel h r p s only chunk l r_word b (λ big same. ground arith) none_found
          ]
      | inr other ↦
          let differ : 256 ≤ s → mm_slot_large r ≢ mm_slot_large s = λ big same. ground arith in
          find_behind fuel h r p s only chunk l r_word b (λ big same. absurd (differ big same))
            (own_bin_other fuel h r p s only differ)
    ]

last_bin_only :
    (h : Heap) (p s : ℕ)
    → IsOnly h p s
    → 0 < p
    → s < 256
    → (n j c : ℕ) → last_bin h n j c ≡ (if leb j (s / 8) && ltb (s / 8) (j + n) then p else c)
unfolding last_bin
last_bin_only h p s only some_p l zero j c = ground arith
last_bin_only h p s only some_p l (suc n) j c =
    let small = only.0 in
    let rest = last_bin_only h p s only some_p l n (j + 1) (if h.sb j == 0 then c else h.sb j) in
    ground (arith, rest, small j)

last_bin_none : (h : Heap) (p s : ℕ) → IsOnly h p s → 256 ≤ s → (n j c : ℕ) → last_bin h n j c ≡ c
unfolding last_bin
last_bin_none h p s only l zero j c = refl
last_bin_none h p s only l (suc n) j c =
    let small = only.0 in
    let rest = last_bin_none h p s only l n (j + 1) (if h.sb j == 0 then c else h.sb j) in
    ground (arith, rest, small j)

-- mm_find_small of a size that is a multiple of 8.
pub find_small_only :
    (fuel : ℕ) (h : Heap) (r p s : ℕ)
    → IsOnly h p s
    → IsChunk h p s
    → r < 256
    → r % 8 ≡ 0
    → s < 0xffffffff
    → mm_find_small (suc (suc fuel)) h r ≡ some (if leb r s then p else 0)
unfolding mm_find_small
find_small_only fuel h r p s only chunk l eight b =
    let some_p = chunk.0 in
    let large = find_large_only fuel h 256 p s only chunk (omega arith) (omega arith) b in
    elim (Bool-cases (leb 256 s)) [
      | inl t ↦
          let empty = last_bin_none h p s only (leb→le 256 s t) (32 - r / 8) (r / 8) 0 in
          let fits : leb r s ≡ true = ground arith in
          let found = rw t at large in rw (empty, fits) found
      | inr t ↦
          let found = last_bin_only h p s only some_p (ground arith) (32 - r / 8) (r / 8) 0 in
          let none_found = rw t at large in ground (arith, found, none_found)
    ]

-- Empty bins.
pub find_large_clear :
    (fuel : ℕ) (h : Heap) (r : ℕ) → IsClear h → mm_find_large (suc fuel) h r ≡ some 0
unfolding mm_find_large own_bin
find_large_clear fuel h r (small, large) =
    let i = mm_slot_large r in
    let empty =
      larger_bins_empty fuel h r (96 - (i + 1)) (i + 1) (0xffffffff, 0) (λ k k_low. large k) in
    rw (large i, empty) refl

last_bin_clear : (h : Heap) → IsClear h → (n j c : ℕ) → last_bin h n j c ≡ c
unfolding last_bin
last_bin_clear h clear zero j c = refl
last_bin_clear h clear (suc n) j c =
    let rest = last_bin_clear h clear n (j + 1) c in rw (clear.0 j) rest

pub find_small_clear :
    (fuel : ℕ) (h : Heap) (r : ℕ) → IsClear h → mm_find_small (suc fuel) h r ≡ some 0
unfolding mm_find_small
find_small_clear fuel h r clear =
    let empty = last_bin_clear h clear (32 - r / 8) (r / 8) 0 in
    rw empty (find_large_clear fuel h 256 clear)
