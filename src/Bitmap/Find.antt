-- ===== src/Bitmap/Find.antt =====
-- Theorems on the search for a clear bit in `_alloc` of kernel/mm/palloc_bitmap.c.
use nkos.Common.{
  zero, subst, none, inr, ◌≡◌, ◌^◌, ◌*◌, inl, Bool-cases, ◌≤◌, ◌<◌, ◌+◌, ℕ, suc, arith,
}
use nkos.Bitmap.{
  leb, false, true, some, ltb, Option, Bool, first_clear, find_pfn, below, bmap_words,
}

-- The bits from lo on and before hi are set.
abbrev pub AllSet : (ℕ → Bool) → ℕ → ℕ → Type 0
AllSet bits lo hi = (m : ℕ) → lo ≤ m → m < hi → bits m ≡ true

-- The search from lo on gave its first clear bit before hi, or there is none.
abbrev pub IsFirst : (ℕ → Bool) → ℕ → ℕ → Option ℕ → Type 0
IsFirst bits lo hi none = AllSet bits lo hi
IsFirst bits lo hi (some p) = (lo ≤ p) × (p < hi) × (bits p ≡ false) × AllSet bits lo p

AllSet-join :
    (bits : ℕ → Bool) (lo mid hi : ℕ) → AllSet bits lo mid → AllSet bits mid hi → AllSet bits lo hi
AllSet-join bits lo mid hi a b m h k = elim (Bool-cases (ltb m mid)) [
  | inl low ↦ a m h (ground arith)
  | inr high ↦ b m (ground arith) k
]

IsFirst-after :
    (bits : ℕ → Bool) (lo mid hi : ℕ) (o : Option ℕ)
    → lo ≤ mid
    → AllSet bits lo mid
    → IsFirst bits mid hi o
    → IsFirst bits lo hi o
IsFirst-after bits lo mid hi none h a f = AllSet-join bits lo mid hi a f
IsFirst-after bits lo mid hi (some p) h a (b, c, d, e) =
    (omega arith, c, d, AllSet-join bits lo mid p a e)

first_clear-IsFirst : (bits : ℕ → Bool) (n k : ℕ) → IsFirst bits n (n + k) (first_clear bits n k)
unfolding first_clear
first_clear-IsFirst bits n zero = λ m h k. absurd (omega arith)
first_clear-IsFirst bits n (suc k) = elim (Bool-cases (bits n)) [
  | inl busy ↦
      let one : AllSet bits n (suc n) =
        λ m h k. (let e : n ≡ m = omega arith in subst (λ m. bits m ≡ true) e busy) in
      let end : suc n + k ≡ n + suc k = omega arith in
      let rest = first_clear-IsFirst bits (suc n) k in
      rw busy (
        IsFirst-after bits n (suc n) (n + suc k) (first_clear bits (suc n) k) (omega arith) one
          (subst (λ e. IsFirst bits (suc n) e (first_clear bits (suc n) k)) end rest))
  | inr clear ↦ rw clear (omega arith, omega arith, clear, λ m h k. absurd (omega arith))
]

find_pfn-from :
    (k : ℕ) (bits : ℕ → Bool) (count i : ℕ)
    → count ≤ 64 * (i + k)
    → IsFirst bits (64 * i) count (find_pfn bits count i k)
unfolding find_pfn
find_pfn-from zero bits count i h = λ m l k. absurd (omega arith)
find_pfn-from (suc k) bits count i h =
    let next = find_pfn-from k bits count (suc i) (omega arith) in
    word (first_clear bits (64 * i) 64) (first_clear-IsFirst bits (64 * i) 64)
      (find_pfn bits count (suc i) k) next
  where
    word :
        (o : Option ℕ)
        → IsFirst bits (64 * i) (64 * i + 64) o
        → (rest : Option ℕ) → IsFirst bits (64 * suc i) count rest
        → IsFirst bits (64 * i) count (elim o [ none ↦ rest | some pfn ↦ below count (some pfn) ])
    word none full rest f =
        let e : 64 * i + 64 ≡ 64 * suc i = omega arith in
        IsFirst-after bits (64 * i) (64 * suc i) count rest (omega arith)
          (subst (AllSet bits (64 * i)) e full) f
    word (some p) (a, b, c, d) rest f = elim (Bool-cases (leb count p)) [
      | inl out ↦ rw out (λ m l k. d m l (ground arith))
      | inr within ↦ rw within (a, ground arith, c, d)
    ]

-- The search of `_alloc` in a bitmap of count blocks, fewer than 2 ^ 63, finds its first clear bit, and none
-- only if all of them are set.
pub find_pfn-IsFirst :
    (bits : ℕ → Bool) (count : ℕ)
    → count < 2 ^ 63
    → IsFirst bits 0 count (find_pfn bits count 0 (bmap_words count))
find_pfn-IsFirst bits count h = find_pfn-from (bmap_words count) bits count 0 (omega arith)
