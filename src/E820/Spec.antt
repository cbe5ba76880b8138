-- ===== src/E820/Spec.antt =====
-- What a table of memory regions stands for: the type that holds at an address, and when a table is
-- well formed and in order.
use nkos.Common.{
  ℕ, ◌+◌, ◌≤◌, ◌<◌, ◌^◌, ◌≡◌, Bool, ◌&&◌, List, [], ◌∷◌, max, ltb, leb, if◌then◌else◌, All,
}
use nkos.E820.{Region}

-- Whether the region holds the address, with no wrap-around.
abbrev pub covers : Region → ℕ → Bool
covers r x = leb r.base x && ltb x (r.base + r.size)

abbrev pub kind_at : ℕ → Region → ℕ
kind_at x r = if covers r x then r.kind else 0

-- The highest type of the entries that hold the address, 0 if there is none.
unfoldable pub type_at : ℕ → List Region → ℕ
type_at x [] = 0
type_at x (r ∷ m) = max (kind_at x r) (type_at x m)

-- How many entries hold the address.
unfoldable pub depth : ℕ → List Region → ℕ
depth x [] = 0
depth x (r ∷ m) = (if covers r x then 1 else 0) + depth x m

-- The sum of the sizes, by which the loops end.
unfoldable pub total : List Region → ℕ
total [] = 0
total (r ∷ m) = r.size + total m

-- A used entry that starts at `lo` or later and does not reach the end of the address space.
abbrev pub Entry : ℕ → Region → Type 0
Entry lo r = (lo ≤ r.base) × (0 < r.size) × (r.base + r.size < 2 ^ 64) × (0 < r.kind)

-- `a` may stand before `b`: growing addresses, then growing sizes.
abbrev pub NotAfter : Region → Region → Type 0
NotAfter a b = (a.base ≤ b.base) × (a.base ≡ b.base → a.size ≤ b.size)

abbrev pub Sorted : List Region → Type 0
Sorted [] = Unit
Sorted (r ∷ m) = All (NotAfter r) m × Sorted m

-- Every entry starts where the one before it ends, or later: no two entries overlap.
abbrev pub Apart : ℕ → List Region → Type 0
Apart lo [] = Unit
Apart lo (r ∷ m) = Entry lo r × Apart (r.base + r.size) m

-- No address is held by more than two entries.
abbrev pub Shallow : List Region → Type 0
Shallow m = (x : ℕ) → depth x m ≤ 2
