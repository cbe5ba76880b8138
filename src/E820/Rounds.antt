-- ===== src/E820/Rounds.antt =====
-- What one round of `e820_overlap` keeps, as long as the table is not full.
use nkos.Common.{
  ℕ, ◌+◌, ◌≤◌, ◌<◌, ◌≡◌, List, [], ◌∷◌, ◌++◌, max, arith, refl, length, All, All-append,
}
use nkos.E820.{Region, Round, next, again, e820_entries}
use nkos.E820.Spec.{Entry, NotAfter, Sorted, Shallow, type_at, total, depth}
use nkos.E820.Sort.{
  All-e820_sort, e820_sort-Sorted, type_at-e820_sort, total-e820_sort, depth-e820_sort,
}
use nkos.E820.Cases.{Case, apart, drop_c, drop_n, push, cut, trim, split, full, fin}

-- The entries from i on after the round, and those that the next round starts from.
abbrev pub after : Round → List Region
after (next d m) = d ∷ m
after (again m) = m

abbrev pub left : Round → List Region
left (next d m) = m
left (again m) = m

-- The entry that a round leaves behind ends before all that follow.
abbrev pub IsClear : Round → Type 0
IsClear (next d m) = All (Entry (fin d)) m
IsClear (again m) = Unit

pub type_at-append :
    (x : ℕ) (m k : List Region) → type_at x (m ++ k) ≡ max (type_at x m) (type_at x k)
unfolding type_at
type_at-append x [] k = omega arith
type_at-append x (r ∷ m) k = omega (arith, type_at-append x m k)

depth-append : (x : ℕ) (m k : List Region) → depth x (m ++ k) ≡ depth x m + depth x k
unfolding depth
depth-append x [] k = omega arith
depth-append x (r ∷ m) k = omega (arith, depth-append x m k)

total-append : (m k : List Region) → total (m ++ k) ≡ total m + total k
unfolding total
total-append [] k = omega arith
total-append (r ∷ m) k = omega (arith, total-append m k)

-- Entries behind one that starts at `b` start at `b`.
raise :
    (lo b : ℕ) (n : Region) (m : List Region)
    → b ≤ n.base
    → All (NotAfter n) m
    → All (Entry lo) m
    → All (Entry b) m
raise lo b n [] le h e = tt
raise lo b n (r ∷ m) le h e = (omega arith, raise lo b n m le h.1 e.1)

-- Entries behind `n` of which none holds an address from `n.base` to `b` start at `b`.
beyond :
    (lo b : ℕ) (n : Region) (m : List Region)
    → ((x : ℕ) → n.base ≤ x → x < b → depth x m ≤ 0)
    → All (NotAfter n) m
    → All (Entry lo) m
    → All (Entry b) m
unfolding depth
beyond lo b n [] free h e = tt
beyond lo b n (r ∷ m) free h e =
    (ground (arith, free r.base), beyond lo b n m (λ x p q. omega (arith, free x p q)) h.1 e.1)

module _ (i lo : ℕ) (c n : Region) (rest : List Region)
    (room : i + length (c ∷ n ∷ rest) < e820_entries) (ok : All (Entry lo) (c ∷ n ∷ rest))
    (sorted : Sorted (c ∷ n ∷ rest)) where
  pub after-Entry : {r : Round} → Case i c n rest r → All (Entry lo) (after r)
  after-Entry (apart a) = ok
  after-Entry (drop_c b f k) = ok.1
  after-Entry (drop_n f k) = (ok.0, ok.1.1)
  after-Entry (push m b k mb mf f mk) =
      All-e820_sort (Entry lo) (c ∷ m ∷ rest) (ok.0, (omega arith, ok.1.1))
  after-Entry (cut d b o f k db df dk) = (omega arith, ok.1)
  after-Entry (trim m b o f k mb mf mk) =
      (ok.0, All-e820_sort (Entry lo) (m ∷ rest) (omega arith, ok.1.1))
  after-Entry (split d e s b f k db df dk eb ef ek) = (
    omega arith,
    All-e820_sort (Entry lo) ((n ∷ rest) ++ e ∷ [])
        (All-append (Entry lo) (n ∷ rest) (e ∷ []) ok.1 (omega arith, tt)),
  )
  after-Entry (full d m s b f k db df dk mb mf mk) = absurd (omega arith)

  pub left-Sorted : {r : Round} → Case i c n rest r → Sorted (left r)
  left-Sorted (apart a) = sorted.1
  left-Sorted (drop_c b f k) = sorted.1
  left-Sorted (drop_n f k) = (sorted.0.1, sorted.1.1)
  left-Sorted (push m b k mb mf f mk) = e820_sort-Sorted _
  left-Sorted (cut d b o f k db df dk) = sorted.1
  left-Sorted (trim m b o f k mb mf mk) = e820_sort-Sorted _
  left-Sorted (split d e s b f k db df dk eb ef ek) = e820_sort-Sorted _
  left-Sorted (full d m s b f k db df dk mb mf mk) = absurd (omega arith)

  -- The sizes of what is left shrink: the loop ends.
  pub total-left-lt : {r : Round} → Case i c n rest r → total (left r) < total (c ∷ n ∷ rest)
  unfolding total
  total-left-lt (apart a) = omega arith
  total-left-lt (drop_c b f k) = omega arith
  total-left-lt (drop_n f k) = omega arith
  total-left-lt (push m b k mb mf f mk) = omega (arith, total-e820_sort (c ∷ m ∷ rest))
  total-left-lt (cut d b o f k db df dk) = omega arith
  total-left-lt (trim m b o f k mb mf mk) = omega (arith, total-e820_sort (m ∷ rest))
  total-left-lt (split d e s b f k db df dk eb ef ek) =
      omega (arith, total-e820_sort ((n ∷ rest) ++ e ∷ []), total-append rest (e ∷ []))
  total-left-lt (full d m s b f k db df dk mb mf mk) = absurd (omega arith)

  -- Every address keeps the highest type that an entry gives it.
  pub type_at-after :
      (x : ℕ) {r : Round} → Case i c n rest r → type_at x (after r) ≡ type_at x (c ∷ n ∷ rest)
  unfolding type_at
  type_at-after x (apart a) = refl
  type_at-after x (drop_c b f k) = ground arith
  type_at-after x (drop_n f k) = ground arith
  type_at-after x (push m b k mb mf f mk) = ground (arith, type_at-e820_sort x (c ∷ m ∷ rest))
  type_at-after x (cut d b o f k db df dk) = ground arith
  type_at-after x (trim m b o f k mb mf mk) = ground (arith, type_at-e820_sort x (m ∷ rest))
  type_at-after x (split d e s b f k db df dk eb ef ek) =
      ground (arith, type_at-e820_sort x ((n ∷ rest) ++ e ∷ []), type_at-append x rest (e ∷ []))
  type_at-after x (full d m s b f k db df dk mb mf mk) = absurd (omega arith)

  -- No address comes to be held by more entries.
  pub depth-after-le :
      (x : ℕ) {r : Round} → Case i c n rest r → depth x (after r) ≤ depth x (c ∷ n ∷ rest)
  unfolding depth
  depth-after-le x (apart a) = omega arith
  depth-after-le x (drop_c b f k) = ground arith
  depth-after-le x (drop_n f k) = ground arith
  depth-after-le x (push m b k mb mf f mk) = ground (arith, depth-e820_sort x (c ∷ m ∷ rest))
  depth-after-le x (cut d b o f k db df dk) = ground arith
  depth-after-le x (trim m b o f k mb mf mk) = ground (arith, depth-e820_sort x (m ∷ rest))
  depth-after-le x (split d e s b f k db df dk eb ef ek) =
      ground (arith, depth-e820_sort x ((n ∷ rest) ++ e ∷ []), depth-append x rest (e ∷ []))
  depth-after-le x (full d m s b f k db df dk mb mf mk) = absurd (omega arith)

  -- Behind two entries that overlap there is room up to the end of the shorter one.
  beyond-Shallow : (b : ℕ) → Shallow (c ∷ n ∷ rest) → b ≤ fin c → b ≤ fin n → All (Entry b) rest
  unfolding depth
  beyond-Shallow b shallow hc hn =
      beyond lo b n rest (λ x p q. ground (arith, shallow x)) sorted.1.0 ok.1.1

  pub after-IsClear : Shallow (c ∷ n ∷ rest) → {r : Round} → Case i c n rest r → IsClear r
  after-IsClear shallow (apart a) = (omega arith, raise lo (fin c) n rest a sorted.1.0 ok.1.1)
  after-IsClear shallow (drop_c b f k) = tt
  after-IsClear shallow (drop_n f k) = tt
  after-IsClear shallow (push m b k mb mf f mk) = tt
  after-IsClear shallow (cut d b o f k db df dk) =
      (omega arith, raise lo (fin d) n rest (omega arith) sorted.1.0 ok.1.1)
  after-IsClear shallow (trim m b o f k mb mf mk) =
      All-e820_sort (Entry (fin c)) (m ∷ rest)
        (omega arith, beyond-Shallow (fin c) shallow (omega arith) (omega arith))
  after-IsClear shallow (split d e s b f k db df dk eb ef ek) =
      All-e820_sort (Entry (fin d)) ((n ∷ rest) ++ e ∷ []) (
        All-append (Entry (fin d)) (n ∷ rest) (e ∷ [])
          (omega arith, raise lo (fin d) n rest (omega arith) sorted.1.0 ok.1.1) (omega arith, tt))
  after-IsClear shallow (full d m s b f k db df dk mb mf mk) = absurd (omega arith)
