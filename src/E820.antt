-- ===== src/E820.antt =====
-- kernel/e820.c: the table of memory regions that the BIOS reports.
--
-- The table `m` is the list of its live entries, m[0] to m[*pc - 1]; `e820_discard` zeroes the slot
-- that it vacates, so every slot behind them is zero and ends the table. `&m[i]` is the list from
-- entry i on, and *pc is i plus its length.
pub mod Spec
pub mod Sort
pub mod Cases
pub mod Rounds
pub mod Overlap
pub mod Third
pub mod Coalesce
pub mod Boot
mod Tests
use mathlib.Core.List.{reverse}
use nkos.Common.{
  ℕ, zero, suc, ◌+◌, Bool, ◌&&◌, ◌||◌, Option, none, some, List, [], ◌∷◌, ◌++◌, ltb, leb, ◌==◌,
  if◌then◌else◌, length, add64, sub64,
}

pub record Region : Type 0 where
  pub base : ℕ
  pub size : ℕ
  pub kind : ℕ

-- E820_ENTRIES
abbrev pub e820_entries : ℕ
e820_entries = 64

-- `_mfin`: the end of a region, a uint64_t.
unfoldable pub mfin : Region → ℕ
mfin r = add64 r.base r.size

-- The entries before the first of size 0.
unfoldable pub live : List Region → List Region
live [] = []
live (r ∷ m) = if r.size == 0 then [] else r ∷ live m

unfoldable pub e820_count : List Region → ℕ
unfolding live
e820_count m = length (live m)

-- Whether `t` belongs before `p`: the test of the inner loop of `e820_sort`.
abbrev pub before : Region → Region → Bool
before t p = ltb t.base p.base || (t.base == p.base && ltb t.size p.size)

-- The inner loop: `front` is m[j-1], m[j-2], …, m[0], and `t` sinks in from its right end.
unfoldable pub sink : Region → List Region → List Region
sink t [] = t ∷ []
sink t (p ∷ front) = if before t p then p ∷ sink t front else t ∷ p ∷ front

-- The outer loop: `rest` is m[i], m[i+1], ….
unfoldable pub sort_from : List Region → List Region → List Region
sort_from [] front = reverse front
sort_from (t ∷ rest) front = sort_from rest (sink t front)

unfoldable pub e820_sort : List Region → List Region
e820_sort m = sort_from m []

-- `e820_discard(m, i, pc)`: the entries behind entry i move down by one.
unfoldable pub e820_discard : List Region → ℕ → List Region
e820_discard [] i = []
e820_discard (r ∷ m) zero = m
e820_discard (r ∷ m) (suc i) = r ∷ e820_discard m i

-- What one round of the loop of `e820_overlap` does to the entries from i on.
pub data Round : Type 0 where
  -- m[i] stays as given, and the loop goes on at the next entry
  next : Region → List Region → Round
  -- `i--`: the loop looks at entry i again
  again : List Region → Round

-- The region `n` lies inside `c` and has the higher type: `c` is cut in two around it, or, if the
-- table is full, `n` takes what is behind it too.
unfoldable pub carve : ℕ → Region → Region → List Region → Round
carve i c n rest =
    let head = sub64 n.base c.base in
    if ltb (i + length (c ∷ n ∷ rest)) e820_entries
    then next (record c { size = head })
        (e820_sort (
          (n ∷ rest)
          ++ record { base = mfin n; size = sub64 (sub64 c.size head) n.size; kind = c.kind } ∷ []))
    else next (record c { size = head }) (record n { size = sub64 c.size head } ∷ rest)

-- The body of the loop, for c = &m[i] and n = &m[i+1].
unfoldable pub round : ℕ → Region → Region → List Region → Round
round i c n rest =
    let m = c ∷ n ∷ rest in
    if c.kind == 0
    then next c (n ∷ rest)
    else if leb (mfin c) n.base
    then next c (n ∷ rest)
    else if n.base == c.base && mfin n == mfin c
    then (if leb c.kind n.kind then again (e820_discard m 0) else again (e820_discard m 1))
    else if c.base == n.base
    then (if leb c.kind n.kind
        then again (e820_discard m 0)
        else again (e820_sort (c ∷ record n { base = mfin c; size = sub64 n.size c.size } ∷ rest)))
    else if mfin c == mfin n
    then (if leb n.kind c.kind
        then again (e820_discard m 1)
        else next (record c { size = sub64 n.base c.base }) (n ∷ rest))
    else if ltb (mfin n) (mfin c)
    then (if ltb c.kind n.kind then carve i c n rest else again (e820_discard m 1))
    else if ltb n.kind c.kind
    then next c
        (e820_sort (record n { base = mfin c; size = sub64 n.size (sub64 (mfin c) n.base) } ∷ rest))
    else next (record c { size = sub64 n.base c.base }) (n ∷ rest)

-- The loop from entry i on, with fuel; `none` means that the fuel ran out.
unfoldable pub e820_overlap : ℕ → ℕ → List Region → Option (List Region)
e820_overlap zero i m = none
e820_overlap (suc k) i [] = some []
e820_overlap (suc k) i (c ∷ []) = some (c ∷ [])
e820_overlap (suc k) i (c ∷ n ∷ rest) = elim (round i c n rest) [
  | next d m ↦ elim (e820_overlap k (suc i) m) [ none ↦ none | some out ↦ some (d ∷ out) ]
  | again m ↦ e820_overlap k i m
]

-- The loop of `e820_coalesce` from entry c on: a merge discards the next entry and looks at c again.
unfoldable pub coalesce_from : Region → List Region → List Region
unfolding mfin
coalesce_from c [] = c ∷ []
coalesce_from c (n ∷ rest) =
    let merged = coalesce_from (record c { size = add64 c.size n.size }) rest in
    let kept = c ∷ coalesce_from n rest in
    if mfin c == n.base && c.kind == n.kind then merged else kept

unfoldable pub e820_coalesce : List Region → List Region
unfolding coalesce_from
e820_coalesce [] = []
e820_coalesce (c ∷ rest) = coalesce_from c rest

-- How `e820_init` ends: a failed ASSERT, no more fuel, or the finished table.
pub data Init : Type 0 where
  panic : Init
  out_of_fuel : Init
  ready : List Region → Init

-- The two entries that are added: the kernel, of `kernel_offset + (__bss - __text)` bytes, and the
-- first page.
unfoldable pub with_kernel : ℕ → List Region → List Region
with_kernel ksize m =
    m
    ++ record { base = 0x100000; size = ksize; kind = 5 }
      ∷ record { base = 0; size = 0x1000; kind = 5 }
      ∷ []

unfoldable pub e820_init : ℕ → ℕ → List Region → Init
e820_init fuel ksize mem =
    if ltb (e820_count mem) 61
    then elim (e820_overlap fuel 0 (e820_sort (with_kernel ksize (live mem)))) [
      | none ↦ out_of_fuel
      | some m ↦ ready (e820_coalesce m)
    ]
    else panic
