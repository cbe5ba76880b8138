-- ===== src/Pg/Translate.antt =====
-- Theorems on the mappings of a region: which address they translate to which.
use nkos.Common.{
  sym, subst, length, add64, sub64, false, ap, refl, true, ◌==◌, inr, inl, zero, ltb, suc,
  Bool-cases, ◌&&◌, All, arith, [], leb, ◌^◌, ◌-◌, some, if◌then◌else◌, ◌*◌, none, ◌≤◌, ◌+◌, ◌∷◌,
  ◌<◌, ◌≡◌, Option, List, ◌%◌, ℕ,
}
use nkos.Pg.{
  Mapping, small_size, large_size, level_of, size_of, pg_map_region_optimized, pg_map_region,
}

-- The address that the mappings give, by the first that holds the address.
unfoldable pub translate : ℕ → List Mapping → Option ℕ
translate x [] = none
translate x (m ∷ ms) =
    if leb m.v x && ltb x (m.v + size_of m.level) then some (m.p + (x - m.v)) else translate x ms

-- A large page is on a boundary of 2 MB on both sides, a small one on any of 4 kB.
abbrev pub IsAligned : Mapping → Type 0
IsAligned m = (m.v % size_of m.level ≡ 0) × (m.p % size_of m.level ≡ 0)

-- The mappings follow each other, from v and p on, for s bytes.
abbrev Follow : ℕ → ℕ → ℕ → List Mapping → Type 0
Follow v p s [] = s ≡ 0
Follow v p s (m ∷ ms) =
    (m.v ≡ v)
    × (m.p ≡ p)
    × (size_of m.level ≤ s)
    × Follow (v + size_of m.level) (p + size_of m.level) (s - size_of m.level) ms

Follow-translate :
    (v p s : ℕ) (ms : List Mapping) (o : ℕ)
    → Follow v p s ms
    → o < s
    → translate (v + o) ms ≡ some (p + o)
unfolding translate
Follow-translate v p s [] o f h = absurd (omega arith)
Follow-translate v p s (m ∷ ms) o f h = elim (Bool-cases (ltb o (size_of m.level))) [
  | inl here ↦
      let hit : (leb m.v (v + o) && ltb (v + o) (m.v + size_of m.level)) ≡ true = ground arith in
      let to : m.p + (v + o - m.v) ≡ p + o = omega arith in rw hit (ap some to)
  | inr later ↦
      let size = size_of m.level in
      let le : size ≤ o = ground arith in
      let miss : (leb m.v (v + o) && ltb (v + o) (m.v + size)) ≡ false = ground arith in
      let rest =
        Follow-translate (v + size) (p + size) (s - size) ms (o - size) f.3 (omega arith) in
      let from : v + size + (o - size) ≡ v + o = omega arith in
      let to : p + size + (o - size) ≡ p + o = omega arith in rw miss (rw (from, to) at rest)
]

-- What one turn takes off the region.
record IsTurn (v p s level : ℕ) : Type 0 where
  fits : size_of level ≤ s
  on_v : v % size_of level ≡ 0
  on_p : p % size_of level ≡ 0
  some_bytes : small_size ≤ size_of level
  whole : size_of level % small_size ≡ 0

level_of-IsTurn :
    (v p s : ℕ)
    → v % small_size ≡ 0
    → p % small_size ≡ 0
    → s % small_size ≡ 0
    → 0 < s
    → IsTurn v p s (level_of v p s)
unfolding level_of
level_of-IsTurn v p s a b d pos =
    elim (Bool-cases (p % large_size == 0 && (v % large_size == 0 && leb large_size s))) [
      | inl large ↦ rw large (ground arith)
      | inr small ↦ rw small (ground arith)
    ]

region-step :
    (k v p s v' p' s' : ℕ) (ms : List Mapping)
    → (s == 0) ≡ false
    → add64 v (size_of (level_of v p s)) ≡ v'
    → add64 p (size_of (level_of v p s)) ≡ p'
    → sub64 s (size_of (level_of v p s)) ≡ s'
    → pg_map_region_optimized k v' p' s' ≡ some ms
    → pg_map_region_optimized (suc k) v p s
      ≡ some (record { v = v; p = p; level = level_of v p s } ∷ ms)
unfolding pg_map_region_optimized
region-step k v p s v' p' s' ms more a b c e = rw (more, pg_map_region_optimized, a, b, c, e) refl

region-Follow :
    (k v p s : ℕ)
    → v % small_size ≡ 0
    → p % small_size ≡ 0
    → s ≤ small_size * k
    → s % small_size ≡ 0
    → v + s < 2 ^ 64
    → p + s < 2 ^ 64
    → (ms : List Mapping) × (pg_map_region_optimized k v p s ≡ some ms)
      × Follow v p s ms
      × All IsAligned ms
unfolding pg_map_region_optimized
region-Follow zero v p s a b le d h g =
    ([], (let none_left : (s == 0) ≡ true = ground arith in rw none_left refl), omega arith, tt)
region-Follow (suc k) v p s a b le d h g = elim (Bool-cases (s == 0)) [
  | inl done ↦ ([], rw done refl, ground arith, tt)
  | inr more ↦
      let level = level_of v p s in
      let t = level_of-IsTurn v p s a b d (ground arith) in
      let ps = size_of level in
      let fit = t.fits in
      let big = t.some_bytes in
      let whole = t.whole in
      let next_v : (v + ps) % 2 ^ 64 ≡ v + ps = omega arith in
      let next_p : (p + ps) % 2 ^ 64 ≡ p + ps = omega arith in
      let next_s : (s + 2 ^ 64 - ps) % 2 ^ 64 ≡ s - ps = omega arith in
      let (ms, e, f, al) =
        region-Follow k (v + ps) (p + ps) (s - ps) (omega arith) (omega arith) (omega arith)
          (omega arith) (omega arith) (omega arith) in
      (
        record { v = v; p = p; level = level } ∷ ms,
        region-step k v p s (v + ps) (p + ps) (s - ps) ms more next_v next_p next_s e,
        (refl, refl, fit, f),
        ((t.on_v, t.on_p), al),
      )
]

-- `pg_map_region_optimized`, for a region of whole pages that does not reach the end of the address
-- space on either side: with fuel for as many turns as the region has small pages it ends, it uses
-- large pages only on boundaries of large pages, and its mappings translate every address of the
-- region to the address at the same distance from p.
pub pg_map_region_optimized-translate :
    (v p pages : ℕ)
    → v % small_size ≡ 0
    → p % small_size ≡ 0
    → v + small_size * pages < 2 ^ 64
    → p + small_size * pages < 2 ^ 64
    → (ms : List Mapping) × (pg_map_region_optimized pages v p (small_size * pages) ≡ some ms)
      × All IsAligned ms
      × ((o : ℕ) → o < small_size * pages → translate (v + o) ms ≡ some (p + o))
pg_map_region_optimized-translate v p pages a b h g =
    let s = small_size * pages in
    let (ms, e, f, al) = region-Follow pages v p s a b (omega arith) (omega arith) h g in
    (ms, e, al, λ o lt. Follow-translate v p s ms o f lt)

plain-step :
    (k v p s v' p' s' : ℕ) (ms : List Mapping)
    → (s == 0) ≡ false
    → add64 v small_size ≡ v'
    → add64 p small_size ≡ p'
    → sub64 s small_size ≡ s'
    → pg_map_region k v' p' s' ≡ some ms
    → pg_map_region (suc k) v p s ≡ some (record { v = v; p = p; level = 0 } ∷ ms)
unfolding pg_map_region
plain-step k v p s v' p' s' ms more a b c e = rw (more, pg_map_region, a, b, c, e) refl

plain-Follow :
    (k v p : ℕ)
    → v + small_size * k < 2 ^ 64
    → p + small_size * k < 2 ^ 64
    → (ms : List Mapping) × (pg_map_region k v p (small_size * k) ≡ some ms)
      × Follow v p (small_size * k) ms
      × (length ms ≡ k)
plain-Follow zero v p h g = ([], (unfold pg_map_region in refl), omega arith, refl)
plain-Follow (suc k) v p h g =
    let (ms, e, f, n) =
      plain-Follow k (v + small_size) (p + small_size) (omega arith) (omega arith) in
    let left : small_size * suc k - small_size ≡ small_size * k = omega arith in
    (
      record { v = v; p = p; level = 0 } ∷ ms,
      plain-step k v p (small_size * suc k) (v + small_size) (p + small_size) (small_size * k) ms
          (ground arith) (omega arith) (omega arith) (omega arith) e,
      (
        refl,
        refl,
        omega arith,
        subst (λ s. Follow (v + small_size) (p + small_size) s ms) (sym left) f,
      ),
      ap suc n,
    )

-- `pg_map_region`, for a region of whole pages that does not reach the end of the address space on
-- either side: it ends after one mapping for each small page, and they translate every address of
-- the region to the address at the same distance from p.
pub pg_map_region-translate :
    (v p pages : ℕ)
    → v + small_size * pages < 2 ^ 64
    → p + small_size * pages < 2 ^ 64
    → (ms : List Mapping) × (pg_map_region pages v p (small_size * pages) ≡ some ms)
      × (length ms ≡ pages)
      × ((o : ℕ) → o < small_size * pages → translate (v + o) ms ≡ some (p + o))
pg_map_region-translate v p pages h g =
    let (ms, e, f, n) = plain-Follow pages v p h g in
    (ms, e, n, λ o lt. Follow-translate v p (small_size * pages) ms o f lt)
