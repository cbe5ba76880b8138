-- ===== src/Palloc/Blocks.antt =====
-- Theorems on the contiguous allocator: one call of `palloc_get`, and runs of them.
use nkos.Common.{
  subst, sub64, ltb→lt, ◌%◌, false, if◌then◌else◌, All, ◌==◌, true, leb, ◌^◌, refl, [], inr, inl,
  ltb, ◌<◌, Bool-cases, ◌+◌, ◌∷◌, ◌⊎◌, arith, ◌≤◌, ◌≡◌, List, ℕ,
}
use native.Mathlib.Nat.{pow-le-pow_right, one-le-pow}
use nkos.Palloc.{Span, Answer, panic, undefined, returns, palloc_get, max_order}
use nkos.Palloc.Contiguous.{Contiguous, contiguous, contiguous_alloc, contiguous_pages}
use nkos.Palloc.Chosen.{IsPool}

-- A caller that asks for blocks one after another, and what it gets: the blocks that are not 0.
abbrev pub and_then :
    ℕ
    → Answer (ℕ × Contiguous)
    → (Contiguous → Answer (List Span × Contiguous))
    → Answer (List Span × Contiguous)
and_then size panic k = panic
and_then size undefined k = undefined
and_then size (returns (addr, d)) k = elim (k d) [
  | panic ↦ panic
  | undefined ↦ undefined
  | returns (blocks, e) ↦
      returns ((if addr == 0 then blocks else record { base = addr; size = size } ∷ blocks), e)
]

unfoldable pub get_all : ℕ → List ℕ → Contiguous → Answer (List Span × Contiguous)
get_all pla [] d = returns ([], d)
get_all pla (order ∷ orders) d =
    and_then (2 ^ (order + 12)) (palloc_get (contiguous pla) d order) (get_all pla orders)

-- The blocks fill what lies between two addresses, each starting where the one before it ends.
abbrev pub Chain : ℕ → List Span → ℕ → Type 0
Chain lo [] hi = lo ≡ hi
Chain lo (b ∷ blocks) hi = (b.base ≡ lo) × (0 < b.size) × Chain (b.base + b.size) blocks hi

abbrev pub bytes : List Span → ℕ
bytes [] = 0
bytes (b ∷ blocks) = b.size + bytes blocks

Chain-bytes : (lo : ℕ) (blocks : List Span) (hi : ℕ) → Chain lo blocks hi → lo + bytes blocks ≡ hi
Chain-bytes lo [] hi c = omega arith
Chain-bytes lo (b ∷ blocks) hi c = omega (arith, Chain-bytes (b.base + b.size) blocks hi c.2)

size-bounds : (order : ℕ) → order < max_order → (0 < 2 ^ (order + 12)) × (2 ^ (order + 12) ≤ 2 ^ 22)
size-bounds order h = (
  omega (arith, one-le-pow (order + 12) 2 (omega arith)),
  omega (arith, pow-le-pow_right {n = 2} (omega arith) {i = order + 12} {j = 22} (omega arith)),
)

-- One call of `palloc_get` with a valid order: the block starts at `pend` and ends before the end of
-- the zone, and `pend` moves to its end; or the block would reach the end of the zone, the answer is
-- 0 and nothing changes.
pub palloc_get-contiguous :
    (pla order : ℕ) (z : Span) (d : Contiguous)
    → IsPool z d
    → order < max_order
    → ((d.pend + 2 ^ (order + 12) < z.base + z.size)
        × (palloc_get (contiguous pla) d order
            ≡ returns (d.pend, record d { pend = d.pend + 2 ^ (order + 12) })))
      ⊎ ((z.base + z.size ≤ d.pend + 2 ^ (order + 12))
          × (palloc_get (contiguous pla) d order ≡ returns (0, d)))
unfolding palloc_get contiguous_alloc
palloc_get-contiguous pla order z d h o =
    let size = 2 ^ (order + 12) in
    let (pos, le) = size-bounds order o in
    let valid : ltb order max_order ≡ true = ground arith in
    let defined : leb 64 (order + 12) ≡ false = ground arith in
    let near : (d.pend + size) % 2 ^ 64 ≡ d.pend + size = omega (arith, h.inside, h.fits) in
    let far : (z.base + z.size) % 2 ^ 64 ≡ z.base + z.size = omega (arith, h.fits) in
    rw (valid, h.zone, defined, near, far)
      (elim (Bool-cases (ltb (d.pend + size) (z.base + z.size))) [
        | inl room ↦ inl (ltb→lt _ _ room, rw room refl)
        | inr full ↦ inr (ground arith, rw full refl)
      ])

pub IsPool-grow :
    (z : Span) (d : Contiguous) (size : ℕ)
    → IsPool z d
    → d.pend + size < z.base + z.size
    → IsPool z (record d { pend = d.pend + size })
IsPool-grow z d size h lt = record {
  zone = h.zone;
  start = h.start;
  above = h.above;
  grown = omega (arith, h.grown);
  inside = omega arith;
  fits = h.fits;
}

-- Any sequence of calls of `palloc_get` with valid orders, whichever of them fail: no call panics,
-- and the blocks that it got lie one behind the other, from where the free part began to where it
-- begins afterwards, which is still inside the zone.
pub get_all-Chain :
    (pla : ℕ) (z : Span) (orders : List ℕ) (d : Contiguous)
    → IsPool z d
    → All (λ order. order < max_order) orders
    → (blocks : List Span) × (e : Contiguous) × (get_all pla orders d ≡ returns (blocks, e))
      × Chain d.pend blocks e.pend
      × IsPool z e
      × (e.pbgn ≡ d.pbgn)
unfolding get_all
get_all-Chain pla z [] d h o = ([], d, refl, refl, h, refl)
get_all-Chain pla z (order ∷ orders) d h o =
    let size = 2 ^ (order + 12) in
    let (pos, le) = size-bounds order o.0 in
    elim (palloc_get-contiguous pla order z d h o.0) [
      | inl got ↦
          let s = record d { pend = d.pend + size } in
          let (blocks, e, run, chain, pool, same) =
            get_all-Chain pla z orders s (IsPool-grow z d size h got.0) o.1 in
          let taken : (d.pend == 0) ≡ false = ground (arith, h.above, h.grown) in
          (
            record { base = d.pend; size = size } ∷ blocks,
            e,
            rw (got.1, run, taken) refl,
            (refl, pos, chain),
            pool,
            same,
          )
      | inr full ↦
          let (blocks, e, run, chain, pool, same) = get_all-Chain pla z orders d h o.1 in
          (blocks, e, rw (full.1, run) refl, chain, pool, same)
    ]

-- After any such sequence from the start, the blocks that were given out follow one another without a gap from the start of the
-- zone and end inside it, and `_foreach_page` reports exactly what they fill: nothing if no block was given out, and otherwise one range from
-- the start of the first block to the end of the last one.
pub get_all-pages :
    (pla : ℕ) (z : Span) (orders : List ℕ) (d : Contiguous)
    → IsPool z d
    → d.pend ≡ d.pbgn
    → All (λ order. order < max_order) orders
    → (blocks : List Span) × (e : Contiguous) × (get_all pla orders d ≡ returns (blocks, e))
      × Chain z.base blocks (z.base + bytes blocks)
      × (z.base + bytes blocks ≤ z.base + z.size)
      × (contiguous_pages e
          ≡ (if bytes blocks == 0 then [] else record { base = z.base; size = bytes blocks } ∷ []))
unfolding contiguous_pages
get_all-pages pla z orders d h start o =
    let (blocks, e, run, chain, pool, same) = get_all-Chain pla z orders d h o in
    let sum : d.pend + bytes blocks ≡ e.pend = Chain-bytes d.pend blocks e.pend chain in
    let first : d.pend ≡ z.base = omega (arith, h.start) in
    let total : e.pend ≡ z.base + bytes blocks = omega arith in
    let filled : Chain z.base blocks (z.base + bytes blocks) =
      subst (λ lo. Chain lo blocks (z.base + bytes blocks)) first
        (subst (Chain d.pend blocks) total chain) in
    let within : z.base + bytes blocks ≤ z.base + z.size = omega (arith, pool.inside) in
    elim (Bool-cases (bytes blocks == 0)) [
      | inl nothing ↦
          let same_end : (e.pbgn == e.pend) ≡ true = ground arith in
          (blocks, e, run, filled, within, rw (same_end, nothing) refl)
      | inr some_bytes ↦
          let grown : (e.pbgn == e.pend) ≡ false = ground arith in
          let base : e.pbgn ≡ z.base = omega (arith, h.start) in
          let size : sub64 e.pend e.pbgn ≡ bytes blocks =
            omega (arith, pool.grown, pool.inside, pool.fits) in
          (blocks, e, run, filled, within, rw (grown, some_bytes, size, base) refl)
    ]
