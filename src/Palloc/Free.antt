-- ===== src/Palloc/Free.antt =====
-- Theorems on `_init` of the buddy allocator: the pages it reserves, and the free pages of the zones.
use nkos.Common.{
  add64, ap, false, refl, ◌%◌, All-append, ◌^◌, ◌∙◌, All, inr, inl, Bool-cases, ◌-◌, ◌≤◌, zero, [],
  suc, ltb, arith, ◌&&◌, ◌==◌, leb, if◌then◌else◌, ◌*◌, ◌∷◌, ◌+◌, ◌≡◌, ◌/◌, List, ◌<◌, ℕ,
}
use nkos.Palloc.{Span, page_size}
use nkos.Palloc.Buddy.{
  Page, Pages, page_type_system, set_page, reserve_from, reserve, setup_pieces, setup_zone,
  setup_zones, buddy_init, reserve_all, regs, setup_in,
}
use nkos.Palloc.Pieces.{setup_zone-pieces_at}
use nkos.Palloc.Runs.{runs_at, runs_at-append, type_of, IsPaged, setup_pieces-runs_at}

-- A zone between two page boundaries below 2 ^ 46.
abbrev pub IsPagedZone : Span → Type 0
IsPagedZone z =
    (m : ℕ) × (n : ℕ) × (m ≤ n)
    × (n ≤ 2 ^ 34)
    × (z.base ≡ page_size * m)
    × (z.base + z.size ≡ page_size * n)

-- How many of the zones hold the address.
unfoldable pub zones_at : ℕ → List Span → ℕ
zones_at x [] = 0
zones_at x (z ∷ zs) = (if leb z.base x && ltb x (z.base + z.size) then 1 else 0) + zones_at x zs

setup_in-IsPaged :
    (r : Span) (m n : ℕ)
    → r.base + r.size < 2 ^ 64
    → r.base % page_size ≡ 0
    → r.size % page_size ≡ 0
    → m ≤ n
    → All IsPaged (setup_in r (page_size * m) (page_size * n))
unfolding setup_in
setup_in-IsPaged r m n h p q le = ground arith

setup_zone-IsPaged :
    (m n : ℕ) → m ≤ n → All IsPaged (setup_zone regs (page_size * m) (page_size * n))
unfolding setup_zone
setup_zone-IsPaged m n le =
    All-append IsPaged (setup_in _ (page_size * m) (page_size * n)) _
      (setup_in-IsPaged _ m n (omega arith) refl refl le)
      (All-append IsPaged (setup_in _ (page_size * m) (page_size * n)) _
        (setup_in-IsPaged _ m n (omega arith) refl refl le)
        (All-append IsPaged (setup_in _ (page_size * m) (page_size * n)) []
          (setup_in-IsPaged _ m n (omega arith) refl refl le) tt))

setup_zones-runs_at :
    (pages : Pages) (zs : List Span) (f : ℕ)
    → All IsPagedZone zs
    → runs_at (page_size * f) (setup_zones pages zs)
      ≡ (if type_of pages (page_size * f) == 0 then zones_at (page_size * f) zs else 0)
unfolding setup_zones zones_at runs_at
setup_zones-runs_at pages [] f h = ground arith
setup_zones-runs_at pages (z ∷ zs) f h =
    let (m, n, le, high, b, e) = h.0 in
    let x = page_size * f in
    let pieces = setup_zone regs (page_size * m) (page_size * n) in
    let rest = setup_zones-runs_at pages zs f h.1 in
    let count =
      (setup_zone-pieces_at (page_size * m) (page_size * n) (omega arith) (omega arith)).0 x in
    let here = setup_pieces-runs_at pages pieces f (setup_zone-IsPaged m n le) in
    let end : add64 z.base z.size ≡ page_size * n = omega arith in
    runs_at-append x (setup_pieces pages (setup_zone regs z.base (add64 z.base z.size)))
      (setup_zones pages zs)
    ∙ rw (end, e, b, here, rest, count) (ground arith)

reserve_from-type :
    (k : ℕ) (pages : Pages) (m n f : ℕ)
    → n ≤ m + k
    → n ≤ 2 ^ 34
    → (reserve_from k pages (page_size * m) (page_size * n) f).type
      ≡ (if leb m f && ltb f n then page_type_system else (pages f).type)
unfolding reserve_from
reserve_from-type zero pages m n f h high =
    let empty : (leb m f && ltb f n) ≡ false = ground arith in rw empty refl
reserve_from-type (suc k) pages m n f h high =
    elim (Bool-cases (ltb (page_size * m) (page_size * n))) [
      | inl more ↦
          let page : Page = record { type = page_type_system; order = 0 } in
          let below : m < n = ground arith in
          let next : add64 (page_size * m) page_size ≡ page_size * suc m = omega arith in
          let frame : page_size * m / page_size ≡ m = omega arith in
          let rest =
            reserve_from-type k (set_page pages (page_size * m) page) (suc m) n f (omega arith)
              high in
          rw (more, next)
            (rest ∙ elim (Bool-cases (f == m)) [
              | inl same ↦ rw (frame, same) (ground arith)
              | inr other ↦ rw (frame, other) (ground arith)
            ])
      | inr last ↦ let empty : (leb m f && ltb f n) ≡ false = ground arith in rw (last, empty) refl
    ]

reserve-type :
    (pages : Pages) (z : Span) (f : ℕ)
    → IsPagedZone z
    → (reserve pages z f).type ≡ (
        if leb z.base (page_size * f) && ltb (page_size * f) (z.base + z.size)
        then page_type_system
        else (pages f).type)
unfolding reserve
reserve-type pages z f (m, n, le, high, b, e) =
    let fuel : n ≤ m + (z.size + page_size - 1) / page_size = omega arith in
    let end : add64 z.base z.size ≡ page_size * n = omega arith in
    rw (end, e, b)
      (reserve_from-type ((z.size + page_size - 1) / page_size) pages m n f fuel high
        ∙ ground arith)

reserve_all-type :
    (pages : Pages) (zs : List Span) (f : ℕ)
    → All IsPagedZone zs
    → (reserve_all pages zs f).type
      ≡ (if zones_at (page_size * f) zs == 0 then (pages f).type else page_type_system)
unfolding reserve_all zones_at
reserve_all-type pages [] f h = refl
reserve_all-type pages (z ∷ zs) f h =
    reserve_all-type (reserve pages z) zs f h.1 ∙ rw (reserve-type pages z f h.0) (ground arith)

-- `_init` of the buddy allocator, where the zones and the ranges given out before are whole pages
-- below 2 ^ 46: a page whose descriptor is free and that was not given out before is in one run for each zone that
-- holds it, and no other page is in any run.
pub buddy_init-runs_at :
    (pages : Pages) (zones old : List Span) (f : ℕ)
    → All IsPagedZone zones
    → All IsPagedZone old
    → runs_at (page_size * f) (buddy_init pages zones old).1 ≡ (
        if type_of pages (page_size * f) == 0 && zones_at (page_size * f) old == 0
        then zones_at (page_size * f) zones
        else 0)
unfolding buddy_init
buddy_init-runs_at pages zones old f h o =
    let at : page_size * f / page_size ≡ f = omega arith in
    let marked = reserve_all pages old in
    let new : type_of marked (page_size * f) ≡ (marked f).type = ap (λ y. (marked y).type) at in
    let before : type_of pages (page_size * f) ≡ (pages f).type = ap (λ y. (pages y).type) at in
    setup_zones-runs_at marked zones f h
    ∙ rw (new, before, reserve_all-type pages old f o) (ground arith)
