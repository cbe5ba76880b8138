-- ===== src/Palloc/Pieces.antt =====
-- Theorems on `_setup_zone` of the buddy allocator.
use nkos.Common.{
  refl, All-append, ◌∙◌, ltb, ◌&&◌, [], leb, arith, if◌then◌else◌, ◌≡◌, All, ◌∷◌, ◌^◌, ◌<◌, ◌++◌,
  ◌≤◌, List, ◌+◌, ℕ,
}
use nkos.Palloc.{Span}
use nkos.Palloc.Buddy.{Piece, regs, setup_in, setup_zone}

-- How many of the pieces hold the address.
unfoldable pub pieces_at : ℕ → List Piece → ℕ
pieces_at x [] = 0
pieces_at x (p ∷ ps) = (if leb p.bgn x && ltb x p.end then 1 else 0) + pieces_at x ps

-- A piece is inside its region.
abbrev pub IsInside : Piece → Type 0
IsInside p = (p.region.base ≤ p.bgn) × (p.bgn ≤ p.end) × (p.end ≤ p.region.base + p.region.size)

pieces_at-append :
    (x : ℕ) (ps qs : List Piece) → pieces_at x (ps ++ qs) ≡ pieces_at x ps + pieces_at x qs
unfolding pieces_at
pieces_at-append x [] qs = omega arith
pieces_at-append x (p ∷ ps) qs = omega (arith, pieces_at-append x ps qs)

setup_in-pieces_at :
    (r : Span) (bzone ezone x : ℕ)
    → r.base + r.size < 2 ^ 64
    → bzone ≤ ezone
    → pieces_at x (setup_in r bzone ezone)
      ≡ (if (leb bzone x && ltb x ezone) && (leb r.base x && ltb x (r.base + r.size)) then 1 else 0)
unfolding setup_in pieces_at
setup_in-pieces_at r bzone ezone x h le = ground arith

setup_in-IsInside :
    (r : Span) (bzone ezone : ℕ)
    → r.base + r.size < 2 ^ 64
    → bzone ≤ ezone
    → All IsInside (setup_in r bzone ezone)
unfolding setup_in
setup_in-IsInside r bzone ezone h le = ground arith

-- 1 for an address that the zone and the region share.
abbrev shared : ℕ → ℕ → ℕ → Span → ℕ
shared bzone ezone x r =
    if (leb bzone x && ltb x ezone) && (leb r.base x && ltb x (r.base + r.size)) then 1 else 0

abbrev shared_all : ℕ → ℕ → ℕ → List Span → ℕ
shared_all bzone ezone x [] = 0
shared_all bzone ezone x (r ∷ rs) = shared bzone ezone x r + shared_all bzone ezone x rs

setup_zone-shared :
    (rs : List Span) (bzone ezone x : ℕ)
    → All (λ r. r.base + r.size < 2 ^ 64) rs
    → bzone ≤ ezone
    → pieces_at x (setup_zone rs bzone ezone) ≡ shared_all bzone ezone x rs
unfolding setup_zone pieces_at
setup_zone-shared [] bzone ezone x h le = refl
setup_zone-shared (r ∷ rs) bzone ezone x h le =
    pieces_at-append x (setup_in r bzone ezone) (setup_zone rs bzone ezone)
    ∙ rw (setup_in-pieces_at r bzone ezone x h.0 le, setup_zone-shared rs bzone ezone x h.1 le) refl

setup_zone-IsInside :
    (rs : List Span) (bzone ezone : ℕ)
    → All (λ r. r.base + r.size < 2 ^ 64) rs
    → bzone ≤ ezone
    → All IsInside (setup_zone rs bzone ezone)
unfolding setup_zone
setup_zone-IsInside [] bzone ezone h le = tt
setup_zone-IsInside (r ∷ rs) bzone ezone h le =
    All-append IsInside (setup_in r bzone ezone) (setup_zone rs bzone ezone)
      (setup_in-IsInside r bzone ezone h.0 le) (setup_zone-IsInside rs bzone ezone h.1 le)

-- `_setup_zone` with the regions of the kernel, for a zone that ends below 2 ^ 46: every address of
-- the zone is in exactly one of the pieces, no other address is in any, and every piece lies inside
-- its region.
pub setup_zone-pieces_at :
    (bzone ezone : ℕ)
    → bzone ≤ ezone
    → ezone ≤ 2 ^ 46
    → ((x : ℕ)
        → pieces_at x (setup_zone regs bzone ezone) ≡ (if leb bzone x && ltb x ezone then 1 else 0))
      × All IsInside (setup_zone regs bzone ezone)
setup_zone-pieces_at bzone ezone le high =
    let small : All (λ r. r.base + r.size < 2 ^ 64) regs = omega arith in
    (
      λ x. setup_zone-shared regs bzone ezone x small le ∙ ground arith,
      setup_zone-IsInside regs bzone ezone small le,
    )
