-- ===== src/Bitmap/Undo.antt =====
-- Theorems on `_free` of kernel/mm/palloc_bitmap.c over the list of the zones, and after `_alloc`.
use nkos.Common.{
  [], ◌∙◌, subst, ◌-◌, inl, ◌%◌, ◌+◌, refl, Bool-cases, ◌∷◌, if◌then◌else◌, inr, ◌&&◌, ◌*◌, ◌⊎◌,
  ◌||◌, ◌/◌, ◌≡◌, All, ◌==◌, ◌<◌, ℕ, arith,
}
use nkos.Palloc.{max_order, returns, panic}
use nkos.Bitmap.{
  some, false, ltb, true, Answer, leb, Bool, List, BitmapZone, block, release, release_in,
  bitmap_free, bitmap_zone_bgn, bitmap_zone_end,
}
use nkos.Bitmap.Shape.{first}
use nkos.Bitmap.Inside.{Holds, index-Holds}
use nkos.Bitmap.Above.{bit, outside-index}
use nkos.Bitmap.Alloc.{AreZones}
use nkos.Bitmap.Free.{IsFreed, release-IsFreed}
use native.Mathlib.Nat.{div-add-mod'}

-- The block g of order o is in a zone.
abbrev pub holds_block : ℕ → ℕ → BitmapZone → Bool
holds_block o g z = leb (first z o) g && ltb g (first z o + z.count o)

-- The first zone that holds the block is the one that changes.
pub data IsFreedIn (o g : ℕ) : List BitmapZone → List BitmapZone → Type 0 where
  here :
      {z w : BitmapZone} {zs : List BitmapZone} {hi : ℕ}
      → holds_block o g z ≡ true
      → IsFreed o (g * block o) z w hi
      → IsFreedIn o g (z ∷ zs) (w ∷ zs)
  there :
      {z : BitmapZone} {zs ws : List BitmapZone}
      → holds_block o g z ≡ false
      → IsFreedIn o g zs ws
      → IsFreedIn o g (z ∷ zs) (z ∷ ws)

-- Where the block is in a zone, it is busy there.
abbrev pub IsGiven : ℕ → ℕ → List BitmapZone → Type 0
IsGiven o g zs = All (λ z. holds_block o g z ≡ true → bit z z.bits o g ≡ true) zs

free-here :
    (z w : BitmapZone) (zs : List BitmapZone) (o addr : ℕ)
    → (z.count o == 0 || (ltb addr (bitmap_zone_bgn z o) || leb (bitmap_zone_end z o) addr)) ≡ false
    → release z addr o ≡ some w
    → release_in (z ∷ zs) addr o ≡ returns (w ∷ zs)
unfolding release_in
free-here z w zs o addr h e = rw (h, e) refl

free-next :
    (z : BitmapZone) (zs ws : List BitmapZone) (o addr : ℕ)
    → (z.count o == 0 || (ltb addr (bitmap_zone_bgn z o) || leb (bitmap_zone_end z o) addr)) ≡ true
    → release_in zs addr o ≡ returns ws
    → release_in (z ∷ zs) addr o ≡ returns (z ∷ ws)
unfolding release_in
free-next z zs ws o addr h e = rw h (rw (e, release_in) refl)

free-nowhere :
    (z : BitmapZone) (zs : List BitmapZone) (o addr : ℕ)
    → (z.count o == 0 || (ltb addr (bitmap_zone_bgn z o) || leb (bitmap_zone_end z o) addr)) ≡ true
    → release_in zs addr o ≡ panic
    → release_in (z ∷ zs) addr o ≡ panic
unfolding release_in
free-nowhere z zs o addr h e = rw h (rw (e, release_in) refl)

-- What `_free` does with an aligned block.
abbrev pub IsFreeing : ℕ → ℕ → List BitmapZone → Answer (List BitmapZone) → Type 0
IsFreeing o g zs r =
    ((ws : List BitmapZone) × (r ≡ returns ws) × AreZones ws × IsFreedIn o g zs ws)
    ⊎ ((r ≡ panic) × All (λ z. holds_block o g z ≡ false) zs)

release_in-IsFreeing :
    (zs : List BitmapZone) (o g : ℕ)
    → AreZones zs
    → o < max_order
    → IsGiven o g zs
    → IsFreeing o g zs (release_in zs (g * block o) o)
unfolding release_in
release_in-IsFreeing [] o g v h given = inr (refl, tt)
release_in-IsFreeing (z ∷ zs) o g ((hi, v), vs) h (given, givens) =
    let guard = outside-index z hi o g v.0 h in
    elim (Bool-cases (holds_block o g z)) [
      | inl inside ↦
          let within : first z o + (g - first z o) ≡ g = ground arith in
          let less : g - first z o < z.count o = ground arith in
          let holds = subst (Holds z hi o) within (index-Holds z hi o (g - first z o) v.0 h less) in
          let (w, e, freed) = release-IsFreed z hi o g v h holds (given inside) in
          inl (
            w ∷ zs,
            free-here z w zs o (g * block o) (guard ∙ rw inside refl) e,
            ((hi, freed.valid), vs),
            here inside freed,
          )
      | inr outside ↦ elim (release_in-IsFreeing zs o g vs h givens) [
        | inl (ws, e, us, freed) ↦ inl (
          z ∷ ws,
          free-next z zs ws o (g * block o) (guard ∙ rw outside refl) e,
          ((hi, v), us),
          there outside freed,
        )
        | inr (e, others) ↦
            inr (free-nowhere z zs o (g * block o) (guard ∙ rw outside refl) e, (outside, others))
      ]
    ]

-- `_free` of an order below MAX_ORDER, on zones whose bitmaps agree with each other and where the block
-- is busy in each zone that holds it: an address off the boundary of the order fails an
-- assertion, as does a block that no zone holds; otherwise it returns, and in the first zone that holds the
-- block exactly its pages become free, and all bitmaps agree again.
pub bitmap_free-IsFreeing :
    (zs : List BitmapZone) (o addr : ℕ)
    → AreZones zs
    → o < max_order
    → IsGiven o (addr / block o) zs
    → if addr % block o == 0
      then IsFreeing o (addr / block o) zs (bitmap_free zs addr o)
      else (bitmap_free zs addr o ≡ panic)
unfolding bitmap_free
bitmap_free-IsFreeing zs o addr v h given =
    let in_order : leb max_order o ≡ false = ground arith in
    elim (Bool-cases (addr % block o == 0)) [
      | inl aligned ↦
          let parts = div-add-mod' addr (block o) in
          let same : addr / block o * block o ≡ addr = ground arith in
          rw (in_order, aligned)
            (subst (λ a. IsFreeing o (addr / block o) zs (release_in zs a o)) same
              (release_in-IsFreeing zs o (addr / block o) v h given))
      | inr off ↦ rw (in_order, off) refl
    ]
