-- ===== src/Bitmap/Zones.antt =====
-- Theorems on `_alloc` of kernel/mm/palloc_bitmap.c over the list of the zones.
use nkos.Common.{
  [], ◌*◌, ◌+◌, subst, ap, Option-cases, refl, inr, inl, ◌-◌, ◌≡◌, All, ◌⊎◌, ◌∷◌, ◌<◌, ℕ, arith,
}
use nkos.Palloc.{max_order, returns}
use nkos.Bitmap.{
  none, false, leb, some, List, BitmapZone, block, find_pfn, bmap_words, claim, bitmap_get,
  bitmap_alloc,
}
use nkos.Bitmap.Shape.{first, count-small}
use nkos.Bitmap.Inside.{Holds-index}
use nkos.Bitmap.Alloc.{IsZone, AreZones, IsFull, IsTakenIn, here, there, claim-IsTaken, busy_page}
use nkos.Bitmap.Find.{AllSet, IsFirst, find_pfn-IsFirst}

-- No zone has a block of the order without a busy page.
abbrev pub AreFull : ℕ → List BitmapZone → Type 0
AreFull o zs = All (λ z. (hi : ℕ) × IsZone z hi × IsFull o z hi) zs

-- What `_alloc` returns for the zones: a block, or 0.
abbrev pub IsAnswer : ℕ → List BitmapZone → ℕ → List BitmapZone → Type 0
IsAnswer o zs addr ws = IsTakenIn o addr zs ws ⊎ ((addr ≡ 0) × (ws ≡ zs) × AreFull o zs)

AllSet-IsFull :
    (z : BitmapZone) (hi o : ℕ)
    → IsZone z hi
    → o < max_order
    → AllSet (z.bits o) 0 (z.count o)
    → IsFull o z hi
AllSet-IsFull z hi o v h full g k =
    let (low, high) = Holds-index z hi o g v.0 h k in
    busy_page o z hi g v.1 h k (full (g - first z o) (omega arith) high)

one_more :
    (z : BitmapZone) (zs ws : List BitmapZone) (o addr hi : ℕ)
    → IsZone z hi
    → IsFull o z hi
    → IsAnswer o zs addr ws
    → IsAnswer o (z ∷ zs) addr (z ∷ ws)
one_more z zs ws o addr hi v f (inl taken) = inl (there v f taken)
one_more z zs ws o addr hi v f (inr (a, b, c)) = inr (a, ap (λ zs. z ∷ zs) b, ((hi, v, f), c))

get-next :
    (z : BitmapZone) (zs ws : List BitmapZone) (o addr : ℕ)
    → find_pfn (z.bits o) (z.count o) 0 (bmap_words (z.count o)) ≡ none
    → bitmap_get zs o ≡ some (addr, ws)
    → bitmap_get (z ∷ zs) o ≡ some (addr, z ∷ ws)
unfolding bitmap_get
get-next z zs ws o addr h e = rw (h, bitmap_get) (rw e refl)

get-here :
    (z w : BitmapZone) (zs : List BitmapZone) (o n addr : ℕ)
    → find_pfn (z.bits o) (z.count o) 0 (bmap_words (z.count o)) ≡ some n
    → claim z o n ≡ some (addr, w)
    → bitmap_get (z ∷ zs) o ≡ some (addr, w ∷ zs)
unfolding bitmap_get
get-here z w zs o n addr h e = rw (h, bitmap_get) (rw e refl)

bitmap_get-IsAnswer :
    (zs : List BitmapZone) (o : ℕ)
    → AreZones zs
    → o < max_order
    → (addr : ℕ) × (ws : List BitmapZone) × (bitmap_get zs o ≡ some (addr, ws))
      × AreZones ws
      × IsAnswer o zs addr ws
unfolding bitmap_get
bitmap_get-IsAnswer [] o v h = (0, [], refl, tt, inr (refl, refl, tt))
bitmap_get-IsAnswer (z ∷ zs) o ((hi, v), vs) h =
    let small = count-small z hi o v.0 h in
    let search = find_pfn-IsFirst (z.bits o) (z.count o) (omega arith) in
    elim (Option-cases (find_pfn (z.bits o) (z.count o) 0 (bmap_words (z.count o)))) [
      | inl nothing ↦
          let full : AllSet (z.bits o) 0 (z.count o) =
            subst (IsFirst (z.bits o) 0 (z.count o)) nothing search in
          let (addr, ws, e, us, answer) = bitmap_get-IsAnswer zs o vs h in
          (
            addr,
            z ∷ ws,
            get-next z zs ws o addr nothing e,
            ((hi, v), us),
            one_more z zs ws o addr hi v (AllSet-IsFull z hi o v h full) answer,
          )
      | inr (n, found) ↦
          let (low, less, clear, before) = subst (IsFirst (z.bits o) 0 (z.count o)) found search in
          let (w, e, taken) = claim-IsTaken z hi o n v h less clear in
          (
            (first z o + n) * block o,
            w ∷ zs,
            get-here z w zs o n ((first z o + n) * block o) found e,
            ((hi, taken.valid), vs),
            inl (here taken),
          )
    ]

-- `_alloc` of an order below MAX_ORDER, on zones whose bitmaps agree with each other: it returns. It
-- takes an aligned block of free pages in the first zone that has one, where after it exactly
-- the blocks that share an address with the one taken are busy besides those before and all bitmaps agree
-- again; or it returns 0 and changes nothing, and then every block of the order in every zone has a busy page.
pub bitmap_alloc-IsAnswer :
    (zs : List BitmapZone) (o : ℕ)
    → AreZones zs
    → o < max_order
    → (addr : ℕ) × (ws : List BitmapZone) × (bitmap_alloc zs o ≡ returns (addr, ws))
      × AreZones ws
      × IsAnswer o zs addr ws
unfolding bitmap_alloc
bitmap_alloc-IsAnswer zs o v h =
    let (addr, ws, e, us, answer) = bitmap_get-IsAnswer zs o v h in
    let in_order : leb max_order o ≡ false = ground arith in
    (addr, ws, rw (in_order, e) refl, us, answer)
