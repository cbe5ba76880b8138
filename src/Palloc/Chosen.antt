-- ===== src/Palloc/Chosen.antt =====
-- Theorems on `_init` of the contiguous allocator: the zone that it chooses.
use nkos.Common.{
  ◌==◌, true, leb, length, ◌^◌, zero, ◌∙◌, sym, ap, refl, [], inr, suc, inl, ◌&&◌, ltb, ◌<◌,
  Bool-cases, ◌+◌, ◌∷◌, some, ◌⊎◌, get_elem?, arith, ◌≤◌, ◌≡◌, List, ℕ,
}
use nkos.Palloc.{Span, returns, palloc_init, Vtbl}
use nkos.Palloc.Contiguous.{
  Contiguous, contiguous, contiguous_init, contiguous_pages, contiguous_data, choose, entry_of,
  zones_max, nowhere,
}

-- The choice so far: a zone of the list above the kernel, or none.
abbrev Chosen : ℕ → List Span → Contiguous → Type 0
Chosen pla all d =
    (d.pbgn ≡ nowhere)
    ⊎ ((z : Span) × (get_elem? all d.zidx ≡ some z) × (z.base ≡ d.pbgn) × (pla < z.base))

-- No zone above the kernel starts below b.
abbrev IsUnder : ℕ → List Span → ℕ → Type 0
IsUnder pla zs b = (j : ℕ) (w : Span) → get_elem? zs j ≡ some w → pla < w.base → b ≤ w.base

-- The result of the loop from zone i on.
abbrev IsLowest : ℕ → List Span → Contiguous → Contiguous → Type 0
IsLowest pla zs d out = (out.pbgn ≤ d.pbgn) × (out.zones ≡ d.zones) × IsUnder pla zs out.pbgn

IsUnder-cons :
    (pla b : ℕ) (z : Span) (zs : List Span)
    → (pla < z.base → b ≤ z.base)
    → IsUnder pla zs b
    → IsUnder pla (z ∷ zs) b
IsUnder-cons pla b z zs h t zero w e k =
    let same : z.base ≡ w.base = ap (λ o. (entry_of o).base) e in omega (arith, h (omega arith))
IsUnder-cons pla b z zs h t (suc j) w e k = t j w e k

at-suc :
    (all zs : List Span) (z : Span) (i : ℕ)
    → ((j : ℕ) → get_elem? (z ∷ zs) j ≡ get_elem? all (i + j))
    → (j : ℕ) → get_elem? zs j ≡ get_elem? all (suc i + j)
at-suc all zs z i at j =
    let e : i + suc j ≡ suc i + j = omega arith in at (suc j) ∙ ap (get_elem? all) e

choose-IsLowest :
    (pla i : ℕ) (zs : List Span) (d : Contiguous) → IsLowest pla zs d (choose pla i zs d)
unfolding choose
choose-IsLowest pla i [] d = (omega arith, refl, λ j w e h. ground arith)
choose-IsLowest pla i (z ∷ zs) d = elim (Bool-cases (ltb pla z.base && ltb z.base d.pbgn)) [
  | inl take ↦
      let s = record d { zidx = i; pbgn = z.base } in
      let (le, same, low) = choose-IsLowest pla (suc i) zs s in
      rw (take, choose) (ground arith, same, IsUnder-cons pla _ z zs (λ h. le) low)
  | inr keep ↦
      let (le, same, low) = choose-IsLowest pla (suc i) zs d in
      rw (keep, choose) (le, same, IsUnder-cons pla _ z zs (λ h. ground arith) low)
]

choose-Chosen :
    (pla i : ℕ) (all zs : List Span) (d : Contiguous)
    → ((j : ℕ) → get_elem? zs j ≡ get_elem? all (i + j))
    → Chosen pla all d
    → Chosen pla all (choose pla i zs d)
unfolding choose
choose-Chosen pla i all [] d at c = c
choose-Chosen pla i all (z ∷ zs) d at c = elim (Bool-cases (ltb pla z.base && ltb z.base d.pbgn)) [
  | inl take ↦
      rw (take, choose)
        (choose-Chosen pla (suc i) all zs (record d { zidx = i; pbgn = z.base })
          (at-suc all zs z i at)
          (inr (
            z,
            sym (at 0 ∙ ap (get_elem? all) (let here : i + 0 ≡ i = omega arith in here)),
            refl,
            ground arith,
          )))
  | inr keep ↦ rw (keep, choose) (choose-Chosen pla (suc i) all zs d (at-suc all zs z i at) c)
]

-- What the allocator works on after `_init`: a zone, and the part of it that is given out, with room
-- for a block of the largest order before the end of the address space.
pub record IsPool (z : Span) (d : Contiguous) : Type 0 where
  pub zone : get_elem? d.zones d.zidx ≡ some z
  pub start : z.base ≡ d.pbgn
  pub above : 0 < d.pbgn
  pub grown : d.pbgn ≤ d.pend
  pub inside : d.pend ≤ z.base + z.size
  pub fits : z.base + z.size + 2 ^ 22 < 2 ^ 64

-- `palloc_init` of the contiguous allocator, for at most 32 zones that end more than 4 MB before the
-- end of the address space and of which one lies above the kernel: no assertion fails, the zone chosen lies
-- above the kernel, no zone above the kernel starts lower, and nothing of it is given out.
pub palloc_init-IsPool :
    {O : Type 0} (w : Vtbl O) (o : O) (pla j : ℕ) (known : Span)
    → length (w.foreach_zone o) ≤ zones_max
    → ((i : ℕ) (z : Span)
        → get_elem? (w.foreach_zone o) i ≡ some z
        → z.base + z.size + 2 ^ 22 < 2 ^ 64)
    → get_elem? (w.foreach_zone o) j ≡ some known
    → pla < known.base
    → (d : Contiguous) × (z : Span) × (palloc_init (contiguous pla) contiguous_data w o ≡ returns d)
      × IsPool z d
      × (pla < z.base)
      × ((i : ℕ) (v : Span)
          → get_elem? (w.foreach_zone o) i ≡ some v
          → pla < v.base
          → z.base ≤ v.base)
      × (contiguous_pages d ≡ [])
unfolding palloc_init contiguous_init contiguous_pages
palloc_init-IsPool w o pla j known few fit e k =
    let zs = w.foreach_zone o in
    let s = record contiguous_data { zones = zs } in
    let d = record (choose pla 0 zs s) { pend = (choose pla 0 zs s).pbgn } in
    let (le, same, low) = choose-IsLowest pla 0 zs s in
    let under = low j known e k in
    let room = fit j known e in
    let small : leb (length zs) zones_max ≡ true = ground arith in
    elim (choose-Chosen pla 0 zs zs s
      (λ i. ap (get_elem? zs) (let z : i ≡ 0 + i = omega arith in z)) (inl refl)) [
        | inl none_yet ↦ absurd (omega arith)
        | inr found ↦
            let (z, at, b, a) = found in
            (
              d,
              z,
              rw small refl,
              record {
                zone = ap (λ l. get_elem? l (choose pla 0 zs s).zidx) same ∙ at;
                start = b;
                above = omega arith;
                grown = omega arith;
                inside = omega arith;
                fits = fit (choose pla 0 zs s).zidx z at;
              },
              a,
              λ i v f h. omega (arith, low i v f h),
              (let e : ((choose pla 0 zs s).pbgn == (choose pla 0 zs s).pbgn) ≡ true =
                    ground arith in
                  rw e refl),
            )
      ]
