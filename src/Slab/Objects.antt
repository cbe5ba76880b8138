-- ===== src/Slab/Objects.antt =====
-- Theorems on the chains of `slab_allocate` in kernel/mm/slab.c: an object is taken from the right slab.
use nkos.Common.{
  true, inr, ◌∙◌, ◌⊎◌, inl, ◌==◌, Bool-cases, ◌%◌, ap, subst, ◌≤◌, ◌^◌, add64, length, [], ◌++◌,
  ◌∷◌, refl, false, All, ◌<◌, List, ◌≡◌, ◌+◌, ℕ, suc, arith,
}
use mathlib.Core.Path.{sym, ap₂}
use nkos.Palloc.{Answer, returns}
use nkos.Slab.{
  Slab, no_slab, SlabCache, take_busy, take_free, take_first, take_object, is_out, u16_mod,
}

-- A slab of the free, the busy and the full ones.
abbrev pub IsFreeSlab : Slab → Type 0
IsFreeSlab s = (s.bsy ≡ 0) × (length s.free ≡ s.cnt) × (2 ≤ s.cnt) × (s.cnt < 2 ^ 16)

abbrev pub IsBusySlab : Slab → Type 0
IsBusySlab s =
    (0 < s.bsy) × (s.bsy + length s.free ≡ s.cnt) × (0 < length s.free) × (s.cnt < 2 ^ 16)

abbrev pub IsFullSlab : Slab → Type 0
IsFullSlab s = (s.free ≡ []) × (s.bsy ≡ s.cnt)

-- The slabs of a cache are on the lists that they belong to.
abbrev pub IsCache : SlabCache → Type 0
IsCache c = All IsFreeSlab c.slab_free × All IsBusySlab c.slab_busy × All IsFullSlab c.slab_full

-- The free objects in the order in which they are given out.
abbrev pub gather : List Slab → List ℕ
gather [] = []
gather (s ∷ slabs) = s.free ++ gather slabs

abbrev pub free_objects : SlabCache → List ℕ
free_objects c = gather c.slab_busy ++ gather c.slab_free

abbrev pub used : List Slab → ℕ
used [] = 0
used (s ∷ slabs) = s.bsy + used slabs

-- The objects in use, as the slabs count them.
abbrev pub in_use : SlabCache → ℕ
in_use c = used c.slab_free + (used c.slab_busy + used c.slab_full)

-- What `_slab_cache_init` chose is kept.
abbrev pub IsSameKind : SlabCache → SlabCache → Type 0
IsSameKind c d =
    (d.osize ≡ c.osize)
    × (d.nobjs ≡ c.nobjs)
    × (d.order ≡ c.order)
    × (d.align ≡ c.align)
    × (d.offset ≡ c.offset)
    × (d.colors ≡ c.colors)
    × (d.nxtcol ≡ c.nxtcol)

-- An object is given out of a cache.
abbrev pub IsGivenOut : SlabCache → Answer (ℕ × SlabCache) → Type 0
IsGivenOut c r =
    (obj : ℕ) × (d : SlabCache) × (r ≡ returns (obj, d))
    × (free_objects c ≡ obj ∷ free_objects d)
    × (in_use d ≡ suc (in_use c))
    × (d.bsy ≡ add64 c.bsy 1)
    × IsCache d
    × IsSameKind c d

same_kind : (c : SlabCache) → IsSameKind c c
same_kind c = (refl, refl, refl, refl, refl, refl, refl)

List-cases : {A : Type 0} (xs : List A) → (xs ≡ []) ⊎ ((x : A) × (ys : List A) × (xs ≡ x ∷ ys))
List-cases [] = inl refl
List-cases (x ∷ xs) = inr (x, xs, refl)

length-zero : (xs : List ℕ) → length xs ≡ 0 → xs ≡ []
length-zero [] h = refl
length-zero (x ∷ xs) h = absurd (omega arith)

append-empty : (xs : List ℕ) → xs ++ [] ≡ xs
append-empty [] = refl
append-empty (x ∷ xs) = ap (λ ys. x ∷ ys) (append-empty xs)

-- The object comes from the first busy slab.
busy_turn :
    (c : SlabCache) (s : Slab) (rest : List Slab) (obj : ℕ) (free : List ℕ)
    → c.slab_busy ≡ s ∷ rest
    → s.free ≡ obj ∷ free
    → IsCache c
    → IsGivenOut c (take_busy c s rest (obj ∷ free))
unfolding take_busy
busy_turn c s rest obj free p q v =
    let ((some_used, sum, some_left, small), others) = subst (All IsBusySlab) p v.1 in
    let long : length s.free ≡ suc (length free) = ap length q in
    let next : (s.bsy + 1) % u16_mod ≡ suc s.bsy = omega arith in
    let taken : Slab = record s { free = free; bsy = (s.bsy + 1) % u16_mod } in
    let counted : SlabCache = record c { bsy = add64 c.bsy 1 } in
    let chained : free_objects c ≡ obj ∷ ((free ++ gather rest) ++ gather c.slab_free) =
      ap (λ b. gather b ++ gather c.slab_free) p
      ∙ ap (λ f. (f ++ gather rest) ++ gather c.slab_free) q in
    let sum_before : used c.slab_busy ≡ s.bsy + used rest = ap used p in
    elim (Bool-cases ((s.bsy + 1) % u16_mod == s.cnt)) [
      | inl last ↦
          let none_left : free ≡ [] = length-zero free (ground arith) in
          let d : SlabCache = record counted {
            slab_busy = rest;
            slab_full = taken ∷ c.slab_full;
          } in
          (
            obj,
            d,
            rw last refl,
            chained ∙ ap (λ f. obj ∷ ((f ++ gather rest) ++ gather c.slab_free)) none_left,
            omega arith,
            refl,
            (v.0, others, ((none_left, ground arith), v.2)),
            same_kind c,
          )
      | inr more ↦
          let d : SlabCache = record counted { slab_busy = taken ∷ rest } in
          let left : 0 < length free = ground arith in
          (
            obj,
            d,
            rw more refl,
            chained,
            omega arith,
            refl,
            (v.0, ((omega arith, omega arith, left, small), others), v.2),
            same_kind c,
          )
    ]

-- The object comes from the first free slab, where no slab is busy.
free_turn :
    (c : SlabCache) (s : Slab) (rest : List Slab) (obj : ℕ) (free : List ℕ)
    → c.slab_busy ≡ []
    → c.slab_free ≡ s ∷ rest
    → s.free ≡ obj ∷ free
    → IsCache c
    → IsGivenOut c (take_free c s rest (obj ∷ free))
unfolding take_free
free_turn c s rest obj free none_busy p q v =
    let ((unused, full, two, small), others) = subst (All IsFreeSlab) p v.0 in
    let long : length s.free ≡ suc (length free) = ap length q in
    let taken : Slab = record s { free = free; bsy = (s.bsy + 1) % u16_mod } in
    let d : SlabCache = record c {
      slab_free = rest;
      slab_busy = taken ∷ c.slab_busy;
      bsy = add64 c.bsy 1;
    } in
    let joined : free_objects c ≡ obj ∷ (free ++ gather rest) =
      ap₂ (λ b f. gather b ++ gather f) none_busy p ∙ ap (λ f. f ++ gather rest) q in
    let behind : free_objects d ≡ (free ++ []) ++ gather rest =
      ap (λ b. (free ++ gather b) ++ gather rest) none_busy in
    let sum_before : used c.slab_free ≡ s.bsy + used rest = ap used p in
    (
      obj,
      d,
      refl,
      joined ∙ ap (λ f. obj ∷ f) (sym (behind ∙ ap (λ f. f ++ gather rest) (append-empty free))),
      omega arith,
      refl,
      (others, ((omega arith, omega arith, omega arith, small), v.1), v.2),
      same_kind c,
    )

first_busy :
    (c : SlabCache) (s : Slab) (rest free : List Slab)
    → take_first c (s ∷ rest) free ≡ take_busy c s rest s.free
unfolding take_first
first_busy c s rest free = refl

first_free :
    (c : SlabCache) (s : Slab) (rest : List Slab)
    → take_first c [] (s ∷ rest) ≡ take_free c s rest s.free
unfolding take_first
first_free c s rest = refl

not_out : (c : SlabCache) → is_out c ≡ false → c.slab_busy ≡ [] → c.slab_free ≡ [] → ⊥
not_out c h p q = let e : no_slab c.slab_busy c.slab_free ≡ true = ap₂ no_slab p q in ground arith

-- `slab_allocate` behind the call of `_slab_grow`, on a cache with slabs on the lists they belong to, all of them of two
-- objects or more, and one of them with a free object: it returns the first of the free objects and the others stay
-- free in their order; one object more is in use, and the slabs are again on the lists they belong to.
pub take_object-IsGivenOut :
    (c : SlabCache) → IsCache c → is_out c ≡ false → IsGivenOut c (take_object c)
unfolding take_object
take_object-IsGivenOut c v h = elim (List-cases c.slab_busy) [
  | inr (s, rest, p) ↦
      let ((some_used, sum, some_left, small), others) = subst (All IsBusySlab) p v.1 in
      elim (List-cases s.free) [
        | inl empty ↦ absurd (let long : length s.free ≡ 0 = ap length empty in omega arith)
        | inr (obj, free, q) ↦
            let step : take_object c ≡ take_busy c s rest (obj ∷ free) =
              ap (λ b. take_first c b c.slab_free) p
              ∙ first_busy c s rest c.slab_free
              ∙ ap (take_busy c s rest) q in
            subst (IsGivenOut c) (sym step) (busy_turn c s rest obj free p q v)
      ]
  | inl none_busy ↦ elim (List-cases c.slab_free) [
    | inl none_free ↦ absurd (not_out c h none_busy none_free)
    | inr (s, rest, p) ↦
        let ((unused, full, two, small), others) = subst (All IsFreeSlab) p v.0 in
        elim (List-cases s.free) [
          | inl empty ↦ absurd (let long : length s.free ≡ 0 = ap length empty in omega arith)
          | inr (obj, free, q) ↦
              let step : take_object c ≡ take_free c s rest (obj ∷ free) =
                ap₂ (take_first c) none_busy p ∙ first_free c s rest ∙ ap (take_free c s rest) q in
              subst (IsGivenOut c) (sym step) (free_turn c s rest obj free none_busy p q v)
        ]
  ]
]
