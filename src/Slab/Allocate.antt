-- ===== src/Slab/Allocate.antt =====
-- Theorems on `slab_allocate` of kernel/mm/slab.c for a cache of small objects.
use nkos.Common.{
  lt→ltb, u32_mod, inl, ◌%◌, inr, ◌==◌, Bool-cases, if◌then◌else◌, ltb, All, subst, sym, ◌≢◌, ◌∙◌,
  true, ◌^◌, ◌+◌, [], ◌<◌, ap, ◌∷◌, ◌⊎◌, false, ◌*◌, refl, List, ◌≡◌, ℕ, suc, arith,
}
use nkos.Palloc.{Answer, panic, returns, page_size, ◌>>=◌}
use nkos.Slab.{Slab, SlabCache, grow_small, take_object, is_out, no_slab}
use nkos.Slab.Calls.{Sa, set_cache, slab_grow_small, slab_allocate}
use nkos.Slab.Layout.{IsFitting}
use nkos.Slab.Objects.{
  IsCache, IsFreeSlab, IsBusySlab, IsFullSlab, IsSameKind, take_object-IsGivenOut, free_objects,
}
use nkos.Slab.Page.{grow_small-IsSlabOn}

no_slab-cons : (busy free : List Slab) (s : Slab) → no_slab busy (s ∷ free) ≡ false
no_slab-cons [] free s = refl
no_slab-cons (x ∷ busy) free s = refl

-- A page for pg_pma2vma, as an allocator gives it out: its number is not 0.
abbrev pub IsPage : ℕ → Type 0
IsPage p =
    (g : ℕ) × (p ≡ g * page_size)
    × (0 < g)
    × (g * page_size + page_size + 0xffff800000000000 < 2 ^ 64)

-- What an allocator promises for one page, in the states where P holds: `palloc_get` returns a page or 0, and P holds again.
abbrev pub IsPalloc {ℓ} : {D : Type ℓ} → (D → ℕ → Answer (ℕ × D)) → (D → Type ℓ) → Type ℓ
IsPalloc {D = D} get P =
    (d : D) → P d → (p : ℕ) × (e : D) × (get d 0 ≡ returns (p, e)) × P e × ((p ≡ 0) ⊎ IsPage p)

same_lists :
    (c : SlabCache) (p : ℕ)
    → ((grow_small c p).slab_busy ≡ c.slab_busy) × ((grow_small c p).slab_full ≡ c.slab_full)
unfolding grow_small
same_lists c p = (refl, refl)

-- The cache behind the call of `_slab_grow`.
grown-IsCache :
    (c : SlabCache) (k p : ℕ)
    → IsFitting c k
    → IsCache c
    → IsPage p
    → IsCache (grow_small c p) × (is_out (grow_small c p) ≡ false) × IsFitting (grow_small c p) k
grown-IsCache c k p f v (g, e, some_page, room) =
    let (s, front, on, next, fitting) = grow_small-IsSlabOn c k g f room in
    let at : grow_small c p ≡ grow_small c (g * page_size) = ap (grow_small c) e in
    let (busy, full) = same_lists c (g * page_size) in
    let enough : IsFreeSlab s = (
      on.1,
      on.3 ∙ sym on.2,
      (let two = f.7 in let n = on.2 in omega arith),
      (let few = f.8 in let n = on.2 in omega arith),
    ) in
    let lists : IsCache (grow_small c (g * page_size)) = (
      subst (All IsFreeSlab) (sym front) (enough, v.0),
      subst (All IsBusySlab) (sym busy) v.1,
      subst (All IsFullSlab) (sym full) v.2,
    ) in
    let found : is_out (grow_small c (g * page_size)) ≡ false =
      ap (no_slab (grow_small c (g * page_size)).slab_busy) front
      ∙ no_slab-cons (grow_small c (g * page_size)).slab_busy c.slab_free s in
    subst (λ d. IsCache d × (is_out d ≡ false) × IsFitting d k) (sym at) (lists, found, fitting)

same_kind-IsFitting : (c d : SlabCache) (k : ℕ) → IsSameKind c d → IsFitting c k → IsFitting d k
same_kind-IsFitting c d k (osize, nobjs, order, align, offset, colors, nxtcol) f =
    rw (osize, nobjs, order, align, offset, colors, nxtcol) f

module _ {D : Type 0} (get : D → ℕ → Answer (ℕ × D)) where
  -- An object of the cache c of sa: the caches and the allocator keep what holds of them, and the free objects are those
  -- before, or those after a page was added because there were none.
  abbrev pub IsAllocated : (D → Type 0) → Sa D → ℕ → ℕ → Answer (ℕ × Sa D) → Type 0
  IsAllocated P sa c k r =
      (obj : ℕ) × (sb : Sa D) × (r ≡ returns (obj, sb))
      × IsCache (sb.caches c)
      × IsFitting (sb.caches c) k
      × P sb.allocator
      × ((i : ℕ) → i ≢ c → sb.caches i ≡ sa.caches i)
      × (((is_out (sa.caches c) ≡ false)
            × (sb.allocator ≡ sa.allocator)
            × (free_objects (sa.caches c) ≡ obj ∷ free_objects (sb.caches c)))
          ⊎ ((p : ℕ) × (is_out (sa.caches c) ≡ true)
              × IsPage p
              × (get sa.allocator (sa.caches c).order ≡ returns (p, sb.allocator))
              × (free_objects (grow_small (sa.caches c) p) ≡ obj ∷ free_objects (sb.caches c))))

  -- The part of `slab_allocate` behind the call of `_slab_grow`.
  abbrev behind : Sa D → ℕ → Answer (ℕ × Sa D)
  behind sa c = take_object (sa.caches c) >>= λ r. returns (r.0, set_cache sa c r.1)

  step_in :
      (n : ℕ) (sa : Sa D) (c : ℕ)
      → is_out (sa.caches c) ≡ false
      → slab_allocate (suc n) get sa c ≡ behind sa c
  unfolding slab_allocate
  step_in n sa c h = rw h refl

  step_out :
      (n : ℕ) (sa : Sa D) (c : ℕ)
      → is_out (sa.caches c) ≡ true
      → (sa.caches c).osize < 512
      → slab_allocate (suc n) get sa c ≡ (slab_grow_small get sa c >>= λ sb. behind sb c)
  unfolding slab_allocate
  step_out n sa c h l =
      let small : ltb ((sa.caches c).osize * 8 % u32_mod) page_size ≡ true =
        lt→ltb _ _ (omega arith) in
      rw (h, small) refl

  grow_page :
      (sa : Sa D) (c p : ℕ) (e : D)
      → get sa.allocator (sa.caches c).order ≡ returns (p, e)
      → slab_grow_small get sa c ≡ (
          if p == 0
          then panic
          else returns (set_cache (record sa { allocator = e }) c (grow_small (sa.caches c) p)))
  unfolding slab_grow_small
  grow_page sa c p e h = rw h refl

  set_cache-same : (sa : Sa D) (c : ℕ) (v : SlabCache) → (set_cache sa c v).caches c ≡ v
  set_cache-same sa c v = let same : (c == c) ≡ true = ground arith in rw same refl

  set_cache-other :
      (sa : Sa D) (c i : ℕ) (v : SlabCache) → i ≢ c → (set_cache sa c v).caches i ≡ sa.caches i
  set_cache-other sa c i v h = let other : (i == c) ≡ false = ground arith in rw other refl

  behind-IsGivenOut :
      (sa : Sa D) (c k : ℕ) (v : SlabCache)
      → sa.caches c ≡ v
      → IsCache v
      → IsFitting v k
      → is_out v ≡ false
      → (obj : ℕ) × (d : SlabCache) × (behind sa c ≡ returns (obj, set_cache sa c d))
        × IsCache d
        × IsFitting d k
        × (free_objects v ≡ obj ∷ free_objects d)
  behind-IsGivenOut sa c k v at lists f found =
      let (obj, d, e, free, more, count, valid, kind) = take_object-IsGivenOut v lists found in
      (
        obj,
        d,
        ap (λ x. take_object x >>= λ r. returns (r.0, set_cache sa c r.1)) at
            ∙ ap (λ t. t >>= λ r. returns (r.0, set_cache sa c r.1)) e,
        valid,
        same_kind-IsFitting v d k kind f,
        free,
      )

  -- `slab_allocate` of the cache c of small objects, whose slabs are on the lists they belong to, with pages from an
  -- allocator in a state where P holds, which `palloc_get` of one page keeps while it returns a page or 0: if no slab has a free object and the allocator
  -- has no page, an assertion fails. Otherwise it returns the first free object, of a new page only if there was none before, all
  -- other free objects stay free in their order, no other cache changes, and all that holds of the cache and the allocator holds again.
  pub slab_allocate-IsAllocated :
      (P : D → Type 0) (n : ℕ) (sa : Sa D) (c k : ℕ)
      → IsPalloc get P
      → P sa.allocator
      → IsFitting (sa.caches c) k
      → IsCache (sa.caches c)
      → ((slab_allocate (suc n) get sa c ≡ panic)
          × (is_out (sa.caches c) ≡ true)
          × ((e : D) × (get sa.allocator (sa.caches c).order ≡ returns (0, e))))
        ⊎ IsAllocated P sa c k (slab_allocate (suc n) get sa c)
  unfolding slab_allocate
  slab_allocate-IsAllocated P n sa c k pages holds f v = elim (Bool-cases (is_out (sa.caches c))) [
    | inr found ↦
        let (obj, d, e, valid, fitting, free) =
          behind-IsGivenOut sa c k (sa.caches c) refl v f found in
        let at = set_cache-same sa c d in
        inr (
          obj,
          set_cache sa c d,
          step_in n sa c found ∙ e,
          subst IsCache (sym at) valid,
          subst (λ d. IsFitting d k) (sym at) fitting,
          holds,
          λ i h. set_cache-other sa c i d h,
          inl (found, refl, free ∙ ap (λ d. obj ∷ free_objects d) (sym at)),
        )
    | inl out ↦
        let one : (sa.caches c).order ≡ 0 = f.3 in
        let (p, a, zero_got, again, page) = pages sa.allocator holds in
        let got = ap (get sa.allocator) one ∙ zero_got in
        let small : (sa.caches c).osize < 512 = f.4 in
        let step =
          step_out n sa c out small ∙ ap (λ g. g >>= λ sb. behind sb c) (grow_page sa c p a got) in
        elim page [
          | inl no_page ↦
              inl (step ∙ rw no_page refl, out, (a, got ∙ ap (λ p. returns (p, a)) no_page))
          | inr some_page ↦
              let (g, same, positive, room) = some_page in
              let nonzero : (p == 0) ≡ false = ground arith in
              let v2 = grow_small (sa.caches c) p in
              let moved : Sa D = record sa { allocator = a } in
              let sb : Sa D = set_cache moved c v2 in
              let (lists, found, fits) = grown-IsCache (sa.caches c) k p f v some_page in
              let (obj, d, e, valid, fitting, free) =
                behind-IsGivenOut sb c k v2 (set_cache-same moved c v2) lists fits found in
              let at = set_cache-same sb c d in
              inr (
                obj,
                set_cache sb c d,
                step ∙ rw nonzero e,
                subst IsCache (sym at) valid,
                subst (λ d. IsFitting d k) (sym at) fitting,
                again,
                λ i h. set_cache-other sb c i d h ∙ set_cache-other moved c i v2 h,
                inr (p, out, some_page, got, free ∙ ap (λ d. obj ∷ free_objects d) (sym at)),
              )
        ]
  ]
