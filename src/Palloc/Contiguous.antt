-- ===== src/Palloc/Contiguous.antt =====
-- kernel/mm/palloc_contiguous.c: pages are taken one after another from one zone and never freed.
use nkos.Common.{
  ℕ, suc, ◌+◌, ◌-◌, ◌^◌, none, some, Option, List, [], ◌∷◌, ◌&&◌, ◌==◌, leb, ltb, length, get_elem?,
  if◌then◌else◌, add64, sub64, u64_mod,
}
use nkos.Palloc.{Span, Answer, undefined, returns, Vtbl, page_log_size}

-- ZONES_MAX
abbrev pub zones_max : ℕ
zones_max = 32

-- struct palloc_contiguous_data_t: the list holds the first zcnt entries of `zones`.
pub record Contiguous : Type 0 where
  pub zones : List Span
  pub zidx : ℕ
  pub pbgn : ℕ
  pub pend : ℕ

-- (void*)-1
abbrev pub nowhere : ℕ
nowhere = u64_mod - 1

-- `_data`
abbrev pub contiguous_data : Contiguous
contiguous_data = record { zones = []; zidx = 0; pbgn = nowhere; pend = nowhere }

-- The loop of `_init` from zone i on.
unfoldable pub choose : ℕ → ℕ → List Span → Contiguous → Contiguous
choose pla i [] d = d
choose pla i (z ∷ zones) d =
    choose pla (suc i) zones
      (if ltb pla z.base && ltb z.base d.pbgn then record d { zidx = i; pbgn = z.base } else d)

-- `_init`, with the address that the kernel was loaded at. The assertion on `zcnt` comes after the
-- write, so a zone too many is written behind the array.
unfoldable pub contiguous_init : ℕ → Contiguous → List Span → List Span → Answer Contiguous
unfolding choose
contiguous_init pla d zones pages =
    let chosen = choose pla 0 zones (record d { zones = zones }) in
    if leb (length zones) zones_max
    then returns (record chosen { pend = chosen.pbgn })
    else undefined

-- zones[i]; the entries behind the first zcnt are zeros.
abbrev pub entry_of : Option Span → Span
entry_of none = record { base = 0; size = 0 }
entry_of (some z) = z

abbrev pub zone_at : List Span → ℕ → Span
zone_at zones i = entry_of (get_elem? zones i)

-- `_alloc`: 0 says that there is no room. A shift by 64 or more is undefined.
unfoldable pub contiguous_alloc : Contiguous → ℕ → Answer (ℕ × Contiguous)
contiguous_alloc d order =
    let size = 2 ^ (order + page_log_size) in
    let z = zone_at d.zones d.zidx in
    let end = add64 d.pend size in
    if leb 64 (order + page_log_size)
    then undefined
    else if ltb end (add64 z.base z.size)
    then returns (d.pend, record d { pend = end })
    else returns (0, d)

-- `_foreach_page`
unfoldable pub contiguous_pages : Contiguous → List Span
contiguous_pages d =
    if d.pbgn == d.pend then [] else record { base = d.pbgn; size = sub64 d.pend d.pbgn } ∷ []

-- `_vtbl`
abbrev pub contiguous : ℕ → Vtbl Contiguous
contiguous pla = record {
  init = some (contiguous_init pla);
  alloc = some contiguous_alloc;
  free = none;
  foreach_zone = λ d. d.zones;
  foreach_page = contiguous_pages;
}
