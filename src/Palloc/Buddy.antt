-- ===== src/Palloc/Buddy.antt =====
-- kernel/mm/palloc_buddy.c: how the zones are divided among the regions, and the runs of free pages.
use nkos.Common.{
  ◌||◌, zero, ◌-◌, not, ◌/◌, ◌+◌, suc, ◌==◌, ℕ, List, [], ◌∷◌, ◌++◌, ◌&&◌, leb, ltb, if◌then◌else◌,
  add64,
}
use nkos.Palloc.{page_size, Span}

-- `_regs`: DMA, NORMAL and HIGH.
abbrev pub regs : List Span
regs =
    record { base = 0; size = 0x0000000001000000 }
    ∷ record { base = 0x0000000001000000; size = 0x00000000FF000000 }
    ∷ record { base = 0x0000000100000000; size = 0x00003FFF00000000 }
    ∷ []

-- A call of `_setup_zone_in_region`: the region, bzone and ezone.
pub record Piece : Type 0 where
  pub region : Span
  pub bgn : ℕ
  pub end : ℕ

-- The body of the loop of `_setup_zone` for one region.
unfoldable pub setup_in : Span → ℕ → ℕ → List Piece
setup_in r bzone ezone =
    let b = r.base in
    let e = add64 r.base r.size in
    if leb e bzone
    then []
    else if ltb bzone b
    then (if ltb b ezone && leb ezone e
        then record { region = r; bgn = b; end = ezone } ∷ []
        else if ltb e ezone
        then record { region = r; bgn = b; end = e } ∷ []
        else [])
    else if leb b bzone && ltb bzone e
    then (if leb ezone e
        then record { region = r; bgn = bzone; end = ezone } ∷ []
        else record { region = r; bgn = bzone; end = e } ∷ [])
    else []

-- `_setup_zone`
unfoldable pub setup_zone : List Span → ℕ → ℕ → List Piece
setup_zone [] bzone ezone = []
setup_zone (r ∷ rs) bzone ezone = setup_in r bzone ezone ++ setup_zone rs bzone ezone

-- struct page_t, the fields that the allocator uses
pub record Page : Type 0 where
  pub type : ℕ
  pub order : ℕ

-- The page descriptors, by the number of the page.
abbrev pub Pages : Type 0
Pages = ℕ → Page

-- PAGE_TYPE_SYSTEM
abbrev pub page_type_system : ℕ
page_type_system = 1

-- *pg_pma2page(p) = v
abbrev pub set_page : Pages → ℕ → Page → Pages
set_page pages p v = λ frame. if frame == p / page_size then v else pages frame

-- The loop of `_reserve` from p to the end, with fuel.
unfoldable pub reserve_from : ℕ → Pages → ℕ → ℕ → Pages
reserve_from zero pages p end = pages
reserve_from (suc k) pages p end =
    let page : Page = record { type = page_type_system; order = 0 } in
    let rest = reserve_from k (set_page pages p page) (add64 p page_size) end in
    if ltb p end then rest else pages

-- `_reserve`; one turn for each page is enough fuel where the range ends before the last page of the address space. The source
-- does not end where it reaches into that page.
unfoldable pub reserve : Pages → Span → Pages
reserve pages z =
    reserve_from ((z.size + page_size - 1) / page_size) pages z.base (add64 z.base z.size)

-- A run of free pages, as `_setup_zone_in_region` reports it: from b to e.
pub record Run : Type 0 where
  pub b : ℕ
  pub e : ℕ

-- The loop from address a on, with fuel. `type` and `b` are the variables of the source.
unfoldable pub scan : ℕ → Pages → ℕ → ℕ → ℕ → ℕ → List Run
scan zero pages a ezone type b = if type == 0 then record { b = b; e = a } ∷ [] else []
scan (suc k) pages a ezone type b =
    let found = (pages (a / page_size)).type in
    let begins = found == 0 && not (type == 0) in
    let ends = not (found == 0) && type == 0 in
    let rest =
      scan k pages (a + page_size) ezone (if begins || ends then found else type)
        (if begins then a else b) in
    if ltb a ezone
    then (if ends then record { b = b; e = a } ∷ rest else rest)
    else if type == 0
    then record { b = b; e = a } ∷ []
    else []

-- `_setup_zone_in_region`: `type` starts as 1, and `b` is not set before a free page is found.
unfoldable pub setup_piece : Pages → Piece → List Run
setup_piece pages p = scan ((p.end + page_size - 1 - p.bgn) / page_size) pages p.bgn p.end 1 0

unfoldable pub setup_pieces : Pages → List Piece → List Run
setup_pieces pages [] = []
setup_pieces pages (p ∷ ps) = setup_piece pages p ++ setup_pieces pages ps

-- The two loops of `_init`, over the pages and the zones of the old allocator.
unfoldable pub reserve_all : Pages → List Span → Pages
reserve_all pages [] = pages
reserve_all pages (z ∷ zs) = reserve_all (reserve pages z) zs

unfoldable pub setup_zones : Pages → List Span → List Run
setup_zones pages [] = []
setup_zones pages (z ∷ zs) =
    setup_pieces pages (setup_zone regs z.base (add64 z.base z.size)) ++ setup_zones pages zs

-- `_init`: the descriptors that it leaves, and the runs that it reports.
unfoldable pub buddy_init : Pages → List Span → List Span → Pages × List Run
buddy_init pages zones old =
    let marked = reserve_all pages old in (marked, setup_zones marked zones)
