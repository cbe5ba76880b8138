-- ===== src/Palloc/Runs.antt =====
-- Theorems on the runs of free pages that the buddy allocator finds.
use nkos.Common.{
  ◌%◌, ◌∙◌, All, ◌++◌, inr, inl, Bool-cases, ◌-◌, ◌≤◌, subst, ◌||◌, zero, not, [], suc, ltb, arith,
  ◌&&◌, ◌==◌, leb, if◌then◌else◌, ◌*◌, ◌∷◌, ◌+◌, ◌≡◌, ◌/◌, List, ◌<◌, ℕ,
}
use nkos.Palloc.{Span, page_size}
use nkos.Palloc.Buddy.{Pages, Run, Piece, scan, setup_piece, setup_pieces}
use nkos.Palloc.Pieces.{pieces_at}

-- How many of the runs hold the address.
unfoldable pub runs_at : ℕ → List Run → ℕ
runs_at x [] = 0
runs_at x (r ∷ rs) = (if leb r.b x && ltb x r.e then 1 else 0) + runs_at x rs

pub runs_at-append : (x : ℕ) (rs qs : List Run) → runs_at x (rs ++ qs) ≡ runs_at x rs + runs_at x qs
unfolding runs_at
runs_at-append x [] qs = omega arith
runs_at-append x (r ∷ rs) qs = omega (arith, runs_at-append x rs qs)

-- The type of the page at an address.
abbrev pub type_of : Pages → ℕ → ℕ
type_of pages x = (pages (x / page_size)).type

-- What is behind the loop: the run that is open.
scan-behind :
    (k : ℕ) (pages : Pages) (a ezone type b x : ℕ)
    → x < a
    → runs_at x (scan k pages a ezone type b) ≡ (if type == 0 && leb b x then 1 else 0)
unfolding scan runs_at
scan-behind zero pages a ezone type b x h = ground arith
scan-behind (suc k) pages a ezone type b x h =
    let found = type_of pages a in
    let begins = found == 0 && not (type == 0) in
    let ends = not (found == 0) && type == 0 in
    let rest =
      scan-behind k pages (a + page_size) ezone (if begins || ends then found else type)
        (if begins then a else b) x (omega arith) in
    ground arith

-- What is before the loop: the free pages.
scan-ahead :
    (k : ℕ) (pages : Pages) (a ezone type b i : ℕ)
    → b ≤ a
    → i < k
    → a + page_size * i < ezone
    → runs_at (a + page_size * i) (scan k pages a ezone type b)
      ≡ (if type_of pages (a + page_size * i) == 0 then 1 else 0)
unfolding scan runs_at
scan-ahead zero pages a ezone type b i low h lt = absurd (omega arith)
scan-ahead (suc k) pages a ezone type b zero low h lt =
    let found = type_of pages a in
    let begins = found == 0 && not (type == 0) in
    let ends = not (found == 0) && type == 0 in
    let rest =
      scan-behind k pages (a + page_size) ezone (if begins || ends then found else type)
        (if begins then a else b) a (omega arith) in
    let here : a + page_size * 0 ≡ a = omega arith in rw here (ground arith)
scan-ahead (suc k) pages a ezone type b (suc i) low h lt =
    let found = type_of pages a in
    let begins = found == 0 && not (type == 0) in
    let ends = not (found == 0) && type == 0 in
    let x = a + page_size * suc i in
    let step : a + page_size + page_size * i ≡ x = omega arith in
    let runs =
      scan k pages (a + page_size) ezone (if begins || ends then found else type)
        (if begins then a else b) in
    let rest : runs_at x runs ≡ (if type_of pages x == 0 then 1 else 0) =
      subst (λ y. runs_at y runs ≡ (if type_of pages y == 0 then 1 else 0)) step
        (scan-ahead k pages (a + page_size) ezone (if begins || ends then found else type)
          (if begins then a else b) i (ground arith) (omega arith) (omega arith)) in
    ground arith

-- No run goes beyond the end.
scan-beyond :
    (k : ℕ) (pages : Pages) (m n type b x : ℕ)
    → m ≤ n
    → page_size * n ≤ x
    → runs_at x (scan k pages (page_size * m) (page_size * n) type b) ≡ 0
unfolding scan runs_at
scan-beyond zero pages m n type b x h le = ground arith
scan-beyond (suc k) pages m n type b x h le =
    let a = page_size * m in
    let found = type_of pages a in
    let begins = found == 0 && not (type == 0) in
    let ends = not (found == 0) && type == 0 in
    elim (Bool-cases (ltb a (page_size * n))) [
      | inl more ↦
          let next : page_size * suc m ≡ a + page_size = omega arith in
          let runs : ℕ → List Run = λ y.
            scan k pages y (page_size * n) (if begins || ends then found else type)
              (if begins then a else b) in
          let rest : runs_at x (runs (a + page_size)) ≡ 0 =
            subst (λ y. runs_at x (runs y) ≡ 0) next
              (scan-beyond k pages (suc m) n (if begins || ends then found else type)
                (if begins then a else b) x (ground arith) le) in
          ground arith
      | inr last ↦ ground arith
    ]

-- The runs of a piece between two page boundaries hold exactly its free pages.
setup_piece-runs_at :
    (pages : Pages) (r : Span) (m n f : ℕ)
    → m ≤ n
    → runs_at
        (page_size * f)
        (setup_piece pages (record { region = r; bgn = page_size * m; end = page_size * n }))
      ≡ (if (leb m f && ltb f n) && type_of pages (page_size * f) == 0 then 1 else 0)
unfolding setup_piece
setup_piece-runs_at pages r m n f le =
    let k = (page_size * n + page_size - 1 - page_size * m) / page_size in
    let fuel : k ≡ n - m = omega arith in
    let runs = scan k pages (page_size * m) (page_size * n) 1 0 in
    elim (Bool-cases (leb m f)) [
      | inr before ↦
          let under : page_size * f < page_size * m = ground arith in
          rw before (scan-behind k pages (page_size * m) (page_size * n) 1 0 (page_size * f) under)
      | inl from ↦ elim (Bool-cases (ltb f n)) [
        | inr behind ↦
            let over : page_size * n ≤ page_size * f = ground arith in
            rw (from, behind) (scan-beyond k pages m n 1 0 (page_size * f) le over)
        | inl inside ↦
            let index : page_size * m + page_size * (f - m) ≡ page_size * f = ground arith in
            rw (from, inside)
              (subst (λ y. runs_at y runs ≡ (if type_of pages y == 0 then 1 else 0)) index
                (scan-ahead k pages (page_size * m) (page_size * n) 1 0 (f - m) (omega arith)
                  (ground arith) (ground arith)))
      ]
    ]

-- A piece between two page boundaries.
abbrev pub IsPaged : Piece → Type 0
IsPaged p = (p.bgn ≤ p.end) × (p.bgn % page_size ≡ 0) × (p.end % page_size ≡ 0)

setup_piece-at :
    (pages : Pages) (p : Piece) (m n f : ℕ)
    → m ≤ n
    → p.bgn ≡ page_size * m
    → p.end ≡ page_size * n
    → runs_at (page_size * f) (setup_piece pages p)
      ≡ (if (leb m f && ltb f n) && type_of pages (page_size * f) == 0 then 1 else 0)
unfolding setup_piece
setup_piece-at pages p m n f le b e = rw (b, e) (setup_piece-runs_at pages p.region m n f le)

pub setup_pieces-runs_at :
    (pages : Pages) (ps : List Piece) (f : ℕ)
    → All IsPaged ps
    → runs_at (page_size * f) (setup_pieces pages ps)
      ≡ (if type_of pages (page_size * f) == 0 then pieces_at (page_size * f) ps else 0)
unfolding setup_pieces pieces_at runs_at
setup_pieces-runs_at pages [] f h = ground arith
setup_pieces-runs_at pages (p ∷ ps) f h =
    let x = page_size * f in
    let m = p.bgn / page_size in
    let n = p.end / page_size in
    let le : m ≤ n = omega arith in
    let b : p.bgn ≡ page_size * m = omega arith in
    let e : p.end ≡ page_size * n = omega arith in
    let rest = setup_pieces-runs_at pages ps f h.1 in
    let one = setup_piece-at pages p m n f le b e in
    runs_at-append x (setup_piece pages p) (setup_pieces pages ps) ∙ rw (one, rest) (ground arith)
