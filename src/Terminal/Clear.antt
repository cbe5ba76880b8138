-- ===== src/Terminal/Clear.antt =====
-- Theorems on `tm_clear` of loader/krn/tm.c.
use nkos.Common.{
  true, refl, leb, zero, suc, ◌∙◌, ap, suc, arith, ◌+◌, get_elem?, some, ◌*◌, ◌≡◌, List, length,
  ◌<◌, ℕ,
}
use nkos.Common.Memory.{length-overwrite, get_elem?-overwrite_in, overwrite}
use nkos.Terminal.{Term, clear, clear_cells, plain_attr}

length-clear_cells : (n : ℕ) → length (clear_cells n) ≡ 2 * n
unfolding clear_cells
length-clear_cells zero = refl
length-clear_cells (suc n) = omega (arith, length-clear_cells n)

get_elem?-clear_cells :
    (n i : ℕ)
    → i < n
    → (get_elem? (clear_cells n) (2 * i) ≡ some 0)
      × (get_elem? (clear_cells n) (2 * i + 1) ≡ some plain_attr)
unfolding clear_cells
get_elem?-clear_cells zero i h = elim h [ ]
get_elem?-clear_cells (suc n) zero h = (refl, refl)
get_elem?-clear_cells (suc n) (suc i) h =
    let (p, q) = get_elem?-clear_cells n i (omega arith) in
    let even : 2 * suc i ≡ suc (suc (2 * i)) = omega arith in
    let odd : 2 * suc i + 1 ≡ suc (suc (2 * i + 1)) = omega arith in (rw even p, rw odd q)

-- `tm_clear` keeps the size of the screen and gives every cell the code 0 and the plain attribute.
pub clear_lem :
    (t : Term)
    → length t.addr ≡ 2 * t.mx * t.my
    → (b : List ℕ) × (clear t ≡ some (record t { addr = b }))
      × (length b ≡ length t.addr)
      × ((i : ℕ)
          → i < t.mx * t.my
          → (get_elem? b (2 * i) ≡ some 0) × (get_elem? b (2 * i + 1) ≡ some plain_attr))
unfolding clear
clear_lem t len =
    let cells = clear_cells (t.mx * t.my) in
    let n : length cells ≡ 2 * (t.mx * t.my) = length-clear_cells (t.mx * t.my) in
    let fits : leb (2 * t.mx * t.my) (length t.addr) ≡ true = ground arith in
    let at : (j : ℕ)
        → j < length cells
        → get_elem? (overwrite t.addr 0 cells) j ≡ get_elem? cells j =
      λ j h.
        ap (get_elem? (overwrite t.addr 0 cells)) (omega arith)
        ∙ get_elem?-overwrite_in t.addr 0 cells j (omega arith) h in
    (
      overwrite t.addr 0 cells,
      rw fits refl,
      length-overwrite t.addr 0 cells (omega arith),
      λ i h.
          let cell = get_elem?-clear_cells (t.mx * t.my) i h in
          (at (2 * i) (omega arith) ∙ cell.0, at (2 * i + 1) (omega arith) ∙ cell.1),
    )
