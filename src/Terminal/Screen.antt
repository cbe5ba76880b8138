-- ===== src/Terminal/Screen.antt =====
-- What scrolling and a plain character do to the cells of the screen.
use nkos.Common.{
  true, leb→le, subst, refl, inr, inl, sym, get_elem?-set_ne, leb, Bool-cases, get_elem?-set_self,
  length-set, ◌≢◌, ◌^◌, false, ◌==◌, ◌≤◌, set, ◌%◌, get_elem?-replicate, zero, suc,
  length-replicate, get_elem?-drop, get_elem?-take, replicate, ◌∙◌, ap, length-drop, length-take,
  drop, suc, take, arith, ◌+◌, get_elem?, some, ◌-◌, ◌*◌, ◌≡◌, List, length, ◌<◌, ℕ,
}
use nkos.Common.Memory.{
  store-ok, memmove-ok, memset-ok, get_elem?-overwrite_in, get_elem?-overwrite_below, overwrite,
}
use native.Mathlib.Nat.{lt_of_mul-lt-mul_right}
use nkos.Terminal.{
  Term, scrollup, putchar, put_cell, settle, advance, tm_state, tm_state_normal, state_normal,
}
use nkos.Terminal.Safety.{IsTerm, cell-lt}

pub rows_lem : (mx my : ℕ) → 0 < my → 2 * mx * (my - 1) + 2 * mx ≡ 2 * mx * my
rows_lem mx zero p = absurd (omega arith)
rows_lem mx (suc n) p = let e : suc n - 1 ≡ n = omega arith in rw e (omega arith)

-- Row r of the new screen is row r + 1 of the old one, byte for byte, and the last row is zeros.
abbrev pub IsScrolled : Term → List ℕ → List ℕ → Type 0
IsScrolled t a b =
    ((i : ℕ) → i < 2 * t.mx * (t.my - 1) → get_elem? b i ≡ get_elem? a (2 * t.mx + i))
    × ((i : ℕ) → i < 2 * t.mx → get_elem? b (2 * t.mx * (t.my - 1) + i) ≡ some 0)

-- `tm_scrollup` keeps the size of the screen, moves every row up by one and clears the last row.
pub scrollup_lem :
    (t : Term)
    → length t.addr ≡ 2 * t.mx * t.my
    → 0 < t.my
    → (b : List ℕ) × (scrollup t ≡ some (record t { addr = b }))
      × (length b ≡ length t.addr)
      × IsScrolled t t.addr b
unfolding scrollup
scrollup_lem t len pos =
    let n = 2 * t.mx * (t.my - 1) in
    let w = 2 * t.mx in
    let rows : n + w ≡ 2 * t.mx * t.my = rows_lem t.mx t.my pos in
    let (a, e, la, ea) = memmove-ok t.addr 0 w n (omega arith) (omega arith) in
    let last : 2 * t.mx * t.my - w ≡ n = omega arith in
    let (b, f, lb, eb) = memset-ok a (2 * t.mx * t.my - w) 0 w (omega arith) in
    let eb' : b ≡ overwrite a n (replicate w 0) =
      subst (λ o. b ≡ overwrite a o (replicate w 0)) last eb in
    let moved = take n (drop w t.addr) in
    let size : length moved ≡ n =
      omega (arith, length-take n (drop w t.addr), length-drop w t.addr) in
    let kept : (i : ℕ) → i < n → get_elem? b i ≡ get_elem? t.addr (w + i) = λ i h.
      ap (λ l. get_elem? l i) eb'
      ∙ get_elem?-overwrite_below a n (replicate w 0) i (omega arith) h
      ∙ ap (λ l. get_elem? l i) ea
      ∙ ap (get_elem? (overwrite t.addr 0 moved)) (omega arith)
      ∙ get_elem?-overwrite_in t.addr 0 moved i (omega arith) (omega arith)
      ∙ get_elem?-take n (drop w t.addr) i h
      ∙ get_elem?-drop w t.addr i in
    let filled : (i : ℕ) → i < w → get_elem? b (n + i) ≡ some 0 = λ i h.
      ap (λ l. get_elem? l (n + i)) eb'
      ∙ get_elem?-overwrite_in a n (replicate w 0) i (omega arith)
          (omega (arith, length-replicate {A = ℕ} w 0))
      ∙ get_elem?-replicate w 0 i h in
    (b, rw (e, f), lb ∙ la, (kept, filled))

-- The two bytes of the cell at index i become the attribute and the character; no other byte changes.
abbrev pub IsWritten : Term → ℕ → ℕ → List ℕ → Type 0
IsWritten t i c b =
    (get_elem? b i ≡ some (c % 2 ^ 8))
    × (get_elem? b (i + 1) ≡ some t.attr)
    × ((j : ℕ) → j ≢ i → j ≢ i + 1 → get_elem? b j ≡ get_elem? t.addr j)

write-IsWritten :
    (t : Term) (i c : ℕ)
    → i + 1 < length t.addr
    → IsWritten t i c (set (set t.addr (i + 1) t.attr) i (c % 2 ^ 8))
write-IsWritten t i c h =
    let a = set t.addr (i + 1) t.attr in
    let v = c % 2 ^ 8 in
    let ne : i ≢ i + 1 = λ e. omega arith in
    (
      get_elem?-set_self a i v (omega (arith, length-set t.addr (i + 1) t.attr)),
      get_elem?-set_ne a v ne ∙ get_elem?-set_self t.addr (i + 1) t.attr h,
      λ j p q.
          get_elem?-set_ne a v (λ e. p (sym e)) ∙ get_elem?-set_ne t.addr t.attr (λ e. q (sym e)),
    )

-- A character without a meaning of its own, `c` other than 13, 10 and 27, outside a sequence.
abbrev pub IsPlain : Term → ℕ → Type 0
IsPlain t c =
    (t.state ≡ state_normal) × ((c == 13) ≡ false) × ((c == 10) ≡ false) × ((c == 27) ≡ false)

row_lem : (px py mx my : ℕ) → mx ≤ px + 1 → py * mx + px + 1 < mx * my → py + 1 < my
row_lem px py mx my p q = lt_of_mul-lt-mul_right mx (grind arith)

pub settle-above : (k : ℕ) (s : Term) → s.py < s.my → settle k s ≡ some s
unfolding settle
settle-above zero s p = refl
settle-above (suc k) s p =
    let above : leb s.my s.py ≡ false = ground arith in rw (above, settle) refl

settle-below :
    (k : ℕ) (d : Term) (b : List ℕ)
    → leb d.my d.py ≡ true
    → d.py ≤ k
    → scrollup d ≡ some (record d { addr = b })
    → d.py - 1 < d.my
    → settle k d ≡ some (record d { addr = b; py = d.py - 1 })
unfolding settle
settle-below zero d b full fuel e on = absurd (omega (arith, leb→le d.my d.py full))
settle-below (suc k) d b full fuel e on =
    rw (full, settle) (rw e (settle-above k (record d { addr = b; py = d.py - 1 }) on))

-- What `tm_putchar` does with a plain character, apart from the scrolling.
plain-put_cell : (t : Term) (c : ℕ) → IsPlain t c → tm_state t.state t c ≡ put_cell t c
unfolding tm_state tm_state_normal
plain-put_cell t c (st, r, n, e) = ap (λ s. tm_state s t c) st ∙ rw (r, n, e) refl

-- A plain character before the last cell of the screen: `tm_putchar` writes its code and the
-- attribute in the cell at the cursor, changes no other byte, and moves the cursor to the next cell
-- in reading order.
pub putchar-plain :
    (t : Term) (c : ℕ)
    → IsTerm t
    → IsPlain t c
    → t.py * t.mx + t.px + 1 < t.mx * t.my
    → (s : Term) × (putchar t c ≡ some s)
      × IsWritten t (2 * (t.py * t.mx + t.px)) c s.addr
      × (s.py * t.mx + s.px ≡ t.py * t.mx + t.px + 1)
      × (s.px < t.mx)
      × (s.attr ≡ t.attr)
unfolding putchar put_cell advance
putchar-plain t c h plain room =
    let cell = plain-put_cell t c plain in
    let i = 2 * (t.py * t.mx + t.px) in
    let inside = cell-lt t.px t.py t.mx t.my h.column h.row in
    let a = set t.addr (i + 1) t.attr in
    let v = c % 2 ^ 8 in
    let b = set a i v in
    let first = store-ok t.addr (i + 1) t.attr (omega (arith, h.screen)) in
    let len = length-set t.addr (i + 1) t.attr in
    let second = store-ok a i v (omega (arith, h.screen)) in
    let written = write-IsWritten t i c (omega (arith, h.screen)) in
    elim (Bool-cases (leb t.mx (t.px + 1))) [
      | inl last ↦
          let below : t.py + 1 < t.my =
            row_lem t.px t.py t.mx t.my (leb→le t.mx (t.px + 1) last) room in
          let stay = settle-above (t.py + 1) (record t { addr = b; px = 0; py = t.py + 1 }) below in
          (
            record t { addr = b; px = 0; py = t.py + 1 },
            rw cell (rw (first, second, last) stay),
            written,
            grind arith,
            grind arith,
            refl,
          )
      | inr more ↦
          let stay = settle-above t.py (record t { addr = b; px = t.px + 1 }) h.row in
          (
            record t { addr = b; px = t.px + 1 },
            rw cell (rw (first, second, more) stay),
            written,
            omega arith,
            ground arith,
            refl,
          )
    ]

-- A plain character in the last cell of the screen: `tm_putchar` writes the cell and then scrolls
-- the screen up by one row, and the cursor goes to the start of the last row.
pub putchar-last :
    (t : Term) (c : ℕ)
    → IsTerm t
    → IsPlain t c
    → t.py + 1 ≡ t.my
    → t.px + 1 ≡ t.mx
    → (s : Term) × (putchar t c ≡ some s)
      × ((a : List ℕ) × IsWritten t (2 * (t.py * t.mx + t.px)) c a × IsScrolled t a s.addr)
      × (s.py ≡ t.py)
      × (s.px ≡ 0)
unfolding putchar put_cell advance settle
putchar-last t c h plain low last =
    let i = 2 * (t.py * t.mx + t.px) in
    let inside = cell-lt t.px t.py t.mx t.my h.column h.row in
    let a = set t.addr (i + 1) t.attr in
    let v = c % 2 ^ 8 in
    let first = store-ok t.addr (i + 1) t.attr (omega (arith, h.screen)) in
    let len = length-set t.addr (i + 1) t.attr in
    let second = store-ok a i v (omega (arith, h.screen)) in
    let end : leb t.mx (t.px + 1) ≡ true = ground arith in
    let full : leb t.my (t.py + 1) ≡ true = ground arith in
    let down = record t { addr = set a i v; px = 0; py = t.py + 1 } in
    let (b, e, _, scrolled) =
      scrollup_lem down (omega (arith, h.screen, length-set a i v)) (omega arith) in
    let s = record t { addr = b; px = 0; py = t.py + 1 - 1 } in
    (
      s,
      rw (plain-put_cell t c plain) (
          rw (first, second, end)
            (settle-below (t.py + 1) down b full (omega arith) e (omega arith))),
      (set a i v, write-IsWritten t i c (omega (arith, h.screen)), scrolled),
      omega arith,
      refl,
    )
