-- ===== src/Terminal/Safety.antt =====
-- The invariant of a terminal of loader/krn/tm.c: what it has room for, and where its cursor is.
use nkos.Common.{
  ◌∙◌, ◌^◌, ◌%◌, get_elem?, ℕ, zero, suc, ◌+◌, ◌-◌, ◌*◌, ◌≤◌, ◌<◌, ◌≡◌, refl, inl, inr, some, List,
  [], ◌∷◌, ◌&&◌, arith, ltb, leb, ◌==◌, Bool-cases, length, length-set, set, replicate,
}
use nkos.Common.Memory.{store-ok, memmove-ok, memset-ok}
use nkos.Terminal.{
  State, state_normal, state_esc, state_csi, Term, npar_max, sgr, sgr_all, tm_do_sgr, advance,
  put_cell, tm_state_normal, tm_state_esc, tm_state_csi, push_digit, tm_state, scrollup, settle,
  putchar, putstring,
}

-- The screen has mx times my cells of two bytes, the cursor is on it, and a sequence that is being
-- read has a parameter to write to.
pub record IsTerm (t : Term) : Type 0 where
  pub screen : length t.addr ≡ 2 * t.mx * t.my
  pub column : t.px < t.mx
  pub row : t.py < t.my
  pub params : length t.par ≡ npar_max
  pub sequence : t.state ≡ state_csi → t.npar < npar_max

-- The same, but the cursor may be on the row below the screen.
pub record IsBelow (mx my : ℕ) (t : Term) : Type 0 where
  pub width : t.mx ≡ mx
  pub height : t.my ≡ my
  pub screen : length t.addr ≡ 2 * mx * my
  pub column : t.px < mx
  pub row : t.py ≤ my
  pub params : length t.par ≡ npar_max
  pub sequence : t.state ≡ state_csi → t.npar < npar_max

pub cell-lt : (px py mx my : ℕ) → px < mx → py < my → 2 * (py * mx + px) + 1 < 2 * mx * my
cell-lt px py mx my h k = let inside : py * mx + px < my * mx = grind arith in omega arith

advance-IsBelow : (t : Term) → IsTerm t → IsBelow t.mx t.my (advance t)
unfolding advance
advance-IsBelow t h = ground arith

put_cell-IsBelow :
    (t : Term) (c : ℕ) → IsTerm t → (s : Term) × (put_cell t c ≡ some s) × IsBelow t.mx t.my s
unfolding put_cell
put_cell-IsBelow t c h =
    let i = 2 * (t.py * t.mx + t.px) in
    let a = set t.addr (i + 1) t.attr in
    let inside = cell-lt t.px t.py t.mx t.my h.column h.row in
    let first = store-ok t.addr (i + 1) t.attr (omega (arith, h.screen)) in
    let len = length-set t.addr (i + 1) t.attr in
    let second = store-ok a i (c % 2 ^ 8) (omega (arith, h.screen)) in
    let s = advance (record t { addr = set a i (c % 2 ^ 8) }) in
    (
      s,
      rw (first, second),
      advance-IsBelow (record t { addr = set a i (c % 2 ^ 8) })
          (record {
            screen = omega (arith, h.screen, length-set a i (c % 2 ^ 8));
            column = h.column;
            row = h.row;
            params = h.params;
            sequence = h.sequence;
          }),
    )

normal-IsBelow :
    (t : Term) (c : ℕ)
    → IsTerm t
    → (s : Term) × (tm_state_normal t c ≡ some s) × IsBelow t.mx t.my s
unfolding tm_state_normal
normal-IsBelow t c h = elim (Bool-cases (c == 13)) [
  | inl r ↦ (record t { px = 0 }, rw r, ground arith)
  | inr r ↦ rw r (elim (Bool-cases (c == 10)) [
    | inl n ↦ (record t { px = 0; py = t.py + 1 }, rw n, ground arith)
    | inr n ↦ rw n (elim (Bool-cases (c == 27)) [
      | inl e ↦ (record t { state = state_esc }, rw e, ground arith)
      | inr e ↦ rw e (put_cell-IsBelow t c h)
    ])
  ])
]

esc-IsBelow :
    (t : Term) (c : ℕ) → IsTerm t → (s : Term) × (tm_state_esc t c ≡ some s) × IsBelow t.mx t.my s
unfolding tm_state_esc
esc-IsBelow t c h = elim (Bool-cases (c == b'[')) [
  | inl b ↦
      (record t { state = state_csi; par = replicate npar_max 0; npar = 0 }, rw b, ground arith)
  | inr b ↦ rw b (normal-IsBelow (record t { state = state_normal }) c (ground arith))
]

sgr_all-some :
    (k : ℕ) (par : List ℕ) (a : ℕ) → k ≤ length par → (b : ℕ) × (sgr_all k par a ≡ some b)
unfolding sgr_all
sgr_all-some zero par a h = (a, refl)
sgr_all-some (suc k) [] a h = absurd (omega arith)
sgr_all-some (suc k) (n ∷ par) a h = sgr_all-some k par (sgr n a) (omega arith)

get_elem?-some : (par : List ℕ) (i : ℕ) → i < length par → (v : ℕ) × (get_elem? par i ≡ some v)
get_elem?-some [] i h = elim h [ ]
get_elem?-some (v ∷ par) zero h = (v, refl)
get_elem?-some (v ∷ par) (suc i) h = get_elem?-some par i (omega arith)

push_digit-IsBelow :
    (t : Term) (c : ℕ)
    → IsTerm t
    → t.state ≡ state_csi
    → (s : Term) × (push_digit t c ≡ some s) × IsBelow t.mx t.my s
unfolding push_digit
push_digit-IsBelow t c h st =
    let i = h.sequence st in
    let (v, e) = get_elem?-some t.par t.npar (omega (arith, h.params)) in
    let d = (v * 10 + (c - b'0')) % 2 ^ 32 in
    (
      record t { par = set t.par t.npar d },
      rw (e, store-ok t.par t.npar d (omega (arith, h.params))),
      ground (arith, length-set t.par t.npar d),
    )

csi-IsBelow :
    (t : Term) (c : ℕ)
    → IsTerm t
    → t.state ≡ state_csi
    → (s : Term) × (tm_state_csi t c ≡ some s) × IsBelow t.mx t.my s
unfolding tm_state_csi tm_do_sgr
csi-IsBelow t c h st = elim (Bool-cases (c == b'm')) [
  | inl m ↦
      let (a, e) =
        sgr_all-some (t.npar + 1) t.par t.attr (omega (arith, h.params, h.sequence st)) in
      (record t { npar = t.npar + 1; attr = a; state = state_normal }, rw m (rw e), ground arith)
  | inr m ↦ rw m (elim (Bool-cases (leb b'0' c && leb c b'9')) [
    | inl d ↦ rw d (push_digit-IsBelow t c h st)
    | inr d ↦ rw d (elim (Bool-cases (c == b';' && ltb (t.npar + 1) npar_max)) [
      | inl n ↦ (record t { npar = t.npar + 1 }, rw n, ground arith)
      | inr n ↦ rw n (normal-IsBelow _ c (ground arith))
    ])
  ])
]

state-IsBelow :
    (st : State) (t : Term) (c : ℕ)
    → IsTerm t
    → t.state ≡ st
    → (s : Term) × (tm_state st t c ≡ some s) × IsBelow t.mx t.my s
unfolding tm_state
state-IsBelow state_normal t c h e = normal-IsBelow t c h
state-IsBelow state_esc t c h e = esc-IsBelow t c h
state-IsBelow state_csi t c h e = csi-IsBelow t c h e

-- The screen keeps its size.
abbrev pub Keeps : Term → Term → Type 0
Keeps t s = (s.mx ≡ t.mx) × (s.my ≡ t.my)

pub scrollup-IsBelow :
    (mx my : ℕ) (t : Term)
    → IsBelow mx my t
    → 0 < my
    → (b : List ℕ) × (scrollup t ≡ some (record t { addr = b })) × (length b ≡ 2 * mx * my)
unfolding scrollup
scrollup-IsBelow mx my t h pos =
    let rows : 2 * mx * (my - 1) + 2 * mx ≡ 2 * mx * my = rows_lem mx my pos in
    let (a, e, la, _) =
      memmove-ok t.addr 0 (2 * mx) (2 * mx * (my - 1)) (omega (arith, h.screen))
        (omega (arith, h.screen)) in
    let (b, f, lb, _) = memset-ok a (2 * mx * my - 2 * mx) 0 (2 * mx) (omega (arith, h.screen)) in
    (b, rw (h.width, h.height, e, f), omega (arith, h.screen))
  where
    rows_lem : (mx my : ℕ) → 0 < my → 2 * mx * (my - 1) + 2 * mx ≡ 2 * mx * my
    rows_lem mx zero p = absurd (omega arith)
    rows_lem mx (suc n) p = let e : suc n - 1 ≡ n = omega arith in rw e (omega arith)

settle-IsTerm :
    (mx my k : ℕ) (t : Term)
    → IsBelow mx my t
    → 0 < my
    → t.py ≤ k
    → (s : Term) × (settle k t ≡ some s) × IsTerm s × (s.mx ≡ mx) × (s.my ≡ my)
unfolding settle
settle-IsTerm mx my zero t h pos fuel = (t, refl, ground arith, h.width, h.height)
settle-IsTerm mx my (suc k) t h pos fuel = elim (Bool-cases (leb t.my t.py)) [
  | inl low ↦
      let (b, e, len) = scrollup-IsBelow mx my t h pos in
      let s = record t { addr = b; py = t.py - 1 } in
      let (r, f, ok, w, v) = settle-IsTerm mx my k s (ground arith) pos (omega arith) in
      (r, rw (low, settle) (rw e f), ok, w, v)
  | inr on ↦ (t, rw (on, settle), ground arith, h.width, h.height)
]

-- `tm_putchar`, on any terminal that satisfies the invariant and with any character, makes no access
-- outside the screen or the parameters, keeps the size of the screen, and leaves a terminal that
-- satisfies the invariant.
pub putchar-IsTerm :
    (t : Term) (c : ℕ) → IsTerm t → (s : Term) × (putchar t c ≡ some s) × IsTerm s × Keeps t s
unfolding putchar
putchar-IsTerm t c h =
    let (s, e, below) = state-IsBelow t.state t c h refl in
    let (r, f, ok, w, v) =
      settle-IsTerm t.mx t.my s.py s below (omega (arith, h.row)) (omega arith) in
    (r, rw e f, ok, (w, v))

-- `tm_putstring`, on any terminal that satisfies the invariant and with any string, makes no access
-- outside the screen or the parameters, keeps the size of the screen, and leaves a terminal that
-- satisfies the invariant.
pub putstring-IsTerm :
    (t : Term) (src : List ℕ)
    → IsTerm t
    → (s : Term) × (putstring t src ≡ some s) × IsTerm s × Keeps t s
unfolding putstring
putstring-IsTerm t [] h = (t, refl, h, (refl, refl))
putstring-IsTerm t (c ∷ src) h =
    let (s, e, ok, k) = putchar-IsTerm t c h in
    let (r, f, ok', k') = putstring-IsTerm s src ok in (r, rw e f, ok', (k'.0 ∙ k.0, k'.1 ∙ k.1))
