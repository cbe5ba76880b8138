-- ===== src/Terminal.antt =====
-- loader/krn/tm.c: the text terminals of the loader, with their escape sequences.
--
-- `none` is an access outside the video memory or the parameters of a sequence.
pub mod Colours
pub mod Safety
pub mod Screen
pub mod Calls
pub mod Clear
pub mod Sequences
mod Tests
use nkos.Common.{
  ℕ, zero, suc, ◌+◌, ◌-◌, ◌*◌, ◌%◌, ◌^◌, Bool, true, false, ◌&&◌, ◌||◌, Option, none, some, List,
  [], ◌∷◌, ◌++◌, ltb, leb, ◌==◌, if◌then◌else◌, length, get_elem?, replicate, drop,
}
use nkos.Common.Memory.{◌>>=◌, store, overwrite, memmove, memset}
use Prim.Native.Nat.{bit_and, bit_or}

-- The function that `state` points to: tm_state_normal, tm_state_esc or tm_state_csi.
pub data State : Type 0 where
  state_normal : State
  state_esc : State
  state_csi : State

-- term_t
pub record Term : Type 0 where
  pub addr : List ℕ
  pub px : ℕ
  pub py : ℕ
  pub mx : ℕ
  pub my : ℕ
  pub attr : ℕ
  pub state : State
  pub par : List ℕ
  pub npar : ℕ

-- NPAR
abbrev pub npar_max : ℕ
npar_max = 16

-- TM_FG_WHITE | TM_BG_BLACK
abbrev pub plain_attr : ℕ
plain_attr = 0x07

-- The attribute after one parameter of an SGR sequence: the `switch` of `tm_do_sgr`.
unfoldable pub sgr : ℕ → ℕ → ℕ
sgr n a =
    if n == 0
    then plain_attr
    else if n == 4
    then bit_or a 0x08
    else if n == 5
    then bit_or a 0x80
    else if n == 24
    then bit_and a 0xF7
    else if n == 25
    then bit_and a 0x7F
    else if n == 30
    then bit_or (bit_and a 0xF8) 0x00
    else if n == 31
    then bit_or (bit_and a 0xF8) 0x04
    else if n == 32
    then bit_or (bit_and a 0xF8) 0x02
    else if n == 33
    then bit_or (bit_and a 0xF8) 0x06
    else if n == 34
    then bit_or (bit_and a 0xF8) 0x01
    else if n == 35
    then bit_or (bit_and a 0xF8) 0x05
    else if n == 36
    then bit_or (bit_and a 0xF8) 0x03
    else if n == 37
    then bit_or (bit_and a 0xF8) 0x07
    else if n == 38
    then bit_or (bit_and a 0xF0) 0x0F
    else if n == 39
    then bit_or (bit_and a 0xF0) 0x07
    else if n == 40 || n == 49
    then bit_or (bit_and a 0x8F) 0x00
    else if n == 41
    then bit_or (bit_and a 0x8F) 0x40
    else if n == 42
    then bit_or (bit_and a 0x8F) 0x20
    else if n == 43
    then bit_or (bit_and a 0x8F) 0x60
    else if n == 44
    then bit_or (bit_and a 0x8F) 0x10
    else if n == 45
    then bit_or (bit_and a 0x8F) 0x50
    else if n == 46
    then bit_or (bit_and a 0x8F) 0x30
    else if n == 47
    then bit_or (bit_and a 0x8F) 0x70
    else a

-- The loop of `tm_do_sgr` over the first `npar` parameters.
unfoldable pub sgr_all : ℕ → List ℕ → ℕ → Option ℕ
sgr_all zero par a = some a
sgr_all (suc k) [] a = none
sgr_all (suc k) (n ∷ par) a = sgr_all k par (sgr n a)

unfoldable pub tm_do_sgr : Term → Option Term
unfolding sgr_all sgr
tm_do_sgr t = sgr_all t.npar t.par t.attr >>= λ a. some (record t { attr = a })

-- The cursor one cell on, at the end of a line to the next one.
unfoldable pub advance : Term → Term
advance t =
    if leb t.mx (t.px + 1) then record t { px = 0; py = t.py + 1 } else record t { px = t.px + 1 }

-- The default case: the attribute and the character, and the cursor moves on.
unfoldable pub put_cell : Term → ℕ → Option Term
unfolding advance store
put_cell t c = do
  let i = 2 * (t.py * t.mx + t.px)
  a ← store t.addr (i + 1) t.attr
  b ← store a i (c % 2 ^ 8)
  some (advance (record t { addr = b }))

unfoldable pub tm_state_normal : Term → ℕ → Option Term
unfolding put_cell
tm_state_normal t c =
    if c == 13
    then some (record t { px = 0 })
    else if c == 10
    then some (record t { px = 0; py = t.py + 1 })
    else if c == 27
    then some (record t { state = state_esc })
    else put_cell t c

unfoldable pub tm_state_esc : Term → ℕ → Option Term
unfolding tm_state_normal
tm_state_esc t c =
    if c == b'['
    then some (record t { state = state_csi; par = replicate npar_max 0; npar = 0 })
    else tm_state_normal (record t { state = state_normal }) c

-- par[npar] = par[npar] * 10 + (c - '0'), of type unsigned int.
unfoldable pub push_digit : Term → ℕ → Option Term
unfolding store
push_digit t c = do
  v ← get_elem? t.par t.npar
  p ← store t.par t.npar ((v * 10 + (c - b'0')) % 2 ^ 32)
  some (record t { par = p })

unfoldable pub tm_state_csi : Term → ℕ → Option Term
unfolding tm_state_normal tm_do_sgr push_digit
tm_state_csi t c =
    if c == b'm'
    then (tm_do_sgr (record t { npar = t.npar + 1 }) >>= λ s.
        some (record s { state = state_normal }))
    else if leb b'0' c && leb c b'9'
    then push_digit t c
    else if c == b';' && ltb (t.npar + 1) npar_max
    then some (record t { npar = t.npar + 1 })
    else tm_state_normal
        (record t { state = state_normal; npar = if c == b';' then t.npar + 1 else t.npar }) c

-- t->state(t, c)
unfoldable pub tm_state : State → Term → ℕ → Option Term
unfolding tm_state_normal tm_state_esc tm_state_csi
tm_state state_normal t c = tm_state_normal t c
tm_state state_esc t c = tm_state_esc t c
tm_state state_csi t c = tm_state_csi t c

-- The body of `tm_scrollup`: the rows move up by one, and the last is filled with zeros.
unfoldable pub scrollup : Term → Option Term
unfolding memmove memset
scrollup t = do
  a ← memmove t.addr 0 (2 * t.mx) (2 * t.mx * (t.my - 1))
  b ← memset a (2 * t.mx * t.my - 2 * t.mx) 0 (2 * t.mx)
  some (record t { addr = b })

-- The `while` of `tm_putchar`, which runs once for each row below the screen; py is enough fuel.
unfoldable pub settle : ℕ → Term → Option Term
settle zero t = some t
settle (suc k) t = elim (leb t.my t.py) [
  | true ↦ scrollup t >>= λ s. settle k (record s { py = s.py - 1 })
  | false ↦ some t
]

-- `tm_putchar` on a terminal.
unfoldable pub putchar : Term → ℕ → Option Term
putchar t c = tm_state t.state t c >>= λ s. settle s.py s

unfoldable pub putstring : Term → List ℕ → Option Term
putstring t [] = some t
putstring t (c ∷ src) = putchar t c >>= λ s. putstring s src

-- The cells that `tm_clear` writes.
unfoldable pub clear_cells : ℕ → List ℕ
clear_cells zero = []
clear_cells (suc n) = 0 ∷ plain_attr ∷ clear_cells n

-- The body of `tm_clear`.
unfoldable pub clear : Term → Option Term
unfolding clear_cells
clear t =
    if leb (2 * t.mx * t.my) (length t.addr)
    then some (record t { addr = overwrite t.addr 0 (clear_cells (t.mx * t.my)) })
    else none

-- TM_LAST: `tm_desc` has one entry.
abbrev pub tm_last : ℕ
tm_last = 1

-- How a call for a terminal number ends: refused, an undefined access, or the new table.
pub data Call : Type 0 where
  refused : Call
  undefined : Call
  changed : List Term → Call

-- The guard `ht > TM_LAST` of tm_clear, tm_scrollup and tm_putchar, and the terminal at the number.
unfoldable pub with_term : (Term → Option Term) → ℕ → List Term → Call
with_term op ht desc =
    if ltb tm_last ht
    then refused
    else elim (get_elem? desc ht >>= λ t. op t >>= λ s. store desc ht s) [
      | none ↦ undefined
      | some new ↦ changed new
    ]

unfoldable pub tm_clear : ℕ → List Term → Call
tm_clear = with_term clear

unfoldable pub tm_scrollup : ℕ → List Term → Call
tm_scrollup = with_term scrollup

unfoldable pub tm_putchar : ℕ → ℕ → List Term → Call
tm_putchar c = with_term (λ t. putchar t c)
