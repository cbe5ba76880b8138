-- ===== src/Terminal/Tests.antt =====
-- A run of `tm_putstring`, and the theorems on terminals at concrete ones.
use nkos.Common.{
  ◌⊎◌, none, ◌+◌, ◌<◌, ◌++◌, ◌*◌, refl, some, [], ◌∷◌, List, ◌≡◌, replicate, arith, ℕ,
}
use nkos.Terminal.{
  Term, putchar, putstring, settle, tm_state, tm_state_normal, tm_state_esc, tm_state_csi,
  tm_do_sgr, push_digit, sgr, sgr_all, state_normal, plain_attr, npar_max, with_term, put_cell,
  advance,
}
use nkos.Terminal.Safety.{IsTerm, Keeps, putchar-IsTerm, putstring-IsTerm}
use nkos.Terminal.Screen.{IsWritten, putchar-plain}
use nkos.Terminal.Calls.{
  Op, clear_at, scrollup_at, putchar_at, run_calls, HasOne, Leads, run_calls-Leads,
}
use nkos.Terminal.Sequences.{read_on, putstring-sgr}

abbrev screen : ℕ → ℕ → ℕ → ℕ → Term
screen mx my px py = record {
  addr = replicate (2 * mx * my) 0;
  px = px;
  py = py;
  mx = mx;
  my = my;
  attr = plain_attr;
  state = state_normal;
  par = replicate npar_max 0;
  npar = 0;
}

-- The terminal of the loader, at the start.
abbrev vga : Term
vga = screen 80 25 0 0

abbrev small : Term
small = screen 3 2 2 1

red_text :
    putstring (screen 2 2 0 0) (27 ∷ b'[' ∷ b'3' ∷ b'1' ∷ b'm' ∷ b'a' ∷ b'b' ∷ b'c' ∷ [])
    ≡ some (record (screen 2 2 0 0) {
      addr = b'a' ∷ 4 ∷ b'b' ∷ 4 ∷ b'c' ∷ 4 ∷ 0 ∷ 0 ∷ [];
      px = 1;
      py = 1;
      attr = 4;
      par = 31 ∷ replicate 15 0;
      npar = 1;
    })
unfolding putstring putchar settle tm_state tm_state_normal tm_state_esc tm_state_csi tm_do_sgr
    push_digit sgr sgr_all put_cell advance
red_text = refl

vga-IsTerm : IsTerm vga
vga-IsTerm = record {
  screen = refl;
  column = omega arith;
  row = omega arith;
  params = refl;
  sequence = λ e. omega arith;
}

small-IsTerm : IsTerm small
small-IsTerm = record {
  screen = refl;
  column = omega arith;
  row = omega arith;
  params = refl;
  sequence = λ e. omega arith;
}

putchar-IsTerm_example : (s : Term) × (putchar small b'x' ≡ some s) × IsTerm s × Keeps small s
putchar-IsTerm_example = putchar-IsTerm small b'x' small-IsTerm

abbrev text : List ℕ
text = b'N' ∷ b'K' ∷ 10 ∷ 27 ∷ b'[' ∷ b';' ∷ b'1' ∷ b'x' ∷ []

putstring-IsTerm_example : (s : Term) × (putstring vga text ≡ some s) × IsTerm s × Keeps vga s
putstring-IsTerm_example = putstring-IsTerm vga text vga-IsTerm

putchar-plain_example :
    (s : Term) × (putchar vga b'N' ≡ some s)
    × IsWritten vga 0 b'N' s.addr
    × (s.py * 80 + s.px ≡ 1)
    × (s.px < 80)
    × (s.attr ≡ plain_attr)
putchar-plain_example = putchar-plain vga b'N' vga-IsTerm (refl, refl, refl, refl) (omega arith)

putstring-sgr_example :
    (s : Term) × (putstring vga (27 ∷ b'[' ∷ (b'4' ∷ b'2' ∷ []) ++ b'm' ∷ []) ≡ some s)
    × (s.attr ≡ sgr (read_on 0 (b'4' ∷ b'2' ∷ [])) plain_attr)
    × (s.addr ≡ vga.addr)
    × (s.px ≡ 0)
    × (s.py ≡ 0)
    × (s.state ≡ state_normal)
putstring-sgr_example =
    putstring-sgr vga (b'4' ∷ b'2' ∷ []) vga-IsTerm refl
      ((omega arith, omega arith), ((omega arith, omega arith), tt))

-- The screen is cleared, a call is refused, and a character is put.
abbrev three_calls : List Op
three_calls = clear_at 0 ∷ scrollup_at 2 ∷ putchar_at 0 b'x' ∷ []

run_calls-Leads_example :
    ((s : Term) × (run_calls three_calls (small ∷ []) ≡ some (s ∷ []))
      × ¬ HasOne three_calls
      × Leads three_calls small s
      × IsTerm s
      × Keeps small s)
    ⊎ (HasOne three_calls × (run_calls three_calls (small ∷ []) ≡ none))
run_calls-Leads_example = run_calls-Leads three_calls small small-IsTerm

behind_table : run_calls (putchar_at 1 b'x' ∷ []) (vga ∷ []) ≡ none
unfolding run_calls with_term
behind_table = refl
