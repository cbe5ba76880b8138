-- ===== src/Terminal/Sequences.antt =====
-- An escape sequence for a colour: what it changes and what it leaves alone.
use nkos.Common.{
  ◌∙◌, ap, refl, true, ◌&&◌, leb, arith, false, ◌==◌, ◌^◌, ◌%◌, replicate, ◌-◌, ◌+◌, [], ◌≤◌, some,
  ◌++◌, ◌*◌, ◌≡◌, ◌∷◌, ◌<◌, All, List, ℕ,
}
use nkos.Common.Memory.{◌>>=◌, store-ok}
use nkos.Terminal.{
  Term, putchar, putstring, settle, tm_state, tm_state_normal, tm_state_esc, tm_state_csi,
  tm_do_sgr, push_digit, sgr, sgr_all, state_normal, state_esc, state_csi,
}
use nkos.Terminal.Safety.{IsTerm}
use nkos.Terminal.Screen.{settle-above}

-- The decimal digits.
abbrev pub IsDigits : List ℕ → Type 0
IsDigits = All (λ c. (b'0' ≤ c) × (c ≤ b'9'))

-- The number that digits add to the one read before them, of type unsigned int.
abbrev pub read_on : ℕ → List ℕ → ℕ
read_on v [] = v
read_on v (c ∷ cs) = read_on ((v * 10 + (c - b'0')) % 2 ^ 32) cs

-- The terminal in the middle of a sequence, with one parameter.
abbrev reading : Term → ℕ → List ℕ → Term
reading t v par = record t { state = state_csi; npar = 0; par = v ∷ par }

putchar-digit :
    (t : Term) (v c : ℕ) (par : List ℕ)
    → t.py < t.my
    → b'0' ≤ c
    → c ≤ b'9'
    → putchar (reading t v par) c ≡ some (reading t ((v * 10 + (c - b'0')) % 2 ^ 32) par)
unfolding putchar tm_state tm_state_csi push_digit
putchar-digit t v c par on lo hi =
    let m : (c == b'm') ≡ false = ground arith in
    let d : (leb b'0' c && leb c b'9') ≡ true = ground arith in
    let s = reading t ((v * 10 + (c - b'0')) % 2 ^ 32) par in
    let n = (v * 10 + (c - b'0')) % 2 ^ 32 in
    rw (m, d, store-ok (v ∷ par) 0 n (omega arith)) (settle-above t.py s on)

putchar-m :
    (t : Term) (v : ℕ) (par : List ℕ)
    → t.py < t.my
    → putchar (reading t v par) b'm'
      ≡ some (record t { state = state_normal; npar = 1; par = v ∷ par; attr = sgr v t.attr })
unfolding putchar tm_state tm_state_csi tm_do_sgr sgr_all
putchar-m t v par on =
    settle-above t.py
      (record t { state = state_normal; npar = 1; par = v ∷ par; attr = sgr v t.attr }) on

-- The rest of a sequence from its first digit on.
putstring-digits :
    (t : Term) (ds : List ℕ) (v : ℕ) (par : List ℕ)
    → t.py < t.my
    → IsDigits ds
    → putstring (reading t v par) (ds ++ b'm' ∷ [])
      ≡ some (record t {
        state = state_normal;
        npar = 1;
        par = read_on v ds ∷ par;
        attr = sgr (read_on v ds) t.attr;
      })
unfolding putstring
putstring-digits t [] v par on h = rw (putchar-m t v par on) refl
putstring-digits t (c ∷ ds) v par on h =
    rw (putchar-digit t v c par on h.0.0 h.0.1)
      (putstring-digits t ds ((v * 10 + (c - b'0')) % 2 ^ 32) par on h.1)

putchar-escape :
    (t : Term)
    → t.state ≡ state_normal
    → t.py < t.my
    → putchar t 27 ≡ some (record t { state = state_esc })
unfolding putchar tm_state tm_state_normal
putchar-escape t st on =
    ap (λ q. tm_state q t 27 >>= λ s. settle s.py s) st
    ∙ settle-above t.py (record t { state = state_esc }) on

putchar-bracket :
    (t : Term)
    → t.py < t.my
    → putchar (record t { state = state_esc }) b'[' ≡ some (reading t 0 (replicate 15 0))
unfolding putchar tm_state tm_state_esc
putchar-bracket t on = settle-above t.py (reading t 0 (replicate 15 0)) on

-- ESC [ and any digits and m, outside another sequence: `tm_putstring` changes the attribute as
-- `sgr` says for the number of the digits, 0 where there are none, and leaves the screen, the
-- cursor and the state as they were.
pub putstring-sgr :
    (t : Term) (ds : List ℕ)
    → IsTerm t
    → t.state ≡ state_normal
    → IsDigits ds
    → (s : Term) × (putstring t (27 ∷ b'[' ∷ ds ++ b'm' ∷ []) ≡ some s)
      × (s.attr ≡ sgr (read_on 0 ds) t.attr)
      × (s.addr ≡ t.addr)
      × (s.px ≡ t.px)
      × (s.py ≡ t.py)
      × (s.state ≡ state_normal)
unfolding putstring
putstring-sgr t ds h st digits =
    let par = replicate 15 0 in
    (
      record t {
        state = state_normal;
        npar = 1;
        par = read_on 0 ds ∷ par;
        attr = sgr (read_on 0 ds) t.attr;
      },
      rw (putchar-escape t st h.row, putchar-bracket t h.row)
          (putstring-digits t ds 0 par h.row digits),
      refl,
      refl,
      refl,
      refl,
      refl,
    )
