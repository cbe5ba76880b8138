-- ===== src/Terminal/Calls.antt =====
-- Theorems on sequences of the calls tm_clear, tm_scrollup and tm_putchar of loader/krn/tm.c.
use nkos.Common.{
  [], ◌∷◌, Option, none, some, true, refl, ltb, zero, suc, ◌∙◌, ap, arith, ◌+◌, ◌*◌, ◌≡◌, ◌⊎◌, inl,
  inr, List, length, get_elem?, ◌<◌, ℕ,
}
use nkos.Common.Memory.{◌>>=◌, store}
use nkos.Terminal.{
  tm_last, Call, refused, undefined, changed, with_term, Term, putchar, plain_attr, tm_clear,
  tm_scrollup, tm_putchar,
}
use nkos.Terminal.Safety.{IsTerm, Keeps, putchar-IsTerm}
use nkos.Terminal.Screen.{IsScrolled, scrollup_lem}
use nkos.Terminal.Clear.{clear_lem}

-- A call, with the number of a terminal.
pub data Op : Type 0 where
  clear_at : ℕ → Op
  scrollup_at : ℕ → Op
  putchar_at : ℕ → ℕ → Op

abbrev pub number : Op → ℕ
number (clear_at ht) = ht
number (scrollup_at ht) = ht
number (putchar_at ht c) = ht

abbrev call : Op → List Term → Call
call (clear_at ht) desc = tm_clear ht desc
call (scrollup_at ht) desc = tm_scrollup ht desc
call (putchar_at ht c) desc = tm_putchar c ht desc

-- The table after the call: a refused one changes nothing.
abbrev table : List Term → Call → Option (List Term)
table desc refused = some desc
table desc undefined = none
table desc (changed new) = some new

unfoldable pub run_calls : List Op → List Term → Option (List Term)
unfolding tm_clear tm_scrollup tm_putchar
run_calls [] desc = some desc
run_calls (op ∷ ops) desc = table desc (call op desc) >>= run_calls ops

-- What a call makes of the screen: every cell the code 0 and the plain attribute, every row moved up by one and the last one
-- zeros, or what `putchar` makes of it. All else stays after the first two.
abbrev pub IsEffect : Op → Term → Term → Type 0
IsEffect (clear_at ht) t s =
    (b : List ℕ) × (s ≡ record t { addr = b })
    × (length b ≡ length t.addr)
    × ((i : ℕ)
        → i < t.mx * t.my
        → (get_elem? b (2 * i) ≡ some 0) × (get_elem? b (2 * i + 1) ≡ some plain_attr))
IsEffect (scrollup_at ht) t s =
    (b : List ℕ) × (s ≡ record t { addr = b }) × (length b ≡ length t.addr) × IsScrolled t t.addr b
IsEffect (putchar_at ht c) t s = putchar t c ≡ some s

-- The calls with number 0, one after another, lead from t to s; the others change nothing.
abbrev pub Leads : List Op → Term → Term → Type 0
Leads [] t s = s ≡ t
Leads (op ∷ ops) t s =
    ((1 < number op) × Leads ops t s)
    ⊎ ((number op ≡ 0) × ((m : Term) × IsEffect op t m × Leads ops m s))

-- A call for the terminal number 1 is among them.
abbrev pub HasOne : List Op → Type 0
HasOne [] = ⊥
HasOne (op ∷ ops) = (number op ≡ 1) ⊎ HasOne ops

addr-IsTerm :
    (t : Term) (b : List ℕ) → IsTerm t → length b ≡ length t.addr → IsTerm (record t { addr = b })
addr-IsTerm t b h len = record {
  screen = len ∙ h.screen;
  column = h.column;
  row = h.row;
  params = h.params;
  sequence = h.sequence;
}

number-cases : (ht : ℕ) → (ht ≡ 0) ⊎ ((ht ≡ 1) ⊎ (1 < ht))
number-cases zero = inl refl
number-cases (suc zero) = inr (inl refl)
number-cases (suc (suc n)) = inr (inr (omega arith))

-- The call for the terminal has its effect, and it stays a terminal.
IsStep : Op → Term → Call → Type 0
IsStep op t r = (s : Term) × (r ≡ changed (s ∷ [])) × IsEffect op t s × IsTerm s × Keeps t s

call-zero : (op : Op) (t : Term) → IsTerm t → number op ≡ 0 → IsStep op t (call op (t ∷ []))
unfolding tm_clear tm_scrollup tm_putchar with_term store IsStep
call-zero (clear_at ht) t h z =
    let (b, e, len, cells) = clear_lem t h.screen in
    (
      record t { addr = b },
      rw (z, e) refl,
      (b, refl, len, cells),
      addr-IsTerm t b h len,
      (refl, refl),
    )
call-zero (scrollup_at ht) t h z =
    let (b, e, len, rows) = scrollup_lem t h.screen (omega (arith, h.row)) in
    (
      record t { addr = b },
      rw (z, e) refl,
      (b, refl, len, rows),
      addr-IsTerm t b h len,
      (refl, refl),
    )
call-zero (putchar_at ht c) t h z =
    let (s, e, is, kept) = putchar-IsTerm t c h in (s, rw (z, e) refl, e, is, kept)

call-one : (op : Op) (t : Term) → number op ≡ 1 → call op (t ∷ []) ≡ undefined
unfolding tm_clear tm_scrollup tm_putchar with_term
call-one (clear_at ht) t o = rw o refl
call-one (scrollup_at ht) t o = rw o refl
call-one (putchar_at ht c) t o = rw o refl

call-above : (op : Op) (t : Term) → 1 < number op → call op (t ∷ []) ≡ refused
unfolding tm_clear tm_scrollup tm_putchar with_term
call-above (clear_at ht) t h = let far : ltb tm_last ht ≡ true = ground arith in rw far refl
call-above (scrollup_at ht) t h = let far : ltb tm_last ht ≡ true = ground arith in rw far refl
call-above (putchar_at ht c) t h = let far : ltb tm_last ht ≡ true = ground arith in rw far refl

run_calls-none : (t : Term) → run_calls [] (t ∷ []) ≡ some (t ∷ [])
unfolding run_calls
run_calls-none t = refl

run_calls-table :
    (op : Op) (ops : List Op) (desc new : List Term)
    → table desc (call op desc) ≡ some new
    → run_calls (op ∷ ops) desc ≡ run_calls ops new
unfolding run_calls
run_calls-table op ops desc new e = ap (λ o. o >>= run_calls ops) e

run_calls-undefined :
    (op : Op) (ops : List Op) (desc : List Term)
    → table desc (call op desc) ≡ none
    → run_calls (op ∷ ops) desc ≡ none
unfolding run_calls
run_calls-undefined op ops desc e = ap (λ o. o >>= run_calls ops) e

-- Any sequence of calls of `tm_clear`, `tm_scrollup` and `tm_putchar` on a table of one terminal that satisfies the invariant. Without a
-- call for the number 1 it is defined, and the terminal satisfies the invariant and keeps its size. The calls for 0 have their effects one
-- after another: `tm_clear` gives every cell the code 0 and the plain attribute, `tm_scrollup` moves every row up by one and makes the last one zeros,
-- `tm_putchar` does what `putchar` does; a call for a number above 1 changes nothing. With a call for the number 1 the sequence is undefined, since the
-- guard lets the number pass and no terminal stands there.
pub run_calls-Leads :
    (ops : List Op) (t : Term)
    → IsTerm t
    → ((s : Term) × (run_calls ops (t ∷ []) ≡ some (s ∷ []))
        × ¬ HasOne ops
        × Leads ops t s
        × IsTerm s
        × Keeps t s)
      ⊎ (HasOne ops × (run_calls ops (t ∷ []) ≡ none))
unfolding IsStep
run_calls-Leads [] t h = inl (t, run_calls-none t, λ no. no, refl, h, (refl, refl))
run_calls-Leads (op ∷ ops) t h = elim (number-cases (number op)) [
  | inl z ↦
      let (m, e, effect, is, kept) = call-zero op t h z in
      let step : run_calls (op ∷ ops) (t ∷ []) ≡ run_calls ops (m ∷ []) =
        run_calls-table op ops (t ∷ []) (m ∷ []) (ap (table (t ∷ [])) e) in
      elim (run_calls-Leads ops m is) [
        | inl (s, run, none_one, leads, is_s, kept_s) ↦ inl (
          s,
          step ∙ run,
          λ one. elim one [ inl o ↦ absurd (omega arith) | inr later ↦ none_one later ],
          inr (z, (m, effect, leads)),
          is_s,
          (kept_s.0 ∙ kept.0, kept_s.1 ∙ kept.1),
        )
        | inr (one, run) ↦ inr (inr one, step ∙ run)
      ]
  | inr (inl o) ↦
      inr (inl o, run_calls-undefined op ops (t ∷ []) (ap (table (t ∷ [])) (call-one op t o)))
  | inr (inr far) ↦
      let step : run_calls (op ∷ ops) (t ∷ []) ≡ run_calls ops (t ∷ []) =
        run_calls-table op ops (t ∷ []) (t ∷ []) (ap (table (t ∷ [])) (call-above op t far)) in
      elim (run_calls-Leads ops t h) [
        | inl (s, run, none_one, leads, is_s, kept_s) ↦ inl (
          s,
          step ∙ run,
          λ one. elim one [ inl o ↦ absurd (omega arith) | inr later ↦ none_one later ],
          inl (far, leads),
          is_s,
          kept_s,
        )
        | inr (one, run) ↦ inr (inr one, step ∙ run)
      ]
]
