-- ===== src/Kvprinto/Runs.antt =====
-- Whole runs of `kvprinto`: plain text, a conversion inside text, and where its tables go wrong.
use mathlib.Core.List.{append_assoc, append-nil}
use nkos.Common.{
  ◌≤◌, ◌<◌, leb→le, ◌^◌, ◌%◌, ℕ, ◌-◌, ◌≡◌, ◌≢◌, ◌∙◌, refl, ap, sym, subst, inl, inr, ◌⊎◌, Bool,
  true, false, ◌||◌, Option, some, List, [], ◌∷◌, ◌++◌, arith, Bool-cases, All, ltb, leb, ◌==◌,
}
use nkos.Kvprinto.Classes.{Class, cc_default, cclass_size, cclass, get_class}
use nkos.Kvprinto.Jumps.{jt_normal, jt_fmtini, normal, normal_row, jump}
use nkos.Kvprinto.Fields.{Fmt}
use nkos.Kvprinto.Machine.{
  Arg, word, Printer, ok, fresh_fmt, magnitude, label, dispatch, done, failure, print_from,
  kvprinto, arg_bits, do_fmt_d,
}
use nkos.Kvprinto.ReadBack.{read_number}
use nkos.Kvprinto.Conversions.{do_fmt_d_lem}

-- A character that stands for itself: not '%', and not 'y', whose class lies behind the table.
abbrev pub IsPlain : ℕ → Type 0
IsPlain c = (c ≢ b'%') × (c ≢ b'y')

cclass-normal : (c : ℕ) → c ≢ b'%' → normal_row (cclass c) ≡ normal
unfolding cclass normal_row
cclass-normal c h = ground arith

-- A character that `set_flag` knows.
abbrev pub is_flag : ℕ → Bool
is_flag c = c == b'0' || (c == b'+' || (c == b' ' || (c == b'-' || c == b'#')))

abbrev IsFlag : ℕ → Type 0
IsFlag c = (c ≡ b'0') ⊎ ((c ≡ b'+') ⊎ ((c ≡ b' ') ⊎ ((c ≡ b'-') ⊎ (c ≡ b'#'))))

IsFlag-cases : (c : ℕ) → is_flag c ≡ true → IsFlag c
IsFlag-cases c h = ground arith

-- What is read, whether there is a minus sign and a number, is the two's complement of the lower 32 bits of a.
abbrev pub IsSigned32 : ℕ → Bool × ℕ → Type 0
IsSigned32 a r =
    let v = a % 2 ^ 32 in
    ((v < 2 ^ 31) × (r ≡ (false, v))) ⊎ ((2 ^ 31 ≤ v) × (r ≡ (true, 2 ^ 32 - v)))

magnitude-IsSigned32 : (a : ℕ) → IsSigned32 a (magnitude 32 a)
unfolding magnitude
magnitude-IsSigned32 a =
    let v = a % 2 ^ 32 in
    elim (Bool-cases (leb (2 ^ 31) v)) [
      | inl large ↦
          let small : (2 ^ 32 - v) % 2 ^ 32 ≡ 2 ^ 32 - v = ground arith in
          inr (leb→le _ _ large, rw (large, small) refl)
      | inr small ↦ inl (ground arith, rw small refl)
    ]

module _ (past : Option Class) where
  get_class-IsPlain :
      (c : ℕ) → IsPlain c → (k : Class) × (get_class past c ≡ some k) × (normal_row k ≡ normal)
  unfolding get_class normal_row
  get_class-IsPlain c h =
      elim (Bool-cases (leb 128 c || ltb c b' ' || ltb cclass_size (c - b' '))) [
        | inl e ↦ (cc_default, rw e, refl)
        | inr e ↦
            let inside : (c - b' ' == cclass_size) ≡ false = ground arith in
            (cclass c, rw (e, inside), cclass-normal c h.0)
      ]

  dispatch-IsPlain :
      (c : ℕ) (s : Printer)
      → IsPlain c
      → s.jt ≡ jt_normal
      → dispatch (get_class past c) c s ≡ ok (record s { out = s.out ++ c ∷ [] })
  unfolding dispatch jump label
  dispatch-IsPlain c s h n = let (k, e, r) = get_class-IsPlain c h in rw (e, n, r)

  -- Plain text is put out as it is.
  print_from-plain :
      (p q : List ℕ) (s : Printer)
      → All IsPlain p
      → s.jt ≡ jt_normal
      → print_from past (p ++ q) s ≡ print_from past q (record s { out = s.out ++ p })
  unfolding print_from
  print_from-plain [] q s h n =
      ap (λ o. print_from past q (record s { out = o })) (sym (append-nil s.out))
  print_from-plain (c ∷ p) q s h n =
      rw (dispatch-IsPlain c s h.0 n, print_from)
        (print_from-plain p q (record s { out = s.out ++ c ∷ [] }) h.1 n
          ∙ ap (λ o. print_from past q (record s { out = o })) (append_assoc s.out (c ∷ []) p))

  -- A '%' behind plain text starts a conversion.
  kvprinto-percent :
      (junk : Fmt) (text rest : List ℕ) (ap' : List Arg)
      → All IsPlain text
      → kvprinto past junk (text ++ b'%' ∷ rest) ap'
        ≡ print_from past rest (record { jt = jt_fmtini; fmt = fresh_fmt; ap = ap'; out = text })
  unfolding kvprinto
  kvprinto-percent junk text rest ap' h = print_from-plain text (b'%' ∷ rest) _ h refl ∙ start
    where
      start :
          print_from past
            (b'%' ∷ rest)
            (record { jt = jt_normal; fmt = junk; ap = ap'; out = text })
          ≡ print_from past rest (record { jt = jt_fmtini; fmt = fresh_fmt; ap = ap'; out = text })
      start = unfold print_from dispatch get_class cclass jump label in refl

  -- A format string of plain text is put out as it is, and no argument is read.
  pub kvprinto-plain :
      (junk : Fmt) (text : List ℕ) (ap' : List Arg)
      → All IsPlain text
      → kvprinto past junk text ap' ≡ done text
  unfolding kvprinto print_from
  kvprinto-plain junk text ap' h =
      subst (λ p. kvprinto past junk p ap' ≡ done text) (append-nil text)
        (print_from-plain text [] _ h refl)

  print_from-All :
      (p : List ℕ) (s : Printer)
      → All IsPlain p
      → s.jt ≡ jt_normal
      → print_from past p s ≡ done (s.out ++ p)
  unfolding print_from
  print_from-All p s h n =
      subst (λ q. print_from past q s ≡ done (s.out ++ p)) (append-nil p)
        (print_from-plain p [] s h n)

  dispatch-d :
      (s : Printer) → s.jt ≡ jt_fmtini → dispatch (get_class past b'd') b'd' s ≡ do_fmt_d s s.ap
  unfolding dispatch get_class cclass jump label
  dispatch-d s n = simp n

  print_from-d :
      (rest : List ℕ) (s t : Printer)
      → s.jt ≡ jt_fmtini
      → do_fmt_d s s.ap ≡ ok t
      → print_from past (b'd' ∷ rest) s ≡ print_from past rest t
  unfolding print_from
  print_from-d rest s t n e = rw (dispatch-d s n ∙ e, print_from)

  -- "%d" inside plain text: the text is kept, and in the place of the conversion stands a field. With v for the argument's lower
  -- 32 bits, it reads back as v without a sign where v is below 2 ^ 31, and otherwise as 2 ^ 32 - v behind a minus sign.
  pub kvprinto-d :
      (junk : Fmt) (text rest : List ℕ) (a : ℕ) (ap' : List Arg)
      → All IsPlain text
      → All IsPlain rest
      → (field : List ℕ) × (kvprinto past junk (text ++ b'%' ∷ b'd' ∷ rest) (word a ∷ ap')
          ≡ done (text ++ field ++ rest))
        × IsSigned32 a (read_number 10 field)
  unfolding arg_bits
  kvprinto-d junk text rest a ap' h k =
      let s : Printer = record { jt = jt_fmtini; fmt = fresh_fmt; ap = word a ∷ ap'; out = text } in
      let (field, t, e, out, _, n, reads, _) = do_fmt_d_lem s a ap' refl in
      (
        field,
        kvprinto-percent junk text (b'd' ∷ rest) (word a ∷ ap') h
            ∙ print_from-d rest s t refl e
            ∙ print_from-All rest t k n
            ∙ ap (λ o. done (o ++ rest)) out,
        subst (IsSigned32 a) (sym reads) (magnitude-IsSigned32 a),
      )

  print_from-default :
      (c : ℕ) (rest : List ℕ) (s : Printer)
      → get_class past c ≡ some cc_default
      → s.jt ≡ jt_fmtini
      → print_from past (c ∷ rest) s ≡ print_from past rest (record s { out = s.out ++ c ∷ [] })
  unfolding print_from dispatch jump label
  print_from-default c rest s u n = rw (u, print_from) (rw (n, jump))

  print_from-flag_dot :
      (c : ℕ) (rest : List ℕ) (ap' : List Arg) (text : List ℕ)
      → IsFlag c
      → print_from past
          (c ∷ b'.' ∷ rest)
          (record { jt = jt_fmtini; fmt = fresh_fmt; ap = ap'; out = text })
        ≡ failure text
  unfolding print_from dispatch get_class cclass jump label
  print_from-flag_dot c rest ap' text (inl e) = rw e
  print_from-flag_dot c rest ap' text (inr (inl e)) = rw e
  print_from-flag_dot c rest ap' text (inr (inr (inl e))) = rw e
  print_from-flag_dot c rest ap' text (inr (inr (inr (inl e)))) = rw e
  print_from-flag_dot c rest ap' text (inr (inr (inr (inr e)))) = rw e

  -- A flag and then a precision: the table of the flags goes to `prec` on the '.', which is read as
  -- a digit, and the conversion fails whatever follows.
  pub kvprinto-flag_dot :
      (junk : Fmt) (text rest : List ℕ) (c : ℕ) (ap' : List Arg)
      → All IsPlain text
      → is_flag c ≡ true
      → kvprinto past junk (text ++ b'%' ∷ c ∷ b'.' ∷ rest) ap' ≡ failure text
  kvprinto-flag_dot junk text rest c ap' h f =
      kvprinto-percent junk text (c ∷ b'.' ∷ rest) ap' h
      ∙ print_from-flag_dot c rest ap' text (IsFlag-cases c f)

  -- A character of class CC_DEFAULT behind the '%', such as 'c', is put out, and the conversion is
  -- not ended: a 'd' that follows takes an argument.
  pub kvprinto-unsupported :
      (junk : Fmt) (text rest : List ℕ) (c a : ℕ) (ap' : List Arg)
      → All IsPlain text
      → All IsPlain rest
      → get_class past c ≡ some cc_default
      → (field : List ℕ) × (kvprinto past junk (text ++ b'%' ∷ c ∷ b'd' ∷ rest) (word a ∷ ap')
          ≡ done (text ++ c ∷ [] ++ field ++ rest))
        × (read_number 10 field ≡ magnitude 32 a)
  unfolding arg_bits
  kvprinto-unsupported junk text rest c a ap' h k u =
      let s : Printer = record {
        jt = jt_fmtini;
        fmt = fresh_fmt;
        ap = word a ∷ ap';
        out = text ++ c ∷ [];
      } in
      let (field, t, e, out, _, n, reads, _) = do_fmt_d_lem s a ap' refl in
      (
        field,
        kvprinto-percent junk text (c ∷ b'd' ∷ rest) (word a ∷ ap') h
            ∙ print_from-default c (b'd' ∷ rest) _ u refl
            ∙ print_from-d rest s t refl e
            ∙ print_from-All rest t k n
            ∙ ap (λ o. done (o ++ rest)) out,
        reads,
      )
