-- ===== src/Uuid/RoundTrip.antt =====
-- Theorems on the text of a UUID.
use nkos.Common.{
  replicate, length-append, sym, All, leb, if◌then◌else◌, ◌++◌, ◌+◌, ◌||◌, ◌∙◌, [],
  get_elem?-set_self, length, ap, inr, zero, inl, ◌==◌, Bool-cases, set, ◌%◌, ◌∷◌, ◌*◌, ◌&&◌,
  get_elem?, refl, ◌/◌, arith, some, false, true, Bool, List, ◌<◌, ◌≡◌, ℕ,
}
use mathlib.Core.List.{append_assoc}
use nkos.Uuid.{
  is_dash, digit_value, put_nibble, parsed, parse_from, uuid_parse, nibble_digit, unparse_from,
  uuid_unparse,
}
use Prim.Native.Nat.{suc, bit_or}

digit_value-nibble : (v : ℕ) → v < 16 → digit_value (nibble_digit v) ≡ some v
unfolding digit_value nibble_digit
digit_value-nibble v h = ground arith

-- Both halves of a byte, for all bytes, by evaluation.
halves : ℕ → Bool
halves zero = true
halves (suc v) = halves v && (bit_or (bit_or 0 (v / 16 * 16)) (v % 16) == v)

halves-byte : (n v : ℕ) → halves n ≡ true → v < n → bit_or (bit_or 0 (v / 16 * 16)) (v % 16) ≡ v
unfolding halves
halves-byte zero v run h = absurd (omega arith)
halves-byte (suc n) v run h = elim (Bool-cases (v == n)) [
  | inl e ↦ let same : v ≡ n = ground arith in rw same (ground arith)
  | inr e ↦ halves-byte n v (ground arith) (ground arith)
]

all_halves : halves 256 ≡ true
unfolding halves
all_halves = refl

put_nibble-high :
    (uu : List ℕ) (m x : ℕ)
    → get_elem? uu m ≡ some 0
    → put_nibble uu (2 * m) x ≡ set uu m (bit_or 0 (x * 16))
unfolding put_nibble
put_nibble-high uu m x z =
    let at : 2 * m / 2 ≡ m = omega arith in
    let even : (2 * m % 2 == 1) ≡ false = ground arith in rw (at, z, even) refl

put_nibble-low :
    (uu : List ℕ) (m x w : ℕ)
    → get_elem? uu m ≡ some w
    → put_nibble uu (suc (2 * m)) x ≡ set uu m (bit_or w x)
unfolding put_nibble
put_nibble-low uu m x w z =
    let at : suc (2 * m) / 2 ≡ m = omega arith in
    let odd : (suc (2 * m) % 2 == 1) ≡ true = ground arith in rw (at, z, odd) refl

set-set : (uu : List ℕ) (m v w : ℕ) → set (set uu m v) m w ≡ set uu m w
set-set [] m v w = refl
set-set (u ∷ uu) zero v w = refl
set-set (u ∷ uu) (suc m) v w = ap (λ us. u ∷ us) (set-set uu m v w)

parse_from-digit :
    (k c i j v : ℕ) (cs uu : List ℕ)
    → is_dash i ≡ false
    → digit_value c ≡ some v
    → parse_from (suc k) (c ∷ cs) i j uu ≡ parse_from k cs (suc i) (suc j) (put_nibble uu j v)
unfolding parse_from
parse_from-digit k c i j v cs uu d e = rw (d, e, parse_from) refl

-- The two digits of byte m, in the text at i, where byte m is still 0.
parse_from-byte :
    (k i m v : ℕ) (cs uu : List ℕ)
    → v < 256
    → is_dash i ≡ false
    → is_dash (suc i) ≡ false
    → m < length uu
    → get_elem? uu m ≡ some 0
    → parse_from (suc (suc k)) (nibble_digit (v / 16) ∷ nibble_digit (v % 16) ∷ cs) i (2 * m) uu
      ≡ parse_from k cs (suc (suc i)) (suc (suc (2 * m))) (set uu m v)
parse_from-byte k i m v cs uu h d e lt z =
    let hi = digit_value-nibble (v / 16) (omega arith) in
    let lo = digit_value-nibble (v % 16) (omega arith) in
    let w = bit_or 0 (v / 16 * 16) in
    let first = put_nibble-high uu m (v / 16) z in
    let second = put_nibble-low (set uu m w) m (v % 16) w (get_elem?-set_self uu m w lt) in
    let both : put_nibble (put_nibble uu (2 * m) (v / 16)) (suc (2 * m)) (v % 16) ≡ set uu m v =
      ap (λ us. put_nibble us (suc (2 * m)) (v % 16)) first
      ∙ second
      ∙ set-set uu m w (bit_or w (v % 16))
      ∙ ap (λ b. set uu m b) (halves-byte 256 v all_halves h) in
    parse_from-digit (suc k) (nibble_digit (v / 16)) i (2 * m) (v / 16) _ uu d hi
    ∙ parse_from-digit k (nibble_digit (v % 16)) (suc i) (suc (2 * m)) (v % 16) cs _ e lo
    ∙ ap (λ us. parse_from k cs (suc (suc i)) (suc (suc (2 * m))) us) both

-- Where the digits of byte m stand in the text.
abbrev position : ℕ → ℕ
position m =
    2 * m
    + (if leb m 3
        then 0
        else if leb m 5
        then 1
        else if leb m 7
        then 2
        else if leb m 9
        then 3
        else 4)

abbrev ends_group : ℕ → Bool
ends_group m = m == 3 || (m == 5 || (m == 7 || m == 9))

set-append :
    (done zs : List ℕ) (v : ℕ) → set (done ++ 0 ∷ zs) (length done) v ≡ (done ++ v ∷ []) ++ zs
set-append [] zs v = refl
set-append (d ∷ done) zs v = ap (λ us. d ∷ us) (set-append done zs v)

get-append : (done zs : List ℕ) → get_elem? (done ++ 0 ∷ zs) (length done) ≡ some 0
get-append [] zs = refl
get-append (d ∷ done) zs = get-append done zs

parse_from-dash :
    (k i j : ℕ) (cs uu : List ℕ)
    → is_dash i ≡ true
    → parse_from (suc k) (b'-' ∷ cs) i j uu ≡ parse_from k cs (suc i) j uu
unfolding parse_from
parse_from-dash k i j cs uu d = rw (d, parse_from) refl

-- From byte m on: the position after its digits, and the dash that may stand there.
abbrev Behind : ℕ → ℕ → List ℕ → List ℕ → Type 0
Behind k m cs uu =
    (l : ℕ) × (position (suc m) + l ≡ 36)
    × (parse_from k (if ends_group m then b'-' ∷ cs else cs) (suc (suc (position m)))
          (suc (suc (2 * m))) uu
        ≡ parse_from l cs (position (suc m)) (2 * suc m) uu)

Behind-plain :
    (k m : ℕ) (cs uu : List ℕ)
    → position m + suc (suc k) ≡ 36
    → ends_group m ≡ false
    → Behind k m cs uu
Behind-plain k m cs uu e plain =
    let next : suc (suc (position m)) ≡ position (suc m) = ground arith in
    let twice : suc (suc (2 * m)) ≡ 2 * suc m = omega arith in
    (
      k,
      omega arith,
      rw plain (
          ap (λ i. parse_from k cs i (suc (suc (2 * m))) uu) next
          ∙ ap (λ j. parse_from k cs (position (suc m)) j uu) twice),
    )

Behind-byte : (k m : ℕ) (cs uu : List ℕ) → m < 16 → position m + suc (suc k) ≡ 36 → Behind k m cs uu
Behind-byte zero m cs uu h e = Behind-plain zero m cs uu e (ground arith)
Behind-byte (suc k) m cs uu h e = elim (Bool-cases (ends_group m)) [
  | inr plain ↦ Behind-plain (suc k) m cs uu e plain
  | inl dash ↦
      let next : suc (suc (suc (position m))) ≡ position (suc m) = ground arith in
      let twice : suc (suc (2 * m)) ≡ 2 * suc m = omega arith in
      let stop : is_dash (suc (suc (position m))) ≡ true = ground arith in
      (
        k,
        omega arith,
        rw dash (
            parse_from-dash k (suc (suc (position m))) (suc (suc (2 * m))) cs uu stop
            ∙ ap (λ i. parse_from k cs i (suc (suc (2 * m))) uu) next
            ∙ ap (λ j. parse_from k cs (position (suc m)) j uu) twice),
      )
]

-- The bytes that are left, after those that are done.
parse_from-unparse_from :
    (vs done : List ℕ) (m k : ℕ)
    → All (λ v. v < 256) vs
    → length done ≡ m
    → m + length vs ≡ 16
    → position m + k ≡ 36
    → parse_from k (unparse_from m vs) (position m) (2 * m) (done ++ replicate (length vs) 0)
      ≡ parsed (done ++ vs)
unfolding unparse_from
parse_from-unparse_from [] done m zero h l s e = unfold parse_from in refl
parse_from-unparse_from [] done m (suc k) h l s e = absurd (ground arith)
parse_from-unparse_from (v ∷ vs) done m zero h l s e = absurd (ground arith)
parse_from-unparse_from (v ∷ vs) done m (suc zero) h l s e = absurd (ground arith)
parse_from-unparse_from (v ∷ vs) done m (suc (suc k)) h l s e =
    let zs : List ℕ = replicate (length vs) 0 in
    let uu = done ++ 0 ∷ zs in
    let rest = unparse_from (suc m) vs in
    let here : get_elem? uu m ≡ some 0 = ap (get_elem? uu) (sym l) ∙ get-append done zs in
    let size = length-append done (0 ∷ zs) in
    let put : set uu m v ≡ (done ++ v ∷ []) ++ zs =
      ap (λ i. set uu i v) (sym l) ∙ set-append done zs v in
    let (n, f, next) = Behind-byte k m rest (set uu m v) (omega arith) e in
    parse_from-byte k (position m) m v _ uu h.0 (ground arith) (ground arith) (omega arith) here
    ∙ next
    ∙ ap (λ us. parse_from n rest (position (suc m)) (2 * suc m) us) put
    ∙ parse_from-unparse_from vs (done ++ v ∷ []) (suc m) n h.1
        (omega (arith, length-append done (v ∷ []))) (omega arith) f
    ∙ ap parsed (append_assoc done (v ∷ []) vs)

-- The text that `uuid_unparse` makes of 16 bytes is read by `uuid_parse` without an error, as the
-- same 16 bytes.
pub uuid_parse-unparse :
    (uu : List ℕ)
    → length uu ≡ 16
    → All (λ v. v < 256) uu
    → uuid_parse (uuid_unparse uu) ≡ parsed uu
unfolding uuid_parse uuid_unparse
uuid_parse-unparse uu len h =
    ap (λ n. parse_from 36 (unparse_from 0 uu) 0 0 (replicate n 0)) (sym len)
    ∙ parse_from-unparse_from uu [] 0 36 h refl (omega arith) refl
