-- ===== src/Terminal/Colours.antt =====
-- The attribute byte under the SGR parameters: what each of them leaves alone.
use nkos.Common.{
  inr, inl, Bool-cases, ◌+◌, ℕ, zero, suc, ◌<◌, ◌≡◌, refl, Bool, true, ◌&&◌, ◌/◌, ◌%◌, arith, ◌==◌,
}
use nkos.Terminal.{sgr}

-- A test on all numbers under n, run by the evaluator.
every : (ℕ → Bool) → ℕ → Bool
every test zero = true
every test (suc m) = every test m && test m

every-at : (test : ℕ → Bool) (n v : ℕ) → v < n → every test n ≡ true → test v ≡ true
unfolding every
every-at test zero v under run = absurd (omega arith)
every-at test (suc m) v under run = elim (Bool-cases (v == m)) [
  | inl last ↦ let e : v ≡ m = ground arith in rw e (ground arith)
  | inr lower ↦ every-at test m v (ground arith) (ground arith)
]

-- The foreground colour is the lowest 3 bits, the intensity the next, then 3 bits of background, and
-- the blink bit.
abbrev pub foreground : ℕ → ℕ
foreground a = a % 8

abbrev pub background : ℕ → ℕ
background a = a / 16 % 8

abbrev pub blink : ℕ → ℕ
blink a = a / 128

abbrev pub intensity : ℕ → ℕ
intensity a = a / 8 % 2

-- What the parameters 30 + k and 40 + k do to an attribute, as tests.
abbrev keeps_rest : ℕ → ℕ → Bool
keeps_rest a k =
    let f = sgr (30 + k) a in
    let b = sgr (40 + k) a in
    (background f == background a && (blink f == blink a && intensity f == intensity a))
    && (foreground b == foreground a && (blink b == blink a && intensity b == intensity a))

sgr_table : every (λ a. every (keeps_rest a) 8) 256 ≡ true
unfolding every sgr
sgr_table = refl

-- The parameters 30 to 37 change the foreground alone, and 40 to 47 the background alone.
pub sgr_keeps :
    (k a : ℕ)
    → k < 8
    → a < 256
    → (background (sgr (30 + k) a) ≡ background a)
      × (blink (sgr (30 + k) a) ≡ blink a)
      × (intensity (sgr (30 + k) a) ≡ intensity a)
      × (foreground (sgr (40 + k) a) ≡ foreground a)
      × (blink (sgr (40 + k) a) ≡ blink a)
      × (intensity (sgr (40 + k) a) ≡ intensity a)
sgr_keeps k a h g =
    let row = every-at (λ x. every (keeps_rest x) 8) 256 a g sgr_table in
    let t : keeps_rest a k ≡ true = every-at (keeps_rest a) 8 k h row in ground arith
