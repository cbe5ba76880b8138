-- ===== src/Dm/Bytes.antt =====
-- The bytes of a disk in order, and the parts of a sector that loader/krn/dm.c copies.
use mathlib.Core.Path.{ap, sym, ap₂}
use nkos.Common.{
  refl, ◌∙◌, zero, ◌∷◌, ◌-◌, drop, take, ◌≡◌, [], ◌+◌, ◌++◌, ◌≤◌, List, ℕ, suc, arith,
}

-- The n bytes from a on.
abbrev pub bytes_at : (ℕ → ℕ) → ℕ → ℕ → List ℕ
bytes_at disk a zero = []
bytes_at disk a (suc n) = disk a ∷ bytes_at disk (suc a) n

pub bytes_at-append :
    (disk : ℕ → ℕ) (a m n : ℕ)
    → bytes_at disk a m ++ bytes_at disk (a + m) n ≡ bytes_at disk a (m + n)
bytes_at-append disk a zero n =
    let e : a + 0 ≡ a = omega arith in
    let f : 0 + n ≡ n = omega arith in ap₂ (bytes_at disk) e (sym f)
bytes_at-append disk a (suc m) n =
    let e : a + suc m ≡ suc a + m = omega arith in
    let f : suc (m + n) ≡ suc m + n = omega arith in
    ap (λ b. disk a ∷ (bytes_at disk (suc a) m ++ bytes_at disk b n)) e
    ∙ ap (λ b. disk a ∷ b) (bytes_at-append disk (suc a) m n)
    ∙ ap (bytes_at disk a) f

take-bytes_at : (disk : ℕ → ℕ) (a m n : ℕ) → m ≤ n → take m (bytes_at disk a n) ≡ bytes_at disk a m
take-bytes_at disk a zero n h = refl
take-bytes_at disk a (suc m) zero h = absurd (omega arith)
take-bytes_at disk a (suc m) (suc n) h =
    ap (λ b. disk a ∷ b) (take-bytes_at disk (suc a) m n (omega arith))

drop-bytes_at :
    (disk : ℕ → ℕ) (a o n : ℕ) → o ≤ n → drop o (bytes_at disk a n) ≡ bytes_at disk (a + o) (n - o)
drop-bytes_at disk a zero n h =
    let e : a ≡ a + 0 = omega arith in let f : n ≡ n - 0 = omega arith in ap₂ (bytes_at disk) e f
drop-bytes_at disk a (suc o) zero h = absurd (omega arith)
drop-bytes_at disk a (suc o) (suc n) h =
    let e : suc a + o ≡ a + suc o = omega arith in
    let f : n - o ≡ suc n - suc o = omega arith in
    drop-bytes_at disk (suc a) o n (omega arith) ∙ ap₂ (bytes_at disk) e f

-- A part of a sector.
pub part-bytes_at :
    (disk : ℕ → ℕ) (a o m n : ℕ)
    → o + m ≤ n
    → take m (drop o (bytes_at disk a n)) ≡ bytes_at disk (a + o) m
part-bytes_at disk a o m n h =
    ap (take m) (drop-bytes_at disk a o n (omega arith))
    ∙ take-bytes_at disk (a + o) m (n - o) (omega arith)
