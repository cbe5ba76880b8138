-- ===== src/E820/Coalesce.antt =====
-- Theorems on `e820_coalesce` of kernel/e820.c, which merges neighbours of one type.
use nkos.Common.{
  ℕ, ◌≡◌, ◌≢◌, ◌&&◌, inl, inr, List, [], ◌∷◌, arith, refl, ◌==◌, Bool-cases, All, add64,
}
use nkos.E820.{Region, mfin, coalesce_from, e820_coalesce}
use nkos.E820.Spec.{Entry, Apart, type_at}
use nkos.E820.Cases.{fin, mfin-fin}

-- No entry meets a next one of its own type.
abbrev pub Merged : List Region → Type 0
Merged [] = Unit
Merged (c ∷ []) = Unit
Merged (c ∷ n ∷ m) = (fin c ≡ n.base → c.kind ≢ n.kind) × Merged (n ∷ m)

-- The list starts as `c` does.
abbrev Heads : Region → List Region → Type 0
Heads c [] = ⊥
Heads c (r ∷ m) = (r.base ≡ c.base) × (r.kind ≡ c.kind)

abbrev joined : Region → Region → Region
joined c n = record c { size = add64 c.size n.size }

joined-Entry :
    (lo : ℕ) (c n : Region)
    → Entry lo c
    → Entry lo n
    → fin c ≡ n.base
    → Entry lo (joined c n) × (fin (joined c n) ≡ fin n)
joined-Entry lo c n hc hn e = omega arith

coalesce_from-type_at :
    (x lo : ℕ) (c : Region) (rest : List Region)
    → All (Entry lo) (c ∷ rest)
    → type_at x (coalesce_from c rest) ≡ type_at x (c ∷ rest)
unfolding coalesce_from type_at
coalesce_from-type_at x lo c [] ok = refl
coalesce_from-type_at x lo c (n ∷ rest) ok =
    rw (mfin-fin lo c ok.0) (elim (Bool-cases (fin c == n.base && c.kind == n.kind)) [
      | inl e ↦
          let (entry, _) = joined-Entry lo c n ok.0 ok.1.0 (ground arith) in
          rw e (ground (arith, coalesce_from-type_at x lo (joined c n) rest (entry, ok.1.1)))
      | inr e ↦ rw e (ground (arith, coalesce_from-type_at x lo n rest ok.1))
    ])

coalesce_from-Heads : (c : Region) (rest : List Region) → Heads c (coalesce_from c rest)
unfolding coalesce_from
coalesce_from-Heads c [] = (refl, refl)
coalesce_from-Heads c (n ∷ rest) = elim (Bool-cases (mfin c == n.base && c.kind == n.kind)) [
  | inl e ↦ rw e (coalesce_from-Heads (joined c n) rest)
  | inr e ↦ rw e (refl, refl)
]

Merged-cons :
    (c n : Region) (m : List Region)
    → (fin c ≡ n.base → c.kind ≢ n.kind)
    → Heads n m
    → Merged m
    → Merged (c ∷ m)
Merged-cons c n [] h k s = tt
Merged-cons c n (r ∷ m) h k s = (λ e f. h (omega arith) (omega arith), s)

coalesce_from-Merged :
    (lo : ℕ) (c : Region) (rest : List Region)
    → All (Entry lo) (c ∷ rest)
    → Merged (coalesce_from c rest)
unfolding coalesce_from
coalesce_from-Merged lo c [] ok = tt
coalesce_from-Merged lo c (n ∷ rest) ok =
    rw (mfin-fin lo c ok.0) (elim (Bool-cases (fin c == n.base && c.kind == n.kind)) [
      | inl e ↦
          let (entry, _) = joined-Entry lo c n ok.0 ok.1.0 (ground arith) in
          rw e (coalesce_from-Merged lo (joined c n) rest (entry, ok.1.1))
      | inr e ↦ rw e (
          Merged-cons c n (coalesce_from n rest) (ground arith) (coalesce_from-Heads n rest)
            (coalesce_from-Merged lo n rest ok.1))
    ])

coalesce_from-Apart :
    (lo : ℕ) (c : Region) (rest : List Region)
    → Apart lo (c ∷ rest)
    → Apart lo (coalesce_from c rest)
unfolding coalesce_from
coalesce_from-Apart lo c [] ok = ok
coalesce_from-Apart lo c (n ∷ rest) ok =
    rw (mfin-fin lo c ok.0) (elim (Bool-cases (fin c == n.base && c.kind == n.kind)) [
      | inl e ↦
          let (entry, f) = joined-Entry lo c n ok.0 (omega arith) (ground arith) in
          rw e (coalesce_from-Apart lo (joined c n) rest (entry, rw f ok.1.1))
      | inr e ↦ rw e (ok.0, coalesce_from-Apart (fin c) n rest ok.1)
    ])

pub e820_coalesce-type_at :
    (x lo : ℕ) (m : List Region) → All (Entry lo) m → type_at x (e820_coalesce m) ≡ type_at x m
unfolding e820_coalesce
e820_coalesce-type_at x lo [] ok = refl
e820_coalesce-type_at x lo (c ∷ rest) ok = coalesce_from-type_at x lo c rest ok

pub e820_coalesce-Merged : (lo : ℕ) (m : List Region) → All (Entry lo) m → Merged (e820_coalesce m)
unfolding e820_coalesce
e820_coalesce-Merged lo [] ok = tt
e820_coalesce-Merged lo (c ∷ rest) ok = coalesce_from-Merged lo c rest ok

pub e820_coalesce-Apart : (lo : ℕ) (m : List Region) → Apart lo m → Apart lo (e820_coalesce m)
unfolding e820_coalesce
e820_coalesce-Apart lo [] ok = tt
e820_coalesce-Apart lo (c ∷ rest) ok = coalesce_from-Apart lo c rest ok
