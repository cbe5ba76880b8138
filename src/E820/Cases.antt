-- ===== src/E820/Cases.antt =====
-- The cases of one round of `e820_overlap`, with the wrap-around of its sums gone: `round` falls
-- into one of them for entries in order that do not reach the end of the address space.
use nkos.Common.{
  ℕ, ◌+◌, ◌≤◌, ◌<◌, ◌≡◌, ◌&&◌, inl, inr, List, [], ◌∷◌, ◌++◌, arith, ltb, leb, ◌==◌, if◌then◌else◌,
  refl, false, Bool-cases, length, sub64,
}
use nkos.E820.{
  Region, Round, next, again, mfin, e820_discard, e820_sort, e820_entries, carve, round,
}
use nkos.E820.Spec.{Entry, NotAfter}

-- Where the entry ends.
abbrev pub fin : Region → ℕ
fin r = r.base + r.size

pub data Case (i : ℕ) (c n : Region) (rest : List Region) : Round → Type 0 where
  apart : fin c ≤ n.base → Case i c n rest (next c (n ∷ rest))
  drop_c : c.base ≡ n.base → fin c ≤ fin n → c.kind ≤ n.kind → Case i c n rest (again (n ∷ rest))
  drop_n : fin n ≤ fin c → n.kind ≤ c.kind → Case i c n rest (again (c ∷ rest))
  push :
      (m : Region)
      → c.base ≡ n.base
      → n.kind < c.kind
      → m.base ≡ fin c
      → fin m ≡ fin n
      → fin c < fin n
      → m.kind ≡ n.kind
      → Case i c n rest (again (e820_sort (c ∷ m ∷ rest)))
  cut :
      (d : Region)
      → c.base < n.base
      → n.base < fin c
      → fin c ≤ fin n
      → c.kind ≤ n.kind
      → d.base ≡ c.base
      → fin d ≡ n.base
      → d.kind ≡ c.kind
      → Case i c n rest (next d (n ∷ rest))
  trim :
      (m : Region)
      → c.base < n.base
      → n.base < fin c
      → fin c < fin n
      → n.kind < c.kind
      → m.base ≡ fin c
      → fin m ≡ fin n
      → m.kind ≡ n.kind
      → Case i c n rest (next c (e820_sort (m ∷ rest)))
  split :
      (d e : Region)
      → i + length (c ∷ n ∷ rest) < e820_entries
      → c.base < n.base
      → fin n < fin c
      → c.kind < n.kind
      → d.base ≡ c.base
      → fin d ≡ n.base
      → d.kind ≡ c.kind
      → e.base ≡ fin n
      → fin e ≡ fin c
      → e.kind ≡ c.kind
      → Case i c n rest (next d (e820_sort ((n ∷ rest) ++ e ∷ [])))
  full :
      (d m : Region)
      → e820_entries ≤ i + length (c ∷ n ∷ rest)
      → c.base < n.base
      → fin n < fin c
      → c.kind < n.kind
      → d.base ≡ c.base
      → fin d ≡ n.base
      → d.kind ≡ c.kind
      → m.base ≡ n.base
      → fin m ≡ fin c
      → m.kind ≡ n.kind
      → Case i c n rest (next d (m ∷ rest))

pub mfin-fin : (lo : ℕ) (r : Region) → Entry lo r → mfin r ≡ fin r
unfolding mfin
mfin-fin lo r h = omega arith

module _ (i lo : ℕ) (c n : Region) (rest : List Region) (hc : Entry lo c) (hn : Entry lo n) where
  Case-carve :
      c.base < n.base → fin n < fin c → c.kind < n.kind → Case i c n rest (carve i c n rest)
  unfolding carve
  Case-carve b f k = elim (Bool-cases (ltb (i + length (c ∷ n ∷ rest)) e820_entries)) [
    | inl room ↦
        rw (room, mfin-fin lo n hn)
          (split _ _ (ground arith) b f k refl (omega arith) refl refl (omega arith) refl)
    | inr none_left ↦
        rw none_left (full _ _ (ground arith) b f k refl (omega arith) refl refl (omega arith) refl)
  ]

  Case-inside :
      c.base < n.base
      → fin n < fin c
      → Case i c n rest (if ltb c.kind n.kind then carve i c n rest else again (c ∷ rest))
  Case-inside b f = elim (Bool-cases (ltb c.kind n.kind)) [
    | inl k ↦ rw k (Case-carve b f (ground arith))
    | inr k ↦ rw k (drop_n (omega arith) (ground arith))
  ]

  Case-beyond :
      c.base < n.base
      → n.base < fin c
      → fin c < fin n
      → Case i c n rest (
          if ltb n.kind c.kind
          then next c (
              e820_sort
                (record n { base = fin c; size = sub64 n.size (sub64 (fin c) n.base) } ∷ rest))
          else next (record c { size = sub64 n.base c.base }) (n ∷ rest))
  Case-beyond b o f = elim (Bool-cases (ltb n.kind c.kind)) [
    | inl k ↦ rw k (trim _ b o f (ground arith) refl (omega arith) refl)
    | inr k ↦ rw k (cut _ b o (omega arith) (ground arith) refl (omega arith) refl)
  ]

  Case-same_end :
      c.base < n.base
      → n.base < fin c
      → fin c ≡ fin n
      → Case i c n rest (
          if leb n.kind c.kind
          then again (c ∷ rest)
          else next (record c { size = sub64 n.base c.base }) (n ∷ rest))
  Case-same_end b o f = elim (Bool-cases (leb n.kind c.kind)) [
    | inl k ↦ rw k (drop_n (omega arith) (ground arith))
    | inr k ↦ rw k (cut _ b o (omega arith) (ground arith) refl (omega arith) refl)
  ]

  Case-same_base :
      c.base ≡ n.base
      → fin c < fin n
      → Case i c n rest (
          if leb c.kind n.kind
          then again (n ∷ rest)
          else again (e820_sort (c ∷ record n { base = fin c; size = sub64 n.size c.size } ∷ rest)))
  Case-same_base b f = elim (Bool-cases (leb c.kind n.kind)) [
    | inl k ↦ rw k (drop_c b (omega arith) (ground arith))
    | inr k ↦ rw k (push _ b (ground arith) refl (omega arith) f refl)
  ]

  Case-same :
      c.base ≡ n.base
      → fin c ≡ fin n
      → Case i c n rest (if leb c.kind n.kind then again (n ∷ rest) else again (c ∷ rest))
  Case-same b f = elim (Bool-cases (leb c.kind n.kind)) [
    | inl k ↦ rw k (drop_c b (omega arith) (ground arith))
    | inr k ↦ rw k (drop_n (omega arith) (ground arith))
  ]

  -- What `round` does with entries in order is one of the cases.
  pub Case-round : NotAfter c n → Case i c n rest (round i c n rest)
  unfolding round e820_discard
  Case-round s =
      let unused : (c.kind == 0) ≡ false = ground arith in
      rw (mfin-fin lo c hc, mfin-fin lo n hn, unused)
        (elim (Bool-cases (leb (fin c) n.base)) [
          | inl a ↦ rw a (apart (ground arith))
          | inr a ↦ rw a (elim (Bool-cases (n.base == c.base && fin n == fin c)) [
            | inl e ↦ rw e (Case-same (ground arith) (ground arith))
            | inr e ↦ rw e (elim (Bool-cases (c.base == n.base)) [
              | inl b ↦ rw b (Case-same_base (ground arith) (ground arith))
              | inr b ↦ rw b (elim (Bool-cases (fin c == fin n)) [
                | inl f ↦ rw f (Case-same_end (ground arith) (ground arith) (ground arith))
                | inr f ↦ rw f (elim (Bool-cases (ltb (fin n) (fin c))) [
                  | inl l ↦ rw l (Case-inside (ground arith) (ground arith))
                  | inr l ↦ rw l (Case-beyond (ground arith) (ground arith) (ground arith))
                ])
              ])
            ])
          ])
        ])
