-- ===== src/E820/Overlap.antt =====
-- Theorems on the loop `e820_overlap` of kernel/e820.c: its end, the types and the overlaps.
use nkos.Common.{
  ℕ, zero, suc, ◌+◌, ◌<◌, ◌≡◌, ◌∙◌, refl, ap, some, List, [], ◌∷◌, max, arith, length, All,
}
use nkos.E820.{Region, Round, next, again, e820_entries, round, e820_overlap}
use nkos.E820.Spec.{Entry, Sorted, Shallow, Apart, kind_at, type_at, total, depth}
use nkos.E820.Cases.{Case-round, fin}
use nkos.E820.Rounds.{
  after, left, IsClear, after-Entry, left-Sorted, total-left-lt, type_at-after, depth-after-le,
  after-IsClear,
}

-- The loop finds a free slot at every round.
abbrev pub HasRoom : ℕ → ℕ → List Region → Type 0
HasRoom zero i m = Unit
HasRoom (suc k) i [] = Unit
HasRoom (suc k) i (c ∷ []) = Unit
HasRoom (suc k) i (c ∷ n ∷ rest) =
    (i + length (c ∷ n ∷ rest) < e820_entries)
    × (elim (round i c n rest) [ next d m ↦ HasRoom k (suc i) m | again m ↦ HasRoom k i m ])

-- The same of a round that is at hand.
abbrev RoomAfter : ℕ → ℕ → Round → Type 0
RoomAfter k i (next d m) = HasRoom k (suc i) m
RoomAfter k i (again m) = HasRoom k i m

HasRoom-after :
    (k i : ℕ) (c n : Region) (rest : List Region)
    → HasRoom (suc k) i (c ∷ n ∷ rest)
    → RoomAfter k i (round i c n rest)
HasRoom-after k i c n rest h = go (round i c n rest) h.1
  where
    go :
        (r : Round)
        → (elim r as (λ _. Type 0) [ next d m ↦ HasRoom k (suc i) m | again m ↦ HasRoom k i m ])
        → RoomAfter k i r
    go (next d m) g = g
    go (again m) g = g

module _ (k i : ℕ) (c n : Region) (rest : List Region) {out : List Region} where
  pub overlap-next :
      (d : Region) (m : List Region)
      → round i c n rest ≡ next d m
      → e820_overlap k (suc i) m ≡ some out
      → e820_overlap (suc k) i (c ∷ n ∷ rest) ≡ some (d ∷ out)
  unfolding e820_overlap
  overlap-next d m e f = rw (e, e820_overlap) (rw f)

  pub overlap-again :
      (m : List Region)
      → round i c n rest ≡ again m
      → e820_overlap k i m ≡ some out
      → e820_overlap (suc k) i (c ∷ n ∷ rest) ≡ some out
  unfolding e820_overlap
  overlap-again m e f = rw (e, e820_overlap) f

-- What the loop does to the types at the addresses.
abbrev pub KeepsTypes : ℕ → Type 0
KeepsTypes k =
    (i lo : ℕ) (m : List Region)
    → All (Entry lo) m
    → Sorted m
    → HasRoom k i m
    → total m < k
    → (out : List Region) × (e820_overlap k i m ≡ some out)
      × All (Entry lo) out
      × ((x : ℕ) → type_at x out ≡ type_at x m)

KeepsTypes-round :
    (k i lo : ℕ) (c n : Region) (rest : List Region) (r : Round)
    → KeepsTypes k
    → round i c n rest ≡ r
    → All (Entry lo) (after r)
    → Sorted (left r)
    → total (left r) < k
    → ((x : ℕ) → type_at x (after r) ≡ type_at x (c ∷ n ∷ rest))
    → RoomAfter k i r
    → (out : List Region) × (e820_overlap (suc k) i (c ∷ n ∷ rest) ≡ some out)
      × All (Entry lo) out
      × ((x : ℕ) → type_at x out ≡ type_at x (c ∷ n ∷ rest))
unfolding type_at
KeepsTypes-round k i lo c n rest (next d m) ih e ok s t ty room =
    let (out, f, ok', ty') = ih (suc i) lo m ok.1 s room t in
    (
      d ∷ out,
      overlap-next k i c n rest d m e f,
      (ok.0, ok'),
      λ x. ap (max (kind_at x d)) (ty' x) ∙ ty x,
    )
KeepsTypes-round k i lo c n rest (again m) ih e ok s t ty room =
    let (out, f, ok', ty') = ih i lo m ok s room t in
    (out, overlap-again k i c n rest m e f, ok', λ x. ty' x ∙ ty x)

pub e820_overlap-KeepsTypes : (k : ℕ) → KeepsTypes k
unfolding e820_overlap
e820_overlap-KeepsTypes zero i lo m ok s room t = absurd (omega arith)
e820_overlap-KeepsTypes (suc k) i lo [] ok s room t = ([], refl, tt, λ x. refl)
e820_overlap-KeepsTypes (suc k) i lo (c ∷ []) ok s room t = (c ∷ [], refl, ok, λ x. refl)
e820_overlap-KeepsTypes (suc k) i lo (c ∷ n ∷ rest) ok s room t =
    let case = Case-round i lo c n rest ok.0 ok.1.0 s.0.0 in
    KeepsTypes-round k i lo c n rest (round i c n rest) (e820_overlap-KeepsTypes k) refl
      (after-Entry i lo c n rest room.0 ok s case) (left-Sorted i lo c n rest room.0 ok s case)
      (omega (arith, total-left-lt i lo c n rest room.0 ok s case))
      (λ x. type_at-after i lo c n rest room.0 ok s x case) (HasRoom-after k i c n rest room)

abbrev pub Separates : ℕ → Type 0
Separates k =
    (i lo : ℕ) (m : List Region)
    → All (Entry lo) m
    → Sorted m
    → Shallow m
    → HasRoom k i m
    → total m < k
    → (out : List Region) × (e820_overlap k i m ≡ some out) × Apart lo out

Separates-round :
    (k i lo : ℕ) (c n : Region) (rest : List Region) (r : Round)
    → Separates k
    → round i c n rest ≡ r
    → All (Entry lo) (after r)
    → Sorted (left r)
    → total (left r) < k
    → Shallow (after r)
    → IsClear r
    → RoomAfter k i r
    → (out : List Region) × (e820_overlap (suc k) i (c ∷ n ∷ rest) ≡ some out) × Apart lo out
unfolding depth
Separates-round k i lo c n rest (next d m) ih e ok s t sh clear room =
    let (out, f, apart) = ih (suc i) (fin d) m clear s (λ x. omega (arith, sh x)) room t in
    (d ∷ out, overlap-next k i c n rest d m e f, (ok.0, apart))
Separates-round k i lo c n rest (again m) ih e ok s t sh clear room =
    let (out, f, apart) = ih i lo m ok s sh room t in (out, overlap-again k i c n rest m e f, apart)

pub e820_overlap-Separates : (k : ℕ) → Separates k
unfolding e820_overlap
e820_overlap-Separates zero i lo m ok s sh room t = absurd (omega arith)
e820_overlap-Separates (suc k) i lo [] ok s sh room t = ([], refl, tt)
e820_overlap-Separates (suc k) i lo (c ∷ []) ok s sh room t = (c ∷ [], refl, ok)
e820_overlap-Separates (suc k) i lo (c ∷ n ∷ rest) ok s sh room t =
    let case = Case-round i lo c n rest ok.0 ok.1.0 s.0.0 in
    Separates-round k i lo c n rest (round i c n rest) (e820_overlap-Separates k) refl
      (after-Entry i lo c n rest room.0 ok s case) (left-Sorted i lo c n rest room.0 ok s case)
      (omega (arith, total-left-lt i lo c n rest room.0 ok s case))
      (λ x. omega (arith, depth-after-le i lo c n rest room.0 ok s x case, sh x))
      (after-IsClear i lo c n rest room.0 ok s sh case) (HasRoom-after k i c n rest room)
