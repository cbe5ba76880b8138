-- ===== src/E820/Sort.antt =====
-- Theorems on `e820_sort` of kernel/e820.c, and on the measures of a table under it.
use mathlib.Core.List.{reverse_aux, reverse_perm, Perm, Permᴰ, perm_middle, append-nil}
use mathlib.Core.List.Perm
use nkos.Common.{
  ℕ, ◌≡◌, ◌∙◌, refl, ap, inl, inr, List, [], ◌∷◌, ◌++◌, max, arith, All, All-imp, All-zip,
  All-reverse_aux, Bool-cases, length,
}
use mathlib.Core.Path.{ap₂}
use mathlib.Core.Logic.{∥∥₁_elim}
use native.Mathlib.Nat.{ℕ_set}
use nkos.E820.{Region, before, sink, sort_from, e820_sort}
use nkos.E820.Spec.{NotAfter, Sorted, kind_at, type_at, total, depth}

-- A list in falling order, as the sorted part of the table reads from its right end.
abbrev Falling : List Region → Type 0
Falling [] = Unit
Falling (r ∷ m) = All (λ p. NotAfter p r) m × Falling m

All-sink {ℓ} :
    (P : Region → Type ℓ) (t : Region) (m : List Region) → P t → All P m → All P (sink t m)
unfolding sink
All-sink P t [] h a = (h, tt)
All-sink P t (p ∷ m) h a = elim (Bool-cases (before t p)) [
  | inl e ↦ rw e (a.0, All-sink P t m h a.1)
  | inr e ↦ rw e (h, a)
]

sink-Falling : (t : Region) (m : List Region) → Falling m → Falling (sink t m)
unfolding sink
sink-Falling t [] h = (tt, tt)
sink-Falling t (p ∷ m) h = elim (Bool-cases (before t p)) [
  | inl e ↦ rw e (All-sink (λ q. NotAfter q p) t m (ground arith) h.0, sink-Falling t m h.1)
  | inr e ↦ rw e (
    (ground arith, All-imp (λ q. NotAfter q p) (λ q. NotAfter q t) (λ q n. ground arith) m h.0),
    h,
  )
]

-- Moving the falling part in front of a rising one.
reverse_aux-Sorted :
    (front acc : List Region)
    → Falling front
    → Sorted acc
    → All (λ p. All (NotAfter p) acc) front
    → Sorted (reverse_aux front acc)
reverse_aux-Sorted [] acc f s h = s
reverse_aux-Sorted (p ∷ front) acc f s h =
    reverse_aux-Sorted front (p ∷ acc) f.1 (h.0, s)
      (All-zip (λ q. NotAfter q p) (λ q. All (NotAfter q) acc) front f.0 h.1)

All-nil : (m : List Region) → All (λ p. All (NotAfter p) []) m
All-nil [] = tt
All-nil (p ∷ m) = (tt, All-nil m)

sort_from-Sorted : (m front : List Region) → Falling front → Sorted (sort_from m front)
unfolding sort_from
sort_from-Sorted [] front f = reverse_aux-Sorted front [] f tt (All-nil front)
sort_from-Sorted (t ∷ m) front f = sort_from-Sorted m (sink t front) (sink-Falling t front f)

pub e820_sort-Sorted : (m : List Region) → Sorted (e820_sort m)
unfolding e820_sort
e820_sort-Sorted m = sort_from-Sorted m [] tt

sink-perm : (t : Region) (m : List Region) → Perm (sink t m) (t ∷ m)
unfolding sink
sink-perm t [] = Perm.rfl
sink-perm t (p ∷ m) = elim (Bool-cases (before t p)) [
  | inl e ↦ rw e (Perm.trans (Perm.cons p (sink-perm t m)) (Perm.swap t p m))
  | inr e ↦ rw e Perm.rfl
]

sort_from-perm : (m front : List Region) → Perm (sort_from m front) (m ++ front)
unfolding sort_from
sort_from-perm [] front = reverse_perm front
sort_from-perm (t ∷ m) front =
    Perm.trans (sort_from-perm m (sink t front))
      (Perm.trans (Perm.append_left m (sink-perm t front)) (perm_middle m front))

pub e820_sort-perm : (m : List Region) → Perm (e820_sort m) m
unfolding e820_sort
e820_sort-perm m = rw append-nil at (sort_from-perm m [])

-- `e820_sort` brings a table in order, by growing address and then by growing size, and keeps its
-- entries, each as often as it was there.
pub e820_sort_lem : (m : List Region) → Sorted (e820_sort m) × Perm (e820_sort m) m
e820_sort_lem m = (e820_sort-Sorted m, e820_sort-perm m)

All-sort_from {ℓ} :
    (P : Region → Type ℓ) (m front : List Region)
    → All P m
    → All P front
    → All P (sort_from m front)
unfolding sort_from
All-sort_from P [] front h k = All-reverse_aux P front [] k tt
All-sort_from P (t ∷ m) front h k = All-sort_from P m (sink t front) h.1 (All-sink P t front h.0 k)

pub All-e820_sort {ℓ} : (P : Region → Type ℓ) (m : List Region) → All P m → All P (e820_sort m)
unfolding e820_sort
All-e820_sort P m h = All-sort_from P m [] h tt

-- A number that is computed entry by entry, and in which the order of two entries is lost.
module _ (f : List Region → ℕ)
    (swap : (p q : Region) (m : List Region) → f (p ∷ q ∷ m) ≡ f (q ∷ p ∷ m))
    (cons : (p : Region) (m n : List Region) → f m ≡ f n → f (p ∷ m) ≡ f (p ∷ n)) where
  measure-Permᴰ : {m n : List Region} → Permᴰ m n → f m ≡ f n
  measure-Permᴰ Permᴰ.nil = refl
  measure-Permᴰ (Permᴰ.cons {a} {l₁} {l₂} e h) =
      cons a l₁ l₂ (measure-Permᴰ h) ∙ ap (λ b. f (b ∷ l₂)) e
  measure-Permᴰ (Permᴰ.swap {a} {b} {l} e g) = swap a b l ∙ ap₂ (λ c d. f (c ∷ d ∷ l)) g e
  measure-Permᴰ (Permᴰ.trans h k) = measure-Permᴰ h ∙ measure-Permᴰ k

  measure-e820_sort : (m : List Region) → f (e820_sort m) ≡ f m
  measure-e820_sort m = ∥∥₁_elim (e820_sort-perm m) (ℕ_set _ _) measure-Permᴰ

pub type_at-e820_sort : (x : ℕ) (m : List Region) → type_at x (e820_sort m) ≡ type_at x m
unfolding type_at
type_at-e820_sort x =
    measure-e820_sort (type_at x) (λ p q m. omega arith) (λ p m n h. ap (max (kind_at x p)) h)

pub total-e820_sort : (m : List Region) → total (e820_sort m) ≡ total m
unfolding total
total-e820_sort = measure-e820_sort total (λ p q m. omega arith) (λ p m n h. omega arith)

pub length-e820_sort : (m : List Region) → length (e820_sort m) ≡ length m
length-e820_sort = measure-e820_sort length (λ p q m. refl) (λ p m n h. omega arith)

pub depth-e820_sort : (x : ℕ) (m : List Region) → depth x (e820_sort m) ≡ depth x m
unfolding depth
depth-e820_sort x = measure-e820_sort (depth x) (λ p q m. omega arith) (λ p m n h. omega arith)
