-- ===== src/Bitmap/Alloc.antt =====
-- Theorems on `_alloc` of kernel/mm/palloc_bitmap.c, and the invariant of a zone.
use nkos.Common.{
  leb→le, ltb→lt, refl, sym, ◌-◌, subst, ◌/◌, zero, inr, ◌^◌, inl, Bool-cases, ◌||◌, ◌∙◌, ◌+◌, ap,
  ◌≤◌, ◌∷◌, All, ◌≡◌, ◌*◌, ◌<◌, ◌%◌, ℕ, suc, arith,
}
use nkos.Palloc.{max_order}
use nkos.Bitmap.{leb, ltb, Bool, some, add64, false, true, List, BitmapZone, block, claim}
use nkos.Bitmap.Shape.{IsShape, first, block_pos, block-suc}
use nkos.Bitmap.Inside.{Holds, Holds-halves, index-Holds}
use nkos.Bitmap.Above.{bit, IsExactFrom, busy_up}
use nkos.Bitmap.Touches.{touches, touches-halves, touches-inner}
use nkos.Bitmap.Claim.{claimed, claimed-touches, claim-claimed}
use native.Mathlib.Nat.{mul-mod_left, div-eq_of_lt-le}

-- The bitmaps cover the zone up to hi, and a block is busy exactly if one of its halves is.
abbrev pub IsZone : BitmapZone → ℕ → Type 0
IsZone z hi = IsShape z hi × IsExactFrom z hi z.bits 0

abbrev pub AreZones : List BitmapZone → Type 0
AreZones zs = All (λ z. (hi : ℕ) × IsZone z hi) zs

-- Every block of the order in the zone has a busy page.
abbrev pub IsFull : ℕ → BitmapZone → ℕ → Type 0
IsFull o z hi =
    (g : ℕ)
    → Holds z hi o g
    → (x : ℕ) × Holds z hi 0 x
      × (touches 0 x (g * block o) (suc g * block o) ≡ true)
      × (bit z z.bits 0 x ≡ true)

-- A block of order o at the address is taken in a zone: its pages were free, and the busy blocks of
-- each order are now those before and those that share an address with it.
pub record IsTaken (o : ℕ) (addr : ℕ) (z w : BitmapZone) (hi : ℕ) : Type 0 where
  pub aligned : addr % block o ≡ 0
  pub inside : (z.base ≤ addr) × (addr + block o ≤ hi)
  pub was_free :
      (x : ℕ) → Holds z hi 0 x → touches 0 x addr (addr + block o) ≡ true → bit z z.bits 0 x ≡ false
  pub now :
      (i x : ℕ)
      → i < max_order
      → Holds z hi i x
      → bit w w.bits i x ≡ (bit z z.bits i x || touches i x addr (addr + block o))
  pub same_base : w.base ≡ z.base
  pub same_count : w.count ≡ z.count
  pub counted : w.busy ≡ add64 z.busy (2 ^ o)
  pub valid : IsZone w hi

-- The first zone that is not full is the one that changes.
pub data IsTakenIn (o addr : ℕ) : List BitmapZone → List BitmapZone → Type 0 where
  here :
      {z w : BitmapZone} {zs : List BitmapZone} {hi : ℕ}
      → IsTaken o addr z w hi
      → IsTakenIn o addr (z ∷ zs) (w ∷ zs)
  there :
      {z : BitmapZone} {zs ws : List BitmapZone} {hi : ℕ}
      → IsZone z hi
      → IsFull o z hi
      → IsTakenIn o addr zs ws
      → IsTakenIn o addr (z ∷ zs) (z ∷ ws)

pub busy_page :
    (i : ℕ) (z : BitmapZone) (hi g : ℕ)
    → IsExactFrom z hi z.bits 0
    → i < max_order
    → Holds z hi i g
    → bit z z.bits i g ≡ true
    → (x : ℕ) × Holds z hi 0 x
      × (touches 0 x (g * block i) (suc g * block i) ≡ true)
      × (bit z z.bits 0 x ≡ true)
busy_page zero z hi g x h k busy =
    let at : touches 0 g (g * block 0) (suc g * block 0) ≡ true = ground arith in (g, k, at, busy)
busy_page (suc i) z hi g x h k busy =
    let (left, right) = Holds-halves z hi i g k in
    let halves = x i g (omega arith) h k in
    let low = block_pos i in
    let p : g * block (suc i) ≡ 2 * g * block i =
      let s : g * (block i * 2) ≡ 2 * g * block i = omega arith in
      ap (λ b. g * b) (block-suc i) ∙ s in
    let r : suc g * block (suc i) ≡ suc (suc (2 * g)) * block i =
      let s : suc g * (block i * 2) ≡ suc (suc (2 * g)) * block i = omega arith in
      ap (λ b. suc g * b) (block-suc i) ∙ s in
    elim (Bool-cases (bit z z.bits i (2 * g))) [
      | inl first_half ↦
          let (x, k, t, b) = busy_page i z hi (2 * g) x (omega arith) left first_half in
          let wide : touches 0 x (g * block (suc i)) (suc g * block (suc i)) ≡ true =
            rw (p, r) (ground arith) in
          (x, k, wide, b)
      | inr not_first ↦
          let second : bit z z.bits i (suc (2 * g)) ≡ true = ground arith in
          let (x, k, t, b) = busy_page i z hi (suc (2 * g)) x (omega arith) right second in
          let wide : touches 0 x (g * block (suc i)) (suc g * block (suc i)) ≡ true =
            rw (p, r) (ground arith) in
          (x, k, wide, b)
    ]

-- A clear block has no busy page.
free_pages :
    (z : BitmapZone) (hi o g x : ℕ)
    → IsExactFrom z hi z.bits 0
    → o < max_order
    → Holds z hi o g
    → bit z z.bits o g ≡ false
    → touches 0 x (g * block o) (suc g * block o) ≡ true
    → bit z z.bits 0 x ≡ false
free_pages z hi o g x e h k clear t = elim (Bool-cases (bit z z.bits 0 x)) [
  | inr free ↦ free
  | inl busy ↦
      let addr = x * block 0 in
      let within = touches-inner 0 o g x (omega arith) in
      let start : leb (g * block o) addr ≡ true = ground arith in
      let stop : ltb addr (suc g * block o) ≡ true = ground arith in
      let same : addr / block 0 ≡ x = omega arith in
      let around : addr / block o ≡ g =
        div-eq_of_lt-le (block o) (leb→le (g * block o) addr start)
          (next_block g addr (block o) stop) in
      let up =
        busy_up o z hi z.bits 0 o addr e (omega arith) h (subst (Holds z hi o) (sym around) k)
          (subst (λ x. bit z z.bits 0 x ≡ true) (sym same) busy) in
      let set : bit z z.bits o g ≡ true = subst (λ g. bit z z.bits o g ≡ true) around up in
      ground arith
]
  where
    next_block : (g a b : ℕ) → ltb a (suc g * b) ≡ true → a < (g + 1) * b
    next_block g a b h = let k = ltb→lt a (suc g * b) h in omega arith

pub IsExactFrom-touches :
    (z : BitmapZone) (hi a e : ℕ) (bits : ℕ → ℕ → Bool)
    → a < e
    → IsExactFrom z hi z.bits 0
    → ((i x : ℕ)
        → i < max_order
        → Holds z hi i x
        → bit z bits i x ≡ (bit z z.bits i x || touches i x a e))
    → IsExactFrom z hi bits 0
IsExactFrom-touches z hi a e bits h exact now i x low l k =
    let (left, right) = Holds-halves z hi i x k in
    let whole = exact i x low l k in
    let range = touches-halves i x a e h in
    let l_now = now i (2 * x) (omega arith) left in
    let r_now = now i (suc (2 * x)) (omega arith) right in
    now (suc i) x l k
    ∙ rw (whole, range, l_now, r_now) (swap (bit z z.bits i (2 * x)) _ (touches i (2 * x) a e) _)
  where
    swap : (a b c d : Bool) → ((a || b) || (c || d)) ≡ ((a || c) || (b || d))
    swap a b c d = ground arith

pub claim-IsTaken :
    (z : BitmapZone) (hi o n : ℕ)
    → IsZone z hi
    → o < max_order
    → n < z.count o
    → z.bits o n ≡ false
    → (w : BitmapZone) × (claim z o n ≡ some ((first z o + n) * block o, w))
      × IsTaken o ((first z o + n) * block o) z w hi
claim-IsTaken z hi o n v h k clear =
    let g = first z o + n in
    let a = g * block o in
    let end : a + block o ≡ suc g * block o = omega arith in
    let low = block_pos o in
    let holds = index-Holds z hi o n v.0 h k in
    let n_index : g - first z o ≡ n = omega arith in
    let w : BitmapZone = record z {
      bits = claimed z o n a (suc g * block o);
      busy = add64 z.busy (2 ^ o);
    } in
    let now : (i x : ℕ)
        → i < max_order
        → Holds z hi i x
        → bit z w.bits i x ≡ (bit z z.bits i x || touches i x a (suc g * block o)) =
      λ i x l m. claimed-touches z hi o n i x v.0 h l m in
    (
      w,
      claim-claimed z hi o n v.0 v.1 h k,
      record {
        aligned = mul-mod_left g (block o);
        inside = (holds.0, omega arith);
        was_free = λ x m t.
            free_pages z hi o g x v.1 h holds (subst (λ n. z.bits o n ≡ false) (sym n_index) clear)
              (subst (λ e. touches 0 x a e ≡ true) end t);
        now =
            subst
              (λ e.
                (i x : ℕ)
                → i < max_order
                → Holds z hi i x
                → bit w w.bits i x ≡ (bit z z.bits i x || touches i x a e))
              (sym end) now;
        same_base = refl;
        same_count = refl;
        counted = refl;
        valid = (v.0, IsExactFrom-touches z hi a (suc g * block o) w.bits (omega arith) v.1 now);
      },
    )
