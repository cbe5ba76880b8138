-- ===== src/Bitmap/Below.antt =====
-- Theorems on the loops of kernel/mm/palloc_bitmap.c over the orders below that of a block.
use nkos.Common.{
  ◌-◌, ◌^◌, inr, inl, Bool-cases, zero, ◌∙◌, lt→ltb, ◌*◌, ◌&&◌, ◌≤◌, ◌==◌, ◌+◌, ◌<◌, ◌≡◌,
  if◌then◌else◌, ℕ, suc, arith,
}
use nkos.Palloc.{max_order}
use nkos.Bitmap.{
  add64, true, false, ltb, some, leb, Bool, BitmapZone, block, set_bit, set_blocks, set_below,
}
use nkos.Bitmap.Shape.{IsShape, first, block_pos, with_bits, zone_set-block, count-fits}
use nkos.Bitmap.Inside.{Holds, Holds-index, Holds-inner, block-mul, leb-mul, ltb-mul}
use nkos.Common.Memory.{◌>>=◌}
use mathlib.Core.Path.{ap₂, ap, fun_ext}
use native.Mathlib.Nat.{one-le-pow, mul-le-mul_right}

-- The bits from lo on and before hi of order j have the value v.
abbrev pub fill : (ℕ → ℕ → Bool) → ℕ → ℕ → ℕ → Bool → ℕ → ℕ → Bool
fill bits j lo hi v = λ i n. if i == j && (leb lo n && ltb n hi) then v else bits i n

fill_empty :
    (bits : ℕ → ℕ → Bool) (j n : ℕ) (v : Bool) (i m : ℕ) → bits i m ≡ fill bits j n (n + 0) v i m
fill_empty bits j n v i m = ground arith

fill-set_bit :
    (bits : ℕ → ℕ → Bool) (j n k : ℕ) (v : Bool) (i m : ℕ)
    → fill (set_bit bits j n v) j (suc n) (suc n + k) v i m ≡ fill bits j n (suc n + k) v i m
fill-set_bit bits j n k v i m = ground arith

pub set_blocks-fill :
    (k : ℕ) (v : Bool) (z : BitmapZone) (hi j n : ℕ)
    → IsShape z hi
    → j < max_order
    → n + k ≤ z.count j
    → set_blocks k v z ((first z j + n) * block j) ((first z j + (n + k)) * block j) j
      ≡ some (with_bits z (fill z.bits j n (n + k) v))
unfolding set_blocks
set_blocks-fill zero v z hi j n s h le =
    let e : n + 0 ≡ n = omega arith in
    let stop : ltb ((first z j + n) * block j) ((first z j + (n + 0)) * block j) ≡ false =
      ground arith in
    rw stop
      (ap (λ b. some (with_bits z b)) (fun_ext (λ i. fun_ext (λ m. fill_empty z.bits j n v i m))))
set_blocks-fill (suc k) v z hi j n s h le =
    let b = block j in
    let low = block_pos j in
    let less : suc (first z j + n) ≤ first z j + (n + suc k) = omega arith in
    let scaled = mul-le-mul_right b less in
    let fits = count-fits z hi j s h in
    let in_zone : first z j + (n + suc k) ≤ first z j + z.count j = omega arith in
    let top = mul-le-mul_right b in_zone in
    let more : ltb ((first z j + n) * b) ((first z j + (n + suc k)) * b) ≡ true =
      lt→ltb _ _ (omega arith) in
    let next : add64 ((first z j + n) * b) b ≡ (first z j + suc n) * b = omega arith in
    let end : n + suc k ≡ suc n + k = omega arith in
    let w = with_bits z (set_bit z.bits j n v) in
    rw (more, zone_set-block v z hi j n s h (omega arith), next, end)
      (set_blocks-fill k v w hi j (suc n) s h (omega arith)
        ∙ ap (λ b. some (with_bits z b))
            (fun_ext (λ i. fun_ext (λ m. fill-set_bit z.bits j n k v i m))))

-- The bits of the k orders from j on whose blocks lie between the addresses a and e have the value v.
abbrev pub spread : BitmapZone → ℕ → ℕ → ℕ → ℕ → Bool → (ℕ → ℕ → Bool) → ℕ → ℕ → Bool
spread z k j a e v bits = λ i n.
    if (leb j i && ltb i (j + k))
      && (leb a ((first z i + n) * block i) && ltb ((first z i + n) * block i) e)
    then v
    else bits i n

spread-fill :
    (z : BitmapZone) (bits : ℕ → ℕ → Bool) (k j lo q a e : ℕ) (v : Bool) (i n : ℕ)
    → a ≡ (first z j + lo) * block j
    → e ≡ (first z j + (lo + q)) * block j
    → spread z k (suc j) a e v (fill bits j lo (lo + q) v) i n ≡ spread z (suc k) j a e v bits i n
spread-fill z bits k j lo q a e v i n p r = elim (Bool-cases (i == j)) [
  | inl same ↦
      let here : i ≡ j = ground arith in
      let low = block_pos j in
      let f = first z j in
      let begins : leb a ((f + n) * block j) ≡ leb lo n =
        rw (p, leb-mul (f + lo) (f + n) (block j) (omega arith)) (ground arith) in
      let ends : ltb ((f + n) * block j) e ≡ ltb n (lo + q) =
        rw (r, ltb-mul (f + n) (f + (lo + q)) (block j) (omega arith)) (ground arith) in
      rw (here, begins, ends) (ground arith)
  | inr other ↦ rw other (ground arith)
]

-- Both loops of `_alloc` and `_free` over the smaller orders, on the block g of the zone.
pub set_below-spread :
    (k : ℕ) (v : Bool) (z : BitmapZone) (hi j o g : ℕ)
    → IsShape z hi
    → o < max_order
    → j + k ≡ o
    → Holds z hi o g
    → set_below k v z (g * block o) o j
      ≡ some (with_bits z (spread z k j (g * block o) (suc g * block o) v z.bits))
unfolding set_below
set_below-spread zero v z hi j o g s h jk holds =
    ap (λ b. some (with_bits z b)) (fun_ext (λ i. fun_ext (λ n. (ground arith))))
set_below-spread (suc k) v z hi j o g s h jk holds =
    let m = block j in
    let q = 2 ^ (o - j) in
    let lo = g * q - first z j in
    let some_block = one-le-pow (o - j) 2 (omega arith) in
    let low_block = block_pos j in
    let begins =
      Holds-index z hi j _ s (omega arith)
        (Holds-inner z hi j o g 0 (omega arith) holds (omega arith)) in
    let ends =
      Holds-index z hi j _ s (omega arith)
        (Holds-inner z hi j o g (q - 1) (omega arith) holds (omega arith)) in
    let start : g * q ≡ first z j + lo = omega arith in
    let stop : suc g * q ≡ first z j + (lo + q) = omega arith in
    let wide = block-mul j o (omega arith) in
    let assoc : g * (q * m) ≡ g * q * m = omega arith in
    let assoc_suc : suc g * (q * m) ≡ suc g * q * m = omega arith in
    let p : g * block o ≡ (first z j + lo) * m =
      ap (λ b. g * b) wide ∙ assoc ∙ ap (λ n. n * m) start in
    let r : suc g * block o ≡ (first z j + (lo + q)) * m =
      ap (λ b. suc g * b) wide ∙ assoc_suc ∙ ap (λ n. n * m) stop in
    let below_top = s.1 in
    let top = holds.1 in
    let next : add64 (g * block o) (block o) ≡ suc g * block o = omega arith in
    let w = with_bits z (fill z.bits j lo (lo + q) v) in
    let blocks : set_blocks q v z (g * block o) (add64 (g * block o) (block o)) j ≡ some w =
      ap₂ (λ b e. set_blocks q v z b e j) p (next ∙ r)
      ∙ set_blocks-fill q v z hi j lo s (omega arith) (omega arith) in
    ap (λ x. x >>= λ w. set_below k v w (g * block o) o (suc j)) blocks
    ∙ set_below-spread k v w hi (suc j) o g s h (omega arith) holds
    ∙ ap (λ b. some (with_bits z b))
        (fun_ext (λ i. fun_ext (λ n. spread-fill z z.bits k j lo q _ _ v i n p r)))
