-- ===== src/Heap/Unlink.antt =====
-- Theorems on the unlinking of chunks of loader/krn/mm.c from rings and trees.
use nkos.Common.{
  ◌≢◌, ◌+◌, ◌/◌, ◌≤◌, ◌≡◌, ◌⊎◌, inl, inr, ◌∙◌, refl, sym, ap, ◌==◌, if◌then◌else◌, ℕ, zero, suc,
  true, false, Bool-cases, arith, none, List, [], ◌∷◌, subst,
}
use nkos.Heap.{put_sb, put, write, Heap, prev, next, child, mm_get_csize, mm_unlink_small, detach}
use mathlib.Core.Path.{fun_ext}
use nkos.Heap.Tags.{with_word}
use nkos.Heap.Large.{mm_unlink_large, rightmost}
use nkos.Heap.Rings.{IsRing, IsApart, AreApart, linked-kept}

-- The ring without p, which was behind c, in a memory where only the links around p change.
removed-IsRing :
    (w v : ℕ → ℕ) (p c : ℕ) (cs : List ℕ)
    → IsRing w c (p ∷ cs)
    → IsApart p (c ∷ cs)
    → AreApart (c ∷ cs)
    → v (next c) ≡ w (next p)
    → v (prev (w (next p))) ≡ c
    → ((x : ℕ) → x ≢ prev (w (next p)) → x ≢ next c → x ≢ prev p → x ≢ next p → v x ≡ w x)
    → IsRing v c cs
removed-IsRing w v p c [] (c_p, p_c, (n, m)) off apart to from kept =
    (to ∙ n, subst (λ d. v (prev d) ≡ c) n from)
removed-IsRing w v p c (d ∷ cs) (c_p, p_c, (n, m, rest)) (p_c_off, (p_d, p_off))
      ((c_d, c_off), (d_off, apart)) to from kept =
    let from_d : v (prev d) ≡ c = subst (λ d. v (prev d) ≡ c) n from in
    let others : (x : ℕ) → x ≢ prev d → x ≢ next c → x ≢ prev p → x ≢ next p → v x ≡ w x =
      λ x i j k l. kept x (λ e. i (e ∙ ap prev n)) j k l in
    (
      to ∙ n,
      from_d,
      linked-kept w v d c d p cs rest
          (kept (next d) (ground arith) (ground arith) (ground arith) (ground arith))
          (kept (prev c) (ground arith) (ground arith) (ground arith) (ground arith)) others d_off
          c_off p_off,
    )

-- The memory after p is unlinked between c and d.
abbrev parted : (ℕ → ℕ) → ℕ → ℕ → ℕ → ℕ
parted w c d = write (write w (prev d) c) (next c) d

detach-words :
    (h : Heap) (p c d : ℕ)
    → h.word (next p) ≡ d
    → h.word (prev p) ≡ c
    → (p + 16 ≤ d) ⊎ (d + 16 ≤ p)
    → detach h p ≡ with_word h (parted h.word c d)
unfolding detach
detach-words h p c d n m off = ap (with_word h) (fun_ext (λ a. ground arith))

abbrev cleared : Heap → ℕ → Heap
cleared g p = put (put g (next p) 0) (prev p) 0

unlink_small-of :
    (h g : Heap) (p c d : ℕ)
    → detach h p ≡ g
    → g.word (next p) ≡ d
    → g.word (prev p) ≡ c
    → g.sb (mm_get_csize h p / 8) ≢ p
    → mm_unlink_small h p ≡ (if d == c then cleared g p else g)
unfolding mm_unlink_small
unlink_small-of h g p c d e n m bin =
    let other : (g.sb (mm_get_csize h p / 8) == p) ≡ false = ground arith in
    elim (Bool-cases (d == c)) [
      | inl t ↦ rw (e, n, m, t, other) refl
      | inr t ↦ rw (e, n, m, t, other) refl
    ]

-- The memory after mm_unlink_small of p between c and d.
abbrev unlinked : (ℕ → ℕ) → ℕ → ℕ → ℕ → ℕ → ℕ
unlinked w p c d =
    let v = parted w c d in if d == c then write (write v (next p) 0) (prev p) 0 else v

unlink_small-words :
    (h : Heap) (p c d : ℕ)
    → h.word (next p) ≡ d
    → h.word (prev p) ≡ c
    → (p + 16 ≤ c) ⊎ (c + 16 ≤ p)
    → (p + 16 ≤ d) ⊎ (d + 16 ≤ p)
    → h.sb (mm_get_csize h p / 8) ≢ p
    → mm_unlink_small h p ≡ with_word h (unlinked h.word p c d)
unlink_small-words h p c d n m c_off d_off bin =
    let g = with_word h (parted h.word c d) in
    unlink_small-of h g p c d (detach-words h p c d n m d_off) (ground arith) (ground arith) bin
    ∙ whole
  where
    whole :
        (if d == c
          then cleared (with_word h (parted h.word c d)) p
          else with_word h (parted h.word c d))
        ≡ with_word h (unlinked h.word p c d)
    whole = elim (Bool-cases (d == c)) [ inl t ↦ rw t refl | inr t ↦ rw t refl ]

next_apart :
    (w : ℕ → ℕ) (p c : ℕ) (cs : List ℕ)
    → IsRing w c (p ∷ cs)
    → IsApart p (c ∷ cs)
    → (p + 16 ≤ w (next p)) ⊎ (w (next p) + 16 ≤ p)
next_apart w p c [] (c_p, p_c, (n, m)) (off, _) = ground arith
next_apart w p c (d ∷ cs) (c_p, p_c, (n, m, rest)) (off, (d_off, _)) = ground arith

next_first :
    (w : ℕ → ℕ) (p c : ℕ) (cs : List ℕ)
    → IsRing w c (p ∷ cs)
    → AreApart (c ∷ cs)
    → (w (next p) ≡ c) ⊎ ((c + 16 ≤ w (next p)) ⊎ (w (next p) + 16 ≤ c))
next_first w p c [] (c_p, p_c, (n, m)) apart = inl n
next_first w p c (d ∷ cs) (c_p, p_c, (n, m, rest)) ((c_d, c_off), apart) = ground arith

-- mm_unlink_small of a chunk p that is behind another chunk c of its ring, which is the chunk of the bin: the ring has
-- the chunks but p, and the bins stay.
pub unlink_small-IsRing :
    (h : Heap) (p c : ℕ) (cs : List ℕ)
    → h.sb (mm_get_csize h p / 8) ≡ c
    → IsRing h.word c (p ∷ cs)
    → IsApart p (c ∷ cs)
    → AreApart (c ∷ cs)
    → IsRing (mm_unlink_small h p).word c cs × ((mm_unlink_small h p).sb ≡ h.sb)
unlink_small-IsRing h p c cs bin ring off apart =
    let d = h.word (next p) in
    let d_off = next_apart h.word p c cs ring off in
    let p_c : h.word (prev p) ≡ c = ring.1 in
    let c_d = next_first h.word p c cs ring apart in
    let c_off = off.0 in
    let words = unlink_small-words h p c d refl p_c c_off d_off (ground arith) in
    let v = unlinked h.word p c d in
    (
      subst (λ (g : Heap). IsRing g.word c cs) (sym words)
          (removed-IsRing h.word v p c cs ring off apart (ground arith) (ground arith)
            (λ x i j k l. ground arith)),
      ap (λ (g : Heap). g.sb) words,
    )

unlink_small-last :
    (h g : Heap) (p c : ℕ)
    → detach h p ≡ g
    → g.word (next p) ≡ c
    → g.word (prev p) ≡ c
    → g.sb (mm_get_csize h p / 8) ≡ p
    → mm_unlink_small h p ≡ put_sb (cleared g p) (mm_get_csize h p / 8) 0
unfolding mm_unlink_small
unlink_small-last h g p c e n m bin =
    let same : (c == c) ≡ true = ground arith in
    let first : (p == p) ≡ true = ground arith in
    let zero_next : (cleared g p).word (next p) ≡ 0 = ground arith in
    rw (e, n, m, same, bin, first) (ap (put_sb (cleared g p) (mm_get_csize h p / 8)) zero_next)

-- mm_unlink_small of the chunk of a bin that has one other chunk c: the bin is empty after it, while c is still free, and
-- alone in its ring.
pub unlink_small-forgets :
    (h : Heap) (p c : ℕ)
    → h.sb (mm_get_csize h p / 8) ≡ p
    → IsRing h.word p (c ∷ [])
    → IsApart p (c ∷ [])
    → ((mm_unlink_small h p).sb (mm_get_csize h p / 8) ≡ 0) × IsRing (mm_unlink_small h p).word c []
unlink_small-forgets h p c bin (p_c, c_p, (c_n, p_p)) (off, _) =
    let g = with_word h (parted h.word c c) in
    let words =
      unlink_small-last h g p c (detach-words h p c c p_c p_p off) (ground arith) (ground arith)
        bin in
    (
      ap (λ (g : Heap). g.sb (mm_get_csize h p / 8)) words ∙ ground arith,
      (
        ap (λ (g : Heap). g.word (next c)) words ∙ ground arith,
        ap (λ (g : Heap). g.word (prev c)) words ∙ ground arith,
      ),
    )

rightmost-loops :
    (fuel : ℕ) (h : Heap) (p : ℕ)
    → (h.word (child p 0) ≢ 0) ⊎ (h.word (child p 1) ≢ 0)
    → rightmost fuel h p ≡ none
unfolding rightmost
rightmost-loops zero h p has_child = refl
rightmost-loops (suc fuel) h p has_child =
    let again = rightmost-loops fuel h p has_child in ground arith

-- mm_unlink_large of a chunk that is alone in its ring and has a child: the loop that looks for the rightmost child does not end,
-- as no fuel is enough for it.
pub unlink_large-loops :
    (fuel : ℕ) (h : Heap) (p : ℕ)
    → h.word (next p) ≡ p
    → (h.word (child p 0) ≢ 0) ⊎ (h.word (child p 1) ≢ 0)
    → mm_unlink_large fuel h p ≡ none
unfolding mm_unlink_large
unlink_large-loops fuel h p alone has_child =
    let found : (h.word (next p) == p) ≡ true = ground arith in
    let loops = rightmost-loops fuel h p has_child in rw (found, loops) refl
