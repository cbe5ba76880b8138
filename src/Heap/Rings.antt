-- ===== src/Heap/Rings.antt =====
-- Theorems on the rings of small chunks of loader/krn/mm.c.
use nkos.Common.{
  ◌≢◌, ◌+◌, ◌/◌, ◌≤◌, ◌<◌, ◌≡◌, ◌⊎◌, ◌∙◌, sym, ap, ◌==◌, ℕ, false, arith, List, [], ◌∷◌, subst,
}
use nkos.Heap.{write, Heap, prev, next, mm_get_csize, mm_link_small, link_after}
use mathlib.Core.Path.{fun_ext}
use nkos.Heap.Tags.{with_word}

-- The chunks between a and b, each the next of the one before it.
abbrev pub AreLinked : (ℕ → ℕ) → ℕ → List ℕ → ℕ → Type 0
AreLinked w a [] b = (w (next a) ≡ b) × (w (prev b) ≡ a)
AreLinked w a (c ∷ cs) b = (w (next a) ≡ c) × (w (prev c) ≡ a) × AreLinked w c cs b

-- The chunk p and the chunks behind it, the last one of which is before p.
abbrev pub IsRing : (ℕ → ℕ) → ℕ → List ℕ → Type 0
IsRing w p cs = AreLinked w p cs p

-- The links of p and of the chunks do not overlap.
abbrev pub IsApart : ℕ → List ℕ → Type 0
IsApart p [] = Unit {0}
IsApart p (c ∷ cs) = ((p + 16 ≤ c) ⊎ (c + 16 ≤ p)) × IsApart p cs

abbrev pub AreApart : List ℕ → Type 0
AreApart [] = Unit {0}
AreApart (c ∷ cs) = IsApart c cs × AreApart cs

-- The links from a to b stay when the only links that change are links to a, from b, or of chunks apart
-- from them.
pub linked-kept :
    (w v : ℕ → ℕ) (a b d p : ℕ) (cs : List ℕ)
    → AreLinked w a cs b
    → v (next a) ≡ w (next a)
    → v (prev b) ≡ w (prev b)
    → ((x : ℕ) → x ≢ prev d → x ≢ next b → x ≢ prev p → x ≢ next p → v x ≡ w x)
    → IsApart d cs
    → IsApart b cs
    → IsApart p cs
    → AreLinked v a cs b
linked-kept w v a b d p [] (n, m) n_at m_at kept d_off b_off p_off = (n_at ∙ n, m_at ∙ m)
linked-kept w v a b d p (c ∷ cs) (n, m, rest) n_at m_at kept (d_c, d_off) (b_c, b_off)
      (p_c, p_off) =
    let c_next = kept (next c) (ground arith) (ground arith) (ground arith) (ground arith) in
    let c_prev = kept (prev c) (ground arith) (ground arith) (ground arith) (ground arith) in
    (n_at ∙ n, c_prev ∙ m, linked-kept w v c b d p cs rest c_next m_at kept d_off b_off p_off)

-- The memory after a chunk p is linked between c and d.
abbrev joined : (ℕ → ℕ) → ℕ → ℕ → ℕ → ℕ → ℕ
joined w p c d = write (write (write (write w (prev p) c) (next p) d) (prev d) p) (next c) p

link_after-IsRing :
    (w : ℕ → ℕ) (p c : ℕ) (cs : List ℕ)
    → IsRing w c cs
    → IsApart p (c ∷ cs)
    → AreApart (c ∷ cs)
    → IsRing (joined w p c (w (next c))) c (p ∷ cs)
link_after-IsRing w p c [] (n, m) (p_c, _) apart =
    (ground arith, ground arith, (ground arith, ground arith))
link_after-IsRing w p c (d ∷ cs) (n, m, rest) (p_c, (p_d, p_off)) ((c_d, c_off), (d_off, apart)) =
    let v = joined w p c (w (next c)) in
    (
      ground arith,
      ground arith,
      (
        ground arith,
        ground arith,
        linked-kept w v d c d p cs rest (ground arith) (ground arith) (λ x i j k l. ground arith)
            d_off c_off p_off,
      ),
    )

link_after-words :
    (h : Heap) (p c : ℕ)
    → h.word (next c) ≢ p
    → (p + 16 ≤ c) ⊎ (c + 16 ≤ p)
    → link_after h p c ≡ with_word h (joined h.word p c (h.word (next c)))
unfolding link_after
link_after-words h p c other off = ap (with_word h) (fun_ext (λ a. ground arith))

next_other :
    (w : ℕ → ℕ) (p c : ℕ) (cs : List ℕ) → IsRing w c cs → IsApart p (c ∷ cs) → w (next c) ≢ p
next_other w p c [] (n, m) (off, _) = ground arith
next_other w p c (d ∷ cs) (n, m, rest) (off, (d_off, _)) = ground arith

link_small-words :
    (h : Heap) (p s c : ℕ) (cs : List ℕ)
    → mm_get_csize h p ≡ s
    → h.sb (s / 8) ≡ c
    → 0 < c
    → IsRing h.word c cs
    → IsApart p (c ∷ cs)
    → mm_link_small h p ≡ with_word h (joined h.word p c (h.word (next c)))
unfolding mm_link_small
link_small-words h p s c cs at bin some_c ring off =
    let found : (c == 0) ≡ false = ground arith in
    rw (at, bin, found) (link_after-words h p c (next_other h.word p c cs ring off) off.0)

-- mm_link_small of a chunk of s bytes whose bin has the ring of c: the chunk is behind c in the ring, and c stays the
-- chunk of the bin.
pub link_small-IsRing :
    (h : Heap) (p s c : ℕ) (cs : List ℕ)
    → mm_get_csize h p ≡ s
    → h.sb (s / 8) ≡ c
    → 0 < c
    → IsRing h.word c cs
    → IsApart p (c ∷ cs)
    → AreApart (c ∷ cs)
    → IsRing (mm_link_small h p).word c (p ∷ cs) × ((mm_link_small h p).sb ≡ h.sb)
link_small-IsRing h p s c cs at bin some_c ring off apart =
    let words = link_small-words h p s c cs at bin some_c ring off in
    (
      subst (λ (g : Heap). IsRing g.word c (p ∷ cs)) (sym words)
          (link_after-IsRing h.word p c cs ring off apart),
      ap (λ (g : Heap). g.sb) words,
    )
