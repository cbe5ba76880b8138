-- ===== src/DmPath/Walk.antt =====
-- Theorems on paths: what `dm_path_next` goes through, and what `dm_path_prepend` puts before it.
use nkos.Common.{
  ◌-◌, length-append, if◌then◌else◌, ltb, ◌<◌, [], zero, refl, length-drop, ◌∷◌, inl, sym, ◌∙◌, suc,
  inr, arith, false, Bool-cases, ap, ◌==◌, ◌≤◌, ◌+◌, ◌≡◌, drop, List, length, ℕ,
}
use nkos.DmPath.{DmPath, dm_path_next, dm_path_name, dm_path_hasnext}
use nkos.DmPath.Names.{
  word-after, names, word, after, skip, IsNoSlash, names-skip, names-word, end_of-word, take-word,
  drop-word, skip-skip, skip_from-skip,
}

-- The current name starts at s, with no separator before it, and ends at p.
pub record IsPath (path : DmPath) : Type 0 where
  pub long : length path.text ≡ path.n
  pub begun : path.s ≤ path.n
  pub ended : path.p ≡ path.s + length (word (drop path.s path.text))
  pub clear : skip (drop path.s path.text) ≡ drop path.s path.text

drop-nil : (n : ℕ) → drop {A = ℕ} n [] ≡ []
drop-nil zero = refl
drop-nil (suc n) = refl

drop-drop : (m n : ℕ) (cs : List ℕ) → drop n (drop m cs) ≡ drop (m + n) cs
drop-drop zero n cs = let e : n ≡ 0 + n = omega arith in ap (λ k. drop k cs) e
drop-drop (suc m) n [] = drop-nil n ∙ sym (drop-nil (suc m + n))
drop-drop (suc m) n (c ∷ cs) =
    let e : suc (m + n) ≡ suc m + n = omega arith in drop-drop m n cs ∙ ap (λ k. drop k (c ∷ cs)) e

length-nil : (cs : List ℕ) → length cs ≡ 0 → cs ≡ []
length-nil [] e = refl
length-nil (c ∷ cs) e = absurd (omega arith)

-- One step from a path that is not at its end.
step-IsPath :
    (tail : List ℕ) (path : DmPath)
    → IsNoSlash tail
    → length path.text ≡ path.n
    → path.p ≤ path.n
    → (path.s == path.n) ≡ false
    → IsPath (dm_path_next tail path)
      × (drop (dm_path_next tail path).s (dm_path_next tail path).text
          ≡ skip (drop path.p path.text))
      × (path.p ≤ (dm_path_next tail path).s)
      × ((dm_path_next tail path).n ≡ path.n)
unfolding dm_path_next
step-IsPath tail path h len le more =
    let rest = drop path.p path.text in
    let (k, a, d, small) = skip_from-skip rest path.p in
    let at : drop (path.p + k) path.text ≡ skip rest = sym (drop-drop path.p k path.text) ∙ sym d in
    let size = length-drop path.p path.text in
    let left = length-drop (path.p + k) path.text in
    let stop = end_of-word (path.p + k) path.n (drop (path.p + k) path.text) tail (omega arith) h in
    rw (more, a)
      (
        record {
          long = len;
          begun = omega arith;
          ended = stop;
          clear = ap skip at ∙ skip-skip rest ∙ sym at;
        },
        at,
        omega arith,
        refl,
      )

-- A path whose first name is still to be found.
pub restart-IsPath :
    (tail : List ℕ) (path : DmPath)
    → IsNoSlash tail
    → length path.text ≡ path.n
    → path.p ≤ path.n
    → path.s ≡ path.p
    → IsPath (dm_path_next tail path)
      × (names (drop (dm_path_next tail path).s (dm_path_next tail path).text)
          ≡ names (drop path.p path.text))
unfolding dm_path_next
restart-IsPath tail path h len le e = elim (Bool-cases (path.s == path.n)) [
  | inr more ↦
      let (ok, at, _, _) = step-IsPath tail path h len le more in
      (ok, ap names at ∙ names-skip (drop path.p path.text))
  | inl last ↦
      let size = length-drop path.s path.text in
      let empty : drop path.s path.text ≡ [] = length-nil (drop path.s path.text) (ground arith) in
      rw last (
        record {
          long = len;
          begun = ground arith;
          ended = rw empty (omega arith);
          clear = rw empty refl;
        },
        ap (λ k. names (drop k path.text)) e,
      )
]

skip-fixed : (c : ℕ) (ds : List ℕ) → skip (c ∷ ds) ≡ c ∷ ds → (c == b'/') ≡ false
skip-fixed c ds e = elim (Bool-cases (c == b'/')) [
  | inr other ↦ other
  | inl slash ↦
      let (k, _, d, _) = skip_from-skip ds 0 in
      let shorter : drop k ds ≡ c ∷ ds = sym d ∙ rw slash at e in
      let size = ap length shorter in absurd (omega (arith, length-drop k ds))
]

names-start :
    (cs : List ℕ)
    → 0 < length cs
    → skip cs ≡ cs
    → (names cs ≡ word cs ∷ names (after cs)) × (0 < length (word cs))
names-start [] h e = absurd (omega arith)
names-start (c ∷ cs) h e =
    let other = skip-fixed c cs e in (names-word c cs other, rw other (omega arith))

-- The names that a caller reads with `dm_path_name` and `dm_path_next`, as long as `dm_path_hasnext`
-- holds, with fuel.
unfoldable pub walk : ℕ → List ℕ → DmPath → List (List ℕ)
walk zero tail path = []
walk (suc k) tail path =
    let rest = walk k tail (dm_path_next tail path) in
    if dm_path_hasnext path then dm_path_name path ∷ rest else []

-- From a path at the start of a name, the caller reads exactly the names that are left, each once and
-- in order, where no separator stands in memory between the path and the next NUL. Fuel above the
-- number of bytes left is enough.
pub walk-names :
    (k : ℕ) (tail : List ℕ) (path : DmPath)
    → IsNoSlash tail
    → IsPath path
    → path.n < path.s + k
    → walk k tail path ≡ names (drop path.s path.text)
unfolding walk dm_path_hasnext dm_path_name
walk-names zero tail path h ok lt = absurd (omega (arith, ok.begun))
walk-names (suc k) tail path h ok lt =
    let rest = drop path.s path.text in
    let size = length-drop path.s path.text in
    let fit = ok.begun in
    let len = ok.long in
    elim (Bool-cases (ltb path.s path.n)) [
      | inr last ↦ let empty : rest ≡ [] = length-nil rest (ground arith) in rw (last, empty) refl
      | inl more ↦
          let (first, pos) = names-start rest (ground arith) ok.clear in
          let bound = length-append (word rest) (after rest) in
          let whole = ap length (word-after rest) in
          let p = ok.ended in
          let here : path.p - path.s ≡ length (word rest) = omega arith in
          let differ : (path.s == path.n) ≡ false = ground arith in
          let (ok', at, grown, same) = step-IsPath tail path h len (omega arith) differ in
          let behind : drop path.p path.text ≡ after rest =
            ap (λ q. drop q path.text) p
            ∙ sym (drop-drop path.s (length (word rest)) path.text)
            ∙ drop-word rest in
          let tl : walk k tail (dm_path_next tail path) ≡ names (after rest) =
            walk-names k tail (dm_path_next tail path) h ok' (omega arith)
            ∙ ap names at
            ∙ names-skip (drop path.p path.text)
            ∙ ap names behind in
          rw (more, here, tl, take-word rest) (sym first)
    ]
