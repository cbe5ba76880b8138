-- ===== src/DmPath/Prepend.antt =====
-- Theorems on `dm_path_create` and `dm_path_prepend`.
use mathlib.Core.List.{[], List, append_assoc, append-nil}
use nkos.Common.{
  sym, subst, [], length, drop, take, length-append, length-drop, length-take, some, true, suc,
  zero, inl, inr, ◌<◌, refl, ◌-◌, ◌+◌, ◌∙◌, ==_iff, leb, arith, ap, Bool-cases, ◌∷◌, ◌≡◌, ◌==◌,
  ◌++◌, ℕ,
}
use nkos.Common.Memory.{overwrite, length-overwrite}
use nkos.DmPath.{DmPath, dm_path_next, dm_path_create, dm_path_prepend, with_separator, last_of}
use nkos.DmPath.Names.{names, IsNoSlash, names-slash}
use nkos.DmPath.Walk.{IsPath, restart-IsPath, walk, walk-names}

next-n : (tail : List ℕ) (path : DmPath) → (dm_path_next tail path).n ≡ path.n
unfolding dm_path_next
next-n tail path = elim (Bool-cases (path.s == path.n)) [ inl e ↦ rw e refl | inr e ↦ rw e refl ]

-- A path made from a file name: it is at the start of its first name, and the caller reads exactly
-- the names of the file name, where malloc succeeds and no separator stands behind the path.
pub dm_path_create-names :
    (tail filename : List ℕ)
    → IsNoSlash tail
    → (path : DmPath) × (dm_path_create true tail filename ≡ some path)
      × IsPath path
      × (walk (suc (length filename)) tail path ≡ names filename)
unfolding dm_path_create
dm_path_create-names tail filename h =
    let start : DmPath = record { s = 0; p = 0; n = length filename; text = filename } in
    let (ok, same) = restart-IsPath tail start h refl (omega arith) refl in
    let path = dm_path_next tail start in
    (
      path,
      refl,
      ok,
      walk-names (suc (length filename)) tail path h ok (omega (arith, next-n tail start)) ∙ same,
    )

-- A name that ends in a separator.
ends-slash :
    (c : ℕ) (name : List ℕ)
    → (last_of c name == b'/') ≡ true
    → (xs : List ℕ) × (c ∷ name ≡ xs ++ b'/' ∷ [])
unfolding last_of
ends-slash c [] e = ([], ap (λ d. d ∷ []) ((==_iff c b'/').0 e))
ends-slash c (d ∷ name) e = let (xs, f) = ends-slash d name e in (c ∷ xs, ap (λ ds. c ∷ ds) f)

slash-end-names :
    (xs rest : List ℕ) → names ((xs ++ b'/' ∷ []) ++ rest) ≡ names (xs ++ b'/' ∷ []) ++ names rest
slash-end-names xs rest =
    ap names (append_assoc xs (b'/' ∷ []) rest)
    ∙ names-slash xs rest
    ∙ ap (λ ws. ws ++ names rest) (sym (names-slash xs [] ∙ append-nil (names xs)))

with_separator-names :
    (name rest : List ℕ) → names (with_separator name ++ rest) ≡ names name ++ names rest
unfolding with_separator
with_separator-names [] rest = refl
with_separator-names (c ∷ name) rest = elim (Bool-cases (last_of c name == b'/')) [
  | inl e ↦
      let (xs, f) = ends-slash c name e in
      rw e (
        subst (λ ds. names (ds ++ rest) ≡ names ds ++ names rest) (sym f) (slash-end-names xs rest))
  | inr e ↦ rw e (ap names (append_assoc (c ∷ name) (b'/' ∷ []) rest) ∙ names-slash (c ∷ name) rest)
]

drop-append : (xs ys : List ℕ) (k : ℕ) → length xs ≡ k → drop k (xs ++ ys) ≡ ys
drop-append [] ys zero e = refl
drop-append [] ys (suc k) e = absurd (omega arith)
drop-append (x ∷ xs) ys zero e = absurd (omega arith)
drop-append (x ∷ xs) ys (suc k) e = drop-append xs ys k (omega arith)

-- A path before another: where malloc succeeds and no separator stands behind the path, the result
-- is at the start of its first name, and the names to read are those of the name that was put before
-- it and then those that were left, whether the path is copied or written over in its place.
pub dm_path_prepend-names :
    (tail : List ℕ) (path : DmPath) (name : List ℕ)
    → IsNoSlash tail
    → IsPath path
    → (new : DmPath) × (dm_path_prepend true tail path name ≡ some new)
      × IsPath new
      × (names (drop new.s new.text) ≡ names name ++ names (drop path.s path.text))
unfolding dm_path_prepend
dm_path_prepend-names tail path name h ok =
    let front = with_separator name in
    let l = length front in
    let rest = drop path.s path.text in
    let size = length-drop path.s path.text in
    let fit = ok.begun in
    let len = ok.long in
    elim (Bool-cases (leb path.s l)) [
      | inl copy ↦
          let start : DmPath = record {
            s = 0;
            p = 0;
            n = l + path.n - path.s;
            text = front ++ rest;
          } in
          let (ok', same) =
            restart-IsPath tail start h (omega (arith, length-append front rest)) (omega arith)
              refl in
          (dm_path_next tail start, rw copy refl, ok', same ∙ with_separator-names name rest)
      | inr place ↦
          let o = path.s - l in
          let start : DmPath = record {
            s = o;
            p = o;
            n = path.n;
            text = overwrite path.text o front;
          } in
          let less : l < path.s = ground arith in
          let behind : drop (o + l) path.text ≡ rest =
            ap (λ k. drop k path.text) (let e : o + l ≡ path.s = omega arith in e) in
          let view : drop o (overwrite path.text o front) ≡ front ++ rest =
            drop-append (take o path.text) (front ++ drop (o + l) path.text) o
              (omega (arith, length-take o path.text))
            ∙ ap (λ ds. front ++ ds) behind in
          let (ok', same) =
            restart-IsPath tail start h (length-overwrite path.text o front (omega arith) ∙ len)
              (omega arith) refl in
          (
            dm_path_next tail start,
            rw place refl,
            ok',
            same ∙ ap names view ∙ with_separator-names name rest,
          )
    ]
