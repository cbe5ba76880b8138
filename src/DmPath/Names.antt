-- ===== src/DmPath/Names.antt =====
-- What a path means: the names between its separators.
use nkos.Common.{
  ◌≤◌, drop, take, some, ◌∙◌, Option, suc, inr, arith, refl, inl, ap, false, length, Bool-cases, [],
  none, if◌then◌else◌, ◌++◌, ◌==◌, All, ◌≡◌, ◌+◌, ◌∷◌, List, ℕ,
}
use nkos.DmPath.{skip_from, strchr, later, end_of}

-- The bytes cut at every separator.
abbrev pub prefix : ℕ → List (List ℕ) → List (List ℕ)
prefix c [] = (c ∷ []) ∷ []
prefix c (w ∷ ws) = (c ∷ w) ∷ ws

abbrev pub split : List ℕ → List (List ℕ)
split [] = [] ∷ []
split (c ∷ cs) = let rest = split cs in if c == b'/' then [] ∷ rest else prefix c rest

abbrev pub nonempty : List (List ℕ) → List (List ℕ)
nonempty [] = []
nonempty ([] ∷ ws) = nonempty ws
nonempty ((c ∷ w) ∷ ws) = (c ∷ w) ∷ nonempty ws

-- The names of a path.
abbrev pub names : List ℕ → List (List ℕ)
names cs = nonempty (split cs)

-- The first name, where the path starts with one, and what follows it.
abbrev pub word : List ℕ → List ℕ
word [] = []
word (c ∷ cs) = let rest = word cs in if c == b'/' then [] else c ∷ rest

abbrev pub after : List ℕ → List ℕ
after [] = []
after (c ∷ cs) = let rest = after cs in if c == b'/' then c ∷ cs else rest

abbrev pub skip : List ℕ → List ℕ
skip [] = []
skip (c ∷ cs) = let rest = skip cs in if c == b'/' then rest else c ∷ cs

-- Nothing that `strchr` could stop at.
abbrev pub IsNoSlash : List ℕ → Type 0
IsNoSlash = All (λ c. (c == b'/') ≡ false)

pub names-skip : (cs : List ℕ) → names (skip cs) ≡ names cs
names-skip [] = refl
names-skip (c ∷ cs) = elim (Bool-cases (c == b'/')) [
  | inl e ↦ rw e (names-skip cs)
  | inr e ↦ rw e (rw e refl)
]

-- The words behind the first one.
abbrev others : List ℕ → List (List ℕ)
others [] = []
others (c ∷ cs) = split cs

split-word : (cs : List ℕ) → split cs ≡ word cs ∷ others (after cs)
split-word [] = refl
split-word (c ∷ cs) = elim (Bool-cases (c == b'/')) [
  | inl e ↦ rw e refl
  | inr e ↦ rw e (rw (split-word cs) refl)
]

nonempty-others : (cs : List ℕ) → nonempty (others (after cs)) ≡ names (after cs)
nonempty-others [] = refl
nonempty-others (c ∷ cs) = elim (Bool-cases (c == b'/')) [
  | inl e ↦ rw e (rw e refl)
  | inr e ↦ rw e (nonempty-others cs)
]

-- A path that starts with a name.
pub names-word :
    (c : ℕ) (cs : List ℕ)
    → (c == b'/') ≡ false
    → names (c ∷ cs) ≡ word (c ∷ cs) ∷ names (after (c ∷ cs))
names-word c cs e = rw e (rw (split-word cs) (ap (λ ws. (c ∷ word cs) ∷ ws) (nonempty-others cs)))

pub word-after : (cs : List ℕ) → word cs ++ after cs ≡ cs
word-after [] = refl
word-after (c ∷ cs) = elim (Bool-cases (c == b'/')) [
  | inl e ↦ rw e refl
  | inr e ↦ rw e (ap (λ ds. c ∷ ds) (word-after cs))
]

pub skip_from-drop : (cs : List ℕ) (s : ℕ) → (skip_from cs s + length (skip cs) ≡ s + length cs)
unfolding skip_from
skip_from-drop [] s = refl
skip_from-drop (c ∷ cs) s = elim (Bool-cases (c == b'/')) [
  | inl e ↦ rw e (omega (arith, skip_from-drop cs (suc s)))
  | inr e ↦ rw e refl
]

strchr-none : (tail : List ℕ) → IsNoSlash tail → strchr tail ≡ none
unfolding strchr
strchr-none [] h = refl
strchr-none (c ∷ tail) h = rw (strchr-none tail h.1, h.0) refl

end_of-later : (s n : ℕ) (o : Option ℕ) → end_of s n (later o) ≡ end_of (suc s) n o
end_of-later s n none = refl
end_of-later s n (some k) = omega arith

-- The end of the name that starts at s, for a text that ends at n.
pub end_of-word :
    (s n : ℕ) (cs tail : List ℕ)
    → n ≡ s + length cs
    → IsNoSlash tail
    → end_of s n (strchr (cs ++ tail)) ≡ s + length (word cs)
unfolding strchr
end_of-word s n [] tail e h = rw (strchr-none tail h) e
end_of-word s n (c ∷ cs) tail e h = elim (Bool-cases (c == b'/')) [
  | inl slash ↦ rw slash (omega arith)
  | inr other ↦
      let rest = end_of-word (suc s) n cs tail (omega arith) h in
      rw other (end_of-later s n (strchr (cs ++ tail)) ∙ rest ∙ omega arith)
]

pub take-word : (cs : List ℕ) → take (length (word cs)) cs ≡ word cs
take-word [] = refl
take-word (c ∷ cs) = elim (Bool-cases (c == b'/')) [
  | inl e ↦ rw e refl
  | inr e ↦ rw e (ap (λ ds. c ∷ ds) (take-word cs))
]

pub drop-word : (cs : List ℕ) → drop (length (word cs)) cs ≡ after cs
drop-word [] = refl
drop-word (c ∷ cs) = elim (Bool-cases (c == b'/')) [
  | inl e ↦ rw e refl
  | inr e ↦ rw e (drop-word cs)
]

pub skip-skip : (cs : List ℕ) → skip (skip cs) ≡ skip cs
skip-skip [] = refl
skip-skip (c ∷ cs) = elim (Bool-cases (c == b'/')) [
  | inl e ↦ rw e (skip-skip cs)
  | inr e ↦ rw e (rw e refl)
]

-- The `while` passes over what `skip` drops.
pub skip_from-skip :
    (cs : List ℕ) (s : ℕ)
    → (k : ℕ) × (skip_from cs s ≡ s + k) × (skip cs ≡ drop k cs) × (k ≤ length cs)
unfolding skip_from
skip_from-skip [] s = (0, omega arith, refl, omega arith)
skip_from-skip (c ∷ cs) s = elim (Bool-cases (c == b'/')) [
  | inl e ↦
      let (k, a, d, le) = skip_from-skip cs (suc s) in
      (suc k, rw e (omega arith), rw e d, omega arith)
  | inr e ↦ (0, rw e (omega arith), rw e refl, omega arith)
]

nonempty-append : (vs ws : List (List ℕ)) → nonempty (vs ++ ws) ≡ nonempty vs ++ nonempty ws
nonempty-append [] ws = refl
nonempty-append ([] ∷ vs) ws = nonempty-append vs ws
nonempty-append ((c ∷ v) ∷ vs) ws = ap (λ us. (c ∷ v) ∷ us) (nonempty-append vs ws)

split-slash : (xs ys : List ℕ) → split (xs ++ b'/' ∷ ys) ≡ split xs ++ split ys
split-slash [] ys = refl
split-slash (c ∷ xs) ys = elim (Bool-cases (c == b'/')) [
  | inl e ↦ rw e (ap (λ ws. [] ∷ ws) (split-slash xs ys))
  | inr e ↦ rw e (rw (split-slash xs ys) (rw (split-word xs) refl))
]

-- A separator between two paths.
pub names-slash : (xs ys : List ℕ) → names (xs ++ b'/' ∷ ys) ≡ names xs ++ names ys
names-slash xs ys = ap nonempty (split-slash xs ys) ∙ nonempty-append (split xs) (split ys)
