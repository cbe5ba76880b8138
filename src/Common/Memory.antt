-- ===== src/Common/Memory.antt =====
-- A block of memory as the list of its bytes. `none` is an access outside the block.
use nkos.Common.{
  get_elem?-take, subst, ◌∙◌, get_elem?-append_left, get_elem?-append_right, get_elem?, refl,
  length-drop, length-append, length-take, length-replicate, none, true, lt→ltb, arith, set, drop,
  replicate, ◌&&◌, ◌≡◌, length, ltb, ◌++◌, leb, ◌≤◌, ◌+◌, ◌<◌, some, if◌then◌else◌, take, List,
  Option, ℕ,
}

infixl 5 ◌>>=◌
abbrev pub ◌>>=◌ {ℓ κ} : {A : Type ℓ} {B : Type κ} → Option A → (A → Option B) → Option B
none >>= f = none
some a >>= f = f a

module _ {ℓ} {A : Type ℓ} where
  -- a[i] = v
  unfoldable pub store : List A → ℕ → A → Option (List A)
  store a i v = if ltb i (length a) then some (set a i v) else none

  -- The bytes from o on replaced.
  abbrev pub overwrite : List A → ℕ → List A → List A
  overwrite a o bytes = take o a ++ (bytes ++ drop (o + length bytes) a)

  -- memmove(a + dst, a + src, n)
  unfoldable pub memmove : List A → ℕ → ℕ → ℕ → Option (List A)
  memmove a dst src n =
      if leb (dst + n) (length a) && leb (src + n) (length a)
      then some (overwrite a dst (take n (drop src a)))
      else none

  -- memset(a + o, v, n)
  unfoldable pub memset : List A → ℕ → A → ℕ → Option (List A)
  memset a o v n = if leb (o + n) (length a) then some (overwrite a o (replicate n v)) else none

module _ {ℓ} {A : Type ℓ} where
  pub length-overwrite :
      (a : List A) (o : ℕ) (bytes : List A)
      → o + length bytes ≤ length a
      → length (overwrite a o bytes) ≡ length a
  length-overwrite a o bytes h = omega (
    arith,
    length-append (take o a) (bytes ++ drop (o + length bytes) a),
    length-append bytes (drop (o + length bytes) a),
    length-take o a,
    length-drop (o + length bytes) a,
  )

  pub store-ok : (a : List A) (i : ℕ) (v : A) → i < length a → store a i v ≡ some (set a i v)
  unfolding store
  store-ok a i v h = rw (lt→ltb i (length a) h)

  pub memmove-ok :
      (a : List A) (dst src n : ℕ)
      → dst + n ≤ length a
      → src + n ≤ length a
      → (b : List A) × (memmove a dst src n ≡ some b)
        × (length b ≡ length a)
        × (b ≡ overwrite a dst (take n (drop src a)))
  unfolding memmove
  memmove-ok a dst src n h k =
      let inside : (leb (dst + n) (length a) && leb (src + n) (length a)) ≡ true = ground arith in
      (
        overwrite a dst (take n (drop src a)),
        rw inside,
        length-overwrite a dst _ (omega (arith, length-take n (drop src a), length-drop src a)),
        refl,
      )

  pub memset-ok :
      (a : List A) (o : ℕ) (v : A) (n : ℕ)
      → o + n ≤ length a
      → (b : List A) × (memset a o v n ≡ some b)
        × (length b ≡ length a)
        × (b ≡ overwrite a o (replicate n v))
  unfolding memset
  memset-ok a o v n h =
      let inside : leb (o + n) (length a) ≡ true = ground arith in
      (
        overwrite a o (replicate n v),
        rw inside,
        length-overwrite a o _ (omega (arith, length-replicate n v)),
        refl,
      )

  pub get_elem?-overwrite_in :
      (a : List A) (o : ℕ) (bytes : List A) (i : ℕ)
      → o ≤ length a
      → i < length bytes
      → get_elem? (overwrite a o bytes) (o + i) ≡ get_elem? bytes i
  get_elem?-overwrite_in a o bytes i h k =
      let rest = bytes ++ drop (o + length bytes) a in
      let len : length (take o a) ≡ o = omega (arith, length-take o a) in
      let skip = get_elem?-append_right (take o a) rest i in
      subst (λ n. get_elem? (take o a ++ rest) (n + i) ≡ get_elem? rest i) len skip
      ∙ get_elem?-append_left bytes (drop (o + length bytes) a) i k

  pub get_elem?-overwrite_below :
      (a : List A) (o : ℕ) (bytes : List A) (i : ℕ)
      → o ≤ length a
      → i < o
      → get_elem? (overwrite a o bytes) i ≡ get_elem? a i
  get_elem?-overwrite_below a o bytes i h k =
      get_elem?-append_left (take o a) (bytes ++ drop (o + length bytes) a) i
        (omega (arith, length-take o a))
      ∙ get_elem?-take o a i k
