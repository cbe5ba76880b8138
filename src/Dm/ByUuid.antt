-- ===== src/Dm/ByUuid.antt =====
-- Theorems on the search by UUID of `dm_file_open` of loader/krn/dm.c.
use nkos.Common.{
  none, Bool, length-append, All-append, replicate, Option-cases, ℕ, zero, suc, ◌+◌, ◌*◌, ◌≡◌, ◌<◌,
  ◌∙◌, ap, refl, inl, inr, true, false, ◌||◌, Option, some, List, [], ◌∷◌, ◌++◌, ◌==◌,
  if◌then◌else◌, length, All, Bool-cases, arith,
}
use mathlib.Core.List.{append_assoc}
use mathlib.Core.Path.{ap₂}
use nkos.DmPath.{skip_from, DmPath, dm_path_create, dm_path_next, strchr}
use nkos.Uuid.{
  einval, parsed, uuid_parse, parse_from, uuid_unparse, unparse_from, nibble_digit, is_dash,
  digit_value, put_nibble,
}
use nkos.Uuid.RoundTrip.{uuid_parse-unparse}
use nkos.Dm.Ring.{Dm, DmDev, IsFirstDev, IsFirstTest, IsFirstTest-IsFirstDev}
use nkos.Dm.Open.{
  open_path, find_by_uuid, has_uuid, uuid_compare, by_uuid, find_device, device, dm_file_open,
  open_device,
}

find_by_uuid-IsFirstTest :
    (devs : List DmDev) (uuid : List ℕ) → IsFirstTest (has_uuid uuid) devs (find_by_uuid devs uuid)
unfolding find_by_uuid
find_by_uuid-IsFirstTest [] uuid = refl
find_by_uuid-IsFirstTest (dev ∷ devs) uuid = elim (Bool-cases (has_uuid uuid dev)) [
  | inl t ↦ inl (t, rw t refl)
  | inr t ↦ inr (t, rw t (find_by_uuid-IsFirstTest devs uuid))
]

-- The method get_uuid of the device gives these bytes.
abbrev pub HasUuid : List ℕ → DmDev → Type 0
HasUuid uuid dev = dev.uuid ≡ some uuid

uuid_compare-same : (a b : List ℕ) → uuid_compare a b ≡ true → a ≡ b
unfolding uuid_compare
uuid_compare-same [] [] h = refl
uuid_compare-same [] (y ∷ b) h = cc
uuid_compare-same (x ∷ a) [] h = cc
uuid_compare-same (x ∷ a) (y ∷ b) h =
    let first : x ≡ y = ground arith in
    let rest : uuid_compare a b ≡ true = ground arith in
    ap₂ (λ z l. z ∷ l) first (uuid_compare-same a b rest)

uuid_compare_refl : (a : List ℕ) → uuid_compare a a ≡ true
unfolding uuid_compare
uuid_compare_refl [] = refl
uuid_compare_refl (x ∷ a) = let same = uuid_compare_refl a in ground arith

has_uuid-HasUuid :
    (uuid : List ℕ) (name : Option (List ℕ)) (fs : Bool) (own : Option (List ℕ))
    → (has_uuid uuid (record { name = name; is_fs = fs; uuid = own }) ≡ true → own ≡ some uuid)
      × (has_uuid uuid (record { name = name; is_fs = fs; uuid = own }) ≡ false
          → ¬ (own ≡ some uuid))
has_uuid-HasUuid uuid name fs none = (λ h. cc, λ h is. cc)
has_uuid-HasUuid uuid name fs (some own) = (
  λ h. ap some (uuid_compare-same own uuid h),
  λ h is.
      let own_same : own ≡ uuid = cc in
      let start = ap (λ l. uuid_compare l uuid) own_same ∙ uuid_compare_refl uuid in cc,
)

find_by_uuid-IsFirstDev :
    (devs : List DmDev) (uuid : List ℕ) → IsFirstDev (HasUuid uuid) devs (find_by_uuid devs uuid)
find_by_uuid-IsFirstDev devs uuid =
    IsFirstTest-IsFirstDev (has_uuid uuid) (HasUuid uuid)
      (λ d. (has_uuid-HasUuid uuid d.name d.is_fs d.uuid).0)
      (λ d. (has_uuid-HasUuid uuid d.name d.is_fs d.uuid).1) devs (find_by_uuid devs uuid)
      (find_by_uuid-IsFirstTest devs uuid)

-- What is read behind the 36 characters does not matter.
parse_from-behind :
    (k : ℕ) (cs rest : List ℕ) (i j : ℕ) (uu vv : List ℕ)
    → parse_from k cs i j uu ≡ parsed vv
    → parse_from k (cs ++ rest) i j uu ≡ parsed vv
unfolding parse_from
parse_from-behind zero cs rest i j uu vv e = e
parse_from-behind (suc k) [] rest i j uu vv e = cc
parse_from-behind (suc k) (c ∷ cs) rest i j uu vv e = elim (Bool-cases (is_dash i)) [
  | inl t ↦ elim (Bool-cases (c == b'-')) [
    | inl d ↦
        rw (t, d, parse_from)
          (parse_from-behind k cs rest (suc i) j uu vv (rw (t, d, parse_from) at e))
    | inr d ↦ let no : einval uu ≡ parsed vv = rw (t, d, parse_from) at e in cc
  ]
  | inr t ↦ elim (Option-cases (digit_value c)) [
    | inl d ↦ let no : einval uu ≡ parsed vv = rw (t, d, parse_from) at e in cc
    | inr (v, d) ↦
        rw (t, d, parse_from)
          (parse_from-behind k cs rest (suc i) (suc j) (put_nibble uu j v) vv
            (rw (t, d, parse_from) at e))
  ]
]

dashes : ℕ → ℕ → ℕ
dashes i zero = 0
dashes i (suc n) =
    let rest = dashes (suc i) n in
    if i == 3 || (i == 5 || (i == 7 || i == 9)) then suc rest else rest

dashes_16 : dashes 0 16 ≡ 4
unfolding dashes
dashes_16 = refl

length-unparse_from :
    (i : ℕ) (uu : List ℕ) → length (unparse_from i uu) ≡ 2 * length uu + dashes i (length uu)
unfolding unparse_from dashes
length-unparse_from i [] = refl
length-unparse_from i (v ∷ uu) =
    let rest = length-unparse_from (suc i) uu in
    elim (Bool-cases (i == 3 || (i == 5 || (i == 7 || i == 9)))) [
      | inl t ↦ rw t (omega (arith, rest))
      | inr t ↦ rw t (omega (arith, rest))
    ]

-- A separator is found behind bytes with none.
strchr_behind :
    (a b : List ℕ) → All (λ c. (c == b'/') ≡ false) a → strchr (a ++ b'/' ∷ b) ≡ some (length a)
unfolding strchr
strchr_behind [] b h = refl
strchr_behind (c ∷ a) b h = rw (h.0, strchr_behind a b h.1) refl

unparse_from-no_slash :
    (i : ℕ) (uu : List ℕ)
    → All (λ v. v < 256) uu
    → All (λ c. (c == b'/') ≡ false) (unparse_from i uu)
unfolding unparse_from nibble_digit
unparse_from-no_slash i [] h = tt
unparse_from-no_slash i (v ∷ uu) (byte, h) =
    let rest = unparse_from-no_slash (suc i) uu h in
    elim (Bool-cases (i == 3 || (i == 5 || (i == 7 || i == 9)))) [
      | inl t ↦ rw t (ground arith, (ground arith, (refl, rest)))
      | inr t ↦ rw t (ground arith, (ground arith, rest))
    ]

uuid_parse-behind :
    (uu rest : List ℕ)
    → length uu ≡ 16
    → All (λ v. v < 256) uu
    → uuid_parse (uuid_unparse uu ++ rest) ≡ parsed uu
unfolding uuid_parse
uuid_parse-behind uu rest len bytes =
    parse_from-behind 36 (uuid_unparse uu) rest 0 0 (replicate 16 0) uu
      (uuid_parse-unparse uu len bytes)

by_uuid-unparse :
    (dm : Dm) (uu rest : List ℕ)
    → length uu ≡ 16
    → All (λ v. v < 256) uu
    → by_uuid dm (uuid_unparse uu ++ rest) ≡ device (find_by_uuid dm.mnt uu)
unfolding by_uuid
by_uuid-unparse dm uu rest len bytes = rw (uuid_parse-behind uu rest len bytes, by_uuid) refl

-- A name of 38 bytes that holds a UUID behind the first one, a brace, and before the last one.
abbrev pub braced : List ℕ → ℕ → List ℕ
braced uu c = b'{' ∷ (uuid_unparse uu ++ c ∷ [])

length-braced : (uu : List ℕ) (c : ℕ) → length uu ≡ 16 → length (braced uu c) ≡ 38
unfolding uuid_unparse
length-braced uu c len =
    let text = length-unparse_from 0 uu in
    let marks : dashes 0 (length uu) ≡ 4 = ap (dashes 0) len ∙ dashes_16 in
    omega (arith, text, marks, length-append (unparse_from 0 uu) (c ∷ []))

-- The path of a file name that begins with such a name.
abbrev pub braced_path : List ℕ → DmPath
braced_path filename = record { s = 0; p = 38; n = length filename; text = filename }

braced-strchr :
    (uu : List ℕ) (c : ℕ) (rest tail : List ℕ)
    → length uu ≡ 16
    → All (λ v. v < 256) uu
    → (c == b'/') ≡ false
    → strchr ((braced uu c ++ b'/' ∷ rest) ++ tail) ≡ some 38
unfolding uuid_unparse
braced-strchr uu c rest tail len bytes other =
    let text_no_slash = unparse_from-no_slash 0 uu bytes in
    let inside =
      All-append (λ c. (c == b'/') ≡ false) (unparse_from 0 uu) (c ∷ []) text_no_slash
        (other, tt) in
    let no_slash : All (λ c. (c == b'/') ≡ false) (braced uu c) = (refl, inside) in
    ap strchr (append_assoc (braced uu c) (b'/' ∷ rest) tail)
    ∙ strchr_behind (braced uu c) (rest ++ tail) no_slash
    ∙ ap some (length-braced uu c len)

create-braced :
    (tail uu : List ℕ) (c : ℕ) (rest : List ℕ)
    → length uu ≡ 16
    → All (λ v. v < 256) uu
    → (c == b'/') ≡ false
    → dm_path_create true tail (braced uu c ++ b'/' ∷ rest)
      ≡ some (braced_path (braced uu c ++ b'/' ∷ rest))
unfolding dm_path_create dm_path_next skip_from
create-braced tail uu c rest len bytes other =
    let at = braced-strchr uu c rest tail len bytes other in
    let some_bytes : (0 == length (braced uu c ++ b'/' ∷ rest)) ≡ false = ground arith in
    rw (at, some_bytes) refl

find_device-braced :
    (dm : Dm) (tail uu : List ℕ) (c : ℕ) (rest : List ℕ)
    → length uu ≡ 16
    → All (λ v. v < 256) uu
    → find_device dm tail (braced_path (braced uu c ++ b'/' ∷ rest))
      ≡ device (find_by_uuid dm.mnt uu)
unfolding find_device
find_device-braced dm tail uu c rest len bytes =
    let text = uuid_unparse uu in
    let last = c ∷ [] in
    let slash = b'/' ∷ rest in
    ap (λ l. by_uuid dm (l ++ tail)) (append_assoc text last slash)
    ∙ ap (by_uuid dm) (append_assoc text (last ++ slash) tail)
    ∙ by_uuid-unparse dm uu ((last ++ slash) ++ tail) len bytes

-- `dm_file_open` of a file name that begins with a brace, the text that `uuid_unparse` makes of 16 bytes, one more
-- character, which need not be a brace but is no separator, and a separator, where malloc succeeds: the device is the first
-- of the mounted ones that has these bytes for its UUID, its method open gets the path at that name, and the result is what it gives, or ENODEV where there is none.
pub dm_file_open-IsFirstDev :
    {File : Type 0} (opens : DmDev → DmPath → Option File) (tail : List ℕ) (dm : Dm) (uu : List ℕ)
    (c : ℕ) (rest : List ℕ)
    → length uu ≡ 16
    → All (λ v. v < 256) uu
    → (c == b'/') ≡ false
    → (found : Option DmDev) × IsFirstDev (HasUuid uu) dm.mnt found
      × (dm_file_open opens true tail dm (braced uu c ++ b'/' ∷ rest)
          ≡ open_device opens (braced_path (braced uu c ++ b'/' ∷ rest)) (device found))
unfolding dm_file_open
dm_file_open-IsFirstDev opens tail dm uu c rest len bytes other =
    let filename = braced uu c ++ b'/' ∷ rest in
    let path = braced_path filename in
    (
      find_by_uuid dm.mnt uu,
      find_by_uuid-IsFirstDev dm.mnt uu,
      ap (open_path opens tail dm) (create-braced tail uu c rest len bytes other)
          ∙ ap (open_device opens path) (find_device-braced dm tail uu c rest len bytes),
    )
