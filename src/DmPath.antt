-- ===== src/DmPath.antt =====
-- loader/krn/dm_path.c: a path of the device manager, read name by name.
--
-- The text of a path lies behind its header with no NUL at its end, and `strchr` searches on: `tail` is
-- what stands in memory behind the text, up to the first NUL. Whether malloc succeeds is a parameter.
mod Names
mod Walk
mod Prepend
mod Tests
use nkos.Common.{
  ℕ, suc, ◌+◌, ◌-◌, Bool, true, false, ◌&&◌, not, Option, none, some, List, [], ◌∷◌, ◌++◌, ltb, leb,
  ◌==◌, if◌then◌else◌, length, drop, take,
}
use nkos.Common.Memory.{overwrite}

-- struct dm_path_t and the n bytes behind it
pub record DmPath : Type 0 where
  pub s : ℕ
  pub p : ℕ
  pub n : ℕ
  pub text : List ℕ

-- The `while` that skips separators, at the bytes from s on.
unfoldable pub skip_from : List ℕ → ℕ → ℕ
skip_from [] s = s
skip_from (c ∷ cs) s = let rest = skip_from cs (suc s) in if c == b'/' then rest else s

abbrev pub later : Option ℕ → Option ℕ
later none = none
later (some k) = some (suc k)

-- strchr(cs, '/') - cs
unfoldable pub strchr : List ℕ → Option ℕ
strchr [] = none
strchr (c ∷ cs) = let rest = strchr cs in if c == b'/' then some 0 else later rest

-- The new `p`: the end of the path where there is no separator.
abbrev pub end_of : ℕ → ℕ → Option ℕ → ℕ
end_of s n none = n
end_of s n (some k) = s + k

unfoldable pub dm_path_next : List ℕ → DmPath → DmPath
dm_path_next tail path =
    let s = skip_from (drop path.p path.text) path.p in
    let p = end_of s path.n (strchr (drop s path.text ++ tail)) in
    if path.s == path.n then path else record path { s = s; p = p }

unfoldable pub dm_path_create : Bool → List ℕ → List ℕ → Option DmPath
dm_path_create room tail filename =
    if room
    then some (dm_path_next tail (record { s = 0; p = 0; n = length filename; text = filename }))
    else none

-- The last byte of a name that is not empty.
unfoldable pub last_of : ℕ → List ℕ → ℕ
last_of c [] = c
last_of c (d ∷ name) = last_of d name

-- The name, with a separator if it is not empty and does not end in one.
unfoldable pub with_separator : List ℕ → List ℕ
with_separator [] = []
with_separator (c ∷ name) = if last_of c name == b'/' then c ∷ name else (c ∷ name) ++ b'/' ∷ []

-- `dm_path_prepend`: a new path, or the old one written over before its current name.
unfoldable pub dm_path_prepend : Bool → List ℕ → DmPath → List ℕ → Option DmPath
dm_path_prepend room tail path name =
    let front = with_separator name in
    let l = length front in
    if leb path.s l
    then (if room
        then some (
            dm_path_next tail (record {
              s = 0;
              p = 0;
              n = l + path.n - path.s;
              text = front ++ drop path.s path.text;
            }))
        else none)
    else some (
        dm_path_next tail (record path {
          s = path.s - l;
          p = path.s - l;
          text = overwrite path.text (path.s - l) front;
        }))

-- The `dm_path_size` bytes at `dm_path_name`.
unfoldable pub dm_path_name : DmPath → List ℕ
dm_path_name path = take (path.p - path.s) (drop path.s path.text)

unfoldable pub dm_path_hasnext : DmPath → Bool
dm_path_hasnext path = ltb path.s path.n
