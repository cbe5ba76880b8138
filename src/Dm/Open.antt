-- ===== src/Dm/Open.antt =====
-- `dm_find_mnt_by_uuid` and `dm_file_open` of loader/krn/dm.c: a file name begins with the name of a device, or with
-- its UUID in braces.
use nkos.Common.{
  ℕ, ◌-◌, Bool, true, false, ◌&&◌, Option, none, some, List, [], ◌∷◌, ◌++◌, ◌==◌, if◌then◌else◌,
  length, drop, get_elem?,
}
use nkos.DmPath.{DmPath, dm_path_create}
use nkos.Uuid.{einval, parsed, uuid_parse}
use nkos.Dm.Ring.{Dm, DmDev, dm_find_mnt_by_name}

-- `uuid_compare` of 16 bytes: true for 0.
unfoldable pub uuid_compare : List ℕ → List ℕ → Bool
uuid_compare [] [] = true
uuid_compare [] (y ∷ b) = false
uuid_compare (x ∷ a) [] = false
uuid_compare (x ∷ a) (y ∷ b) = let rest = uuid_compare a b in x == y && rest

-- The test of `dm_find_mnt_by_uuid`, on what `dm_get_uuid` gives.
abbrev pub has_uuid : List ℕ → DmDev → Bool
has_uuid uuid dev = same dev.uuid
  where
    same : Option (List ℕ) → Bool
    same none = false
    same (some own) = uuid_compare own uuid

-- The loop over the mounted devices.
unfoldable pub find_by_uuid : List DmDev → List ℕ → Option DmDev
find_by_uuid [] uuid = none
find_by_uuid (dev ∷ devs) uuid =
    let rest = find_by_uuid devs uuid in if has_uuid uuid dev then some dev else rest

abbrev pub dm_find_mnt_by_uuid : Dm → List ℕ → Option DmDev
dm_find_mnt_by_uuid dm uuid = find_by_uuid dm.mnt uuid

-- How the search for the device ends: with a device or none, with ENODEV before it, or undefined, where a byte
-- behind the NUL is read or the path is null.
pub data Lookup : Type 0 where
  device : Option DmDev → Lookup
  enodev : Lookup
  unreadable : Lookup

-- The device of the UUID that stands at the bytes.
unfoldable pub by_uuid : Dm → List ℕ → Lookup
by_uuid dm bytes = elim (uuid_parse bytes) [
  | einval uu ↦ enodev
  | parsed uu ↦ device (dm_find_mnt_by_uuid dm uu)
]

-- s[37] != '}', where the bytes end at a NUL.
unfoldable pub closed : Dm → List ℕ → Option ℕ → Lookup
closed dm bytes (some c) = if c == b'}' then by_uuid dm (drop 1 bytes) else enodev
closed dm bytes none = if length bytes == 37 then enodev else unreadable

-- *s, where the bytes end at a NUL.
abbrev pub byte_or_nul : Option ℕ → ℕ
byte_or_nul none = 0
byte_or_nul (some c) = c

-- The device for the current name of the path; `tail` is what stands in memory behind it.
unfoldable pub find_device : Dm → List ℕ → DmPath → Lookup
find_device dm tail path =
    let bytes = drop path.s path.text ++ tail in
    let n = path.p - path.s in
    let first = byte_or_nul (get_elem? bytes 0) in
    if first == b'{'
    then if n == 38 then by_uuid dm (drop 1 bytes) else closed dm bytes (get_elem? bytes 37)
    else device (dm_find_mnt_by_name dm bytes n)

-- How `dm_file_open` ends: it returns what the method open of the device gives, or null with errno = ENODEV.
pub data Opening (File : Type 0) : Type 0 where
  opened : Option File → Opening File
  no_device : Opening File
  undefined : Opening File

abbrev pub open_device :
    {File : Type 0} → (DmDev → DmPath → Option File) → DmPath → Lookup → Opening File
open_device opens path (device (some dev)) = opened (opens dev path)
open_device opens path (device none) = no_device
open_device opens path enodev = no_device
open_device opens path unreadable = undefined

abbrev pub open_path :
    {File : Type 0} → (DmDev → DmPath → Option File) → List ℕ → Dm → Option DmPath → Opening File
open_path opens tail dm none = undefined
open_path opens tail dm (some path) = open_device opens path (find_device dm tail path)

-- `opens` is the method open of a device, none where there is no such method; `room` says whether malloc succeeds.
unfoldable pub dm_file_open :
    {File : Type 0} → (DmDev → DmPath → Option File) → Bool → List ℕ → Dm → List ℕ → Opening File
dm_file_open opens room tail dm filename =
    if byte_or_nul (get_elem? filename 0) == b'/'
    then no_device
    else open_path opens tail dm (dm_path_create room tail filename)
