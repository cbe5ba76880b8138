-- ===== src/Dm/Tests.antt =====
-- loader/krn/dm.c and loader/mod/mod_extp.c at concrete inputs.
use nkos.Common.{◌++◌, none, ◌+◌, ◌∷◌, [], ◌*◌, some, refl, List, ◌≡◌, Option, true, ℕ, arith}
use nkos.Dm.{
  Device, raw, extp, plain, complete, failed, eio, enosys, dm_read, dm_raw_read, dm_blocksize,
  read_sects,
}
use nkos.DmPath.{DmPath, dm_path_create, dm_path_next, skip_from, strchr}
use nkos.Uuid.{
  uuid_parse, parse_from, digit_value, put_nibble, uuid_unparse, unparse_from, nibble_digit,
}
use nkos.Dm.Open.{
  dm_file_open, find_device, by_uuid, find_by_uuid, uuid_compare, opened, open_device, device,
}
use nkos.Dm.ByUuid.{HasUuid, braced, braced_path, dm_file_open-IsFirstDev}
use nkos.Dm.Ring.{
  DmDev, Dm, dm_mount_all, mount_from, dm_mount_device, dm_find_mnt_by_name, find_by_name,
  same_start, IsNamedFs, IsFirstDev, dm_mount_all-IsFirstDev,
}
use nkos.Dm.Bytes.{bytes_at}
use nkos.Dm.Read.{IsWithin, position, dm_read-bytes_at}

-- A disk of 16 sectors of 4 bytes, each byte its own number.
abbrev numbers : ℕ → ℕ
numbers a = a

abbrev read_numbers : ℕ → Option (List ℕ)
read_numbers c = some (bytes_at numbers (c * 4) 4)

-- A partition at block 3 of a partition at block 2.
abbrev inner : Device
inner = extp (extp (raw 16 4) 2 12) 3 5

across_sectors : dm_read read_numbers true inner 1 3 3 ≡ some (complete (27 ∷ 28 ∷ 29 ∷ []))
unfolding dm_read dm_raw_read dm_blocksize read_sects
across_sectors = refl

-- The last sector of a drive cannot be read to its end.
last_sector : dm_read read_numbers true (raw 16 4) 15 0 4 ≡ some (failed eio [])
unfolding dm_read dm_raw_read dm_blocksize read_sects
last_sector = refl

no_method : dm_read read_numbers true plain 0 0 1 ≡ some (failed enosys [])
unfolding dm_read
no_method = refl

inner-IsWithin : IsWithin read_numbers numbers inner 1 3 3
unfolding dm_blocksize
inner-IsWithin = (
  omega arith,
  omega arith,
  (omega arith, omega arith, (omega arith, omega arith, omega arith, λ c h. refl)),
)

dm_read-bytes_at_example :
    dm_read read_numbers true inner 1 3 3
    ≡ some (complete (bytes_at numbers (position inner 1 * dm_blocksize inner + 3) 3))
dm_read-bytes_at_example =
    dm_read-bytes_at read_numbers numbers inner 1 3 3 inner-IsWithin (omega arith)

-- hd0p1, and then hd0
abbrev first_partition : DmDev
first_partition = record { name = some (104 ∷ 100 ∷ 48 ∷ 112 ∷ 49 ∷ []); is_fs = true; uuid = none }

abbrev whole_drive : DmDev
whole_drive = record { name = some (104 ∷ 100 ∷ 48 ∷ []); is_fs = true; uuid = none }

abbrev two_devices : Dm
two_devices = record { mods = []; reg = first_partition ∷ whole_drive ∷ []; mnt = [] }

-- The name hd0 finds the device hd0p1.
longer_name :
    dm_find_mnt_by_name (dm_mount_all two_devices) (104 ∷ 100 ∷ 48 ∷ []) 3 ≡ some first_partition
unfolding dm_mount_all mount_from dm_mount_device find_by_name same_start
longer_name = refl

dm_mount_all-IsFirstDev_example :
    IsFirstDev
      (IsNamedFs (104 ∷ 100 ∷ 48 ∷ []) 3)
      (first_partition ∷ whole_drive ∷ [])
      (dm_find_mnt_by_name (dm_mount_all two_devices) (104 ∷ 100 ∷ 48 ∷ []) 3)
dm_mount_all-IsFirstDev_example = dm_mount_all-IsFirstDev two_devices (104 ∷ 100 ∷ 48 ∷ []) 3 refl

-- A device with the UUID 00010203-0405-0607-0809-0a0b0c0d0e0f.
abbrev numbered : List ℕ
numbered = 0 ∷ 1 ∷ 2 ∷ 3 ∷ 4 ∷ 5 ∷ 6 ∷ 7 ∷ 8 ∷ 9 ∷ 10 ∷ 11 ∷ 12 ∷ 13 ∷ 14 ∷ 15 ∷ []

abbrev numbered_device : DmDev
numbered_device = record { name = none; is_fs = true; uuid = some numbered }

abbrev mounted_numbered : Dm
mounted_numbered = record { mods = []; reg = []; mnt = whole_drive ∷ numbered_device ∷ [] }

-- The method open gives how long the path is.
abbrev open_length : DmDev → DmPath → Option ℕ
open_length dev path = some path.n

-- With a closing brace, and with another character in its place.
opens_by_uuid :
    dm_file_open open_length true [] mounted_numbered (braced numbered b'}' ++ b'/' ∷ b'a' ∷ [])
    ≡ opened (some 40)
unfolding dm_file_open dm_path_create dm_path_next skip_from strchr find_device by_uuid uuid_parse
    parse_from digit_value put_nibble uuid_unparse unparse_from nibble_digit find_by_uuid
    uuid_compare
opens_by_uuid = refl

opens_unclosed :
    dm_file_open open_length true [] mounted_numbered (braced numbered b'!' ++ b'/' ∷ b'a' ∷ [])
    ≡ opened (some 40)
unfolding dm_file_open dm_path_create dm_path_next skip_from strchr find_device by_uuid uuid_parse
    parse_from digit_value put_nibble uuid_unparse unparse_from nibble_digit find_by_uuid
    uuid_compare
opens_unclosed = refl

dm_file_open-IsFirstDev_example :
    (found : Option DmDev) × IsFirstDev
      (HasUuid numbered)
      (whole_drive ∷ numbered_device ∷ [])
      found
    × (dm_file_open open_length true [] mounted_numbered (braced numbered b'}' ++ b'/' ∷ b'a' ∷ [])
        ≡ open_device open_length
            (braced_path (braced numbered b'}' ++ b'/' ∷ b'a' ∷ []))
            (device found))
dm_file_open-IsFirstDev_example =
    dm_file_open-IsFirstDev open_length [] mounted_numbered numbered b'}' (b'a' ∷ []) refl
      (omega arith) refl
