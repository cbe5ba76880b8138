-- ===== src/Dm.antt =====
-- loader/krn/dm.c and loader/mod/mod_extp.c: reading bytes of a disk and of the partitions on it.
--
-- The BIOS is a parameter: what a read of a sector of the drive gives, none for an error. The bytes that a read
-- writes to its buffer are a list, which is kept when an error comes after them.
mod Bytes
mod Read
mod Ring
mod Open
mod ByUuid
mod Tests
use nkos.Common.{
  ℕ, zero, suc, ◌+◌, ◌-◌, ◌/◌, ◌%◌, Bool, Option, none, some, List, [], ◌++◌, ltb, leb, ◌==◌,
  if◌then◌else◌, take, drop, add64, u32_mod,
}
use nkos.Common.Memory.{◌>>=◌}

-- EIO, ENOSYS and ENOMEM
pub data DmError : Type 0 where
  eio : DmError
  enosys : DmError
  enomem : DmError

-- A read that returns 0, or not, with the bytes that it wrote.
pub data Reading : Type 0 where
  complete : List ℕ → Reading
  failed : DmError → List ℕ → Reading

-- struct dm_dev_t by its methods: a drive with its number of blocks and their size, an extended
-- partition with its parent, and a device without methods.
pub data Device : Type 0 where
  raw : (block_count block_size : ℕ) → Device
  extp : (parent : Device) (block_offset block_count : ℕ) → Device
  plain : Device

-- `dm_blocksize`, `dm_raw_blocksize` and `dm_extp_blocksize`
unfoldable pub dm_blocksize : Device → ℕ
dm_blocksize (raw block_count block_size) = block_size
dm_blocksize (extp parent block_offset block_count) = dm_blocksize parent
dm_blocksize plain = 0

-- The bytes read first, and then the rest.
abbrev pub more_bytes : List ℕ → Reading → Reading
more_bytes bytes (complete rest) = complete (bytes ++ rest)
more_bytes bytes (failed e rest) = failed e (bytes ++ rest)

module _ (read_sect : ℕ → Option (List ℕ)) where
  -- The loop of `dm_raw_read` from the sector cs on, with fuel; none if that is used up.
  unfoldable pub read_sects : ℕ → ℕ → ℕ → ℕ → ℕ → Option Reading
  read_sects zero bs cs offset size = if size == 0 then some (complete []) else none
  read_sects (suc k) bs cs offset size =
      let sz = if ltb size (bs - offset) then size else bs - offset in
      let rest = read_sects k bs (add64 cs 1) 0 (size - sz) in
      if size == 0 then some (complete []) else elim (read_sect cs) [
        | none ↦ some (failed eio [])
        | some buf ↦ rest >>= λ r. some (more_bytes (take sz (drop offset buf)) r)
      ]

  -- `dm_raw_read`; none for a division by a block size of 0; has_room says whether malloc
  -- succeeds.
  unfoldable pub dm_raw_read : Bool → ℕ → ℕ → ℕ → ℕ → ℕ → Option Reading
  dm_raw_read has_room block_count bs sect offset size =
      let cs = add64 sect (offset / bs) in
      let ls = add64 sect ((offset + size) % u32_mod / bs) in
      let read = read_sects (suc size) bs cs (offset % bs) size in
      if bs == 0
      then none
      else if leb block_count ls
      then some (failed eio [])
      else if has_room
      then read
      else some (failed enomem [])

  -- `dm_read`, with `dm_extp_read`
  unfoldable pub dm_read : Bool → Device → ℕ → ℕ → ℕ → Option Reading
  dm_read has_room (raw block_count block_size) sect offset size =
      dm_raw_read has_room block_count block_size sect offset size
  dm_read has_room (extp parent block_offset block_count) sect offset size =
      let bs = dm_blocksize parent in
      let rest = dm_read has_room parent (add64 sect block_offset) offset size in
      if bs == 0
      then none
      else if leb block_count (add64 sect ((offset + size) % u32_mod / bs))
      then some (failed eio [])
      else rest
  dm_read has_room plain sect offset size = some (failed enosys [])
