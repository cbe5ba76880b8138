-- ===== src/Dm/Read.antt =====
-- Theorems on `dm_read` of loader/krn/dm.c and loader/mod/mod_extp.c: which bytes of the disk it gives.
use nkos.Common.{
  leb, u32_mod, ◌%◌, ◌/◌, true, [], ◌⊎◌, ◌++◌, refl, zero, drop, ◌∙◌, take, add64, inr, ◌-◌, ◌≤◌,
  if◌then◌else◌, ltb→lt, ◌+◌, false, inl, ◌^◌, some, ◌==◌, ltb, Bool-cases, ◌≡◌, List, ◌<◌, Option,
  ◌*◌, ℕ, suc, arith,
}
use nkos.Dm.{
  Reading, complete, Device, raw, extp, plain, dm_blocksize, read_sects, dm_raw_read, dm_read,
  more_bytes,
}
use nkos.Dm.Bytes.{bytes_at, bytes_at-append, part-bytes_at}
use mathlib.Core.Path.{ap, ap₂}
use native.Mathlib.Nat.{
  mul-le-mul_left, mul-le-mul_right, mul-le-mul_left, le-div_iff_mul-le, lt-mul-div-succ,
  div-add-mod', mod-lt,
}

-- The BIOS reads the first n sectors, of bs bytes each, of a disk.
abbrev pub IsDisk : (ℕ → Option (List ℕ)) → (ℕ → ℕ) → ℕ → ℕ → Type 0
IsDisk read_sect disk bs n = (c : ℕ) → c < n → read_sect c ≡ some (bytes_at disk (c * bs) bs)

below_end : (c n bs : ℕ) → c * bs < n * bs → c < n
below_end c n bs h = elim (Bool-cases (ltb c n)) [
  | inl less ↦ ltb→lt c n less
  | inr not_less ↦
      let le : n ≤ c = ground arith in let scaled = mul-le-mul_right bs le in absurd (omega arith)
]

-- The bytes that one turn copies.
abbrev chunk : ℕ → ℕ → ℕ
chunk size left = if ltb size left then size else left

chunk-cases :
    (size left : ℕ)
    → ((chunk size left ≡ size) × (size < left)) ⊎ ((chunk size left ≡ left) × (left ≤ size))
chunk-cases size left = elim (Bool-cases (ltb size left)) [
  | inl less ↦ inl (rw less refl, ltb→lt size left less)
  | inr more ↦ inr (rw more refl, ground arith)
]

-- Behind the chunk the next sector goes on.
chunk-join :
    (disk : ℕ → ℕ) (bs cs offset size : ℕ)
    → offset < bs
    → take (chunk size (bs - offset)) (drop offset (bytes_at disk (cs * bs) bs))
        ++ bytes_at disk (suc cs * bs + 0) (size - chunk size (bs - offset))
      ≡ bytes_at disk (cs * bs + offset) size
chunk-join disk bs cs offset size h = elim (chunk-cases size (bs - offset)) [
  | inl (e, less) ↦
      let none_left : size - size ≡ 0 = omega arith in
      let all : size + 0 ≡ size = omega arith in
      rw (e, none_left)
        (ap (λ b. b ++ []) (part-bytes_at disk (cs * bs) offset size bs (omega arith))
          ∙ bytes_at-append disk (cs * bs + offset) size 0
          ∙ ap (bytes_at disk (cs * bs + offset)) all)
  | inr (e, more) ↦
      let sz = bs - offset in
      let at : suc cs * bs + 0 ≡ cs * bs + offset + sz = omega arith in
      let all : sz + (size - sz) ≡ size = omega arith in
      rw e (
        ap₂ (λ b c. b ++ bytes_at disk c (size - sz))
          (part-bytes_at disk (cs * bs) offset sz bs (omega arith)) at
        ∙ bytes_at-append disk (cs * bs + offset) sz (size - sz)
        ∙ ap (bytes_at disk (cs * bs + offset)) all)
]

chunk-inside :
    (bs n cs offset size : ℕ)
    → offset < bs
    → suc cs * bs ≤ n * bs
    → cs * bs + offset + size ≤ n * bs
    → suc cs * bs + 0 + (size - chunk size (bs - offset)) ≤ n * bs
chunk-inside bs n cs offset size h whole inside = elim (chunk-cases size (bs - offset)) [
  | inl (e, less) ↦ rw e (omega arith)
  | inr (e, more) ↦ rw e (omega arith)
]

one_sect :
    (read_sect : ℕ → Option (List ℕ)) (k bs cs offset size : ℕ) (buf : List ℕ) (r : Reading)
    → (size == 0) ≡ false
    → read_sect cs ≡ some buf
    → read_sects read_sect k bs (add64 cs 1) 0 (size - chunk size (bs - offset)) ≡ some r
    → read_sects read_sect (suc k) bs cs offset size
      ≡ some (more_bytes (take (chunk size (bs - offset)) (drop offset buf)) r)
unfolding read_sects
one_sect read_sect k bs cs offset size buf r h b rest = rw h (rw (b, read_sects) (rw rest refl))

read_sects-bytes_at :
    (read_sect : ℕ → Option (List ℕ)) (disk : ℕ → ℕ) (k bs n cs offset size : ℕ)
    → IsDisk read_sect disk bs n
    → n * bs < 2 ^ 64
    → offset < bs
    → size < k
    → cs * bs + offset + size ≤ n * bs
    → read_sects read_sect k bs cs offset size
      ≡ some (complete (bytes_at disk (cs * bs + offset) size))
unfolding read_sects
read_sects-bytes_at read_sect disk zero bs n cs offset size d top h fuel inside =
    absurd (omega arith)
read_sects-bytes_at read_sect disk (suc k) bs n cs offset zero d top h fuel inside = refl
read_sects-bytes_at read_sect disk (suc k) bs n cs offset (suc size) d top h fuel inside =
    let sz = chunk (suc size) (bs - offset) in
    let some_bytes : (suc size == 0) ≡ false = ground arith in
    let at_most : (0 < sz) × (sz ≤ suc size) × (offset + sz ≤ bs) =
      (ground arith, ground arith, ground arith) in
    let (some_sz, sz_le, in_sect) = at_most in
    let c_low = below_end cs n bs (omega arith) in
    let whole = mul-le-mul_right bs c_low in
    let some_block : 1 ≤ bs = omega arith in
    let small = mul-le-mul_left cs some_block in
    let next : add64 cs 1 ≡ suc cs = omega arith in
    let rest_inside : suc cs * bs + 0 + (suc size - sz) ≤ n * bs =
      chunk-inside bs n cs offset (suc size) h whole inside in
    let rest =
      read_sects-bytes_at read_sect disk k bs n (suc cs) 0 (suc size - sz) d top (omega arith)
        (omega arith) rest_inside in
    let step =
      one_sect read_sect k bs cs offset (suc size) (bytes_at disk (cs * bs) bs) _ some_bytes
        (d cs c_low) (ap (λ c. read_sects read_sect k bs c 0 (suc size - sz)) next ∙ rest) in
    let joined : take sz (drop offset (bytes_at disk (cs * bs) bs))
          ++ bytes_at disk (suc cs * bs + 0) (suc size - sz)
        ≡ bytes_at disk (cs * bs + offset) (suc size) =
      chunk-join disk bs cs offset (suc size) h in
    step ∙ ap (λ b. some (complete b)) joined

-- The sector of the drive for a sector of a device.
abbrev pub position : Device → ℕ → ℕ
position (raw block_count block_size) sect = sect
position (extp parent block_offset block_count) sect = position parent (sect + block_offset)
position plain sect = sect

-- The bytes of a read, and one byte more, are on the drive and on every partition around the device; the drive is
-- the disk.
abbrev pub IsWithin : (ℕ → Option (List ℕ)) → (ℕ → ℕ) → Device → ℕ → ℕ → ℕ → Type 0
IsWithin read_sect disk (raw block_count block_size) sect offset size =
    (0 < block_size)
    × (sect + (offset + size) / block_size < block_count)
    × (block_count * block_size < 2 ^ 64)
    × IsDisk read_sect disk block_size block_count
IsWithin read_sect disk (extp parent block_offset block_count) sect offset size =
    (sect + (offset + size) / dm_blocksize parent < block_count)
    × (block_count < 2 ^ 64)
    × IsWithin read_sect disk parent (sect + block_offset) offset size
IsWithin read_sect disk plain sect offset size = ⊥

within-block :
    (read_sect : ℕ → Option (List ℕ)) (disk : ℕ → ℕ) (dev : Device) (sect offset size : ℕ)
    → IsWithin read_sect disk dev sect offset size
    → (0 < dm_blocksize dev) × (sect < 2 ^ 64)
unfolding dm_blocksize
within-block read_sect disk (raw block_count block_size) sect offset size (b, inside, top, d) =
    let some_block : 1 ≤ block_size = b in
    let wide = mul-le-mul_left block_count some_block in (b, omega arith)
within-block read_sect disk (extp parent block_offset block_count) sect offset size
      (inside, top, up) =
    ((within-block read_sect disk parent (sect + block_offset) offset size up).0, omega arith)
within-block read_sect disk plain sect offset size up = absurd up

raw_read-bytes_at :
    (read_sect : ℕ → Option (List ℕ)) (disk : ℕ → ℕ) (n bs sect offset size : ℕ)
    → IsWithin read_sect disk (raw n bs) sect offset size
    → offset + size < 2 ^ 32
    → dm_raw_read read_sect true n bs sect offset size
      ≡ some (complete (bytes_at disk (sect * bs + offset) size))
unfolding dm_raw_read
raw_read-bytes_at read_sect disk n bs sect offset size (b, inside, top, d) small =
    let q = offset / bs in
    let parts = div-add-mod' offset bs in
    let rest = mod-lt offset b in
    let fewer = (le-div_iff_mul-le {k = bs} {x = q} {y = offset + size} b).1 (omega arith) in
    let over = lt-mul-div-succ (offset + size) {b = bs} b in
    let some_block : 1 ≤ bs = b in
    let wide = mul-le-mul_left n some_block in
    let last : suc (sect + (offset + size) / bs) ≤ n = inside in
    let whole = mul-le-mul_right bs last in
    let word : (offset + size) % u32_mod ≡ offset + size = omega arith in
    let ls : add64 sect ((offset + size) / bs) ≡ sect + (offset + size) / bs = omega arith in
    let cs : add64 sect q ≡ sect + q = omega arith in
    let nonzero : (bs == 0) ≡ false = ground arith in
    let in_range : leb n (sect + (offset + size) / bs) ≡ false = ground arith in
    let start : (sect + q) * bs + offset % bs ≡ sect * bs + offset = omega arith in
    rw (nonzero, word, ls, in_range, cs)
      (read_sects-bytes_at read_sect disk (suc size) bs n (sect + q) (offset % bs) size d top rest
          (omega arith) (omega arith)
        ∙ ap (λ a. some (complete (bytes_at disk a size))) start)

-- `dm_read` of a drive or of a partition inside partitions, with memory for a sector: where the bytes asked for and
-- one byte more are on each of them, and offset + size is below 2 ^ 32, the read is complete and gives exactly
-- the size bytes of the disk from the byte offset of the sector on, the first blocks of all partitions added up.
pub dm_read-bytes_at :
    (read_sect : ℕ → Option (List ℕ)) (disk : ℕ → ℕ) (dev : Device) (sect offset size : ℕ)
    → IsWithin read_sect disk dev sect offset size
    → offset + size < 2 ^ 32
    → dm_read read_sect true dev sect offset size
      ≡ some (complete (bytes_at disk (position dev sect * dm_blocksize dev + offset) size))
unfolding dm_read dm_blocksize
dm_read-bytes_at read_sect disk (raw n bs) sect offset size within small =
    raw_read-bytes_at read_sect disk n bs sect offset size within small
dm_read-bytes_at read_sect disk (extp parent block_offset n) sect offset size (inside, top, up)
      small =
    let (some_block, low) =
      within-block read_sect disk parent (sect + block_offset) offset size up in
    let bs = dm_blocksize parent in
    let nonzero : (bs == 0) ≡ false = ground arith in
    let word : (offset + size) % u32_mod ≡ offset + size = omega arith in
    let ls : add64 sect ((offset + size) / bs) ≡ sect + (offset + size) / bs = omega arith in
    let in_range : leb n (sect + (offset + size) / bs) ≡ false = ground arith in
    let moved : add64 sect block_offset ≡ sect + block_offset = omega arith in
    rw (nonzero, word, ls, in_range, moved)
      (dm_read-bytes_at read_sect disk parent (sect + block_offset) offset size up small)
dm_read-bytes_at read_sect disk plain sect offset size within small = absurd within
