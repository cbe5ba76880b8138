-- ===== src/E820/Boot.antt =====
-- `e820_init`: the table that the kernel starts from.
use nkos.Common.{
  ℕ, ◌+◌, ◌≤◌, ◌<◌, ◌^◌, ◌≡◌, ◌∙◌, some, List, [], ◌∷◌, max, arith, leb, ltb, lt→ltb, All,
  All-append, Bool, ◌&&◌, ◌||◌, if◌then◌else◌, false,
}
use nkos.E820.{
  Region, live, e820_count, e820_sort, e820_overlap, e820_coalesce, with_kernel, e820_init, panic,
  ready,
}
use nkos.E820.Spec.{Entry, Apart, Shallow, type_at, total}
use nkos.E820.Sort.{
  All-e820_sort, e820_sort-Sorted, type_at-e820_sort, total-e820_sort, depth-e820_sort,
}
use nkos.E820.Rounds.{type_at-append}
use nkos.E820.Overlap.{HasRoom, e820_overlap-KeepsTypes, e820_overlap-Separates}
use nkos.E820.Coalesce.{Merged, e820_coalesce-type_at, e820_coalesce-Merged, e820_coalesce-Apart}

-- The kernel image and the first page.
abbrev pub is_kernel : ℕ → ℕ → Bool
is_kernel ksize x = (leb 0x100000 x && ltb x (0x100000 + ksize)) || ltb x 0x1000

Apart-Entry : (lo : ℕ) (b : ℕ) (m : List Region) → lo ≤ b → Apart b m → All (Entry lo) m
Apart-Entry lo b [] le a = tt
Apart-Entry lo b (r ∷ m) le a = (omega arith, Apart-Entry lo (r.base + r.size) m (omega arith) a.1)

-- What `e820_init` takes of the table: entries that are used and do not reach the end of the
-- address space, fewer than 61 of them, and a kernel that is not empty and fits.
pub record IsUsable (ksize : ℕ) (mem : List Region) : Type 0 where
  pub few : e820_count mem < 61
  pub entries : All (Entry 0) (live mem)
  pub image : 0 < ksize
  pub image_fits : 0x100000 + ksize < 2 ^ 64

abbrev pub sorted_table : ℕ → List Region → List Region
sorted_table ksize mem = e820_sort (with_kernel ksize (live mem))

module _ (ksize : ℕ) (mem : List Region) (u : IsUsable ksize mem) where
  with_kernel-Entry : All (Entry 0) (with_kernel ksize (live mem))
  unfolding with_kernel
  with_kernel-Entry =
      All-append (Entry 0) (live mem) _ u.entries
        ((omega arith, u.image, u.image_fits, omega arith), (omega arith, tt))

  type_at-with_kernel :
      (x : ℕ)
      → type_at x (with_kernel ksize (live mem))
        ≡ max (type_at x (live mem)) (if is_kernel ksize x then 5 else 0)
  unfolding with_kernel type_at
  type_at-with_kernel x = rw type_at-append (ground arith)

  init-ready :
      (fuel : ℕ) {m : List Region}
      → e820_overlap fuel 0 (sorted_table ksize mem) ≡ some m
      → e820_init fuel ksize mem ≡ ready (e820_coalesce m)
  unfolding e820_init
  init-ready fuel e = rw (lt→ltb (e820_count mem) 61 u.few, e)

  -- `e820_init`, for a usable BIOS table, with fuel above the total size and never a full table: it
  -- ends, its table gives every address the highest type that the BIOS reported for it, or 5 in the
  -- kernel image and the first page if that is higher, and no neighbours are left to merge.
  pub e820_init-type_at :
      (fuel : ℕ)
      → HasRoom fuel 0 (sorted_table ksize mem)
      → total (with_kernel ksize (live mem)) < fuel
      → (out : List Region) × (e820_init fuel ksize mem ≡ ready out)
        × ((x : ℕ)
            → type_at x out ≡ max (type_at x (live mem)) (if is_kernel ksize x then 5 else 0))
        × Merged out
  e820_init-type_at fuel room t =
      let (m, e, ok, ty) =
        e820_overlap-KeepsTypes fuel 0 0 (sorted_table ksize mem)
          (All-e820_sort (Entry 0) _ with_kernel-Entry) (e820_sort-Sorted _) room
          (omega (arith, total-e820_sort (with_kernel ksize (live mem)))) in
      (
        e820_coalesce m,
        init-ready fuel e,
        λ x.
            e820_coalesce-type_at x 0 m ok
            ∙ ty x
            ∙ type_at-e820_sort x (with_kernel ksize (live mem))
            ∙ type_at-with_kernel x,
        e820_coalesce-Merged 0 m ok,
      )

  -- `e820_init` under the same conditions, where no address is claimed by more than two entries,
  -- kernel and first page included: the entries of the finished table are in order and do not
  -- overlap, and no neighbours of one type are left to merge.
  pub e820_init-Apart :
      (fuel : ℕ)
      → HasRoom fuel 0 (sorted_table ksize mem)
      → total (with_kernel ksize (live mem)) < fuel
      → Shallow (with_kernel ksize (live mem))
      → (out : List Region) × (e820_init fuel ksize mem ≡ ready out) × Apart 0 out × Merged out
  e820_init-Apart fuel room t sh =
      let (m, e, apart) =
        e820_overlap-Separates fuel 0 0 (sorted_table ksize mem)
          (All-e820_sort (Entry 0) _ with_kernel-Entry) (e820_sort-Sorted _)
          (λ x. omega (arith, sh x, depth-e820_sort x (with_kernel ksize (live mem)))) room
          (omega (arith, total-e820_sort (with_kernel ksize (live mem)))) in
      (
        e820_coalesce m,
        init-ready fuel e,
        e820_coalesce-Apart 0 m apart,
        e820_coalesce-Merged 0 m (Apart-Entry 0 0 m (omega arith) apart),
      )

-- A table with 61 entries or more fails the assertion.
init-panic :
    (fuel ksize : ℕ) (mem : List Region) → 61 ≤ e820_count mem → e820_init fuel ksize mem ≡ panic
unfolding e820_init
init-panic fuel ksize mem h = let e : ltb (e820_count mem) 61 ≡ false = ground arith in rw e
