-- ===== src/E820/Tests.antt =====
-- Runs of e820.c, and its theorems at concrete tables.
use nkos.Common.{ℕ, ◌^◌, ◌≡◌, refl, List, [], ◌∷◌, arith, max, if◌then◌else◌}
use nkos.E820.{
  Region, live, mfin, sink, sort_from, e820_sort, e820_count, e820_discard, e820_overlap,
  coalesce_from, e820_coalesce, with_kernel, e820_init, ready, carve, round,
}
use mathlib.Core.List.{Perm}
use nkos.E820.Sort.{e820_sort_lem}
use nkos.E820.Spec.{Sorted, Apart, Shallow, type_at, depth, total}
use nkos.E820.Overlap.{HasRoom}
use nkos.E820.Coalesce.{Merged}
use nkos.E820.Boot.{IsUsable, is_kernel, sorted_table, e820_init-type_at, e820_init-Apart}

abbrev region : ℕ → ℕ → ℕ → Region
region b s k = record { base = b; size = s; kind = k }

-- Low memory, the main memory, and the entry that ends the table.
abbrev bios : List Region
bios = region 0 0x9fc00 1 ∷ region 0x100000 0x7ef0000 1 ∷ region 0 0 0 ∷ []

abbrev ksize : ℕ
ksize = 0x50000

abbrev fuel : ℕ
fuel = 2 ^ 28

bios_boots :
    e820_init fuel ksize bios
    ≡ ready (
        region 0 0x1000 5
        ∷ region 0x1000 0x9ec00 1
        ∷ region 0x100000 0x50000 5
        ∷ region 0x150000 0x7ea0000 1
        ∷ [])
unfolding e820_init e820_count live with_kernel e820_sort sort_from sink e820_overlap round carve
    mfin e820_discard e820_coalesce coalesce_from
bios_boots = refl

bios-IsUsable : IsUsable ksize bios
unfolding e820_count live
bios-IsUsable = omega arith

bios-HasRoom : HasRoom fuel 0 (sorted_table ksize bios)
unfolding live with_kernel e820_sort sort_from sink round carve mfin e820_discard
bios-HasRoom = omega arith

bios-Shallow : Shallow (with_kernel ksize (live bios))
unfolding live with_kernel depth
bios-Shallow x = ground arith

e820_init-type_at_example :
    (out : List Region) × (e820_init fuel ksize bios ≡ ready out)
    × ((x : ℕ) → type_at x out ≡ max (type_at x (live bios)) (if is_kernel ksize x then 5 else 0))
    × Merged out
unfolding live with_kernel total
e820_init-type_at_example =
    e820_init-type_at ksize bios bios-IsUsable fuel bios-HasRoom (omega arith)

e820_init-Apart_example :
    (out : List Region) × (e820_init fuel ksize bios ≡ ready out) × Apart 0 out × Merged out
unfolding live with_kernel total
e820_init-Apart_example =
    e820_init-Apart ksize bios bios-IsUsable fuel bios-HasRoom (omega arith) bios-Shallow

e820_sort_lem_example : Sorted (e820_sort bios) × Perm (e820_sort bios) bios
e820_sort_lem_example = e820_sort_lem bios
