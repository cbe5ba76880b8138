-- ===== src/DmPath/Tests.antt =====
-- A walk over a path, and the theorems on paths at concrete ones.
use Prim.Native.String.{String}
use Prim.Native.Char.{code}
use nkos.Common.{arith, ℕ, List, [], ◌∷◌, ◌++◌, drop, true, some, refl, ◌≡◌}
use nkos.DmPath.{
  DmPath, skip_from, strchr, dm_path_next, dm_path_create, dm_path_prepend, with_separator, last_of,
}
use nkos.DmPath.Names.{names}
use nkos.DmPath.Walk.{IsPath}
use nkos.DmPath.Prepend.{dm_path_prepend-names}

abbrev bytes : String → List ℕ
bytes String.[] = []
bytes (String.◌∷◌ letter rest) = code letter ∷ bytes rest

-- At "kernel" in "/boot/kernel".
abbrev kernel : DmPath
kernel = record { s = 6; p = 12; n = 12; text = bytes "/boot/kernel" }

written_over :
    dm_path_prepend true [] kernel (bytes "hd0")
    ≡ some (record { s = 2; p = 5; n = 12; text = bytes "/bhd0/kernel" })
unfolding dm_path_prepend dm_path_next with_separator last_of skip_from strchr
written_over = refl

-- A separator in the memory behind the path ends the last name too late.
behind_the_end :
    dm_path_create true (bytes "xy/") (bytes "a")
    ≡ some (record { s = 0; p = 3; n = 1; text = bytes "a" })
unfolding dm_path_create dm_path_next skip_from strchr
behind_the_end = refl

kernel-IsPath : IsPath kernel
kernel-IsPath = record { long = refl; begun = omega arith; ended = refl; clear = refl }

dm_path_prepend-names_example :
    (new : DmPath) × (dm_path_prepend true [] kernel (bytes "hd0/part") ≡ some new)
    × IsPath new
    × (names (drop new.s new.text) ≡ names (bytes "hd0/part") ++ names (bytes "kernel"))
dm_path_prepend-names_example = dm_path_prepend-names [] kernel (bytes "hd0/part") tt kernel-IsPath
