-- ===== src/CpuInfo/Tests.antt =====
-- kernel/cpuinfo.c at concrete inputs.
use nkos.Common.{◌≢◌, ◌≤◌, none, ◌%◌, zero, some, refl, Option, ◌<◌, ◌≡◌, suc, ℕ, arith}
use nkos.CpuInfo.{
  Leaf, cpuinfo_init, cpuinfo_get_cache_line, read_caches, note_cache, cpu_cache_level_max,
  cpu_cache_type_max,
}
use nkos.CpuInfo.Lines.{last_line, cpuinfo_init-last_line, IsEnd}

-- Data and code of the first level, and one cache for both of the second.
abbrev three_caches : ℕ → Leaf
three_caches zero = record { eax = 0x21; ebx = 63 }
three_caches (suc zero) = record { eax = 0x22; ebx = 63 }
three_caches (suc (suc zero)) = record { eax = 0x43; ebx = 127 }
three_caches (suc (suc (suc n))) = record { eax = 0; ebx = 0 }

line_of : Option (ℕ → ℕ) → ℕ → ℕ → ℕ
unfolding cpuinfo_get_cache_line
line_of none lvl typ = 1
line_of (some caches) lvl typ = cpuinfo_get_cache_line caches lvl typ

lines :
    (line_of (cpuinfo_init 9 4 three_caches) 0 0 ≡ 64)
    × (line_of (cpuinfo_init 9 4 three_caches) 1 1 ≡ 128)
    × (line_of (cpuinfo_init 9 4 three_caches) 2 0 ≡ 32)
    × (line_of (cpuinfo_init 9 4 three_caches) 3 0 ≡ 0)
unfolding cpuinfo_init read_caches note_cache line_of cpuinfo_get_cache_line
lines = (refl, refl, refl, refl)

three_caches-IsEnd : IsEnd three_caches 3
three_caches-IsEnd = (refl, ends)
  where
    ends : (j : ℕ) → j < 3 → (three_caches j).eax % 32 ≢ 0
    ends zero h = omega arith
    ends (suc zero) h = omega arith
    ends (suc (suc zero)) h = omega arith
    ends (suc (suc (suc j))) h = absurd (omega arith)

cpuinfo_init-last_line_example :
    (caches : ℕ → ℕ) × (cpuinfo_init 9 4 three_caches ≡ some caches)
    × ((lvl typ : ℕ)
        → lvl < cpu_cache_level_max
        → typ < cpu_cache_type_max
        → (cpuinfo_get_cache_line caches lvl typ ≡ last_line three_caches lvl typ 3)
          × (0 < cpuinfo_get_cache_line caches lvl typ)
          × (cpuinfo_get_cache_line caches lvl typ ≤ 2048))
cpuinfo_init-last_line_example =
    cpuinfo_init-last_line 9 4 3 three_caches (omega arith) three_caches-IsEnd (omega arith)
