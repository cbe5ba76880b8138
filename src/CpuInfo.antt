-- ===== src/CpuInfo.antt =====
-- kernel/cpuinfo.c: the sizes of the lines of the caches, as the instruction cpuid reports them.
mod Lines
mod Tests
use nkos.Common.{
  ℕ, zero, suc, ◌+◌, ◌*◌, ◌/◌, ◌%◌, Bool, ◌&&◌, Option, none, some, ltb, leb, ◌==◌, if◌then◌else◌,
}

-- struct cpuid_t after cpuid of leaf 4, the registers that are read.
pub record Leaf : Type 0 where
  pub eax : ℕ
  pub ebx : ℕ

-- CPU_CACHE_LEVEL_MAX
abbrev pub cpu_cache_level_max : ℕ
cpu_cache_level_max = 3

-- CPU_CACHE_TYPE_MAX
abbrev pub cpu_cache_type_max : ℕ
cpu_cache_type_max = 2

-- `_caches` at the start.
abbrev pub default_lines : ℕ → ℕ
default_lines i = 32

-- _caches[i].line = line
abbrev pub set_line : (ℕ → ℕ) → ℕ → ℕ → ℕ → ℕ
set_line caches i line = λ j. if j == i then line else caches j

-- The body of the loop of `cpuinfo_init` for a cache: its level is a byte that wraps below 0.
unfoldable pub note_cache : (ℕ → ℕ) → Leaf → ℕ → ℕ
note_cache caches info =
    let lvl = (info.eax / 32 % 8 + 255) % 256 in
    let typ = info.eax % 4 in
    let line = info.ebx % 2048 + 1 in
    let data_line = if typ % 2 == 1 then set_line caches (lvl * 2) line else caches in
    if ltb lvl cpu_cache_level_max
    then (if typ / 2 == 1 then set_line data_line (lvl * 2 + 1) line else data_line)
    else caches

-- The loop from the cache i on, with fuel; none if that is used up. `leaf` is what cpuid reports.
unfoldable pub read_caches : ℕ → (ℕ → Leaf) → ℕ → (ℕ → ℕ) → Option (ℕ → ℕ)
unfolding note_cache
read_caches zero leaf i caches = none
read_caches (suc k) leaf i caches =
    let rest = read_caches k leaf (suc i) (note_cache caches (leaf i)) in
    if (leaf i).eax % 32 == 0 then some caches else rest

-- `cpuinfo_init`, with the highest leaf that cpuid has.
unfoldable pub cpuinfo_init : ℕ → ℕ → (ℕ → Leaf) → Option (ℕ → ℕ)
unfolding read_caches
cpuinfo_init k maxcpuid leaf =
    let lines = read_caches k leaf 0 default_lines in
    if leb 4 maxcpuid then lines else some default_lines

-- `cpuinfo_get_cache_line`
unfoldable pub cpuinfo_get_cache_line : (ℕ → ℕ) → ℕ → ℕ → ℕ
cpuinfo_get_cache_line caches lvl typ =
    if leb cpu_cache_level_max lvl
    then 0
    else if leb cpu_cache_type_max typ
    then 0
    else caches (lvl * 2 + typ)
