-- ===== src/CpuInfo/Lines.antt =====
-- Theorems on kernel/cpuinfo.c: which line size is given.
use nkos.Common.{
  ap, ◌∙◌, refl, subst, false, leb, true, ◌≤◌, some, ◌≢◌, inr, inl, Bool-cases, ◌&&◌, zero, ◌≡◌,
  ◌+◌, ◌==◌, ◌/◌, ◌*◌, ◌%◌, ◌<◌, Bool, if◌then◌else◌, ℕ, suc, arith,
}
use nkos.CpuInfo.{
  Leaf, default_lines, note_cache, read_caches, cpuinfo_init, cpuinfo_get_cache_line,
  cpu_cache_level_max, cpu_cache_type_max,
}

-- The leaf reports a cache of the level, for data (0) or for code (1).
abbrev pub reports : Leaf → ℕ → ℕ → Bool
reports info lvl typ =
    info.eax / 32 % 8 == suc lvl
    && (if typ == 0 then info.eax % 4 % 2 == 1 else info.eax % 4 / 2 == 1)

-- The line of the last one of the first n leaves that reports such a cache, 32 if none does.
abbrev pub last_line : (ℕ → Leaf) → ℕ → ℕ → ℕ → ℕ
last_line leaf lvl typ zero = 32
last_line leaf lvl typ (suc n) =
    if reports (leaf n) lvl typ then (leaf n).ebx % 2048 + 1 else last_line leaf lvl typ n

note_cache-reports :
    (caches : ℕ → ℕ) (info : Leaf) (lvl typ : ℕ)
    → lvl < cpu_cache_level_max
    → typ < cpu_cache_type_max
    → note_cache caches info (lvl * 2 + typ)
      ≡ (if reports info lvl typ then info.ebx % 2048 + 1 else caches (lvl * 2 + typ))
unfolding note_cache
note_cache-reports caches info lvl typ h l = elim (Bool-cases (typ == 0)) [
  | inl for_data ↦ let e : typ ≡ 0 = ground arith in ground arith
  | inr for_code ↦ let e : typ ≡ 1 = ground arith in ground arith
]

-- The entries say what the first n leaves report.
abbrev pub IsNoted : (ℕ → Leaf) → ℕ → (ℕ → ℕ) → Type 0
IsNoted leaf n caches =
    (lvl typ : ℕ)
    → lvl < cpu_cache_level_max
    → typ < cpu_cache_type_max
    → caches (lvl * 2 + typ) ≡ last_line leaf lvl typ n

-- Leaf n is the first one that reports no cache.
abbrev pub IsEnd : (ℕ → Leaf) → ℕ → Type 0
IsEnd leaf n = ((leaf n).eax % 32 ≡ 0) × ((j : ℕ) → j < n → (leaf j).eax % 32 ≢ 0)

read_caches-IsNoted :
    (k d : ℕ) (leaf : ℕ → Leaf) (i n : ℕ) (caches : ℕ → ℕ)
    → IsEnd leaf n
    → i + d ≡ n
    → d < k
    → IsNoted leaf i caches
    → (c : ℕ → ℕ) × (read_caches k leaf i caches ≡ some c) × IsNoted leaf n c
unfolding read_caches
read_caches-IsNoted zero d leaf i n caches e at fuel noted = absurd (omega arith)
read_caches-IsNoted (suc k) zero leaf i n caches e at fuel noted =
    let same : i ≡ n = omega arith in
    let last : ((leaf i).eax % 32 == 0) ≡ true = let none_there = e.0 in rw same (ground arith) in
    (caches, rw last refl, subst (λ n. IsNoted leaf n caches) same noted)
read_caches-IsNoted (suc k) (suc d) leaf i n caches e at fuel noted =
    let some_cache = e.1 i (omega arith) in
    let more : ((leaf i).eax % 32 == 0) ≡ false = ground arith in
    let next : IsNoted leaf (suc i) (note_cache caches (leaf i)) = λ lvl typ h l.
      note_cache-reports caches (leaf i) lvl typ h l
      ∙ ap (λ old. if reports (leaf i) lvl typ then (leaf i).ebx % 2048 + 1 else old)
          (noted lvl typ h l) in
    let (c, r, all) =
      read_caches-IsNoted k d leaf (suc i) n (note_cache caches (leaf i)) e (omega arith)
        (omega arith) next in
    (c, rw more r, all)

last_line-range :
    (leaf : ℕ → Leaf) (lvl typ n : ℕ)
    → (0 < last_line leaf lvl typ n) × (last_line leaf lvl typ n ≤ 2048)
last_line-range leaf lvl typ zero = (omega arith, omega arith)
last_line-range leaf lvl typ (suc n) =
    let (low, high) = last_line-range leaf lvl typ n in
    elim (Bool-cases (reports (leaf n) lvl typ)) [
      | inl here ↦ rw here (omega arith, omega arith)
      | inr not_here ↦ rw not_here (low, high)
    ]

-- `cpuinfo_init`, where cpuid has leaf 4 and its leaf n is the first one that reports no cache: with fuel above n the loop
-- ends, and `cpuinfo_get_cache_line` then gives, for each of the three levels and for data and code, the line
-- of the last leaf that reports such a cache, 32 if there is none, and so 1 up to 2048.
pub cpuinfo_init-last_line :
    (k maxcpuid n : ℕ) (leaf : ℕ → Leaf)
    → 4 ≤ maxcpuid
    → IsEnd leaf n
    → n < k
    → (caches : ℕ → ℕ) × (cpuinfo_init k maxcpuid leaf ≡ some caches)
      × ((lvl typ : ℕ)
          → lvl < cpu_cache_level_max
          → typ < cpu_cache_type_max
          → (cpuinfo_get_cache_line caches lvl typ ≡ last_line leaf lvl typ n)
            × (0 < cpuinfo_get_cache_line caches lvl typ)
            × (cpuinfo_get_cache_line caches lvl typ ≤ 2048))
unfolding cpuinfo_init cpuinfo_get_cache_line
cpuinfo_init-last_line k maxcpuid n leaf h e fuel =
    let (caches, r, noted) =
      read_caches-IsNoted k n leaf 0 n default_lines e (omega arith) fuel (λ lvl typ h l. refl) in
    let has_leaf : leb 4 maxcpuid ≡ true = ground arith in
    (
      caches,
      rw has_leaf r,
      λ lvl typ h l.
          (let level : leb cpu_cache_level_max lvl ≡ false = ground arith in
            let kind : leb cpu_cache_type_max typ ≡ false = ground arith in
            let line = noted lvl typ h l in
            let (low, high) = last_line-range leaf lvl typ n in
            rw (level, kind) (line, omega arith, omega arith)),
    )
