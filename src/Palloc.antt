-- ===== src/Palloc.antt =====
-- kernel/mm/palloc.c and inc/kernel/mm/palloc_impl.h: the calls that every allocator of physical pages
-- goes through, and the rounding of addresses to pages.
--
-- An allocator is its table of functions and its data. A `foreach` function is the list of the calls
-- that it makes of its callback.
pub mod Bootstrap
pub mod Contiguous
pub mod Buddy
pub mod Usable
pub mod Chosen
pub mod Blocks
pub mod Pieces
pub mod Runs
pub mod Free
mod Tests
use nkos.Common.{
  ℕ, ◌+◌, ◌-◌, ◌*◌, ◌/◌, ◌%◌, ◌^◌, Option, none, some, List, ltb, if◌then◌else◌, u64_mod,
}

-- PAGE_SIZE
abbrev pub page_size : ℕ
page_size = 4096

-- PAGE_LOG_SIZE
abbrev pub page_log_size : ℕ
page_log_size = 12

-- MAX_ORDER
abbrev pub max_order : ℕ
max_order = 11

-- a & ~(PAGE_SIZE - 1)
abbrev pub page_floor : ℕ → ℕ
page_floor a = a / page_size * page_size

-- (a + PAGE_SIZE - 1) & ~(PAGE_SIZE - 1)
abbrev pub page_ceil : ℕ → ℕ
page_ceil a = page_floor ((a + page_size - 1) % u64_mod)

-- The arguments of a callback: void* base, size_t size.
pub record Span : Type 0 where
  pub base : ℕ
  pub size : ℕ

-- How a call ends: a failed ASSERT, an undefined operation, or a result.
pub data Answer {ℓ} (A : Type ℓ) : Type ℓ where
  panic : Answer A
  undefined : Answer A
  returns : A → Answer A

infixl 5 ◌>>=◌
abbrev pub ◌>>=◌ {ℓ κ} : {A : Type ℓ} {B : Type κ} → Answer A → (A → Answer B) → Answer B
panic >>= f = panic
undefined >>= f = undefined
returns a >>= f = f a

-- struct palloc_vtbl_t, but for `debug`. A missing function is none; `init` is given the zones and
-- the pages of the old allocator.
pub record Vtbl (D : Type 0) : Type 0 where
  pub init : Option (D → List Span → List Span → Answer D)
  pub alloc : Option (D → ℕ → Answer (ℕ × D))
  pub free : Option (D → ℕ → ℕ → Answer D)
  pub foreach_zone : D → List Span
  pub foreach_page : D → List Span

module _ {D : Type 0} where
  -- vptr->alloc, or 0 if there is none
  abbrev pub alloc_with : Option (D → ℕ → Answer (ℕ × D)) → D → ℕ → Answer (ℕ × D)
  alloc_with none d order = returns (0, d)
  alloc_with (some alloc) d order = alloc d order

  unfoldable pub palloc_get : Vtbl D → D → ℕ → Answer (ℕ × D)
  palloc_get v d order = if ltb order max_order then alloc_with v.alloc d order else panic

  abbrev pub free_with : Option (D → ℕ → ℕ → Answer D) → D → ℕ → ℕ → Answer D
  free_with none d addr order = returns d
  free_with (some free) d addr order = free d addr order

  unfoldable pub palloc_free : Vtbl D → D → ℕ → ℕ → Answer D
  palloc_free v d addr order = if ltb order max_order then free_with v.free d addr order else panic

  abbrev pub init_with :
      Option (D → List Span → List Span → Answer D) → D → List Span → List Span → Answer D
  init_with none d zones pages = panic
  init_with (some init) d zones pages = init d zones pages

  -- palloc_init(new, old)
  unfoldable pub palloc_init : {O : Type 0} → Vtbl D → D → Vtbl O → O → Answer D
  palloc_init v d w o = init_with v.init d (w.foreach_zone o) (w.foreach_page o)
