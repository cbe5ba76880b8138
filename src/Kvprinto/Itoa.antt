-- ===== src/Kvprinto/Itoa.antt =====
-- `itoa` of kernel/utl/printf.c. The buffer is filled from its end, so the text from `p` on is a
-- list that grows at its front, and `p - buffer` is the room that is left.
use nkos.Common.{
  ℕ, zero, suc, ◌+◌, ◌-◌, ◌/◌, ◌%◌, true, false, Option, none, some, List, [], ◌∷◌, ltb, ◌==◌,
  if◌then◌else◌,
}

-- "0123456789abcdef"[d]
unfoldable pub digit : ℕ → ℕ
digit d = if ltb d 10 then b'0' + d else b'a' + (d - 10)

-- The `while`, and the result: none stands for the null pointer that says that the room ran out.
unfoldable pub itoa_loop : ℕ → ℕ → ℕ → List ℕ → Option (List ℕ)
unfolding digit
itoa_loop zero base val p = if val == 0 then some p else none
itoa_loop (suc room) base val p = elim (val == 0) [
  | true ↦ some p
  | false ↦ itoa_loop room base (val / base) (digit (val % base) ∷ p)
]

-- The last byte of the buffer holds the NUL; `*plen` is the length of the text.
unfoldable pub itoa : ℕ → ℕ → ℕ → Option (List ℕ)
unfolding itoa_loop
itoa val len base = if val == 0 then some (b'0' ∷ []) else itoa_loop (len - 1) base val []
