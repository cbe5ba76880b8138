-- ===== src/E820/Third.antt =====
-- The branch of `e820_overlap` in which entry i keeps its place and the next one is trimmed and sorted
-- in again: the loop goes on at i + 1.
