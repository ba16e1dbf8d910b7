-- ===== src/Validate/Tests.antt =====
-- Runs of the check of a buffer.
use mathlib.Core.List.{Memᴰ}
use ibv_bench.Base.{
  ℕ, ◌+◌, ◌*◌, ◌^◌, ◌<◌, ◌≤◌, ◌≡◌, refl, ◌≢◌, ◌↔◌, ◌⊎◌, arith, some, none, List, [], ◌∷◌, ◌==◌,
  if◌then◌else◌,
}
use ibv_bench.Validate.{Memory, mark_pages, check_pages}
use ibv_bench.Validate.Pages.{delivered, check_pages-finds}

-- Every byte is 7.
abbrev old_bytes : Memory
old_bytes j = 7

-- Every byte but that at 4 is 0.
abbrev wrong_at_4 : Memory
wrong_at_4 j = if j == 4 then 1 else 0

-- Ten bytes in pages of four, of which the second is wrong; with an offset of 40 the byte is not at
-- a page's beginning.
reports_page : check_pages 4 0 10 wrong_at_4 ≡ some (1 ∷ [])
unfolding check_pages
reports_page = refl

reports_none : check_pages 4 40 10 wrong_at_4 ≡ some []
unfolding check_pages
reports_none = refl

unmarked : check_pages 4 40 10 old_bytes ≡ some (0 ∷ 1 ∷ 2 ∷ [])
unfolding check_pages
unmarked = refl

check_pages-finds_example :
    (l : List ℕ) × (marked : Memory) × (check_pages 4 40 10 old_bytes ≡ some l)
    × (Memᴰ 1 l ↔ (1 * 4 < 10) × (old_bytes (1 * 4 + 40) ≢ 0))
    × (mark_pages 4 40 10 old_bytes ≡ some marked)
    × (check_pages 4 40 10 (delivered 4 40 10 marked wrong_at_4) ≡ some [])
    × ((marked 44 ≡ old_bytes 44) ⊎ (40 ≤ 44) × (44 < 40 + 10))
check_pages-finds_example =
    check_pages-finds 4 40 10 (omega arith) (omega arith) old_bytes wrong_at_4 old_bytes 1 44

-- The index leaves an `int`.
overflows : check_pages (2 ^ 31) 0 3 old_bytes ≡ none
unfolding check_pages
overflows = refl
