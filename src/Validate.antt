-- ===== src/Validate.antt =====
-- The option --chk of rdma-core/rc_pingpong.c, rdma-core/uc_pingpong.c, rdma-core/ud_pingpong.c and
-- rdma-core/srq_pingpong.c: the loops that mark the pages of a buffer and look for the marks. The
-- index `i` is an `int`, whose overflow is undefined; the loops then give none.
pub mod Pages
mod Tests
use ibv_bench.Base.{
  ℕ, zero, suc, ◌+◌, ◌/◌, ◌%◌, ◌^◌, Bool, not, ◌&&◌, Option, none, some, List, [], ◌∷◌, ltb, ◌==◌,
  if◌then◌else◌,
}

-- The bytes at `buf`, by their distance from it.
abbrev pub Memory : Type 0
Memory = ℕ → ℕ

abbrev pub sizeof_char : ℕ
sizeof_char = 1

unfoldable pub store : ℕ → ℕ → Memory → Memory
store at v m j = if j == at then v else m j

-- `page_size` is at least 1; `offset` is 40 in ud_pingpong.c, and 0 in the others.
module _ (page_size offset size : ℕ) where
  -- `i / page_size % sizeof(char)`
  unfoldable pub page_mark : ℕ → ℕ
  page_mark i = i / page_size % sizeof_char

  -- Whether `i += page_size` stays in an `int`.
  abbrev pub in_int : ℕ → Bool
  in_int i = ltb (i + page_size) (2 ^ 31)

  -- The loop that marks the pages, from `i` on, with fuel.
  unfoldable pub mark_from : ℕ → ℕ → Memory → Option Memory
  unfolding store page_mark
  mark_from zero i m = some m
  mark_from (suc fuel) i m =
      let rest = mark_from fuel (i + page_size) (store (i + offset) (page_mark i) m) in
      if ltb i size then if in_int i then rest else none else some m

  unfoldable pub mark_pages : Memory → Option Memory
  unfolding mark_from
  mark_pages m = mark_from size 0 m

  -- The page of `i` is printed as invalid in front of those behind it.
  reported : Bool → ℕ → Option (List ℕ) → Option (List ℕ)
  reported valid page none = none
  reported valid page (some l) = some (if valid then l else page ∷ l)

  -- The loop that looks at them: the pages that are printed as invalid.
  unfoldable pub check_from : ℕ → ℕ → Memory → Option (List ℕ)
  unfolding page_mark reported
  check_from zero i m = some []
  check_from (suc fuel) i m =
      let rest = check_from fuel (i + page_size) m in
      let all = reported (m (i + offset) == page_mark i) (i / page_size) rest in
      if ltb i size then if in_int i then all else none else some []

  unfoldable pub check_pages : Memory → Option (List ℕ)
  unfolding check_from
  check_pages m = check_from size 0 m

  -- The client in front of its first send: the marks, and in rc_pingpong.c the copy to device memory,
  -- which ends `main` where it fails. The result is what `buf` holds; none also stands for an overflow
  -- of the index.
  pub prepare : (validate_buf use_dm copy_ok : Bool) → Memory → Option Memory
  unfolding mark_pages
  prepare validate_buf use_dm copy_ok m =
      if use_dm && not copy_ok then none else if validate_buf then mark_pages m else some m
