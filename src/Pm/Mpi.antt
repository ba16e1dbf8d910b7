-- ===== src/Pm/Mpi.antt =====
-- modules/pmi/pmi_wrapper_mpi.c: the interface over MPI. What is published is kept in a local archive
-- until the next barrier, which brings the local archives of all processes into each global one.
pub mod Layout
pub mod Barrier
use ibv_bench.Base.{
  ℕ, zero, suc, ◌+◌, ◌*◌, ◌≡◌, Bool, true, false, Option, none, some, List, [], ◌∷◌, ◌++◌, map,
  ◌==◌, if◌then◌else◌, take, drop, length,
}
use ibv_bench.Base.Text.{Text}
use ibv_bench.Pm.Archive.{
  string_limit, Memory, Entry, Archive, size, Run, ok, exited, fault, ◌>>=◌, archive_init,
  archive_fina, archive_clear, archive_push, archive_search,
}

-- `l_archive` and `g_archive`.
pub record Process : Type 0 where
  pub l_archive : Archive
  pub g_archive : Archive

-- The two collective operations, as each process sees them: what all ranks send, in the order of
-- the ranks, to what is received.
pub record Collectives : Type 0 where
  pub allgather : List ℕ → List ℕ
  pub allgatherv : List (List ℕ) → List ℕ → List ℕ → List ℕ

pub lcm_pm_initialize : Bool → Run Process
unfolding archive_init
lcm_pm_initialize malloc_ok = do
  l ← archive_init malloc_ok
  g ← archive_init malloc_ok
  ok (record { l_archive = l; g_archive = g })

pub lcm_pm_publish : Memory → Text → Text → Process → Run Process
unfolding archive_push
lcm_pm_publish memory key value p =
    archive_push memory key value p.l_archive >>= λ l. ok (record p { l_archive = l })

-- `strcpy(value, ret)`: a missing key is a copy from NULL.
pub copied : Option Text → Run Text
copied none = fault
copied (some v) = ok v

unfoldable pub lcm_pm_getname : Text → Process → Run Text
unfolding copied archive_search
lcm_pm_getname key p = copied (archive_search p.g_archive key)

-- A block of `archive_push`: the text, its NUL and what `malloc` left behind it.
pub block : Text → Text → List ℕ
block junk t = take string_limit (t ++ (0 ∷ junk))

-- The loop that fills the send buffer, two blocks for each entry.
pub pack : Text → List Entry → List ℕ
unfolding block
pack junk [] = []
pack junk (e ∷ es) = block junk e.key ++ (block junk e.value ++ pack junk es)

-- The text up to the first NUL.
pub c_string : List ℕ → Text
c_string [] = []
c_string (c ∷ s) = let rest = c_string s in if c == 0 then [] else c ∷ rest

-- The loop over `displs_buf`.
pub displacements : ℕ → List ℕ → List ℕ
displacements current [] = []
displacements current (c ∷ cs) = current ∷ displacements (current + c) cs

pub sum : List ℕ → ℕ
sum [] = 0
sum (c ∷ cs) = c + sum cs

-- The loop that puts the data into the global archive, from entry `i` on, `left` entries.
pub unpack : Memory → List ℕ → ℕ → ℕ → Archive → Run Archive
unfolding c_string
unpack memory dst i zero g = ok g
unpack memory dst i (suc left) g =
    archive_push memory (c_string (drop (2 * i * string_limit) dst))
      (c_string (drop ((2 * i + 1) * string_limit) dst)) g
    >>= unpack memory dst (suc i) left

pub local_size : Process → ℕ
local_size p = size p.l_archive

pub local_entries : Process → List Entry
local_entries p = p.l_archive.entries

-- `lcm_pm_barrier` in the process `own`, where `all` are the processes in the order of their ranks.
-- Memory for the buffers is taken to be there; every `archive_push` gets the same answers.
pub lcm_pm_barrier : Collectives → Text → Memory → List Process → Process → Run Process
unfolding pack displacements sum unpack archive_clear local_size local_entries
lcm_pm_barrier m junk memory all own =
    let count_buf = m.allgather (map local_size all) in
    let byte_counts = map (λ c. c * (string_limit * 2)) count_buf in
    let displs_buf = displacements 0 byte_counts in
    let src_bufs = map (λ p. pack junk (local_entries p)) all in
    let dst_buf = m.allgatherv src_bufs byte_counts displs_buf in
    unpack memory dst_buf 0 (sum count_buf) own.g_archive >>= λ g.
    ok (record { l_archive = archive_clear own.l_archive; g_archive = g })

pub lcm_pm_finalize : Process → Process
unfolding archive_fina
lcm_pm_finalize p = record {
  l_archive = archive_fina p.l_archive;
  g_archive = archive_fina p.g_archive;
}
