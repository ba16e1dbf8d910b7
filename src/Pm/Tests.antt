-- ===== src/Pm/Tests.antt =====
-- The archive and the barrier of two processes at fixed values.
use ibv_bench.Base.{
  All, ℕ, ◌≡◌, refl, none, List, [], ◌∷◌, ◌++◌, arith, replicate, length-replicate,
}
use mathlib.Core.List.{flatten}
use ibv_bench.Base.Text.{codes, text_eq}
use ibv_bench.Pm.Archive.{
  enough, Entry, Archive, IsArchive, ok, archive_push, archive_push-adds, search_entries,
}
use ibv_bench.Pm.Mpi.{Process, Collectives, lcm_pm_barrier, lcm_pm_getname}
use ibv_bench.Pm.Mpi.Layout.{IsMpi, IsEntry, published}
use ibv_bench.Pm.Mpi.Barrier.{lcm_pm_barrier-gathers, lcm_pm_getname-first}

abbrev entry : Entry
entry = record { key = codes "rank0"; value = codes "mlx5_0" }

abbrev other : Entry
other = record { key = codes "rank1"; value = codes "mlx5_1" }

abbrev empty : Archive
empty = record { entries = []; capacity = 8; strings = 0 }

empty-IsArchive : IsArchive empty
empty-IsArchive = record { room = omega arith; some_capacity = omega arith; blocks = omega arith }

abbrev one : Archive
one = record { entries = entry ∷ []; capacity = 8; strings = 2 }

one-IsArchive : IsArchive one
one-IsArchive = record { room = omega arith; some_capacity = omega arith; blocks = omega arith }

abbrev full : Archive
full = record { entries = entry ∷ []; capacity = 1; strings = 2 }

full-IsArchive : IsArchive full
full-IsArchive = record { room = omega arith; some_capacity = omega arith; blocks = omega arith }

-- An array that has to grow.
archive_push-adds_example :
    (b : Archive) × (archive_push enough (codes "rank1") (codes "mlx5_1") full ≡ ok b)
    × (b.entries ≡ (entry ∷ []) ++ (record { key = codes "rank1"; value = codes "mlx5_1" } ∷ []))
    × IsArchive b
archive_push-adds_example =
    archive_push-adds enough (codes "rank1") (codes "mlx5_1") full full-IsArchive (omega arith)
      (omega arith) (λ _. refl) refl refl

-- MPI as it documents its two operations, for messages that lie behind one another.
abbrev network : Collectives
network = record { allgather = λ s. s; allgatherv = λ s counts places. flatten s }

network-IsMpi : IsMpi network
network-IsMpi = record { gathers = λ s. refl; places = λ s counts places lengths contiguous. refl }

abbrev rank0 : Process
rank0 = record { l_archive = one; g_archive = empty }

abbrev rank1 : Process
rank1 = record {
  l_archive = record { entries = other ∷ []; capacity = 8; strings = 2 };
  g_archive = empty;
}

abbrev job : List Process
job = rank0 ∷ rank1 ∷ []

job-IsEntry : All IsEntry (published job)
unfolding published
job-IsEntry = (
  record {
    key_fits = omega arith;
    value_fits = omega arith;
    key_text = ground arith;
    value_text = ground arith;
  },
  (
    record {
      key_fits = omega arith;
      value_fits = omega arith;
      key_text = ground arith;
      value_text = ground arith;
    },
    tt,
  ),
)

lcm_pm_barrier-gathers_example :
    (after : Process) × (lcm_pm_barrier network (replicate 256 0) enough job rank1 ≡ ok after)
    × (after.g_archive.entries ≡ [] ++ published job)
    × IsArchive after.g_archive
    × (after.l_archive.entries ≡ [])
lcm_pm_barrier-gathers_example =
    lcm_pm_barrier-gathers (replicate 256 0) (omega (arith, length-replicate {A = ℕ} 256 0)) network
      job rank1 network-IsMpi job-IsEntry empty-IsArchive

abbrev gathered : Process
gathered = record {
  l_archive = empty;
  g_archive = record { entries = entry ∷ other ∷ []; capacity = 8; strings = 4 };
}

fresh : search_entries (entry ∷ []) (codes "rank1") ≡ none
unfolding search_entries text_eq
fresh = refl

lcm_pm_getname-first_example : lcm_pm_getname (codes "rank1") gathered ≡ ok (codes "mlx5_1")
lcm_pm_getname-first_example = lcm_pm_getname-first gathered (entry ∷ []) [] other refl fresh
