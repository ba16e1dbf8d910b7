-- ===== src/Pm/Mpi/Barrier.antt =====
-- modules/pmi/pmi_wrapper_mpi.c: what `lcm_pm_barrier` makes of the local archives.
use ibv_bench.Base.{
  All, ℕ, suc, ◌+◌, ◌*◌, ◌≤◌, ◌≡◌, refl, sym, ap, ap₂, ◌∙◌, none, List, [], ◌∷◌, ◌++◌, map,
  append-nil, append_assoc, arith, take, drop, length, length-append, drop-append_of_length,
}
use ibv_bench.Base.Text.{Text}
use ibv_bench.Pm.Archive.{
  string_limit, enough, Entry, Archive, IsArchive, Run, ok, ◌>>=◌, archive_clear, archive_push,
  archive_push-adds, search_entries, search_entries-first,
}
use ibv_bench.Pm.Mpi.{
  Process, Collectives, block, pack, c_string, displacements, sum, unpack, local_size,
  local_entries, lcm_pm_barrier, lcm_pm_getname, copied,
}
use ibv_bench.Pm.Mpi.Layout.{
  IsEntry, c_string-block, length-block, IsMpi, displacements-Contiguous, published, flatten-pack,
  sum-local_size, byte_counts-eq,
}

module _ (junk : Text) (long : string_limit ≤ length junk) where
  -- The two texts of entry `i` are read back from their blocks.
  read_entry :
      (e : Entry) (es : List Entry) (before dst : List ℕ) (i : ℕ)
      → IsEntry e
      → length before ≡ i * (string_limit * 2)
      → dst ≡ before ++ pack junk (e ∷ es)
      → (c_string (drop (2 * i * string_limit) dst) ≡ e.key)
        × (c_string (drop ((2 * i + 1) * string_limit) dst) ≡ e.value)
  read_entry e es before dst i h at split = (
    ap c_string first ∙ c_string-block junk e.key string_limit _ h.key_text h.key_fits,
    ap c_string second ∙ c_string-block junk e.value string_limit _ h.value_text h.value_fits,
  )
    where
      first :
          drop (2 * i * string_limit) dst
          ≡ take string_limit (e.key ++ (0 ∷ junk)) ++ (block junk e.value ++ pack junk es)
      first =
          unfold pack block in
          (ap (drop (2 * i * string_limit)) split
            ∙ drop-append_of_length before _ (2 * i * string_limit) 0 (omega arith))

      second :
          drop ((2 * i + 1) * string_limit) dst
          ≡ take string_limit (e.value ++ (0 ∷ junk)) ++ pack junk es
      second =
          unfold pack block in
          (ap (drop ((2 * i + 1) * string_limit)) split
            ∙ drop-append_of_length before _ ((2 * i + 1) * string_limit) string_limit (omega arith)
            ∙ drop-append_of_length (block junk e.key) _ string_limit 0
                (omega (arith, length-block junk e.key long)))

  -- The archive that holds `es` behind what it held, after an unpacking that succeeds.
  abbrev Added : Run Archive → Archive → List Entry → Type 0
  Added r g es = (g' : Archive) × (r ≡ ok g') × (g'.entries ≡ g.entries ++ es) × IsArchive g'

  unpack-pack :
      (es : List Entry) (before dst : List ℕ) (i : ℕ) (g : Archive)
      → All IsEntry es
      → length before ≡ i * (string_limit * 2)
      → dst ≡ before ++ pack junk es
      → IsArchive g
      → Added (unpack enough dst i (length es) g) g es
  unfolding unpack
  unpack-pack [] before dst i g h at split v = (g, refl, sym (append-nil g.entries), v)
  unpack-pack (e ∷ es) before dst i g h at split v =
      let (key_read, value_read) = read_entry e es before dst i h.0 at split in
      let (g1, run, added, v1) =
        archive_push-adds enough e.key e.value g v h.0.key_fits h.0.value_fits (λ _. refl) refl
          refl in
      let own_blocks = block junk e.key ++ block junk e.value in
      let (g2, run2, added2, v2) =
        unpack-pack es (before ++ own_blocks) dst (suc i) g1 h.1 (next_place e before i at)
          (split ∙ next_split e es before) v1 in
      (
        g2,
        ap (λ m. m >>= unpack enough dst (suc i) (length es))
              (ap₂ (λ k w. archive_push enough k w g) key_read value_read ∙ run)
            ∙ run2,
        added2 ∙ ap (λ l. l ++ es) added ∙ append_assoc g.entries (e ∷ []) es,
        v2,
      )
    where
      next_place :
          (e : Entry) (before : List ℕ) (i : ℕ)
          → length before ≡ i * (string_limit * 2)
          → length (before ++ (block junk e.key ++ block junk e.value)) ≡ suc i * (string_limit * 2)
      next_place e before i at = omega (
        arith,
        length-append before (block junk e.key ++ block junk e.value),
        length-append (block junk e.key) (block junk e.value),
        length-block junk e.key long,
        length-block junk e.value long,
      )

      next_split :
          (e : Entry) (es : List Entry) (before : List ℕ)
          → before ++ pack junk (e ∷ es)
            ≡ (before ++ (block junk e.key ++ block junk e.value)) ++ pack junk es
      next_split e es before = unfold pack in simp append_assoc

  -- Every process comes out of the barrier with all that any process had published before it, by
  -- rank and in order, behind what its global archive held, and with an empty local archive. The
  -- texts are shorter than 256 bytes and have no NUL, MPI does what it documents, and memory does
  -- not run out.
  pub lcm_pm_barrier-gathers :
      (m : Collectives) (all : List Process) (own : Process)
      → IsMpi m
      → All IsEntry (published all)
      → IsArchive own.g_archive
      → (after : Process) × (lcm_pm_barrier m junk enough all own ≡ ok after)
        × (after.g_archive.entries ≡ own.g_archive.entries ++ published all)
        × IsArchive after.g_archive
        × (after.l_archive.entries ≡ [])
  unfolding lcm_pm_barrier archive_clear
  lcm_pm_barrier-gathers m all own mpi entries v =
      let (g, run, added, v') =
        unpack-pack (published all) [] (pack junk (published all)) 0 own.g_archive entries refl refl
          v in
      (
        record { l_archive = archive_clear own.l_archive; g_archive = g },
        gathered ∙ ap (λ r. r >>= with_global) run,
        added,
        v',
        refl,
      )
    where
      sizes : List ℕ
      sizes = map local_size all

      sources : List (List ℕ)
      sources = map (λ p. pack junk (local_entries p)) all

      bytes : List ℕ → List ℕ
      bytes = map (λ c. c * (string_limit * 2))

      with_global : Archive → Run Process
      with_global g = ok (record { l_archive = archive_clear own.l_archive; g_archive = g })

      unpacked : List ℕ → ℕ → Run Process
      unpacked dst n = unpack enough dst 0 n own.g_archive >>= with_global

      gathered :
          lcm_pm_barrier m junk enough all own
          ≡ unpacked (pack junk (published all)) (length (published all))
      gathered =
          ap (λ c. unpacked (m.allgatherv sources (bytes c) (displacements 0 (bytes c))) (sum c))
            (mpi.gathers sizes)
          ∙ ap (λ d. unpacked d (sum sizes))
              (mpi.places sources (bytes sizes) (displacements 0 (bytes sizes))
                  (byte_counts-eq junk all long) (displacements-Contiguous 0 (bytes sizes))
                ∙ flatten-pack junk all)
          ∙ ap (unpacked (pack junk (published all))) (sum-local_size all)

-- A key that is in the global archive is found, with the value of its first entry.
pub lcm_pm_getname-first :
    (p : Process) (before after : List Entry) (e : Entry)
    → p.g_archive.entries ≡ before ++ (e ∷ after)
    → search_entries before e.key ≡ none
    → lcm_pm_getname e.key p ≡ ok e.value
unfolding lcm_pm_getname
lcm_pm_getname-first p before after e at fresh =
    ap copied (ap (λ l. search_entries l e.key) at ∙ search_entries-first before after e fresh)
