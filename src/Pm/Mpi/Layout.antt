-- ===== src/Pm/Mpi/Layout.antt =====
-- modules/pmi/pmi_wrapper_mpi.c: how the entries lie in the buffers of `lcm_pm_barrier`.
use ibv_bench.Base.{
  ℕ, zero, suc, ◌+◌, ◌*◌, ◌≤◌, ◌<◌, ◌≡◌, ◌≢◌, refl, sym, ap, ap₂, ◌∙◌, List, [], ◌∷◌, ◌++◌, map,
  append_assoc, arith, take, length, length-append, length-take,
}
use mathlib.Core.List.{flatten}
use ibv_bench.Base.Text.{Text}
use ibv_bench.Pm.Archive.{string_limit, Entry}
use ibv_bench.Pm.Mpi.{
  Process, Collectives, block, pack, c_string, displacements, sum, local_size, local_entries,
}

-- A text without NUL.
abbrev pub NoNul : Text → Type 0
NoNul [] = Unit
NoNul (c ∷ s) = (c ≢ 0) × NoNul s

-- Texts that a block holds.
pub record IsEntry (e : Entry) : Type 0 where
  pub key_fits : length e.key < string_limit
  pub value_fits : length e.value < string_limit
  pub key_text : NoNul e.key
  pub value_text : NoNul e.value

pub c_string-block :
    (junk t : Text) (n : ℕ) (rest : List ℕ)
    → NoNul t
    → length t < n
    → c_string (take n (t ++ (0 ∷ junk)) ++ rest) ≡ t
unfolding c_string
c_string-block junk [] zero rest h lt = absurd (omega arith)
c_string-block junk [] (suc n) rest h lt = refl
c_string-block junk (c ∷ t) zero rest h lt = absurd (omega arith)
c_string-block junk (c ∷ t) (suc n) rest h lt =
    ground (arith, h.0, c_string-block junk t n rest h.1)

pub length-block :
    (junk t : Text) → string_limit ≤ length junk → length (block junk t) ≡ string_limit
unfolding block
length-block junk t h =
    omega (arith, length-take string_limit (t ++ (0 ∷ junk)), length-append t (0 ∷ junk))

pub length-pack :
    (junk : Text) (es : List Entry)
    → string_limit ≤ length junk
    → length (pack junk es) ≡ length es * (string_limit * 2)
unfolding pack
length-pack junk [] h = refl
length-pack junk (e ∷ es) h = omega (
  arith,
  length-append (block junk e.key) (block junk e.value ++ pack junk es),
  length-append (block junk e.value) (pack junk es),
  length-block junk e.key h,
  length-block junk e.value h,
  length-pack junk es h,
)

-- Blocks that lie one behind another, from `start` on.
abbrev pub Contiguous : ℕ → List ℕ → List ℕ → Type 0
Contiguous start [] [] = Unit
Contiguous start (c ∷ cs) (d ∷ ds) = (d ≡ start) × Contiguous (start + c) cs ds
Contiguous start _ _ = ⊥

-- What the documentation of MPI says of the two operations: every process receives the values of
-- all ranks in order, and the blocks of all ranks, each at its displacement.
pub record IsMpi (m : Collectives) : Type 0 where
  pub gathers : (values : List ℕ) → m.allgather values ≡ values
  pub places :
      (bufs : List (List ℕ)) (counts displs : List ℕ)
      → counts ≡ map length bufs
      → Contiguous 0 counts displs
      → m.allgatherv bufs counts displs ≡ flatten bufs

pub displacements-Contiguous :
    (start : ℕ) (cs : List ℕ) → Contiguous start cs (displacements start cs)
unfolding displacements
displacements-Contiguous start [] = tt
displacements-Contiguous start (c ∷ cs) = (refl, displacements-Contiguous (start + c) cs)

-- All that was published since the last barrier, by rank.
unfoldable pub published : List Process → List Entry
unfolding local_entries
published [] = []
published (p ∷ ps) = local_entries p ++ published ps

pub pack-append :
    (junk : Text) (xs ys : List Entry) → pack junk (xs ++ ys) ≡ pack junk xs ++ pack junk ys
unfolding pack
pack-append junk [] ys = refl
pack-append junk (e ∷ xs) ys = simp (pack-append junk xs ys, append_assoc)

pub flatten-pack :
    (junk : Text) (ps : List Process)
    → flatten (map (λ p. pack junk (local_entries p)) ps) ≡ pack junk (published ps)
unfolding flatten published
flatten-pack junk [] = unfold pack in refl
flatten-pack junk (p ∷ ps) =
    ap (λ l. pack junk (local_entries p) ++ l) (flatten-pack junk ps)
    ∙ sym (pack-append junk (local_entries p) (published ps))

pub sum-local_size : (ps : List Process) → sum (map local_size ps) ≡ length (published ps)
unfolding sum published local_size local_entries
sum-local_size [] = refl
sum-local_size (p ∷ ps) =
    omega (arith, length-append p.l_archive.entries (published ps), sum-local_size ps)

pub byte_counts-eq :
    (junk : Text) (ps : List Process)
    → string_limit ≤ length junk
    → map (λ c. c * (string_limit * 2)) (map local_size ps)
      ≡ map length (map (λ p. pack junk (local_entries p)) ps)
unfolding local_size local_entries
byte_counts-eq junk [] h = refl
byte_counts-eq junk (p ∷ ps) h =
    ap₂ ◌∷◌ (sym (length-pack junk p.l_archive.entries h)) (byte_counts-eq junk ps h)
