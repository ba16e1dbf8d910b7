-- ===== src/Validate/Pages.antt =====
-- What the check of the buffer finds.
use native.Mathlib.Nat.{mul-div_cancel, mul-le-mul_right}
use mathlib.Core.List.{Memᴰ}
use mathlib.Core.List.Memᴰ
use ibv_bench.Base.{
  ℕ, zero, suc, ◌+◌, ◌*◌, ◌/◌, ◌^◌, some, ◌≤◌, ◌<◌, ◌≡◌, refl, ap, sym, ◌∙◌, ◌≢◌, ◌↔◌, ◌⊎◌, inl,
  inr, List, [], ◌∷◌, arith, ltb, leb, ◌&&◌, ◌==◌, if◌then◌else◌, Bool-cases, ℕ_discrete, dec_lt,
}
use ibv_bench.Validate.{
  Memory, store, page_mark, mark_from, mark_pages, check_from, check_pages, reported,
}

module _ (page_size offset size : ℕ) where
  -- The memory of a receiver that held some bytes, once the `size` bytes behind the offset are those
  -- of a sender.
  abbrev pub delivered : Memory → Memory → Memory
  delivered sent held j = if leb offset j && ltb j (offset + size) then sent j else held j

  -- The loops, with an index that does not overflow.
  mark_run : ℕ → ℕ → Memory → Memory
  mark_run zero i m = m
  mark_run (suc fuel) i m =
      let rest =
        mark_run fuel (i + page_size) (store (i + offset) (page_mark page_size offset size i) m) in
      if ltb i size then rest else m

  check_run : ℕ → ℕ → Memory → List ℕ
  check_run zero i m = []
  check_run (suc fuel) i m =
      let rest = check_run fuel (i + page_size) m in
      if ltb i size
      then if m (i + offset) == page_mark page_size offset size i
        then rest
        else i / page_size ∷ rest
      else []

  -- All pages have the same mark.
  page_mark_lem : (i : ℕ) → page_mark page_size offset size i ≡ 0
  unfolding page_mark
  page_mark_lem i = omega arith

  -- Bytes in front of the page, and those behind the buffer, stay.
  mark_run-outside :
      (fuel i j : ℕ) (m : Memory)
      → (j < i + offset) ⊎ (offset + size ≤ j)
      → mark_run fuel i m j ≡ m j
  unfolding mark_run store
  mark_run-outside zero i j m h = refl
  mark_run-outside (suc fuel) i j m h =
      let m' = store (i + offset) (page_mark page_size offset size i) m in
      let rest = mark_run-outside fuel (i + page_size) j m' in ground (arith, h, rest)

  module _ (pos : 0 < page_size) where
    next_page : (q : ℕ) → suc q * page_size ≡ q * page_size + page_size
    next_page q = omega arith

    page_of : (q : ℕ) → q * page_size / page_size ≡ q
    page_of q = mul-div_cancel q pos

    mark_run-here :
        (fuel i j : ℕ) (m : Memory) → j ≡ i → i < size → mark_run (suc fuel) i m (j + offset) ≡ 0
    unfolding mark_run store
    mark_run-here fuel i j m same lt =
        let mark = page_mark_lem i in
        let m' = store (i + offset) (page_mark page_size offset size i) m in
        let kept = mark_run-outside fuel (i + page_size) (j + offset) m' (inl (omega arith)) in
        ground (arith, kept, mark)

    mark_run-next :
        (fuel i : ℕ) (m : Memory)
        → i < size
        → mark_run (suc fuel) i m
          ≡ mark_run fuel (i + page_size) (store (i + offset) (page_mark page_size offset size i) m)
    unfolding mark_run
    mark_run-next fuel i m lt = ground arith

    mark_run-marks :
        (fuel q i k : ℕ) (m : Memory)
        → i ≡ q * page_size
        → q ≤ k
        → k * page_size < size
        → size ≤ i + fuel
        → mark_run fuel i m (k * page_size + offset) ≡ 0
    mark_run-marks zero q i k m at le lt enough =
        let below = mul-le-mul_right page_size le in absurd (omega arith)
    mark_run-marks (suc fuel) q i k m at le lt enough =
        let below = mul-le-mul_right page_size le in
        let on : i < size = omega arith in
        elim (ℕ_discrete q k) [
          | yes same ↦
              mark_run-here fuel i (k * page_size) m (sym (ap (λ x. x * page_size) same) ∙ sym at)
                on
          | no other ↦
              let m' = store (i + offset) (page_mark page_size offset size i) m in
              rw (mark_run-next fuel i m on) (
                mark_run-marks fuel (suc q) (i + page_size) k m' (omega arith) (omega arith) lt
                  (omega arith))
        ]

    -- One step: the page `q` is reported or not, and what follows.
    check_run-step :
        (fuel q i : ℕ) (m : Memory)
        → i ≡ q * page_size
        → i < size
        → let rest = check_run fuel (i + page_size) m in
          check_run (suc fuel) i m ≡ (if m (i + offset) == 0 then rest else q ∷ rest)
    unfolding check_run
    check_run-step fuel q i m at lt =
        let mark = page_mark_lem i in
        let page : i / page_size ≡ q = ap (λ x. x / page_size) at ∙ mul-div_cancel q pos in
        ground (arith, mark, page)

    check_run-past : (fuel i : ℕ) (m : Memory) → size ≤ i → check_run fuel i m ≡ []
    unfolding check_run
    check_run-past zero i m le = refl
    check_run-past (suc fuel) i m le = ground arith

    abbrev Finds : ℕ → ℕ → Memory → List ℕ → Type 0
    Finds q k m l = Memᴰ k l ↔ (q ≤ k) × (k * page_size < size) × (m (k * page_size + offset) ≢ 0)

    Finds-nil : (q k : ℕ) (m : Memory) → size ≤ q * page_size → Finds q k m []
    Finds-nil q k m past = (
      λ h. absurd (Memᴰ.not-nil h),
      λ (le, lt, _). let below = mul-le-mul_right page_size le in absurd (omega arith),
    )

    -- The byte of a page that is not reported.
    at_page :
        (q k : ℕ) (m : Memory) → q ≡ k → m (k * page_size + offset) ≡ m (q * page_size + offset)
    at_page q k m same = ap (λ x. m (x * page_size + offset)) (sym same)

    Finds-skip :
        (q k : ℕ) (m : Memory) (l : List ℕ)
        → m (q * page_size + offset) ≡ 0
        → Finds (suc q) k m l
        → Finds q k m l
    Finds-skip q k m l good (to, from) = (
      λ h. let (le, lt, bad) = to h in (omega arith, lt, bad),
      λ (le, lt, bad). elim (ℕ_discrete q k) [
        | yes same ↦ absurd (bad (at_page q k m same ∙ good))
        | no other ↦ from (omega arith, lt, bad)
      ],
    )

    Finds-hit :
        (q k : ℕ) (m : Memory) (l : List ℕ)
        → q * page_size < size
        → m (q * page_size + offset) ≢ 0
        → Finds (suc q) k m l
        → Finds q k m (q ∷ l)
    Finds-hit q k m l on wrong (to, from) = (
      λ h. elim (Memᴰ.cases_cons h) [
        | inl same ↦ rw same (omega arith, on, wrong)
        | inr behind ↦ let (le, lt, bad) = to behind in (omega arith, lt, bad)
      ],
      λ (le, lt, bad). elim (ℕ_discrete q k) [
        | yes same ↦ Memᴰ.head (sym same)
        | no other ↦ Memᴰ.tail (from (omega arith, lt, bad))
      ],
    )

    Finds-cons :
        (q k : ℕ) (m : Memory) (l : List ℕ)
        → q * page_size < size
        → Finds (suc q) k m l
        → Finds q k m (if m (q * page_size + offset) == 0 then l else q ∷ l)
    Finds-cons q k m l on rest = elim (Bool-cases (m (q * page_size + offset) == 0)) [
      | inl good ↦ rw good (Finds-skip q k m l (ground (arith, good)) rest)
      | inr wrong ↦ rw wrong (Finds-hit q k m l on (λ h. ground (arith, wrong, h)) rest)
    ]

    check_run_iff :
        (fuel q i k : ℕ) (m : Memory)
        → i ≡ q * page_size
        → size ≤ i + fuel
        → Finds q k m (check_run fuel i m)
    check_run_iff zero q i k m at enough =
        rw (check_run-past zero i m (omega arith)) (Finds-nil q k m (omega arith))
    check_run_iff (suc fuel) q i k m at enough = elim (dec_lt i size) [
      | yes on ↦
          let rest = check_run_iff fuel (suc q) (i + page_size) k m (omega arith) (omega arith) in
          let l = check_run fuel (i + page_size) m in
          let byte = ap (λ x. m (x + offset)) at in
          rw (check_run-step fuel q i m at on) (rw byte (Finds-cons q k m l (omega arith) rest))
      | no past ↦ rw (check_run-past (suc fuel) i m (omega arith)) (Finds-nil q k m (omega arith))
    ]

    no_member : (l : List ℕ) → ((k : ℕ) → Memᴰ k l → ⊥) → l ≡ []
    no_member [] none_in = refl
    no_member (k ∷ l) none_in = absurd (none_in k (Memᴰ.head refl))

    check_run-delivered :
        (m held : Memory) → check_run size 0 (delivered (mark_run size 0 m) held) ≡ []
    check_run-delivered m held =
        let sent = mark_run size 0 m in
        no_member (check_run size 0 (delivered sent held)) (λ k h.
          let (_, lt, bad) =
            (check_run_iff size 0 0 k (delivered sent held) (omega arith) (omega arith)).0 h in
          let marked = mark_run-marks size 0 0 k m (omega arith) (omega arith) lt (omega arith) in
          bad (ground (arith, marked)))

    inside_or_same :
        (m : Memory) (j : ℕ) → (mark_run size 0 m j ≡ m j) ⊎ (offset ≤ j) × (j < offset + size)
    inside_or_same m j = elim (dec_lt j offset) [
      | yes front ↦ inl (mark_run-outside size 0 j m (inl (omega arith)))
      | no at ↦ elim (dec_lt j (offset + size)) [
        | yes inside ↦ inr (omega arith, inside)
        | no behind ↦ inl (mark_run-outside size 0 j m (inr (omega arith)))
      ]
    ]

    module _ (no_overflow : size + page_size ≤ 2 ^ 31) where
      mark_from-run :
          (fuel i : ℕ) (m : Memory)
          → mark_from page_size offset size fuel i m ≡ some (mark_run fuel i m)
      unfolding mark_from mark_run
      mark_from-run zero i m = refl
      mark_from-run (suc fuel) i m =
          let m' = store (i + offset) (page_mark page_size offset size i) m in
          let rest = mark_from-run fuel (i + page_size) m' in ground (arith, rest, no_overflow)

      check_from-run :
          (fuel i : ℕ) (m : Memory)
          → check_from page_size offset size fuel i m ≡ some (check_run fuel i m)
      unfolding check_from check_run reported
      check_from-run zero i m = refl
      check_from-run (suc fuel) i m =
          let rest = check_from-run fuel (i + page_size) m in ground (arith, rest, no_overflow)

      -- Pages have at least one byte, and `size` and a page together at most 2^31, so that the index,
      -- an `int`, does not overflow. The pages that are reported are those, of the `size` bytes behind
      -- the offset, whose first byte is not 0. Where these bytes are those of a buffer whose pages were
      -- marked, none is reported. Marking the pages changes at most bytes among these.
      pub check_pages-finds :
          (m held arrived : Memory) (k j : ℕ)
          → (l : List ℕ) × (marked : Memory) × (check_pages page_size offset size arrived ≡ some l)
            × (Memᴰ k l ↔ (k * page_size < size) × (arrived (k * page_size + offset) ≢ 0))
            × (mark_pages page_size offset size m ≡ some marked)
            × (check_pages page_size offset size (delivered marked held) ≡ some [])
            × ((marked j ≡ m j) ⊎ (offset ≤ j) × (j < offset + size))
      unfolding check_pages mark_pages
      check_pages-finds m held arrived k j =
          let (to, from) = check_run_iff size 0 0 k arrived (omega arith) (omega arith) in
          let marked = mark_run size 0 m in
          (
            check_run size 0 arrived,
            marked,
            check_from-run size 0 arrived,
            (λ h. let (_, lt, bad) = to h in (lt, bad), λ (lt, bad). from (omega arith, lt, bad)),
            mark_from-run size 0 m,
            check_from-run size 0 (delivered marked held) ∙ ap some (check_run-delivered m held),
            inside_or_same m j,
          )
