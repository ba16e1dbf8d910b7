-- ===== src/Srq/Setup/Balance.antt =====
-- What `pp_init_ctx` and `pp_close_ctx` of rdma-core/srq_pingpong.c acquire and release.
use Prim.Native.Nat.{bit_or}
use ibv_bench.Base.{
  ℕ, zero, suc, ◌+◌, ◌≡◌, ◌≢◌, ◌↔◌, inl, inr, Option-cases, refl, Bool, true, false, Option, none,
  some, List, [], ◌∷◌, ◌++◌, arith, ◌==◌, if◌then◌else◌,
}
use ibv_bench.Srq.Setup.{
  Resource, ctx_memory, work_buf, device, comp_channel, pd, mr, cq, srq, Action, acquire, release,
  create, destroy, Options, Answers, Built, Setup, clean_ctx, clean_buffer, clean_device,
  clean_comp_channel, clean_pd, clean_mr, clean_cq, clean_qps, modify_qps, inline_flag, create_qps,
  create_srq, create_cq, reg_mr, alloc_pd, create_channel, check_odp, open_device, alloc_buf,
  pp_init_ctx, CloseAnswers, close_shared, close_qps, pp_close_ctx,
}

-- All but the queue pairs nest: each is created from those acquired before it.
abbrev number : Resource → ℕ
number ctx_memory = 0
number work_buf = 1
number device = 2
number comp_channel = 3
number pd = 4
number mr = 5
number cq = 6
number srq = 7

release_top : Resource → List Resource → Option (List Resource)
release_top r [] = none
release_top r (t ∷ held) = if number r == number t then some held else none

remove_qp : ℕ → List ℕ → Option (List ℕ)
remove_qp n [] = none
remove_qp n (m ∷ ms) =
    if n == m then some ms else elim (remove_qp n ms) [ none ↦ none | some r ↦ some (m ∷ r) ]

-- The resources held after some actions, latest first, and the queue pairs. It is an error to
-- destroy a queue pair that is not held, and to release any other resource but the latest, or while
-- a queue pair is held.
pub replay : List Action → List Resource → List ℕ → Option (List Resource × List ℕ)
unfolding release_top remove_qp
replay [] held qps = some (held, qps)
replay (acquire r ∷ acts) held qps = replay acts (r ∷ held) qps
replay (release r ∷ acts) held [] = elim (release_top r held) [
  | none ↦ none
  | some rest ↦ replay acts rest []
]
replay (release r ∷ acts) held (q ∷ qps) = none
replay (create n ∷ acts) held qps = replay acts held (n ∷ qps)
replay (destroy n ∷ acts) held qps = elim (remove_qp n qps) [
  | none ↦ none
  | some rest ↦ replay acts held rest
]

-- The queue pairs from `lo` on, the latest first.
pub down : ℕ → ℕ → List ℕ
down lo zero = []
down lo (suc k) = (lo + k) ∷ down lo k

abbrev at_device : List Resource
at_device = device ∷ work_buf ∷ ctx_memory ∷ []

abbrev at_channel : Built → List Resource
at_channel c = if c.channel then comp_channel ∷ at_device else at_device

abbrev pub held : Built → List Resource
held c = srq ∷ cq ∷ mr ∷ pd ∷ at_channel c

abbrev pub held_by : ℕ → Option Built → List Resource × List ℕ
held_by num_qp none = ([], [])
held_by num_qp (some c) = (held c, down 0 num_qp)

clean_cq-lem : (c : Built) → replay (clean_cq c) (cq ∷ mr ∷ pd ∷ at_channel c) [] ≡ some ([], [])
unfolding clean_cq clean_mr clean_pd clean_comp_channel clean_device replay
clean_cq-lem c = ground arith

clean_qps-lem : (i : ℕ) (c : Built) → replay (clean_qps i c) (held c) (down 0 i) ≡ some ([], [])
unfolding clean_qps replay down
clean_qps-lem zero c = clean_cq-lem c
clean_qps-lem (suc i) c = ground (arith, clean_qps-lem i c)

module _ (o : Options) (d : Answers) where
  abbrev Balanced : Setup → List Resource → List ℕ → Type 0
  Balanced (r, acts) before qps = replay acts before qps ≡ some (held_by o.num_qp r)

  modify_qps-Balanced :
      (i left : ℕ) (c : Built) → Balanced (modify_qps o d i left c) (held c) (down 0 o.num_qp)
  unfolding modify_qps replay
  modify_qps-Balanced i zero c = refl
  modify_qps-Balanced i (suc left) c =
      ground (arith, modify_qps-Balanced (suc i) left c, clean_qps-lem o.num_qp c)

  create_qps-Balanced :
      (i left : ℕ) (c : Built)
      → i + left ≡ o.num_qp
      → Balanced (create_qps o d i left c) (held c) (down 0 i)
  unfolding create_qps inline_flag replay down
  create_qps-Balanced i zero c h =
      let same : i ≡ o.num_qp = omega arith in
      ground (arith, same, modify_qps-Balanced 0 o.num_qp c)
  create_qps-Balanced i (suc left) c h = elim (Option-cases (d.qp i)) [
    | inl failed ↦ ground (arith, failed, clean_qps-lem i c)
    | inr (m, made) ↦ ground (arith, made, create_qps-Balanced (suc i) left (inline_flag o d m c))
  ]

  reg_mr-Balanced : (c : Built) → Balanced (reg_mr o d c) (pd ∷ at_channel c) []
  unfolding reg_mr create_cq create_srq clean_mr clean_pd clean_comp_channel clean_device replay
      down
  reg_mr-Balanced c = ground (arith, create_qps-Balanced 0 o.num_qp c (omega arith), clean_cq-lem c)

  alloc_pd-Balanced : (c : Built) → Balanced (alloc_pd o d c) (at_channel c) []
  unfolding alloc_pd clean_comp_channel clean_device replay
  alloc_pd-Balanced c = ground (arith, reg_mr-Balanced c)

  create_channel-Balanced :
      (c : Built) → c.channel ≡ false → Balanced (create_channel o d c) at_device []
  unfolding create_channel clean_device replay
  create_channel-Balanced c h =
      ground (arith, alloc_pd-Balanced c, alloc_pd-Balanced (record c { channel = true }))

  open_device-Balanced :
      (c : Built) → c.channel ≡ false → Balanced (open_device o d c) (work_buf ∷ ctx_memory ∷ []) []
  unfolding open_device check_odp clean_device clean_buffer replay
  open_device-Balanced c h = ground (
    arith,
    create_channel-Balanced c h,
    create_channel-Balanced (record c { access_flags = bit_or c.access_flags o.access_on_demand })
        h,
  )

  -- Whatever the options and the answers, `pp_init_ctx` destroys only queue pairs that it holds,
  -- and releases the rest behind them, the latest first. When it returns NULL it holds nothing any
  -- more; when it returns a context it holds `num_qp` queue pairs and all that they were made from.
  pub pp_init_ctx-frees :
      let (result, actions) = pp_init_ctx o d in
      replay actions [] [] ≡ some (held_by o.num_qp result)
  unfolding pp_init_ctx alloc_buf clean_buffer clean_ctx replay
  pp_init_ctx-frees = ground (
    arith,
    open_device-Balanced
        (record {
          channel = false;
          access_flags = o.access_local_write;
          send_flags = o.send_signaled;
        })
        refl,
  )

-- The oldest queue pair is destroyed.
remove_qp-down : (lo k : ℕ) → remove_qp lo (down lo (suc k)) ≡ some (down (suc lo) k)
unfolding remove_qp down
remove_qp-down lo zero = ground arith
remove_qp-down lo (suc k) = ground (arith, remove_qp-down lo k)

-- The outcome of a part of `pp_close_ctx`: nothing illegal, and nothing held exactly on success.
abbrev Closes : Bool × List Action → List Resource → List ℕ → Type 0
Closes (ok, acts) before qps =
    (replay acts before qps ≢ none) × ((ok ≡ true) ↔ (replay acts before qps ≡ some ([], [])))

close_shared-Closes : (d : CloseAnswers) (c : Built) → Closes (close_shared d c) (held c) []
unfolding close_shared replay
close_shared-Closes d c = (ground arith, (λ h. ground arith, λ h. ground arith))

close_qps-Closes :
    (d : CloseAnswers) (c : Built) (lo k : ℕ) → Closes (close_qps d c lo k) (held c) (down lo k)
unfolding close_qps replay down
close_qps-Closes d c lo zero = close_shared-Closes d c
close_qps-Closes d c lo (suc k) =
    let gone = remove_qp-down lo k in
    let rest = close_qps-Closes d c (suc lo) k in
    (
      ground (arith, gone, rest.0),
      (λ h. ground (arith, gone, rest.1.0), λ h. ground (arith, gone, rest.1.1)),
    )

-- On a context with `num_qp` queue pairs `pp_close_ctx` destroys and releases only what it holds,
-- no resource before those that were made from it, and nothing is held any more exactly when it
-- returns 0.
pub pp_close_ctx-frees :
    (d : CloseAnswers) (c : Built) (num_qp : ℕ)
    → let (ok, actions) = pp_close_ctx d c num_qp in
      (replay actions (held c) (down 0 num_qp) ≢ none)
      × ((ok ≡ true) ↔ (replay actions (held c) (down 0 num_qp) ≡ some ([], [])))
unfolding pp_close_ctx
pp_close_ctx-frees d c num_qp = close_qps-Closes d c 0 num_qp

replay-append :
    (xs ys : List Action) (held : List Resource) (qps : List ℕ) (mid : List Resource × List ℕ)
    → replay xs held qps ≡ some mid
    → replay (xs ++ ys) held qps ≡ replay ys mid.0 mid.1
unfolding replay
replay-append [] ys held qps mid e = ground arith
replay-append (acquire r ∷ xs) ys held qps mid e = replay-append xs ys (r ∷ held) qps mid e
replay-append (release r ∷ xs) ys held (q ∷ qps) mid e = cc
replay-append (release r ∷ xs) ys held [] mid e = elim (Option-cases (release_top r held)) [
  | inl wrong ↦ absurd (ground (arith, wrong))
  | inr (rest, freed) ↦
      ground (arith, freed, replay-append xs ys rest [] mid (ground (arith, freed)))
]
replay-append (create n ∷ xs) ys held qps mid e = replay-append xs ys held (n ∷ qps) mid e
replay-append (destroy n ∷ xs) ys held qps mid e = elim (Option-cases (remove_qp n qps)) [
  | inl wrong ↦ absurd (ground (arith, wrong))
  | inr (rest, freed) ↦
      ground (arith, freed, replay-append xs ys held rest mid (ground (arith, freed)))
]

-- `main` closes the context that `pp_init_ctx` has returned, if any.
pub close_built : CloseAnswers → ℕ → Option Built → Bool × List Action
close_built d num_qp none = (true, [])
close_built d num_qp (some c) = pp_close_ctx d c num_qp

-- On every path of `pp_init_ctx`, it destroys only queue pairs that it holds, and releases the rest
-- behind them, the latest first; where it returns NULL it holds nothing any more, and else what
-- belongs to its context with `num_qp` queue pairs. With `pp_close_ctx` behind a context, still
-- only what is held is destroyed and released, in such an order, and nothing is held any more
-- exactly when `pp_close_ctx` returns 0.
pub set_up-frees :
    (o : Options) (d : Answers) (close : CloseAnswers)
    → let (result, init) = pp_init_ctx o d in
      let (ok, acts) = close_built close o.num_qp result in
      (replay init [] [] ≡ some (held_by o.num_qp result))
      × (replay (init ++ acts) [] [] ≢ none)
      × ((ok ≡ true) ↔ (replay (init ++ acts) [] [] ≡ some ([], [])))
set_up-frees o d close =
    let (result, init) = pp_init_ctx o d in
    let balanced = pp_init_ctx-frees o d in
    let acts = (close_built close o.num_qp result).1 in
    let behind = replay-append init acts [] [] (held_by o.num_qp result) balanced in
    let (legal, freed) = closes result in (balanced, rw behind legal, rw behind freed)
  where
    closes :
        (r : Option Built)
        → (replay (close_built close o.num_qp r).1 (held_by o.num_qp r).0 (held_by o.num_qp r).1
            ≢ none)
          × (((close_built close o.num_qp r).0 ≡ true) ↔ (
              replay (close_built close o.num_qp r).1 (held_by o.num_qp r).0 (held_by o.num_qp r).1
              ≡ some ([], [])))
    closes none = unfold close_built replay in (λ e. cc, (λ e. refl, λ e. refl))
    closes (some c) =
        let (legal, freed) = pp_close_ctx-frees close c o.num_qp in
        unfold close_built in (legal, freed)
