-- ===== src/Ud/Setup/Balance.antt =====
-- What rdma-core/ud_pingpong.c acquires and releases, and what its check of the size gives.
use ibv_bench.Base.{
  ℕ, ◌≡◌, ◌≢◌, ◌↔◌, Bool, true, false, ◌&&◌, ◌||◌, not, Option, none, some, List, [], ◌∷◌, arith,
  refl, ◌++◌, ◌==◌, if◌then◌else◌,
}
use ibv_bench.Rc.Setup.{
  Resource, ctx_memory, work_buf, device, comp_channel, pd, dm, mr, cq, qp, ah, Action, acquire,
  release,
}
use ibv_bench.Plain.Setup.{
  Options, Answers, Built, clean_ctx, clean_buffer, clean_device, clean_comp_channel, clean_pd,
  clean_mr, clean_cq, clean_qp, modify_qp_init, inline_flag, create_qp, create_cq, reg_mr, alloc_pd,
  create_channel, CloseAnswers, close_queues, close_shared,
}
use ibv_bench.Ud.Setup.{check_mtu, open_device, alloc_buf, pp_init_ctx, pp_close_ctx}

number : Resource → ℕ
number ctx_memory = 0
number work_buf = 1
number device = 2
number comp_channel = 3
number pd = 4
number dm = 5
number mr = 6
number cq = 7
number qp = 8
number ah = 9

-- What is made from a resource, so that it must be gone before.
users : Resource → List Resource
users ctx_memory = work_buf ∷ device ∷ comp_channel ∷ pd ∷ dm ∷ mr ∷ cq ∷ qp ∷ ah ∷ []
users work_buf = mr ∷ []
users device = comp_channel ∷ pd ∷ cq ∷ []
users comp_channel = cq ∷ []
users pd = dm ∷ mr ∷ qp ∷ ah ∷ []
users cq = qp ∷ []
users _ = []

is_held : Resource → List Resource → Bool
unfolding number
is_held r [] = false
is_held r (t ∷ held) = number r == number t || is_held r held

any_held : List Resource → List Resource → Bool
unfolding is_held
any_held [] held = false
any_held (r ∷ rs) held = is_held r held || any_held rs held

without : Resource → List Resource → List Resource
unfolding number
without r [] = []
without r (t ∷ held) = if number r == number t then held else t ∷ without r held

-- What is held after some actions. It is an error to release what is not held, or what something
-- that is held was made from.
pub replay : List Action → List Resource → Option (List Resource)
unfolding is_held any_held users without
replay [] held = some held
replay (acquire r ∷ acts) held = replay acts (r ∷ held)
replay (release r ∷ acts) held =
    let rest = replay acts (without r held) in
    if is_held r held && not (any_held (users r) held) then rest else none

abbrev pub held : Built → List Resource
held c =
    qp
    ∷ cq
    ∷ mr
    ∷ pd
    ∷ (if c.channel
        then comp_channel ∷ device ∷ work_buf ∷ ctx_memory ∷ []
        else device ∷ work_buf ∷ ctx_memory ∷ [])

abbrev pub held_by : Option Built → List Resource
held_by none = []
held_by (some c) = held c

module _ (o : Options) (d : Answers) (queried : Option ℕ) where
  -- Whatever the options and the answers, `pp_init_ctx` releases only what it holds, and nothing
  -- before what was made from it. When it returns NULL it holds nothing any more; when it returns a
  -- context it holds the queue pair and all that this was made from, and the channel exactly where
  -- its pointer is set.
  pub pp_init_ctx-releases :
      let (result, actions) = pp_init_ctx o d queried in replay actions [] ≡ some (held_by result)
  unfolding pp_init_ctx alloc_buf open_device check_mtu create_channel alloc_pd reg_mr create_cq
      create_qp inline_flag modify_qp_init clean_ctx clean_buffer clean_device clean_comp_channel
      clean_pd clean_mr clean_cq clean_qp replay
  pp_init_ctx-releases = ground arith

-- On a context with an address handle `pp_close_ctx` releases only what it holds, and nothing before
-- what was made from it, and nothing is held any more exactly when it returns 0.
pub pp_close_ctx-releases :
    (d : CloseAnswers) (destroy_ah_ok : Bool) (c : Built)
    → let (ok, actions) = pp_close_ctx d destroy_ah_ok c in
      (replay actions (ah ∷ held c) ≢ none)
      × ((ok ≡ true) ↔ (replay actions (ah ∷ held c) ≡ some []))
unfolding pp_close_ctx close_queues close_shared replay
pp_close_ctx-releases d destroy_ah_ok c = (ground arith, (λ h. ground arith, λ h. ground arith))

replay-append :
    (xs ys : List Action) (held mid : List Resource)
    → replay xs held ≡ some mid
    → replay (xs ++ ys) held ≡ replay ys mid
unfolding replay
replay-append [] ys held mid e = ground arith
replay-append (acquire r ∷ xs) ys held mid e = replay-append xs ys (r ∷ held) mid e
replay-append (release r ∷ xs) ys held mid e =
    ground (arith, e, replay-append xs ys (without r held) mid)

-- `main` makes the address handle of the context that `pp_init_ctx` has returned, if any, and closes
-- it.
pub close_built : CloseAnswers → Bool → Option Built → Bool × List Action
close_built d destroy_ah_ok none = (true, [])
close_built d destroy_ah_ok (some c) =
    let (ok, acts) = pp_close_ctx d destroy_ah_ok c in (ok, acquire ah ∷ acts)

-- On every path of `pp_init_ctx`, it releases only what it holds, and nothing before what was made
-- from it; where it returns NULL it holds nothing any more, and else what belongs to its context.
-- With an address handle and `pp_close_ctx` behind a context, still nothing is released that is not
-- held, or before what was made from it, and nothing is held any more exactly when `pp_close_ctx`
-- returns 0.
pub set_up-releases :
    (o : Options) (d : Answers) (queried : Option ℕ) (close : CloseAnswers) (destroy_ah_ok : Bool)
    → let (result, init) = pp_init_ctx o d queried in
      let (ok, acts) = close_built close destroy_ah_ok result in
      (replay init [] ≡ some (held_by result))
      × (replay (init ++ acts) [] ≢ none)
      × ((ok ≡ true) ↔ (replay (init ++ acts) [] ≡ some []))
set_up-releases o d queried close destroy_ah_ok =
    let (result, init) = pp_init_ctx o d queried in
    let balanced = pp_init_ctx-releases o d queried in
    let acts = (close_built close destroy_ah_ok result).1 in
    let behind = replay-append init acts [] (held_by result) balanced in
    let (legal, freed) = closes result in (balanced, rw behind legal, rw behind freed)
  where
    closes :
        (r : Option Built)
        → (replay (close_built close destroy_ah_ok r).1 (held_by r) ≢ none)
          × (((close_built close destroy_ah_ok r).0 ≡ true)
              ↔ (replay (close_built close destroy_ah_ok r).1 (held_by r) ≡ some []))
    closes none = unfold close_built replay in (λ e. cc, (λ e. refl, λ e. refl))
    closes (some c) =
        let (legal, freed) = pp_close_ctx-releases close destroy_ah_ok c in
        unfold close_built replay in (legal, freed)
