-- ===== src/Rc/Setup/Balance.antt =====
-- What `pp_init_ctx` and `pp_close_ctx` acquire and release: nothing leaks, and everything is
-- released before what it was created from.
use Prim.Native.Nat.{bit_or}
use ibv_bench.Base.{
  ℕ, ◌≡◌, ◌≢◌, ◌↔◌, refl, Bool, true, false, not, ◌&&◌, ◌||◌, Option, none, some, List, [], ◌∷◌,
  ◌++◌, Option-cases, inl, inr, arith, ◌==◌, if◌then◌else◌,
}
use ibv_bench.Rc.Setup.{
  Resource, ctx_memory, work_buf, device, comp_channel, pd, dm, mr, cq, qp, ah, Action, acquire,
  release, Options, Constants, Answers, Built, Setup, clean_buffer, clean_device,
  clean_comp_channel, clean_pd, clean_dm, clean_mr, clean_qp, modify_qp_init, inline_flag,
  create_qp, create_cq, reg_mr, alloc_dm, check_dm, check_ts, check_odp, query_device, alloc_pd,
  create_channel, open_device, alloc_buf, pp_init_ctx, CloseAnswers, pp_close_ctx,
}

-- Resources nest: each is created from those acquired before it.
abbrev number : Resource → ℕ
number ctx_memory = 0
number work_buf = 1
number device = 2
number comp_channel = 3
number pd = 4
number dm = 5
number mr = 6
number cq = 7
number qp = 8
number ah = 9

release_top : Resource → List Resource → Option (List Resource)
release_top r [] = none
release_top r (t ∷ held) = if number r == number t then some held else none

-- The resources held after some actions, latest first. It is an error to release anything but the
-- latest.
unfoldable pub replay : List Action → List Resource → Option (List Resource)
unfolding release_top
replay [] held = some held
replay (acquire r ∷ acts) held = replay acts (r ∷ held)
replay (release r ∷ acts) held = elim (release_top r held) [
  | none ↦ none
  | some rest ↦ replay acts rest
]

-- What is held at each label, and in a finished context.
abbrev at_device : List Resource
at_device = device ∷ work_buf ∷ ctx_memory ∷ []

abbrev at_channel : Built → List Resource
at_channel c = if c.channel then comp_channel ∷ at_device else at_device

abbrev at_pd : Built → List Resource
at_pd c = pd ∷ at_channel c

abbrev at_dm : Built → List Resource
at_dm c = if c.has_dm then dm ∷ at_pd c else at_pd c

abbrev pub held : Built → List Resource
held c = qp ∷ cq ∷ mr ∷ at_dm c

abbrev pub held_by : Option Built → List Resource
held_by none = []
held_by (some c) = held c

-- The actions of a part of the function lead from what was held to what its result holds.
abbrev Balanced : Setup → List Resource → Type 0
Balanced (r, acts) before = replay acts before ≡ some (held_by r)

clean_pd-lem : (c : Built) → replay (clean_pd c) (at_pd c) ≡ some []
unfolding clean_pd clean_comp_channel clean_device replay
clean_pd-lem c = ground arith

clean_dm-lem : (c : Built) → replay (clean_dm c) (at_dm c) ≡ some []
unfolding clean_dm replay
clean_dm-lem c = ground arith

module _ (k : Constants) (o : Options) (d : Answers) where
  create_qp-Balanced : (c : Built) → Balanced (create_qp k o d c) (cq ∷ mr ∷ at_dm c)
  unfolding create_qp modify_qp_init inline_flag clean_qp replay
  create_qp-Balanced c = ground arith

  reg_mr-Balanced : (c : Built) → Balanced (reg_mr k o d c) (at_dm c)
  unfolding reg_mr create_cq clean_mr replay
  reg_mr-Balanced c = ground (arith, create_qp-Balanced c, clean_dm-lem c)

  check_dm-Balanced : (c : Built) → c.has_dm ≡ false → Balanced (check_dm k o d c) (at_pd c)
  unfolding check_dm alloc_dm replay
  check_dm-Balanced c h = ground (
    arith,
    clean_pd-lem c,
    reg_mr-Balanced c,
    reg_mr-Balanced
        (record c { has_dm = true; access_flags = bit_or c.access_flags k.access_zero_based }),
  )

  check_ts-Balanced : (c : Built) → c.has_dm ≡ false → Balanced (check_ts k o d c) (at_pd c)
  unfolding check_ts
  check_ts-Balanced c h = ground (
    arith,
    clean_pd-lem c,
    check_dm-Balanced c h,
    check_dm-Balanced (record c { timestamp_mask = d.completion_timestamp_mask }) h,
  )

  query_device-Balanced : (c : Built) → c.has_dm ≡ false → Balanced (query_device k o d c) (at_pd c)
  unfolding query_device check_odp
  query_device-Balanced c h = ground (
    arith,
    clean_pd-lem c,
    reg_mr-Balanced c,
    check_ts-Balanced c h,
    check_ts-Balanced (record c { access_flags = bit_or c.access_flags k.access_on_demand }) h,
  )

  alloc_pd-Balanced : (c : Built) → c.has_dm ≡ false → Balanced (alloc_pd k o d c) (at_channel c)
  unfolding alloc_pd clean_comp_channel replay
  alloc_pd-Balanced c h = ground (arith, query_device-Balanced c h)

  create_channel-Balanced :
      (c : Built)
      → c.has_dm ≡ false
      → c.channel ≡ false
      → Balanced (create_channel k o d c) at_device
  unfolding create_channel clean_device replay
  create_channel-Balanced c h g =
      ground (arith, alloc_pd-Balanced c h, alloc_pd-Balanced (record c { channel = true }) h)

  alloc_buf-Balanced :
      (c : Built)
      → c.has_dm ≡ false
      → c.channel ≡ false
      → Balanced (alloc_buf k o d c) (ctx_memory ∷ [])
  unfolding alloc_buf open_device clean_buffer replay
  alloc_buf-Balanced c h g = ground (arith, create_channel-Balanced c h g)

  -- Whatever the options and the answers, `pp_init_ctx` releases only what it holds, the latest
  -- first. When it returns NULL it holds nothing any more; when it returns a context it holds the
  -- context, buffer, device, protection domain, memory region, completion queue and queue pair, and
  -- the channel and the device memory exactly where their pointers are set.
  pub pp_init_ctx-Balanced :
      let (result, actions) = pp_init_ctx k o d in replay actions [] ≡ some (held_by result)
  unfolding pp_init_ctx replay
  pp_init_ctx-Balanced = ground (
    arith,
    alloc_buf-Balanced
        (record {
          channel = false;
          has_dm = false;
          access_flags = k.access_local_write;
          send_flags = k.send_signaled;
          timestamp_mask = 0;
        })
        refl refl,
  )

-- Whether all the calls succeed that `pp_close_ctx` makes for this context.
abbrev pub all_succeed : CloseAnswers → Built → Bool
all_succeed d c =
    d.destroy_qp_ok
    && (d.destroy_cq_ok
        && (d.dereg_mr_ok
            && ((not c.has_dm || d.free_dm_ok)
                && (d.dealloc_pd_ok
                    && ((not c.channel || d.destroy_channel_ok) && d.close_device_ok)))))

-- `pp_close_ctx` returns 0 exactly if all the calls that it makes succeed. It releases only what is
-- held, the latest first, and nothing is held any more exactly when it returns 0.
pub pp_close_ctx-replay :
    (d : CloseAnswers) (c : Built)
    → let (ok, actions) = pp_close_ctx d c in
      (ok ≡ all_succeed d c)
      × (replay actions (held c) ≢ none)
      × ((ok ≡ true) ↔ (replay actions (held c) ≡ some []))
unfolding pp_close_ctx replay
pp_close_ctx-replay d c = (ground arith, ground arith, (λ h. ground arith, λ h. ground arith))

replay-append :
    (xs ys : List Action) (held mid : List Resource)
    → replay xs held ≡ some mid
    → replay (xs ++ ys) held ≡ replay ys mid
unfolding replay
replay-append [] ys held mid e = ground arith
replay-append (acquire r ∷ xs) ys held mid e = replay-append xs ys (r ∷ held) mid e
replay-append (release r ∷ xs) ys held mid e = elim (Option-cases (release_top r held)) [
  | inl wrong ↦ absurd (ground (arith, wrong))
  | inr (rest, freed) ↦ ground (arith, freed, replay-append xs ys rest mid (ground (arith, freed)))
]

-- `main` closes the context that `pp_init_ctx` has returned, if any.
pub close_built : CloseAnswers → Option Built → Bool × List Action
close_built d none = (true, [])
close_built d (some c) = pp_close_ctx d c

-- On every path of `pp_init_ctx`, it releases only what it holds, the latest first; where it returns
-- NULL it holds nothing any more, and else what belongs to its context. With `pp_close_ctx` behind a
-- context, still only what is held is released, the latest first, and nothing is held any more
-- exactly when `pp_close_ctx` returns 0.
pub set_up-Balanced :
    (k : Constants) (o : Options) (d : Answers) (close : CloseAnswers)
    → let (result, init) = pp_init_ctx k o d in
      let (ok, acts) = close_built close result in
      (replay init [] ≡ some (held_by result))
      × (replay (init ++ acts) [] ≢ none)
      × ((ok ≡ true) ↔ (replay (init ++ acts) [] ≡ some []))
set_up-Balanced k o d close =
    let (result, init) = pp_init_ctx k o d in
    let balanced = pp_init_ctx-Balanced k o d in
    let behind = replay-append init (close_built close result).1 [] (held_by result) balanced in
    let (legal, freed) = closes result in (balanced, rw behind legal, rw behind freed)
  where
    closes :
        (r : Option Built)
        → (replay (close_built close r).1 (held_by r) ≢ none)
          × (((close_built close r).0 ≡ true)
              ↔ (replay (close_built close r).1 (held_by r) ≡ some []))
    closes none = unfold close_built replay in (λ e. cc, (λ e. refl, λ e. refl))
    closes (some c) =
        let (_, legal, freed) = pp_close_ctx-replay close c in unfold close_built in (legal, freed)
