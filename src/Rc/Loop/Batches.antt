-- ===== src/Rc/Loop/Batches.antt =====
-- The loop of `main` of rdma-core/rc_pingpong.c handles each completion once, whatever the batches
-- in which they are polled.
use ibv_bench.Base.{
  ℕ, suc, ◌≤◌, ◌<◌, ◌≡◌, sym, ap, ◌∙◌, Bool, true, false, List, [], ◌∷◌, ◌++◌, ◌⊎◌, inl, inr, arith,
  Bool-cases, take,
}
use ibv_bench.Rc.Context.{Context, Verbs}
use ibv_bench.Rc.Completion.{Pump, Wc, Checked, ok, err, ◌>>=◌, >>=-eq-ok, parse_single_wc}
use ibv_bench.Rc.Loop.{
  RoundResult-cases, Poll, poll_failed, poll_empty, poll_one, poll_one_then_failed, poll_two, Round,
  Exit, Outcome, finished, waiting, exited, next, leave, running, handle_poll, handled,
  handled_then_failed, poll_body, round_body, main_loop,
}

polled : Poll → List Wc
polled (poll_one a) = a ∷ []
polled (poll_one_then_failed a) = a ∷ []
polled (poll_two a b) = a ∷ b ∷ []
polled _ = []

-- The completions of the rounds, in order.
pub completions : List Round → List Wc
unfolding polled
completions [] = []
completions (r ∷ rs) = polled r.poll ++ completions rs

module _ (v : Verbs) (ctx : Context) (iters : ℕ) where
  -- What completions do one after another.
  pub parse_all : List Wc → Pump → Checked Pump
  parse_all [] s = ok s
  parse_all (wc ∷ wcs) s = parse_single_wc v ctx iters wc s >>= parse_all wcs

  parse_all-append :
      (xs ys : List Wc) (s t : Pump)
      → parse_all xs s ≡ ok t
      → parse_all (xs ++ ys) s ≡ parse_all ys t
  unfolding parse_all
  parse_all-append [] ys s t h = cc
  parse_all-append (x ∷ xs) ys s t h =
      let (u, first, rest) = >>=-eq-ok (parse_single_wc v ctx iters x s) (parse_all xs) h in
      ap (λ m. m >>= parse_all (xs ++ ys)) first ∙ parse_all-append xs ys u t rest

  handle_poll-polled :
      (p : Poll) (s t : Pump) → handle_poll v ctx iters p s ≡ ok t → parse_all (polled p) s ≡ ok t
  unfolding parse_all polled handle_poll
  handle_poll-polled poll_failed s t h = h
  handle_poll-polled poll_empty s t h = h
  handle_poll-polled (poll_one a) s t h = ground arith
  handle_poll-polled (poll_one_then_failed a) s t h = ground arith
  handle_poll-polled (poll_two a b) s t h = ground arith

  handled-next : (m : Checked Pump) (t : Pump) → handled v ctx m ≡ next t → m ≡ ok t
  unfolding handled
  handled-next (ok s) t h = ground arith
  handled-next (err e) t h = cc

  failed-leaves : (m : Checked Pump) (t : Pump) → ¬ (handled_then_failed v ctx m ≡ next t)
  unfolding handled_then_failed
  failed-leaves (ok s) t h = cc
  failed-leaves (err e) t h = cc

  poll_body-polled :
      (use_event : Bool) (p : Poll) (s t : Pump)
      → poll_body v ctx use_event iters p s ≡ next t
      → parse_all (polled p) s ≡ ok t
  unfolding poll_body polled parse_all
  poll_body-polled use_event poll_failed s t h = cc
  poll_body-polled true poll_empty s t h = elim (Bool-cases ctx.use_ts) [
    | inl on ↦ ground (arith, on)
    | inr off ↦ ground (arith, off)
  ]
  poll_body-polled false poll_empty s t h = ground arith
  poll_body-polled use_event (poll_one_then_failed a) s t h =
      absurd (failed-leaves (handle_poll v ctx iters (poll_one_then_failed a) s) t h)
  poll_body-polled use_event p s t h =
      handle_poll-polled p s t (handled-next (handle_poll v ctx iters p s) t h)

  round_body-polled :
      (use_event : Bool) (r : Round) (s t : Pump)
      → round_body v ctx use_event iters r s ≡ next t
      → parse_all (polled r.poll) s ≡ ok t
  unfolding round_body
  round_body-polled true r s t h = ground (arith, poll_body-polled true r.poll s t)
  round_body-polled false r s t h = poll_body-polled false r.poll s t h

  -- A round that goes on handles its completions before those of the rounds behind it.
  round_then :
      (use_event : Bool) (r : Round) (rs : List Round) (s u t : Pump)
      → round_body v ctx use_event iters r s ≡ next u
      → parse_all (completions rs) u ≡ ok t
      → parse_all (completions (r ∷ rs)) s ≡ ok t
  unfolding completions
  round_then use_event r rs s u t h rest =
      parse_all-append (polled r.poll) (completions rs) s u (round_body-polled use_event r s u h)
      ∙ rest

  module _ (use_event : Bool) where
    abbrev loop : List Round → Pump → Outcome
    loop rs s = main_loop v ctx use_event iters rs s

    loop-off : (rs : List Round) (s : Pump) → running iters s ≡ false → loop rs s ≡ finished s
    unfolding main_loop
    loop-off [] s off = rw off
    loop-off (r ∷ rs) s off = rw off

    loop-next :
        (r : Round) (rs : List Round) (s u : Pump)
        → running iters s ≡ true
        → round_body v ctx use_event iters r s ≡ next u
        → loop (r ∷ rs) s ≡ loop rs u
    unfolding main_loop
    loop-next r rs s u on e = rw (on, e)

    loop-leave :
        (r : Round) (rs : List Round) (s : Pump) (o : Exit)
        → running iters s ≡ true
        → round_body v ctx use_event iters r s ≡ leave o
        → loop (r ∷ rs) s ≡ exited o
    unfolding main_loop
    loop-leave r rs s o on e = rw (on, e)

    -- While the program waits for completions, it has handled every completion that was polled,
    -- once and in order, and one of its counts is below `iters`.
    pub main_loop-waiting :
        (rs : List Round) (s t : Pump)
        → main_loop v ctx use_event iters rs s ≡ waiting t
        → (parse_all (completions rs) s ≡ ok t) × ((t.rcnt < iters) ⊎ (t.scnt < iters))
    unfolding main_loop completions parse_all running
    main_loop-waiting [] s t h = ground arith
    main_loop-waiting (r ∷ rs) s t h = elim (Bool-cases (running iters s)) [
      | inr off ↦ absurd (cc (loop-off (r ∷ rs) s off))
      | inl on ↦ elim (RoundResult-cases (round_body v ctx use_event iters r s)) [
        | inr (o, e) ↦ absurd (cc (loop-leave r rs s o on e))
        | inl (u, e) ↦
            let (all, low) = main_loop-waiting rs u t (sym (loop-next r rs s u on e) ∙ h) in
            (round_then use_event r rs s u t e all, low)
      ]
    ]

    -- When the program has left its loop by the test, it has handled every completion of the rounds
    -- up to there, once and in order, and both counts have reached `iters`.
    pub main_loop-finished :
        (rs : List Round) (s t : Pump)
        → main_loop v ctx use_event iters rs s ≡ finished t
        → (k : ℕ) × (parse_all (completions (take k rs)) s ≡ ok t)
          × (iters ≤ t.scnt)
          × (iters ≤ t.rcnt)
    unfolding main_loop completions parse_all running
    main_loop-finished [] s t h = (0, ground arith, ground arith, ground arith)
    main_loop-finished (r ∷ rs) s t h = elim (Bool-cases (running iters s)) [
      | inr off ↦
          let same = sym (loop-off (r ∷ rs) s off) ∙ h in
          (0, ground (arith, same), ground (arith, same), ground (arith, same))
      | inl on ↦ elim (RoundResult-cases (round_body v ctx use_event iters r s)) [
        | inr (o, e) ↦ absurd (cc (loop-leave r rs s o on e))
        | inl (u, e) ↦
            let (k, all, s_done, r_done) =
              main_loop-finished rs u t (sym (loop-next r rs s u on e) ∙ h) in
            (suc k, round_then use_event r (take k rs) s u t e all, s_done, r_done)
      ]
    ]
