-- ===== src/Srq/Loop/Ends.antt =====
-- The loop of `main` of rdma-core/srq_pingpong.c ends once enough completions have been reported.
use ibv_bench.Base.{
  ℕ, suc, ◌+◌, ◌%◌, ◌^◌, ◌≤◌, ◌≡◌, refl, sym, ◌∙◌, Bool, true, false, Option, none, some, List, [],
  ◌∷◌, ◌++◌, arith, inl, inr, Option-cases, Bool-cases, subst, take, All, ◌==◌, if◌then◌else◌,
}
use ibv_bench.Rc.Context.{recv_wrid, send_wrid, clear_bits}
use ibv_bench.Rc.Loop.{event_arrived}
use ibv_bench.Srq.Completion.{
  Context, State, Wc, update, post_send, take_receive, count_wc, send_next, start_state, handle_wc,
  handle_all,
}
use ibv_bench.Srq.Completion.Posted.{sends_done, IsPosted, IsContext}
use ibv_bench.Srq.Completion.Run.{handle_all-IsPosted, start_state-IsPosted}
use ibv_bench.Srq.Completion.Total.{Accepts, IsKnown, handle_all-total}
use ibv_bench.Srq.Loop.{Round, finished, running, poll_body, round_body, main_loop}

-- How many of some completions are of a request of one kind.
unfoldable pub of_kind : ℕ → List Wc → ℕ
of_kind wrid [] = 0
of_kind wrid (wc ∷ wcs) = (if wc.wr_id == wrid then 1 else 0) + of_kind wrid wcs

-- A round in which the library works: it reports no failure, and completions that the program knows.
pub record Works (ctx : Context) (r : Round) : Type 0 where
  pub event : r.event ≡ event_arrived
  pub wcs : List Wc
  pub polled : r.poll ≡ some wcs
  pub known : All (IsKnown ctx) wcs

polled : Option (List Wc) → List Wc
polled none = []
polled (some wcs) = wcs

-- The completions of the rounds, in order.
unfoldable pub completions : List Round → List Wc
unfolding polled
completions [] = []
completions (r ∷ rs) = polled r.poll ++ completions rs

of_kind-append :
    (wrid : ℕ) (xs ys : List Wc) → of_kind wrid (xs ++ ys) ≡ of_kind wrid xs + of_kind wrid ys
unfolding of_kind
of_kind-append wrid [] ys = omega arith
of_kind-append wrid (x ∷ xs) ys = omega (arith, of_kind-append wrid xs ys)

module _ (ctx : Context) where
  post_send-counts :
      (i : ℕ) (s t : State) → post_send ctx i s ≡ some t → (t.scnt ≡ s.scnt) × (t.rcnt ≡ s.rcnt)
  unfolding post_send
  post_send-counts i s t e = ground arith

  take_receive-counts :
      (s t : State) → take_receive ctx s ≡ some t → (t.scnt ≡ s.scnt) × (t.rcnt ≡ s.rcnt)
  unfolding take_receive
  take_receive-counts s t e = ground arith

  count_wc-counts :
      (wc : Wc) (s t : State)
      → IsKnown ctx wc
      → count_wc ctx wc s ≡ some t
      → (t.scnt ≡ s.scnt + of_kind send_wrid (wc ∷ []))
        × (t.rcnt ≡ s.rcnt + of_kind recv_wrid (wc ∷ []))
  unfolding count_wc of_kind
  count_wc-counts wc s t known e = elim known.kind [
    | inl is_send ↦ ground (arith, is_send)
    | inr is_recv ↦ elim (Option-cases (take_receive ctx s)) [
      | inl none_left ↦ absurd (ground (arith, is_recv, none_left))
      | inr (u, taken) ↦ ground (arith, is_recv, taken, take_receive-counts s u taken)
    ]
  ]

  send_next-counts :
      (iters : ℕ) (wc : Wc) (i : ℕ) (s t : State)
      → send_next ctx iters wc i s ≡ some t
      → (t.scnt ≡ s.scnt) × (t.rcnt ≡ s.rcnt)
  unfolding send_next
  send_next-counts iters wc i s t e =
      let u = record s {
        pending = update s.pending i (clear_bits (s.pending i) (wc.wr_id % 2 ^ 32));
      } in
      ground (arith, post_send-counts i u t)

  handle_wc-counts :
      (iters : ℕ) (wc : Wc) (s t : State)
      → IsKnown ctx wc
      → handle_wc ctx iters wc s ≡ some t
      → (t.scnt ≡ s.scnt + of_kind send_wrid (wc ∷ []))
        × (t.rcnt ≡ s.rcnt + of_kind recv_wrid (wc ∷ []))
  unfolding handle_wc
  handle_wc-counts iters wc s t known e = elim (Option-cases (count_wc ctx wc s)) [
    | inl stop ↦ absurd (ground (arith, known.succeeded, known.found, stop))
    | inr (u, counted) ↦
        let first = count_wc-counts wc s u known counted in
        let second =
          send_next-counts iters wc known.index u t
            (ground (arith, known.succeeded, known.found, counted)) in
        (omega (arith, first, second), omega (arith, first, second))
  ]

  handle_all-counts :
      (iters : ℕ) (wcs : List Wc) (s t : State)
      → All (IsKnown ctx) wcs
      → handle_all ctx iters wcs s ≡ some t
      → (t.scnt ≡ s.scnt + of_kind send_wrid wcs) × (t.rcnt ≡ s.rcnt + of_kind recv_wrid wcs)
  unfolding handle_all of_kind
  handle_all-counts iters [] s t known e = ground arith
  handle_all-counts iters (wc ∷ wcs) s t known e = elim (Option-cases (handle_wc ctx iters wc s)) [
    | inl stop ↦ absurd (ground (arith, stop))
    | inr (u, first) ↦
        let here = handle_wc-counts iters wc s u known.0 first in
        let rest = handle_all-counts iters wcs u t known.1 (ground (arith, first)) in
        (omega (arith, here, rest), omega (arith, here, rest))
  ]

  handle_all-append :
      (iters : ℕ) (xs ys : List Wc) (s t : State)
      → handle_all ctx iters xs s ≡ some t
      → handle_all ctx iters (xs ++ ys) s ≡ handle_all ctx iters ys t
  unfolding handle_all
  handle_all-append iters [] ys s t e = ground arith
  handle_all-append iters (x ∷ xs) ys s t e = elim (Option-cases (handle_wc ctx iters x s)) [
    | inl stop ↦ absurd (ground (arith, stop))
    | inr (u, first) ↦
        let rest = handle_all-append iters xs ys u t (ground (arith, first)) in
        ground (arith, first, rest)
  ]

  round_body-works :
      (use_event : Bool) (iters : ℕ) (r : Round) (s : State)
      → Works ctx r
      → round_body ctx use_event iters r s ≡ handle_all ctx iters (polled r.poll) s
  unfolding round_body poll_body polled
  round_body-works true iters r s w = let e = w.event in let p = w.polled in ground (arith, e, p)
  round_body-works false iters r s w = let p = w.polled in ground (arith, p)

  polled-IsKnown : (r : Round) → Works ctx r → All (IsKnown ctx) (polled r.poll)
  unfolding polled
  polled-IsKnown r w = subst (λ p. All (IsKnown ctx) (polled p)) (sym w.polled) w.known

  module _ (good : IsContext ctx) (yes_all : Accepts ctx) (use_event : Bool) (iters : ℕ) where
    loop-off :
        (rs : List Round) (s : State)
        → running iters s ≡ false
        → main_loop ctx use_event iters rs s ≡ finished s
    unfolding main_loop
    loop-off [] s off = rw off
    loop-off (r ∷ rs) s off = rw off

    loop-next :
        (r : Round) (rs : List Round) (s u : State)
        → running iters s ≡ true
        → round_body ctx use_event iters r s ≡ some u
        → main_loop ctx use_event iters (r ∷ rs) s ≡ main_loop ctx use_event iters rs u
    unfolding main_loop
    loop-next r rs s u on e = rw (on, e)

    -- From a state of the loop.
    abbrev Ends : List Round → State → Type 0
    Ends rs s =
        (t : State) × (k : ℕ) × (main_loop ctx use_event iters rs s ≡ finished t)
        × (handle_all ctx iters (completions (take k rs)) s ≡ some t)
        × (iters ≤ t.scnt)
        × (iters ≤ t.rcnt)

    ends_now : (rs : List Round) (s : State) → running iters s ≡ false → Ends rs s
    unfolding completions handle_all running
    ends_now rs s off = (s, 0, loop-off rs s off, refl, ground arith, ground arith)

    main_loop-ends_from :
        (done : ℕ → ℕ) (rs : List Round) (s : State)
        → IsPosted ctx done s
        → All (Works ctx) rs
        → iters ≤ s.scnt + of_kind send_wrid (completions rs)
        → iters ≤ s.rcnt + of_kind recv_wrid (completions rs)
        → Ends rs s
    unfolding completions
    main_loop-ends_from done [] s h w sends recvs =
        ends_now [] s (unfold running of_kind in ground arith)
    main_loop-ends_from done (r ∷ rs) s h (w, ws) sends recvs =
        elim (Bool-cases (running iters s)) [
          | inr off ↦ ends_now (r ∷ rs) s off
          | inl on ↦ elim (Option-cases (handle_all ctx iters (polled r.poll) s)) [
            | inl stop ↦ absurd (
                handle_all-total ctx good yes_all done iters (polled r.poll) s h
                  (polled-IsKnown r w) stop)
            | inr (u, first) ↦
                let body = round_body-works use_event iters r s w ∙ first in
                let counts =
                  handle_all-counts iters (polled r.poll) s u (polled-IsKnown r w) first in
                let more = λ (wrid : ℕ). of_kind-append wrid (polled r.poll) (completions rs) in
                let (t, k, ends, all, s_done, r_done) =
                  main_loop-ends_from (λ j. done j + sends_done ctx j (polled r.poll)) rs u
                    (handle_all-IsPosted ctx good done iters (polled r.poll) s u h first) ws
                    (omega (arith, counts, more send_wrid))
                    (omega (arith, counts, more recv_wrid)) in
                (
                  t,
                  suc k,
                  loop-next r rs s u on body ∙ ends,
                  handle_all-append iters (polled r.poll) (completions (take k rs)) s u first ∙ all,
                  s_done,
                  r_done,
                )
          ]
        ]

    -- With a library that takes every request and rounds in which it reports no failure, the program
    -- that has started leaves its loop, by the test, once `iters` completions of sends and as many
    -- of receives have been reported: all completions up to there have been handled, once and in
    -- order, and both counts have reached `iters`.
    pub main_loop-ends :
        (servername : Bool) (rs : List Round) (s : State)
        → start_state ctx servername ≡ some s
        → All (Works ctx) rs
        → iters ≤ of_kind send_wrid (completions rs)
        → iters ≤ of_kind recv_wrid (completions rs)
        → (t : State) × (k : ℕ) × (main_loop ctx use_event iters rs s ≡ finished t)
          × (handle_all ctx iters (completions (take k rs)) s ≡ some t)
          × (iters ≤ t.scnt)
          × (iters ≤ t.rcnt)
    main_loop-ends servername rs s e w sends recvs =
        main_loop-ends_from (λ j. 0) rs s (start_state-IsPosted ctx good servername s e) w
          (omega arith) (omega arith)
