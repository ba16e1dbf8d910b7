-- ===== src/Srq/Completion/Run.antt =====
-- What srq_pingpong.c keeps posted from the start on, whatever completions the library reports.
use ibv_bench.Base.{
  ℕ, zero, suc, ◌+◌, ◌≤◌, ◌≡◌, subst, Bool, false, some, List, [], ◌∷◌, arith, ltb, if◌then◌else◌,
  inl, inr, Option-cases, Bool-cases,
}
use ibv_bench.Rc.Context.{recv_wrid}
use ibv_bench.Srq.Completion.{
  Context, State, Wc, num_qp, update, find_qp, post_recv, post_send, send_first, start_state,
  count_wc, handle_wc, handle_all,
}
use ibv_bench.Srq.Completion.Posted.{
  sends_done, IsPosted, IsContext, post_recv-le, count_wc-IsPosted, post_send-IsPosted,
  send_next-IsPosted,
}

module _ (ctx : Context) (good : IsContext ctx) where
  -- Counts that agree may be exchanged.
  recount :
      (done done' : ℕ → ℕ) (s : State)
      → ((j : ℕ) → done j ≡ done' j)
      → IsPosted ctx done s
      → IsPosted ctx done' s
  recount done done' s same h = record {
    enough_receives = h.enough_receives;
    few_receives = h.few_receives;
    two_bits = h.two_bits;
    few_sends = λ j. omega (arith, h.few_sends j, same j);
  }

  pub handle_wc-IsPosted :
      (done : ℕ → ℕ) (iters : ℕ) (wc : Wc) (s t : State)
      → IsPosted ctx done s
      → handle_wc ctx iters wc s ≡ some t
      → IsPosted ctx (λ j. done j + sends_done ctx j (wc ∷ [])) t
  unfolding handle_wc sends_done
  handle_wc-IsPosted done iters wc s t h e = elim (Option-cases (find_qp wc.qp_num ctx.qp_nums 0)) [
    | inl unknown ↦ absurd (ground (arith, unknown))
    | inr (i, found) ↦ elim (Option-cases (count_wc ctx wc s)) [
      | inl stopped ↦ absurd (ground (arith, found, stopped))
      | inr (u, counted) ↦
          let (kept, kind) = count_wc-IsPosted ctx good done wc s u h counted in
          recount _ _ t (λ j. ground (arith, found))
            (send_next-IsPosted ctx good done iters wc i u t kept kind
              (ground (arith, found, counted)))
    ]
  ]

  sends_done-cons :
      (j : ℕ) (wc : Wc) (wcs : List Wc)
      → sends_done ctx j (wc ∷ []) + sends_done ctx j wcs ≡ sends_done ctx j (wc ∷ wcs)
  unfolding sends_done
  sends_done-cons j wc wcs = ground arith

  pub handle_all-IsPosted :
      (done : ℕ → ℕ) (iters : ℕ) (wcs : List Wc) (s t : State)
      → IsPosted ctx done s
      → handle_all ctx iters wcs s ≡ some t
      → IsPosted ctx (λ j. done j + sends_done ctx j wcs) t
  unfolding handle_all sends_done
  handle_all-IsPosted done iters [] s t h e =
      let same : s ≡ t = ground arith in
      subst (IsPosted ctx (λ j. done j + 0)) same
        (recount done (λ j. done j + 0) s (λ j. omega arith) h)
  handle_all-IsPosted done iters (wc ∷ wcs) s t h e =
      elim (Option-cases (handle_wc ctx iters wc s)) [
        | inl stopped ↦ absurd (ground (arith, stopped))
        | inr (u, handled) ↦
            recount _ _ t (λ j. omega (arith, sends_done-cons j wc wcs))
              (handle_all-IsPosted (λ j. done j + sends_done ctx j (wc ∷ [])) iters wcs u t
                (handle_wc-IsPosted done iters wc s u h handled) (ground (arith, handled)))
      ]

  send_first-IsPosted :
      (i left : ℕ) (s t : State)
      → IsPosted ctx (λ j. 0) s
      → ((j : ℕ) → i ≤ j → s.pending j ≡ 0)
      → send_first ctx i left s ≡ some t
      → IsPosted ctx (λ j. 0) t
  unfolding send_first
  send_first-IsPosted i zero s t h idle e =
      let same : s ≡ t = ground arith in subst (IsPosted ctx (λ j. 0)) same h
  send_first-IsPosted i (suc left) s t h idle e = elim (Option-cases (post_send ctx i s)) [
    | inl refused ↦ absurd (ground (arith, refused))
    | inr (u, posted) ↦
        send_first-IsPosted (suc i) left u t
          (post_send-IsPosted ctx good (λ j. 0) i s u h (idle i (omega arith)) posted)
          (λ j later. unfold post_send update in ground (arith, posted, idle j))
          (ground (arith, posted))
  ]

  -- The state before the sends of the client.
  abbrev before_sends : Bool → State
  before_sends servername = record {
    scnt = 0;
    rcnt = 0;
    routs = post_recv ctx 0 ctx.rx_depth;
    pending = λ i. if servername then 0 else recv_wrid;
    recv_calls = post_recv ctx 0 ctx.rx_depth;
    sent = λ i. 0;
  }

  before_sends-IsPosted :
      (servername : Bool)
      → ltb (post_recv ctx 0 ctx.rx_depth) ctx.rx_depth ≡ false
      → IsPosted ctx (λ j. 0) (before_sends servername)
  before_sends-IsPosted servername all = record {
    enough_receives = ground (arith, all, good.one_each);
    few_receives = post_recv-le ctx good 0 ctx.rx_depth;
    two_bits = λ j. ground arith;
    few_sends = λ j. omega arith;
  }

  pub start_state-IsPosted :
      (servername : Bool) (s : State)
      → start_state ctx servername ≡ some s
      → IsPosted ctx (λ j. 0) s
  unfolding start_state
  start_state-IsPosted servername s e =
      elim (Bool-cases (ltb (post_recv ctx 0 ctx.rx_depth) ctx.rx_depth)) [
        | inl few ↦ absurd (ground (arith, few))
        | inr all ↦ elim (Bool-cases servername) [
          | inr server ↦
              let same : before_sends servername ≡ s = ground (arith, all, server) in
              subst (IsPosted ctx (λ j. 0)) same (before_sends-IsPosted servername all)
          | inl client ↦
              send_first-IsPosted 0 (num_qp ctx) (before_sends servername) s
                (before_sends-IsPosted servername all) (λ j from. rw client)
                (ground (arith, all, client))
        ]
      ]

  -- With at least one queue pair, at most as many as `rx_depth`, and `rx_depth` below 2^31:
  -- whatever completions the library reports, in any number and order, while `main` has not
  -- returned, at least one receive is posted for each queue pair and no more than the shared queue
  -- takes; and on each queue pair at most one more send has been posted than completions of sends
  -- have been reported, which is what its send queue of one entry takes.
  pub handle_all-limits :
      (servername : Bool) (iters : ℕ) (wcs : List Wc) (s t : State)
      → start_state ctx servername ≡ some s
      → handle_all ctx iters wcs s ≡ some t
      → (num_qp ctx ≤ t.routs)
        × (t.routs ≤ ctx.rx_depth)
        × ((i : ℕ) → t.sent i ≤ sends_done ctx i wcs + 1)
  handle_all-limits servername iters wcs s t started handled =
      let h =
        handle_all-IsPosted (λ j. 0) iters wcs s t (start_state-IsPosted servername s started)
          handled in
      (h.enough_receives, h.few_receives, λ i. ground (arith, h.few_sends i))
