-- ===== src/Srq/Completion/Total.antt =====
-- srq_pingpong.c goes on while the library takes its requests and reports completions of them.
use ibv_bench.Base.{
  All, ℕ, zero, suc, ◌+◌, ◌-◌, ◌%◌, ◌^◌, ◌≤◌, ◌≡◌, ◌≢◌, refl, true, none, some, List, [], ◌∷◌,
  arith, ◌⊎◌, inl, inr, Option-cases,
}
use ibv_bench.Rc.Context.{recv_wrid, send_wrid, clear_bits}
use ibv_bench.Srq.Completion.{
  Context, State, Wc, num_qp, update, find_qp, post_recv, post_send, take_receive, count_wc,
  send_next, handle_wc, handle_all,
}
use ibv_bench.Srq.Completion.Posted.{sends_done, IsPosted, IsContext, one_less}
use ibv_bench.Srq.Completion.Run.{handle_wc-IsPosted}

-- A library that takes every request, and a completion that the program knows: one that succeeded,
-- of a send or a receive on one of the queue pairs.
pub record Accepts (ctx : Context) : Type 0 where
  pub recvs : (n : ℕ) → ctx.takes_recv n ≡ true
  pub sends : (i n : ℕ) → ctx.takes_send i n ≡ true

pub record IsKnown (ctx : Context) (wc : Wc) : Type 0 where
  pub succeeded : wc.success ≡ true
  pub kind : (wc.wr_id ≡ send_wrid) ⊎ (wc.wr_id ≡ recv_wrid)
  pub index : ℕ
  pub found : find_qp wc.qp_num ctx.qp_nums 0 ≡ some index

module _ (ctx : Context) (good : IsContext ctx) (yes_all : Accepts ctx) where
  post_recv-all : (calls n : ℕ) → post_recv ctx calls n ≡ n
  unfolding post_recv
  post_recv-all calls zero = refl
  post_recv-all calls (suc n) = ground (arith, yes_all.recvs calls, post_recv-all (suc calls) n)

  post_send-some : (i : ℕ) (s : State) → post_send ctx i s ≢ none
  unfolding post_send
  post_send-some i s e = ground (arith, yes_all.sends i (s.sent i))

  take_receive-some :
      (s : State) → num_qp ctx ≤ s.routs → s.routs ≤ ctx.rx_depth → take_receive ctx s ≢ none
  unfolding take_receive
  take_receive-some s low high e =
      let less =
        one_less ctx good s.routs (omega (arith, good.some_qp)) (omega (arith, good.int_depth)) in
      let all = post_recv-all s.recv_calls (ctx.rx_depth - (s.routs - 1)) in
      ground (arith, less, all)

  count_wc-some :
      (wc : Wc) (s : State)
      → num_qp ctx ≤ s.routs
      → s.routs ≤ ctx.rx_depth
      → IsKnown ctx wc
      → count_wc ctx wc s ≢ none
  unfolding count_wc
  count_wc-some wc s low high known e = elim known.kind [
    | inl is_send ↦ ground (arith, is_send)
    | inr is_recv ↦ ground (arith, is_recv, take_receive-some s low high)
  ]

  send_next-some : (iters : ℕ) (wc : Wc) (i : ℕ) (s : State) → send_next ctx iters wc i s ≢ none
  unfolding send_next
  send_next-some iters wc i s e =
      let left = clear_bits (s.pending i) (wc.wr_id % 2 ^ 32) in
      ground (arith, post_send-some i (record s { pending = update s.pending i left }))

  handle_wc-some :
      (done : ℕ → ℕ) (iters : ℕ) (wc : Wc) (s : State)
      → IsPosted ctx done s
      → IsKnown ctx wc
      → handle_wc ctx iters wc s ≢ none
  unfolding handle_wc
  handle_wc-some done iters wc s h known e = elim (Option-cases (count_wc ctx wc s)) [
    | inl stopped ↦ count_wc-some wc s h.enough_receives h.few_receives known stopped
    | inr (u, counted) ↦
        ground (arith, known.succeeded, known.found, counted, send_next-some iters wc known.index u)
  ]

  -- From a state in which enough receives are posted, with a library that takes every request and
  -- a usable context (at least one queue pair, a receive for each), the program handles any
  -- number of completions that succeeded and are of its own queue pairs and requests, without
  -- leaving its loop by an error.
  pub handle_all-total :
      (done : ℕ → ℕ) (iters : ℕ) (wcs : List Wc) (s : State)
      → IsPosted ctx done s
      → All (IsKnown ctx) wcs
      → handle_all ctx iters wcs s ≢ none
  unfolding handle_all
  handle_all-total done iters [] s h known e = cc
  handle_all-total done iters (wc ∷ wcs) s h known e =
      elim (Option-cases (handle_wc ctx iters wc s)) [
        | inl stopped ↦ handle_wc-some done iters wc s h known.0 stopped
        | inr (u, handled) ↦
            handle_all-total (λ j. done j + sends_done ctx j (wc ∷ [])) iters wcs u
              (handle_wc-IsPosted ctx good done iters wc s u h handled) known.1
              (ground (arith, handled))
      ]
