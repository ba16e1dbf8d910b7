-- ===== src/Plain/Completion.antt =====
-- rdma-core/uc_pingpong.c: the loop of `pp_post_recv`, and what `main` does with one completion.
use ibv_bench.Base.{ℕ, zero, suc, ◌+◌, ◌-◌, ◌%◌, ◌^◌, Bool, ◌&&◌, ltb, leb, ◌==◌, if◌then◌else◌}
use ibv_bench.Rc.Context.{recv_wrid, send_wrid, clear_bits}
use ibv_bench.Rc.Completion.{
  Wc, wc_success, wc_error, failed_status, couldnt_post_receive, unknown_wr_id, couldnt_post_send,
  Checked, ok, err, ◌>>=◌,
}

-- What a program's requests come to: whether the n-th receive and the n-th send that it posts are
-- taken, and `ctx->rx_depth`.
pub record Posting : Type 0 where
  pub recv_ok : ℕ → Bool
  pub send_ok : ℕ → Bool
  pub rx_depth : ℕ

-- The variables of `main` that the completions change, with the numbers of requests posted so far.
pub record State : Type 0 where
  pub scnt : ℕ
  pub rcnt : ℕ
  pub routs : ℕ
  pub pending : ℕ
  pub recv_calls : ℕ
  pub send_calls : ℕ

-- The `for` of `pp_post_recv`, behind `calls` receives posted before: how many are taken.
unfoldable pub post_recv : Posting → ℕ → ℕ → ℕ
post_recv p calls zero = 0
post_recv p calls (suc n) =
    let rest = post_recv p (suc calls) n in if p.recv_ok calls then suc rest else 0

module _ (p : Posting) where
  -- `--routs <= 1` and the refill, with the 1 on the other side as `routs` may pass -1.
  unfoldable pub take_receive : State → Checked State
  unfolding post_recv
  take_receive s =
      let posted = post_recv p s.recv_calls (p.rx_depth + 1 - s.routs) in
      if leb s.routs 2
      then if ltb (s.routs + posted) (p.rx_depth + 1)
        then err couldnt_post_receive
        else ok (record s { routs = s.routs + posted - 1; recv_calls = s.recv_calls + posted })
      else ok (record s { routs = s.routs - 1 })

  -- The `switch`.
  unfoldable pub count_wc : Wc → State → Checked State
  unfolding take_receive
  count_wc wc s =
      if wc.wr_id % 2 ^ 32 == send_wrid
      then ok (record s { scnt = s.scnt + 1 })
      else if wc.wr_id % 2 ^ 32 == recv_wrid
      then (do t ← take_receive s; ok (record t { rcnt = t.rcnt + 1 }))
      else err unknown_wr_id

  -- The next send. `scnt < iters` compares as `unsigned int`.
  unfoldable pub send_next : ℕ → State → Checked State
  send_next iters s =
      if ltb s.scnt iters && s.pending == 0
      then if p.send_ok s.send_calls
        then ok (record s { pending = recv_wrid + send_wrid; send_calls = s.send_calls + 1 })
        else err couldnt_post_send
      else ok s

  -- The body of the `for` over the completions.
  unfoldable pub handle_wc : ℕ → Wc → State → Checked State
  unfolding count_wc send_next
  handle_wc iters wc s = elim wc.status [
    | wc_error _ ↦ err failed_status
    | wc_success ↦ (do
      t ← count_wc wc s
      send_next iters (record t { pending = clear_bits t.pending (wc.wr_id % 2 ^ 32) }))
  ]
