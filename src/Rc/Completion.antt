-- ===== src/Rc/Completion.antt =====
-- rdma-core/rc_pingpong.c: `parse_single_wc`, what the program does with one completion.
use ibv_bench.Base.{ℕ, ◌+◌, ◌-◌, ◌%◌, ◌^◌, ◌≡◌, refl, Bool, ◌&&◌, ltb, leb, ◌==◌, if◌then◌else◌}
use ibv_bench.Rc.Context.{Context, Verbs, recv_wrid, send_wrid, post_recv, post_send_ok, clear_bits}
use ibv_bench.Rc.Timestamp.{TsParams, record_stamp}

-- The variables of `main` that the completions change, with the numbers of requests posted so far.
pub record Pump : Type 0 where
  pub scnt : ℕ
  pub rcnt : ℕ
  pub routs : ℕ
  pub pending : ℕ
  pub recv_calls : ℕ
  pub send_calls : ℕ
  pub ts : TsParams

-- `enum ibv_wc_status`: IBV_WC_SUCCESS and the rest.
pub data WcStatus : Type 0 where
  wc_success : WcStatus
  wc_error : ℕ → WcStatus

-- One `struct ibv_wc`, or what `ibv_start_poll` and `ibv_next_poll` show.
pub record Wc : Type 0 where
  pub wr_id : ℕ
  pub status : WcStatus
  pub completion_timestamp : ℕ

-- The places where the function returns 1.
pub data Failure : Type 0 where
  failed_status couldnt_post_receive unknown_wr_id couldnt_post_send : Failure

-- The 1 that a function returns, with its place, or the 0 with the state that it leaves.
pub data Checked {ℓ} (S : Type ℓ) : Type ℓ where
  err : (place : Failure) → Checked S
  ok : (state : S) → Checked S

-- The code behind a call that is left at the first 1.
infixl 5 ◌>>=◌
abbrev pub ◌>>=◌ {ℓ κ} :
    {S : Type ℓ} {T : Type κ} (first : Checked S) (second : S → Checked T) → Checked T
err place >>= second = err place
ok state >>= second = second state

-- Inversion of a bind that succeeds, with the state in between.
pub >>=-eq-ok {ℓ κ} :
    {S : Type ℓ} {T : Type κ} (first : Checked S) (second : S → Checked T) {end : T}
    → (first >>= second) ≡ ok end
    → (middle : S) × (first ≡ ok middle) × (second middle ≡ ok end)
>>=-eq-ok (err place) second h = cc
>>=-eq-ok (ok middle) second h = (middle, refl, h)

-- `n < iters` where `iters` has gone from `unsigned int` to the `int` parameter.
unfoldable pub lt_int : ℕ → ℕ → Bool
lt_int n iters = ltb iters (2 ^ 31) && ltb n iters

module _ (v : Verbs) (ctx : Context) where
  -- `--(*routs) <= 1` and the refill. `routs` may go to -1 inside, at 0: written with the 1 on the
  -- other side. The state of a failed call is not used again.
  unfoldable pub take_receive : Pump → Checked Pump
  take_receive s =
      let posted = post_recv v ctx s.recv_calls (ctx.rx_depth + 1 - s.routs) in
      if leb s.routs 2
      then if ltb (s.routs + posted) (ctx.rx_depth + 1)
        then err couldnt_post_receive
        else ok (record s { routs = s.routs + posted - 1; recv_calls = s.recv_calls + posted })
      else ok (record s { routs = s.routs - 1 })

  -- The case of a receive: the refill, then the count and the time stamp.
  unfoldable pub count_receive : ℕ → Pump → Checked Pump
  unfolding take_receive
  count_receive stamp s = do
    t ← take_receive s
    ok (record t {
      rcnt = t.rcnt + 1;
      ts = record_stamp ctx.use_ts ctx.completion_timestamp_mask stamp t.ts;
    })

  -- The `switch` on the work request.
  unfoldable pub dispatch : Wc → Pump → Checked Pump
  unfolding count_receive
  dispatch wc s =
      if wc.wr_id % 2 ^ 32 == send_wrid
      then ok (record s { scnt = s.scnt + 1 })
      else if wc.wr_id % 2 ^ 32 == recv_wrid
      then count_receive wc.completion_timestamp s
      else err unknown_wr_id

  -- The next send, once nothing is pending.
  unfoldable pub send_next : ℕ → Pump → Checked Pump
  unfolding lt_int
  send_next iters s =
      if lt_int s.scnt iters && s.pending == 0
      then if post_send_ok v ctx s.send_calls
        then ok (record s { pending = recv_wrid + send_wrid; send_calls = s.send_calls + 1 })
        else err couldnt_post_send
      else ok s

  unfoldable pub parse_success : ℕ → Wc → Pump → Checked Pump
  unfolding dispatch send_next
  parse_success iters wc s = do
    t ← dispatch wc s
    send_next iters (record t { pending = clear_bits t.pending (wc.wr_id % 2 ^ 32) })

  unfoldable pub parse_single_wc : ℕ → Wc → Pump → Checked Pump
  unfolding parse_success
  parse_single_wc iters wc s = elim wc.status [
    | wc_success ↦ parse_success iters wc s
    | wc_error _ ↦ err failed_status
  ]
