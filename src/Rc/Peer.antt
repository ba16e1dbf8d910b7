-- ===== src/Rc/Peer.antt =====
-- What `parse_single_wc` of rdma-core/rc_pingpong.c promises while the library takes every request:
-- an automaton with two flags in place of the bit mask, no receive queue and no time stamps.
use ibv_bench.Base.{
  ℕ, ◌+◌, ◌-◌, ◌^◌, ◌≤◌, ◌<◌, ◌≡◌, refl, ◌∙◌, ap, Bool, true, false, not, ◌&&◌, arith, ltb, leb,
  Bool-cases, inl, inr, ◌==◌, if◌then◌else◌,
}
use ibv_bench.Rc.Context.{
  Context, Verbs, recv_wrid, send_wrid, recv_wr, submission, post_recv, post_send_ok, clear_bits,
  post_recv-all,
}
use ibv_bench.Rc.Completion.{
  Pump, Wc, wc_success, Checked, ok, ◌>>=◌, lt_int, take_receive, count_receive, dispatch,
  send_next, parse_success, parse_single_wc,
}
use ibv_bench.Rc.Timestamp.{record_stamp}

-- One side: what it has sent and what has come back, and what it waits for.
pub record Peer : Type 0 where
  pub scnt : ℕ
  pub rcnt : ℕ
  pub sent : ℕ
  pub recv_waits : Bool
  pub send_waits : Bool

unfoldable pub peer_post : ℕ → Peer → Peer
peer_post iters p =
    if ltb p.scnt iters && (not p.recv_waits && not p.send_waits)
    then record p { sent = p.sent + 1; recv_waits = true; send_waits = true }
    else p

unfoldable pub peer_send : ℕ → Peer → Peer
unfolding peer_post
peer_send iters p = peer_post iters (record p { scnt = p.scnt + 1; send_waits = false })

unfoldable pub peer_recv : ℕ → Peer → Peer
unfolding peer_post
peer_recv iters p = peer_post iters (record p { rcnt = p.rcnt + 1; recv_waits = false })

-- The bit mask of the two flags.
unfoldable pub mask : Bool → Bool → ℕ
mask false false = 0
mask true false = 1
mask false true = 2
mask true true = 3

-- The state of the program stands for that of the automaton, and a receive is posted.
pub record Represents (ctx : Context) (s : Pump) (p : Peer) : Type 0 where
  pub scnt_same : s.scnt ≡ p.scnt
  pub rcnt_same : s.rcnt ≡ p.rcnt
  pub sent_same : s.send_calls ≡ p.sent
  pub flags : s.pending ≡ mask p.recv_waits p.send_waits
  pub some_posted : 1 ≤ s.routs
  pub routs_bound : s.routs ≤ ctx.rx_depth

-- A library that takes every request.
pub record Accepts (v : Verbs) (ctx : Context) : Type 0 where
  pub recvs : (n : ℕ) → v.takes_recv n (recv_wr ctx) ≡ true
  pub sends : (n : ℕ) → v.takes_send n (submission ctx) ≡ true

abbrev pub wc_of : ℕ → ℕ → Wc
wc_of wr_id stamp = record { wr_id = wr_id; status = wc_success; completion_timestamp = stamp }

clear-recv : (r w : Bool) → clear_bits (mask r w) recv_wrid ≡ mask false w
unfolding clear_bits mask
clear-recv false false = refl
clear-recv false true = refl
clear-recv true false = refl
clear-recv true true = refl

clear-send : (r w : Bool) → clear_bits (mask r w) send_wrid ≡ mask r false
unfolding clear_bits mask
clear-send false false = refl
clear-send false true = refl
clear-send true false = refl
clear-send true true = refl

mask-eq-zero : (r w : Bool) → (mask r w == 0) ≡ (not r && not w)
unfolding mask
mask-eq-zero false false = refl
mask-eq-zero false true = refl
mask-eq-zero true false = refl
mask-eq-zero true true = refl

-- A run that succeeds in a state that stands for `p`.
abbrev pub Yields : Context → Checked Pump → Peer → Type 0
Yields ctx r p = (t : Pump) × (r ≡ ok t) × Represents ctx t p

module _ (v : Verbs) (ctx : Context) (yes_all : Accepts v ctx) (iters : ℕ)
    (small : iters < 2 ^ 31) where
  send_next_refines :
      (s : Pump) (p : Peer)
      → Represents ctx s p
      → Yields ctx (send_next v ctx iters s) (peer_post iters p)
  unfolding send_next peer_post lt_int post_send_ok mask
  send_next_refines s p r =
      elim (Bool-cases (ltb p.scnt iters && (not p.recv_waits && not p.send_waits))) [
        | inl test ↦ (
          record s { pending = recv_wrid + send_wrid; send_calls = s.send_calls + 1 },
          ground (arith, mask-eq-zero p.recv_waits p.send_waits, yes_all.sends s.send_calls),
          ground arith,
        )
        | inr test ↦ (
          s,
          ground (arith, mask-eq-zero p.recv_waits p.send_waits, yes_all.sends s.send_calls),
          ground arith,
        )
      ]

  -- While the library takes every request and `iters` is below 2^31, a send completion is handled
  -- without an error, and if the state stood for one of the automaton, the state afterwards stands
  -- for the automaton's next one.
  pub parse_send_refines :
      (s : Pump) (p : Peer) (stamp : ℕ)
      → Represents ctx s p
      → Yields ctx (parse_single_wc v ctx iters (wc_of send_wrid stamp) s) (peer_send iters p)
  unfolding parse_single_wc parse_success dispatch peer_send
  parse_send_refines s p stamp r =
      send_next_refines (record s { scnt = s.scnt + 1; pending = clear_bits s.pending send_wrid })
        (record p { scnt = p.scnt + 1; send_waits = false })
        (record {
          scnt_same = omega arith;
          rcnt_same = r.rcnt_same;
          sent_same = r.sent_same;
          flags = ap (λ k. clear_bits k send_wrid) r.flags ∙ clear-send p.recv_waits p.send_waits;
          some_posted = r.some_posted;
          routs_bound = r.routs_bound;
        })

  -- The refill succeeds and leaves a receive posted.
  take_receive-ok :
      (s : Pump)
      → 1 ≤ s.routs
      → s.routs ≤ ctx.rx_depth
      → (n calls : ℕ) × (take_receive v ctx s ≡ ok (record s { routs = n; recv_calls = calls }))
        × (1 ≤ n)
        × (n ≤ ctx.rx_depth)
  unfolding take_receive
  take_receive-ok s pos le = elim (Bool-cases (leb s.routs 2)) [
    | inl refill ↦ (
      ctx.rx_depth,
      s.recv_calls + (ctx.rx_depth + 1 - s.routs),
      ground (arith, all_posted),
      omega arith,
      omega arith,
    )
    | inr enough ↦ (s.routs - 1, s.recv_calls, ground arith, ground arith, ground arith)
  ]
    where
      all_posted :
          post_recv v ctx s.recv_calls (ctx.rx_depth + 1 - s.routs) ≡ ctx.rx_depth + 1 - s.routs
      all_posted = post_recv-all v ctx yes_all.recvs s.recv_calls (ctx.rx_depth + 1 - s.routs)

  -- While the library takes every request and `iters` is below 2^31, a receive completion is
  -- handled without an error, and if the state stood for one of the automaton, the state
  -- afterwards stands for the automaton's next one, with at least one and at most `rx_depth`
  -- receives posted.
  pub parse_recv_refines :
      (s : Pump) (p : Peer) (stamp : ℕ)
      → Represents ctx s p
      → Yields ctx (parse_single_wc v ctx iters (wc_of recv_wrid stamp) s) (peer_recv iters p)
  unfolding parse_single_wc parse_success dispatch count_receive peer_recv
  parse_recv_refines s p stamp r =
      let (n, calls, e, pos, le) = take_receive-ok s r.some_posted r.routs_bound in
      let mid : Pump = record s {
        routs = n;
        recv_calls = calls;
        rcnt = s.rcnt + 1;
        ts = record_stamp ctx.use_ts ctx.completion_timestamp_mask stamp s.ts;
        pending = clear_bits s.pending recv_wrid;
      } in
      let (t, run, rep) =
        send_next_refines mid (record p { rcnt = p.rcnt + 1; recv_waits = false })
          (record {
            scnt_same = r.scnt_same;
            rcnt_same = omega arith;
            sent_same = r.sent_same;
            flags = ap (λ k. clear_bits k recv_wrid) r.flags ∙ clear-recv p.recv_waits p.send_waits;
            some_posted = pos;
            routs_bound = le;
          }) in
      (t, ap after e ∙ run, rep)
    where
      after : Checked Pump → Checked Pump
      after m =
          (m >>= λ t. ok (record t {
            rcnt = t.rcnt + 1;
            ts = record_stamp ctx.use_ts ctx.completion_timestamp_mask stamp t.ts;
          }))
          >>= λ t. send_next v ctx iters (record t { pending = clear_bits t.pending recv_wrid })
