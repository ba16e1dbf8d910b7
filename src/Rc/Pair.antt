-- ===== src/Rc/Pair.antt =====
-- Two programs of rdma-core/rc_pingpong.c, one started with a server name, over an adapter that
-- loses nothing: the steps are their completions, in any order.
mod Linked
mod Invariant
pub mod Safety
use ibv_bench.Base.{ℕ, suc, zero, ◌+◌, ◌≤◌, ◌<◌, ◌^◌, ◌≡◌, Bool, true, false, ◌||◌}
use ibv_bench.Rc.Context.{Context, Verbs, recv_wrid, send_wrid}
use ibv_bench.Rc.Completion.{Pump, Checked, ok, parse_single_wc}
use ibv_bench.Rc.Loop.{start_pump, running}
use ibv_bench.Rc.Peer.{Accepts, wc_of}

-- The two programs: the verbs library and the context of each, and the `--iters` of both.
pub record Settings : Type 0 where
  pub client_verbs : Verbs
  pub server_verbs : Verbs
  pub client_ctx : Context
  pub server_ctx : Context
  pub iters : ℕ

-- Every request is taken, a receive can be posted, and `iters` is positive and fits in an `int`.
pub record IsUsable (e : Settings) : Type 0 where
  pub client_accepts : Accepts e.client_verbs e.client_ctx
  pub server_accepts : Accepts e.server_verbs e.server_ctx
  pub client_depth : 1 ≤ e.client_ctx.rx_depth
  pub server_depth : 1 ≤ e.server_ctx.rx_depth
  pub some_iters : 1 ≤ e.iters
  pub int_iters : e.iters < 2 ^ 31

pub record Pair : Type 0 where
  pub client : Pump
  pub server : Pump

module _ (e : Settings) where
  abbrev pub client_takes : ℕ → ℕ → Pump → Checked Pump
  client_takes wr_id stamp = parse_single_wc e.client_verbs e.client_ctx e.iters (wc_of wr_id stamp)

  abbrev pub server_takes : ℕ → ℕ → Pump → Checked Pump
  server_takes wr_id stamp = parse_single_wc e.server_verbs e.server_ctx e.iters (wc_of wr_id stamp)

  -- A send completes if it was posted. A message arrives if the other side has posted its send and
  -- a receive is posted here.
  pub data Step (p : Pair) : Pair → Type 0 where
    client_sent :
        (stamp : ℕ) {c : Pump}
        → p.client.scnt < p.client.send_calls
        → client_takes send_wrid stamp p.client ≡ ok c
        → Step p (record { client = c; server = p.server })
    client_received :
        (stamp : ℕ) {c : Pump}
        → p.client.rcnt < p.server.send_calls
        → 1 ≤ p.client.routs
        → client_takes recv_wrid stamp p.client ≡ ok c
        → Step p (record { client = c; server = p.server })
    server_sent :
        (stamp : ℕ) {s : Pump}
        → p.server.scnt < p.server.send_calls
        → server_takes send_wrid stamp p.server ≡ ok s
        → Step p (record { client = p.client; server = s })
    server_received :
        (stamp : ℕ) {s : Pump}
        → p.server.rcnt < p.client.send_calls
        → 1 ≤ p.server.routs
        → server_takes recv_wrid stamp p.server ≡ ok s
        → Step p (record { client = p.client; server = s })

  -- The pairs that are reached in `n` completions from the start of both programs.
  pub data Reach : ℕ → Pair → Type 0 where
    start :
        {c s : Pump}
        → start_pump e.client_verbs e.client_ctx true ≡ ok c
        → start_pump e.server_verbs e.server_ctx false ≡ ok s
        → Reach zero (record { client = c; server = s })
    later : {n : ℕ} {p q : Pair} → Reach n p → Step p q → Reach (suc n) q

  -- Whether one of the two is still in its loop.
  unfoldable pub unfinished : Pair → Bool
  unfinished p = running e.iters p.client || running e.iters p.server
