-- ===== src/Rc/Pair/Invariant.antt =====
-- The invariant of the pair of programs: each stands for an automaton, and these are linked.
use ibv_bench.Base.{ℕ, suc, ◌+◌, ◌≤◌, ◌≡◌, refl, sym, ap, ◌∙◌, subst, Bool, true, false, arith}
use ibv_bench.Rc.Context.{Context, Verbs, post_recv-all, post_send_ok}
use ibv_bench.Rc.Timestamp.{ts_init}
use ibv_bench.Rc.Completion.{Pump, Checked, ok, err}
use ibv_bench.Rc.Loop.{start_pump}
use ibv_bench.Rc.Peer.{
  Peer, peer_send, peer_recv, Represents, Accepts, Yields, mask, parse_send_refines,
  parse_recv_refines,
}
use ibv_bench.Rc.Pair.Linked.{
  bit, peer_send-counts, peer_recv-counts, Linked, a_send-Linked, a_recv-Linked, b_send-Linked,
  b_recv-Linked,
}
use ibv_bench.Rc.Pair.{
  Settings, IsUsable, Pair, Step, client_sent, client_received, server_sent, server_received, Reach,
  start, later,
}

ok_value : Pump → Checked Pump → Pump
ok_value d (ok s) = s
ok_value d (err _) = d

-- The state that a run yields is the one that stands for the automaton.
yielded :
    (ctx : Context) {r : Checked Pump} {p : Peer} {c : Pump} (y : Yields ctx r p)
    → r ≡ ok c
    → Represents ctx c p
unfolding ok_value
yielded ctx {p} {c} (t, e, rep) h =
    subst (λ s. Represents ctx s p) (ap (ok_value c) (sym e ∙ h)) rep

pub record Inv (e : Settings) (n : ℕ) (p : Pair) : Type 0 where
  pub a : Peer
  pub b : Peer
  pub client_is : Represents e.client_ctx p.client a
  pub server_is : Represents e.server_ctx p.server b
  pub linked : Linked e.iters a b
  pub steps : n ≡ a.scnt + a.rcnt + b.scnt + b.rcnt

peer_start : Bool → Peer
peer_start first = record {
  scnt = 0;
  rcnt = 0;
  sent = bit first;
  recv_waits = true;
  send_waits = first;
}

start_refines :
    (v : Verbs) (ctx : Context)
    → Accepts v ctx
    → 1 ≤ ctx.rx_depth
    → (first : Bool) → Yields ctx (start_pump v ctx first) (peer_start first)
unfolding start_pump peer_start mask post_send_ok
start_refines v ctx yes_all pos true = (
  record {
    scnt = 0;
    rcnt = 0;
    routs = ctx.rx_depth;
    pending = 3;
    recv_calls = ctx.rx_depth;
    send_calls = 1;
    ts = ts_init;
  },
  ground (arith, post_recv-all v ctx yes_all.recvs 0 ctx.rx_depth, yes_all.sends 0),
  ground arith,
)
start_refines v ctx yes_all pos false = (
  record {
    scnt = 0;
    rcnt = 0;
    routs = ctx.rx_depth;
    pending = 1;
    recv_calls = ctx.rx_depth;
    send_calls = 0;
    ts = ts_init;
  },
  ground (arith, post_recv-all v ctx yes_all.recvs 0 ctx.rx_depth),
  ground arith,
)

module _ (e : Settings) (good : IsUsable e) where
  open e use {client_verbs, server_verbs, client_ctx, server_ctx, iters}
  open good use {client_accepts, server_accepts, client_depth, server_depth, some_iters, int_iters}

  Step-Inv : {n : ℕ} {p q : Pair} → Step e p q → Inv e n p → Inv e (suc n) q
  Step-Inv {p} (client_sent stamp h run) inv = record {
    a = peer_send iters inv.a;
    b = inv.b;
    client_is =
        yielded client_ctx
          (parse_send_refines client_verbs client_ctx client_accepts iters int_iters p.client inv.a
            stamp inv.client_is)
          run;
    server_is = inv.server_is;
    linked =
        a_send-Linked inv.linked (omega (arith, inv.client_is.sent_same, inv.client_is.scnt_same));
    steps = omega (arith, inv.steps, peer_send-counts iters inv.a);
  }
  Step-Inv {p} (client_received stamp h some run) inv = record {
    a = peer_recv iters inv.a;
    b = inv.b;
    client_is =
        yielded client_ctx
          (parse_recv_refines client_verbs client_ctx client_accepts iters int_iters p.client inv.a
            stamp inv.client_is)
          run;
    server_is = inv.server_is;
    linked =
        a_recv-Linked inv.linked (omega (arith, inv.server_is.sent_same, inv.client_is.rcnt_same));
    steps = omega (arith, inv.steps, peer_recv-counts iters inv.a);
  }
  Step-Inv {p} (server_sent stamp h run) inv = record {
    a = inv.a;
    b = peer_send iters inv.b;
    client_is = inv.client_is;
    server_is =
        yielded server_ctx
          (parse_send_refines server_verbs server_ctx server_accepts iters int_iters p.server inv.b
            stamp inv.server_is)
          run;
    linked =
        b_send-Linked inv.linked (omega (arith, inv.server_is.sent_same, inv.server_is.scnt_same));
    steps = omega (arith, inv.steps, peer_send-counts iters inv.b);
  }
  Step-Inv {p} (server_received stamp h some run) inv = record {
    a = inv.a;
    b = peer_recv iters inv.b;
    client_is = inv.client_is;
    server_is =
        yielded server_ctx
          (parse_recv_refines server_verbs server_ctx server_accepts iters int_iters p.server inv.b
            stamp inv.server_is)
          run;
    linked =
        b_recv-Linked inv.linked (omega (arith, inv.client_is.sent_same, inv.server_is.rcnt_same));
    steps = omega (arith, inv.steps, peer_recv-counts iters inv.b);
  }

  pub Reach-Inv : {n : ℕ} {p : Pair} → Reach e n p → Inv e n p
  unfolding peer_start
  Reach-Inv (start c s) = record {
    a = peer_start true;
    b = peer_start false;
    client_is =
        yielded client_ctx (start_refines client_verbs client_ctx client_accepts client_depth true)
          c;
    server_is =
        yielded server_ctx (start_refines server_verbs server_ctx server_accepts server_depth false)
          s;
    linked = ground arith;
    steps = refl;
  }
  Reach-Inv (later r st) = Step-Inv st (Reach-Inv r)
