-- ===== src/Rc/Pair/Safety.antt =====
-- What holds in every reachable state of the pair of programs.
use ibv_bench.Base.{
  ℕ, zero, suc, ◌+◌, ◌*◌, ◌-◌, ◌≤◌, ◌<◌, ◌≡◌, true, false, arith, dec_lt, ◌⊎◌, inl, inr, ◌∙◌, subst,
}
use ibv_bench.Rc.Context.{Context}
use ibv_bench.Rc.Completion.{Pump}
use ibv_bench.Rc.Loop.{running}
use ibv_bench.Rc.Peer.{Peer, Represents, parse_send_refines, parse_recv_refines}
use ibv_bench.Rc.Pair.Linked.{bit, Linked}
use ibv_bench.Rc.Pair.Invariant.{Inv, Reach-Inv}
use ibv_bench.Rc.Pair.{
  Settings, IsUsable, Pair, Step, client_sent, client_received, server_sent, server_received, Reach,
  later, unfinished,
}

-- The limits that the queues were created with: one send, `rx_depth` receives, and a completion
-- queue with an entry for each.
pub record IsSafe (ctx : Context) (iters : ℕ) (s : Pump) : Type 0 where
  pub few_sends : s.send_calls ≤ iters
  pub one_send : s.send_calls ≤ s.scnt + 1
  pub receive_posted : 1 ≤ s.routs
  pub few_receives : s.routs ≤ ctx.rx_depth
  pub cq_room : s.routs + (s.send_calls - s.scnt) ≤ ctx.rx_depth + 1

-- Both programs have counted all their sends and receives.
pub record IsComplete (e : Settings) (p : Pair) : Type 0 where
  pub client_sends : p.client.scnt ≡ e.iters
  pub client_receives : p.client.rcnt ≡ e.iters
  pub server_sends : p.server.scnt ≡ e.iters
  pub server_receives : p.server.rcnt ≡ e.iters

side-IsSafe :
    (ctx : Context) (iters : ℕ) {s : Pump} {p : Peer}
    → Represents ctx s p
    → p.sent ≡ p.scnt + bit p.send_waits
    → p.sent ≤ iters
    → IsSafe ctx iters s
side-IsSafe ctx iters r sent few = ground arith

-- Where neither side has a completion to come, both have counted `iters` of each kind.
quiet-counts :
    {iters : ℕ} {a b : Peer}
    → Linked iters a b
    → ¬ (a.scnt < a.sent)
    → ¬ (a.rcnt < b.sent)
    → ¬ (b.scnt < b.sent)
    → ¬ (b.rcnt < a.sent)
    → (a.scnt ≡ iters) × (a.rcnt ≡ iters) × (b.scnt ≡ iters) × (b.rcnt ≡ iters)
quiet-counts l h1 h2 h3 h4 = ground arith

module _ (e : Settings) (good : IsUsable e) where
  -- In every state that two usable programs reach, on both sides: at most `iters` sends have been
  -- posted, at most one of them is not completed, at least one and at most `rx_depth` receives are
  -- posted, and the completion queue of `rx_depth + 1` entries has room for all that is posted.
  pub Reach-IsSafe :
      {n : ℕ} {p : Pair}
      → Reach e n p
      → IsSafe e.client_ctx e.iters p.client × IsSafe e.server_ctx e.iters p.server
  Reach-IsSafe r =
      let inv = Reach-Inv e good r in
      (
        side-IsSafe e.client_ctx e.iters inv.client_is inv.linked.a_sent inv.linked.a_few,
        side-IsSafe e.server_ctx e.iters inv.server_is inv.linked.b_sent inv.linked.b_few,
      )

  -- A completion that can come is taken.
  some-Step :
      {n : ℕ} {p : Pair} (inv : Inv e n p)
      → ((q : Pair) × Step e p q)
        ⊎ ((inv.a.scnt ≡ e.iters)
            × (inv.a.rcnt ≡ e.iters)
            × (inv.b.scnt ≡ e.iters)
            × (inv.b.rcnt ≡ e.iters))
  some-Step {p} inv = elim (dec_lt inv.a.scnt inv.a.sent) [
    | yes h ↦ inl (
      _,
      client_sent 0 (omega (arith, inv.client_is.scnt_same, inv.client_is.sent_same))
          (parse_send_refines client_verbs client_ctx client_accepts iters int_iters p.client inv.a
            0 inv.client_is).1,
    )
    | no h1 ↦ elim (dec_lt inv.a.rcnt inv.b.sent) [
      | yes h ↦ inl (
        _,
        client_received 0 (omega (arith, inv.client_is.rcnt_same, inv.server_is.sent_same))
            inv.client_is.some_posted
            (parse_recv_refines client_verbs client_ctx client_accepts iters int_iters p.client
              inv.a 0 inv.client_is).1,
      )
      | no h2 ↦ elim (dec_lt inv.b.scnt inv.b.sent) [
        | yes h ↦ inl (
          _,
          server_sent 0 (omega (arith, inv.server_is.scnt_same, inv.server_is.sent_same))
              (parse_send_refines server_verbs server_ctx server_accepts iters int_iters p.server
                inv.b 0 inv.server_is).1,
        )
        | no h3 ↦ elim (dec_lt inv.b.rcnt inv.a.sent) [
          | yes h ↦ inl (
            _,
            server_received 0 (omega (arith, inv.server_is.rcnt_same, inv.client_is.sent_same))
                inv.server_is.some_posted
                (parse_recv_refines server_verbs server_ctx server_accepts iters int_iters p.server
                  inv.b 0 inv.server_is).1,
          )
          | no h4 ↦ inr (quiet-counts inv.linked h1 h2 h3 h4)
        ]
      ]
    ]
  ]
    where
      open e use {client_verbs, server_verbs, client_ctx, server_ctx, iters}
      open good use {client_accepts, server_accepts, int_iters}

  complete :
      {n : ℕ} {p : Pair} (inv : Inv e n p)
      → (inv.a.scnt ≡ e.iters)
        × (inv.a.rcnt ≡ e.iters)
        × (inv.b.scnt ≡ e.iters)
        × (inv.b.rcnt ≡ e.iters)
      → IsComplete e p
  complete inv done = record {
    client_sends = inv.client_is.scnt_same ∙ done.0;
    client_receives = inv.client_is.rcnt_same ∙ done.1;
    server_sends = inv.server_is.scnt_same ∙ done.2;
    server_receives = inv.server_is.rcnt_same ∙ done.3;
  }

  -- No deadlock: while one of two usable programs is in its loop, some completion can happen, and
  -- the program that gets it takes it without an error.
  pub Reach-unfinished :
      {n : ℕ} {p : Pair} → Reach e n p → unfinished e p ≡ true → (q : Pair) × Step e p q
  unfolding unfinished running
  Reach-unfinished r h =
      let inv = Reach-Inv e good r in
      elim (some-Step inv) [
        | inl step ↦ step
        | inr done ↦ absurd (
            ground (
              arith, inv.client_is.scnt_same, inv.client_is.rcnt_same, inv.server_is.scnt_same,
              inv.server_is.rcnt_same,
            ))
      ]

  -- The `n` completions by which two usable programs reach a state are counted as `n` there, and
  -- there are never more than four times `iters`.
  pub Reach-bounded :
      {n : ℕ} {p : Pair}
      → Reach e n p
      → (n ≡ p.client.scnt + p.client.rcnt + p.server.scnt + p.server.rcnt) × (n ≤ 4 * e.iters)
  Reach-bounded r =
      let inv = Reach-Inv e good r in
      (
        omega (
          arith, inv.steps, inv.client_is.scnt_same, inv.client_is.rcnt_same,
          inv.server_is.scnt_same, inv.server_is.rcnt_same,
        ),
        omega (
          arith, inv.steps, inv.linked.a_sent, inv.linked.b_sent, inv.linked.a_few,
          inv.linked.b_few, inv.linked.a_got, inv.linked.b_got,
        ),
      )

  -- Whatever the order of the completions of two usable programs has been: where none can happen
  -- any more, both have counted exactly `iters` sends and `iters` receives.
  pub Reach-final : {n : ℕ} {p : Pair} → Reach e n p → ¬ ((q : Pair) × Step e p q) → IsComplete e p
  Reach-final r stuck =
      let inv = Reach-Inv e good r in
      elim (some-Step inv) [ inl step ↦ absurd (stuck step) | inr done ↦ complete inv done ]

  -- A run from one pair of states to another, by so many completions.
  pub data Runs : Pair → ℕ → Pair → Type 0 where
    stay : {p : Pair} → Runs p 0 p
    on : {k : ℕ} {p q r : Pair} → Step e p q → Runs q k r → Runs p (suc k) r

  pub Reach-Runs : {n k : ℕ} {p q : Pair} → Reach e n p → Runs p k q → Reach e (k + n) q
  Reach-Runs {n} {p} r stay = let same : n ≡ 0 + n = omega arith in subst (λ m. Reach e m p) same r
  Reach-Runs {n} {p} {q} r (on {k} step rest) =
      let same : k + suc n ≡ suc k + n = omega arith in
      subst (λ m. Reach e m q) same (Reach-Runs (later r step) rest)

  -- Every run goes on from where it is, by `left` completions at most, to the end of both exchanges.
  run_on :
      (left : ℕ) {n : ℕ} {p : Pair}
      → Reach e n p
      → 4 * e.iters ≤ n + left
      → (k : ℕ) × (q : Pair) × Runs p k q × IsComplete e q
  run_on zero {n} {p} r enough =
      let inv = Reach-Inv e good r in
      elim (some-Step inv) [
        | inr done ↦ (0, p, stay, complete inv done)
        | inl (q, step) ↦ absurd (omega (arith, (Reach-bounded (later r step)).1))
      ]
  run_on (suc left) {n} {p} r enough =
      let inv = Reach-Inv e good r in
      elim (some-Step inv) [
        | inr done ↦ (0, p, stay, complete inv done)
        | inl (_, step) ↦
            let (k, q, rest, done) = run_on left (later r step) (omega arith) in
            (suc k, q, on step rest, done)
      ]

  -- From whatever state two usable programs (with libraries that take every request, a receive queue
  -- of at least one entry, and `iters` from 1 to below 2^31) have reached by `n` completions, in any
  -- order, that very run goes on by `k` further completions, with `n + k` four times `iters`, to a
  -- state where both have left their loops with `iters` sends and `iters` receives each.
  pub Reach-completes :
      {n : ℕ} {p : Pair}
      → Reach e n p
      → (k : ℕ) × (q : Pair) × Runs p k q
        × (n + k ≡ 4 * e.iters)
        × IsComplete e q
        × (unfinished e q ≡ false)
  unfolding unfinished running
  Reach-completes {n} r =
      let (k, q, rest, done) = run_on (4 * e.iters) r (omega arith) in
      let counted = (Reach-bounded (Reach-Runs r rest)).0 in
      (
        k,
        q,
        rest,
        omega (
          arith, counted, done.client_sends, done.client_receives, done.server_sends,
          done.server_receives,
        ),
        done,
        ground (arith, done),
      )
