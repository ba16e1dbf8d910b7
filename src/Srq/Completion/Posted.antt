-- ===== src/Srq/Completion/Posted.antt =====
-- How many receives and sends srq_pingpong.c keeps posted.
use ibv_bench.Base.{
  ℕ, zero, suc, ◌+◌, ◌-◌, ◌%◌, ◌^◌, ◌≤◌, ◌<◌, ◌≡◌, ◌∙◌, ap, subst, sym, refl, ◌&&◌, none, some,
  List, [], ◌∷◌, arith, ltb, leb, ◌==◌, if◌then◌else◌, ◌⊎◌, inl, inr, Option-cases, Bool-cases,
}
use ibv_bench.Rc.Context.{recv_wrid, send_wrid, clear_bits}
use ibv_bench.Srq.Completion.{
  Context, State, Wc, num_qp, update, find_qp, post_recv, post_send, take_receive, count_wc,
  send_next,
}

-- Whether the bit of the send is set in a `pending` of two bits.
abbrev pub send_bit : ℕ → ℕ
send_bit p = if leb 2 p then 1 else 0

clear-recv : (p : ℕ) → p ≤ 3 → (clear_bits p 1 ≤ 3) × (send_bit (clear_bits p 1) ≡ send_bit p)
unfolding clear_bits
clear-recv zero h = (omega arith, refl)
clear-recv (suc zero) h = (omega arith, refl)
clear-recv (suc (suc zero)) h = (omega arith, refl)
clear-recv (suc (suc (suc zero))) h = (omega arith, refl)
clear-recv (suc (suc (suc (suc p)))) h = absurd (omega arith)

clear-send : (p : ℕ) → p ≤ 3 → (clear_bits p 2 ≤ 3) × (send_bit (clear_bits p 2) ≡ 0)
unfolding clear_bits
clear-send zero h = (omega arith, refl)
clear-send (suc zero) h = (omega arith, refl)
clear-send (suc (suc zero)) h = (omega arith, refl)
clear-send (suc (suc (suc zero))) h = (omega arith, refl)
clear-send (suc (suc (suc (suc p)))) h = absurd (omega arith)

-- The sends that a completion is of: one on its queue pair if its identifier is that of a send.
unfoldable pub sends_done : Context → ℕ → List Wc → ℕ
sends_done ctx i [] = 0
sends_done ctx i (wc ∷ wcs) =
    let rest = sends_done ctx i wcs in
    elim (find_qp wc.qp_num ctx.qp_nums 0) [
      | none ↦ rest
      | some j ↦ if j == i && wc.wr_id % 2 ^ 32 == send_wrid then suc rest else rest
    ]

-- A receive is posted for each queue pair, and no more than the queue takes; on each queue pair no
-- more sends have been posted than have completed, but for the one that is pending.
pub record IsPosted (ctx : Context) (completed : ℕ → ℕ) (s : State) : Type 0 where
  pub enough_receives : num_qp ctx ≤ s.routs
  pub few_receives : s.routs ≤ ctx.rx_depth
  pub two_bits : (i : ℕ) → s.pending i ≤ 3
  pub few_sends : (i : ℕ) → s.sent i ≤ completed i + send_bit (s.pending i)

-- At least one queue pair, a receive for each, which `main` checks, and a depth that is a positive `int`.
pub record IsContext (ctx : Context) : Type 0 where
  pub some_qp : 1 ≤ num_qp ctx
  pub one_each : num_qp ctx ≤ ctx.rx_depth
  pub int_depth : ctx.rx_depth < 2 ^ 31

module _ (ctx : Context) (good : IsContext ctx) where
  pub post_recv-le : (calls n : ℕ) → post_recv ctx calls n ≤ n
  unfolding post_recv
  post_recv-le calls zero = omega arith
  post_recv-le calls (suc n) = ground (arith, post_recv-le (suc calls) n)

  pub one_less : (n : ℕ) → 1 ≤ n → n < 2 ^ 31 → (n + 2 ^ 32 - 1) % 2 ^ 32 ≡ n - 1
  one_less n pos small = omega arith

  -- The refill changes the receives only.
  take_receive-routs :
      (s t : State)
      → num_qp ctx ≤ s.routs
      → s.routs ≤ ctx.rx_depth
      → take_receive ctx s ≡ some t
      → (num_qp ctx ≤ t.routs)
        × (t.routs ≤ ctx.rx_depth)
        × (t.pending ≡ s.pending)
        × (t.sent ≡ s.sent)
  unfolding take_receive
  take_receive-routs s t low high e =
      let less = one_less s.routs (omega (arith, good.some_qp)) (omega (arith, good.int_depth)) in
      let few = post_recv-le s.recv_calls (ctx.rx_depth - (s.routs - 1)) in
      ground (arith, less, few, good.some_qp, good.one_each)

  -- Only the receives have changed.
  same_sends :
      (done : ℕ → ℕ) (s t : State)
      → IsPosted ctx done s
      → num_qp ctx ≤ t.routs
      → t.routs ≤ ctx.rx_depth
      → t.pending ≡ s.pending
      → t.sent ≡ s.sent
      → IsPosted ctx done t
  same_sends done s t h low high p_same s_same = record {
    enough_receives = low;
    few_receives = high;
    two_bits = λ j. ground (arith, h.two_bits j, ap (λ f. f j) p_same);
    few_sends = λ j. ground (arith, h.few_sends j, ap (λ f. f j) p_same, ap (λ f. f j) s_same);
  }

  count_wc-inv :
      (wc : Wc) (s t : State)
      → count_wc ctx wc s ≡ some t
      → ((wc.wr_id % 2 ^ 32 ≡ send_wrid) × (t ≡ record s { scnt = s.scnt + 1 }))
        ⊎ ((wc.wr_id % 2 ^ 32 ≡ recv_wrid)
            × ((u : State) × (take_receive ctx s ≡ some u) × (t ≡ record u { rcnt = u.rcnt + 1 })))
  unfolding count_wc
  count_wc-inv wc s t e = elim (Bool-cases (wc.wr_id % 2 ^ 32 == send_wrid)) [
    | inl is_send ↦ inl (ground (arith, is_send), ground (arith, is_send))
    | inr no_send ↦ elim (Bool-cases (wc.wr_id % 2 ^ 32 == recv_wrid)) [
      | inr neither ↦ absurd (ground (arith, no_send, neither))
      | inl is_recv ↦ elim (Option-cases (take_receive ctx s)) [
        | inl refused ↦ absurd (ground (arith, no_send, is_recv, refused))
        | inr (u, taken) ↦
            inr (ground (arith, is_recv), (u, taken, ground (arith, no_send, is_recv, taken)))
      ]
    ]
  ]

  pub count_wc-IsPosted :
      (done : ℕ → ℕ) (wc : Wc) (s t : State)
      → IsPosted ctx done s
      → count_wc ctx wc s ≡ some t
      → IsPosted ctx done t × ((wc.wr_id % 2 ^ 32 ≡ send_wrid) ⊎ (wc.wr_id % 2 ^ 32 ≡ recv_wrid))
  count_wc-IsPosted done wc s t h e = elim (count_wc-inv wc s t e) [
    | inl (is_send, same) ↦ (
      same_sends done s t h (rw same h.enough_receives) (rw same h.few_receives)
          (ap State.pending same) (ap State.sent same),
      inl is_send,
    )
    | inr (is_recv, (u, taken, same)) ↦
        let (low, high, p_same, s_same) =
          take_receive-routs s u h.enough_receives h.few_receives taken in
        (
          same_sends done s t h (rw same low) (rw same high) (ap State.pending same ∙ p_same)
              (ap State.sent same ∙ s_same),
          inr is_recv,
        )
  ]

  -- What a completion adds to the sends completed on a queue pair.
  abbrev pub counts : Wc → ℕ → ℕ → ℕ
  counts wc i j = if i == j && wc.wr_id % 2 ^ 32 == send_wrid then 1 else 0

  abbrev cleared : Wc → ℕ → State → State
  cleared wc i s = record s {
    pending = update s.pending i (clear_bits (s.pending i) (wc.wr_id % 2 ^ 32));
  }

  cleared-IsPosted :
      (done : ℕ → ℕ) (wc : Wc) (i : ℕ) (s : State)
      → IsPosted ctx done s
      → (wc.wr_id % 2 ^ 32 ≡ send_wrid) ⊎ (wc.wr_id % 2 ^ 32 ≡ recv_wrid)
      → IsPosted ctx (λ j. done j + counts wc i j) (cleared wc i s)
  unfolding update
  cleared-IsPosted done wc i s h kind = record {
    enough_receives = h.enough_receives;
    few_receives = h.few_receives;
    two_bits =
        λ j. ground (arith, kind, h.two_bits j, clear-recv (s.pending i), clear-send (s.pending i));
    few_sends = λ j. ground (
      arith,
      kind,
      h.two_bits j,
      h.few_sends j,
      clear-recv (s.pending i),
      clear-send (s.pending i),
    );
  }

  pub post_send-IsPosted :
      (done : ℕ → ℕ) (i : ℕ) (s t : State)
      → IsPosted ctx done s
      → s.pending i ≡ 0
      → post_send ctx i s ≡ some t
      → IsPosted ctx done t
  unfolding post_send update
  post_send-IsPosted done i s t h idle e =
      let after : State = record s {
        pending = update s.pending i (recv_wrid + send_wrid);
        sent = update s.sent i (s.sent i + 1);
      } in
      let same : t ≡ after = ground arith in
      subst (IsPosted ctx done) (sym same) (record {
        enough_receives = h.enough_receives;
        few_receives = h.few_receives;
        two_bits = λ j. ground (arith, h.two_bits j);
        few_sends = λ j. ground (arith, idle, h.few_sends j);
      })

  -- Both outcomes of the step behind the `switch`.
  pub send_next-IsPosted :
      (done : ℕ → ℕ) (iters : ℕ) (wc : Wc) (i : ℕ) (s t : State)
      → IsPosted ctx done s
      → (wc.wr_id % 2 ^ 32 ≡ send_wrid) ⊎ (wc.wr_id % 2 ^ 32 ≡ recv_wrid)
      → send_next ctx iters wc i s ≡ some t
      → IsPosted ctx (λ j. done j + counts wc i j) t
  unfolding send_next
  send_next-IsPosted done iters wc i s t h kind e =
      let left = clear_bits (s.pending i) (wc.wr_id % 2 ^ 32) in
      let kept = cleared-IsPosted done wc i s h kind in
      elim (Bool-cases (ltb s.scnt iters && left == 0)) [
        | inl posts ↦
            post_send-IsPosted (λ j. done j + counts wc i j) i (cleared wc i s) t kept
              (unfold update in ground (arith, posts)) (ground (arith, posts))
        | inr stays ↦
            subst (IsPosted ctx (λ j. done j + counts wc i j)) (ground (arith, stays)) kept
      ]
