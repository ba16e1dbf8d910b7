-- ===== src/Srq/Completion.antt =====
-- rdma-core/srq_pingpong.c: posting, the start of the exchange in `main`, and what its loop does with
-- the completions of one poll. The state is none where `main` returns 1.
pub mod Posted
pub mod Run
pub mod Total
use ibv_bench.Base.{
  ℕ, zero, suc, ◌+◌, ◌-◌, ◌%◌, ◌^◌, Bool, true, false, ◌&&◌, ◌||◌, Option, none, some, List, [],
  ◌∷◌, ltb, leb, ◌==◌, if◌then◌else◌, length,
}
use ibv_bench.Rc.Context.{recv_wrid, send_wrid, clear_bits}

-- The numbers of the queue pairs, the depth of the receive queue (a positive `int`), and whether the
-- n-th receive, and the n-th send of a queue pair, is taken by the library.
pub record Context : Type 0 where
  pub qp_nums : List ℕ
  pub rx_depth : ℕ
  pub takes_recv : ℕ → Bool
  pub takes_send : (qp_index n : ℕ) → Bool

abbrev pub num_qp : Context → ℕ
num_qp ctx = length ctx.qp_nums

-- The variables of `main` and the array `pending`, with the numbers of requests posted so far, the
-- sends for each queue pair.
pub record State : Type 0 where
  pub scnt : ℕ
  pub rcnt : ℕ
  pub routs : ℕ
  pub pending : ℕ → ℕ
  pub recv_calls : ℕ
  pub sent : ℕ → ℕ

pub record Wc : Type 0 where
  pub wr_id : ℕ
  pub success : Bool
  pub qp_num : ℕ

-- An assignment to an array.
unfoldable pub update : (ℕ → ℕ) → ℕ → ℕ → ℕ → ℕ
update a i v j = if i == j then v else a j

-- `find_qp` from the index `i` on; none for -1.
unfoldable pub find_qp : ℕ → List ℕ → ℕ → Option ℕ
find_qp qpn [] i = none
find_qp qpn (q ∷ qps) i = let rest = find_qp qpn qps (suc i) in if q == qpn then some i else rest

module _ (ctx : Context) where
  -- `pp_post_recv`: how many of `n` receives are taken, up to the first that is not.
  unfoldable pub post_recv : ℕ → ℕ → ℕ
  post_recv calls zero = 0
  post_recv calls (suc n) =
      let rest = post_recv (suc calls) n in if ctx.takes_recv calls then suc rest else 0

  -- `pp_post_send` and the assignment to `pending` behind it.
  unfoldable pub post_send : ℕ → State → Option State
  unfolding update
  post_send i s =
      if ctx.takes_send i (s.sent i)
      then some (record s {
        pending = update s.pending i (recv_wrid + send_wrid);
        sent = update s.sent i (s.sent i + 1);
      })
      else none

  -- The loop of the client over its queue pairs.
  unfoldable pub send_first : ℕ → ℕ → State → Option State
  unfolding post_send
  send_first i zero s = some s
  send_first i (suc left) s = elim (post_send i s) [
    | none ↦ none
    | some t ↦ send_first (suc i) left t
  ]

  -- The receives, and the start of both sides. The entries of `pending` behind `num_qp` are not
  -- used; on the client, each is set when its send is posted.
  unfoldable pub start_state : Bool → Option State
  unfolding send_first post_recv
  start_state servername =
      let posted = post_recv 0 ctx.rx_depth in
      let s : State = record {
        scnt = 0;
        rcnt = 0;
        routs = posted;
        pending = λ i. if servername then 0 else recv_wrid;
        recv_calls = posted;
        sent = λ i. 0;
      } in
      if ltb posted ctx.rx_depth
      then none
      else if servername
      then send_first 0 (num_qp ctx) s
      else some s

  -- `--routs <= num_qp` and the refill. The comparison is one of `unsigned int`.
  unfoldable pub take_receive : State → Option State
  take_receive s =
      let routs = (s.routs + 2 ^ 32 - 1) % 2 ^ 32 in
      let posted = post_recv s.recv_calls (ctx.rx_depth - routs) in
      if leb routs (num_qp ctx)
      then if ltb (routs + posted) ctx.rx_depth
        then none
        else some (record s { routs = routs + posted; recv_calls = s.recv_calls + posted })
      else some (record s { routs = routs })

  -- The `switch` on the work request.
  unfoldable pub count_wc : Wc → State → Option State
  unfolding take_receive
  count_wc wc s =
      if wc.wr_id % 2 ^ 32 == send_wrid
      then some (record s { scnt = s.scnt + 1 })
      else if wc.wr_id % 2 ^ 32 == recv_wrid
      then elim (take_receive s) [ none ↦ none | some t ↦ some (record t { rcnt = t.rcnt + 1 }) ]
      else none

  -- Behind the `switch`: the bit is cleared, and the next send is posted once none is left.
  unfoldable pub send_next : ℕ → Wc → ℕ → State → Option State
  unfolding post_send
  send_next iters wc i s =
      let left = clear_bits (s.pending i) (wc.wr_id % 2 ^ 32) in
      let t = record s { pending = update s.pending i left } in
      if ltb s.scnt iters && left == 0 then post_send i t else some t

  unfoldable pub handle_wc : ℕ → Wc → State → Option State
  unfolding find_qp count_wc send_next
  handle_wc iters wc s =
      let known : Option State = elim (find_qp wc.qp_num ctx.qp_nums 0) [
        | none ↦ none
        | some i ↦ elim (count_wc wc s) [ none ↦ none | some t ↦ send_next iters wc i t ]
      ] in
      if wc.success then known else none

  -- The loop over the completions.
  unfoldable pub handle_all : ℕ → List Wc → State → Option State
  unfolding handle_wc
  handle_all iters [] s = some s
  handle_all iters (wc ∷ wcs) s = elim (handle_wc iters wc s) [
    | none ↦ none
    | some t ↦ handle_all iters wcs t
  ]
