-- ===== src/Xsrq/Messages/Answer.antt =====
-- How rdma-core/xsrq_pingpong.c answers a message while the library takes every request.
use ibv_bench.Base.{
  ℕ, zero, suc, ◌+◌, ◌-◌, ◌≤◌, ◌<◌, ◌≡◌, ◌≢◌, refl, true, none, some, arith, get_or, set, dec_lt,
}
use ibv_bench.Xsrq.Messages.{
  Settings, Send, Verbs, Process, post_recv, send_of, post_send, find_from, find_qp, handle_recv,
}

module _ (e : Settings) (v : Verbs) where
  find_from-eq :
      ((i j : ℕ) → i ≢ j → e.qp_num i ≢ e.qp_num j)
      → (i left j : ℕ) → i ≤ j
      → j < i + left
      → find_from e v (e.qp_num j) i left ≡ j
  unfolding find_from
  find_from-eq distinct i zero j le lt = absurd (omega arith)
  find_from-eq distinct i (suc left) j le lt = elim (dec_lt i j) [
    | yes below ↦ ground (
      arith,
      distinct i j (omega (arith, below)),
      find_from-eq distinct (suc i) left j (omega (arith, below)) (omega arith),
    )
    | no reached ↦ let same : i ≡ j = omega (arith, reached) in ground (arith, same)
  ]

  -- Queue pairs with different numbers are told apart.
  pub find_qp-eq :
      ((i j : ℕ) → i ≢ j → e.qp_num i ≢ e.qp_num j)
      → (i : ℕ) → i < e.num_clients
      → find_qp e v (e.qp_num i) ≡ i
  unfolding find_qp
  find_qp-eq distinct i lt =
      ground (arith, find_from-eq distinct 0 e.num_clients i (omega arith) (omega arith))

  -- What `pp_post_send` sends and changes.
  pub post_send-sends :
      (i : ℕ) (s : Process)
      → ((n : ℕ) (x : Send) → v.takes_send n x ≡ true)
      → let (sent, t) = post_send e v i s in
        ((x : Send) × (sent ≡ some x) × (x.index ≡ i))
        × (t.cnt ≡ s.cnt)
        × (t.posted ≡ s.posted)
        × (t.pp_cnt ≡ set s.pp_cnt i (get_or s.pp_cnt i 0 + 1))
  unfolding post_send send_of
  post_send-sends i s sends = (
    (send_of e v i s, ground (arith, sends s.send_calls (send_of e v i s)), refl),
    refl,
    refl,
    refl,
  )

  module _ (recvs : (n : ℕ) → v.takes_recv n ≡ true)
      (sends : (n : ℕ) (s : Send) → v.takes_send n s ≡ true) (qp_num i : ℕ)
      (found : find_qp e v qp_num ≡ i) (s : Process) (pos : 1 ≤ s.posted) where
    -- With tests left, the message is counted and answered to the same index.
    pub handle_recv-answers :
        get_or s.pp_cnt i 0 < e.num_tests
        → let (sent, t) = handle_recv e v qp_num s in
          ((x : Send) × (sent ≡ some x) × (x.index ≡ i))
          × (t.cnt ≡ s.cnt + 1)
          × (t.posted ≡ s.posted)
          × (t.pp_cnt ≡ set s.pp_cnt i (get_or s.pp_cnt i 0 + 1))
    unfolding handle_recv post_recv post_send send_of
    handle_recv-answers left =
        let t : Process = record s { posted = s.posted - 1 + 1; recv_calls = s.recv_calls + 1 } in
        let x = send_of e v i t in
        (
          (x, ground (arith, found, recvs s.recv_calls, sends s.send_calls x), refl),
          ground (arith, found, recvs s.recv_calls),
          ground (arith, found, recvs s.recv_calls),
          ground (arith, found, recvs s.recv_calls),
        )

    -- Behind the last test it is only counted.
    pub handle_recv-last :
        e.num_tests ≤ get_or s.pp_cnt i 0
        → let (sent, t) = handle_recv e v qp_num s in
          (sent ≡ none) × (t.cnt ≡ s.cnt + 1) × (t.posted ≡ s.posted) × (t.pp_cnt ≡ s.pp_cnt)
    unfolding handle_recv post_recv post_send send_of
    handle_recv-last over = (
      ground (arith, found, recvs s.recv_calls),
      ground (arith, found, recvs s.recv_calls),
      ground (arith, found, recvs s.recv_calls),
      ground (arith, found, recvs s.recv_calls),
    )

-- With every receive taken, `pp_post_recv` posts all of them.
pub post_recv-all :
    (v : Verbs)
    → ((n : ℕ) → v.takes_recv n ≡ true)
    → (k : ℕ) (s : Process)
    → post_recv v k s ≡ (true, record s { posted = s.posted + k; recv_calls = s.recv_calls + k })
unfolding post_recv
post_recv-all v recvs zero s = ground arith
post_recv-all v recvs (suc k) s = ground (
  arith,
  recvs s.recv_calls,
  post_recv-all v recvs k (record s { posted = s.posted + 1; recv_calls = s.recv_calls + 1 }),
)
