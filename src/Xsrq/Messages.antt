-- ===== src/Xsrq/Messages.antt =====
-- rdma-core/xsrq_pingpong.c: `pp_post_recv`, `pp_post_send`, `find_qp`, and what `main` does with a
-- completion of the receive queue.
pub mod Answer
use ibv_bench.Base.{
  ℕ, zero, suc, ◌+◌, ◌-◌, ◌%◌, ◌≤◌, ◌<◌, ◌≡◌, ◌≢◌, refl, Bool, true, false, Option, none, some,
  List, [], ◌∷◌, ◌++◌, arith, ltb, leb, ◌==◌, if◌then◌else◌, get_or, set, replicate, Bool-cases,
  inl, inr,
}

-- The global `ctx`: the options, and the numbers of the queue pairs in `recv_qp`.
pub record Settings : Type 0 where
  pub num_clients : ℕ
  pub num_tests : ℕ
  pub qp_num : ℕ → ℕ

-- A send: `send_qp[qpi]`, the index whose `srqn` it goes to, and whether it is signaled.
pub record Send : Type 0 where
  pub qpi : ℕ
  pub index : ℕ
  pub signaled : Bool

-- Whether the library takes the n-th receive and the n-th send.
pub record Verbs : Type 0 where
  pub takes_recv : ℕ → Bool
  pub takes_send : ℕ → Send → Bool

-- What changes: `rem_dest[i].pp_cnt`, `cnt`, and what has been posted. `posted` counts the receives
-- that are posted and not completed.
pub record Process : Type 0 where
  pub pp_cnt : List ℕ
  pub cnt : ℕ
  pub posted : ℕ
  pub recv_calls : ℕ
  pub send_calls : ℕ

-- `while (cnt--)`, up to the first receive that is refused; `true` is the 0 of the source.
unfoldable pub post_recv : Verbs → ℕ → Process → Bool × Process
post_recv v zero s = (true, s)
post_recv v (suc k) s =
    let rest = post_recv v k (record s { posted = s.posted + 1; recv_calls = s.recv_calls + 1 }) in
    if v.takes_recv s.recv_calls then rest else (false, record s { recv_calls = s.recv_calls + 1 })

module _ (e : Settings) (v : Verbs) where
  -- The request, with `++pp_cnt`.
  unfoldable pub send_of : ℕ → Process → Send
  send_of index s =
      let count = get_or s.pp_cnt index 0 in
      record {
        qpi = (index + count) % e.num_clients;
        index = index;
        signaled = leb e.num_tests (count + 1);
      }

  -- The count goes up whether or not the library takes the request, and no caller reads the
  -- result. What is sent, if anything.
  unfoldable pub post_send : ℕ → Process → Option Send × Process
  unfolding send_of
  post_send index s =
      let send = send_of index s in
      (
        if v.takes_send s.send_calls send then some send else none,
        record s {
          pp_cnt = set s.pp_cnt index (get_or s.pp_cnt index 0 + 1);
          send_calls = s.send_calls + 1;
        },
      )

  -- The `for` of `find_qp`, which falls back to 0.
  unfoldable pub find_from : ℕ → ℕ → ℕ → ℕ
  find_from qpn i zero = 0
  find_from qpn i (suc left) =
      let rest = find_from qpn (suc i) left in if e.qp_num i == qpn then i else rest

  unfoldable pub find_qp : ℕ → ℕ
  unfolding find_from
  find_qp qpn = if e.num_clients == 1 then 0 else find_from qpn 0 e.num_clients

  -- One completion that succeeded: the refill, whose result is not read, the answer, and `cnt`.
  unfoldable pub handle_recv : ℕ → Process → Option Send × Process
  unfolding post_recv post_send find_qp
  handle_recv qp_num s =
      let t = (post_recv v 1 (record s { posted = s.posted - 1 })).1 in
      let qpi = find_qp qp_num in
      let (sent, u) = post_send qpi t in
      if ltb (get_or t.pp_cnt qpi 0) e.num_tests
      then (sent, record u { cnt = u.cnt + 1 })
      else (none, record t { cnt = t.cnt + 1 })

  -- The `for` of the server's first sends.
  unfoldable pub first_sends : ℕ → ℕ → Process → List (Option Send) × Process
  unfolding post_send
  first_sends i zero s = ([], s)
  first_sends i (suc left) s =
      let (sent, t) = post_send i s in
      let (rest, u) = first_sends (suc i) left t in (sent ∷ rest, u)

  -- `main` from the receives to its loop; none where it returns 1.
  unfoldable pub start : (servername : Bool) → Option (List (Option Send) × Process)
  unfolding post_recv first_sends
  start servername =
      let s : Process = record {
        pp_cnt = replicate e.num_clients 0;
        cnt = 0;
        posted = 0;
        recv_calls = 0;
        send_calls = 0;
      } in
      let (ok, t) = post_recv v e.num_clients s in
      if ok then if servername then some ([], t) else some (first_sends 0 e.num_clients t) else none
