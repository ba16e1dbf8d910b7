-- ===== src/Rc/Pair/Linked.antt =====
-- Two automata of Rc/Peer.antt that exchange messages: what their counters keep between them.
use ibv_bench.Base.{ℕ, ◌+◌, ◌≤◌, ◌<◌, ◌≡◌, Bool, true, false, ◌⊎◌, arith}
use ibv_bench.Rc.Peer.{Peer, peer_post, peer_send, peer_recv}

abbrev pub bit : Bool → ℕ
bit true = 1
bit false = 0

-- Each completion is counted once.
pub peer_send-counts :
    (iters : ℕ) (p : Peer)
    → ((peer_send iters p).scnt ≡ p.scnt + 1) × ((peer_send iters p).rcnt ≡ p.rcnt)
unfolding peer_send peer_post
peer_send-counts iters p = ground arith

pub peer_recv-counts :
    (iters : ℕ) (p : Peer)
    → ((peer_recv iters p).rcnt ≡ p.rcnt + 1) × ((peer_recv iters p).scnt ≡ p.scnt)
unfolding peer_recv peer_post
peer_recv-counts iters p = ground arith

-- What the two automata keep between them.
pub record Linked (iters : ℕ) (a b : Peer) : Type 0 where
  pub a_sent : a.sent ≡ a.scnt + bit a.send_waits
  pub b_sent : b.sent ≡ b.scnt + bit b.send_waits
  pub a_turn : a.sent ≡ a.rcnt + bit a.recv_waits
  pub b_turn : b.sent + 1 ≡ b.rcnt + bit b.recv_waits
  pub a_got : a.rcnt ≤ b.sent
  pub b_got : b.rcnt ≤ a.sent
  pub a_few : a.sent ≤ iters
  pub b_few : b.sent ≤ iters
  pub a_busy : (a.recv_waits ≡ true) ⊎ ((a.send_waits ≡ true) ⊎ (iters ≤ a.scnt))
  pub b_busy : (b.recv_waits ≡ true) ⊎ ((b.send_waits ≡ true) ⊎ (iters ≤ b.scnt))

module _ {iters : ℕ} {a b : Peer} (l : Linked iters a b) where
  pub a_send-Linked : a.scnt < a.sent → Linked iters (peer_send iters a) b
  unfolding peer_send peer_post
  a_send-Linked h = ground arith

  pub a_recv-Linked : a.rcnt < b.sent → Linked iters (peer_recv iters a) b
  unfolding peer_recv peer_post
  a_recv-Linked h = ground arith

  pub b_send-Linked : b.scnt < b.sent → Linked iters a (peer_send iters b)
  unfolding peer_send peer_post
  b_send-Linked h = ground arith

  pub b_recv-Linked : b.rcnt < a.sent → Linked iters a (peer_recv iters b)
  unfolding peer_recv peer_post
  b_recv-Linked h = ground arith
