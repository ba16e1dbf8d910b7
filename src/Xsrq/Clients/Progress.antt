-- ===== src/Xsrq/Clients/Progress.antt =====
-- The server and its clients of rdma-core/xsrq_pingpong.c come to an end, and every message finds a
-- receive.
use ibv_bench.Base.{ℕ, suc, ◌+◌, ◌*◌, ◌≤◌, ◌≡◌, refl, some, List, [], ◌∷◌, arith, get_elem?, length}
use ibv_bench.Xsrq.Clients.{Setting, IsUsable, Link, Net, Reach}
use ibv_bench.Xsrq.Clients.Links.{total_got, total_counted}
use ibv_bench.Xsrq.Clients.Steps.{Reach-Inv}

total_counted-le :
    (tests : ℕ) (ls : List Link)
    → ((i : ℕ) (l : Link) → get_elem? ls i ≡ some l → l.client.cnt ≤ tests)
    → (total_counted ls ≤ length ls * tests) × (total_got ls ≤ length ls * tests)
unfolding total_got total_counted
total_counted-le tests [] h = (omega arith, omega arith)
total_counted-le tests (x ∷ ls) h =
    let (counted, all_got) = total_counted-le tests ls (λ i l at. h (suc i) l at) in
    (ground (arith, h 0 x refl, counted), ground (arith, h 0 x refl, all_got))

-- The messages under way to the server.
pub total_to_server : List Link → ℕ
total_to_server [] = 0
total_to_server (l ∷ ls) = l.to_server + total_to_server ls

total_to_server-le :
    (ls : List Link)
    → ((i : ℕ) (l : Link) → get_elem? ls i ≡ some l → l.to_server ≤ 1)
    → total_to_server ls ≤ length ls
unfolding total_to_server
total_to_server-le [] h = omega arith
total_to_server-le (x ∷ ls) h =
    omega (arith, h 0 x refl, total_to_server-le ls (λ i l at. h (suc i) l at))

-- The server and a client have counted all their messages, and none is under way.
pub record IsComplete (e : Setting) (y : Net) : Type 0 where
  pub server_all : y.server.cnt ≡ e.server.num_clients * e.server.num_tests
  pub each_client :
      (i : ℕ) (l : Link)
      → get_elem? y.links i ≡ some l
      → (l.client.cnt ≡ e.server.num_tests) × (l.to_client + l.to_server ≡ 0)

module _ (e : Setting) (good : IsUsable e) where
  -- In every state that a server and its clients reach, whatever the order in which messages arrive:
  -- the server has as many receives posted as it has clients, and no more messages are under way to
  -- it; every client has one receive posted, and at most one message under way to it.
  pub Reach-posted :
      {n : ℕ} {y : Net}
      → Reach e n y
      → (y.server.posted ≡ e.server.num_clients)
        × (total_to_server y.links ≤ y.server.posted)
        × ((i : ℕ) (l : Link)
            → get_elem? y.links i ≡ some l
            → (l.client.posted ≡ 1) × (l.to_client ≤ l.client.posted))
  Reach-posted {y} r =
      let inv = Reach-Inv e good r in
      (
        inv.posted,
        omega (
          arith,
          inv.posted,
          inv.links_length,
          total_to_server-le y.links (λ i l at. omega (arith, (inv.each i l at).few)),
        ),
        λ i l at. (
          (inv.each i l at).one_posted,
          omega (arith, (inv.each i l at).one_posted, (inv.each i l at).few),
        ),
      )

  -- A run of a server and its clients has at most one step for each client and two for each test of
  -- each client.
  pub Reach-ends :
      {n : ℕ} {y : Net}
      → Reach e n y
      → n ≤ e.server.num_clients + 2 * (e.server.num_clients * e.server.num_tests)
  Reach-ends {y} r =
      let inv = Reach-Inv e good r in
      let (counted, all_got) =
        total_counted-le e.server.num_tests y.links
          (λ i l at. omega (arith, (inv.each i l at).counted, (inv.each i l at).bound)) in
      ground (
        arith, inv.steps_taken, inv.started_bound, inv.received, inv.links_length, counted, all_got,
      )
