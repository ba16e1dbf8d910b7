-- ===== src/Xsrq/Clients.antt =====
-- The server of rdma-core/xsrq_pingpong.c and its clients, with the messages between them, as a step
-- relation. The library takes every request, and a message that was sent arrives at some time.
pub mod Links
pub mod Invariant
pub mod Steps
pub mod Progress
use ibv_bench.Base.{
  ℕ, zero, suc, ◌+◌, ◌-◌, ◌%◌, ◌≤◌, ◌<◌, ◌≡◌, ◌≢◌, refl, Bool, true, false, Option, none, some,
  List, [], ◌∷◌, ◌++◌, arith, ltb, leb, ◌==◌, if◌then◌else◌, get_or, set, get_elem?, replicate,
}
use ibv_bench.Xsrq.Messages.{
  Settings, Send, Verbs, Process, send_of, post_send, find_from, find_qp, handle_recv,
}

-- The server's options; its clients have the same number of tests.
pub record Setting : Type 0 where
  pub server : Settings
  pub verbs : Verbs

-- A library that takes every request, queue pairs with different numbers, and something to do.
pub record IsUsable (e : Setting) : Type 0 where
  pub recvs : (n : ℕ) → e.verbs.takes_recv n ≡ true
  pub sends : (n : ℕ) (s : Send) → e.verbs.takes_send n s ≡ true
  pub distinct : (i j : ℕ) → i ≢ j → e.server.qp_num i ≢ e.server.qp_num j
  pub some_client : 1 ≤ e.server.num_clients
  pub some_test : 1 ≤ e.server.num_tests

-- A client, and the messages under way to it and from it.
pub record Link : Type 0 where
  pub client : Process
  pub to_client : ℕ
  pub to_server : ℕ

-- The server, how far its `for` of first sends has come, and the clients by their index.
pub record Net : Type 0 where
  pub server : Process
  pub started : ℕ
  pub links : List Link

-- A process behind the receives that it posts first.
abbrev pub ready_process : ℕ → Process
ready_process clients = record {
  pp_cnt = replicate clients 0;
  cnt = 0;
  posted = clients;
  recv_calls = clients;
  send_calls = 0;
}

abbrev pub idle_link : Link
idle_link = record { client = ready_process 1; to_client = 0; to_server = 0 }

unfoldable pub initial : Setting → Net
initial e = record {
  server = ready_process e.server.num_clients;
  started = 0;
  links = replicate e.server.num_clients idle_link;
}

abbrev pub client_settings : Setting → Settings
client_settings e = record { num_clients = 1; num_tests = e.server.num_tests; qp_num = λ _. 0 }

abbrev pub count_sent : Option Send → ℕ
count_sent none = 0
count_sent (some _) = 1

-- One more message under way to a client.
abbrev more : Option Link → List Link → ℕ → List Link
more none links i = links
more (some l) links i = set links i (record l { to_client = l.to_client + 1 })

-- What the server sends goes to the client whose `srqn` it names.
pub deliver : Option Send → List Link → List Link
deliver none links = links
deliver (some s) links = more (get_elem? links s.index) links s.index

module _ (e : Setting) where
  pub client_took : Link → Link
  client_took l =
      let (sent, c) = handle_recv (client_settings e) e.verbs 0 l.client in
      record { client = c; to_client = l.to_client - 1; to_server = l.to_server + count_sent sent }

  -- The server's next first send, while the clients may already answer others.
  pub server_started : Net → Net
  server_started y =
      let (sent, s) = post_send e.server e.verbs y.started y.server in
      record { server = s; started = y.started + 1; links = deliver sent y.links }

  pub server_took : ℕ → Link → Net → Net
  server_took i l y =
      let (sent, s) = handle_recv e.server e.verbs (e.server.qp_num i) y.server in
      record y {
        server = s;
        links = deliver sent (set y.links i (record l { to_server = l.to_server - 1 }));
      }

  pub data Step : Net → Net → Type 0 where
    starts : (y : Net) → y.started < e.server.num_clients → Step y (server_started y)
    client_receives :
        (y : Net) (i : ℕ) (l : Link)
        → get_elem? y.links i ≡ some l
        → 1 ≤ l.to_client
        → Step y (record y { links = set y.links i (client_took l) })
    server_receives :
        (y : Net) (i : ℕ) (l : Link)
        → get_elem? y.links i ≡ some l
        → 1 ≤ l.to_server
        → y.started ≡ e.server.num_clients
        → Step y (server_took i l y)

  -- The states after a number of steps.
  pub data Reach : ℕ → Net → Type 0 where
    at_start : Reach 0 (initial e)
    after : {n : ℕ} {y z : Net} → Reach n y → Step y z → Reach (suc n) z
