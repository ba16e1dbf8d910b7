-- ===== src/Xsrq/Tests.antt =====
-- The server and two clients, and the address line, at fixed arguments.
mod Setup
mod Loop
use ibv_bench.Base.{
  ℕ, ◌+◌, ◌*◌, ◌≤◌, ◌≡◌, ◌≢◌, refl, true, false, ◌&&◌, some, none, List, [], ◌∷◌, ◌++◌, map, length,
  get_elem?, arith, if◌then◌else◌, take, drop, take-append-drop, append-nil, ◌∙◌, ◌⊎◌, ap, sym, ◌↔◌,
}
use ibv_bench.Base.Text.{Text}
use ibv_bench.Rc.Start.{no_gid, no_gid-IsGid, choose_device}
use ibv_bench.Wire.Gid.{mtu_1024}
use ibv_bench.Qp.{modify_all, initial_qp, xrc_send, xrc_recv}
use ibv_bench.Base.Text.{codes}
use ibv_bench.Wire.Read.{bytes, got, read_msg, joined}
use ibv_bench.Xsrq.Arguments.{Config, opt_clients, opt_ib_port, init, main_arguments}
use ibv_bench.Xsrq.Address.{Dest, Fields, msg_size, read_remote, local_message}
use ibv_bench.Xsrq.Address.RoundTrip.{IsAddress, read_remote-local_message}
use ibv_bench.Xsrq.Connect.{Port, ConnectAnswers}
use ibv_bench.Xsrq.Exchange.{
  Own, Answers, Works, Joins, local_dest, client_index, server_index, client-writes, server-writes,
  connect-Joins,
}
use ibv_bench.Xsrq.Setup.{
  Options, CloseAnswers, Context, pp_init_ctx, pp_close_ctx, Answers as SetupAnswers,
}
use ibv_bench.Xsrq.Setup.Balance.{replay, nothing, empty, set_up-Closes}
use ibv_bench.Xsrq.Termination.{
  termination_bytes, server_termination, client_termination, done, Heard, server_termination-writes,
  termination-done,
}
use ibv_bench.Xsrq.Clients.{
  Setting, IsUsable, Link, Net, initial, starts, server_started, Reach, at_start, after,
}
use ibv_bench.Xsrq.Clients.Progress.{total_to_server, Reach-posted, Reach-ends}

abbrev dest : Dest
dest = record { lid = 7; recv_qpn = 0x48; send_qpn = 0x49; psn = 0xabcdef; srqn = 3; gid = no_gid }

dest-IsAddress : IsAddress dest
dest-IsAddress = record {
  lid_16_bits = omega arith;
  recv_qpn_24_bits = omega arith;
  send_qpn_24_bits = omega arith;
  psn_24_bits = omega arith;
  srqn_24_bits = omega arith;
  gid_bytes = no_gid-IsGid;
}

abbrev memory : Fields
memory = record { lid = 0; recv_qpn = 0; send_qpn = 0; psn = 0; srqn = 0; gid = [] }

-- The message in two parts.
abbrev parts : List Text
parts = take 10 (local_message dest) ∷ drop 10 (local_message dest) ∷ []

parts-joined : joined parts ≡ local_message dest
unfolding joined
parts-joined =
    ap (λ s. take 10 (local_message dest) ++ s) (append-nil (drop 10 (local_message dest)))
    ∙ take-append-drop 10 (local_message dest)

read_remote-local_message_example :
    (length (local_message dest) ≡ msg_size)
    × (read_msg msg_size [] (map bytes parts) ≡ got (local_message dest))
    × (read_remote 5 memory (local_message dest) ≡ dest)
read_remote-local_message_example =
    read_remote-local_message dest parts 5 memory dest-IsAddress parts-joined

abbrev port : Port
port = record { ib_port = 1; mtu = mtu_1024; sl = 0; gidx = 0 }

abbrev all_ok : ConnectAnswers
all_ok = record { recv_rtr_ok = true; recv_rts_ok = true; send_rtr_ok = true; send_rts_ok = true }

abbrev setting : Setting
setting = record {
  server = record { num_clients = 2; num_tests = 5; qp_num = λ i. i + 0x48 };
  verbs = record { takes_recv = λ _. true; takes_send = λ _ _. true };
}

setting-IsUsable : IsUsable setting
setting-IsUsable = record {
  recvs = λ n. refl;
  sends = λ n s. refl;
  distinct = λ i j other same. other (omega (arith, same));
  some_client = omega arith;
  some_test = omega arith;
}

-- The first of the first sends is posted.
abbrev begun_net : Net
begun_net = server_started setting (initial setting)

begun : Reach setting 1 begun_net
unfolding initial
begun = after at_start (starts (initial setting) (omega arith))

Reach-posted_example :
    (begun_net.server.posted ≡ 2)
    × (total_to_server begun_net.links ≤ begun_net.server.posted)
    × ((i : ℕ) (l : Link)
        → get_elem? begun_net.links i ≡ some l
        → (l.client.posted ≡ 1) × (l.to_client ≤ l.client.posted))
Reach-posted_example = Reach-posted setting setting-IsUsable begun

Reach-ends_example : 1 ≤ 2 + 2 * (2 * 5)
Reach-ends_example = Reach-ends setting setting-IsUsable begun

abbrev own : Own
own = record {
  gidx = 0xffffffff;
  queried = none;
  lid = 7;
  recv_qpn = 0x48;
  send_qpn = 0x49;
  random = 0xabcdef;
  srq_num = some 3;
}

abbrev answers : Answers
answers = record {
  own = own;
  write_ok = true;
  chunks = map bytes parts;
  junk = 5;
  memory = memory;
  connect = all_ok;
}

works : Works answers dest
unfolding local_dest
works = record {
  own = refl;
  in_range = dest-IsAddress;
  write_ok = refl;
  recv_rtr_ok = refl;
  recv_rts_ok = refl;
  send_rtr_ok = refl;
  send_rts_ok = refl;
}

-- The other side, on another port.
abbrev dest2 : Dest
dest2 = record { lid = 9; recv_qpn = 0x50; send_qpn = 0x51; psn = 0x123456; srqn = 4; gid = no_gid }

dest2-IsAddress : IsAddress dest2
dest2-IsAddress = record {
  lid_16_bits = omega arith;
  recv_qpn_24_bits = omega arith;
  send_qpn_24_bits = omega arith;
  psn_24_bits = omega arith;
  srqn_24_bits = omega arith;
  gid_bytes = no_gid-IsGid;
}

abbrev parts2 : List Text
parts2 = take 7 (local_message dest2) ∷ drop 7 (local_message dest2) ∷ []

parts2-joined : joined parts2 ≡ local_message dest2
unfolding joined
parts2-joined =
    ap (λ s. take 7 (local_message dest2) ++ s) (append-nil (drop 7 (local_message dest2)))
    ∙ take-append-drop 7 (local_message dest2)

-- The client reads what the server writes, and the server what the client writes.
abbrev client_answers : Answers
client_answers = record answers { chunks = map bytes parts2 }

abbrev server_answers : Answers
server_answers = record answers {
  own = record own {
    lid = 9;
    recv_qpn = 0x50;
    send_qpn = 0x51;
    random = 0x1123456;
    srq_num = some 4;
  };
}

client_works : Works client_answers dest
client_works = record {
  own = works.own;
  in_range = dest-IsAddress;
  write_ok = refl;
  recv_rtr_ok = refl;
  recv_rts_ok = refl;
  send_rtr_ok = refl;
  send_rts_ok = refl;
}

server_works : Works server_answers dest2
unfolding local_dest
server_works = record {
  own = refl;
  in_range = dest2-IsAddress;
  write_ok = refl;
  recv_rtr_ok = refl;
  recv_rts_ok = refl;
  send_rtr_ok = refl;
  send_rts_ok = refl;
}

abbrev port2 : Port
port2 = record port { ib_port = 2 }

connect-Joins_example :
    Joins port (client_index client_answers port).0 dest dest2
    × Joins port2 (server_index server_answers port2).0 dest2 dest
connect-Joins_example =
    connect-Joins client_answers server_answers port port2 dest dest2 parts parts2 client_works
      server_works refl refl
      (client-writes client_answers port dest client_works ∙ ap (λ m. m ∷ []) (sym parts-joined))
      (server-writes server_answers port2 dest2 dest parts server_works dest-IsAddress refl
          parts-joined
        ∙ ap (λ m. m ∷ []) (sym parts2-joined))

abbrev ack : List Text
ack = take 1 termination_bytes ∷ drop 1 termination_bytes ∷ []

ack-joined : joined ack ≡ termination_bytes
unfolding joined
ack-joined =
    ap (λ s. take 1 termination_bytes ++ s) (append-nil (drop 1 termination_bytes))
    ∙ take-append-drop 1 termination_bytes

abbrev heard : List (List Text)
heard = ack ∷ ack ∷ []

written_first : (client_termination true []).1 ≡ termination_bytes ∷ []
unfolding client_termination
written_first = refl

client_wrote : (client_termination true []).1 ≡ joined ack ∷ []
client_wrote = written_first ∙ ap (λ m. m ∷ []) (sym ack-joined)

server_wrote :
    get_elem? (server_termination (map (map bytes) heard) (true ∷ true ∷ [])).1 1
    ≡ some (joined ack)
server_wrote =
    server_termination-writes heard (true ∷ true ∷ []) 1 (ack-joined, (ack-joined, tt))
      (refl, (refl, tt)) (omega arith)
    ∙ ap some (sym ack-joined)

-- The server has not heard the second client yet.
termination-done_example :
    ((server_termination (map (map bytes) heard) (true ∷ true ∷ [])).0 ≡ done)
    × ((client_termination true (map bytes ack)).0 ≡ done)
    × ((client_termination true []).1 ≡ termination_bytes ∷ [])
    × (((server_termination (map bytes ack ∷ [] ∷ []) (true ∷ true ∷ [])).1 ≡ [])
        ⊎ Heard (map bytes ack ∷ [] ∷ []))
termination-done_example =
    termination-done heard (true ∷ true ∷ []) ack 1 [] (map bytes ack ∷ [] ∷ []) (true ∷ true ∷ [])
      (client_wrote, (client_wrote, tt)) (refl, (refl, tt)) server_wrote

abbrev one_client : Config
one_client = record init { num_clients = 1 }

one_client_taken :
    main_arguments (opt_clients 3 ∷ []) (codes "node1" ∷ [])
    ≡ some (one_client, some (codes "node1"))
unfolding main_arguments
one_client_taken = refl

negative_refused : main_arguments (opt_ib_port 0xffffffff ∷ []) [] ≡ none
unfolding main_arguments
negative_refused = refl
