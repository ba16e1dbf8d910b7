-- ===== src/Rc/Tests/Exchange.antt =====
-- The exchange of two fixed addresses.
use ibv_bench.Base.{ℕ, ◌≡◌, true, false, some, [], ◌∷◌, arith}
use ibv_bench.Wire.Gid.{Gid, mtu_1024}
use ibv_bench.Wire.Address.{Dest, Fields, IsAddress, print_address}
use ibv_bench.Rc.Connect.{ConnectAnswers}
use ibv_bench.Rc.Exchange.{rc_transport}
use ibv_bench.Exchange.{ClientAnswers, ServerAnswers, Route, client_exch_dest, server_exch_dest}
use ibv_bench.Exchange.Closes.{open_after, exch_dest-closes}
use ibv_bench.Exchange.Join.{Peers}
use ibv_bench.Rc.Start.{PortInfo}

abbrev gid : ℕ → Gid
gid n = record {
  w0 = record { b0 = 0xfe; b1 = 0x80; b2 = 0; b3 = 0 };
  w1 = record { b0 = 0; b1 = 0; b2 = 0; b3 = 0 };
  w2 = record { b0 = 0; b1 = 2; b2 = 0xc9; b3 = 3 };
  w3 = record { b0 = 0; b1 = 0x4b; b2 = 0x12; b3 = n };
}

abbrev client_dest : Dest
client_dest = record { lid = 7; qpn = 0x48; psn = 0xabcdef; gid = gid 1 }

abbrev server_dest : Dest
server_dest = record { lid = 9; qpn = 0x50; psn = 0x123456; gid = gid 2 }

client-IsAddress : IsAddress client_dest
client-IsAddress = record {
  lid_16_bits = omega arith;
  qpn_24_bits = omega arith;
  psn_24_bits = omega arith;
  gid_bytes = ground arith;
}

server-IsAddress : IsAddress server_dest
server-IsAddress = record {
  lid_16_bits = omega arith;
  qpn_24_bits = omega arith;
  psn_24_bits = omega arith;
  gid_bytes = ground arith;
}

abbrev memory : Fields
memory = record { lid = 0; qpn = 0; psn = 0; gid = [] }

abbrev both_ok : ConnectAnswers
both_ok = record { rtr_ok = true; rts_ok = true }

abbrev client_answers : ClientAnswers
client_answers = record {
  asprintf_ok = true;
  resolved = true;
  candidates =
      record { socket_ok = true; use_ok = false } ∷ record { socket_ok = true; use_ok = true } ∷ [];
  write_ok = true;
  reply = record { count = 52; text = print_address server_dest };
  write_done_ok = true;
  malloc_ok = true;
  memory = memory;
}

abbrev server_answers : ServerAnswers ConnectAnswers
server_answers = record {
  asprintf_ok = true;
  resolved = true;
  candidates = record { socket_ok = true; use_ok = true } ∷ [];
  accept_ok = true;
  request = record { count = 52; text = print_address client_dest };
  malloc_ok = true;
  memory = memory;
  connect = both_ok;
  write_ok = true;
  done = record { count = 5; text = [] };
}

abbrev route : Route
route = record { ib_port = 1; mtu = mtu_1024; sl = 0; sgid_idx = 0 }

abbrev peers : Peers rc_transport
peers = record { client = client_answers; server = server_answers; connect = both_ok }

abbrev client_port : PortInfo
client_port = record { lid = 7; is_ethernet = false }

abbrev server_port : PortInfo
server_port = record { lid = 9; is_ethernet = true }

exch_dest-closes_example :
    (open_after (client_exch_dest client_answers 3 client_dest).1 [] ≡ some [])
    × (open_after (server_exch_dest rc_transport server_answers 3 route client_dest).1 [] ≡ some [])
exch_dest-closes_example =
    exch_dest-closes rc_transport client_answers server_answers 3 route client_dest
