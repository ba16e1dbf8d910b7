-- ===== src/Exchange/Join.antt =====
-- The part of `main` around the exchange of addresses, the same in rdma-core/rc_pingpong.c,
-- uc_pingpong.c and ud_pingpong.c: the client connects its queue pair itself, the server inside of
-- `pp_server_exch_dest`.
use ibv_bench.Base.{
  ℕ, ◌≡◌, Bool, true, false, Option, none, some, List, [], ◌∷◌, arith, if◌then◌else◌, Option-cases,
  inl, inr,
}
use ibv_bench.Wire.Gid.{Gid}
use ibv_bench.Wire.Address.{Dest, print_address}
use ibv_bench.Exchange.{
  Socket, written, ClientAnswers, ServerAnswers, Route, Transport, client_exch_dest,
  server_exch_dest,
}
use ibv_bench.Exchange.Agree.{
  ClientWorks, ServerWorks, client_exch_dest-writes, server_exch_dest-writes,
}

module _ (t : Transport) where
  -- What the network and the library answer to a client, and to a server.
  pub record Peers : Type 0 where
    pub client : ClientAnswers
    pub server : ServerAnswers t.ConnectAnswers
    pub connect : t.ConnectAnswers

  connect_client :
      Peers → Route → Dest → Option Dest × List Socket → Option Dest × List Socket × List t.Call
  connect_client d route my_dest (none, acts) = (none, acts, [])
  connect_client d route my_dest (some rem_dest, acts) =
      let (ok, calls) = t.connect d.connect route my_dest.psn rem_dest in
      (if ok then some rem_dest else none, acts, calls)

  -- `rem_dest`, what is done with sockets, and the calls on the queue pair; none where `main` returns
  -- 1.
  pub join :
      (servername : Bool)
      → Peers
      → ℕ
      → Route
      → Option Dest
      → Option Dest × List Socket × List t.Call
  unfolding connect_client
  join servername d junk route none = (none, [], [])
  join true d junk route (some my_dest) =
      connect_client d route my_dest (client_exch_dest d.client junk my_dest)
  join false d junk route (some my_dest) = server_exch_dest t d.server junk route my_dest

  -- What a side that works writes is its own address.
  pub join-writes_client :
      (d : Peers) (n junk : ℕ) (route : Route) (client : Dest)
      → ClientWorks d.client n
      → written (join true d junk route (some client)).1 ≡ print_address client ∷ []
  unfolding join connect_client
  join-writes_client d n junk route client w =
      let says = client_exch_dest-writes d.client n junk client w in
      elim (Option-cases (client_exch_dest d.client junk client).0) [
        | inl stop ↦ ground (arith, stop, says)
        | inr (rem, on) ↦ ground (arith, on, says)
      ]

  pub join-writes_server :
      (d : Peers) (n junk : ℕ) (route : Route) (server : Dest)
      → ServerWorks t d.server n
      → written (join false d junk route (some server)).1 ≡ print_address server ∷ []
  unfolding join
  join-writes_server d n junk route server w =
      server_exch_dest-writes t d.server n junk route server w
