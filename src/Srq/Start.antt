-- ===== src/Srq/Start.antt =====
-- rdma-core/srq_pingpong.c: the own addresses in `main`, and the exchange with what `main` does
-- around it.
pub mod Join
use ibv_bench.Base.{
  ℕ, suc, ◌-◌, Bool, true, false, Option, none, some, List, [], ◌∷◌, ◌++◌, length, replicate,
}
use ibv_bench.Wire.Gid.{Gid}
use ibv_bench.Wire.Address.{Dest}
use ibv_bench.Qp.{Modify}
use ibv_bench.Exchange.{Socket}
use ibv_bench.Rc.Connect.{ConnectAnswers}
use ibv_bench.Rc.Start.{PortInfo, no_gid, own_address}
use ibv_bench.Srq.Arguments.{max_qp}
use ibv_bench.Srq.Connect.{Route, connect_all}
use ibv_bench.Srq.Exchange.{
  Talk, returned, waits, ClientAnswers, ServerAnswers, client_exch_dest, server_exch_dest, ends,
}

-- An element that `memset` has cleared.
abbrev pub zero_dest : Dest
zero_dest = record { lid = 0; qpn = 0; psn = 0; gid = no_gid }

pub dest_then : Dest → Option (List Dest) → Option (List Dest)
dest_then d none = none
dest_then d (some ds) = some (d ∷ ds)

-- The loop over the queue pairs from index `i` on, whose numbers are given. `queried i` answers
-- `ibv_query_gid`, and `random i` is the result of `lrand48`.
pub own_from : PortInfo → ℕ → (ℕ → Option Gid) → (ℕ → ℕ) → ℕ → List ℕ → Option (List Dest)
unfolding dest_then
own_from info gidx queried random i [] = some []
own_from info gidx queried random i (q ∷ qs) =
    elim (own_address (some info) gidx (queried i) q (random i)) [
      | none ↦ none
      | some d ↦ dest_then d (own_from info gidx queried random (suc i) qs)
    ]

-- The rest of the array stays cleared.
pub filled_up : Option (List Dest) → Option (List Dest)
filled_up none = none
filled_up (some ds) = some (ds ++ replicate (max_qp - length ds) zero_dest)

-- `my_dest`; none where `main` returns 1.
unfoldable pub own_dests :
    Option PortInfo → ℕ → (ℕ → Option Gid) → (ℕ → ℕ) → List ℕ → Option (List Dest)
unfolding own_from filled_up
own_dests none gidx queried random qp_nums = none
own_dests (some info) gidx queried random qp_nums =
    filled_up (own_from info gidx queried random 0 qp_nums)

-- What the network and the library answer to a client, and to a server.
pub record Peers : Type 0 where
  pub client : ClientAnswers
  pub server : ServerAnswers
  pub connect : ℕ → ConnectAnswers

pub connect_client :
    Peers → Route → ℕ → List Dest → Talk × List Socket → Talk × List Socket × List (List Modify)
connect_client d route num_qp my_dest (returned none, acts) = (returned none, acts, [])
connect_client d route num_qp my_dest (waits, acts) = (waits, acts, [])
connect_client d route num_qp my_dest (returned (some rem_dest), acts) =
    let (ok, calls) = connect_all route d.connect no_gid (ends num_qp my_dest rem_dest) in
    (elim ok [ true ↦ returned (some rem_dest) | false ↦ returned none ], acts, calls)

-- `rem_dest`, what is done with sockets, and the calls on each queue pair; NULL where `main` returns
-- 1.
pub join :
    (servername : Bool)
    → Peers
    → ℕ
    → Route
    → ℕ
    → Option (List Dest)
    → Talk × List Socket × List (List Modify)
unfolding connect_client
join servername d junk route num_qp none = (returned none, [], [])
join true d junk route num_qp (some my_dest) =
    connect_client d route num_qp my_dest (client_exch_dest d.client junk my_dest)
join false d junk route num_qp (some my_dest) = server_exch_dest d.server junk route num_qp my_dest
