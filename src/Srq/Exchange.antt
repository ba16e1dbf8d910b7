-- ===== src/Srq/Exchange.antt =====
-- rdma-core/srq_pingpong.c: `pp_client_exch_dest` and `pp_server_exch_dest`, which exchange a whole
-- array of addresses, and what `main` does around them. The answers of the network are arguments;
-- what is done with sockets, and what is written, is recorded.
pub mod Closes
pub mod Agree
use ibv_bench.Base.{
  ℕ, zero, suc, ◌-◌, Bool, true, false, not, ◌&&◌, Option, none, some, List, [], ◌∷◌, ◌++◌, ◌==◌,
  if◌then◌else◌, length, replicate,
}
use ibv_bench.Base.Text.{Text}
use ibv_bench.Wire.Gid.{Gid, gid_to_wire_gid}
use ibv_bench.Wire.Nul.{c_string}
use ibv_bench.Wire.Read.{Chunk, read_msg, got, failed_read, still_reading}
use ibv_bench.Wire.Address.{
  Dest, Fields, print_address, scan_address, read_address, sizeof_msg, sizeof_done,
}
use ibv_bench.Exchange.{Socket, opened, closed, wrote, wrote_done, Candidate, try_candidates}
use ibv_bench.Qp.{Modify}
use ibv_bench.Rc.Connect.{ConnectAnswers}
use ibv_bench.Rc.Start.{PortInfo, no_gid, own_address}
use ibv_bench.Srq.Connect.{Route, Ends, connect_all}

-- Where a function stands: it has returned, NULL or an array, or it waits for more to read.
pub data Talk : Type 0 where
  returned : Option (List Dest) → Talk
  waits : Talk

-- `msg` with its NUL.
pub message : Dest → Text
message d = print_address d ++ (0 ∷ [])

-- The loop over `write`, up to the first that fails, which is the one of index `i` or behind it.
pub send_dests : (ℕ → Bool) → ℕ → List Dest → Bool × List Socket
unfolding message
send_dests write_ok i [] = (true, [])
send_dests write_ok i (d ∷ ds) =
    let rest = send_dests write_ok (suc i) ds in
    if write_ok i then (rest.0, wrote (message d) ∷ rest.1) else (false, wrote (message d) ∷ [])

-- The text in `gid` behind that loop.
pub last_gid : Text → List Dest → Text
last_gid gid [] = gid
last_gid gid (d ∷ ds) = last_gid (gid_to_wire_gid d.gid) ds

-- `rem_dest` behind the loop over `read`, or where it stops.
pub data Arrived : Type 0 where
  all_read read_error : List Dest → Arrived
  reading : Arrived

pub arrived_first : Dest → Arrived → Arrived
arrived_first d (all_read ds) = all_read (d ∷ ds)
arrived_first d (read_error ds) = read_error (d ∷ ds)
arrived_first d reading = reading

-- What `sscanf` assigns to: the structure as `malloc` has left it, and `gid`.
pub fields_of : Dest → Text → Fields
fields_of m gid = record { lid = m.lid; qpn = m.qpn; psn = m.psn; gid = gid }

-- The loop over the array from index `i` on. `reads i` answers the calls of `read` for the message
-- of that index; the list is what the memory holds.
pub read_dests : (ℕ → List Chunk) → ℕ → ℕ → Text → List Dest → Arrived
unfolding fields_of arrived_first
read_dests reads junk i gid [] = all_read []
read_dests reads junk i gid (m ∷ ms) = elim (read_msg sizeof_msg [] (reads i)) [
  | failed_read ↦ read_error (m ∷ ms)
  | still_reading s ↦ reading
  | got msg ↦
      let old = fields_of m gid in
      let gid' = (scan_address old (c_string msg)).gid in
      arrived_first (read_address junk old (c_string msg)) (read_dests reads junk (suc i) gid' ms)
]

pub record ClientAnswers : Type 0 where
  pub asprintf_ok : Bool
  pub resolved : Bool
  pub candidates : List Candidate
  pub write_ok : ℕ → Bool
  pub malloc_ok : Bool
  pub memory : List Dest
  pub gid : Text
  pub reads : ℕ → List Chunk

-- The label `out` returns `rem_dest`, which is set here, whether it is reached by an error, also
-- of the last `write`, or not.
pub client_received : Arrived → Talk × List Socket
client_received (all_read ds) = (returned (some ds), wrote_done ∷ [])
client_received (read_error ds) = (returned (some ds), [])
client_received reading = (waits, [])

-- From the first `write` to `out`.
pub client_talk : ClientAnswers → ℕ → List Dest → Talk × List Socket
unfolding send_dests last_gid read_dests client_received
client_talk d junk my_dest =
    let (sent, acts) = send_dests d.write_ok 0 my_dest in
    let (r, rest) = client_received (read_dests d.reads junk 0 (last_gid d.gid my_dest) d.memory) in
    if not sent
    then (returned none, acts)
    else if not d.malloc_ok
    then (returned none, acts)
    else (r, acts ++ rest)

-- `close` at `out`.
pub close_at_out : ℕ → Talk → List Socket
close_at_out n (returned r) = closed n ∷ []
close_at_out n waits = []

pub client_connected : ClientAnswers → ℕ → List Dest → Option ℕ × List Socket → Talk × List Socket
unfolding client_talk close_at_out
client_connected d junk my_dest (none, acts) = (returned none, acts)
client_connected d junk my_dest (some n, acts) =
    let (r, talk) = client_talk d junk my_dest in (r, acts ++ (talk ++ close_at_out n r))

unfoldable pub client_exch_dest : ClientAnswers → ℕ → List Dest → Talk × List Socket
unfolding client_connected try_candidates
client_exch_dest d junk my_dest =
    if d.asprintf_ok && d.resolved
    then client_connected d junk my_dest (try_candidates 0 d.candidates)
    else (returned none, [])

pub record ServerAnswers : Type 0 where
  pub asprintf_ok : Bool
  pub resolved : Bool
  pub candidates : List Candidate
  pub accept_ok : Bool
  pub malloc_ok : Bool
  pub memory : List Dest
  pub gid : Text
  pub reads : ℕ → List Chunk
  pub connect : ℕ → ConnectAnswers
  pub write_ok : ℕ → Bool
  pub done_count : ℕ

-- `my_dest[i]` and `dest[i]` of the first queue pairs.
unfoldable pub ends : ℕ → List Dest → List Dest → List Ends
ends zero os rs = []
ends (suc n) (o ∷ os) (r ∷ rs) = record { own = o; rem = r } ∷ ends n os rs
ends (suc n) _ _ = []

-- From `pp_connect_ctx` to `out`: what is returned, what is written, and the calls on each queue
-- pair.
pub server_reply :
    ServerAnswers → Route → ℕ → List Dest → List Dest → Talk × List Socket × List (List Modify)
unfolding ends send_dests
server_reply d route num_qp my_dest rem_dest =
    let (ok, calls) = connect_all route d.connect no_gid (ends num_qp my_dest rem_dest) in
    let (sent, acts) = send_dests d.write_ok 0 my_dest in
    if not ok
    then (returned none, [], calls)
    else if not (sent && d.done_count == sizeof_done)
    then (returned none, acts, calls)
    else (returned (some rem_dest), acts, calls)

-- An error of `read` returns `rem_dest`, which is set.
pub server_received :
    ServerAnswers → Route → ℕ → List Dest → Arrived → Talk × List Socket × List (List Modify)
unfolding server_reply
server_received d route num_qp my_dest (all_read ds) = server_reply d route num_qp my_dest ds
server_received d route num_qp my_dest (read_error ds) = (returned (some ds), [], [])
server_received d route num_qp my_dest reading = (waits, [], [])

pub server_talk :
    ServerAnswers → ℕ → Route → ℕ → List Dest → Talk × List Socket × List (List Modify)
unfolding server_received read_dests
server_talk d junk route num_qp my_dest =
    if d.malloc_ok
    then server_received d route num_qp my_dest (read_dests d.reads junk 0 d.gid d.memory)
    else (returned none, [], [])

-- The socket that listens is closed behind `accept`. The connection gets a number of its own.
pub server_bound :
    ServerAnswers
    → ℕ
    → Route
    → ℕ
    → List Dest
    → Option ℕ × List Socket
    → Talk × List Socket × List (List Modify)
unfolding server_talk close_at_out
server_bound d junk route num_qp my_dest (none, acts) = (returned none, acts, [])
server_bound d junk route num_qp my_dest (some n, acts) =
    let (r, talk, calls) = server_talk d junk route num_qp my_dest in
    if d.accept_ok
    then (r, acts ++ (opened (suc n) ∷ closed n ∷ (talk ++ close_at_out (suc n) r)), calls)
    else (returned none, acts ++ (closed n ∷ []), [])

unfoldable pub server_exch_dest :
    ServerAnswers → ℕ → Route → ℕ → List Dest → Talk × List Socket × List (List Modify)
unfolding server_bound try_candidates
server_exch_dest d junk route num_qp my_dest =
    if d.asprintf_ok && d.resolved
    then server_bound d junk route num_qp my_dest (try_candidates 0 d.candidates)
    else (returned none, [], [])
