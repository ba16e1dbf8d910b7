-- ===== src/Exchange.antt =====
-- The exchange of addresses over a TCP connection, which rdma-core/rc_pingpong.c, uc_pingpong.c and
-- ud_pingpong.c do in the same words: `pp_client_exch_dest` and `pp_server_exch_dest`. They differ
-- in `pp_connect_ctx`, which the server calls, and which stands here behind an interface. The answers
-- of the network are arguments; what is done with sockets, and what is written, is recorded.
pub mod Closes
pub mod Agree
pub mod Join
use ibv_bench.Base.{
  ℕ, zero, suc, ◌+◌, ◌≡◌, refl, Bool, true, false, ◌&&◌, not, Option, none, some, List, [], ◌∷◌,
  ◌++◌, arith, ◌==◌, if◌then◌else◌,
}
use ibv_bench.Base.Text.{Text}
use ibv_bench.Wire.Gid.{Gid, Mtu, gid_to_wire_gid}
use ibv_bench.Rc.Start.{PortInfo, IsReported}
use ibv_bench.Wire.Address.{
  Dest, Fields, IsAddress, print_address, read_address, sizeof_msg, sizeof_done,
}

-- The arguments of `pp_server_exch_dest` that go on to `pp_connect_ctx`. Datagrams have no `mtu`.
pub record Route : Type 0 where
  pub ib_port : ℕ
  pub mtu : Mtu
  pub sl : ℕ
  pub sgid_idx : ℕ

-- What differs between the programs: how `main` makes the own address, from what the library says of
-- the port, of a GID and of the queue pair, and `pp_connect_ctx`, from the library's answers, the route, the own packet number and the
-- other side's address, and what its calls make of a new queue pair.
pub record Transport : Type 1 where
  pub own_address : Option PortInfo → ℕ → Option Gid → ℕ → ℕ → Option Dest
  pub own-IsAddress :
      (info : PortInfo) (gidx : ℕ) (g : Gid) (qp_num random : ℕ) (d : Dest)
      → IsReported info g qp_num
      → own_address (some info) gidx (some g) qp_num random ≡ some d
      → IsAddress d
  pub ConnectAnswers : Type 0
  pub Call : Type 0
  pub Queue : Type 0
  pub connect : ConnectAnswers → Route → ℕ → Dest → Bool × List Call
  pub works : ConnectAnswers → Bool
  pub run : List Call → Option Queue
  pub ready : Route → ℕ → Dest → Queue
  pub connect-works :
      (a : ConnectAnswers) (route : Route) (my_psn : ℕ) (dest : Dest)
      → (connect a route my_psn dest).0 ≡ works a
  pub connect-ready :
      (a : ConnectAnswers) (route : Route) (my_psn : ℕ) (dest : Dest)
      → (connect a route my_psn dest).0 ≡ true
      → run (connect a route my_psn dest).1 ≡ some (ready route my_psn dest)

-- Sockets are numbered in the order in which they are made.
pub data Socket : Type 0 where
  opened closed : ℕ → Socket
  wrote : Text → Socket
  wrote_done : Socket

-- The texts that are written to the other side.
unfoldable pub written : List Socket → List Text
written [] = []
written (wrote t ∷ acts) = t ∷ written acts
written (opened n ∷ acts) = written acts
written (closed n ∷ acts) = written acts
written (wrote_done ∷ acts) = written acts

-- An entry of the list of `getaddrinfo`: whether `socket` succeeds, and whether `connect` or `bind`
-- does.
pub record Candidate : Type 0 where
  pub socket_ok : Bool
  pub use_ok : Bool

-- What is read: how many bytes, and the text in `msg` afterwards.
pub record Received : Type 0 where
  pub count : ℕ
  pub text : Text

pub record ClientAnswers : Type 0 where
  pub asprintf_ok : Bool
  pub resolved : Bool
  pub candidates : List Candidate
  pub write_ok : Bool
  pub reply : Received
  pub write_done_ok : Bool
  pub malloc_ok : Bool
  pub memory : Fields

-- The loop over the candidates: the socket that is left, the next number, and what was done.
unfoldable pub try_candidates : ℕ → List Candidate → Option ℕ × List Socket
try_candidates n [] = (none, [])
try_candidates n (t ∷ ts) =
    let rest = try_candidates (suc n) ts in
    if t.socket_ok
    then if t.use_ok then (some n, opened n ∷ []) else (rest.0, opened n ∷ closed n ∷ rest.1)
    else rest

-- The contents of the new structure and of `gid` before `sscanf`: what `malloc` gives, and the
-- text that `gid_to_wire_gid` wrote.
client_memory : ClientAnswers → Dest → Fields
client_memory d my_dest = record d.memory { gid = gid_to_wire_gid my_dest.gid }

-- From the `write` of the own address to the label `out`, over the open socket.
client_talk : ClientAnswers → ℕ → Dest → Option Dest × List Socket
unfolding client_memory
client_talk d junk my_dest =
    let msg = print_address my_dest in
    if not d.write_ok
    then (none, wrote msg ∷ [])
    else if not (d.reply.count == sizeof_msg)
    then (none, wrote msg ∷ [])
    else if not (d.write_done_ok && d.malloc_ok)
    then (none, wrote msg ∷ wrote_done ∷ [])
    else (
      some (read_address junk (client_memory d my_dest) d.reply.text),
      wrote msg ∷ wrote_done ∷ [],
    )

-- Behind the loop: no socket, or talk and close it.
client_connected : ClientAnswers → ℕ → Dest → Option ℕ × List Socket → Option Dest × List Socket
unfolding client_talk
client_connected d junk my_dest (none, acts) = (none, acts)
client_connected d junk my_dest (some n, acts) =
    let (r, talk) = client_talk d junk my_dest in (r, acts ++ (talk ++ (closed n ∷ [])))

pub client_exch_dest : ClientAnswers → ℕ → Dest → Option Dest × List Socket
unfolding client_connected try_candidates
client_exch_dest d junk my_dest =
    if d.asprintf_ok && d.resolved
    then client_connected d junk my_dest (try_candidates 0 d.candidates)
    else (none, [])

pub record ServerAnswers (A : Type 0) : Type 0 where
  pub asprintf_ok : Bool
  pub resolved : Bool
  pub candidates : List Candidate
  pub accept_ok : Bool
  pub request : Received
  pub malloc_ok : Bool
  pub memory : Fields
  pub connect : A
  pub write_ok : Bool
  pub done : Received

module _ (t : Transport) where
  -- Behind `accept`, up to `out`: the address, what is written, and the calls on the queue pair.
  pub server_talk :
      ServerAnswers t.ConnectAnswers → ℕ → Route → Dest → Option Dest × List Socket × List t.Call
  server_talk d junk route my_dest =
      let rem_dest = read_address junk d.memory d.request.text in
      let (ok, calls) = t.connect d.connect route my_dest.psn rem_dest in
      let msg = print_address my_dest in
      if not (d.request.count == sizeof_msg)
      then (none, [], [])
      else if not d.malloc_ok
      then (none, [], [])
      else if not ok
      then (none, [], calls)
      else if not d.write_ok
      then (none, wrote msg ∷ [], calls)
      else if not (d.done.count == sizeof_done)
      then (none, wrote msg ∷ [], calls)
      else (some rem_dest, wrote msg ∷ [], calls)

  -- The socket that listens is closed behind `accept`, the connection at `out`. The connection gets
  -- a number of its own.
  server_bound :
      ServerAnswers t.ConnectAnswers
      → ℕ
      → Route
      → Dest
      → Option ℕ × List Socket
      → Option Dest × List Socket × List t.Call
  unfolding server_talk
  server_bound d junk route my_dest (none, acts) = (none, acts, [])
  server_bound d junk route my_dest (some n, acts) =
      let (r, talk, calls) = server_talk d junk route my_dest in
      if d.accept_ok
      then (r, acts ++ (opened (suc n) ∷ closed n ∷ (talk ++ (closed (suc n) ∷ []))), calls)
      else (none, acts ++ (closed n ∷ []), [])

  pub server_exch_dest :
      ServerAnswers t.ConnectAnswers → ℕ → Route → Dest → Option Dest × List Socket × List t.Call
  unfolding server_bound try_candidates
  server_exch_dest d junk route my_dest =
      if d.asprintf_ok && d.resolved
      then server_bound d junk route my_dest (try_candidates 0 d.candidates)
      else (none, [], [])
