-- ===== src/Xsrq/Exchange.antt =====
-- rdma-core/xsrq_pingpong.c: `send_local_dest` and `recv_remote_dest` in `pp_client_connect` and
-- `pp_server_connect`, with what is done with sockets. The answers of the network and the library are
-- arguments.
use ibv_bench.Base.{
  ℕ, ◌%◌, ◌^◌, ◌≡◌, refl, ap, ◌∙◌, Bool, true, ◌&&◌, Option, none, some, List, [], ◌∷◌, ◌++◌, map,
  arith, ltb, if◌then◌else◌,
}
use ibv_bench.Base.Text.{Text}
use ibv_bench.Wire.Gid.{Gid}
use ibv_bench.Rc.Start.{no_gid}
use ibv_bench.Exchange.{Socket, closed, wrote, Candidate, try_candidates}
use ibv_bench.Qp.{modify_all, initial_qp, xrc_send, xrc_recv}
use ibv_bench.Wire.Read.{Chunk, ReadMsg, bytes, got, failed_read, still_reading, read_msg, joined}
use ibv_bench.Xsrq.Address.{Dest, Fields, msg_size, local_message, print_local, read_remote}
use ibv_bench.Xsrq.Address.RoundTrip.{IsAddress, read_remote-local_message}
use ibv_bench.Xsrq.Connect.{
  Port, ConnectAnswers, Call, connect_qps, on_recv, on_send, way_of, ready_from, connect_qps-ready,
}

-- What `send_local_dest` asks for: the GID where `gidx` is not negative, `lrand48`, the number of
-- the shared receive queue, and whether the write succeeds. The rest stands in `ctx`.
pub record Own : Type 0 where
  pub gidx : ℕ
  pub queried : Option Gid
  pub lid : ℕ
  pub recv_qpn : ℕ
  pub send_qpn : ℕ
  pub random : ℕ
  pub srq_num : Option ℕ

local_gid : ℕ → Option Gid → Option Gid
local_gid gidx queried = if ltb gidx (2 ^ 31) then queried else some no_gid

with_numbers : Own → Option Gid → Option ℕ → Option Dest
with_numbers own (some g) (some srqn) = some (record {
  lid = own.lid;
  recv_qpn = own.recv_qpn;
  send_qpn = own.send_qpn;
  psn = own.random % 2 ^ 24;
  srqn = srqn;
  gid = g;
})
with_numbers own _ _ = none

-- What is written; none where the function returns -1 before.
unfoldable pub local_dest : Own → Option Dest
unfolding local_gid with_numbers
local_dest own = with_numbers own (local_gid own.gidx own.queried) own.srq_num

-- The answers for one index.
pub record Answers : Type 0 where
  pub own : Own
  pub write_ok : Bool
  pub chunks : List Chunk
  pub junk : ℕ
  pub memory : Fields
  pub connect : ConnectAnswers

-- Where one index stands: connected to an address by some calls, given up, or in the loop over
-- `read`.
pub data Outcome : Type 0 where
  connected : Dest → List Call → Outcome
  given_up reading : Outcome

-- Where the index stands, and the messages that have been written, each with its NUL.
abbrev pub Exchanged : Type 0
Exchanged = Outcome × List Text

finish : Answers → Port → Dest → Dest → Outcome
finish a p me rem =
    let (ok, calls) = connect_qps a.connect p me.psn rem in
    if ok then connected rem calls else given_up

-- `recv_remote_dest`, and what follows on the address.
received_from : Answers → (Dest → Exchanged) → ReadMsg → Exchanged
received_from a next (got msg) = next (read_remote a.junk a.memory msg)
received_from a next failed_read = (given_up, [])
received_from a next (still_reading s) = (reading, [])

received : Answers → (Dest → Exchanged) → Exchanged
unfolding received_from
received a next = received_from a next (read_msg msg_size [] a.chunks)

-- `send_local_dest`, and what follows on a write that succeeds.
sent_from : Answers → (Dest → Exchanged) → Option Dest → Exchanged
sent_from a next none = (given_up, [])
sent_from a next (some me) =
    let (o, ms) = next me in
    if a.write_ok then (o, local_message me ∷ ms) else (given_up, local_message me ∷ [])

sending : Answers → (Dest → Exchanged) → Exchanged
unfolding sent_from
sending a next = sent_from a next (local_dest a.own)

-- The client writes its address first, and then reads.
pub client_index : Answers → Port → Exchanged
unfolding finish received sending
client_index a p = sending a (λ me. received a (λ rem. (finish a p me rem, [])))

-- The server reads first.
pub server_index : Answers → Port → Exchanged
unfolding finish received sending
server_index a p = received a (λ rem. sending a (λ me. (finish a p me rem, [])))

-- The socket of the client: closed only where its own address could not be sent.
client_sockets : Answers → ℕ → List Socket
client_sockets a n = elim (local_dest a.own) [
  | none ↦ closed n ∷ []
  | some me ↦
      if a.write_ok then wrote (print_local me) ∷ [] else wrote (print_local me) ∷ closed n ∷ []
]

client_behind : Answers → Port → Option ℕ × List Socket → Outcome × List Socket
unfolding client_sockets client_index
client_behind a p (none, acts) = (given_up, acts)
client_behind a p (some n, acts) = ((client_index a p).0, acts ++ client_sockets a n)

pub client_connect :
    (asprintf_ok resolved : Bool) → List Candidate → Answers → Port → Outcome × List Socket
unfolding client_behind try_candidates
client_connect asprintf_ok resolved candidates a p =
    if asprintf_ok && resolved
    then client_behind a p (try_candidates 0 candidates)
    else (given_up, [])

-- One round of the server's `for`: whether `accept` succeeds, and the answers for the index.
pub record Arrival : Type 0 where
  pub accept_ok : Bool
  pub answers : Answers

-- The rounds from `i` on, up to the first that does not end in a connection.
pub serve : Port → List Arrival → List Outcome
unfolding server_index
serve p [] = []
serve p (r ∷ rs) =
    let rest = serve p rs in
    elim (if r.accept_ok then (server_index r.answers p).0 else given_up) [
      | connected rem calls ↦ connected rem calls ∷ rest
      | o ↦ o ∷ []
    ]

-- A side that writes `me`, and whose library and network work.
pub record Works (a : Answers) (me : Dest) : Type 0 where
  pub own : local_dest a.own ≡ some me
  pub in_range : IsAddress me
  pub write_ok : a.write_ok ≡ true
  pub recv_rtr_ok : a.connect.recv_rtr_ok ≡ true
  pub recv_rts_ok : a.connect.recv_rts_ok ≡ true
  pub send_rtr_ok : a.connect.send_rtr_ok ≡ true
  pub send_rts_ok : a.connect.send_rts_ok ≡ true

-- The queue pairs of one side, connected to those of the other.
pub record IsConnected (p : Port) (me rem : Dest) (calls : List Call) : Type 0 where
  pub receiving :
      modify_all (on_recv calls) (initial_qp xrc_recv)
      ≡ some (ready_from xrc_recv (way_of p) rem rem.send_qpn me.psn)
  pub sends :
      modify_all (on_send calls) (initial_qp xrc_send)
      ≡ some (ready_from xrc_send (way_of p) rem rem.recv_qpn me.psn)

finish-connected :
    (a : Answers) (p : Port) (me rem : Dest)
    → Works a me
    → (calls : List Call) × (finish a p me rem ≡ connected rem calls) × IsConnected p me rem calls
unfolding finish
finish-connected a p me rem w =
    let (returns, _, _, recv_ready, send_ready) = connect_qps-ready a.connect p me.psn rem in
    (
      (connect_qps a.connect p me.psn rem).1,
      ground (arith, returns),
      record {
        receiving = ground (arith, returns, recv_ready);
        sends = ground (arith, returns, send_ready);
      },
    )

sending-works :
    (a : Answers) (me : Dest) (next : Dest → Exchanged)
    → Works a me
    → sending a next ≡ ((next me).0, local_message me ∷ (next me).1)
unfolding sending
sending-works a me next w =
    ap (sent_from a next) w.own ∙ (unfold sent_from in ground (arith, w.write_ok))

-- What is behind the address is not written.
received-quiet : (a : Answers) (next : Dest → Outcome) → (received a (λ rem. (next rem, []))).1 ≡ []
unfolding received
received-quiet a next = quiet (read_msg msg_size [] a.chunks)
  where
    quiet : (r : ReadMsg) → (received_from a (λ rem. (next rem, [])) r).1 ≡ []
    quiet (got msg) = unfold received_from in refl
    quiet failed_read = unfold received_from in refl
    quiet (still_reading s) = unfold received_from in refl

received-whole :
    (a : Answers) (d : Dest) (parts : List Text) (next : Dest → Exchanged)
    → IsAddress d
    → a.chunks ≡ map bytes parts
    → joined parts ≡ local_message d
    → received a next ≡ next d
unfolding received received_from
received-whole a d parts next h chunks whole =
    let (_, read, address) = read_remote-local_message d parts a.junk a.memory h whole in
    ground (arith, chunks, read, ap next address)

-- A side that comes to a connection to `rem`, with both queue pairs ready for those of `rem`.
abbrev pub Joins : Port → Outcome → Dest → Dest → Type 0
Joins p o me rem = (calls : List Call) × (o ≡ connected rem calls) × IsConnected p me rem calls

-- What a side that works writes is its own message.
pub client-writes :
    (a : Answers) (p : Port) (me : Dest) → Works a me → (client_index a p).1 ≡ local_message me ∷ []
unfolding client_index
client-writes a p me w =
    ap (λ (x : Exchanged). x.1)
      (sending-works a me (λ me'. received a (λ rem. (finish a p me' rem, []))) w)
    ∙ ap (λ l. local_message me ∷ l) (received-quiet a (λ rem. finish a p me rem))

pub server-writes :
    (a : Answers) (p : Port) (me rem : Dest) (parts : List Text)
    → Works a me
    → IsAddress rem
    → a.chunks ≡ map bytes parts
    → joined parts ≡ local_message rem
    → (server_index a p).1 ≡ local_message me ∷ []
unfolding server_index
server-writes a p me rem parts w h chunks whole =
    let read =
      received-whole a rem parts (λ r. sending a (λ me'. (finish a p me' r, []))) h chunks whole in
    let both = sending-works a me (λ me'. (finish a p me' rem, [])) w in
    ap (λ (x : Exchanged). x.1) (read ∙ both)

-- Where the calls of both sides succeed, both addresses are in range, and each reads, in whatever
-- parts, the one message that the other writes, each side comes to a connection to the other's
-- address: its receiving queue pair is ready for the sending one of the other, and its sending one
-- for the receiving one, both with what leads to the LID and the GID of the other.
pub connect-Joins :
    (ac server_answers : Answers) (pc ps : Port) (client server : Dest)
    (from_client from_server : List Text)
    → Works ac client
    → Works server_answers server
    → ac.chunks ≡ map bytes from_server
    → server_answers.chunks ≡ map bytes from_client
    → (client_index ac pc).1 ≡ joined from_client ∷ []
    → (server_index server_answers ps).1 ≡ joined from_server ∷ []
    → Joins pc (client_index ac pc).0 client server
      × Joins ps (server_index server_answers ps).0 server client
unfolding client_index server_index
connect-Joins ac sa pc ps client server from_client from_server wc ws cs sc c_wrote s_wrote =
    let says_c = client-writes ac pc client wc in
    let whole_c : joined from_client ≡ local_message client = ground (arith, c_wrote, says_c) in
    let says_s = server-writes sa ps server client from_client ws wc.in_range sc whole_c in
    let whole_s : joined from_server ≡ local_message server = ground (arith, s_wrote, says_s) in
    let (c_calls, c_done, c_ready) = finish-connected ac pc client server wc in
    let (s_calls, s_done, s_ready) = finish-connected sa ps server client ws in
    let c_read =
      received-whole ac server from_server (λ rem. (finish ac pc client rem, [])) ws.in_range cs
        whole_s in
    let c_sent =
      sending-works ac client (λ me. received ac (λ rem. (finish ac pc me rem, []))) wc in
    let s_read =
      received-whole sa client from_client (λ r. sending sa (λ me. (finish sa ps me r, [])))
        wc.in_range sc whole_c in
    let s_sent = sending-works sa server (λ me. (finish sa ps me client, [])) ws in
    (
      (
        c_calls,
        ap (λ (x : Exchanged). x.0) c_sent ∙ ap (λ (x : Exchanged). x.0) c_read ∙ c_done,
        c_ready,
      ),
      (s_calls, ap (λ (x : Exchanged). x.0) (s_read ∙ s_sent) ∙ s_done, s_ready),
    )
