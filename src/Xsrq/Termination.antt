-- ===== src/Xsrq/Termination.antt =====
-- rdma-core/xsrq_pingpong.c: `recv_termination_ack`, `send_termination_ack`, and the end of the client
-- and of the server.
use ibv_bench.Base.{
  sym, ◌⊎◌, inl, inr, ◌++◌, ◌<◌, ◌∙◌, get_elem?, some, suc, zero, ℕ, ◌≡◌, refl, Bool, true, List,
  [], ◌∷◌, map, arith, if◌then◌else◌, length, ap, All,
}
use ibv_bench.Base.Text.{Text, codes, text_eq}
use ibv_bench.Wire.Nul.{c_string}
use ibv_bench.Wire.Read.{
  Chunk, bytes, got, failed_read, still_reading, read_msg, joined, read_msg-joined,
}

-- TERMINATION_MSG, and the bytes that are written: TERMINATION_MSG_SIZE, with the NUL.
abbrev pub termination_msg : Text
termination_msg = codes "END"

abbrev pub termination_size : ℕ
termination_size = 4

abbrev pub termination_bytes : Text
termination_bytes = b'E' ∷ b'N' ∷ b'D' ∷ 0 ∷ []

-- Where a side stands: done, given up, or in the loop over `read`.
pub data Ended : Type 0 where
  done given_up reading : Ended

-- `done` is the 0 of the source.
pub recv_termination_ack : List Chunk → Ended
recv_termination_ack chunks = elim (read_msg termination_size [] chunks) [
  | got msg ↦ if text_eq (c_string msg) termination_msg then done else given_up
  | failed_read ↦ given_up
  | still_reading _ ↦ reading
]

-- Where a side stands, and what it has written.
abbrev pub Told : Type 0
Told = Ended × List Text

-- The write, and whether it succeeds.
pub send_termination_ack : Bool → Told
send_termination_ack write_ok = (if write_ok then done else given_up, termination_bytes ∷ [])

abbrev then_told : Told → Told → Told
then_told (done, ms) (r, ns) = (r, ms ++ ns)
then_told (given_up, ms) next = (given_up, ms)
then_told (reading, ms) next = (reading, ms)

-- The client writes before it reads.
unfoldable pub client_termination : (write_ok : Bool) → List Chunk → Told
unfolding send_termination_ack
client_termination write_ok chunks =
    then_told (send_termination_ack write_ok) (recv_termination_ack chunks, [])

abbrev then_end : Ended → Ended → Ended
then_end done next = next
then_end given_up next = given_up
then_end reading next = reading

recv_all : List (List Chunk) → Ended
recv_all [] = done
recv_all (c ∷ cs) = then_end (recv_termination_ack c) (recv_all cs)

send_all : List Bool → Told
unfolding send_termination_ack
send_all [] = (done, [])
send_all (ok ∷ oks) = then_told (send_termination_ack ok) (send_all oks)

-- The server hears all clients before it answers the first.
pub server_termination : List (List Chunk) → List Bool → Told
unfolding recv_all send_all
server_termination chunks writes = then_told (recv_all chunks, []) (send_all writes)

recv_termination_ack-joined :
    (parts : List Text)
    → joined parts ≡ termination_bytes
    → recv_termination_ack (map bytes parts) ≡ done
unfolding recv_termination_ack
recv_termination_ack-joined parts whole =
    let read =
      read_msg-joined termination_size [] parts (ground (arith, ap (λ s. length s) whole)) in
    ground (arith, read, whole, is_end)
  where
    is_end : text_eq (c_string termination_bytes) termination_msg ≡ true
    is_end = unfold c_string in unfold text_eq in refl

recv_all-done :
    (clients : List (List Text))
    → All (λ parts. joined parts ≡ termination_bytes) clients
    → recv_all (map (map bytes) clients) ≡ done
unfolding recv_all
recv_all-done [] h = refl
recv_all-done (parts ∷ clients) h =
    ground (arith, recv_termination_ack-joined parts h.0, recv_all-done clients h.1)

send_all-done :
    (writes : List Bool)
    → All (λ w. w ≡ true) writes
    → send_all writes ≡ (done, map (λ w. termination_bytes) writes)
unfolding send_all send_termination_ack
send_all-done [] h = refl
send_all-done (w ∷ writes) h = let (ok, oks) = h in rw (ok, send_all-done writes oks) refl

-- Every client has been heard.
abbrev pub Heard : List (List Chunk) → Type 0
Heard = All (λ c. recv_termination_ack c ≡ done)

Ended-cases : (x : Ended) → (x ≡ done) ⊎ (x ≡ given_up) ⊎ (x ≡ reading)
Ended-cases done = inl refl
Ended-cases given_up = inr (inl refl)
Ended-cases reading = inr (inr refl)

-- Nothing is written behind `recv_all`, or every client has been heard.
silent_or_Heard :
    (cs : List (List Chunk)) (t : Told) → ((then_told (recv_all cs, []) t).1 ≡ []) ⊎ Heard cs
unfolding recv_all
silent_or_Heard [] t = inr tt
silent_or_Heard (c ∷ cs) t = elim (Ended-cases (recv_termination_ack c)) [
  | inl ok ↦ elim (silent_or_Heard cs t) [
    | inl silent ↦ inl (rw ok silent)
    | inr heard ↦ inr (ok, heard)
  ]
  | inr (inl bad) ↦ inl (rw bad refl)
  | inr (inr waits) ↦ inl (rw waits refl)
]

same_message : List Bool → List Text
same_message = map (λ w. termination_bytes)

get_elem?-same_message :
    (writes : List Bool) (i : ℕ)
    → i < length writes
    → get_elem? (same_message writes) i ≡ some termination_bytes
unfolding same_message
get_elem?-same_message [] i lt = absurd (omega arith)
get_elem?-same_message (w ∷ writes) zero lt = refl
get_elem?-same_message (w ∷ writes) (suc i) lt = get_elem?-same_message writes i (omega arith)

same_message-only :
    (writes : List Bool) (i : ℕ) (m : Text)
    → get_elem? (same_message writes) i ≡ some m
    → m ≡ termination_bytes
unfolding same_message
same_message-only [] i m h = absurd (cc)
same_message-only (w ∷ writes) zero m h = cc
same_message-only (w ∷ writes) (suc i) m h = same_message-only writes i m h

server_termination-All :
    (clients : List (List Text)) (writes : List Bool)
    → All (λ parts. joined parts ≡ termination_bytes) clients
    → All (λ w. w ≡ true) writes
    → server_termination (map (map bytes) clients) writes ≡ (done, same_message writes)
unfolding server_termination same_message
server_termination-All clients writes heard sent =
    rw (recv_all-done clients heard, send_all-done writes sent) refl

-- A server that has heard all clients writes the message to each.
pub server_termination-writes :
    (clients : List (List Text)) (writes : List Bool) (i : ℕ)
    → All (λ parts. joined parts ≡ termination_bytes) clients
    → All (λ w. w ≡ true) writes
    → i < length writes
    → get_elem? (server_termination (map (map bytes) clients) writes).1 i ≡ some termination_bytes
server_termination-writes clients writes i heard sent lt =
    ap (λ (t : Told). get_elem? t.1 i) (server_termination-All clients writes heard sent)
    ∙ get_elem?-same_message writes i lt

client_termination-writes :
    (chunks : List Chunk) → (client_termination true chunks).1 ≡ termination_bytes ∷ []
unfolding client_termination send_termination_ack
client_termination-writes chunks = refl

All-joined :
    (clients : List (List Text))
    → All (λ parts. (client_termination true []).1 ≡ joined parts ∷ []) clients
    → All (λ parts. joined parts ≡ termination_bytes) clients
All-joined [] h = tt
All-joined (parts ∷ clients) (one, others) =
    let says = client_termination-writes [] in
    (ground (arith, one, says), All-joined clients others)

-- A client writes its acknowledgement whatever it reads behind that. A server writes nothing as long
-- as one of the clients has not been heard. Where it hears, in whatever parts, what each client
-- writes before it has read anything, and all its writes succeed, it comes to its end, and so does a
-- client that reads what the server writes to one of them.
pub termination-done :
    (clients : List (List Text)) (writes : List Bool) (from_server : List Text) (i : ℕ)
    (chunks : List Chunk) (cs : List (List Chunk)) (oks : List Bool)
    → All (λ parts. (client_termination true []).1 ≡ joined parts ∷ []) clients
    → All (λ w. w ≡ true) writes
    → get_elem? (server_termination (map (map bytes) clients) writes).1 i
      ≡ some (joined from_server)
    → ((server_termination (map (map bytes) clients) writes).0 ≡ done)
      × ((client_termination true (map bytes from_server)).0 ≡ done)
      × ((client_termination true chunks).1 ≡ termination_bytes ∷ [])
      × (((server_termination cs oks).1 ≡ []) ⊎ Heard cs)
unfolding server_termination client_termination send_termination_ack
termination-done clients writes from_server i chunks cs oks wrote sent answered =
    let heard = All-joined clients wrote in
    let all = server_termination-All clients writes heard sent in
    let at : get_elem? (same_message writes) i ≡ some (joined from_server) =
      sym (ap (λ (t : Told). get_elem? t.1 i) all) ∙ answered in
    (
      ap (λ (t : Told). t.0) all,
      recv_termination_ack-joined from_server (same_message-only writes i (joined from_server) at),
      client_termination-writes chunks,
      silent_or_Heard cs (send_all oks),
    )
