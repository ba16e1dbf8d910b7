-- ===== src/Srq/Exchange/Closes.antt =====
-- Every socket that the exchange of rdma-core/srq_pingpong.c opens is closed.
use ibv_bench.Base.{
  ℕ, suc, ◌≡◌, refl, sym, ap, ◌∙◌, Bool, Option, none, some, List, [], ◌∷◌, ◌++◌, append-nil,
  append_assoc, arith, ◌&&◌, Bool-cases, inl, inr,
}
use ibv_bench.Wire.Address.{Dest}
use ibv_bench.Exchange.{Socket, opened, closed, try_candidates}
use ibv_bench.Exchange.Closes.{open_after, Leaves, try_candidates-open}
use ibv_bench.Srq.Connect.{Route}
use ibv_bench.Srq.Exchange.{
  Talk, returned, send_dests, all_read, read_error, reading, Arrived, read_dests, last_gid,
  ClientAnswers, client_received, client_talk, close_at_out, client_connected, client_exch_dest,
  ServerAnswers, server_reply, server_received, server_talk, server_bound, server_exch_dest,
}

-- Actions that leave the sockets as they are.
abbrev Silent : List Socket → Type 0
Silent acts =
    (rest : List Socket) (held : List ℕ) → open_after (acts ++ rest) held ≡ open_after rest held

send_dests-Silent :
    (write_ok : ℕ → Bool) (i : ℕ) (ds : List Dest) → Silent (send_dests write_ok i ds).1
unfolding send_dests open_after
send_dests-Silent write_ok i [] rest held = refl
send_dests-Silent write_ok i (d ∷ ds) rest held =
    ground (arith, send_dests-Silent write_ok (suc i) ds rest held)

client_received-Silent : (a : Arrived) → Silent (client_received a).1
unfolding client_received open_after
client_received-Silent (all_read ds) rest held = refl
client_received-Silent (read_error ds) rest held = refl
client_received-Silent reading rest held = refl

Silent-append : (xs ys : List Socket) → Silent xs → Silent ys → Silent (xs ++ ys)
Silent-append xs ys f g rest held =
    ap (λ l. open_after l held) (append_assoc xs ys rest) ∙ f (ys ++ rest) held ∙ g rest held

client_talk-Silent :
    (d : ClientAnswers) (junk : ℕ) (my_dest : List Dest) → Silent (client_talk d junk my_dest).1
unfolding client_talk
client_talk-Silent d junk my_dest rest held =
    let sent = send_dests-Silent d.write_ok 0 my_dest in
    let a = read_dests d.reads junk 0 (last_gid d.gid my_dest) d.memory in
    ground (
      arith,
      sent rest held,
      Silent-append (send_dests d.write_ok 0 my_dest).1 (client_received a).1 sent
          (client_received-Silent a) rest held,
    )

server_reply-Silent :
    (d : ServerAnswers) (route : Route) (num_qp : ℕ) (my_dest rem_dest : List Dest)
    → Silent (server_reply d route num_qp my_dest rem_dest).1
unfolding server_reply
server_reply-Silent d route num_qp my_dest rem_dest rest held =
    ground (arith, send_dests-Silent d.write_ok 0 my_dest rest held)

server_received-Silent :
    (d : ServerAnswers) (route : Route) (num_qp : ℕ) (my_dest : List Dest) (a : Arrived)
    → Silent (server_received d route num_qp my_dest a).1
unfolding server_received
server_received-Silent d route num_qp my_dest (all_read ds) rest held =
    server_reply-Silent d route num_qp my_dest ds rest held
server_received-Silent d route num_qp my_dest (read_error ds) rest held = refl
server_received-Silent d route num_qp my_dest reading rest held = refl

server_talk-Silent :
    (d : ServerAnswers) (junk : ℕ) (route : Route) (num_qp : ℕ) (my_dest : List Dest)
    → Silent (server_talk d junk route num_qp my_dest).1
unfolding server_talk
server_talk-Silent d junk route num_qp my_dest rest held = ground (
  arith,
  server_received-Silent d route num_qp my_dest (read_dests d.reads junk 0 d.gid d.memory) rest
      held,
)

-- Behind `out` the socket is closed.
out_closes :
    (acts : List Socket) (n : ℕ) (t : Talk) (r : Option (List Dest))
    → Silent acts
    → t ≡ returned r
    → open_after (acts ++ close_at_out n t) (n ∷ []) ≡ some []
unfolding close_at_out open_after
out_closes acts n t r quiet e =
    let last = quiet (close_at_out n (returned r)) (n ∷ []) in ground (arith, e, last)

nothing_opened : (acts : List Socket) → Leaves (none, acts) → open_after acts [] ≡ some []
nothing_opened acts h =
    ap (λ l. open_after l []) (sym (append-nil acts)) ∙ h [] ∙ unfold open_after in refl

client_connected-closes :
    (d : ClientAnswers) (junk : ℕ) (my_dest : List Dest) (c : Option ℕ × List Socket)
    (r : Option (List Dest))
    → Leaves c
    → (client_connected d junk my_dest c).0 ≡ returned r
    → open_after (client_connected d junk my_dest c).1 [] ≡ some []
unfolding client_connected
client_connected-closes d junk my_dest (none, acts) r h e = nothing_opened acts h
client_connected-closes d junk my_dest (some n, acts) r h e =
    let (t, talk) = client_talk d junk my_dest in
    h (talk ++ close_at_out n t) ∙ out_closes talk n t r (client_talk-Silent d junk my_dest) e

-- `accept` opens the connection, and the socket that listens is closed.
accepted :
    (n : ℕ) (rest : List Socket)
    → open_after (opened (suc n) ∷ closed n ∷ rest) (n ∷ []) ≡ open_after rest (suc n ∷ [])
unfolding open_after
accepted n rest = ground arith

one_closed : (n : ℕ) → open_after (closed n ∷ []) (n ∷ []) ≡ some []
unfolding open_after
one_closed n = ground arith

server_bound-closes :
    (d : ServerAnswers) (junk : ℕ) (route : Route) (num_qp : ℕ) (my_dest : List Dest)
    (c : Option ℕ × List Socket) (r : Option (List Dest))
    → Leaves c
    → (server_bound d junk route num_qp my_dest c).0 ≡ returned r
    → open_after (server_bound d junk route num_qp my_dest c).1 [] ≡ some []
unfolding server_bound
server_bound-closes d junk route num_qp my_dest (none, acts) r h e = nothing_opened acts h
server_bound-closes d junk route num_qp my_dest (some n, acts) r h e =
    let (t, talk, _) = server_talk d junk route num_qp my_dest in
    elim (Bool-cases d.accept_ok) [
      | inr off ↦ rw off (h (closed n ∷ []) ∙ one_closed n)
      | inl on ↦
          let out =
            out_closes talk (suc n) t r (server_talk-Silent d junk route num_qp my_dest)
              (ground (arith, on, e)) in
          rw on (
            h (opened (suc n) ∷ closed n ∷ (talk ++ close_at_out (suc n) t))
            ∙ accepted n (talk ++ close_at_out (suc n) t)
            ∙ out)
    ]

none_open : open_after [] [] ≡ some []
unfolding open_after
none_open = refl

client_exch_dest-closes :
    (d : ClientAnswers) (junk : ℕ) (my_dest : List Dest) (r : Option (List Dest))
    → (client_exch_dest d junk my_dest).0 ≡ returned r
    → open_after (client_exch_dest d junk my_dest).1 [] ≡ some []
unfolding client_exch_dest
client_exch_dest-closes d junk my_dest r e = elim (Bool-cases (d.asprintf_ok && d.resolved)) [
  | inr off ↦ rw off none_open
  | inl on ↦ rw on (
      client_connected-closes d junk my_dest (try_candidates 0 d.candidates) r
        (try_candidates-open 0 d.candidates) (ground (arith, on, e)))
]

server_exch_dest-closes :
    (d : ServerAnswers) (junk : ℕ) (route : Route) (num_qp : ℕ) (my_dest : List Dest)
    (r : Option (List Dest))
    → (server_exch_dest d junk route num_qp my_dest).0 ≡ returned r
    → open_after (server_exch_dest d junk route num_qp my_dest).1 [] ≡ some []
unfolding server_exch_dest
server_exch_dest-closes d junk route num_qp my_dest r e =
    elim (Bool-cases (d.asprintf_ok && d.resolved)) [
      | inr off ↦ rw off none_open
      | inl on ↦ rw on (
          server_bound-closes d junk route num_qp my_dest (try_candidates 0 d.candidates) r
            (try_candidates-open 0 d.candidates) (ground (arith, on, e)))
    ]

-- On every path on which the client, and the server, returns, with an address array or without, each
-- socket that it has opened, such as the one that listens and the connection, is closed once, and
-- no other.
pub exch_dests-closes :
    (dc : ClientAnswers) (ds : ServerAnswers) (junk : ℕ) (route : Route) (num_qp : ℕ)
    (my_dest : List Dest) (rc rs : Option (List Dest))
    → (client_exch_dest dc junk my_dest).0 ≡ returned rc
    → (server_exch_dest ds junk route num_qp my_dest).0 ≡ returned rs
    → (open_after (client_exch_dest dc junk my_dest).1 [] ≡ some [])
      × (open_after (server_exch_dest ds junk route num_qp my_dest).1 [] ≡ some [])
exch_dests-closes dc ds junk route num_qp my_dest rc rs c s = (
  client_exch_dest-closes dc junk my_dest rc c,
  server_exch_dest-closes ds junk route num_qp my_dest rs s,
)
