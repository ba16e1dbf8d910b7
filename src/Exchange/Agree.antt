-- ===== src/Exchange/Agree.antt =====
-- What the two sides of the exchange of addresses know afterwards.
use ibv_bench.Base.{ℕ, suc, ◌≡◌, refl, ap, ◌∙◌, true, some, arith, List, [], ◌∷◌, ◌++◌}
use ibv_bench.Wire.Address.{
  Dest, print_address, read_address, read_address-print_address, IsAddress, sizeof_msg, sizeof_done,
}
use ibv_bench.Exchange.{
  Socket, opened, closed, wrote, wrote_done, written, Candidate, ClientAnswers, ServerAnswers,
  Route, Transport, try_candidates, client_talk, client_memory, client_connected, client_exch_dest,
  server_talk, server_bound, server_exch_dest,
}

-- The answers of a network and a library that work, with messages of the right length.
pub record ClientWorks (d : ClientAnswers) (n : ℕ) : Type 0 where
  pub asprintf_ok : d.asprintf_ok ≡ true
  pub resolved : d.resolved ≡ true
  pub connected : (try_candidates 0 d.candidates).0 ≡ some n
  pub write_ok : d.write_ok ≡ true
  pub full_reply : d.reply.count ≡ sizeof_msg
  pub write_done_ok : d.write_done_ok ≡ true
  pub malloc_ok : d.malloc_ok ≡ true

pub record ServerWorks (t : Transport) (d : ServerAnswers t.ConnectAnswers) (n : ℕ) : Type 0 where
  pub asprintf_ok : d.asprintf_ok ≡ true
  pub resolved : d.resolved ≡ true
  pub bound : (try_candidates 0 d.candidates).0 ≡ some n
  pub accept_ok : d.accept_ok ≡ true
  pub full_request : d.request.count ≡ sizeof_msg
  pub malloc_ok : d.malloc_ok ≡ true
  pub connect_ok : t.works d.connect ≡ true
  pub write_ok : d.write_ok ≡ true
  pub full_done : d.done.count ≡ sizeof_done

pub written-append : (xs ys : List Socket) → written (xs ++ ys) ≡ written xs ++ written ys
unfolding written
written-append [] ys = refl
written-append (wrote t ∷ xs) ys = ap (λ l. t ∷ l) (written-append xs ys)
written-append (opened n ∷ xs) ys = written-append xs ys
written-append (closed n ∷ xs) ys = written-append xs ys
written-append (wrote_done ∷ xs) ys = written-append xs ys

pub written-try_candidates : (n : ℕ) (ts : List Candidate) → written (try_candidates n ts).1 ≡ []
unfolding try_candidates written
written-try_candidates n [] = refl
written-try_candidates n (t ∷ ts) = ground (arith, written-try_candidates (suc n) ts)

-- A client that works writes its own address, and nothing else.
pub client_exch_dest-writes :
    (d : ClientAnswers) (n junk : ℕ) (my_dest : Dest)
    → ClientWorks d n
    → written (client_exch_dest d junk my_dest).1 ≡ print_address my_dest ∷ []
unfolding client_exch_dest client_connected client_talk written
client_exch_dest-writes d n junk my_dest w =
    let quiet = written-try_candidates 0 d.candidates in
    let acts = (try_candidates 0 d.candidates).1 in
    let split = written-append acts (wrote (print_address my_dest) ∷ wrote_done ∷ closed n ∷ []) in
    ground (arith, quiet, split)

client_exch_dest-works :
    (d : ClientAnswers) (n junk : ℕ) (my_dest : Dest)
    → ClientWorks d n
    → (client_exch_dest d junk my_dest).0
      ≡ some (read_address junk (client_memory d my_dest) d.reply.text)
unfolding client_exch_dest client_connected client_talk
client_exch_dest-works d n junk my_dest w = ground arith

module _ (t : Transport) where
  server_exch_dest-works :
      (d : ServerAnswers t.ConnectAnswers) (n junk : ℕ) (route : Route) (my_dest : Dest)
      → ServerWorks t d n
      → let (r, _, calls) = server_exch_dest t d junk route my_dest in
        let rem_dest = read_address junk d.memory d.request.text in
        (r ≡ some rem_dest) × (t.run calls ≡ some (t.ready route my_dest.psn rem_dest))
  unfolding server_exch_dest server_bound server_talk
  server_exch_dest-works d n junk route my_dest w =
      let rem_dest = read_address junk d.memory d.request.text in
      let done = t.connect-works d.connect route my_dest.psn rem_dest ∙ w.connect_ok in
      let ready = t.connect-ready d.connect route my_dest.psn rem_dest done in
      (ground (arith, done), ground (arith, done, ready))

  -- So does a server.
  pub server_exch_dest-writes :
      (d : ServerAnswers t.ConnectAnswers) (n junk : ℕ) (route : Route) (my_dest : Dest)
      → ServerWorks t d n
      → written (server_exch_dest t d junk route my_dest).1 ≡ print_address my_dest ∷ []
  unfolding server_exch_dest server_bound server_talk written
  server_exch_dest-writes d n junk route my_dest w =
      let rem_dest = read_address junk d.memory d.request.text in
      let done = t.connect-works d.connect route my_dest.psn rem_dest ∙ w.connect_ok in
      let quiet = written-try_candidates 0 d.candidates in
      let acts = (try_candidates 0 d.candidates).1 in
      let split =
        written-append acts
          (opened (suc n) ∷ closed n ∷ wrote (print_address my_dest) ∷ closed (suc n) ∷ []) in
      ground (arith, done, quiet, split)

  -- For each of the transports: where all calls of both sides succeed, both addresses are in range,
  -- and each side reads the line that the other has written, the client returns the server's address
  -- and the server returns the client's. The server's queue pair is then ready to send to the
  -- client's, and so is the client's to the server's after its own `pp_connect_ctx`.
  pub exchange_agrees :
      (dc : ClientAnswers) (ds : ServerAnswers t.ConnectAnswers) (nc ns junk : ℕ) (own own' : Route)
      (answers : t.ConnectAnswers) (client server : Dest)
      → ClientWorks dc nc
      → ServerWorks t ds ns
      → IsAddress client
      → IsAddress server
      → ds.request.text ≡ print_address client
      → dc.reply.text ≡ print_address server
      → t.works answers ≡ true
      → let (s_dest, _, s_calls) = server_exch_dest t ds junk own server in
        let (c_ok, c_calls) = t.connect answers own' client.psn server in
        ((client_exch_dest dc junk client).0 ≡ some server)
        × (s_dest ≡ some client)
        × (t.run s_calls ≡ some (t.ready own server.psn client))
        × (c_ok ≡ true)
        × (t.run c_calls ≡ some (t.ready own' client.psn server))
  exchange_agrees dc ds nc ns junk own own' answers client server wc ws ca sa sent replied up =
      let (returned, connected) = server_exch_dest-works ds ns junk own server ws in
      (
        client_exch_dest-works dc nc junk client wc ∙ ap some server_read,
        returned ∙ ap some client_read,
        connected ∙ ap (λ d. some (t.ready own server.psn d)) client_read,
        c_ok,
        t.connect-ready answers own' client.psn server c_ok,
      )
    where
      client_read : read_address junk ds.memory ds.request.text ≡ client
      client_read =
          ap (read_address junk ds.memory) sent
          ∙ read_address-print_address client ca junk ds.memory

      server_read : read_address junk (client_memory dc client) dc.reply.text ≡ server
      server_read =
          ap (read_address junk (client_memory dc client)) replied
          ∙ read_address-print_address server sa junk (client_memory dc client)

      c_ok : (t.connect answers own' client.psn server).0 ≡ true
      c_ok = t.connect-works answers own' client.psn server ∙ up
