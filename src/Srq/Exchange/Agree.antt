-- ===== src/Srq/Exchange/Agree.antt =====
-- What the two sides of the exchange of rdma-core/srq_pingpong.c know afterwards.
use ibv_bench.Base.{
  Bool, ℕ, suc, ◌≡◌, refl, ap, ◌∙◌, true, some, List, [], ◌∷◌, map, arith, length, All,
  length-append, ◌++◌, append-nil,
}
use ibv_bench.Base.Text.{Text}
use ibv_bench.Wire.Nul.{c_string, c_string-NoNul}
use ibv_bench.Wire.Address.Bytes.{NoNul-print_address, length-print_address_full}
use ibv_bench.Wire.Read.{Chunk, bytes, got, read_msg, joined, read_msg-joined}
use ibv_bench.Wire.Address.{
  Dest, IsAddress, print_address, scan_address, read_address-print_address, sizeof_msg, sizeof_done,
}
use ibv_bench.Exchange.{opened, closed, written, try_candidates}
use ibv_bench.Exchange.Agree.{written-append, written-try_candidates}
use ibv_bench.Rc.Start.{no_gid}
use ibv_bench.Srq.Connect.{Route, connect_all, Works, connect_all-works}
use ibv_bench.Srq.Exchange.{
  Talk, waits, Arrived, read_error, reading, close_at_out, returned, message, send_dests, last_gid,
  all_read, read_dests, fields_of, arrived_first, ClientAnswers, client_received, client_talk,
  client_connected, client_exch_dest, ServerAnswers, ends, server_reply, server_received,
  server_talk, server_bound, server_exch_dest,
}

-- From index `i` on, the answers of `read` are some texts, each in some parts.
abbrev pub Arrive : (ℕ → List Chunk) → ℕ → List Text → Type 0
Arrive reads i [] = Unit
Arrive reads i (t ∷ ts) =
    ((parts : List Text) × (reads i ≡ map bytes parts) × (joined parts ≡ t))
    × Arrive reads (suc i) ts

-- They are the messages of some addresses.
abbrev pub Delivers : (ℕ → List Chunk) → ℕ → List Dest → Type 0
Delivers reads i ds = Arrive reads i (map message ds)

-- The message of an address in range has the size that is written and read.
length-message : (d : Dest) → IsAddress d → length (message d) ≡ sizeof_msg
unfolding message
length-message d h = omega (arith, length-append {0}, length-print_address_full d h)

c_string-message : (d : Dest) → c_string (message d) ≡ print_address d
unfolding message
c_string-message d = c_string-NoNul (print_address d) [] (NoNul-print_address d)

read_msg-message :
    (d : Dest) (parts : List Text)
    → IsAddress d
    → joined parts ≡ message d
    → read_msg sizeof_msg [] (map bytes parts) ≡ got (message d)
read_msg-message d parts h whole =
    read_msg-joined sizeof_msg [] parts (omega (arith, ap length whole, length-message d h))
    ∙ ap got whole

read_dests-all_read :
    (reads : ℕ → List Chunk) (junk i : ℕ) (gid : Text) (ms ds : List Dest)
    → length ms ≡ length ds
    → All IsAddress ds
    → Delivers reads i ds
    → read_dests reads junk i gid ms ≡ all_read ds
unfolding read_dests arrived_first
read_dests-all_read reads junk i gid [] [] same h to = refl
read_dests-all_read reads junk i gid [] (d ∷ ds) same h to = absurd (omega arith)
read_dests-all_read reads junk i gid (m ∷ ms) [] same h to = absurd (omega arith)
read_dests-all_read reads junk i gid (m ∷ ms) (d ∷ ds) same (first, others)
      ((parts, e, whole), to) =
    let old = fields_of m gid in
    let gid' = (scan_address old (print_address d)).gid in
    ground (
      arith,
      e,
      read_msg-message d parts first whole,
      c_string-message d,
      read_address-print_address d first junk old,
      read_dests-all_read reads junk (suc i) gid' ms ds (omega arith) others to,
    )

send_dests-works :
    (write_ok : ℕ → Bool) (i : ℕ) (ds : List Dest)
    → ((j : ℕ) → write_ok j ≡ true)
    → (send_dests write_ok i ds).0 ≡ true
unfolding send_dests
send_dests-works write_ok i [] h = refl
send_dests-works write_ok i (d ∷ ds) h = ground (arith, h i, send_dests-works write_ok (suc i) ds h)

-- What is written then.
written-send_dests :
    (write_ok : ℕ → Bool) (i : ℕ) (ds : List Dest)
    → ((j : ℕ) → write_ok j ≡ true)
    → written (send_dests write_ok i ds).1 ≡ map message ds
unfolding send_dests written
written-send_dests write_ok i [] h = refl
written-send_dests write_ok i (d ∷ ds) h =
    ground (arith, h i, written-send_dests write_ok (suc i) ds h)

-- The answers of a network and a library that work.
pub record ClientWorks (d : ClientAnswers) (n : ℕ) (theirs : List Dest) : Type 0 where
  pub asprintf_ok : d.asprintf_ok ≡ true
  pub resolved : d.resolved ≡ true
  pub connected : (try_candidates 0 d.candidates).0 ≡ some n
  pub malloc_ok : d.malloc_ok ≡ true
  pub room : length d.memory ≡ length theirs
  pub write_ok : (i : ℕ) → d.write_ok i ≡ true

pub record ServerWorks (d : ServerAnswers) (n : ℕ) (theirs : List Dest) : Type 0 where
  pub asprintf_ok : d.asprintf_ok ≡ true
  pub resolved : d.resolved ≡ true
  pub bound : (try_candidates 0 d.candidates).0 ≡ some n
  pub accept_ok : d.accept_ok ≡ true
  pub malloc_ok : d.malloc_ok ≡ true
  pub room : length d.memory ≡ length theirs
  pub connect_ok : Works d.connect
  pub write_ok : (i : ℕ) → d.write_ok i ≡ true
  pub done : d.done_count ≡ sizeof_done

-- A client that works writes its messages, and nothing else, whatever it reads.
pub client_exch_dest-writes :
    (d : ClientAnswers) (n junk : ℕ) (mine theirs : List Dest)
    → ClientWorks d n theirs
    → written (client_exch_dest d junk mine).1 ≡ map message mine
unfolding client_exch_dest client_connected client_talk
client_exch_dest-writes d n junk mine theirs w =
    let tries = (try_candidates 0 d.candidates).1 in
    let quiet = written-try_candidates 0 d.candidates in
    let texts = written-send_dests d.write_ok 0 mine w.write_ok in
    let sent = send_dests-works d.write_ok 0 mine w.write_ok in
    let requests = (send_dests d.write_ok 0 mine).1 in
    let (r, rest) = client_received (read_dests d.reads junk 0 (last_gid d.gid mine) d.memory) in
    let silent =
      written-client_received (read_dests d.reads junk 0 (last_gid d.gid mine) d.memory) in
    let shut = written-close_at_out n r in
    let split = written-append tries ((requests ++ rest) ++ close_at_out n r) in
    let split2 = written-append (requests ++ rest) (close_at_out n r) in
    let split3 = written-append requests rest in
    let nil = append-nil (map message mine) in
    ground (
      arith, w.connected, w.malloc_ok, quiet, texts, sent, silent, shut, split, split2, split3, nil,
    )
  where
    written-client_received : (a : Arrived) → written (client_received a).1 ≡ []
    written-client_received (all_read ds) = unfold client_received written in refl
    written-client_received (read_error ds) = unfold client_received written in refl
    written-client_received reading = unfold client_received written in refl

    written-close_at_out : (n : ℕ) (r : Talk) → written (close_at_out n r) ≡ []
    written-close_at_out n (returned r) = unfold close_at_out written in refl
    written-close_at_out n waits = unfold close_at_out written in refl

pub client_exch_dest-works :
    (d : ClientAnswers) (n junk : ℕ) (mine theirs : List Dest)
    → All IsAddress theirs
    → ClientWorks d n theirs
    → Delivers d.reads 0 theirs
    → (client_exch_dest d junk mine).0 ≡ returned (some theirs)
unfolding client_exch_dest client_connected client_talk client_received
client_exch_dest-works d n junk mine theirs h w to = ground (
  arith,
  send_dests-works d.write_ok 0 mine w.write_ok,
  read_dests-all_read d.reads junk 0 (last_gid d.gid mine) d.memory theirs w.room h to,
)

pub server_exch_dest-works :
    (d : ServerAnswers) (n junk : ℕ) (route : Route) (num_qp : ℕ) (mine theirs : List Dest)
    → All IsAddress theirs
    → ServerWorks d n theirs
    → Delivers d.reads 0 theirs
    → let (r, acts, calls) = server_exch_dest d junk route num_qp mine in
      (r ≡ returned (some theirs))
      × (calls ≡ (connect_all route d.connect no_gid (ends num_qp mine theirs)).1)
      × (written acts ≡ map message mine)
unfolding server_exch_dest server_bound server_talk server_received server_reply
server_exch_dest-works d n junk route num_qp mine theirs h w to =
    let got_all = read_dests-all_read d.reads junk 0 d.gid d.memory theirs w.room h to in
    let up = connect_all-works route d.connect no_gid (ends num_qp mine theirs) w.connect_ok in
    let sent = send_dests-works d.write_ok 0 mine w.write_ok in
    let tries = (try_candidates 0 d.candidates).1 in
    let quiet = written-try_candidates 0 d.candidates in
    let texts = written-send_dests d.write_ok 0 mine w.write_ok in
    let replies = (send_dests d.write_ok 0 mine).1 in
    let split =
      written-append tries (opened (suc n) ∷ closed n ∷ (replies ++ (closed (suc n) ∷ []))) in
    let split2 = written-append replies (closed (suc n) ∷ []) in
    let nil = append-nil (map message mine) in
    (
      ground (arith, got_all, up, sent),
      ground (arith, got_all, up, sent),
      unfold written in ground (arith, got_all, up, sent, quiet, texts, split, split2, nil),
    )
