-- ===== src/Srq/Tests/Join.antt =====
-- Two programs with two queue pairs each, whose messages come in two parts.
use ibv_bench.Base.{
  none, subst, sym, ◌<◌, ℕ, suc, ◌≡◌, refl, ap, ◌∙◌, true, false, ◌++◌, some, List, [], ◌∷◌, map,
  append-nil, arith, take, drop, take-append-drop, get_or, replicate,
}
use ibv_bench.Base.Text.{Text}
use ibv_bench.Wire.Gid.{Gid, mtu_1024}
use ibv_bench.Wire.Address.{Dest}
use ibv_bench.Wire.Read.{Chunk, bytes, joined}
use ibv_bench.Exchange.{try_candidates, written}
use ibv_bench.Exchange.Closes.{open_after}
use ibv_bench.Rc.Connect.{ConnectAnswers}
use ibv_bench.Rc.Start.{PortInfo, own_address}
use ibv_bench.Srq.Connect.{Route, Works}
use ibv_bench.Srq.Exchange.{
  returned, message, ClientAnswers, client_exch_dest, ServerAnswers, server_exch_dest,
}
use ibv_bench.Srq.Exchange.Agree.{Arrive, Delivers, ClientWorks, ServerWorks}
use ibv_bench.Srq.Exchange.Closes.{exch_dests-closes}
use ibv_bench.Srq.Start.{zero_dest, own_dests, Peers, join}
use ibv_bench.Srq.Start.Join.{
  AreReported, own_dests-IsAddress, join-writes_client, join-writes_server, queue_pairs, ready_for,
  srq_join_agrees,
}

abbrev parts_of : Text → List Text
parts_of t = take 20 t ∷ drop 20 t ∷ []

joined-parts_of : (t : Text) → joined (parts_of t) ≡ t
unfolding joined
joined-parts_of t = ap (λ s. take 20 t ++ s) (append-nil (drop 20 t)) ∙ take-append-drop 20 t

-- What is read where the other side has written some addresses.
abbrev answers : List Dest → ℕ → List Chunk
answers ds i = map bytes (parts_of (message (get_or ds i zero_dest)))

Arrive-shift :
    (f : ℕ → List Chunk) (i : ℕ) (ts : List Text)
    → Arrive (λ j. f (suc j)) i ts
    → Arrive f (suc i) ts
Arrive-shift f i [] h = tt
Arrive-shift f i (t ∷ ts) (first, others) = (first, Arrive-shift f (suc i) ts others)

answers-Delivers : (ds : List Dest) → Delivers (answers ds) 0 ds
answers-Delivers [] = tt
answers-Delivers (d ∷ ds) = (
  (parts_of (message d), refl, joined-parts_of (message d)),
  Arrive-shift (answers (d ∷ ds)) 0 (map message ds) (answers-Delivers ds),
)

abbrev gid : ℕ → Gid
gid n = record {
  w0 = record { b0 = 0xfe; b1 = 0x80; b2 = 0; b3 = 0 };
  w1 = record { b0 = 0; b1 = 0; b2 = 0; b3 = 0 };
  w2 = record { b0 = 0; b1 = 2; b2 = 0xc9; b3 = 3 };
  w3 = record { b0 = 0; b1 = 0x4b; b2 = 0x12; b3 = n };
}

abbrev dests : ℕ → List Dest
dests n =
    record { lid = n; qpn = 0x48; psn = 1000; gid = gid n }
    ∷ record { lid = n; qpn = 0x49; psn = 1001; gid = gid n }
    ∷ replicate 254 zero_dest

abbrev info : ℕ → PortInfo
info n = record { lid = n; is_ethernet = false }

abbrev qp_nums : List ℕ
qp_nums = 0x48 ∷ 0x49 ∷ []

abbrev random : ℕ → ℕ
random i = get_or (1000 ∷ 1001 ∷ []) i 0

client_own : own_dests (some (info 7)) 0 (λ j. some (gid 7)) random qp_nums ≡ some (dests 7)
unfolding own_dests own_address
client_own = refl

server_own : own_dests (some (info 9)) 0 (λ j. some (gid 9)) random qp_nums ≡ some (dests 9)
unfolding own_dests own_address
server_own = refl

are_reported : (n : ℕ) → n < 256 → AreReported (info n) (λ j. gid n) qp_nums
are_reported n small = record {
  lid_16_bits = omega arith;
  qpn_24_bits = (omega arith, (omega arith, tt));
  gid_bytes = λ i. ground arith;
}

abbrev all_ok : ℕ → ConnectAnswers
all_ok i = record { rtr_ok = true; rts_ok = true }

all_ok-Works : Works all_ok
all_ok-Works i = (refl, refl)

abbrev client_answers : ClientAnswers
client_answers = record {
  asprintf_ok = true;
  resolved = true;
  candidates = record { socket_ok = true; use_ok = true } ∷ [];
  write_ok = λ i. true;
  malloc_ok = true;
  memory = replicate 256 zero_dest;
  gid = [];
  reads = answers (dests 9);
}

abbrev server_answers : ServerAnswers
server_answers = record {
  asprintf_ok = true;
  resolved = true;
  candidates = record { socket_ok = true; use_ok = true } ∷ [];
  accept_ok = true;
  malloc_ok = true;
  memory = replicate 256 zero_dest;
  gid = [];
  reads = answers (dests 7);
  connect = all_ok;
  write_ok = λ i. true;
  done_count = 5;
}

abbrev peers : Peers
peers = record { client = client_answers; server = server_answers; connect = all_ok }

client_works : ClientWorks client_answers 0 (dests 9)
unfolding try_candidates
client_works = record {
  asprintf_ok = refl;
  resolved = refl;
  connected = refl;
  malloc_ok = refl;
  room = refl;
  write_ok = λ i. refl;
}

server_works : ServerWorks server_answers 0 (dests 7)
unfolding try_candidates
server_works = record {
  asprintf_ok = refl;
  resolved = refl;
  bound = refl;
  accept_ok = refl;
  malloc_ok = refl;
  room = refl;
  connect_ok = all_ok-Works;
  write_ok = λ i. refl;
  done = refl;
}

abbrev route : Route
route = record { port = 1; mtu = mtu_1024; sl = 0; sgid_idx = 0 }

-- What each side reads is what the other writes.
server_hears :
    Arrive server_answers.reads 0 (written (join true peers 3 route 2 (some (dests 7))).1)
server_hears =
    subst (Arrive server_answers.reads 0)
      (sym (join-writes_client peers 0 3 2 route (dests 7) (dests 9) client_works))
      (answers-Delivers (dests 7))

client_hears :
    Arrive client_answers.reads 0 (written (join false peers 3 route 2 (some (dests 9))).1)
client_hears =
    let theirs =
      own_dests-IsAddress (info 7) 0 (λ j. gid 7) random qp_nums (dests 7)
        (are_reported 7 (omega arith)) client_own in
    subst (Arrive client_answers.reads 0)
      (sym (
        join-writes_server peers 0 3 2 route (dests 9) (dests 7) theirs server_works
          (answers-Delivers (dests 7))))
      (answers-Delivers (dests 9))

srq_join_agrees_example :
    let (c_dest, _, c_calls) =
      join true peers 3 route 2 (own_dests (some (info 7)) 0 (λ j. some (gid 7)) random qp_nums) in
    let (s_dest, _, s_calls) =
      join false peers 3 route 2 (own_dests (some (info 9)) 0 (λ j. some (gid 9)) random qp_nums) in
    (c_dest ≡ returned (some (dests 9)))
    × (s_dest ≡ returned (some (dests 7)))
    × (queue_pairs c_calls ≡ ready_for route 2 (dests 7) (dests 9))
    × (queue_pairs s_calls ≡ ready_for route 2 (dests 9) (dests 7))
srq_join_agrees_example =
    srq_join_agrees peers peers 0 0 3 2 route route (info 7) (info 9) 0 0 (λ j. gid 7) (λ j. gid 9)
      random random qp_nums qp_nums (dests 7) (dests 9) client_works server_works all_ok-Works
      (are_reported 7 (omega arith)) (are_reported 9 (omega arith)) client_own server_own
      server_hears client_hears

-- The client cannot connect, and the server has no memory for the addresses.
abbrev no_connection : ClientAnswers
no_connection = record client_answers {
  candidates = record { socket_ok = true; use_ok = false } ∷ [];
}

abbrev no_memory : ServerAnswers
no_memory = record server_answers { malloc_ok = false }

client_stops : (client_exch_dest no_connection 3 (dests 7)).0 ≡ returned none
unfolding client_exch_dest
client_stops = refl

server_stops : (server_exch_dest no_memory 3 route 2 (dests 7)).0 ≡ returned none
unfolding server_exch_dest
server_stops = refl

exch_dests-closes_example :
    (open_after (client_exch_dest no_connection 3 (dests 7)).1 [] ≡ some [])
    × (open_after (server_exch_dest no_memory 3 route 2 (dests 7)).1 [] ≡ some [])
exch_dests-closes_example =
    exch_dests-closes no_connection no_memory 3 route 2 (dests 7) none none client_stops
      server_stops
