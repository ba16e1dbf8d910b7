-- ===== src/Exchange/Closes.antt =====
-- Every socket that the exchange of addresses opens is closed.
use ibv_bench.Base.{
  ℕ, suc, ◌≡◌, refl, sym, ap, ◌∙◌, Option, none, some, List, [], ◌∷◌, ◌++◌, append-nil, arith, ◌==◌,
  if◌then◌else◌,
}
use ibv_bench.Wire.Address.{Dest}
use ibv_bench.Exchange.{
  Socket, opened, closed, Candidate, ClientAnswers, ServerAnswers, Route, Transport, try_candidates,
  client_talk, client_connected, client_exch_dest, server_talk, server_bound, server_exch_dest,
}

remove : ℕ → List ℕ → Option (List ℕ)
remove n [] = none
remove n (m ∷ ms) =
    if n == m then some ms else elim (remove n ms) [ none ↦ none | some r ↦ some (m ∷ r) ]

-- The sockets that are open after some actions; none if one is closed that is not open.
unfoldable pub open_after : List Socket → List ℕ → Option (List ℕ)
unfolding remove
open_after [] held = some held
open_after (opened n ∷ acts) held = open_after acts (n ∷ held)
open_after (closed n ∷ acts) held = elim (remove n held) [
  | none ↦ none
  | some rest ↦ open_after acts rest
]
open_after (_ ∷ acts) held = open_after acts held

abbrev pub held_by : Option ℕ → List ℕ
held_by none = []
held_by (some n) = n ∷ []

pub try_candidates-open :
    (n : ℕ) (ts : List Candidate)
    → let (sock, acts) = try_candidates n ts in
      (rest : List Socket) → open_after (acts ++ rest) [] ≡ open_after rest (held_by sock)
unfolding try_candidates open_after
try_candidates-open n [] rest = refl
try_candidates-open n (t ∷ ts) rest = ground (arith, try_candidates-open (suc n) ts rest)

-- What is left to do closes the sockets that the loop has left open.
abbrev pub Leaves : Option ℕ × List Socket → Type 0
Leaves (sock, acts) =
    (rest : List Socket) → open_after (acts ++ rest) [] ≡ open_after rest (held_by sock)

client_talk-open :
    (d : ClientAnswers) (junk n : ℕ) (my_dest : Dest)
    → open_after ((client_talk d junk my_dest).1 ++ (closed n ∷ [])) (n ∷ []) ≡ some []
unfolding client_talk open_after
client_talk-open d junk n my_dest = ground arith

server_talk-open :
    (t : Transport) (d : ServerAnswers t.ConnectAnswers) (junk n : ℕ) (route : Route)
    (my_dest : Dest)
    → open_after ((server_talk t d junk route my_dest).1 ++ (closed n ∷ [])) (n ∷ []) ≡ some []
unfolding server_talk open_after
server_talk-open t d junk n route my_dest = ground arith

client_connected-closes :
    (d : ClientAnswers) (junk : ℕ) (my_dest : Dest) (c : Option ℕ × List Socket)
    → Leaves c
    → open_after (client_connected d junk my_dest c).1 [] ≡ some []
unfolding client_connected
client_connected-closes d junk my_dest (none, acts) h =
    ap (λ l. open_after l []) (sym (append-nil acts)) ∙ h [] ∙ unfold open_after in refl
client_connected-closes d junk my_dest (some n, acts) h =
    h ((client_talk d junk my_dest).1 ++ (closed n ∷ [])) ∙ client_talk-open d junk n my_dest

server_bound-closes :
    (t : Transport) (d : ServerAnswers t.ConnectAnswers) (junk : ℕ) (route : Route) (my_dest : Dest)
    (c : Option ℕ × List Socket)
    → Leaves c
    → open_after (server_bound t d junk route my_dest c).1 [] ≡ some []
unfolding server_bound
server_bound-closes t d junk route my_dest (none, acts) h =
    ap (λ l. open_after l []) (sym (append-nil acts)) ∙ h [] ∙ unfold open_after in refl
server_bound-closes t d junk route my_dest (some n, acts) h =
    let talk = (server_talk t d junk route my_dest).1 in
    ground (
      arith,
      h (closed n ∷ []),
      h (opened (suc n) ∷ closed n ∷ (talk ++ (closed (suc n) ∷ []))),
      one_closed n,
      accepted n (talk ++ (closed (suc n) ∷ [])),
      server_talk-open t d junk (suc n) route my_dest,
    )
  where
    one_closed : (n : ℕ) → open_after (closed n ∷ []) (n ∷ []) ≡ some []
    one_closed n = unfold open_after in ground arith

    accepted :
        (n : ℕ) (rest : List Socket)
        → open_after (opened (suc n) ∷ closed n ∷ rest) (n ∷ []) ≡ open_after rest (suc n ∷ [])
    accepted n rest = unfold open_after in ground arith

client_exch_dest-closes :
    (d : ClientAnswers) (junk : ℕ) (my_dest : Dest)
    → open_after (client_exch_dest d junk my_dest).1 [] ≡ some []
unfolding client_exch_dest
client_exch_dest-closes d junk my_dest = ground (
  arith,
  client_connected-closes d junk my_dest (try_candidates 0 d.candidates)
      (try_candidates-open 0 d.candidates),
  none_open,
)
  where
    none_open : open_after [] [] ≡ some []
    none_open = unfold open_after in refl

server_exch_dest-closes :
    (t : Transport) (d : ServerAnswers t.ConnectAnswers) (junk : ℕ) (route : Route) (my_dest : Dest)
    → open_after (server_exch_dest t d junk route my_dest).1 [] ≡ some []
unfolding server_exch_dest
server_exch_dest-closes t d junk route my_dest = ground (
  arith,
  server_bound-closes t d junk route my_dest (try_candidates 0 d.candidates)
      (try_candidates-open 0 d.candidates),
  none_open,
)
  where
    none_open : open_after [] [] ≡ some []
    none_open = unfold open_after in refl

-- On every path of the client and of the server, each socket that it has opened, such as the one
-- that listens and the connection, is closed once, and no other.
pub exch_dest-closes :
    (t : Transport) (dc : ClientAnswers) (ds : ServerAnswers t.ConnectAnswers) (junk : ℕ)
    (route : Route) (my_dest : Dest)
    → (open_after (client_exch_dest dc junk my_dest).1 [] ≡ some [])
      × (open_after (server_exch_dest t ds junk route my_dest).1 [] ≡ some [])
exch_dest-closes t dc ds junk route my_dest =
    (client_exch_dest-closes dc junk my_dest, server_exch_dest-closes t ds junk route my_dest)
