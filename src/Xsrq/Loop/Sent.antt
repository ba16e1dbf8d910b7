-- ===== src/Xsrq/Loop/Sent.antt =====
-- How many messages rdma-core/xsrq_pingpong.c sends to each client: no more than it counts for it.
use ibv_bench.Base.{
  ℕ, zero, suc, ◌+◌, ◌-◌, ◌≤◌, ◌<◌, ◌≡◌, sym, ap, ◌∙◌, Bool, Option, none, some, List, [], ◌∷◌,
  ◌++◌, arith, ltb, ◌==◌, if◌then◌else◌, inl, inr, Bool-cases, length, length-set, get_or, set,
  replicate, length-replicate, append_assoc, append-nil, subst,
}
use ibv_bench.Xsrq.Messages.{
  Send, Settings, Verbs, Process, post_recv, post_send, send_of, find_from, find_qp, handle_recv,
  first_sends, start,
}

-- The messages that go to the client of an index. A refused request is none.
pub sent_to : ℕ → List (Option Send) → ℕ
sent_to i [] = 0
sent_to i (none ∷ xs) = sent_to i xs
sent_to i (some x ∷ xs) = let rest = sent_to i xs in if x.index == i then suc rest else rest

sent_to-append :
    (i : ℕ) (xs ys : List (Option Send)) → sent_to i (xs ++ ys) ≡ sent_to i xs + sent_to i ys
unfolding sent_to
sent_to-append i [] ys = omega arith
sent_to-append i (none ∷ xs) ys = sent_to-append i xs ys
sent_to-append i (some x ∷ xs) ys = ground (arith, sent_to-append i xs ys)

get_or-set :
    (xs : List ℕ) (i j x : ℕ)
    → i < length xs
    → get_or (set xs i x) j 0 ≡ (if i == j then x else get_or xs j 0)
get_or-set [] i j x lt = absurd (omega arith)
get_or-set (y ∷ ys) zero zero x lt = ground arith
get_or-set (y ∷ ys) zero (suc j) x lt = ground arith
get_or-set (y ∷ ys) (suc i) zero x lt = ground arith
get_or-set (y ∷ ys) (suc i) (suc j) x lt = ground (arith, get_or-set ys i j x (omega arith))

module _ (e : Settings) (v : Verbs) where
  -- There is a count for each client, and at most so many messages have been sent to it.
  pub record IsCounted (sends : List (Option Send)) (p : Process) : Type 0 where
    pub a_count_each : length p.pp_cnt ≡ e.num_clients
    pub no_more : (i : ℕ) → sent_to i sends ≤ get_or p.pp_cnt i 0

  find_from-lt :
      (qpn i left : ℕ)
      → 1 ≤ e.num_clients
      → i + left ≤ e.num_clients
      → find_from e v qpn i left < e.num_clients
  unfolding find_from
  find_from-lt qpn i zero some_client le = omega arith
  find_from-lt qpn i (suc left) some_client le =
      let rest = find_from-lt qpn (suc i) left some_client (omega arith) in ground (arith, rest)

  find_qp-lt : (qpn : ℕ) → 1 ≤ e.num_clients → find_qp e v qpn < e.num_clients
  unfolding find_qp
  find_qp-lt qpn some_client =
      let found = find_from-lt qpn 0 e.num_clients some_client (omega arith) in
      ground (arith, found)

  sent_to-one :
      (index i : ℕ) (p : Process)
      → sent_to i ((post_send e v index p).0 ∷ []) ≤ (if index == i then 1 else 0)
  unfolding post_send send_of sent_to
  sent_to-one index i p = ground arith

  -- One request more.
  post_send-IsCounted :
      (index : ℕ) (sends : List (Option Send)) (p : Process)
      → index < e.num_clients
      → IsCounted sends p
      → IsCounted (sends ++ ((post_send e v index p).0 ∷ [])) (post_send e v index p).1
  post_send-IsCounted index sends p lt h = record {
    a_count_each =
        unfold post_send in
        (length-set p.pp_cnt index (get_or p.pp_cnt index 0 + 1) ∙ h.a_count_each);
    no_more = λ i.
        let both = sent_to-append i sends ((post_send e v index p).0 ∷ []) in
        let at =
          get_or-set p.pp_cnt index i (get_or p.pp_cnt index 0 + 1)
            (omega (arith, h.a_count_each)) in
        let before = h.no_more i in
        let one = sent_to-one index i p in
        let count : get_or (post_send e v index p).1.pp_cnt i 0
            ≡ (if index == i then get_or p.pp_cnt index 0 + 1 else get_or p.pp_cnt i 0) =
          unfold post_send in at in
        elim (Bool-cases (index == i)) [
          | inl same ↦
              let here : index ≡ i = ground (arith, same) in
              let its = ap (λ j. get_or p.pp_cnt j 0) here in
              ground (arith, both, count, before, one, same, its)
          | inr other ↦ ground (arith, both, count, before, one, other)
        ];
  }

  post_recv-IsCounted :
      (n : ℕ) (sends : List (Option Send)) (p : Process)
      → IsCounted sends p
      → IsCounted sends (post_recv v n p).1
  unfolding post_recv
  post_recv-IsCounted zero sends p h = h
  post_recv-IsCounted (suc n) sends p h =
      let next : Process = record p { posted = p.posted + 1; recv_calls = p.recv_calls + 1 } in
      let rest =
        post_recv-IsCounted n sends next
          (record { a_count_each = h.a_count_each; no_more = h.no_more }) in
      elim (Bool-cases (v.takes_recv p.recv_calls)) [
        | inl ok ↦ rw ok rest
        | inr refused ↦ rw refused (record { a_count_each = h.a_count_each; no_more = h.no_more })
      ]

  none-IsCounted :
      (sends : List (Option Send)) (p : Process)
      → IsCounted sends p
      → IsCounted (sends ++ (none ∷ [])) p
  none-IsCounted sends p h = record {
    a_count_each = h.a_count_each;
    no_more = λ i.
        let both = sent_to-append i sends (none ∷ []) in
        let before = h.no_more i in unfold sent_to in omega (arith, both, before);
  }

  IsCounted-one_more :
      (sends : List (Option Send)) (p : Process)
      → IsCounted sends p
      → IsCounted sends (record p { cnt = p.cnt + 1 })
  IsCounted-one_more sends p h = record { a_count_each = h.a_count_each; no_more = h.no_more }

  pub handle_recv-IsCounted :
      (q : ℕ) (sends : List (Option Send)) (p : Process)
      → 1 ≤ e.num_clients
      → IsCounted sends p
      → IsCounted (sends ++ ((handle_recv e v q p).0 ∷ [])) (handle_recv e v q p).1
  unfolding handle_recv
  handle_recv-IsCounted q sends p some_client h =
      let less : Process = record p { posted = p.posted - 1 } in
      let t = (post_recv v 1 less).1 in
      let refilled =
        post_recv-IsCounted 1 sends less
          (record { a_count_each = h.a_count_each; no_more = h.no_more }) in
      let qpi = find_qp e v q in
      let answered = post_send-IsCounted qpi sends t (find_qp-lt q some_client) refilled in
      let u = (post_send e v qpi t).1 in
      elim (Bool-cases (ltb (get_or t.pp_cnt qpi 0) e.num_tests)) [
        | inl left ↦
            rw left (IsCounted-one_more (sends ++ ((post_send e v qpi t).0 ∷ [])) u answered)
        | inr over ↦
            rw over (IsCounted-one_more (sends ++ (none ∷ [])) t (none-IsCounted sends t refilled))
      ]

  first_sends-IsCounted :
      (i left : ℕ) (sends : List (Option Send)) (p : Process)
      → i + left ≤ e.num_clients
      → IsCounted sends p
      → IsCounted (sends ++ (first_sends e v i left p).0) (first_sends e v i left p).1
  unfolding first_sends
  first_sends-IsCounted i zero sends p le h = subst (λ l. IsCounted l p) (sym (append-nil sends)) h
  first_sends-IsCounted i (suc left) sends p le h =
      let (sent, t) = post_send e v i p in
      let one = post_send-IsCounted i sends p (omega arith) h in
      let rest = first_sends-IsCounted (suc i) left (sends ++ (sent ∷ [])) t (omega arith) one in
      let (xs, u) = first_sends e v (suc i) left t in
      subst (λ l. IsCounted l u) (append_assoc sends (sent ∷ []) xs) rest

  pub start-IsCounted :
      (servername : Bool) (sent : List (Option Send)) (p : Process)
      → start e v servername ≡ some (sent, p)
      → IsCounted sent p
  unfolding start
  start-IsCounted servername sent p h = elim (Bool-cases (post_recv v n fresh).0) [
    | inr refused ↦ absurd (ground (arith, refused))
    | inl ok ↦ elim (Bool-cases servername) [
      | inl client ↦
          let same : ([], posted) ≡ (sent, p) = ground (arith, ok, client) in
          subst (λ (x : List (Option Send) × Process). IsCounted x.0 x.1) same begun
      | inr server ↦
          let same : first_sends e v 0 n posted ≡ (sent, p) = ground (arith, ok, server) in
          subst (λ (x : List (Option Send) × Process). IsCounted x.0 x.1) same
            (first_sends-IsCounted 0 n [] posted (omega arith) begun)
    ]
  ]
    where
      n : ℕ
      n = e.num_clients

      fresh : Process
      fresh = record {
        pp_cnt = replicate e.num_clients 0;
        cnt = 0;
        posted = 0;
        recv_calls = 0;
        send_calls = 0;
      }

      posted : Process
      posted = (post_recv v e.num_clients fresh).1

      begun : IsCounted [] posted
      begun = post_recv-IsCounted e.num_clients [] fresh (record {
        a_count_each = length-replicate {A = ℕ} e.num_clients 0;
        no_more = λ i. unfold sent_to in omega arith;
      })
