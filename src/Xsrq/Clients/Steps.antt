-- ===== src/Xsrq/Clients/Steps.antt =====
-- That every step keeps what holds of the server and its clients of rdma-core/xsrq_pingpong.c.
use ibv_bench.Base.{
  ℕ, suc, ◌+◌, ◌-◌, ◌≤◌, ◌<◌, ◌≡◌, refl, sym, ap, subst, ◌∙◌, true, none, some, [], arith, get_or,
  set, get_elem?, replicate, length, inl, inr, dec_lt, length-set, get_elem?-set_self,
  length-replicate,
}
use ibv_bench.Xsrq.Messages.{Process, post_recv, start, post_send, find_qp, handle_recv}
use ibv_bench.Xsrq.Messages.Answer.{
  post_recv-all, post_send-sends, find_qp-eq, handle_recv-answers, handle_recv-last,
}
use ibv_bench.Xsrq.Clients.{
  Setting, IsUsable, Link, Net, idle_link, initial, client_settings, deliver, server_started,
  server_took, starts, client_receives, server_receives, Reach, at_start, after,
}
use ibv_bench.Xsrq.Clients.Links.{
  get_or-set_self, get_or-set_ne, get_or-replicate, get_elem?-replicate, in_range, set-set,
  some_link, sent_to, deliver-eq, none_got, none_counted,
}
use ibv_bench.Xsrq.Clients.Invariant.{
  LinkInv, Inv, client_receives-Inv, server-Inv, sent_to-LinkInv,
}

module _ (e : Setting) (good : IsUsable e) where
  starts-Inv :
      (n : ℕ) (y : Net)
      → Inv e n y
      → y.started < e.server.num_clients
      → Inv e (suc n) (server_started e y)
  unfolding server_started
  starts-Inv n y h lt =
      let (l, at) = some_link y.links y.started (omega (arith, h.links_length)) in
      let li = h.each y.started l at in
      let zero_yet = h.unopened y.started (omega arith) in
      let ((x, sent, to), counted, posted, pp) =
        post_send-sends e.server e.verbs y.started y.server good.sends in
      let s = (post_send e.server e.verbs y.started y.server).1 in
      let in_counts : y.started < length y.server.pp_cnt = omega (arith, h.counts_length) in
      let one : get_or s.pp_cnt y.started 0 ≡ get_or y.server.pp_cnt y.started 0 + 1 =
        ap (λ c. get_or c y.started 0) pp ∙ get_or-set_self y.server.pp_cnt y.started _ in_counts in
      let quiet : l.to_client + l.to_server ≡ 0 = omega (arith, li.counted, li.behind, zero_yet) in
      let room : get_or y.server.pp_cnt y.started 0 < e.server.num_tests =
        omega (arith, zero_yet, good.some_test) in
      subst (λ ls. Inv e (suc n) (record { server = s; started = y.started + 1; links = ls }))
        (sym (ap (λ o. deliver o y.links) sent ∙ deliver-eq x y.started y.links l to at))
        (server-Inv e good n (suc n) (y.started + 1) y y.started l (sent_to l) s h at refl
          (ap length pp ∙ length-set y.server.pp_cnt y.started _)
          (λ j other. ap (λ c. get_or c j 0) pp ∙ get_or-set_ne y.server.pp_cnt y.started j _ other)
          (omega (arith, one))
          (subst (λ c. LinkInv e.server.num_tests c (sent_to l)) (sym one)
            (sent_to-LinkInv e good (get_or y.server.pp_cnt y.started 0) l li quiet room))
          posted (omega (arith, counted)) (omega arith) (omega arith) (omega (arith, lt))
          (λ j below other. grind (arith, below, other)) (omega (arith, counted)))

  -- The message of a client has been received.
  abbrev taken_from : Link → Link
  taken_from l = record l { to_server = l.to_server - 1 }

  server_receives-Inv :
      (n : ℕ) (y : Net) (i : ℕ) (l : Link)
      → Inv e n y
      → get_elem? y.links i ≡ some l
      → 1 ≤ l.to_server
      → y.started ≡ e.server.num_clients
      → Inv e (suc n) (server_took e i l y)
  unfolding server_took
  server_receives-Inv n y i l h at pos all =
      elim (dec_lt (get_or y.server.pp_cnt i 0) e.server.num_tests) [
        | yes left ↦
            let ((x, sent, to), counted, posted, pp) =
              handle_recv-answers e.server e.verbs good.recvs good.sends (e.server.qp_num i) i found
                y.server some_posted left in
            let one : get_or s.pp_cnt i 0 ≡ get_or y.server.pp_cnt i 0 + 1 =
              ap (λ c. get_or c i 0) pp ∙ get_or-set_self y.server.pp_cnt i _ in_counts in
            let links : deliver (some x) (set y.links i (taken_from l))
                ≡ set y.links i (sent_to (taken_from l)) =
              deliver-eq x i (set y.links i (taken_from l)) (taken_from l) to
                (get_elem?-set_self y.links i (taken_from l) lt)
              ∙ set-set y.links i (taken_from l) (sent_to (taken_from l)) in
            subst (λ ls. Inv e (suc n) (record { server = s; started = y.started; links = ls }))
              (sym (ap (λ o. deliver o (set y.links i (taken_from l))) sent ∙ links))
              (server-Inv e good n (suc n) y.started y i l (sent_to (taken_from l)) s h at refl
                (ap length pp ∙ length-set y.server.pp_cnt i _)
                (λ j other. ap (λ c. get_or c j 0) pp ∙ get_or-set_ne y.server.pp_cnt i j _ other)
                (omega (arith, one))
                (subst (λ c. LinkInv e.server.num_tests c (sent_to (taken_from l))) (sym one)
                  (answered_again left))
                posted (omega (arith, counted, li.few, li.behind, pos))
                (omega (arith, lt, all, h.links_length)) (omega arith) h.started_bound
                (λ j below other. below) (omega (arith, counted)))
        | no over ↦
            let (sent, counted, posted, pp) =
              handle_recv-last e.server e.verbs good.recvs good.sends (e.server.qp_num i) i found
                y.server some_posted (omega (arith, over)) in
            let kept : (j : ℕ) → get_or s.pp_cnt j 0 ≡ get_or y.server.pp_cnt j 0 =
              λ j. ap (λ c. get_or c j 0) pp in
            subst (λ ls. Inv e (suc n) (record { server = s; started = y.started; links = ls }))
              (sym (ap (λ o. deliver o (set y.links i (taken_from l))) sent ∙ nothing_sent))
              (server-Inv e good n (suc n) y.started y i l (taken_from l) s h at refl (ap length pp)
                (λ j other. kept j) (omega (arith, kept i, over, good.some_test))
                (subst (λ c. LinkInv e.server.num_tests c (taken_from l)) (sym (kept i))
                  (last_one over))
                posted (omega (arith, counted, li.few, li.behind, pos))
                (omega (arith, lt, all, h.links_length)) (omega arith) h.started_bound
                (λ j below other. below) (omega (arith, counted)))
      ]
    where
      s : Process
      s = (handle_recv e.server e.verbs (e.server.qp_num i) y.server).1

      lt : i < length y.links
      lt = in_range y.links i l at

      in_counts : i < length y.server.pp_cnt
      in_counts = omega (arith, lt, h.counts_length, h.links_length)

      found : find_qp e.server e.verbs (e.server.qp_num i) ≡ i
      found = find_qp-eq e.server e.verbs good.distinct i (omega (arith, lt, h.links_length))

      some_posted : 1 ≤ y.server.posted
      some_posted = omega (arith, h.posted, good.some_client)

      li : LinkInv e.server.num_tests (get_or y.server.pp_cnt i 0) l
      li = h.each i l at

      nothing_sent : deliver none (set y.links i (taken_from l)) ≡ set y.links i (taken_from l)
      nothing_sent = unfold deliver in refl

      answered_again :
          get_or y.server.pp_cnt i 0 < e.server.num_tests
          → LinkInv e.server.num_tests (get_or y.server.pp_cnt i 0 + 1) (sent_to (taken_from l))
      answered_again left = record {
        one_count = li.one_count;
        one_posted = li.one_posted;
        answered = li.answered;
        counted = omega (arith, li.counted);
        bound = omega (arith, left);
        few = omega (arith, li.few, pos);
        behind = omega (arith, li.behind);
        token = inl (omega (arith, li.few, pos));
      }

      last_one :
          ¬ (get_or y.server.pp_cnt i 0 < e.server.num_tests)
          → LinkInv e.server.num_tests (get_or y.server.pp_cnt i 0) (taken_from l)
      last_one over = record {
        one_count = li.one_count;
        one_posted = li.one_posted;
        answered = li.answered;
        counted = li.counted;
        bound = li.bound;
        few = omega (arith, li.few);
        behind = omega (arith, li.behind);
        token = inr (inr (omega (arith, li.bound, over)));
      }

  initial-Inv : Inv e 0 (initial e)
  unfolding initial
  initial-Inv = record {
    counts_length = length-replicate e.server.num_clients 0;
    links_length = length-replicate e.server.num_clients idle_link;
    posted = refl;
    started_bound = omega arith;
    received = sym (none_got e.server.num_clients);
    steps_taken = omega (arith, none_counted e.server.num_clients);
    opened = λ i lt. absurd (omega (arith, lt));
    unopened = λ i le. get_or-replicate e.server.num_clients i;
    each = λ i l at.
        subst (λ x. LinkInv e.server.num_tests (get_or (replicate e.server.num_clients 0) i 0) x)
          (get_elem?-replicate e.server.num_clients i l at)
          (subst (λ c. LinkInv e.server.num_tests c idle_link)
            (sym (get_or-replicate e.server.num_clients i)) (idle-LinkInv e.server.num_tests));
  }
    where
      idle-LinkInv : (tests : ℕ) → LinkInv tests 0 idle_link
      idle-LinkInv tests = record {
        one_count = refl;
        one_posted = refl;
        answered = refl;
        counted = refl;
        bound = omega arith;
        few = omega arith;
        behind = omega arith;
        token = inr (inl refl);
      }

  pub Reach-Inv : {n : ℕ} {y : Net} → Reach e n y → Inv e n y
  Reach-Inv at_start = initial-Inv
  Reach-Inv (after {n} r (starts y lt)) = starts-Inv n y (Reach-Inv r) lt
  Reach-Inv (after {n} r (client_receives y i l at pos)) =
      client_receives-Inv e good n y i l (Reach-Inv r) at pos
  Reach-Inv (after {n} r (server_receives y i l at pos all)) =
      server_receives-Inv n y i l (Reach-Inv r) at pos all

  -- The state at the start is what the code of the server, behind its receives, and of each client
  -- comes to.
  initial-start :
      let begun : ℕ → Process = λ n. record {
        pp_cnt = replicate n 0;
        cnt = 0;
        posted = 0;
        recv_calls = 0;
        send_calls = 0;
      } in
      (post_recv e.verbs e.server.num_clients (begun e.server.num_clients)
        ≡ (true, (initial e).server))
      × (start (client_settings e) e.verbs true ≡ some ([], idle_link.client))
  unfolding initial start post_recv
  initial-start = (
    post_recv-all e.verbs good.recvs e.server.num_clients _ ∙ ground arith,
    ground (arith, good.recvs 0),
  )
