-- ===== src/Xsrq/Clients/Invariant.antt =====
-- What holds of the server and its clients of rdma-core/xsrq_pingpong.c, and that a client keeps it.
use ibv_bench.Base.{
  ℕ, suc, ◌+◌, ◌≤◌, ◌<◌, ◌≡◌, ◌≢◌, refl, sym, ap, subst, ◌∙◌, some, List, arith, ◌==◌, get_or, set,
  get_elem?, length, ◌⊎◌, inl, inr, Bool-cases, length-set, get_elem?-set_self, get_elem?-set_ne,
}
use ibv_bench.Xsrq.Messages.{Process, find_qp}
use ibv_bench.Xsrq.Messages.Answer.{handle_recv-answers}
use ibv_bench.Xsrq.Clients.{Setting, IsUsable, Link, Net, client_settings, client_took}
use ibv_bench.Xsrq.Clients.Links.{
  get_or-set_self, total_got, total_counted, total_got-set, total_counted-set, in_range, sent_to,
  got,
}

-- A client, against the `pp_cnt` that the server keeps for it.
pub record LinkInv (tests spp : ℕ) (l : Link) : Type 0 where
  pub one_count : length l.client.pp_cnt ≡ 1
  pub one_posted : l.client.posted ≡ 1
  pub answered : get_or l.client.pp_cnt 0 0 ≡ l.client.cnt
  pub counted : l.client.cnt + l.to_client ≡ spp
  pub bound : spp ≤ tests
  pub few : l.to_client + l.to_server ≤ 1
  pub behind : l.to_server ≤ l.client.cnt
  pub token : (l.to_client + l.to_server ≡ 1) ⊎ ((spp ≡ 0) ⊎ (spp ≡ tests))

pub record Inv (e : Setting) (steps : ℕ) (y : Net) : Type 0 where
  pub counts_length : length y.server.pp_cnt ≡ e.server.num_clients
  pub links_length : length y.links ≡ e.server.num_clients
  pub posted : y.server.posted ≡ e.server.num_clients
  pub started_bound : y.started ≤ e.server.num_clients
  pub received : y.server.cnt ≡ total_got y.links
  pub steps_taken : steps ≡ y.started + y.server.cnt + total_counted y.links
  pub opened : (i : ℕ) → i < y.started → 1 ≤ get_or y.server.pp_cnt i 0
  pub unopened : (i : ℕ) → y.started ≤ i → get_or y.server.pp_cnt i 0 ≡ 0
  pub each :
      (i : ℕ) (l : Link)
      → get_elem? y.links i ≡ some l
      → LinkInv e.server.num_tests (get_or y.server.pp_cnt i 0) l

-- What holds of each client still does when one of them and its `pp_cnt` change.
each-set :
    (tests : ℕ) (f g : ℕ → ℕ) (links : List Link) (i : ℕ) (k : Link)
    → i < length links
    → ((j : ℕ) (l : Link) → get_elem? links j ≡ some l → LinkInv tests (f j) l)
    → ((j : ℕ) → i ≢ j → g j ≡ f j)
    → LinkInv tests (g i) k
    → (j : ℕ) (l : Link) → get_elem? (set links i k) j ≡ some l
    → LinkInv tests (g j) l
each-set tests f g links i k lt old others new j l h = elim (Bool-cases (i == j)) [
  | inl e ↦
      let same : i ≡ j = ground (arith, e) in
      let it : k ≡ l = ground (arith, same, get_elem?-set_self links i k lt) in
      subst (λ x. LinkInv tests x l) (ap g same) (subst (λ x. LinkInv tests (g i) x) it new)
  | inr e ↦
      let other : i ≢ j = ground (arith, e) in
      subst (λ x. LinkInv tests x l) (sym (others j other))
        (old j l (sym (get_elem?-set_ne links k other) ∙ h))
]

module _ (e : Setting) (good : IsUsable e) where
  client_took-LinkInv :
      (spp : ℕ) (l : Link)
      → LinkInv e.server.num_tests spp l
      → 1 ≤ l.to_client
      → LinkInv e.server.num_tests spp (client_took e l)
        × (got (client_took e l) ≡ got l)
        × ((client_took e l).client.cnt ≡ l.client.cnt + 1)
  unfolding client_took
  client_took-LinkInv spp l h pos =
      let ((x, sent, _), counted, posted, pp) =
        handle_recv-answers (client_settings e) e.verbs good.recvs good.sends 0 0
          (unfold find_qp in refl) l.client (omega (arith, h.one_posted))
          (omega (arith, h.answered, h.counted, h.bound)) in
      (
        record {
          one_count = ap length pp ∙ length-set l.client.pp_cnt 0 _ ∙ h.one_count;
          one_posted = posted ∙ h.one_posted;
          answered =
              ap (λ c. get_or c 0 0) pp
              ∙ get_or-set_self l.client.pp_cnt 0 _ (omega (arith, h.one_count))
              ∙ omega (arith, h.answered, counted);
          counted = omega (arith, counted, h.counted);
          bound = h.bound;
          few = ground (arith, sent, h.few);
          behind = ground (arith, sent, counted, h.few);
          token = inl (ground (arith, sent, h.few));
        },
        ground (arith, sent, counted, h.few),
        counted,
      )

  pub client_receives-Inv :
      (n : ℕ) (y : Net) (i : ℕ) (l : Link)
      → Inv e n y
      → get_elem? y.links i ≡ some l
      → 1 ≤ l.to_client
      → Inv e (suc n) (record y { links = set y.links i (client_took e l) })
  client_receives-Inv n y i l h at pos =
      let (new, same_got, more) =
        client_took-LinkInv (get_or y.server.pp_cnt i 0) l (h.each i l at) pos in
      let lt = in_range y.links i l at in
      record {
        counts_length = h.counts_length;
        links_length = length-set y.links i _ ∙ h.links_length;
        posted = h.posted;
        started_bound = h.started_bound;
        received =
            omega (arith, h.received, total_got-set y.links i l (client_took e l) at, same_got);
        steps_taken =
            omega (arith, h.steps_taken, total_counted-set y.links i l (client_took e l) at, more);
        opened = h.opened;
        unopened = h.unopened;
        each =
            each-set e.server.num_tests (λ j. get_or y.server.pp_cnt j 0)
              (λ j. get_or y.server.pp_cnt j 0) y.links i (client_took e l) lt h.each
              (λ j other. refl) new;
      }

  -- The server changes, but of its `pp_cnt` only the one for the client `i`, which becomes `k`.
  pub server-Inv :
      (n n' m : ℕ) (y : Net) (i : ℕ) (l k : Link) (s : Process)
      → Inv e n y
      → get_elem? y.links i ≡ some l
      → k.client ≡ l.client
      → length s.pp_cnt ≡ length y.server.pp_cnt
      → ((j : ℕ) → i ≢ j → get_or s.pp_cnt j 0 ≡ get_or y.server.pp_cnt j 0)
      → 1 ≤ get_or s.pp_cnt i 0
      → LinkInv e.server.num_tests (get_or s.pp_cnt i 0) k
      → s.posted ≡ y.server.posted
      → s.cnt + got l ≡ y.server.cnt + got k
      → i < m
      → y.started ≤ m
      → m ≤ e.server.num_clients
      → ((j : ℕ) → j < m → i ≢ j → j < y.started)
      → n' + y.started + y.server.cnt ≡ n + m + s.cnt
      → Inv e n' (record { server = s; started = m; links = set y.links i k })
  server-Inv n n' m y i l k s h at same len others pos new posted counted lt up bound old steps =
      record {
        counts_length = len ∙ h.counts_length;
        links_length = length-set y.links i k ∙ h.links_length;
        posted = posted ∙ h.posted;
        started_bound = bound;
        received = omega (arith, h.received, total_got-set y.links i l k at, counted);
        steps_taken =
            omega (
              arith,
              h.steps_taken,
              total_counted-set y.links i l k at,
              ap (λ c. c.cnt) same,
              steps,
            );
        opened = λ j below. elim (Bool-cases (i == j)) [
          | inl eq ↦
              let it : i ≡ j = ground (arith, eq) in subst (λ x. 1 ≤ get_or s.pp_cnt x 0) it pos
          | inr ne ↦
              let other : i ≢ j = ground (arith, ne) in
              omega (arith, others j other, h.opened j (old j below other))
        ];
        unopened = λ j above.
            let other : i ≢ j = λ eq. omega (arith, eq) in
            others j other ∙ h.unopened j (omega arith);
        each =
            each-set e.server.num_tests (λ j. get_or y.server.pp_cnt j 0) (λ j. get_or s.pp_cnt j 0)
              y.links i k (in_range y.links i l at) h.each others new;
      }

  -- With no message under way to the client, the server sends it one.
  pub sent_to-LinkInv :
      (spp : ℕ) (l : Link)
      → LinkInv e.server.num_tests spp l
      → l.to_client + l.to_server ≡ 0
      → spp < e.server.num_tests
      → LinkInv e.server.num_tests (spp + 1) (sent_to l)
  sent_to-LinkInv spp l h quiet room = record {
    one_count = h.one_count;
    one_posted = h.one_posted;
    answered = h.answered;
    counted = omega (arith, h.counted);
    bound = omega arith;
    few = omega arith;
    behind = h.behind;
    token = inl (omega arith);
  }
