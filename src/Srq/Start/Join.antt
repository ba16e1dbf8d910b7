-- ===== src/Srq/Start/Join.antt =====
-- The two `main` of rdma-core/srq_pingpong.c find one another.
use ibv_bench.Base.{
  ℕ, suc, ◌-◌, ◌^◌, ◌<◌, ◌≡◌, true, false, Option, some, List, [], ◌∷◌, ◌++◌, map, arith, length,
  replicate, All, Option-cases, inl, inr, zero, subst, none, refl, ap, ◌∙◌, take,
}
use ibv_bench.Wire.Gid.{Gid, IsGid}
use ibv_bench.Wire.Address.{Dest, IsAddress}
use ibv_bench.Qp.{Modify, QueuePair, rc, modify_all, initial_qp, ready_qp, one_hop}
use ibv_bench.Exchange.{Socket, written}
use ibv_bench.Rc.Start.{
  PortInfo, no_gid, no_gid-IsGid, own_address, own_address-IsAddress, IsReported,
}
use ibv_bench.Srq.Arguments.{max_qp}
use ibv_bench.Srq.Connect.{
  Route, Ends, Works, ready_end, first_gid, connect_all-ready, connect_all-works,
}
use ibv_bench.Srq.Exchange.{Talk, returned, waits, message, ends, client_exch_dest}
use ibv_bench.Srq.Exchange.Agree.{
  Arrive, Delivers, client_exch_dest-writes, ClientWorks, ServerWorks, client_exch_dest-works,
  server_exch_dest-works,
}
use ibv_bench.Srq.Start.{
  zero_dest, dest_then, own_from, filled_up, own_dests, Peers, connect_client, join,
}

-- A LID of 16 bits, queue pair numbers of 24, and GIDs of bytes, as the library reports them.
pub record AreReported (info : PortInfo) (gids : ℕ → Gid) (qp_nums : List ℕ) : Type 0 where
  pub lid_16_bits : info.lid < 2 ^ 16
  pub qpn_24_bits : All (λ q. q < 2 ^ 24) qp_nums
  pub gid_bytes : (i : ℕ) → IsGid (gids i)

own_from-IsAddress :
    (info : PortInfo) (gidx : ℕ) (gids : ℕ → Gid) (random : ℕ → ℕ) (i : ℕ) (qs : List ℕ)
    (ds : List Dest)
    → info.lid < 2 ^ 16
    → All (λ q. q < 2 ^ 24) qs
    → ((j : ℕ) → IsGid (gids j))
    → own_from info gidx (λ j. some (gids j)) random i qs ≡ some ds
    → All IsAddress ds
unfolding own_from dest_then
own_from-IsAddress info gidx gids random i [] [] lid qpn g e = tt
own_from-IsAddress info gidx gids random i [] (d ∷ ds) lid qpn g e = absurd (cc)
own_from-IsAddress info gidx gids random i (q ∷ qs) [] lid qpn g e = absurd (ground arith)
own_from-IsAddress info gidx gids random i (q ∷ qs) (d ∷ ds) lid (first, others) g e =
    let reported : IsReported info (gids i) q = record {
      lid_16_bits = lid;
      qpn_24_bits = first;
      gid_bytes = g i;
    } in
    let (one, rest) = split in
    (
      own_address-IsAddress info gidx (gids i) q (random i) d reported one,
      own_from-IsAddress info gidx gids random (suc i) qs ds lid others g rest,
    )
  where
    split :
        (own_address (some info) gidx (some (gids i)) q (random i) ≡ some d)
        × (own_from info gidx (λ j. some (gids j)) random (suc i) qs ≡ some ds)
    split = ground arith

zero_dest-IsAddress : IsAddress zero_dest
zero_dest-IsAddress = record {
  lid_16_bits = omega arith;
  qpn_24_bits = omega arith;
  psn_24_bits = omega arith;
  gid_bytes = no_gid-IsGid;
}

All-filled :
    (n : ℕ) (ds : List Dest) → All IsAddress ds → All IsAddress (ds ++ replicate n zero_dest)
All-filled zero [] h = tt
All-filled (suc n) [] h = (zero_dest-IsAddress, All-filled n [] tt)
All-filled n (d ∷ ds) (first, others) = (first, All-filled n ds others)

pub own_dests-IsAddress :
    (info : PortInfo) (gidx : ℕ) (gids : ℕ → Gid) (random : ℕ → ℕ) (qs : List ℕ) (ds : List Dest)
    → AreReported info gids qs
    → own_dests (some info) gidx (λ j. some (gids j)) random qs ≡ some ds
    → All IsAddress ds
unfolding own_dests filled_up
own_dests-IsAddress info gidx gids random qs ds h e =
    elim (Option-cases (own_from info gidx (λ j. some (gids j)) random 0 qs)) [
      | inl stop ↦ absurd (ground (arith, stop))
      | inr (os, on) ↦
          let own =
            own_from-IsAddress info gidx gids random 0 qs os h.lid_16_bits h.qpn_24_bits h.gid_bytes
              on in
          let same : os ++ replicate (max_qp - length os) zero_dest ≡ ds = ground (arith, on) in
          subst (All IsAddress) same (All-filled (max_qp - length os) os own)
    ]

-- The queue pairs that the calls lead to.
abbrev pub queue_pairs : List (List Modify) → List (Option QueuePair)
queue_pairs = map (λ calls. modify_all calls (initial_qp rc))

-- What a client that works writes, wherever it stands.
pub join-writes_client :
    (d : Peers) (n junk num_qp : ℕ) (route : Route) (mine theirs : List Dest)
    → ClientWorks d.client n theirs
    → written (join true d junk route num_qp (some mine)).1 ≡ map message mine
unfolding join
join-writes_client d n junk num_qp route mine theirs w =
    let says = client_exch_dest-writes d.client n junk mine theirs w in
    let (r, acts) = client_exch_dest d.client junk mine in ap written (same r acts) ∙ says
  where
    same : (r : Talk) (acts : List Socket) → (connect_client d route num_qp mine (r, acts)).1 ≡ acts
    same (returned none) acts = unfold connect_client in refl
    same (returned (some ds)) acts = unfold connect_client in refl
    same waits acts = unfold connect_client in refl

pub join-writes_server :
    (d : Peers) (n junk num_qp : ℕ) (route : Route) (mine theirs : List Dest)
    → All IsAddress theirs
    → ServerWorks d.server n theirs
    → Delivers d.server.reads 0 theirs
    → written (join false d junk route num_qp (some mine)).1 ≡ map message mine
unfolding join
join-writes_server d n junk num_qp route mine theirs h w to =
    (server_exch_dest-works d.server n junk route num_qp mine theirs h w to).2

-- The addresses of the two sides, index by index.
abbrev pub paired : List Dest → List Dest → List (Dest × Dest)
paired (m ∷ ms) (t ∷ ts) = (m, t) ∷ paired ms ts
paired _ _ = []

-- The GID that all address parts have: the first one of the other side.
abbrev pub gid_of_first : List (Dest × Dest) → Gid
gid_of_first [] = no_gid
gid_of_first ((m, t) ∷ ps) = t.gid

-- The first `num_qp` queue pairs, each ready to send to that of the same index on the other side, with
-- both packet numbers of that index, and by the LID of that index and the GID of the first.
abbrev pub ready_for : Route → ℕ → List Dest → List Dest → List (Option QueuePair)
ready_for route num_qp mine theirs =
    let ps = take num_qp (paired mine theirs) in
    map
      (λ (m, t). some (
        ready_qp rc (one_hop route.port route.sl route.sgid_idx)
          (record t { gid = gid_of_first ps }) m.psn))
      ps

abbrev end_of : Dest × Dest → Ends
end_of (m, t) = record { own = m; rem = t }

ends-paired : (n : ℕ) (ms ts : List Dest) → ends n ms ts ≡ map end_of (take n (paired ms ts))
unfolding ends
ends-paired zero [] [] = refl
ends-paired zero [] (t ∷ ts) = refl
ends-paired zero (m ∷ ms) [] = refl
ends-paired zero (m ∷ ms) (t ∷ ts) = refl
ends-paired (suc n) [] [] = refl
ends-paired (suc n) [] (t ∷ ts) = refl
ends-paired (suc n) (m ∷ ms) [] = refl
ends-paired (suc n) (m ∷ ms) (t ∷ ts) =
    ap (λ l. record { own = m; rem = t } ∷ l) (ends-paired n ms ts)

first_gid-paired : (ps : List (Dest × Dest)) → first_gid (map end_of ps) no_gid ≡ gid_of_first ps
unfolding first_gid
first_gid-paired [] = refl
first_gid-paired ((m, t) ∷ ps) = refl

map-end_of :
    (route : Route) (gid : Gid) (ps : List (Dest × Dest))
    → map (ready_end route gid) (map end_of ps)
      ≡ map
          (λ (m, t). some (
            ready_qp rc
              (one_hop route.port route.sl route.sgid_idx)
              (record t { gid = gid })
              m.psn))
          ps
map-end_of route gid [] = refl
map-end_of route gid ((m, t) ∷ ps) =
    ap (λ l. ready_end route gid (record { own = m; rem = t }) ∷ l) (map-end_of route gid ps)

ready_ends :
    (route : Route) (n : ℕ) (ms ts : List Dest)
    → map (ready_end route (first_gid (ends n ms ts) no_gid)) (ends n ms ts)
      ≡ ready_for route n ms ts
ready_ends route n ms ts =
    let ps = take n (paired ms ts) in
    ap (λ es. map (ready_end route (first_gid es no_gid)) es) (ends-paired n ms ts)
    ∙ ap (λ g. map (ready_end route g) (map end_of ps)) (first_gid-paired ps)
    ∙ map-end_of route (gid_of_first ps) ps

-- Where all calls of a client and a server succeed, the own addresses are made of a LID, queue
-- pair numbers and GIDs as the library reports them, and each side reads the messages that the
-- other writes, each in whatever parts, each `main` goes on with the other's whole array of
-- addresses, and with its first `num_qp` queue pairs ready to send to those of the same index.
pub srq_join_agrees :
    (dc ds : Peers) (nc ns junk num_qp : ℕ) (routec routes : Route) (infoc infos : PortInfo)
    (gidxc gidxs : ℕ) (gidc gids : ℕ → Gid) (randomc randoms : ℕ → ℕ) (qpc qps : List ℕ)
    (client server : List Dest)
    → ClientWorks dc.client nc server
    → ServerWorks ds.server ns client
    → Works dc.connect
    → AreReported infoc gidc qpc
    → AreReported infos gids qps
    → own_dests (some infoc) gidxc (λ j. some (gidc j)) randomc qpc ≡ some client
    → own_dests (some infos) gidxs (λ j. some (gids j)) randoms qps ≡ some server
    → Arrive ds.server.reads 0 (written (join true dc junk routec num_qp (some client)).1)
    → Arrive dc.client.reads 0 (written (join false ds junk routes num_qp (some server)).1)
    → let (c_dest, _, c_calls) =
        join true dc junk routec num_qp
          (own_dests (some infoc) gidxc (λ j. some (gidc j)) randomc qpc) in
      let (s_dest, _, s_calls) =
        join false ds junk routes num_qp
          (own_dests (some infos) gidxs (λ j. some (gids j)) randoms qps) in
      (c_dest ≡ returned (some server))
      × (s_dest ≡ returned (some client))
      × (queue_pairs c_calls ≡ ready_for routec num_qp client server)
      × (queue_pairs s_calls ≡ ready_for routes num_qp server client)
unfolding join connect_client
srq_join_agrees dc ds nc ns junk num_qp routec routes infoc infos gidxc gidxs gidc gids randomc
      randoms qpc qps client server wc ws up repc reps ownc owns c_wrote s_wrote =
    let theirs_c = own_dests-IsAddress infos gidxs gids randoms qps server reps owns in
    let theirs_s = own_dests-IsAddress infoc gidxc gidc randomc qpc client repc ownc in
    let to_server : Delivers ds.server.reads 0 client =
      subst (Arrive ds.server.reads 0)
        (join-writes_client dc nc junk num_qp routec client server wc) c_wrote in
    let (s_got, s_calls, s_says) =
      server_exch_dest-works ds.server ns junk routes num_qp server client theirs_s ws to_server in
    let to_client : Delivers dc.client.reads 0 server =
      subst (Arrive dc.client.reads 0) s_says s_wrote in
    let c_got = client_exch_dest-works dc.client nc junk client server theirs_c wc to_client in
    let c_up = connect_all-works routec dc.connect no_gid (ends num_qp client server) up in
    let s_up =
      connect_all-works routes ds.server.connect no_gid (ends num_qp server client) ws.connect_ok in
    let c_ready =
      connect_all-ready routec dc.connect no_gid (ends num_qp client server) c_up
      ∙ ready_ends routec num_qp client server in
    let s_ready =
      connect_all-ready routes ds.server.connect no_gid (ends num_qp server client) s_up
      ∙ ready_ends routes num_qp server client in
    (
      ground (arith, ownc, c_got, c_up),
      ground (arith, owns, s_got),
      rw (ownc, c_got) c_ready,
      rw (owns, s_calls) s_ready,
    )
