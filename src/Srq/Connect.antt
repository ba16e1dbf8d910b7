-- ===== src/Srq/Connect.antt =====
-- rdma-core/srq_pingpong.c: `pp_connect_ctx`, which connects all queue pairs. The address handle of
-- each is filled in from its own destination, but for the GID, which is that of the first one.
use ibv_bench.Base.{
  ℕ, suc, ◌≡◌, refl, ap₂, Bool, true, false, Option, some, List, [], ◌∷◌, map, arith, Bool-cases,
  inl, inr, if◌then◌else◌,
}
use ibv_bench.Wire.Gid.{Gid, Mtu}
use ibv_bench.Wire.Address.{Dest}
use ibv_bench.Rc.Connect.{
  ConnectAnswers, pp_connect_ctx, pp_connect_ctx-legal, pp_connect_ctx-ready,
}
use ibv_bench.Qp.{rc, Modify, modify_all, initial_qp, ready_qp, one_hop, QueuePair}

-- The arguments of the function besides the two arrays of addresses.
pub record Route : Type 0 where
  pub port : ℕ
  pub mtu : Mtu
  pub sl : ℕ
  pub sgid_idx : ℕ

-- `my_dest[i]` and `dest[i]`.
pub record Ends : Type 0 where
  pub own : Dest
  pub rem : Dest

-- All calls of `ibv_modify_qp` succeed.
abbrev pub Works : (ℕ → ConnectAnswers) → Type 0
Works d = (i : ℕ) → ((d i).rtr_ok ≡ true) × ((d i).rts_ok ≡ true)

module _ (route : Route) (gid : Gid) where
  -- A queue pair that is ready to send to the other one of its index, but by the GID.
  abbrev pub ready_end : Ends → Option QueuePair
  ready_end e = some (
      ready_qp rc (one_hop route.port route.sl route.sgid_idx) (record e.rem { gid = gid })
        e.own.psn)

module _ (route : Route) (gid : Gid) (d : ℕ → ConnectAnswers) where
  -- One round of the loop: the two calls are those of the program with one queue pair.
  connect_qp : ℕ → Ends → Bool × List Modify
  connect_qp i e =
      pp_connect_ctx (d i) route.port e.own.psn route.mtu route.sl (record e.rem { gid = gid })
        route.sgid_idx

  -- The rounds from `i` on, up to the first that fails: the calls on each queue pair.
  connect_from : ℕ → List Ends → Bool × List (List Modify)
  unfolding connect_qp
  connect_from i [] = (true, [])
  connect_from i (e ∷ es) =
      let (ok, calls) = connect_qp i e in
      let rest = connect_from (suc i) es in
      if ok then (rest.0, calls ∷ rest.1) else (false, calls ∷ [])

  connect_from-works : (i : ℕ) (es : List Ends) → Works d → (connect_from i es).0 ≡ true
  unfolding connect_from connect_qp
  connect_from-works i [] w = refl
  connect_from-works i (e ∷ es) w =
      let legal =
        pp_connect_ctx-legal (d i) route.port e.own.psn route.mtu route.sl
          (record e.rem { gid = gid }) route.sgid_idx in
      ground (arith, legal.0, w i, connect_from-works (suc i) es w)

  connect_from-ready :
      (i : ℕ) (es : List Ends)
      → (connect_from i es).0 ≡ true
      → map (λ calls. modify_all calls (initial_qp rc)) (connect_from i es).1
        ≡ map (ready_end route gid) es
  unfolding connect_from
  connect_from-ready i [] h = refl
  connect_from-ready i (e ∷ es) h = elim (Bool-cases (connect_qp i e).0) [
    | inr failed ↦ absurd (ground (arith, failed))
    | inl done ↦
        let rest = connect_from-ready (suc i) es (ground (arith, done)) in
        rw done (ap₂ ◌∷◌ (qp_ready done) rest)
  ]
    where
      qp_ready :
          (connect_qp i e).0 ≡ true
          → modify_all (connect_qp i e).1 (initial_qp rc) ≡ ready_end route gid e
      qp_ready done =
          unfold connect_qp in
          pp_connect_ctx-ready (d i) route.port e.own.psn route.mtu route.sl
            (record e.rem { gid = gid }) route.sgid_idx done

-- The GID of `dest` is that of `dest[0]`.
unfoldable pub first_gid : List Ends → Gid → Gid
first_gid [] none_used = none_used
first_gid (e ∷ es) none_used = e.rem.gid

unfoldable pub connect_all :
    Route → (ℕ → ConnectAnswers) → Gid → List Ends → Bool × List (List Modify)
unfolding connect_from first_gid
connect_all route d none_used es = connect_from route (first_gid es none_used) d 0 es

-- Where `pp_connect_ctx` returns 0, every queue pair has been led to ready to send, to the queue
-- pair of the same index on the other side, with both packet numbers of that index, and by the LID of
-- that index and the GID of the first.
pub connect_all-ready :
    (route : Route) (d : ℕ → ConnectAnswers) (none_used : Gid) (es : List Ends)
    → (connect_all route d none_used es).0 ≡ true
    → map (λ calls. modify_all calls (initial_qp rc)) (connect_all route d none_used es).1
      ≡ map (ready_end route (first_gid es none_used)) es
unfolding connect_all first_gid
connect_all-ready route d none_used es done =
    connect_from-ready route (first_gid es none_used) d 0 es done

pub connect_all-works :
    (route : Route) (d : ℕ → ConnectAnswers) (none_used : Gid) (es : List Ends)
    → Works d
    → (connect_all route d none_used es).0 ≡ true
unfolding connect_all
connect_all-works route d none_used es w =
    connect_from-works route (first_gid es none_used) d 0 es w
