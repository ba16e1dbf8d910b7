-- ===== src/Xsrq/Setup/Balance.antt =====
-- What `pp_init_ctx` and `pp_close_ctx` of rdma-core/xsrq_pingpong.c acquire and release.
use ibv_bench.Base.{
  ℕ, zero, suc, ◌+◌, ◌≡◌, ◌≢◌, ◌↔◌, sym, subst, Bool, true, false, ◌&&◌, ◌||◌, not, Option, none,
  some, List, [], ◌∷◌, ◌++◌, arith, ◌==◌, if◌then◌else◌,
}
use ibv_bench.Rc.Start.{choose_device}
use ibv_bench.Xsrq.Setup.{
  Resource, recv_array, send_array, dest_array, device, work_buf, comp_channel, pd, mr, domain_file,
  xrcd, recv_cq, send_cq, srq, Action, acquire, release, create_recv, create_send, destroy_recv,
  destroy_send, close_socket, Options, Answers, Result, create_qps, create_queues, open_domain,
  create_channel, open_device, allocated, pp_init_ctx, CloseAnswers, Context, close_shared,
  close_qps, pp_close_ctx,
}

number : Resource → ℕ
number recv_array = 0
number send_array = 1
number dest_array = 2
number device = 3
number work_buf = 4
number comp_channel = 5
number pd = 6
number mr = 7
number domain_file = 8
number xrcd = 9
number recv_cq = 10
number send_cq = 11
number srq = 12

-- What is made from a resource, so that it must be gone before.
users : Resource → List Resource
users device = comp_channel ∷ pd ∷ xrcd ∷ recv_cq ∷ send_cq ∷ srq ∷ []
users work_buf = mr ∷ []
users comp_channel = recv_cq ∷ []
users pd = mr ∷ srq ∷ []
users xrcd = srq ∷ []
users domain_file = xrcd ∷ []
users recv_cq = srq ∷ []
users _ = []

is_held : Resource → List Resource → Bool
unfolding number
is_held r [] = false
is_held r (t ∷ shared) = number r == number t || is_held r shared

any_held : List Resource → List Resource → Bool
unfolding is_held
any_held [] shared = false
any_held (r ∷ rs) shared = is_held r shared || any_held rs shared

without : Resource → List Resource → List Resource
unfolding number
without r [] = []
without r (t ∷ shared) = if number r == number t then shared else t ∷ without r shared

-- What is held: the shared resources, and the queue pairs, which are created and destroyed in the
-- order of their indexes: how many of each kind are created and how many destroyed.
pub record Held : Type 0 where
  pub shared : List Resource
  pub recvs : ℕ
  pub sends : ℕ
  pub recvs_gone : ℕ
  pub sends_gone : ℕ

-- What is held after some actions. It is an error to create or destroy a queue pair out of order, to
-- destroy one that was not created, to release what is not held, or what something that is held was
-- made from, or to release anything while a queue pair is held.
pub replay : List Action → Held → Option Held
unfolding is_held any_held users without
replay [] h = some h
replay (acquire r ∷ acts) h = replay acts (record h { shared = r ∷ h.shared })
replay (release r ∷ acts) h =
    let rest = replay acts (record h { shared = without r h.shared }) in
    if is_held r h.shared
      && (not (any_held (users r) h.shared) && (h.recvs == h.recvs_gone && h.sends == h.sends_gone))
    then rest
    else none
replay (create_recv i ∷ acts) h =
    let rest = replay acts (record h { recvs = h.recvs + 1 }) in if i == h.recvs then rest else none
replay (create_send i ∷ acts) h =
    let rest = replay acts (record h { sends = h.sends + 1 }) in if i == h.sends then rest else none
replay (destroy_recv i ∷ acts) h =
    let rest = replay acts (record h { recvs_gone = h.recvs_gone + 1 }) in
    if i == h.recvs_gone && not (h.recvs == h.recvs_gone) then rest else none
replay (destroy_send i ∷ acts) h =
    let rest = replay acts (record h { sends_gone = h.sends_gone + 1 }) in
    if i == h.sends_gone && not (h.sends == h.sends_gone) then rest else none
replay (close_socket i ∷ acts) h = replay acts h

abbrev at_mr : Bool → List Resource
at_mr channel =
    mr
    ∷ pd
    ∷ (if channel
        then comp_channel ∷ work_buf ∷ device ∷ dest_array ∷ send_array ∷ recv_array ∷ []
        else work_buf ∷ device ∷ dest_array ∷ send_array ∷ recv_array ∷ [])

abbrev at_file : Bool → Bool → List Resource
at_file channel has_file = if has_file then domain_file ∷ at_mr channel else at_mr channel

-- All shared resources of a finished context.
abbrev pub all_shared : Bool → Bool → List Resource
all_shared channel has_file = srq ∷ send_cq ∷ recv_cq ∷ xrcd ∷ at_file channel has_file

abbrev pub nothing : Held
nothing = record { shared = []; recvs = 0; sends = 0; recvs_gone = 0; sends_gone = 0 }

-- A finished context with `n` queue pairs of each kind, of which the first `lo` are destroyed.
abbrev pub full : Bool → Bool → ℕ → ℕ → Held
full channel has_file n lo = record {
  shared = all_shared channel has_file;
  recvs = n;
  sends = n;
  recvs_gone = lo;
  sends_gone = lo;
}

-- A part of `pp_init_ctx` that succeeds leads to a finished context.
abbrev Builds : Options → Answers → Result → Held → Type 0
Builds o d r before =
    r.0 ≡ true → replay r.1 before ≡ some (full o.use_event d.file_ok o.num_clients 0)

module _ (o : Options) (d : Answers) where
  create_qps-Builds :
      (i left : ℕ)
      → i + left ≡ o.num_clients
      → Builds o d
          (create_qps o d i left)
          (record nothing { shared = all_shared o.use_event d.file_ok; recvs = i; sends = i })
  unfolding create_qps replay
  create_qps-Builds i zero h ok = let same : i ≡ o.num_clients = omega arith in ground (arith, same)
  create_qps-Builds i (suc left) h ok =
      ground (arith, ok, create_qps-Builds (suc i) left (omega arith))

  create_queues-Builds :
      Builds o d
        (create_queues o d)
        (record nothing { shared = xrcd ∷ at_file o.use_event d.file_ok })
  unfolding create_queues replay
  create_queues-Builds ok = ground (arith, ok, create_qps-Builds 0 o.num_clients (omega arith))

  create_channel-Builds :
      Builds o d
        (create_channel o d)
        (record nothing { shared = work_buf ∷ device ∷ dest_array ∷ send_array ∷ recv_array ∷ [] })
  unfolding create_channel open_domain replay
  create_channel-Builds ok = ground (arith, ok, create_queues-Builds)

  open_device-Builds :
      (index : Option ℕ)
      → Builds o d
          (open_device o d index)
          (record nothing { shared = dest_array ∷ send_array ∷ recv_array ∷ [] })
  unfolding open_device replay
  open_device-Builds none ok = cc
  open_device-Builds (some index) ok = ground (arith, ok, create_channel-Builds)

  -- When `pp_init_ctx` returns 0 it holds everything: the arrays, the device, the buffer, the
  -- domain, the completion queues, the shared receive queue, `num_clients` queue pairs of each kind,
  -- and the channel and the file exactly where these were asked for and could be opened.
  pub pp_init_ctx-Builds :
      (pp_init_ctx o d).0 ≡ true
      → replay (pp_init_ctx o d).1 nothing ≡ some (full o.use_event d.file_ok o.num_clients 0)
  unfolding pp_init_ctx allocated replay
  pp_init_ctx-Builds ok =
      ground (arith, ok, open_device-Builds (choose_device d.devices o.ib_devname))

-- The outcome of a part of `pp_close_ctx`: nothing illegal, and nothing held exactly on success.
abbrev pub empty : ℕ → Held
empty n = record { shared = []; recvs = n; sends = n; recvs_gone = n; sends_gone = n }

abbrev Closes : Result → Held → ℕ → Type 0
Closes (ok, acts) before n =
    (replay acts before ≢ none) × ((ok ≡ true) ↔ (replay acts before ≡ some (empty n)))

close_shared-Closes :
    (d : CloseAnswers) (c : Context) (n : ℕ)
    → Closes (close_shared d c) (full c.channel c.has_file n n) n
unfolding close_shared replay
close_shared-Closes d c n = (ground arith, (λ h. ground arith, λ h. ground arith))

close_qps-Closes :
    (d : CloseAnswers) (c : Context) (n lo left : ℕ)
    → lo + left ≡ n
    → Closes (close_qps d c lo left) (full c.channel c.has_file n lo) n
unfolding close_qps replay
close_qps-Closes d c n lo zero e =
    let same : lo ≡ n = omega arith in
    subst (λ k. Closes (close_shared d c) (full c.channel c.has_file n k) n) (sym same)
      (close_shared-Closes d c n)
close_qps-Closes d c n lo (suc left) e =
    let rest = close_qps-Closes d c n (suc lo) left (omega arith) in
    let more : (n == lo) ≡ false = ground arith in
    (
      ground (arith, more, rest.0),
      (λ h. ground (arith, more, rest.1.0), λ h. ground (arith, more, rest.1.1)),
    )

-- On a finished context `pp_close_ctx` destroys and releases only what is held, nothing before what
-- was made from it, and nothing is held any more exactly when it returns 0.
pub pp_close_ctx-Closes :
    (d : CloseAnswers) (c : Context) (num_clients : ℕ)
    → let (ok, acts) = pp_close_ctx d c num_clients in
      (replay acts (full c.channel c.has_file num_clients 0) ≢ none)
      × ((ok ≡ true)
          ↔ (replay acts (full c.channel c.has_file num_clients 0) ≡ some (empty num_clients)))
unfolding pp_close_ctx
pp_close_ctx-Closes d c num_clients = close_qps-Closes d c num_clients 0 num_clients (omega arith)

replay-append :
    (acts more : List Action) (h k : Held)
    → replay acts h ≡ some k
    → replay (acts ++ more) h ≡ replay more k
unfolding replay
replay-append [] more h k e = ground arith
replay-append (acquire r ∷ acts) more h k e =
    replay-append acts more (record h { shared = r ∷ h.shared }) k e
replay-append (release r ∷ acts) more h k e =
    ground (arith, e, replay-append acts more (record h { shared = without r h.shared }) k)
replay-append (create_recv i ∷ acts) more h k e =
    ground (arith, e, replay-append acts more (record h { recvs = h.recvs + 1 }) k)
replay-append (create_send i ∷ acts) more h k e =
    ground (arith, e, replay-append acts more (record h { sends = h.sends + 1 }) k)
replay-append (destroy_recv i ∷ acts) more h k e =
    ground (arith, e, replay-append acts more (record h { recvs_gone = h.recvs_gone + 1 }) k)
replay-append (destroy_send i ∷ acts) more h k e =
    ground (arith, e, replay-append acts more (record h { sends_gone = h.sends_gone + 1 }) k)
replay-append (close_socket i ∷ acts) more h k e = replay-append acts more h k e

-- Where `pp_init_ctx` returns 0, and `ctx` shows a channel and a file where they were opened,
-- `pp_close_ctx` behind it destroys and releases only what is held, nothing before what was made from
-- it, and nothing is held any more exactly when it returns 0.
pub set_up-Closes :
    (o : Options) (d : Answers) (close : CloseAnswers) (c : Context)
    → (pp_init_ctx o d).0 ≡ true
    → c.channel ≡ o.use_event
    → c.has_file ≡ d.file_ok
    → let (ok, acts) = pp_close_ctx close c o.num_clients in
      let all = (pp_init_ctx o d).1 ++ acts in
      (replay all nothing ≢ none)
      × ((ok ≡ true) ↔ (replay all nothing ≡ some (empty o.num_clients)))
set_up-Closes o d close c ok channel file =
    let acts = (pp_close_ctx close c o.num_clients).1 in
    let same = replay-append (pp_init_ctx o d).1 acts nothing _ (pp_init_ctx-Builds o d ok) in
    let (legal, freed) = pp_close_ctx-Closes close c o.num_clients in
    ground (arith, same, channel, file, legal, freed)
