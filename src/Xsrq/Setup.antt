-- ===== src/Xsrq/Setup.antt =====
-- rdma-core/xsrq_pingpong.c: `pp_init_ctx` with `open_device` and `create_qps`, and `pp_close_ctx`. What
-- is acquired and released is recorded in order; the answers of the verbs library, of the allocators
-- and of the file system are arguments. An error of `pp_init_ctx` ends the program, and nothing is
-- released then.
pub mod Balance
use Prim.Native.Nat.{bit_and}
use ibv_bench.Base.{
  ℕ, zero, suc, ◌^◌, ◌≡◌, Bool, true, false, ◌&&◌, ◌||◌, not, Option, none, some, List, [], ◌∷◌,
  ◌++◌, ◌==◌, if◌then◌else◌,
}
use ibv_bench.Base.Text.{Text}
use ibv_bench.Rc.Start.{PortInfo, choose_device}

pub data Resource : Type 0 where
  recv_array send_array dest_array device work_buf comp_channel pd mr domain_file xrcd : Resource
  recv_cq send_cq srq : Resource

pub data Action : Type 0 where
  acquire release : Resource → Action
  create_recv create_send destroy_recv destroy_send : (index : ℕ) → Action
  close_socket : (index : ℕ) → Action

-- The options that are read, and the constants of the verbs library for paging on demand.
pub record Options : Type 0 where
  pub ib_devname : Option Text
  pub num_clients : ℕ
  pub use_event : Bool
  pub use_odp : Bool
  pub odp_support : ℕ
  pub xrc_caps_mask : ℕ

pub record Answers : Type 0 where
  pub recv_array_ok : Bool
  pub send_array_ok : Bool
  pub dest_array_ok : Bool
  pub devices : Option (List Text)
  pub open_ok : Bool
  pub query_ok : Bool
  pub general_caps : ℕ
  pub xrc_odp_caps : ℕ
  pub port : Option PortInfo
  pub memalign_ok : Bool
  pub channel_ok : Bool
  pub pd_ok : Bool
  pub mr_ok : Bool
  pub file_ok : Bool
  pub xrcd_ok : Bool
  pub recv_cq_ok : Bool
  pub notify_ok : Bool
  pub send_cq_ok : Bool
  pub srq_ok : Bool
  pub recv_qp_ok : ℕ → Bool
  pub recv_init_ok : ℕ → Bool
  pub send_qp_ok : ℕ → Bool
  pub send_init_ok : ℕ → Bool

-- The 0 or 1 that is returned, `true` for 0, and the actions.
abbrev pub Result : Type 0
Result = Bool × List Action

-- Go on behind a call that succeeded; else return 1.
abbrev pub and_then : Bool → Action → Result → Result
and_then ok a rest = if ok then (rest.0, a ∷ rest.1) else (false, [])

-- Go on behind a check.
abbrev pub when : Bool → Result → Result
when ok rest = if ok then rest else (false, [])

module _ (o : Options) (d : Answers) where
  -- The `for` of `create_qps` from `i` on.
  create_qps : ℕ → ℕ → Result
  create_qps i zero = (true, [])
  create_qps i (suc left) = and_then (d.recv_qp_ok i) (create_recv i) (
      when (d.recv_init_ok i) (
        and_then (d.send_qp_ok i) (create_send i)
          (when (d.send_init_ok i) (create_qps (suc i) left))))

  create_queues : Result
  create_queues = and_then d.recv_cq_ok (acquire recv_cq) (
      when (not o.use_event || d.notify_ok) (
        and_then d.send_cq_ok (acquire send_cq)
          (and_then d.srq_ok (acquire srq) (create_qps 0 o.num_clients))))

  -- The file may be missing; then its descriptor is -1.
  open_domain : Result
  open_domain =
      let rest = and_then d.xrcd_ok (acquire xrcd) create_queues in
      if d.file_ok then (rest.0, acquire domain_file ∷ rest.1) else rest

  create_channel : Result
  create_channel =
      let rest = and_then d.pd_ok (acquire pd) (and_then d.mr_ok (acquire mr) open_domain) in
      if o.use_event then and_then d.channel_ok (acquire comp_channel) rest else rest

  -- Whether the device has what on-demand paging needs.
  odp_capable : Bool
  odp_capable =
      d.query_ok
      && (not (bit_and d.general_caps o.odp_support == 0)
          && bit_and d.xrc_odp_caps o.xrc_caps_mask == o.xrc_caps_mask)

  -- The port's LID may be 0 only on Ethernet.
  port_usable : Option PortInfo → Bool
  port_usable none = false
  port_usable (some info) = info.is_ethernet || not (info.lid == 0)

  open_device : Option ℕ → Result
  open_device none = (false, [])
  open_device (some index) = and_then d.open_ok (acquire device) (
      when (not o.use_odp || odp_capable)
        (when (port_usable d.port) (and_then d.memalign_ok (acquire work_buf) create_channel)))

  -- What is allocated stands there whether or not the others are.
  allocated : Bool → Resource → List Action
  allocated ok r = if ok then acquire r ∷ [] else []

  unfoldable pub pp_init_ctx : Result
  unfolding allocated open_device create_channel open_domain create_queues create_qps odp_capable
      port_usable
  pp_init_ctx =
      let arrays =
        allocated d.recv_array_ok recv_array
        ++ (allocated d.send_array_ok send_array ++ allocated d.dest_array_ok dest_array) in
      let rest =
        when (d.recv_array_ok && (d.send_array_ok && d.dest_array_ok))
          (open_device (choose_device d.devices o.ib_devname)) in
      (rest.0, arrays ++ rest.1)

pub record CloseAnswers : Type 0 where
  pub destroy_send_ok : ℕ → Bool
  pub destroy_recv_ok : ℕ → Bool
  pub destroy_srq_ok : Bool
  pub close_xrcd_ok : Bool
  pub close_file_ok : Bool
  pub destroy_send_cq_ok : Bool
  pub destroy_recv_cq_ok : Bool
  pub dereg_mr_ok : Bool
  pub dealloc_pd_ok : Bool
  pub destroy_channel_ok : Bool
  pub close_device_ok : Bool

-- What `ctx` shows of the optional resources: whether `channel` is set and `fd` is not negative, and
-- which of the `sockfd` are not 0.
pub record Context : Type 0 where
  pub channel : Bool
  pub has_file : Bool
  pub connected : ℕ → Bool

-- A release that is only made of what is there.
abbrev where_set : Bool → Bool → Resource → Result → Result
where_set set ok r rest = if set then and_then ok (release r) rest else rest

-- Behind the loop over the queue pairs.
close_shared : CloseAnswers → Context → Result
close_shared d c = and_then d.destroy_srq_ok (release srq) (
    and_then d.close_xrcd_ok (release xrcd) (
      where_set c.has_file d.close_file_ok domain_file (
        and_then d.destroy_send_cq_ok (release send_cq) (
          and_then d.destroy_recv_cq_ok (release recv_cq) (
            and_then d.dereg_mr_ok (release mr) (
              and_then d.dealloc_pd_ok (release pd) (
                where_set c.channel d.destroy_channel_ok comp_channel (
                  and_then d.close_device_ok (release device) (
                    true,
                    release work_buf
                        ∷ release dest_array
                        ∷ release send_array
                        ∷ release recv_array
                        ∷ [],
                  )))))))))

close_qps : CloseAnswers → Context → ℕ → ℕ → Result
unfolding close_shared
close_qps d c i zero = close_shared d c
close_qps d c i (suc left) =
    let rest = close_qps d c (suc i) left in
    and_then (d.destroy_send_ok i) (destroy_send i) (
      and_then (d.destroy_recv_ok i) (destroy_recv i)
        (if c.connected i then (rest.0, close_socket i ∷ rest.1) else rest))

pub pp_close_ctx : CloseAnswers → Context → ℕ → Result
unfolding close_qps
pp_close_ctx d c num_clients = close_qps d c 0 num_clients
