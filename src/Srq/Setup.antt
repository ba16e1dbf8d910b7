-- ===== src/Srq/Setup.antt =====
-- rdma-core/srq_pingpong.c: `pp_init_ctx`, with its labels for cleaning up, and `pp_close_ctx`. The
-- queue pairs are numbered; the answers of the verbs library are arguments.
pub mod Balance
use Prim.Native.Nat.{bit_and, bit_or}
use ibv_bench.Base.{
  ℕ, zero, suc, Bool, true, false, not, ◌&&◌, Option, none, some, List, [], ◌∷◌, leb, ◌==◌,
  if◌then◌else◌,
}

pub data Resource : Type 0 where
  ctx_memory work_buf device comp_channel pd mr cq srq : Resource

pub data Action : Type 0 where
  acquire release : Resource → Action
  create destroy : (qp : ℕ) → Action

-- The options that the function reads, and the constants of the verbs library that it combines.
pub record Options : Type 0 where
  pub size : ℕ
  pub num_qp : ℕ
  pub use_event : Bool
  pub use_odp : Bool
  pub odp_support : ℕ
  pub rc_caps_mask : ℕ
  pub access_local_write : ℕ
  pub access_on_demand : ℕ
  pub send_signaled : ℕ
  pub send_inline : ℕ

-- Whether each call succeeds, and the attributes that are read. A queue pair that is created shows
-- the inline data that it takes.
pub record Answers : Type 0 where
  pub calloc_ok : Bool
  pub memalign_ok : Bool
  pub open_ok : Bool
  pub query_ok : Bool
  pub general_caps : ℕ
  pub rc_odp_caps : ℕ
  pub channel_ok : Bool
  pub pd_ok : Bool
  pub mr_ok : Bool
  pub cq_ok : Bool
  pub srq_ok : Bool
  pub qp : ℕ → Option ℕ
  pub modify_ok : ℕ → Bool

-- What is kept in `struct pingpong_context`, with the access flags.
pub record Built : Type 0 where
  pub channel : Bool
  pub access_flags : ℕ
  pub send_flags : ℕ

abbrev pub Setup : Type 0
Setup = Option Built × List Action

abbrev prepend : Action → Setup → Setup
prepend a (r, acts) = (r, a ∷ acts)

-- The labels, each of which goes on to the one before.
clean_ctx : List Action
clean_ctx = release ctx_memory ∷ []

clean_buffer : List Action
unfolding clean_ctx
clean_buffer = release work_buf ∷ clean_ctx

clean_device : List Action
unfolding clean_buffer
clean_device = release device ∷ clean_buffer

clean_comp_channel : Built → List Action
unfolding clean_device
clean_comp_channel c = if c.channel then release comp_channel ∷ clean_device else clean_device

clean_pd : Built → List Action
unfolding clean_comp_channel
clean_pd c = release pd ∷ clean_comp_channel c

clean_mr : Built → List Action
unfolding clean_pd
clean_mr c = release mr ∷ clean_pd c

clean_cq : Built → List Action
unfolding clean_mr
clean_cq c = release cq ∷ clean_mr c

-- `for (--i; i >= 0; --i)` and the shared receive queue behind it.
clean_qps : ℕ → Built → List Action
unfolding clean_cq
clean_qps zero c = release srq ∷ clean_cq c
clean_qps (suc i) c = destroy i ∷ clean_qps i c

module _ (o : Options) (d : Answers) where
  -- The second loop, with `clean_qps_full`.
  modify_qps : ℕ → ℕ → Built → Setup
  modify_qps i zero c = (some c, [])
  modify_qps i (suc left) c =
      let rest = modify_qps (suc i) left c in
      if d.modify_ok i then rest else (none, clean_qps o.num_qp c)

  inline_flag : ℕ → Built → Built
  inline_flag max_inline_data c =
      if leb o.size max_inline_data
      then record c { send_flags = bit_or c.send_flags o.send_inline }
      else c

  -- The first loop, and what follows it.
  create_qps : ℕ → ℕ → Built → Setup
  create_qps i zero c = modify_qps 0 o.num_qp c
  create_qps i (suc left) c = elim (d.qp i) [
    | none ↦ (none, clean_qps i c)
    | some max_inline_data ↦
        prepend (create i) (create_qps (suc i) left (inline_flag max_inline_data c))
  ]

  create_srq : Built → Setup
  create_srq c =
      if d.srq_ok then prepend (acquire srq) (create_qps 0 o.num_qp c) else (none, clean_cq c)

  create_cq : Built → Setup
  create_cq c = if d.cq_ok then prepend (acquire cq) (create_srq c) else (none, clean_mr c)

  reg_mr : Built → Setup
  reg_mr c = if d.mr_ok then prepend (acquire mr) (create_cq c) else (none, clean_pd c)

  alloc_pd : Built → Setup
  alloc_pd c = if d.pd_ok then prepend (acquire pd) (reg_mr c) else (none, clean_comp_channel c)

  create_channel : Built → Setup
  create_channel c =
      if o.use_event
      then if d.channel_ok
        then prepend (acquire comp_channel) (alloc_pd (record c { channel = true }))
        else (none, clean_device)
      else alloc_pd c

  odp_capable : Bool
  odp_capable =
      not (bit_and d.general_caps o.odp_support == 0)
      && bit_and d.rc_odp_caps o.rc_caps_mask == o.rc_caps_mask

  check_odp : Built → Setup
  check_odp c =
      if o.use_odp
      then if d.query_ok && odp_capable
        then create_channel (record c { access_flags = bit_or c.access_flags o.access_on_demand })
        else (none, clean_device)
      else create_channel c

  open_device : Built → Setup
  open_device c = if d.open_ok then prepend (acquire device) (check_odp c) else (none, clean_buffer)

  alloc_buf : Built → Setup
  alloc_buf c =
      if d.memalign_ok then prepend (acquire work_buf) (open_device c) else (none, clean_ctx)

  pub pp_init_ctx : Setup
  pp_init_ctx =
      if d.calloc_ok
      then prepend (acquire ctx_memory) (
          alloc_buf (record {
            channel = false;
            access_flags = o.access_local_write;
            send_flags = o.send_signaled;
          }))
      else (none, [])

pub record CloseAnswers : Type 0 where
  pub destroy_qp_ok : ℕ → Bool
  pub destroy_srq_ok : Bool
  pub destroy_cq_ok : Bool
  pub dereg_mr_ok : Bool
  pub dealloc_pd_ok : Bool
  pub destroy_channel_ok : Bool
  pub close_device_ok : Bool

-- Go on behind a release that succeeded; else return 1.
abbrev and_then : Bool → Action → Bool × List Action → Bool × List Action
and_then ok a (r, acts) = if ok then (r, a ∷ acts) else (false, [])

-- Behind the loop over the queue pairs.
close_shared : CloseAnswers → Built → Bool × List Action
close_shared d c = and_then d.destroy_srq_ok (release srq) (
    and_then d.destroy_cq_ok (release cq) (
      and_then d.dereg_mr_ok (release mr) (
        and_then d.dealloc_pd_ok (release pd) (
          close_channel (
            and_then d.close_device_ok (release device)
              (true, release work_buf ∷ release ctx_memory ∷ []))))))
  where
    close_channel : Bool × List Action → Bool × List Action
    close_channel rest =
        if c.channel then and_then d.destroy_channel_ok (release comp_channel) rest else rest

close_qps : CloseAnswers → Built → ℕ → ℕ → Bool × List Action
unfolding close_shared
close_qps d c i zero = close_shared d c
close_qps d c i (suc left) = and_then (d.destroy_qp_ok i) (destroy i) (close_qps d c (suc i) left)

-- `true` is the 0 of the source.
pub pp_close_ctx : CloseAnswers → Built → ℕ → Bool × List Action
unfolding close_qps
pp_close_ctx d c num_qp = close_qps d c 0 num_qp
