-- ===== src/Plain/Setup.antt =====
-- rdma-core/uc_pingpong.c: `pp_init_ctx` from the completion channel on, with its labels, and
-- `pp_close_ctx`. rdma-core/ud_pingpong.c does the same behind its own first steps, and closes its
-- address handle in between. What is acquired and released is recorded in order.
use Prim.Native.Nat.{bit_or}
use ibv_bench.Base.{ℕ, Bool, true, false, Option, none, some, List, [], ◌∷◌, leb, if◌then◌else◌}
use ibv_bench.Rc.Setup.{
  ctx_memory, work_buf, device, comp_channel, pd, mr, cq, qp, Action, acquire, release,
}

-- The arguments that are read, and the constants of the verbs library.
pub record Options : Type 0 where
  pub size : ℕ
  pub use_event : Bool
  pub send_signaled : ℕ
  pub send_inline : ℕ

pub record Answers : Type 0 where
  pub ctx_ok : Bool
  pub memalign_ok : Bool
  pub open_ok : Bool
  pub channel_ok : Bool
  pub pd_ok : Bool
  pub mr_ok : Bool
  pub cq_ok : Bool
  pub qp_ok : Bool
  pub max_inline_data : ℕ
  pub modify_ok : Bool

-- What stands in `struct pingpong_context`: whether `channel` is set, and `send_flags`.
pub record Built : Type 0 where
  pub channel : Bool
  pub send_flags : ℕ

-- The returned context, or none for NULL, and the actions.
abbrev pub Setup : Type 0
Setup = Option Built × List Action

abbrev pub prepend : Action → Setup → Setup
prepend a (r, acts) = (r, a ∷ acts)

-- The labels, each of which goes on to the one before.
unfoldable pub clean_ctx : List Action
clean_ctx = release ctx_memory ∷ []

unfoldable pub clean_buffer : List Action
unfolding clean_ctx
clean_buffer = release work_buf ∷ clean_ctx

unfoldable pub clean_device : List Action
unfolding clean_buffer
clean_device = release device ∷ clean_buffer

unfoldable pub clean_comp_channel : Built → List Action
unfolding clean_device
clean_comp_channel c = if c.channel then release comp_channel ∷ clean_device else clean_device

unfoldable pub clean_pd : Built → List Action
unfolding clean_comp_channel
clean_pd c = release pd ∷ clean_comp_channel c

unfoldable pub clean_mr : Built → List Action
unfolding clean_pd
clean_mr c = release mr ∷ clean_pd c

unfoldable pub clean_cq : Built → List Action
unfolding clean_mr
clean_cq c = release cq ∷ clean_mr c

unfoldable pub clean_qp : Built → List Action
unfolding clean_cq
clean_qp c = release qp ∷ clean_cq c

module _ (o : Options) (d : Answers) where
  unfoldable pub modify_qp_init : Built → Setup
  unfolding clean_qp
  modify_qp_init c = if d.modify_ok then (some c, []) else (none, clean_qp c)

  unfoldable pub inline_flag : Built → Built
  inline_flag c =
      if leb o.size d.max_inline_data
      then record c { send_flags = bit_or c.send_flags o.send_inline }
      else c

  unfoldable pub create_qp : Built → Setup
  unfolding modify_qp_init inline_flag clean_cq
  create_qp c =
      if d.qp_ok then prepend (acquire qp) (modify_qp_init (inline_flag c)) else (none, clean_cq c)

  unfoldable pub create_cq : Built → Setup
  unfolding create_qp clean_mr
  create_cq c = if d.cq_ok then prepend (acquire cq) (create_qp c) else (none, clean_mr c)

  unfoldable pub reg_mr : Built → Setup
  unfolding create_cq clean_pd
  reg_mr c = if d.mr_ok then prepend (acquire mr) (create_cq c) else (none, clean_pd c)

  unfoldable pub alloc_pd : Built → Setup
  unfolding reg_mr clean_comp_channel
  alloc_pd c = if d.pd_ok then prepend (acquire pd) (reg_mr c) else (none, clean_comp_channel c)

  unfoldable pub create_channel : Built → Setup
  unfolding alloc_pd clean_device
  create_channel c =
      if o.use_event
      then if d.channel_ok
        then prepend (acquire comp_channel) (alloc_pd (record c { channel = true }))
        else (none, clean_device)
      else alloc_pd c

-- Whether each call of `pp_close_ctx` succeeds.
pub record CloseAnswers : Type 0 where
  pub destroy_qp_ok : Bool
  pub destroy_cq_ok : Bool
  pub dereg_mr_ok : Bool
  pub dealloc_pd_ok : Bool
  pub destroy_channel_ok : Bool
  pub close_device_ok : Bool

-- Go on behind a release that succeeded; else return 1.
abbrev pub and_then : Bool → Action → Bool × List Action → Bool × List Action
and_then ok a (r, acts) = if ok then (r, a ∷ acts) else (false, [])

-- From the protection domain on.
unfoldable pub close_shared : CloseAnswers → Built → Bool × List Action
close_shared d c = and_then d.dealloc_pd_ok (release pd) (
    close_channel (
      and_then d.close_device_ok (release device)
        (true, release work_buf ∷ release ctx_memory ∷ [])))
  where
    close_channel : Bool × List Action → Bool × List Action
    close_channel rest =
        if c.channel then and_then d.destroy_channel_ok (release comp_channel) rest else rest

-- The queue pair, the completion queue and the memory region, and what follows.
unfoldable pub close_queues : CloseAnswers → Bool × List Action → Bool × List Action
close_queues d rest =
    and_then d.destroy_qp_ok (release qp)
      (and_then d.destroy_cq_ok (release cq) (and_then d.dereg_mr_ok (release mr) rest))
