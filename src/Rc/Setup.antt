-- ===== src/Rc/Setup.antt =====
-- rdma-core/rc_pingpong.c: `pp_init_ctx`, with its labels for cleaning up, and `pp_close_ctx`. What
-- the functions acquire and release is recorded in order; the answers of the verbs library and of
-- the allocators are arguments.
pub mod Balance
use Prim.Native.Nat.{bit_and, bit_or}
use ibv_bench.Base.{
  sign_extended, ℕ, ◌<◌, Bool, true, false, not, ◌&&◌, ◌||◌, Option, none, some, List, [], ◌∷◌, ltb,
  leb, ◌==◌, if◌then◌else◌,
}

-- What the ping-pong programs acquire. Only ud_pingpong.c has an address handle, `ah`, and only this
-- program device memory, `dm`.
pub data Resource : Type 0 where
  ctx_memory work_buf device comp_channel pd dm mr cq qp ah : Resource

pub data Action : Type 0 where
  acquire release : Resource → Action

-- The options that the function reads: its arguments and the globals.
pub record Options : Type 0 where
  pub size : ℕ
  pub rx_depth : ℕ
  pub use_event : Bool
  pub use_odp : Bool
  pub implicit_odp : Bool
  pub use_ts : Bool
  pub use_dm : Bool

-- The constants of the verbs library that the function combines.
pub record Constants : Type 0 where
  pub odp_support : ℕ
  pub odp_support_implicit : ℕ
  pub odp_support_send : ℕ
  pub odp_support_recv : ℕ
  pub access_local_write : ℕ
  pub access_on_demand : ℕ
  pub access_zero_based : ℕ
  pub send_signaled : ℕ
  pub send_inline : ℕ

-- The answers: whether each call succeeds, and the attributes that are read. `modify_ok` is the
-- change of the queue pair to INIT. (A failed prefetch is reported and otherwise ignored.)
pub record Answers : Type 0 where
  pub calloc_ok : Bool
  pub memalign_ok : Bool
  pub open_ok : Bool
  pub channel_ok : Bool
  pub pd_ok : Bool
  pub query_ok : Bool
  pub general_caps : ℕ
  pub rc_odp_caps : ℕ
  pub completion_timestamp_mask : ℕ
  pub max_dm_size : ℕ
  pub dm_ok : Bool
  pub mr_ok : Bool
  pub cq_ok : Bool
  pub qp_ok : Bool
  pub max_inline_data : ℕ
  pub modify_ok : Bool

-- What the function has put into `struct pingpong_context` and `access_flags`: which of the two
-- optional pointers are set, and the flags.
pub record Built : Type 0 where
  pub channel : Bool
  pub has_dm : Bool
  pub access_flags : ℕ
  pub send_flags : ℕ
  pub timestamp_mask : ℕ

-- The returned context, or none for NULL, and the actions.
abbrev pub Setup : Type 0
Setup = Option Built × List Action

abbrev prepend : Action → Setup → Setup
prepend a (r, acts) = (r, a ∷ acts)

-- The labels `clean_ctx` to `clean_qp`, each of which goes on to the one before.
unfoldable pub clean_ctx : List Action
clean_ctx = release ctx_memory ∷ []

unfoldable pub clean_buffer : List Action
unfolding clean_ctx
clean_buffer = release work_buf ∷ clean_ctx

unfoldable pub clean_device : List Action
unfolding clean_buffer
clean_device = release device ∷ clean_buffer

unfoldable pub clean_comp_channel : Built → List Action
unfolding clean_device
clean_comp_channel c = if c.channel then release comp_channel ∷ clean_device else clean_device

unfoldable pub clean_pd : Built → List Action
unfolding clean_comp_channel
clean_pd c = release pd ∷ clean_comp_channel c

unfoldable pub clean_dm : Built → List Action
unfolding clean_pd
clean_dm c = if c.has_dm then release dm ∷ clean_pd c else clean_pd c

unfoldable pub clean_mr : Built → List Action
unfolding clean_dm
clean_mr c = release mr ∷ clean_dm c

unfoldable pub clean_cq : Built → List Action
unfolding clean_mr
clean_cq c = release cq ∷ clean_mr c

unfoldable pub clean_qp : Built → List Action
unfolding clean_cq
clean_qp c = release qp ∷ clean_cq c

module _ (k : Constants) (o : Options) (d : Answers) where
  unfoldable pub modify_qp_init : Built → Setup
  modify_qp_init c = if d.modify_ok then (some c, []) else (none, clean_qp c)

  -- The flag for inline sends depends on the queue pair that was created.
  unfoldable pub inline_flag : Built → Built
  inline_flag c =
      if leb o.size d.max_inline_data && not o.use_dm
      then record c { send_flags = bit_or c.send_flags k.send_inline }
      else c

  unfoldable pub create_qp : Built → Setup
  create_qp c =
      if d.qp_ok then prepend (acquire qp) (modify_qp_init (inline_flag c)) else (none, clean_cq c)

  unfoldable pub create_cq : Built → Setup
  create_cq c = if d.cq_ok then prepend (acquire cq) (create_qp c) else (none, clean_mr c)

  unfoldable pub reg_mr : Built → Setup
  reg_mr c = if d.mr_ok then prepend (acquire mr) (create_cq c) else (none, clean_dm c)

  -- `size` is the 32 bits of an `int`, and `max_dm_size` has 64.
  pub alloc_dm : Built → Setup
  alloc_dm c =
      if d.max_dm_size == 0 || ltb d.max_dm_size (sign_extended o.size)
      then (none, clean_pd c)
      else if d.dm_ok
      then prepend (acquire dm) (
          reg_mr
            (record c { has_dm = true; access_flags = bit_or c.access_flags k.access_zero_based }))
      else (none, clean_pd c)

  pub check_dm : Built → Setup
  check_dm c = if o.use_dm then alloc_dm c else reg_mr c

  pub check_ts : Built → Setup
  check_ts c =
      if o.use_ts
      then if d.completion_timestamp_mask == 0
        then (none, clean_pd c)
        else check_dm (record c { timestamp_mask = d.completion_timestamp_mask })
      else check_dm c

  rc_caps_mask : ℕ
  rc_caps_mask = bit_or k.odp_support_send k.odp_support_recv

  -- Whether the device has what on-demand paging needs.
  odp_capable : Bool
  odp_capable =
      not (bit_and d.general_caps k.odp_support == 0)
      && bit_and d.rc_odp_caps rc_caps_mask == rc_caps_mask
      && (not o.implicit_odp || not (bit_and d.general_caps k.odp_support_implicit == 0))

  pub check_odp : Built → Setup
  check_odp c =
      if o.use_odp
      then if odp_capable
        then check_ts (record c { access_flags = bit_or c.access_flags k.access_on_demand })
        else (none, clean_pd c)
      else check_ts c

  unfoldable pub query_device : Built → Setup
  query_device c =
      if o.use_odp || (o.use_ts || o.use_dm)
      then if d.query_ok then check_odp c else (none, clean_pd c)
      else reg_mr c

  unfoldable pub alloc_pd : Built → Setup
  alloc_pd c =
      if d.pd_ok then prepend (acquire pd) (query_device c) else (none, clean_comp_channel c)

  unfoldable pub create_channel : Built → Setup
  create_channel c =
      if o.use_event
      then if d.channel_ok
        then prepend (acquire comp_channel) (alloc_pd (record c { channel = true }))
        else (none, clean_device)
      else alloc_pd c

  unfoldable pub open_device : Built → Setup
  open_device c =
      if d.open_ok then prepend (acquire device) (create_channel c) else (none, clean_buffer)

  unfoldable pub alloc_buf : Built → Setup
  alloc_buf c =
      if d.memalign_ok then prepend (acquire work_buf) (open_device c) else (none, clean_ctx)

  unfoldable pub pp_init_ctx : Setup
  pp_init_ctx =
      if d.calloc_ok
      then prepend (acquire ctx_memory) (
          alloc_buf (record {
            channel = false;
            has_dm = false;
            access_flags = k.access_local_write;
            send_flags = k.send_signaled;
            timestamp_mask = 0;
          }))
      else (none, [])

-- Whether each call of `pp_close_ctx` succeeds.
pub record CloseAnswers : Type 0 where
  pub destroy_qp_ok : Bool
  pub destroy_cq_ok : Bool
  pub dereg_mr_ok : Bool
  pub free_dm_ok : Bool
  pub dealloc_pd_ok : Bool
  pub destroy_channel_ok : Bool
  pub close_device_ok : Bool

-- Go on behind a release that succeeded; else return 1.
abbrev and_then : Bool → Action → Bool × List Action → Bool × List Action
and_then ok a (r, acts) = if ok then (r, a ∷ acts) else (false, [])

-- `true` is the 0 of the source.
unfoldable pub pp_close_ctx : CloseAnswers → Built → Bool × List Action
pp_close_ctx d c = and_then d.destroy_qp_ok (release qp) (
    and_then d.destroy_cq_ok (release cq) (
      and_then d.dereg_mr_ok (release mr) (
        close_dm (
          and_then d.dealloc_pd_ok (release pd) (
            close_channel (
              and_then d.close_device_ok (release device)
                (true, release work_buf ∷ release ctx_memory ∷ [])))))))
  where
    close_dm : Bool × List Action → Bool × List Action
    close_dm rest = if c.has_dm then and_then d.free_dm_ok (release dm) rest else rest

    close_channel : Bool × List Action → Bool × List Action
    close_channel rest =
        if c.channel then and_then d.destroy_channel_ok (release comp_channel) rest else rest
