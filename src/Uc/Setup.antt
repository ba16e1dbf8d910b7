-- ===== src/Uc/Setup.antt =====
-- rdma-core/uc_pingpong.c: `pp_init_ctx` and `pp_close_ctx`, which do what those of
-- rdma-core/rc_pingpong.c do without the options for paging on demand, time stamps and device memory.
use ibv_bench.Base.{ℕ, ◌≡◌, Bool, false, Option, none, some, List, [], arith, if◌then◌else◌}
use ibv_bench.Rc.Setup.{
  ctx_memory, work_buf, device, Action, acquire, Constants, Options as RcOptions,
  Answers as RcAnswers, Built as RcBuilt, pp_init_ctx as rc_init_ctx,
  modify_qp_init as rc_modify_qp_init, inline_flag as rc_inline_flag, create_qp as rc_create_qp,
  create_cq as rc_create_cq, reg_mr as rc_reg_mr, query_device as rc_query_device,
  alloc_pd as rc_alloc_pd, create_channel as rc_create_channel, open_device as rc_open_device,
  alloc_buf as rc_alloc_buf, clean_ctx as rc_clean_ctx, clean_buffer as rc_clean_buffer,
  clean_device as rc_clean_device, clean_comp_channel as rc_clean_comp_channel,
  clean_pd as rc_clean_pd, clean_dm as rc_clean_dm, clean_mr as rc_clean_mr,
  clean_cq as rc_clean_cq, clean_qp as rc_clean_qp, pp_close_ctx as rc_close_ctx,
  CloseAnswers as RcCloseAnswers,
}
use ibv_bench.Plain.Setup.{
  Options, Answers, Built, Setup, prepend, clean_ctx, clean_buffer, modify_qp_init, inline_flag,
  create_qp, create_cq, reg_mr, alloc_pd, create_channel, CloseAnswers, close_queues, close_shared,
}

module _ (o : Options) (d : Answers) where
  open_device : Built → Setup
  unfolding create_channel clean_buffer
  open_device c =
      if d.open_ok then prepend (acquire device) (create_channel o d c) else (none, clean_buffer)

  alloc_buf : Built → Setup
  unfolding open_device clean_ctx
  alloc_buf c =
      if d.memalign_ok then prepend (acquire work_buf) (open_device c) else (none, clean_ctx)

  pub pp_init_ctx : Setup
  unfolding alloc_buf
  pp_init_ctx =
      if d.ctx_ok
      then prepend (acquire ctx_memory)
          (alloc_buf (record { channel = false; send_flags = o.send_signaled }))
      else (none, [])

-- `true` is the 0 of the source.
pub pp_close_ctx : CloseAnswers → Built → Bool × List Action
unfolding close_queues close_shared
pp_close_ctx d c = close_queues d (close_shared d c)

-- The same options and answers for rc_pingpong.c, with its further options off.
abbrev pub rc_options : Options → ℕ → RcOptions
rc_options o rx_depth = record {
  size = o.size;
  rx_depth = rx_depth;
  use_event = o.use_event;
  use_odp = false;
  implicit_odp = false;
  use_ts = false;
  use_dm = false;
}

-- Whatever it is told of the device, which it does not ask.
abbrev pub rc_answers : Answers → RcAnswers → RcAnswers
rc_answers d other = record other {
  calloc_ok = d.ctx_ok;
  memalign_ok = d.memalign_ok;
  open_ok = d.open_ok;
  channel_ok = d.channel_ok;
  pd_ok = d.pd_ok;
  mr_ok = d.mr_ok;
  cq_ok = d.cq_ok;
  qp_ok = d.qp_ok;
  max_inline_data = d.max_inline_data;
  modify_ok = d.modify_ok;
}

abbrev pub forget_built : Option RcBuilt → Option Built
forget_built none = none
forget_built (some c) = some (record { channel = c.channel; send_flags = c.send_flags })

abbrev pub rc_built : Built → RcBuilt
rc_built c = record {
  channel = c.channel;
  has_dm = false;
  access_flags = 0;
  send_flags = c.send_flags;
  timestamp_mask = 0;
}

abbrev pub rc_close : CloseAnswers → Bool → RcCloseAnswers
rc_close d dm_freed = record {
  destroy_qp_ok = d.destroy_qp_ok;
  destroy_cq_ok = d.destroy_cq_ok;
  dereg_mr_ok = d.dereg_mr_ok;
  free_dm_ok = dm_freed;
  dealloc_pd_ok = d.dealloc_pd_ok;
  destroy_channel_ok = d.destroy_channel_ok;
  close_device_ok = d.close_device_ok;
}

module _ (k : Constants) (o : Options) (d : Answers) (other : RcAnswers) (rx_depth : ℕ)
    (signaled : k.send_signaled ≡ o.send_signaled) (inline : k.send_inline ≡ o.send_inline) where
  init-same :
      let (result, actions) = rc_init_ctx k (rc_options o rx_depth) (rc_answers d other) in
      pp_init_ctx o d ≡ (forget_built result, actions)
  unfolding pp_init_ctx alloc_buf open_device create_channel alloc_pd reg_mr create_cq create_qp
      inline_flag modify_qp_init rc_init_ctx rc_modify_qp_init rc_inline_flag rc_create_qp
      rc_create_cq rc_reg_mr rc_query_device rc_alloc_pd rc_create_channel rc_open_device
      rc_alloc_buf rc_clean_ctx rc_clean_buffer rc_clean_device rc_clean_comp_channel rc_clean_pd
      rc_clean_dm rc_clean_mr rc_clean_cq rc_clean_qp
  init-same = ground (arith, signaled, inline)

  -- With its further options off, `pp_init_ctx` of rc_pingpong.c acquires and releases the same in
  -- the same order, and returns a context with the same channel and the same flags for sends, or
  -- NULL where this one does. On a context without device memory, `pp_close_ctx` does the same and
  -- returns the same.
  pub set_up-same :
      (close : CloseAnswers) (dm_freed : Bool) (c : Built)
      → let (result, actions) = rc_init_ctx k (rc_options o rx_depth) (rc_answers d other) in
        (pp_init_ctx o d ≡ (forget_built result, actions))
        × (pp_close_ctx close c ≡ rc_close_ctx (rc_close close dm_freed) (rc_built c))
  unfolding pp_close_ctx rc_close_ctx
  set_up-same close dm_freed c = (init-same, ground arith)
