-- ===== src/Ud/Setup.antt =====
-- rdma-core/ud_pingpong.c: `pp_init_ctx` with its check of the port's MTU, and `pp_close_ctx` with the
-- address handle. `size` is the 32 bits of an `int`.
pub mod Balance
use ibv_bench.Base.{
  sign_extended, ℕ, ◌+◌, ◌%◌, ◌^◌, ◌≡◌, Bool, true, false, ◌&&◌, not, Option, none, some, List, [],
  ◌∷◌, ltb, if◌then◌else◌,
}
use ibv_bench.Rc.Setup.{Resource, ctx_memory, work_buf, device, ah, Action, acquire, release}
use ibv_bench.Plain.Setup.{
  Options, Answers, Built, Setup, prepend, clean_ctx, clean_buffer, clean_device, create_channel,
  CloseAnswers, and_then, close_queues, close_shared,
}

-- The bytes in front of a message that is received: the global routing header.
abbrev pub grh_bytes : ℕ
grh_bytes = 40

-- The length of the buffer and of the memory region: `size + 40` is an `int`, taken to wrap around,
-- and becomes a `size_t`.
unfoldable pub buf_bytes : ℕ → ℕ
buf_bytes size = sign_extended ((size + grh_bytes) % 2 ^ 32)

-- `size > mtu` of an `int` and a positive `int`.
pub int_exceeds : ℕ → ℕ → Bool
int_exceeds size mtu = ltb size (2 ^ 31) && ltb mtu size

-- What `ibv_query_port` answers: the number of the port's MTU, 1 to 5.
pub port_mtu : ℕ → ℕ
port_mtu active_mtu = 2 ^ (active_mtu + 7)

module _ (o : Options) (d : Answers) (queried : Option ℕ) where
  -- The block behind `ibv_open_device`.
  check_mtu : Built → Setup
  unfolding create_channel clean_device
  check_mtu c = elim queried [
    | none ↦ (none, clean_device)
    | some active_mtu ↦
        if int_exceeds o.size (port_mtu active_mtu)
        then (none, clean_device)
        else create_channel o d c
  ]

  open_device : Built → Setup
  unfolding check_mtu clean_buffer
  open_device c = if d.open_ok then prepend (acquire device) (check_mtu c) else (none, clean_buffer)

  alloc_buf : Built → Setup
  unfolding open_device clean_ctx
  alloc_buf c =
      if d.memalign_ok then prepend (acquire work_buf) (open_device c) else (none, clean_ctx)

  unfoldable pub pp_init_ctx : Setup
  unfolding alloc_buf
  pp_init_ctx =
      if d.ctx_ok
      then prepend (acquire ctx_memory)
          (alloc_buf (record { channel = false; send_flags = o.send_signaled }))
      else (none, [])

-- `true` is the 0 of the source.
pub pp_close_ctx : CloseAnswers → (destroy_ah_ok : Bool) → Built → Bool × List Action
unfolding close_queues close_shared
pp_close_ctx d destroy_ah_ok c =
    close_queues d (and_then destroy_ah_ok (release ah) (close_shared d c))
