-- ===== src/Rc/Context.antt =====
-- rdma-core/rc_pingpong.c: the part of `struct pingpong_context` and of the globals that the
-- exchange reads, the work requests, and the verbs library's answers to posting them.
use Prim.Native.Nat.{bit_and}
use ibv_bench.Base.{ℕ, zero, suc, ◌-◌, ◌≤◌, ◌≡◌, refl, Bool, true, arith, if◌then◌else◌}

-- PINGPONG_RECV_WRID and PINGPONG_SEND_WRID.
abbrev pub recv_wrid : ℕ
recv_wrid = 1

abbrev pub send_wrid : ℕ
send_wrid = 2

-- `struct pingpong_context` and the globals, as they stand once the context is set up.
pub record Context : Type 0 where
  pub buf : ℕ
  pub lkey : ℕ
  pub size : ℕ
  pub send_flags : ℕ
  pub rx_depth : ℕ
  pub completion_timestamp_mask : ℕ
  pub use_ts : Bool
  pub use_dm : Bool
  pub use_new_send : Bool

-- `struct ibv_sge`, `struct ibv_recv_wr`, `struct ibv_send_wr`, as far as they are filled in. The
-- opcode is IBV_WR_SEND throughout.
pub record Sge : Type 0 where
  pub addr : ℕ
  pub length : ℕ
  pub lkey : ℕ

pub record RecvWr : Type 0 where
  pub wr_id : ℕ
  pub sg_list : Sge
  pub num_sge : ℕ

-- How a send is handed over: by `ibv_post_send`, or by the calls from `ibv_wr_start` to
-- `ibv_wr_complete` with what they set.
pub data Submission : Type 0 where
  post_send : (wr_id : ℕ) (sg_list : Sge) (num_sge send_flags : ℕ) → Submission
  extended_send : (wr_id wr_flags : ℕ) (sge : Sge) → Submission

-- The verbs library: whether it takes the n-th receive or the n-th send that is posted.
pub record Verbs : Type 0 where
  pub takes_recv : ℕ → RecvWr → Bool
  pub takes_send : ℕ → Submission → Bool

message_sge : Context → Sge
message_sge ctx = record {
  addr = if ctx.use_dm then 0 else ctx.buf;
  length = ctx.size;
  lkey = ctx.lkey;
}

unfoldable pub recv_wr : Context → RecvWr
unfolding message_sge
recv_wr ctx = record { wr_id = recv_wrid; sg_list = message_sge ctx; num_sge = 1 }

-- The loop of `pp_post_recv`: `n` requests, up to the first that is refused. `calls` requests were
-- posted before. The result is the number posted.
unfoldable pub post_recv : Verbs → Context → ℕ → ℕ → ℕ
unfolding recv_wr
post_recv v ctx calls zero = 0
post_recv v ctx calls (suc n) =
    let rest = post_recv v ctx (suc calls) n in
    if v.takes_recv calls (recv_wr ctx) then suc rest else 0

-- The request of `pp_post_send`.
unfoldable pub submission : Context → Submission
unfolding message_sge
submission ctx =
    if ctx.use_new_send
    then extended_send send_wrid ctx.send_flags (message_sge ctx)
    else post_send send_wrid (message_sge ctx) 1 ctx.send_flags

-- `pp_post_send`: whether the request was taken.
unfoldable pub post_send_ok : Verbs → Context → ℕ → Bool
unfolding submission
post_send_ok v ctx calls = v.takes_send calls (submission ctx)

-- `pending & ~bits` of a non-negative `int`.
unfoldable pub clear_bits : ℕ → ℕ → ℕ
clear_bits pending bits = pending - bit_and pending bits

-- No more receives are posted than asked for.
pub post_recv-le : (v : Verbs) (ctx : Context) (calls n : ℕ) → post_recv v ctx calls n ≤ n
unfolding post_recv
post_recv-le v ctx calls zero = omega arith
post_recv-le v ctx calls (suc n) = ground (arith, post_recv-le v ctx (suc calls) n)

-- With a library that takes every receive, all are posted.
pub post_recv-all :
    (v : Verbs) (ctx : Context)
    → ((n : ℕ) → v.takes_recv n (recv_wr ctx) ≡ true)
    → (calls n : ℕ) → post_recv v ctx calls n ≡ n
unfolding post_recv
post_recv-all v ctx h calls zero = refl
post_recv-all v ctx h calls (suc n) = ground (arith, h calls, post_recv-all v ctx h (suc calls) n)
