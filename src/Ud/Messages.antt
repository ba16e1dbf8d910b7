-- ===== src/Ud/Messages.antt =====
-- rdma-core/ud_pingpong.c: the requests of `pp_post_recv` and `pp_post_send`, and the exchange of
-- messages with them.
use ibv_bench.Base.{ℕ, ◌+◌, ◌%◌, ◌^◌, ◌≤◌, ◌<◌, ◌↔◌, Bool, List, arith}
use ibv_bench.Qp.{AhAttr}
use ibv_bench.Rc.Context.{Sge, RecvWr, recv_wrid, send_wrid}
use ibv_bench.Rc.Completion.{Checked}
use ibv_bench.Plain.Completion.{Posting, State}
use ibv_bench.Plain.Loop.{Round, Outcome, start as plain_start, main_loop as plain_loop}
use ibv_bench.Ud.Setup.{grh_bytes, buf_bytes}

-- `struct pingpong_context`, once it is set up and connected; `size` is the 32 bits of an `int`.
pub record Context : Type 0 where
  pub buf : ℕ
  pub lkey : ℕ
  pub size : ℕ
  pub send_flags : ℕ
  pub rx_depth : ℕ
  pub ah : AhAttr

-- `struct ibv_send_wr`, with the part `wr.ud`. The opcode is IBV_WR_SEND.
pub record SendWr : Type 0 where
  pub wr_id : ℕ
  pub sg_list : Sge
  pub num_sge : ℕ
  pub send_flags : ℕ
  pub ah : AhAttr
  pub remote_qpn : ℕ
  pub remote_qkey : ℕ

-- The verbs library: whether it takes the n-th receive or send that is posted.
pub record Verbs : Type 0 where
  pub takes_recv : ℕ → RecvWr → Bool
  pub takes_send : ℕ → SendWr → Bool

-- `pp_post_recv`: the message behind its header.
pub recv_wr : Context → RecvWr
recv_wr ctx = record {
  wr_id = recv_wrid;
  sg_list = record { addr = ctx.buf; length = (ctx.size + grh_bytes) % 2 ^ 32; lkey = ctx.lkey };
  num_sge = 1;
}

-- `pp_post_send`: the message alone.
pub send_wr : Context → ℕ → SendWr
send_wr ctx qpn = record {
  wr_id = send_wrid;
  sg_list = record { addr = ctx.buf + grh_bytes; length = ctx.size; lkey = ctx.lkey };
  num_sge = 1;
  send_flags = ctx.send_flags;
  ah = ctx.ah;
  remote_qpn = qpn;
  remote_qkey = 0x11111111;
}

-- Sends go to `rem_dest->qpn`.
pub posting : Verbs → Context → ℕ → Posting
unfolding recv_wr send_wr
posting v ctx qpn = record {
  recv_ok = λ n. v.takes_recv n (recv_wr ctx);
  send_ok = λ n. v.takes_send n (send_wr ctx qpn);
  rx_depth = ctx.rx_depth;
}

-- The first requests of `main`.
abbrev pub start : Verbs → Context → ℕ → Bool → Checked State
start v ctx qpn servername = plain_start (posting v ctx qpn) servername

-- The loop of `main`, over the answers of the library.
abbrev pub main_loop : Verbs → Context → ℕ → Bool → ℕ → List Round → State → Outcome
main_loop v ctx qpn use_event iters rs s = plain_loop (posting v ctx qpn) use_event iters rs s

-- A request stays inside the memory region of `bytes` bytes at `buf`.
abbrev pub Inside : ℕ → ℕ → Sge → Type 0
Inside buf bytes sge = (buf ≤ sge.addr) × (sge.addr + sge.length ≤ buf + bytes)

-- For a size of 32 bits, receives stay inside the memory region that `pp_init_ctx` registers, and
-- sends do so exactly if the size and the 40 bytes of the header have 32 bits together.
pub requests-Inside :
    (ctx : Context) (qpn : ℕ)
    → ctx.size < 2 ^ 32
    → (Inside ctx.buf (buf_bytes ctx.size) (recv_wr ctx).sg_list)
      × (Inside ctx.buf (buf_bytes ctx.size) (send_wr ctx qpn).sg_list
          ↔ (ctx.size + grh_bytes < 2 ^ 32))
unfolding recv_wr send_wr buf_bytes
requests-Inside ctx qpn small = (
  (ground arith, ground arith),
  (λ h. ground (arith, h.1), λ h. (ground arith, ground (arith, h))),
)
