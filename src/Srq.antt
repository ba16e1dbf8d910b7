-- ===== src/Srq.antt =====
-- rdma-core/srq_pingpong.c: ping-pong over several queue pairs that share a receive queue.
pub mod Setup
pub mod Connect
pub mod Arguments
pub mod Exchange
pub mod Start
pub mod Loop
pub mod Completion
mod Tests
