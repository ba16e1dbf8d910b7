-- ===== src/Xsrq.antt =====
-- rdma-core/xsrq_pingpong.c: one server and several clients over XRC queue pairs and a shared receive
-- queue.
pub mod Address
pub mod Connect
pub mod Exchange
pub mod Arguments
pub mod Termination
pub mod Setup
pub mod Messages
pub mod Clients
pub mod Loop
mod Tests
