-- ===== src/Rc.antt =====
-- rdma-core/rc_pingpong.c: ping-pong over a reliable connection.
pub mod Context
pub mod Timestamp
pub mod Completion
pub mod Peer
pub mod Loop
pub mod Setup
pub mod Finish
pub mod Connect
pub mod Exchange
pub mod Start
pub mod Arguments
pub mod Pair
mod Tests
