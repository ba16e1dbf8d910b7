-- ===== src/Ud.antt =====
-- rdma-core/ud_pingpong.c: ping-pong with unreliable datagrams. What it has in common with
-- uc_pingpong.c stands in Plain.
pub mod Setup
pub mod Address
pub mod Connect
pub mod Messages
pub mod Arguments
pub mod Start
mod Tests
