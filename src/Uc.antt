-- ===== src/Uc.antt =====
-- rdma-core/uc_pingpong.c: ping-pong over an unreliable connection. What it has in common with
-- ud_pingpong.c stands in Plain.
pub mod Setup
pub mod Connect
pub mod Messages
pub mod Arguments
pub mod Start
mod Tests
