-- ===== src/Wire.antt =====
-- The text that two programs exchange to find one another: rdma-core/pingpong.c, and the address
-- lines of the `pp_*_exch_dest` functions.
pub mod Hex
pub mod Gid
pub mod Nul
pub mod Read
pub mod Address
mod Tests
