-- ===== src/Devinfo.antt =====
-- rdma-core/devinfo.c, which prints what the verbs library reports of devices and ports.
pub mod Names
pub mod Guid
pub mod Flags
pub mod Attributes
pub mod Gids
pub mod Hca
pub mod Arguments
mod Tests
