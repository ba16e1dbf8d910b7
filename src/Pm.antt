-- ===== src/Pm.antt =====
-- modules/pmi: how the processes of a job tell one another their names.
pub mod Archive
pub mod Mpi
pub mod Operation
pub mod Pmi1
pub mod Pmi2
mod Tests
