-- ===== src/Plain.antt =====
-- What rdma-core/uc_pingpong.c and rdma-core/ud_pingpong.c have in common: the exchange of messages
-- without time stamps, device memory and paging on demand. The lines named are those of
-- uc_pingpong.c; ud_pingpong.c differs in the requests that it posts.
pub mod Completion
pub mod Loop
pub mod Same
pub mod Setup
pub mod Finish
