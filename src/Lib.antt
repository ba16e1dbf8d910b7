-- ===== src/Lib.antt =====
-- ibvBench: ping-pong programs over the verbs library, a process manager interface and a logger.
--
-- The programs under rdma-core measure the time of messages between two hosts. Each exchanges
-- addresses over TCP, connects a queue pair, and then counts completions of sends and receives until
-- both sides have seen `iters` of each. The modules under modules tell the processes of a job one
-- another's names and print log lines.
--
-- Which file models which part:
--   Base             shared names: tests on the native numbers, lists measured by them, texts
--   Wire             rdma-core/pingpong.c (gid_to_wire_gid, wire_gid_to_gid, pp_mtu_to_enum) and the
--                    address line that the ping-pong programs print and scan; Wire.Read is the loop
--                    around read
--   Qp               queue pairs, as ibv_modify_qp changes them by its documentation
--   Exchange         pp_client_exch_dest and pp_server_exch_dest of rc_pingpong.c, uc_pingpong.c and
--                    ud_pingpong.c, which are the same but for the pp_connect_ctx that is called:
--     Exchange.Closes, Exchange.Agree
--                    what happens to the sockets, and what the two sides know afterwards
--     Exchange.Join  the part of main around the exchange of addresses
--   Rc               rdma-core/rc_pingpong.c:
--     Rc.Context     struct pingpong_context, pp_post_recv, pp_post_send
--     Rc.Timestamp   struct ts_params and the block of parse_single_wc that keeps it
--     Rc.Completion  parse_single_wc
--     Rc.Peer        the automaton that one side implements
--     Rc.Loop        the start of the exchange in main and its loop
--     Rc.Pair        two programs and the completions between them, as a step relation
--     Rc.Setup       pp_init_ctx with its labels, pp_close_ctx
--     Rc.Connect     pp_connect_ctx
--     Rc.Exchange    the exchange of addresses with this pp_connect_ctx
--     Rc.Arguments   the options of main and the checks behind them
--     Rc.Start       the choice of the device and the own address in main
--     Rc.Finish      main behind its loop
--   Validate         the option --chk of rc_pingpong.c, uc_pingpong.c, ud_pingpong.c, srq_pingpong.c
--   Plain            what rdma-core/uc_pingpong.c and rdma-core/ud_pingpong.c have in common:
--     Plain.Completion, Plain.Loop
--                    pp_post_recv, and what main does from its first requests to the end of its loop
--     Plain.Same     that this is what rc_pingpong.c does without its further options
--     Plain.Finish   main behind its loop
--     Plain.Setup    pp_init_ctx from the completion channel on, and pp_close_ctx
--   Uc, Ud           rdma-core/uc_pingpong.c and rdma-core/ud_pingpong.c: Setup, Connect, Messages (the
--                    requests), Arguments and Start as for Rc
--   Srq              rdma-core/srq_pingpong.c:
--     Srq.Setup      pp_init_ctx and pp_close_ctx with all queue pairs
--     Srq.Connect    pp_connect_ctx
--     Srq.Exchange, Srq.Start
--                    the exchange of the arrays of addresses, the own ones, and main around it
--     Srq.Loop       the loop of main
--     Srq.Arguments  the options of main and the checks behind them
--     Srq.Completion pp_post_recv, pp_post_send, find_qp and what main does with completions
--   Xsrq             rdma-core/xsrq_pingpong.c:
--     Xsrq.Address   the address line, how it is written and read in parts
--     Xsrq.Connect   connect_qps
--     Xsrq.Messages  pp_post_recv, pp_post_send, find_qp and the answer to a message
--     Xsrq.Exchange  pp_client_connect, pp_server_connect: the addresses and the sockets
--     Xsrq.Loop      the loop of main and the wait for the sends behind it
--     Xsrq.Setup     pp_init_ctx and pp_close_ctx
--     Xsrq.Termination  the messages that end the run
--     Xsrq.Arguments init and the options of main
--     Xsrq.Clients   the server and its clients, with the messages between them, as a step relation
--   Devinfo          rdma-core/devinfo.c: Names, Guid, Gids (the GID table), Flags (words of flags),
--                    Attributes (what --verbose adds), Hca (print_hca_cap) and Arguments (main)
--   Asyncwatch       rdma-core/asyncwatch.c
--   DeviceList       rdma-core/device_list.c
--   Pm               modules/pmi/pmi_wrapper_mpi.c: Archive, and Mpi, the interface over MPI
--     Pm.Pmi1, Pm.Pmi2
--                    modules/pmi/pmi_wrapper_pmi1.c and modules/pmi/pmi_wrapper_pmi2.c, whose
--                    operations (Pm.Operation) are given by the calls that they make
--   Log              modules/log/mlog.c: MLOG_Init and MLOG_Log_
--
-- How the code is modelled. A function with answers from outside (the verbs library, sockets,
-- memory, MPI) takes these answers as an argument. What it does outside, such as acquiring, closing
-- or writing, is a list of actions in its result. Return codes become Booleans, options or results
-- with the place of the failure. `int` counters that only count up are natural numbers; where the
-- source wraps around or compares signed numbers, this is written out. Loops over lists are
-- structural recursion. The loop of main runs over the list of the library's answers, and reports
-- `waiting` when these are used up; Rc.Pair and Xsrq.Clients have the answers that come of the other
-- programs. Digits of a number are printed with as much fuel as the number itself, which is more
-- than it has digits; the loops over the pages of a buffer have the size of the buffer as fuel, which
-- is enough as a page has at least one byte; their index is an `int`, and they give none where it
-- overflows.
--
-- Not modelled: the numbers that the ping-pong programs report at the end of main; the libraries
-- under modules/pmi/pmi1 and modules/pmi/pmi2, which are copies of other projects; MLOG_Assert_;
-- the C++ benchmarks; the scripts under experiments. What is outside the sources is a parameter:
-- the verbs library accepts or refuses each request, MPI is given by its two collective operations.
pub mod Base
pub mod Wire
pub mod Qp
pub mod Exchange
pub mod Rc
pub mod Plain
pub mod Uc
pub mod Ud
pub mod Xsrq
pub mod Srq
pub mod Devinfo
pub mod Asyncwatch
pub mod DeviceList
pub mod Pm
pub mod Log
pub mod Validate
