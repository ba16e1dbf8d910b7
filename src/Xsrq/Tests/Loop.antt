-- ===== src/Xsrq/Tests/Loop.antt =====
-- A server with one client and one test: the only message comes in the first round.
use ibv_bench.Base.{true, some, List, [], ◌∷◌}
use ibv_bench.Xsrq.Messages.{Settings, Verbs, Process, Send}
use ibv_bench.Xsrq.Loop.{poll_empty, poll_recv, Round, Run}

abbrev settings : Settings
settings = record { num_clients = 1; num_tests = 1; qp_num = λ i. 0x48 }

abbrev verbs : Verbs
verbs = record { takes_recv = λ _. true; takes_send = λ _ _. true }

abbrev process : Process
process = record { pp_cnt = 1 ∷ []; cnt = 0; posted = 1; recv_calls = 1; send_calls = 1 }

abbrev first : Send
first = record { qpi = 0; index = 0; signaled = true }

abbrev rounds : List Round
rounds =
    record {
      event = record { event_ok = true; is_recv_cq = true; notify_ok = true };
      polls = poll_recv 0x48 ∷ poll_empty ∷ [];
    }
    ∷ []

abbrev run : Run
run = record { sends = some first ∷ []; process = process }
