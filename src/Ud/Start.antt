-- ===== src/Ud/Start.antt =====
-- rdma-core/ud_pingpong.c: the choice of the device, and what `main` does with the exchange of
-- addresses.
use ibv_bench.Base.{ℕ, Bool, Option, List}
use ibv_bench.Base.Text.{Text}
use ibv_bench.Wire.Address.{Dest}
use ibv_bench.Exchange.{Route, Socket}
use ibv_bench.Exchange.Join.{Peers, join as tcp_join}
use ibv_bench.Rc.Start.{choose_device as rc_choose_device}
use ibv_bench.Ud.Connect.{Call, ud_transport}

-- The index of `ib_dev` in `dev_list`; none where `main` returns 1.
abbrev pub choose_device : Option (List Text) → Option Text → Option ℕ
choose_device devices ib_devname = rc_choose_device devices ib_devname

-- `rem_dest`, what is done with sockets, and the calls on the queue pair; none where `main` returns 1.
abbrev pub join :
    Bool → Peers ud_transport → ℕ → Route → Option Dest → Option Dest × List Socket × List Call
join servername d junk route my_dest = tcp_join ud_transport servername d junk route my_dest
