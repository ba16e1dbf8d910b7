-- ===== src/Uc/Start.antt =====
-- rdma-core/uc_pingpong.c: the choice of the device, the own address, and what `main` does with the
-- exchange of addresses, all in the words of rdma-core/rc_pingpong.c.
use ibv_bench.Base.{ℕ, Bool, Option, List}
use ibv_bench.Base.Text.{Text}
use ibv_bench.Wire.Gid.{Gid}
use ibv_bench.Wire.Address.{Dest}
use ibv_bench.Qp.{Modify}
use ibv_bench.Exchange.{Route, Socket}
use ibv_bench.Exchange.Join.{Peers, join as tcp_join}
use ibv_bench.Rc.Start.{PortInfo, choose_device as rc_choose_device, own_address as rc_own_address}
use ibv_bench.Uc.Connect.{uc_transport}

-- The index of `ib_dev` in `dev_list`; none where `main` returns 1.
abbrev pub choose_device : Option (List Text) → Option Text → Option ℕ
choose_device devices ib_devname = rc_choose_device devices ib_devname

-- `my_dest`; none where `main` returns 1.
abbrev pub own_address : Option PortInfo → ℕ → Option Gid → ℕ → ℕ → Option Dest
own_address info gidx queried qp_num random = rc_own_address info gidx queried qp_num random

-- `rem_dest`, what is done with sockets, and the calls on the queue pair; none where `main` returns 1.
abbrev pub join :
    Bool → Peers uc_transport → ℕ → Route → Option Dest → Option Dest × List Socket × List Modify
join servername d junk route my_dest = tcp_join uc_transport servername d junk route my_dest
