-- ===== src/Rc/Tests/Start.antt =====
-- The device and the own address at fixed answers.
use ibv_bench.Base.{◌≡◌, refl, false, some, List, [], ◌∷◌}
use ibv_bench.Base.Text.{Text, codes, text_eq}
use ibv_bench.Wire.Gid.{Gid}
use ibv_bench.Wire.Address.{Dest}
use ibv_bench.Rc.Start.{choose_device, PortInfo, own_address}

abbrev devices : List Text
devices = codes "mlx5_0" ∷ codes "mlx5_1" ∷ []

second_chosen : choose_device (some devices) (some (codes "mlx5_1")) ≡ some 1
unfolding choose_device text_eq
second_chosen = refl

abbrev port : PortInfo
port = record { lid = 7; is_ethernet = false }

abbrev link_local : Gid
link_local = record {
  w0 = record { b0 = 0xfe; b1 = 0x80; b2 = 0; b3 = 0 };
  w1 = record { b0 = 0; b1 = 0; b2 = 0; b3 = 0 };
  w2 = record { b0 = 0; b1 = 2; b2 = 0xc9; b3 = 3 };
  w3 = record { b0 = 0; b1 = 0x4b; b2 = 0x12; b3 = 0xff };
}

abbrev own : Dest
own = record { lid = 7; qpn = 0x48; psn = 0x345678; gid = link_local }

made : own_address (some port) 3 (some link_local) 0x48 0x12345678 ≡ some own
unfolding own_address
made = refl
