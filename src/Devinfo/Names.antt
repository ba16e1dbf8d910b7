-- ===== src/Devinfo/Names.antt =====
-- rdma-core/devinfo.c: the names of the values of the verbs library's enumerations. A value that
-- the library's header does not name is `other`; in the header's other fields it is a number.
use ibv_bench.Base.{ℕ, Option, none, some, ◌==◌, if◌then◌else◌}
use ibv_bench.Base.Text.{Text, codes}
use ibv_bench.Wire.Gid.{Mtu, mtu_256, mtu_512, mtu_1024, mtu_2048, mtu_4096}

pub data Transport : Type 0 where
  infiniband iwarp usnic usnic_udp unspecified other : Transport

unfoldable pub transport_str : Transport → Text
transport_str infiniband = codes "InfiniBand"
transport_str iwarp = codes "iWARP"
transport_str usnic = codes "usNIC"
transport_str usnic_udp = codes "usNIC UDP"
transport_str unspecified = codes "unspecified"
transport_str other = codes "invalid transport"

pub data PortState : Type 0 where
  port_down port_init port_armed port_active other_state : PortState

unfoldable pub port_state_str : PortState → Text
port_state_str port_down = codes "PORT_DOWN"
port_state_str port_init = codes "PORT_INIT"
port_state_str port_armed = codes "PORT_ARMED"
port_state_str port_active = codes "PORT_ACTIVE"
port_state_str other_state = codes "invalid state"

unfoldable pub port_phy_state_str : ℕ → Text
port_phy_state_str s =
    if s == 1
    then codes "SLEEP"
    else if s == 2
    then codes "POLLING"
    else if s == 3
    then codes "DISABLED"
    else if s == 4
    then codes "PORT_CONFIGURATION TRAINNING"
    else if s == 5
    then codes "LINK_UP"
    else if s == 6
    then codes "LINK_ERROR_RECOVERY"
    else if s == 7
    then codes "PHY TEST"
    else codes "invalid physical state"

pub data AtomicCap : Type 0 where
  atomic_none atomic_hca atomic_glob other_cap : AtomicCap

unfoldable pub atomic_cap_str : AtomicCap → Text
atomic_cap_str atomic_none = codes "ATOMIC_NONE"
atomic_cap_str atomic_hca = codes "ATOMIC_HCA"
atomic_cap_str atomic_glob = codes "ATOMIC_GLOB"
atomic_cap_str other_cap = codes "invalid atomic capability"

unfoldable pub mtu_str : Option Mtu → Text
mtu_str (some mtu_256) = codes "256"
mtu_str (some mtu_512) = codes "512"
mtu_str (some mtu_1024) = codes "1024"
mtu_str (some mtu_2048) = codes "2048"
mtu_str (some mtu_4096) = codes "4096"
mtu_str none = codes "invalid MTU"

unfoldable pub width_str : ℕ → Text
width_str w =
    if w == 1
    then codes "1"
    else if w == 2
    then codes "4"
    else if w == 4
    then codes "8"
    else if w == 8
    then codes "12"
    else if w == 16
    then codes "2"
    else codes "invalid width"

unfoldable pub speed_str : ℕ → Text
speed_str s =
    if s == 1
    then codes "2.5 Gbps"
    else if s == 2
    then codes "5.0 Gbps"
    else if s == 4
    then codes "10.0 Gbps"
    else if s == 8
    then codes "10.0 Gbps"
    else if s == 16
    then codes "14.0 Gbps"
    else if s == 32
    then codes "25.0 Gbps"
    else if s == 64
    then codes "50.0 Gbps"
    else codes "invalid speed"

unfoldable pub vl_str : ℕ → Text
vl_str v =
    if v == 1
    then codes "1"
    else if v == 2
    then codes "2"
    else if v == 3
    then codes "4"
    else if v == 4
    then codes "8"
    else if v == 5
    then codes "15"
    else codes "invalid value"

-- `DEVINFO_INVALID_GID_TYPE` is a value that the library does not name.
pub data GidType : Type 0 where
  roce_v1 roce_v2 invalid_type : GidType

unfoldable pub gid_type_str : GidType → Text
gid_type_str roce_v1 = codes "RoCE v1"
gid_type_str roce_v2 = codes "RoCE v2"
gid_type_str invalid_type = codes "Invalid gid type"

pub data LinkLayer : Type 0 where
  unspecified_layer infiniband_layer ethernet_layer other_layer : LinkLayer

unfoldable pub link_layer_str : LinkLayer → Text
link_layer_str unspecified_layer = codes "Unspecified"
link_layer_str infiniband_layer = codes "InfiniBand"
link_layer_str ethernet_layer = codes "Ethernet"
link_layer_str other_layer = codes "Unknown"
