-- ===== src/Devinfo/Hca.antt =====
-- rdma-core/devinfo.c: `print_hca_cap`. What the library reports is an argument; what is printed, and
-- the opening and closing of the device, is recorded.
pub mod Results
use ibv_bench.Base.{
  ℕ, zero, suc, Bool, true, false, not, ◌&&◌, Option, none, some, List, [], ◌∷◌, ◌++◌, ltb, ◌==◌,
  if◌then◌else◌, map,
}
use ibv_bench.Base.Text.{Text, codes}
use ibv_bench.Wire.Gid.{Gid, Mtu}
use ibv_bench.Devinfo.Names.{
  Transport, infiniband, transport_str, PortState, port_state_str, port_phy_state_str, mtu_str,
  width_str, speed_str, vl_str, LinkLayer, link_layer_str,
}
use ibv_bench.Devinfo.Guid.{guid_str}
use ibv_bench.Devinfo.Attributes.{Header, DeviceAttrEx, Line, number, named}
use ibv_bench.Devinfo.Attributes.Verbose.{when, print_attributes}
use ibv_bench.Devinfo.Gids.{GidLine, Entry, print_all_port_gids}

-- The library's `inet_ntop`, and the constants of the headers.
pub record Library : Type 0 where
  pub inet_ntop : Gid → Text
  pub header : Header

-- `struct ibv_port_attr`, with the answers for the GID table of the port.
pub record Port : Type 0 where
  pub query_rc : ℕ
  pub state : PortState
  pub max_mtu : Option Mtu
  pub active_mtu : Option Mtu
  pub sm_lid : ℕ
  pub lid : ℕ
  pub lmc : ℕ
  pub link_layer : LinkLayer
  pub max_msg_sz : ℕ
  pub port_cap_flags : ℕ
  pub port_cap_flags2 : ℕ
  pub max_vl_num : ℕ
  pub bad_pkey_cntr : ℕ
  pub qkey_viol_cntr : ℕ
  pub sm_sl : ℕ
  pub pkey_tbl_len : ℕ
  pub subnet_timeout : ℕ
  pub init_type_reply : ℕ
  pub active_width : ℕ
  pub active_speed : ℕ
  pub phys_state : ℕ
  pub gid_tbl_len : ℕ
  pub table : ℕ → Entry

pub record Device : Type 0 where
  pub name : Text
  pub transport : Transport
  pub open_ok : Bool
  pub query_ok : Bool
  pub fw_ver : Text
  pub node_guid : ℕ
  pub sys_image_guid : ℕ
  pub vendor_id : ℕ
  pub vendor_part_id : ℕ
  pub hw_ver : ℕ
  pub board_id : Option Text
  pub phys_port_cnt : ℕ
  pub attr : DeviceAttrEx
  pub ports : ℕ → Port
  pub close_ok : Bool

pub data Event : Type 0 where
  opened closed : Event
  attribute_shown : Line → Event
  port_shown : ℕ → List Line → Event
  details_shown : List Line → Event
  gid_shown : GidLine → Event

module _ (lib : Library) (verbose : Bool) (d : Device) where
  pub port_line : ℕ → Port → Event
  port_line port p = port_shown port (
      named (codes "state") (port_state_str p.state)
      ∷ named (codes "max_mtu") (mtu_str p.max_mtu)
      ∷ named (codes "active_mtu") (mtu_str p.active_mtu)
      ∷ number (codes "sm_lid") p.sm_lid
      ∷ number (codes "port_lid") p.lid
      ∷ number (codes "port_lmc") p.lmc
      ∷ named (codes "link_layer") (link_layer_str p.link_layer)
      ∷ [])

  -- The physical state is one of InfiniBand.
  pub shows_phys_state : Transport → Bool
  shows_phys_state infiniband = true
  shows_phys_state _ = false

  pub detail_line : Port → Event
  unfolding shows_phys_state
  detail_line p = details_shown (
      number (codes "max_msg_sz") p.max_msg_sz
      ∷ number (codes "port_cap_flags") p.port_cap_flags
      ∷ number (codes "port_cap_flags2") p.port_cap_flags2
      ∷ named (codes "max_vl_num") (vl_str p.max_vl_num)
      ∷ number (codes "bad_pkey_cntr") p.bad_pkey_cntr
      ∷ number (codes "qkey_viol_cntr") p.qkey_viol_cntr
      ∷ number (codes "sm_sl") p.sm_sl
      ∷ number (codes "pkey_tbl_len") p.pkey_tbl_len
      ∷ number (codes "gid_tbl_len") p.gid_tbl_len
      ∷ number (codes "subnet_timeout") p.subnet_timeout
      ∷ number (codes "init_type_reply") p.init_type_reply
      ∷ named (codes "active_width") (width_str p.active_width)
      ∷ named (codes "active_speed") (speed_str p.active_speed)
      ∷ when (shows_phys_state d.transport)
          (named (codes "phys_state") (port_phy_state_str p.phys_state) ∷ []))

  -- One port that was queried: whether the loop goes on, and what is printed.
  pub port_body : ℕ → Port → Bool × List Event
  unfolding port_line detail_line
  port_body port p =
      let (rc, gids) = print_all_port_gids lib.inet_ntop p.link_layer p.table p.gid_tbl_len in
      if verbose
      then (rc == 0, port_line port p ∷ detail_line p ∷ map gid_shown gids)
      else (true, port_line port p ∷ [])

  -- The `for` from `port` on with so many ports left: `rc` at the label `cleanup`. It stays 0 where
  -- `print_all_port_gids` fails.
  pub print_ports : ℕ → ℕ → ℕ → ℕ × List Event
  unfolding port_body
  print_ports ib_port port zero = (0, [])
  print_ports ib_port port (suc left) =
      let rest = print_ports ib_port (suc port) left in
      let (on, shown) = port_body port (d.ports port) in
      let rc = (d.ports port).query_rc in
      if not (ib_port == 0) && not (port == ib_port)
      then rest
      else if not (rc == 0)
      then (rc, [])
      else if on
      then (rest.0, shown ++ rest.1)
      else (0, shown)

  -- The firmware's version if it is not empty, and the board if its file can be read.
  version_line : Text → List Line
  version_line [] = []
  version_line v = named (codes "fw_ver") v ∷ []

  board_line : Option Text → List Line
  board_line none = []
  board_line (some b) = named (codes "board_id") b ∷ []

  -- What is printed in front of the ports.
  pub device_lines : List Line
  unfolding version_line board_line
  device_lines =
      (named (codes "hca_id") d.name ∷ named (codes "transport") (transport_str d.transport) ∷ [])
      ++ version_line d.fw_ver
      ++ (named (codes "node_guid") (guid_str d.node_guid)
          ∷ named (codes "sys_image_guid") (guid_str d.sys_image_guid)
          ∷ number (codes "vendor_id") d.vendor_id
          ∷ number (codes "vendor_part_id") d.vendor_part_id
          ∷ number (codes "hw_ver") d.hw_ver
          ∷ [])
      ++ board_line d.board_id
      ++ (number (codes "phys_port_cnt") d.phys_port_cnt ∷ [])
      ++ when verbose (print_attributes lib.header d.attr)

  -- Behind `ibv_open_device`, up to `cleanup`.
  pub print_device : ℕ → ℕ × List Event
  unfolding print_ports device_lines
  print_device ib_port =
      let (rc, shown) = print_ports ib_port 1 d.phys_port_cnt in
      if not d.query_ok
      then (2, [])
      else if not (ib_port == 0) && ltb d.phys_port_cnt ib_port
      then (4, [])
      else (rc, map attribute_shown device_lines ++ shown)

  -- The argument is a `uint8_t`.
  pub print_hca_cap : ℕ → ℕ × List Event
  unfolding print_device
  print_hca_cap ib_port =
      let (rc, shown) = print_device ib_port in
      if d.open_ok
      then (if d.close_ok then rc else 3, opened ∷ (shown ++ (closed ∷ [])))
      else (1, [])
