-- ===== src/Devinfo/Tests.antt =====
-- A device with two ports, of which the first has a GID table that cannot be read.
use ibv_bench.Base.{
  ℕ, ◌<◌, ◌≡◌, ◌↔◌, refl, true, ◌&&◌, some, none, false, ◌==◌, List, [], ◌∷◌, ◌++◌, arith, length,
}
use ibv_bench.Base.Text.{codes}
use ibv_bench.Wire.Gid.{mtu_1024, mtu_4096}
use ibv_bench.Rc.Start.{no_gid}
use ibv_bench.Devinfo.Names.{
  infiniband, port_active, infiniband_layer, atomic_hca, roce_v1, mtu_str, width_str,
}
use ibv_bench.Devinfo.Guid.{guid_str, guid_of, guid_of-guid_str}
use ibv_bench.Devinfo.Flags.{Word, resize_max_wr, xrc, raw_packet, ud_type, print_supported_qp}
use ibv_bench.Devinfo.Attributes.{Header, DeviceAttr, DeviceAttrEx, text, number, flags}
use ibv_bench.Devinfo.Attributes.Verbose.{print_packet_pacing_caps}
use ibv_bench.Devinfo.Gids.{Entry}
use ibv_bench.Devinfo.Hca.{Library, Port, Device, Event, opened, closed, print_hca_cap}
use ibv_bench.Devinfo.Hca.Results.{ports_of, asked, usable, print_hca_cap-zero, print_hca_cap-shows}

guid_of-guid_str_example :
    (length (guid_str 0x0002c90300fed670) ≡ 19)
    × (guid_of (guid_str 0x0002c90300fed670) ≡ some 0x0002c90300fed670)
guid_of-guid_str_example = guid_of-guid_str 0x0002c90300fed670 (omega arith)

mtu_named : mtu_str (some mtu_4096) ≡ codes "4096"
unfolding mtu_str
mtu_named = refl

width_named : width_str 8 ≡ codes "12"
unfolding width_str
width_named = refl

-- The bits of the headers, numbered from 0 on.
abbrev header : Header
header = record {
  device_cap = λ c. elim c [ resize_max_wr ↦ 0 | xrc ↦ 20 | _ ↦ 1 ];
  odp_cap = λ c. 0;
  extended_cap = λ c. 34;
  packet_cap = λ c. 0;
  qp_type = λ t. elim t [ raw_packet ↦ 8 | ud_type ↦ 4 ];
  tm_cap_rc = 0;
}

abbrev no_bits : Word
no_bits b = false

abbrev device_attr : DeviceAttr
device_attr = record {
  max_mr_size = 16;
  page_size_cap = 16;
  max_qp = 16;
  max_qp_wr = 16;
  device_cap_flags = no_bits;
  max_sge = 16;
  max_sge_rd = 16;
  max_cq = 16;
  max_cqe = 16;
  max_mr = 16;
  max_pd = 16;
  max_qp_rd_atom = 16;
  max_ee_rd_atom = 16;
  max_res_rd_atom = 16;
  max_qp_init_rd_atom = 16;
  max_ee_init_rd_atom = 16;
  atomic_cap = atomic_hca;
  max_ee = 16;
  max_rdd = 16;
  max_mw = 16;
  max_raw_ipv6_qp = 16;
  max_raw_ethy_qp = 16;
  max_mcast_grp = 16;
  max_mcast_qp_attach = 16;
  max_total_mcast_qp_attach = 16;
  max_ah = 16;
  max_fmr = 0;
  max_map_per_fmr = 16;
  max_srq = 16;
  max_srq_wr = 16;
  max_srq_sge = 16;
  max_pkeys = 16;
  local_ca_ack_delay = 16;
}

abbrev attr : DeviceAttrEx
attr = record {
  orig_attr = device_attr;
  general_caps = no_bits;
  transport_caps = no_bits ∷ no_bits ∷ no_bits ∷ no_bits ∷ [];
  completion_timestamp_mask = 0;
  hca_core_clock = 0;
  raw_packet_caps = no_bits;
  device_cap_flags_ex = no_bits;
  tso_caps = record { max_tso = 0; supported_qpts = no_bits };
  rss_caps = record {
    supported_qpts = no_bits;
    max_rwq_indirection_tables = 0;
    max_rwq_indirection_table_size = 0;
    rx_hash_fields_mask = 0;
    rx_hash_function = 0;
  };
  max_wq_type_rq = 0;
  packet_pacing_caps = record {
    qp_rate_limit_min = 0;
    qp_rate_limit_max = 9;
    supported_qpts = λ b. b == 8;
  };
  tm_caps = record {
    max_rndv_hdr_size = 0;
    max_num_tags = 0;
    max_ops = 0;
    max_sge = 0;
    flags = no_bits;
  };
  cq_mod_caps = record { max_cq_count = 0; max_cq_period = 0 };
  max_dm_size = 0;
}

-- Queue pairs for raw packets are the only ones that are paced.
paced :
    print_packet_pacing_caps header attr.packet_pacing_caps
    ≡ text (codes "packet_pacing_caps")
      ∷ number (codes "qp_rate_limit_min") 0
      ∷ number (codes "qp_rate_limit_max") 9
      ∷ flags
          (codes "supported_qp")
          (record { names = codes "SUPPORT_RAW_PACKET" ∷ []; unknown = none })
      ∷ []
unfolding print_packet_pacing_caps print_supported_qp
paced = refl

abbrev entry : ℕ → Entry
entry rc = record { query_rc = rc; gid = no_gid; gid_type = some roce_v1 }

-- The table of a port, each of whose queries has one answer.
abbrev port : ℕ → Port
port rc = record {
  query_rc = 0;
  state = port_active;
  max_mtu = some mtu_4096;
  active_mtu = some mtu_1024;
  sm_lid = 1;
  lid = 2;
  lmc = 0;
  link_layer = infiniband_layer;
  max_msg_sz = 16;
  port_cap_flags = 0;
  port_cap_flags2 = 0;
  max_vl_num = 4;
  bad_pkey_cntr = 0;
  qkey_viol_cntr = 0;
  sm_sl = 0;
  pkey_tbl_len = 1;
  subnet_timeout = 18;
  init_type_reply = 0;
  active_width = 2;
  active_speed = 16;
  phys_state = 5;
  gid_tbl_len = 2;
  table = λ i. entry rc;
}

abbrev device : ℕ → Device
device rc = record {
  name = codes "mlx5_0";
  transport = infiniband;
  open_ok = true;
  query_ok = true;
  fw_ver = [];
  node_guid = 0x0002c90300fed670;
  sys_image_guid = 0x0002c90300fed673;
  vendor_id = 0x02c9;
  vendor_part_id = 4123;
  hw_ver = 0;
  board_id = none;
  phys_port_cnt = 2;
  attr = attr;
  ports = λ p. port rc;
  close_ok = true;
}

abbrev library : Library
library = record { inet_ntop = λ g. codes "::"; header = header }

device-usable : (rc ib_port : ℕ) → ib_port < 3 → usable library true (device rc) ib_port ≡ true
unfolding usable
device-usable rc ib_port small = ground arith

-- The queries of the GID table fail, and the status is 0.
print_hca_cap-zero_example :
    ((print_hca_cap library true (device 22) 0).0 ≡ 0)
    ↔ ((usable library true (device 22) 0 && true) ≡ true)
print_hca_cap-zero_example = print_hca_cap-zero library true (device 22) 0 (λ p. refl)

print_hca_cap-shows_example :
    let lines = (print_hca_cap library true (device 0) 2).1 in
    (ports_of lines ≡ asked 2 1 2) × ((es : List Event) × (lines ≡ opened ∷ (es ++ (closed ∷ []))))
print_hca_cap-shows_example =
    print_hca_cap-shows library true (device 0) 2 (device-usable 0 2 (omega arith)) (λ p. refl)
      (λ p i. refl)

asked_ports : (asked 2 1 3 ≡ 2 ∷ []) × (asked 0 1 2 ≡ 1 ∷ 2 ∷ [])
unfolding asked
asked_ports = (refl, refl)
