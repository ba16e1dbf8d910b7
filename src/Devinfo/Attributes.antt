-- ===== src/Devinfo/Attributes.antt =====
-- rdma-core/devinfo.c: the attributes of a device that `print_hca_cap` prints, and the lines for them. A
-- line is recorded with its label and the number, the text or the flags that it shows; the number that
-- stands behind a name or in front of flags is not.
pub mod Verbose
use ibv_bench.Base.{ℕ, List}
use ibv_bench.Base.Text.{Text}
use ibv_bench.Devinfo.Names.{AtomicCap}
use ibv_bench.Devinfo.Flags.{Word, Printed, DeviceCap, OdpCap, ExtendedCap, PacketCap, QpType}

-- The constants of the library's headers: positions of bits, and numbers of queue pairs' types.
pub record Header : Type 0 where
  pub device_cap : DeviceCap → ℕ
  pub odp_cap : OdpCap → ℕ
  pub extended_cap : ExtendedCap → ℕ
  pub packet_cap : PacketCap → ℕ
  pub qp_type : QpType → ℕ
  pub tm_cap_rc : ℕ

-- `struct ibv_device_attr`, without what `print_hca_cap` prints at once.
pub record DeviceAttr : Type 0 where
  pub max_mr_size : ℕ
  pub page_size_cap : ℕ
  pub max_qp : ℕ
  pub max_qp_wr : ℕ
  pub device_cap_flags : Word
  pub max_sge : ℕ
  pub max_sge_rd : ℕ
  pub max_cq : ℕ
  pub max_cqe : ℕ
  pub max_mr : ℕ
  pub max_pd : ℕ
  pub max_qp_rd_atom : ℕ
  pub max_ee_rd_atom : ℕ
  pub max_res_rd_atom : ℕ
  pub max_qp_init_rd_atom : ℕ
  pub max_ee_init_rd_atom : ℕ
  pub atomic_cap : AtomicCap
  pub max_ee : ℕ
  pub max_rdd : ℕ
  pub max_mw : ℕ
  pub max_raw_ipv6_qp : ℕ
  pub max_raw_ethy_qp : ℕ
  pub max_mcast_grp : ℕ
  pub max_mcast_qp_attach : ℕ
  pub max_total_mcast_qp_attach : ℕ
  pub max_ah : ℕ
  pub max_fmr : ℕ
  pub max_map_per_fmr : ℕ
  pub max_srq : ℕ
  pub max_srq_wr : ℕ
  pub max_srq_sge : ℕ
  pub max_pkeys : ℕ
  pub local_ca_ack_delay : ℕ

pub record TmCaps : Type 0 where
  pub max_rndv_hdr_size : ℕ
  pub max_num_tags : ℕ
  pub max_ops : ℕ
  pub max_sge : ℕ
  pub flags : Word

pub record TsoCaps : Type 0 where
  pub max_tso : ℕ
  pub supported_qpts : Word

pub record RssCaps : Type 0 where
  pub supported_qpts : Word
  pub max_rwq_indirection_tables : ℕ
  pub max_rwq_indirection_table_size : ℕ
  pub rx_hash_fields_mask : ℕ
  pub rx_hash_function : ℕ

pub record CqModerationCaps : Type 0 where
  pub max_cq_count : ℕ
  pub max_cq_period : ℕ

pub record PacketPacingCaps : Type 0 where
  pub qp_rate_limit_min : ℕ
  pub qp_rate_limit_max : ℕ
  pub supported_qpts : Word

-- `struct ibv_device_attr_ex`; `transport_caps` are the words of RC, UC, UD and XRC.
pub record DeviceAttrEx : Type 0 where
  pub orig_attr : DeviceAttr
  pub general_caps : Word
  pub transport_caps : List Word
  pub completion_timestamp_mask : ℕ
  pub hca_core_clock : ℕ
  pub raw_packet_caps : Word
  pub device_cap_flags_ex : Word
  pub tso_caps : TsoCaps
  pub rss_caps : RssCaps
  pub max_wq_type_rq : ℕ
  pub packet_pacing_caps : PacketPacingCaps
  pub tm_caps : TmCaps
  pub cq_mod_caps : CqModerationCaps
  pub max_dm_size : ℕ

pub data Line : Type 0 where
  text : Text → Line
  number : Text → ℕ → Line
  named : Text → Text → Line
  flags : Text → Printed → Line
