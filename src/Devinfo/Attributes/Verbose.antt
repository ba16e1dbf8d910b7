-- ===== src/Devinfo/Attributes/Verbose.antt =====
-- rdma-core/devinfo.c: what `print_hca_cap` prints of a device with --verbose, with `print_tm_caps`,
-- `print_tso_caps`, `print_rss_caps`, `print_cq_moderation_caps` and `print_packet_pacing_caps`.
use ibv_bench.Base.{
  ℕ, Bool, not, ◌&&◌, Option, none, some, List, [], ◌∷◌, ◌++◌, ◌==◌, if◌then◌else◌, map,
}
use ibv_bench.Base.Text.{Text, codes}
use ibv_bench.Devinfo.Names.{atomic_cap_str}
use ibv_bench.Devinfo.Flags.{
  Word, Printed, any_below, print_device_cap_flags, print_odp_caps, print_device_cap_flags_ex,
  print_raw_packet_caps, print_supported_qp,
}
use ibv_bench.Devinfo.Attributes.{
  Header, DeviceAttr, TmCaps, TsoCaps, RssCaps, CqModerationCaps, PacketPacingCaps, DeviceAttrEx,
  Line, text, number, named, flags,
}

-- Lines under a condition.
abbrev pub when : Bool → List Line → List Line
when b ls = if b then ls else []

abbrev nonzero : ℕ → Bool
nonzero n = not (n == 0)

qp_lines : Option Printed → List Line
qp_lines none = []
qp_lines (some p) = flags (codes "supported_qp") p ∷ []

module _ (h : Header) where
  pub print_tm_caps : TmCaps → List Line
  print_tm_caps c =
      if nonzero c.max_num_tags
      then number (codes "max_rndv_hdr_size") c.max_rndv_hdr_size
        ∷ number (codes "max_num_tags") c.max_num_tags
        ∷ number (codes "max_ops") c.max_ops
        ∷ number (codes "max_sge") c.max_sge
        ∷ text (codes "flags")
        ∷ when (c.flags h.tm_cap_rc) (text (codes "IBV_TM_CAP_RC") ∷ [])
      else text (codes "tag matching not supported") ∷ []

  pub print_tso_caps : TsoCaps → List Line
  unfolding qp_lines
  print_tso_caps c =
      text (codes "tso_caps")
      ∷ number (codes "max_tso") c.max_tso
      ∷ qp_lines (print_supported_qp h.qp_type (nonzero c.max_tso) c.supported_qpts)

  pub print_rss_caps : RssCaps → List Line
  unfolding qp_lines
  print_rss_caps c =
      text (codes "rss_caps")
      ∷ number (codes "max_rwq_indirection_tables") c.max_rwq_indirection_tables
      ∷ number (codes "max_rwq_indirection_table_size") c.max_rwq_indirection_table_size
      ∷ number (codes "rx_hash_function") c.rx_hash_function
      ∷ number (codes "rx_hash_fields_mask") c.rx_hash_fields_mask
      ∷ qp_lines (print_supported_qp h.qp_type (any_below 32 c.supported_qpts) c.supported_qpts)

  pub print_cq_moderation_caps : CqModerationCaps → List Line
  print_cq_moderation_caps c = when (nonzero c.max_cq_count && nonzero c.max_cq_period) (
      text (codes "cq moderation caps")
      ∷ number (codes "max_cq_count") c.max_cq_count
      ∷ number (codes "max_cq_period") c.max_cq_period
      ∷ [])

  unfoldable pub print_packet_pacing_caps : PacketPacingCaps → List Line
  unfolding qp_lines
  print_packet_pacing_caps c =
      text (codes "packet_pacing_caps")
      ∷ number (codes "qp_rate_limit_min") c.qp_rate_limit_min
      ∷ number (codes "qp_rate_limit_max") c.qp_rate_limit_max
      ∷ qp_lines (print_supported_qp h.qp_type (nonzero c.qp_rate_limit_max) c.supported_qpts)

  -- The lines that are always printed.
  basic_lines : DeviceAttr → List Line
  basic_lines a =
      number (codes "max_mr_size") a.max_mr_size
      ∷ number (codes "page_size_cap") a.page_size_cap
      ∷ number (codes "max_qp") a.max_qp
      ∷ number (codes "max_qp_wr") a.max_qp_wr
      ∷ flags (codes "device_cap_flags") (print_device_cap_flags h.device_cap a.device_cap_flags)
      ∷ number (codes "max_sge") a.max_sge
      ∷ number (codes "max_sge_rd") a.max_sge_rd
      ∷ number (codes "max_cq") a.max_cq
      ∷ number (codes "max_cqe") a.max_cqe
      ∷ number (codes "max_mr") a.max_mr
      ∷ number (codes "max_pd") a.max_pd
      ∷ number (codes "max_qp_rd_atom") a.max_qp_rd_atom
      ∷ number (codes "max_ee_rd_atom") a.max_ee_rd_atom
      ∷ number (codes "max_res_rd_atom") a.max_res_rd_atom
      ∷ number (codes "max_qp_init_rd_atom") a.max_qp_init_rd_atom
      ∷ number (codes "max_ee_init_rd_atom") a.max_ee_init_rd_atom
      ∷ named (codes "atomic_cap") (atomic_cap_str a.atomic_cap)
      ∷ number (codes "max_ee") a.max_ee
      ∷ number (codes "max_rdd") a.max_rdd
      ∷ number (codes "max_mw") a.max_mw
      ∷ number (codes "max_raw_ipv6_qp") a.max_raw_ipv6_qp
      ∷ number (codes "max_raw_ethy_qp") a.max_raw_ethy_qp
      ∷ number (codes "max_mcast_grp") a.max_mcast_grp
      ∷ number (codes "max_mcast_qp_attach") a.max_mcast_qp_attach
      ∷ number (codes "max_total_mcast_qp_attach") a.max_total_mcast_qp_attach
      ∷ number (codes "max_ah") a.max_ah
      ∷ number (codes "max_fmr") a.max_fmr
      ∷ []

  -- From `max_map_per_fmr` on.
  pool_lines : DeviceAttr → List Line
  pool_lines a =
      when (nonzero a.max_fmr) (number (codes "max_map_per_fmr") a.max_map_per_fmr ∷ [])
      ++ (number (codes "max_srq") a.max_srq ∷ [])
      ++ when (nonzero a.max_srq) (
          number (codes "max_srq_wr") a.max_srq_wr
          ∷ number (codes "max_srq_sge") a.max_srq_sge
          ∷ [])
      ++ (number (codes "max_pkeys") a.max_pkeys
          ∷ number (codes "local_ca_ack_delay") a.local_ca_ack_delay
          ∷ [])

  -- The labels of `print_odp_caps`, each with its word.
  odp_lines : List Text → List Printed → List Line
  odp_lines (l ∷ ls) (p ∷ ps) = flags l p ∷ odp_lines ls ps
  odp_lines _ _ = []

  abbrev odp_labels : List Text
  odp_labels =
      codes "general_odp_caps"
      ∷ codes "rc_odp_caps"
      ∷ codes "uc_odp_caps"
      ∷ codes "ud_odp_caps"
      ∷ codes "xrc_odp_caps"
      ∷ []

  clock_lines : DeviceAttrEx → List Line
  clock_lines a =
      (if nonzero a.completion_timestamp_mask
        then number (codes "completion timestamp_mask") a.completion_timestamp_mask
        else text (codes "completion_timestamp_mask not supported"))
      ∷ (if nonzero a.hca_core_clock
          then number (codes "hca_core_clock") a.hca_core_clock
          else text (codes "core clock not supported"))
      ∷ []

  -- Also the heading is printed only where the word is not 0.
  packet_lines : Word → List Line
  packet_lines w =
      when (any_below 32 w)
        (text (codes "raw packet caps") ∷ map text (print_raw_packet_caps h.packet_cap w))

  -- The block under `verbose`.
  pub print_attributes : DeviceAttrEx → List Line
  unfolding basic_lines pool_lines odp_lines clock_lines packet_lines print_tso_caps print_rss_caps
      print_packet_pacing_caps print_tm_caps print_cq_moderation_caps
  print_attributes a =
      basic_lines a.orig_attr
      ++ pool_lines a.orig_attr
      ++ odp_lines odp_labels (print_odp_caps h.odp_cap a.general_caps a.transport_caps)
      ++ clock_lines a
      ++ packet_lines a.raw_packet_caps
      ++ (flags (codes "device_cap_flags_ex")
            (print_device_cap_flags_ex h.extended_cap a.device_cap_flags_ex)
          ∷ [])
      ++ print_tso_caps a.tso_caps
      ++ print_rss_caps a.rss_caps
      ++ (number (codes "max_wq_type_rq") a.max_wq_type_rq ∷ [])
      ++ print_packet_pacing_caps a.packet_pacing_caps
      ++ print_tm_caps a.tm_caps
      ++ print_cq_moderation_caps a.cq_mod_caps
      ++ when (nonzero a.max_dm_size)
          (number (codes "maximum available device memory") a.max_dm_size ∷ [])
