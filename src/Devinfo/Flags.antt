-- ===== src/Devinfo/Flags.antt =====
-- rdma-core/devinfo.c: the functions that print words of flags. A word is given by its bits, as each
-- constant of the library's header is one bit, whose position is a parameter.
use ibv_bench.Base.{
  ℕ, zero, suc, ◌≡◌, refl, Bool, false, not, ◌&&◌, ◌||◌, Option, none, some, List, [], ◌∷◌, map,
  arith, ◌==◌, if◌then◌else◌, Bool-cases, inl, inr, ap, ◌<◌, leb,
}
use ibv_bench.Base.Text.{Text, codes}

abbrev pub Word : Type 0
Word = ℕ → Bool

-- A constant of the header, with the text that is printed for it.
pub record Flag : Type 0 where
  pub bit : ℕ
  pub name : Text

-- Whether a bit is one of those of some constants.
pub is_known : List Flag → Word
is_known [] b = false
is_known (f ∷ fs) b = b == f.bit || is_known fs b

-- The constants whose bits are set, in order.
pub set_flags : List Flag → Word → List Flag
set_flags [] w = []
set_flags (f ∷ fs) w = if w f.bit then f ∷ set_flags fs w else set_flags fs w

-- `w & ~(...)`
pub unknown_flags : List Flag → Word → Word
unfolding is_known
unknown_flags fs w b = w b && not (is_known fs b)

-- Whether a word of some bits is not 0.
pub any_below : ℕ → Word → Bool
any_below zero w = false
any_below (suc n) w = w n || any_below n w

-- What is printed of a word: the constants, and the rest, if it is not 0.
pub record Printed : Type 0 where
  pub names : List Text
  pub unknown : Option Word

pub print_flags : ℕ → List Flag → Word → Printed
unfolding set_flags unknown_flags any_below
print_flags width fs w = record {
  names = map (λ f. f.name) (set_flags fs w);
  unknown = if any_below width (unknown_flags fs w) then some (unknown_flags fs w) else none;
}

pub data DeviceCap : Type 0 where
  resize_max_wr bad_pkey_cntr bad_qkey_cntr raw_multi auto_path_mig change_phy_port : DeviceCap
  ud_av_port_enforce curr_qp_state_mod shutdown_port init_type port_active_event : DeviceCap
  sys_image_guid rc_rnr_nak_gen srq_resize n_notify_cq mem_window ud_ip_csum xrc : DeviceCap
  mem_mgt_extensions mem_window_type_2a mem_window_type_2b rc_ip_csum raw_ip_csum : DeviceCap
  managed_flow_steering : DeviceCap

module _ (bit : DeviceCap → ℕ) where
  abbrev cap : DeviceCap → Text → Flag
  cap c name = record { bit = bit c; name = name }

  abbrev pub device_caps : List Flag
  device_caps =
      cap resize_max_wr (codes "RESIZE_MAX_WR")
      ∷ cap bad_pkey_cntr (codes "BAD_PKEY_CNTR")
      ∷ cap bad_qkey_cntr (codes "BAD_QKEY_CNTR")
      ∷ cap raw_multi (codes "RAW_MULTI")
      ∷ cap auto_path_mig (codes "AUTO_PATH_MIG")
      ∷ cap change_phy_port (codes "CHANGE_PHY_PORT")
      ∷ cap ud_av_port_enforce (codes "UD_AV_PORT_ENFORCE")
      ∷ cap curr_qp_state_mod (codes "CURR_QP_STATE_MOD")
      ∷ cap shutdown_port (codes "SHUTDOWN_PORT")
      ∷ cap init_type (codes "INIT_TYPE")
      ∷ cap port_active_event (codes "PORT_ACTIVE_EVENT")
      ∷ cap sys_image_guid (codes "SYS_IMAGE_GUID")
      ∷ cap rc_rnr_nak_gen (codes "RC_RNR_NAK_GEN")
      ∷ cap srq_resize (codes "SRQ_RESIZE")
      ∷ cap n_notify_cq (codes "N_NOTIFY_CQ")
      ∷ cap mem_window (codes "MEM_WINDOW")
      ∷ cap ud_ip_csum (codes "UD_IP_CSUM")
      ∷ cap xrc (codes "XRC")
      ∷ cap mem_mgt_extensions (codes "MEM_MGT_EXTENSIONS")
      ∷ cap mem_window_type_2a (codes "MEM_WINDOW_TYPE_2A")
      ∷ cap mem_window_type_2b (codes "MEM_WINDOW_TYPE_2B")
      ∷ cap rc_ip_csum (codes "RC_IP_CSUM")
      ∷ cap raw_ip_csum (codes "RAW_IP_CSUM")
      ∷ cap managed_flow_steering (codes "MANAGED_FLOW_STEERING")
      ∷ []

  unfoldable pub print_device_cap_flags : Word → Printed
  unfolding print_flags
  print_device_cap_flags w = print_flags 32 device_caps w

pub data OdpCap : Type 0 where
  odp_send odp_recv odp_write odp_read odp_atomic odp_srq_recv : OdpCap
  odp_support odp_support_implicit : OdpCap

module _ (bit : OdpCap → ℕ) where
  abbrev odp : OdpCap → Text → Flag
  odp c name = record { bit = bit c; name = name }

  abbrev pub odp_trans_caps : List Flag
  odp_trans_caps =
      odp odp_send (codes "SUPPORT_SEND")
      ∷ odp odp_recv (codes "SUPPORT_RECV")
      ∷ odp odp_write (codes "SUPPORT_WRITE")
      ∷ odp odp_read (codes "SUPPORT_READ")
      ∷ odp odp_atomic (codes "SUPPORT_ATOMIC")
      ∷ odp odp_srq_recv (codes "SUPPORT_SRQ")
      ∷ []

  unfoldable pub print_odp_trans_caps : Word → Printed
  unfolding print_flags
  print_odp_trans_caps w =
      if any_below 32 w
      then print_flags 32 odp_trans_caps w
      else record { names = codes "NO SUPPORT" ∷ []; unknown = none }

  abbrev pub odp_general_caps : List Flag
  odp_general_caps =
      odp odp_support (codes "ODP_SUPPORT")
      ∷ odp odp_support_implicit (codes "ODP_SUPPORT_IMPLICIT")
      ∷ []

  -- The general word has 64 bits; then those of RC, UC, UD and XRC.
  unfoldable pub print_odp_caps : Word → List Word → List Printed
  unfolding print_flags print_odp_trans_caps
  print_odp_caps general transports =
      print_flags 64 odp_general_caps general ∷ map print_odp_trans_caps transports

pub data ExtendedCap : Type 0 where
  raw_scatter_fcs pci_write_end_padding : ExtendedCap

-- The flags in the upper half of 64 bits.
unfoldable pub print_device_cap_flags_ex : (ExtendedCap → ℕ) → Word → Printed
unfolding print_flags
print_device_cap_flags_ex bit w =
    print_flags 64
      (record { bit = bit raw_scatter_fcs; name = codes "RAW_SCATTER_FCS" }
        ∷ record { bit = bit pci_write_end_padding; name = codes "PCI_WRITE_END_PADDING" }
        ∷ [])
      (λ b. leb 32 b && w b)

pub data PacketCap : Type 0 where
  cvlan_stripping scatter_fcs ip_csum delay_drop : PacketCap

-- Here the rest is not printed.
unfoldable pub print_raw_packet_caps : (PacketCap → ℕ) → Word → List Text
unfolding set_flags
print_raw_packet_caps bit w =
    map (λ f. f.name)
      (set_flags
        (record { bit = bit cvlan_stripping; name = codes "C-VLAN stripping offload" }
          ∷ record { bit = bit scatter_fcs; name = codes "Scatter FCS offload" }
          ∷ record { bit = bit ip_csum; name = codes "IP csum offload" }
          ∷ record { bit = bit delay_drop; name = codes "Delay drop" }
          ∷ [])
        w)

-- The types of queue pairs, which the library numbers.
pub data QpType : Type 0 where
  raw_packet ud_type : QpType

-- `supported_qp` in `print_tso_caps`, `print_rss_caps` and `print_packet_pacing_caps`, where a
-- number, or in the second the word itself, is not 0.
unfoldable pub print_supported_qp : (QpType → ℕ) → Bool → Word → Option Printed
unfolding print_flags
print_supported_qp number any w =
    if any
    then some (
        print_flags 32
          (record { bit = number raw_packet; name = codes "SUPPORT_RAW_PACKET" }
            ∷ record { bit = number ud_type; name = codes "SUPPORT_UD" }
            ∷ [])
          w)
    else none

is_known-set_flags :
    (fs : List Flag) (w : Word) (b : ℕ) → is_known (set_flags fs w) b ≡ (is_known fs b && w b)
unfolding is_known set_flags
is_known-set_flags [] w b = refl
is_known-set_flags (f ∷ fs) w b = elim (Bool-cases (b == f.bit)) [
  | inl same ↦
      let at : b ≡ f.bit = ground (arith, same) in
      let is_set = ap w at in ground (arith, same, is_set, is_known-set_flags fs w b)
  | inr other ↦ ground (arith, other, is_known-set_flags fs w b)
]

any_below-false : (n : ℕ) (w : Word) (b : ℕ) → b < n → any_below n w ≡ false → w b ≡ false
unfolding any_below
any_below-false zero w b lt h = absurd (omega arith)
any_below-false (suc n) w b lt h = elim (Bool-cases (b == n)) [
  | inl same ↦
      let at : b ≡ n = ground (arith, same) in let is_set = ap w at in ground (arith, is_set)
  | inr other ↦
      let less : b < n = ground (arith, other) in
      ground (arith, any_below-false n w b less (ground arith))
]

-- The bits that a printed word accounts for.
pub accounted : List Flag → Option Word → Word → Word
accounted fs none w b = is_known (set_flags fs w) b
accounted fs (some u) w b = is_known (set_flags fs w) b || u b

-- Each bit of a word is set exactly if one of the constants that are printed is that bit, or it is
-- among the unknown flags that are printed.
pub print_flags_complete :
    (width : ℕ) (fs : List Flag) (w : Word) (b : ℕ)
    → b < width
    → accounted fs (print_flags width fs w).unknown w b ≡ w b
unfolding accounted print_flags
print_flags_complete width fs w b lt = elim (Bool-cases (any_below width (unknown_flags fs w))) [
  | inl some_left ↦ unfold unknown_flags in rw some_left (ground (arith, is_known-set_flags fs w b))
  | inr none_left ↦
      let clear = any_below-false width (unknown_flags fs w) b lt none_left in
      rw none_left (unfold unknown_flags in ground (arith, clear, is_known-set_flags fs w b))
]
