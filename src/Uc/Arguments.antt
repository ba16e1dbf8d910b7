-- ===== src/Uc/Arguments.antt =====
-- rdma-core/uc_pingpong.c: the options of `main`, which are among those of rdma-core/rc_pingpong.c.
-- `getopt_long` and `strtol` are represented as there.
use ibv_bench.Base.{
  ℕ, ◌+◌, ◌≡◌, refl, Bool, true, false, Option, none, some, List, [], ◌∷◌, arith, ltb,
  if◌then◌else◌, map, Option-cases, inl, inr,
}
use ibv_bench.Base.Text.{Text}
use ibv_bench.Wire.Gid.{Mtu, mtu_1024, pp_mtu_to_enum}
use ibv_bench.Rc.Arguments.{
  to_32_bits, int_lt_one, server_name, compatible, checked, set_mtu as rc_set_mtu, Opt as RcOpt,
  Config as RcConfig, apply_opt as rc_apply_opt, apply_opts as rc_apply_opts,
  main_arguments as rc_main_arguments, opt_port as rc_port, opt_ib_port as rc_ib_port,
  opt_size as rc_size, opt_mtu as rc_mtu, opt_rx_depth as rc_rx_depth, opt_iters as rc_iters,
  opt_sl as rc_sl, opt_gid_idx as rc_gid_idx, opt_ib_dev as rc_ib_dev, opt_events as rc_events,
  opt_chk as rc_chk, opt_unknown as rc_unknown,
}

pub data Opt : Type 0 where
  opt_port opt_ib_port opt_size opt_mtu opt_rx_depth opt_iters opt_sl opt_gid_idx : ℕ → Opt
  opt_ib_dev : Text → Opt
  opt_events opt_chk opt_unknown : Opt

pub record Config : Type 0 where
  pub port : ℕ
  pub ib_devname : Option Text
  pub ib_port : ℕ
  pub size : ℕ
  pub mtu : Mtu
  pub rx_depth : ℕ
  pub iters : ℕ
  pub sl : ℕ
  pub use_event : ℕ
  pub gidx : ℕ
  pub validate_buf : Bool

-- The initial values of the variables; `gidx` is -1.
abbrev pub defaults : Config
defaults = record {
  port = 18515;
  ib_devname = none;
  ib_port = 1;
  size = 4096;
  mtu = mtu_1024;
  rx_depth = 500;
  iters = 1000;
  sl = 0;
  use_event = 0;
  gidx = 0xffffffff;
  validate_buf = false;
}

pub set_mtu : Config → Option Mtu → Option Config
set_mtu c none = none
set_mtu c (some m) = some (record c { mtu = m })

-- The `switch` of one option; none for `usage` and the return of 1.
unfoldable pub apply_opt : Opt → Config → Option Config
unfolding set_mtu
apply_opt (opt_port v) c =
    if ltb 65535 (to_32_bits v) then none else some (record c { port = to_32_bits v })
apply_opt (opt_ib_dev d) c = some (record c { ib_devname = some d })
apply_opt (opt_ib_port v) c =
    if int_lt_one (to_32_bits v) then none else some (record c { ib_port = to_32_bits v })
apply_opt (opt_size v) c = some (record c { size = to_32_bits v })
apply_opt (opt_mtu v) c = set_mtu c (pp_mtu_to_enum (to_32_bits v))
apply_opt (opt_rx_depth v) c = some (record c { rx_depth = to_32_bits v })
apply_opt (opt_iters v) c = some (record c { iters = to_32_bits v })
apply_opt (opt_sl v) c = some (record c { sl = to_32_bits v })
apply_opt opt_events c = some (record c { use_event = to_32_bits (c.use_event + 1) })
apply_opt (opt_gid_idx v) c = some (record c { gidx = to_32_bits v })
apply_opt opt_chk c = some (record c { validate_buf = true })
apply_opt opt_unknown c = none

-- The `while` over the options.
unfoldable pub apply_opts : List Opt → Config → Option Config
unfolding apply_opt
apply_opts [] c = some c
apply_opts (o ∷ os) c = elim (apply_opt o c) [ none ↦ none | some c' ↦ apply_opts os c' ]

unfoldable pub with_server : Config → Option (Option Text) → Option (Config × Option Text)
with_server c none = none
with_server c (some server) = some (c, server)

-- `main` up to the device list; none where it returns 1.
unfoldable pub main_arguments : List Opt → List Text → Option (Config × Option Text)
unfolding apply_opts with_server
main_arguments os args = elim (apply_opts os defaults) [
  | none ↦ none
  | some c ↦ with_server c (server_name args)
]

abbrev pub rc_opt : Opt → RcOpt
rc_opt (opt_port v) = rc_port v
rc_opt (opt_ib_port v) = rc_ib_port v
rc_opt (opt_size v) = rc_size v
rc_opt (opt_mtu v) = rc_mtu v
rc_opt (opt_rx_depth v) = rc_rx_depth v
rc_opt (opt_iters v) = rc_iters v
rc_opt (opt_sl v) = rc_sl v
rc_opt (opt_gid_idx v) = rc_gid_idx v
rc_opt (opt_ib_dev d) = rc_ib_dev d
rc_opt opt_events = rc_events
rc_opt opt_chk = rc_chk
rc_opt opt_unknown = rc_unknown

-- The variables of rc_pingpong.c, its further options off.
abbrev pub rc_config : Config → RcConfig
rc_config c = record {
  port = c.port;
  ib_devname = c.ib_devname;
  ib_port = c.ib_port;
  size = c.size;
  mtu = c.mtu;
  rx_depth = c.rx_depth;
  iters = c.iters;
  sl = c.sl;
  use_event = c.use_event;
  gidx = c.gidx;
  use_odp = false;
  prefetch_mr = false;
  implicit_odp = false;
  use_ts = false;
  validate_buf = c.validate_buf;
  use_dm = false;
  use_new_send = false;
}

abbrev rc_option : Option Config → Option RcConfig
rc_option none = none
rc_option (some c) = some (rc_config c)

abbrev pub rc_result : Option (Config × Option Text) → Option (RcConfig × Option Text)
rc_result none = none
rc_result (some (c, server)) = some (rc_config c, server)

set_mtu-same : (c : Config) (m : Option Mtu) → rc_set_mtu (rc_config c) m ≡ rc_option (set_mtu c m)
unfolding set_mtu rc_set_mtu
set_mtu-same c none = refl
set_mtu-same c (some m) = refl

apply_opt-same :
    (o : Opt) (c : Config) → rc_apply_opt (rc_opt o) (rc_config c) ≡ rc_option (apply_opt o c)
unfolding apply_opt rc_apply_opt
apply_opt-same (opt_port v) c = ground arith
apply_opt-same (opt_ib_port v) c = ground arith
apply_opt-same (opt_mtu v) c = set_mtu-same c (pp_mtu_to_enum (to_32_bits v))
apply_opt-same o c = refl

apply_opts-same :
    (os : List Opt) (c : Config)
    → rc_apply_opts (map rc_opt os) (rc_config c) ≡ rc_option (apply_opts os c)
unfolding apply_opts rc_apply_opts
apply_opts-same [] c = refl
apply_opts-same (o ∷ os) c = elim (Option-cases (apply_opt o c)) [
  | inl stop ↦ ground (arith, stop, apply_opt-same o c)
  | inr (d, on) ↦ ground (arith, on, apply_opt-same o c, apply_opts-same os d)
]

-- Any options and arguments are taken or refused as rc_pingpong.c takes or refuses them, and what
-- is taken leads to the same variables, with that one's further options off.
pub main_arguments-same :
    (os : List Opt) (args : List Text)
    → rc_main_arguments (map rc_opt os) args ≡ rc_result (main_arguments os args)
unfolding main_arguments rc_main_arguments checked compatible
main_arguments-same os args = elim (Option-cases (apply_opts os defaults)) [
  | inl stop ↦ ground (arith, stop, apply_opts-same os defaults)
  | inr (c, on) ↦ elim (Option-cases (server_name args)) [
    | inl stop ↦ ground (arith, on, stop, apply_opts-same os defaults)
    | inr (n, named) ↦ ground (arith, on, named, apply_opts-same os defaults)
  ]
]
