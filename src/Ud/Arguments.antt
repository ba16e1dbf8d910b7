-- ===== src/Ud/Arguments.antt =====
-- rdma-core/ud_pingpong.c: the options of `main`. `getopt_long` and `strtol` are represented as for
-- rdma-core/rc_pingpong.c.
use ibv_bench.Base.{
  ℕ, ◌+◌, ◌≡◌, refl, Bool, true, false, Option, none, some, List, [], ◌∷◌, arith, ltb,
  if◌then◌else◌, map, Option-cases, inl, inr,
}
use ibv_bench.Base.Text.{Text}
use ibv_bench.Wire.Gid.{mtu_1024}
use ibv_bench.Rc.Arguments.{to_32_bits, int_lt_one, server_name}
use ibv_bench.Uc.Arguments.{
  Opt as UcOpt, Config as UcConfig, apply_opt as uc_apply_opt, apply_opts as uc_apply_opts,
  main_arguments as uc_main_arguments, opt_port as uc_port, opt_ib_port as uc_ib_port,
  opt_size as uc_size, with_server as uc_with_server, opt_rx_depth as uc_rx_depth,
  opt_iters as uc_iters, opt_sl as uc_sl, opt_gid_idx as uc_gid_idx, opt_ib_dev as uc_ib_dev,
  opt_events as uc_events, opt_chk as uc_chk, opt_unknown as uc_unknown,
}

pub data Opt : Type 0 where
  opt_port opt_ib_port opt_size opt_rx_depth opt_iters opt_sl opt_gid_idx : ℕ → Opt
  opt_ib_dev : Text → Opt
  opt_events opt_chk opt_unknown : Opt

pub record Config : Type 0 where
  pub port : ℕ
  pub ib_devname : Option Text
  pub ib_port : ℕ
  pub size : ℕ
  pub rx_depth : ℕ
  pub iters : ℕ
  pub sl : ℕ
  pub use_event : ℕ
  pub gidx : ℕ
  pub validate_buf : Bool

-- The initial values of the variables; `gidx` is -1.
abbrev pub defaults : Config
defaults = record {
  port = 18515;
  ib_devname = none;
  ib_port = 1;
  size = 1024;
  rx_depth = 500;
  iters = 1000;
  sl = 0;
  use_event = 0;
  gidx = 0xffffffff;
  validate_buf = false;
}

-- The `switch` of one option; none for `usage` and the return of 1.
apply_opt : Opt → Config → Option Config
apply_opt (opt_port v) c =
    if ltb 65535 (to_32_bits v) then none else some (record c { port = to_32_bits v })
apply_opt (opt_ib_dev d) c = some (record c { ib_devname = some d })
apply_opt (opt_ib_port v) c =
    if int_lt_one (to_32_bits v) then none else some (record c { ib_port = to_32_bits v })
apply_opt (opt_size v) c = some (record c { size = to_32_bits v })
apply_opt (opt_rx_depth v) c = some (record c { rx_depth = to_32_bits v })
apply_opt (opt_iters v) c = some (record c { iters = to_32_bits v })
apply_opt (opt_sl v) c = some (record c { sl = to_32_bits v })
apply_opt opt_events c = some (record c { use_event = to_32_bits (c.use_event + 1) })
apply_opt (opt_gid_idx v) c = some (record c { gidx = to_32_bits v })
apply_opt opt_chk c = some (record c { validate_buf = true })
apply_opt opt_unknown c = none

-- The `while` over the options.
apply_opts : List Opt → Config → Option Config
unfolding apply_opt
apply_opts [] c = some c
apply_opts (o ∷ os) c = elim (apply_opt o c) [ none ↦ none | some c' ↦ apply_opts os c' ]

with_server : Config → Option (Option Text) → Option (Config × Option Text)
with_server c none = none
with_server c (some server) = some (c, server)

-- `main` up to the device list; none where it returns 1.
pub main_arguments : List Opt → List Text → Option (Config × Option Text)
unfolding apply_opts with_server
main_arguments os args = elim (apply_opts os defaults) [
  | none ↦ none
  | some c ↦ with_server c (server_name args)
]

abbrev pub uc_opt : Opt → UcOpt
uc_opt (opt_port v) = uc_port v
uc_opt (opt_ib_port v) = uc_ib_port v
uc_opt (opt_size v) = uc_size v
uc_opt (opt_rx_depth v) = uc_rx_depth v
uc_opt (opt_iters v) = uc_iters v
uc_opt (opt_sl v) = uc_sl v
uc_opt (opt_gid_idx v) = uc_gid_idx v
uc_opt (opt_ib_dev d) = uc_ib_dev d
uc_opt opt_events = uc_events
uc_opt opt_chk = uc_chk
uc_opt opt_unknown = uc_unknown

-- The variables of uc_pingpong.c, with the MTU that it starts with.
abbrev pub uc_config : Config → UcConfig
uc_config c = record {
  port = c.port;
  ib_devname = c.ib_devname;
  ib_port = c.ib_port;
  size = c.size;
  mtu = mtu_1024;
  rx_depth = c.rx_depth;
  iters = c.iters;
  sl = c.sl;
  use_event = c.use_event;
  gidx = c.gidx;
  validate_buf = c.validate_buf;
}

abbrev uc_option : Option Config → Option UcConfig
uc_option none = none
uc_option (some c) = some (uc_config c)

abbrev pub uc_result : Option (Config × Option Text) → Option (UcConfig × Option Text)
uc_result none = none
uc_result (some (c, server)) = some (uc_config c, server)

apply_opt-same :
    (o : Opt) (c : Config) → uc_apply_opt (uc_opt o) (uc_config c) ≡ uc_option (apply_opt o c)
unfolding apply_opt uc_apply_opt
apply_opt-same (opt_port v) c = ground arith
apply_opt-same (opt_ib_port v) c = ground arith
apply_opt-same o c = refl

apply_opts-same :
    (os : List Opt) (c : Config)
    → uc_apply_opts (map uc_opt os) (uc_config c) ≡ uc_option (apply_opts os c)
unfolding apply_opts uc_apply_opts
apply_opts-same [] c = refl
apply_opts-same (o ∷ os) c = elim (Option-cases (apply_opt o c)) [
  | inl stop ↦ ground (arith, stop, apply_opt-same o c)
  | inr (d, on) ↦ ground (arith, on, apply_opt-same o c, apply_opts-same os d)
]

-- Any options and arguments are taken or refused as uc_pingpong.c takes or refuses them behind
-- `--size=1024`, the size that this program starts with, and what is taken leads to the same
-- variables.
pub main_arguments-uc_arguments :
    (os : List Opt) (args : List Text)
    → uc_main_arguments (uc_size 1024 ∷ map uc_opt os) args ≡ uc_result (main_arguments os args)
unfolding main_arguments uc_main_arguments uc_apply_opts uc_apply_opt with_server uc_with_server
main_arguments-uc_arguments os args = elim (Option-cases (apply_opts os defaults)) [
  | inl stop ↦ ground (arith, stop, apply_opts-same os defaults)
  | inr (c, on) ↦ elim (Option-cases (server_name args)) [
    | inl stop ↦ ground (arith, on, stop, apply_opts-same os defaults)
    | inr (n, named) ↦ ground (arith, on, named, apply_opts-same os defaults)
  ]
]
