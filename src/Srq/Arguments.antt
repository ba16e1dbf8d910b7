-- ===== src/Srq/Arguments.antt =====
-- rdma-core/srq_pingpong.c: the options of `main` and the checks behind them. `getopt_long` and
-- `strtol` are represented as in Rc/Arguments; an `int` is its 32 bits.
use ibv_bench.Base.{
  ℕ, ◌+◌, ◌^◌, ◌≤◌, ◌<◌, ◌≡◌, Bool, true, false, Option, none, some, List, [], ◌∷◌, arith, ltb, leb,
  if◌then◌else◌, Option-cases, inl, inr, length,
}
use mathlib.Core.List.{head?}
use ibv_bench.Base.Text.{Text}
use ibv_bench.Wire.Gid.{Mtu, mtu_1024, pp_mtu_to_enum}
use ibv_bench.Rc.Arguments.{to_32_bits, int_lt_one, int_lt_one-inv, server_name, server_name-inv}

pub data Opt : Type 0 where
  opt_port opt_ib_port opt_size opt_mtu opt_num_qp opt_rx_depth opt_iters opt_sl opt_gid_idx :
      ℕ → Opt
  opt_ib_dev : Text → Opt
  opt_events opt_odp opt_chk opt_unknown : Opt

-- The variables of `main`, with the two static ones that its options set.
pub record Config : Type 0 where
  pub port : ℕ
  pub ib_devname : Option Text
  pub ib_port : ℕ
  pub size : ℕ
  pub mtu : Mtu
  pub num_qp : ℕ
  pub rx_depth : ℕ
  pub iters : ℕ
  pub sl : ℕ
  pub use_event : ℕ
  pub gidx : ℕ
  pub use_odp : Bool
  pub validate_buf : Bool

-- The initial values of the variables; `gidx` is -1.
abbrev pub defaults : Config
defaults = record {
  port = 18515;
  ib_devname = none;
  ib_port = 1;
  size = 4096;
  mtu = mtu_1024;
  num_qp = 16;
  rx_depth = 500;
  iters = 1000;
  sl = 0;
  use_event = 0;
  gidx = 0xffffffff;
  use_odp = false;
  validate_buf = false;
}

set_mtu : Config → Option Mtu → Option Config
set_mtu c none = none
set_mtu c (some m) = some (record c { mtu = m })

-- The `switch` of one option; none for `usage` and the return of 1.
apply_opt : Opt → Config → Option Config
unfolding set_mtu
apply_opt (opt_port v) c =
    if ltb 65535 (to_32_bits v) then none else some (record c { port = to_32_bits v })
apply_opt (opt_ib_dev d) c = some (record c { ib_devname = some d })
apply_opt (opt_ib_port v) c =
    if int_lt_one (to_32_bits v) then none else some (record c { ib_port = to_32_bits v })
apply_opt (opt_size v) c =
    if ltb (to_32_bits v) 1 then none else some (record c { size = to_32_bits v })
apply_opt (opt_mtu v) c = set_mtu c (pp_mtu_to_enum (to_32_bits v))
apply_opt (opt_num_qp v) c = some (record c { num_qp = to_32_bits v })
apply_opt (opt_rx_depth v) c = some (record c { rx_depth = to_32_bits v })
apply_opt (opt_iters v) c = some (record c { iters = to_32_bits v })
apply_opt (opt_sl v) c = some (record c { sl = to_32_bits v })
apply_opt opt_events c = some (record c { use_event = to_32_bits (c.use_event + 1) })
apply_opt (opt_gid_idx v) c = some (record c { gidx = to_32_bits v })
apply_opt opt_odp c = some (record c { use_odp = true })
apply_opt opt_chk c = some (record c { validate_buf = true })
apply_opt opt_unknown c = none

-- The `while` over the options.
apply_opts : List Opt → Config → Option Config
apply_opts [] c = some c
apply_opts (o ∷ os) c = elim (apply_opt o c) [ none ↦ none | some c' ↦ apply_opts os c' ]

abbrev pub max_qp : ℕ
max_qp = 256

-- The two checks of the number of queue pairs.
enough_room : Config → Option Text → Option (Config × Option Text)
enough_room c server =
    if ltb c.rx_depth c.num_qp then none else if leb max_qp c.num_qp then none else some (c, server)

-- `main` up to the size of `wc`; none where it returns 1.
unfoldable pub main_arguments : List Opt → List Text → Option (Config × Option Text)
unfolding apply_opts apply_opt server_name enough_room
main_arguments os args = elim (apply_opts os defaults) [
  | none ↦ none
  | some c ↦ elim (server_name args) [ none ↦ none | some server ↦ enough_room c server ]
]

-- What the options keep true.
record IsSane (c : Config) : Type 0 where
  port_range : c.port ≤ 65535
  ib_port_range : (1 ≤ c.ib_port) × (c.ib_port < 2 ^ 31)
  size_range : (1 ≤ c.size) × (c.size < 2 ^ 32)
  counts : (c.rx_depth < 2 ^ 32) × (c.iters < 2 ^ 32)

apply_opt-IsSane : (o : Opt) (c c' : Config) → IsSane c → apply_opt o c ≡ some c' → IsSane c'
unfolding apply_opt
apply_opt-IsSane (opt_ib_port v) c c' h e =
    let legal = int_lt_one-inv (to_32_bits v) (omega arith) in ground (arith, legal)
apply_opt-IsSane o c c' h e = ground arith

apply_opts-IsSane :
    (os : List Opt) (c c' : Config) → IsSane c → apply_opts os c ≡ some c' → IsSane c'
unfolding apply_opts
apply_opts-IsSane [] c c' h e = ground arith
apply_opts-IsSane (o ∷ os) c c' h e = elim (Option-cases (apply_opt o c)) [
  | inl stop ↦ absurd (ground (arith, stop))
  | inr (d, on) ↦ apply_opts-IsSane os d c' (apply_opt-IsSane o c d h on) (ground (arith, on))
]

enough_room-inv :
    (c c' : Config) (server server' : Option Text)
    → enough_room c server ≡ some (c', server')
    → (c' ≡ c) × (server' ≡ server) × (c.num_qp ≤ c.rx_depth) × (c.num_qp < max_qp)
unfolding enough_room
enough_room-inv c c' server server' e = ground arith

main_arguments-inv :
    (os : List Opt) (args : List Text) (c : Config) (server : Option Text)
    → main_arguments os args ≡ some (c, server)
    → (apply_opts os defaults ≡ some c)
      × (server_name args ≡ some server)
      × (c.num_qp ≤ c.rx_depth)
      × (c.num_qp < max_qp)
unfolding main_arguments
main_arguments-inv os args c server e = elim (Option-cases (apply_opts os defaults)) [
  | inl stop ↦ absurd (ground (arith, stop))
  | inr (d, on) ↦ elim (Option-cases (server_name args)) [
    | inl stop ↦ absurd (ground (arith, on, stop))
    | inr (n, named) ↦
        let (same, same_name, fits, few) =
          enough_room-inv d c n server (ground (arith, on, named)) in
        ground (arith, on, named, same, same_name, fits, few)
  ]
]

defaults-IsSane : IsSane defaults
defaults-IsSane = record {
  port_range = omega arith;
  ib_port_range = omega arith;
  size_range = omega arith;
  counts = omega arith;
}

-- What `main` goes on with, whatever the options and arguments: a port of 16 bits, a positive
-- device port, a buffer that is not empty, a receive for every queue pair, fewer queue pairs than
-- the arrays of 256 addresses have room for, and at most one argument, which is the server's name.
main_arguments-room :
    (os : List Opt) (args : List Text) (c : Config) (server : Option Text)
    → main_arguments os args ≡ some (c, server)
    → (c.port ≤ 65535)
      × ((1 ≤ c.ib_port) × (c.ib_port < 2 ^ 31))
      × ((1 ≤ c.size) × (c.size < 2 ^ 32))
      × ((c.num_qp ≤ c.rx_depth) × (c.num_qp < max_qp) × (c.rx_depth < 2 ^ 32))
      × (length args ≤ 1)
      × (server ≡ head? args)
main_arguments-room os args c server e =
    let (parsed, named, fits, few) = main_arguments-inv os args c server e in
    let sane = apply_opts-IsSane os defaults c defaults-IsSane parsed in
    let (one, which) = server_name-inv args server named in
    (sane.port_range, sane.ib_port_range, sane.size_range, (fits, few, sane.counts.0), one, which)
