-- ===== src/Rc/Arguments.antt =====
-- rdma-core/rc_pingpong.c: the options of `main` and the checks behind them. `getopt_long` is
-- represented by the options that it finds, and `strtol` or `strtoul` by the 64 bits of its result.
-- An `int` is its 32 bits.
use ibv_bench.Base.{
  ℕ, ◌%◌, ◌^◌, ◌≤◌, ◌<◌, ◌≡◌, Bool, true, false, not, ◌&&◌, ◌||◌, Option, none, some, List, [], ◌∷◌,
  arith, ltb, leb, ◌==◌, if◌then◌else◌, ◌+◌, Option-cases, inl, inr, length,
}
use mathlib.Core.List.{head?}
use ibv_bench.Base.Text.{Text}
use ibv_bench.Wire.Gid.{Mtu, mtu_1024, pp_mtu_to_enum}

pub data Opt : Type 0 where
  opt_port opt_ib_port opt_size opt_mtu opt_rx_depth opt_iters opt_sl opt_gid_idx : ℕ → Opt
  opt_ib_dev : Text → Opt
  opt_events opt_odp opt_prefetch opt_iodp opt_ts opt_chk opt_dm opt_new_send : Opt
  opt_unknown : Opt

pub record Config : Type 0 where
  pub port : ℕ
  pub ib_devname : Option Text
  pub ib_port : ℕ
  pub size : ℕ
  pub mtu : Mtu
  pub rx_depth : ℕ
  pub iters : ℕ
  pub sl : ℕ
  pub use_event : ℕ
  pub gidx : ℕ
  pub use_odp : Bool
  pub prefetch_mr : Bool
  pub implicit_odp : Bool
  pub use_ts : Bool
  pub validate_buf : Bool
  pub use_dm : Bool
  pub use_new_send : Bool

-- The initial values of the variables; `gidx` is -1.
abbrev pub defaults : Config
defaults = record {
  port = 18515;
  ib_devname = none;
  ib_port = 1;
  size = 4096;
  mtu = mtu_1024;
  rx_depth = 500;
  iters = 1000;
  sl = 0;
  use_event = 0;
  gidx = 0xffffffff;
  use_odp = false;
  prefetch_mr = false;
  implicit_odp = false;
  use_ts = false;
  validate_buf = false;
  use_dm = false;
  use_new_send = false;
}

-- The assignment of a `long` or `unsigned long` to a variable of 32 bits.
abbrev pub to_32_bits : ℕ → ℕ
to_32_bits v = v % 2 ^ 32

-- `n < 1` of an `int`.
pub int_lt_one : ℕ → Bool
int_lt_one n = n == 0 || leb (2 ^ 31) n

pub int_lt_one-inv : (n : ℕ) → n < 2 ^ 32 → int_lt_one n ≡ false → (1 ≤ n) × (n < 2 ^ 31)
unfolding int_lt_one
int_lt_one-inv n bound e = ground arith

unfoldable pub set_mtu : Config → Option Mtu → Option Config
set_mtu c none = none
set_mtu c (some m) = some (record c { mtu = m })

-- The `switch` of one option; none for `usage` and the return of 1.
unfoldable pub apply_opt : Opt → Config → Option Config
unfolding int_lt_one set_mtu
apply_opt (opt_port v) c =
    if ltb 65535 (to_32_bits v) then none else some (record c { port = to_32_bits v })
apply_opt (opt_ib_dev d) c = some (record c { ib_devname = some d })
apply_opt (opt_ib_port v) c =
    if int_lt_one (to_32_bits v) then none else some (record c { ib_port = to_32_bits v })
apply_opt (opt_size v) c = some (record c { size = to_32_bits v })
apply_opt (opt_mtu v) c = set_mtu c (pp_mtu_to_enum (to_32_bits v))
apply_opt (opt_rx_depth v) c = some (record c { rx_depth = to_32_bits v })
apply_opt (opt_iters v) c = some (record c { iters = to_32_bits v })
apply_opt (opt_sl v) c = some (record c { sl = to_32_bits v })
apply_opt opt_events c = some (record c { use_event = to_32_bits (c.use_event + 1) })
apply_opt (opt_gid_idx v) c = some (record c { gidx = to_32_bits v })
apply_opt opt_odp c = some (record c { use_odp = true })
apply_opt opt_prefetch c = some (record c { prefetch_mr = true })
apply_opt opt_iodp c = some (record c { use_odp = true; implicit_odp = true })
apply_opt opt_ts c = some (record c { use_ts = true })
apply_opt opt_chk c = some (record c { validate_buf = true })
apply_opt opt_dm c = some (record c { use_dm = true })
apply_opt opt_new_send c = some (record c { use_new_send = true })
apply_opt opt_unknown c = none

-- The `while` over the options.
unfoldable pub apply_opts : List Opt → Config → Option Config
apply_opts [] c = some c
apply_opts (o ∷ os) c = elim (apply_opt o c) [ none ↦ none | some c' ↦ apply_opts os c' ]

-- The arguments behind the options: at most one, the server's name.
unfoldable pub server_name : List Text → Option (Option Text)
server_name [] = some none
server_name (s ∷ []) = some (some s)
server_name _ = none

-- The checks behind the options.
unfoldable pub compatible : Config → Bool
compatible c = not (c.use_odp && c.use_dm) && not (not c.use_odp && c.prefetch_mr)

unfoldable pub checked : Option Text → Option Config → Option (Config × Option Text)
unfolding compatible
checked server none = none
checked server (some c) = if compatible c then some (c, server) else none

-- `main` up to the device list; none where it returns 1.
unfoldable pub main_arguments : List Opt → List Text → Option (Config × Option Text)
unfolding apply_opts apply_opt server_name checked
main_arguments os args = elim (apply_opts os defaults) [
  | none ↦ none
  | some c ↦ elim (server_name args) [ none ↦ none | some server ↦ checked server (some c) ]
]

-- What the options keep true.
record IsSane (c : Config) : Type 0 where
  port_range : c.port ≤ 65535
  ib_port_range : (1 ≤ c.ib_port) × (c.ib_port < 2 ^ 31)
  sizes : (c.size < 2 ^ 32) × (c.rx_depth < 2 ^ 32) × (c.iters < 2 ^ 32)
  implied : (c.implicit_odp && not c.use_odp) ≡ false

apply_opt-IsSane : (o : Opt) (c c' : Config) → IsSane c → apply_opt o c ≡ some c' → IsSane c'
unfolding apply_opt
apply_opt-IsSane (opt_port v) c c' h e = ground arith
apply_opt-IsSane o c c' h e = ground arith

apply_opts-IsSane :
    (os : List Opt) (c c' : Config) → IsSane c → apply_opts os c ≡ some c' → IsSane c'
unfolding apply_opts
apply_opts-IsSane [] c c' h e = ground arith
apply_opts-IsSane (o ∷ os) c c' h e = elim (Option-cases (apply_opt o c)) [
  | inl stop ↦ absurd (ground (arith, stop))
  | inr (d, on) ↦ apply_opts-IsSane os d c' (apply_opt-IsSane o c d h on) (ground (arith, on))
]

main_arguments-inv :
    (os : List Opt) (args : List Text) (c : Config) (server : Option Text)
    → main_arguments os args ≡ some (c, server)
    → (apply_opts os defaults ≡ some c) × (compatible c ≡ true) × (server_name args ≡ some server)
unfolding main_arguments
main_arguments-inv os args c server e = elim (Option-cases (apply_opts os defaults)) [
  | inl stop ↦ absurd (ground (arith, stop))
  | inr (d, on) ↦ elim (Option-cases (server_name args)) [
    | inl stop ↦ absurd (ground (arith, on, stop))
    | inr (n, named) ↦ ground (arith, on, named)
  ]
]

compatible-inv :
    (c : Config)
    → compatible c ≡ true
    → ((c.use_odp && c.use_dm) ≡ false) × ((c.prefetch_mr && not c.use_odp) ≡ false)
unfolding compatible
compatible-inv c h = (ground arith, ground arith)

pub server_name-inv :
    (args : List Text) (server : Option Text)
    → server_name args ≡ some server
    → (length args ≤ 1) × (server ≡ head? args)
unfolding server_name
server_name-inv [] server e = ground arith
server_name-inv (s ∷ []) server e = ground arith
server_name-inv (s ∷ t ∷ r) server e = cc

defaults-IsSane : IsSane defaults
defaults-IsSane = record {
  port_range = omega arith;
  ib_port_range = omega arith;
  sizes = omega arith;
  implied = ground arith;
}

-- What `main` goes on with, whatever the options and arguments: a port of 16 bits, a positive
-- device port, sizes of 32 bits, no device memory together with paging on demand, prefetching and
-- implicit paging only with paging on demand, and at most one argument, which is the server's name.
pub main_arguments-valid :
    (os : List Opt) (args : List Text) (c : Config) (server : Option Text)
    → main_arguments os args ≡ some (c, server)
    → (c.port ≤ 65535)
      × ((1 ≤ c.ib_port) × (c.ib_port < 2 ^ 31))
      × ((c.size < 2 ^ 32) × (c.rx_depth < 2 ^ 32) × (c.iters < 2 ^ 32))
      × ((c.use_odp && c.use_dm) ≡ false)
      × ((c.prefetch_mr && not c.use_odp) ≡ false)
      × ((c.implicit_odp && not c.use_odp) ≡ false)
      × (length args ≤ 1)
      × (server ≡ head? args)
main_arguments-valid os args c server e =
    let (parsed, fits, named) = main_arguments-inv os args c server e in
    let sane = apply_opts-IsSane os defaults c defaults-IsSane parsed in
    let (both, pre) = compatible-inv c fits in
    let (few, which) = server_name-inv args server named in
    (sane.port_range, sane.ib_port_range, sane.sizes, both, pre, sane.implied, few, which)

to_32_bits-wraps : (v : ℕ) → (v + 2 ^ 32) % 2 ^ 32 ≡ v % 2 ^ 32
to_32_bits-wraps v = omega arith

-- The `--port` value is taken modulo 2^32 before it is checked: adding 2^32 to it, which makes any
-- port number one that is none, changes nothing.
pub apply_opt-port_wraps :
    (v : ℕ) (c : Config) → apply_opt (opt_port (v + 2 ^ 32)) c ≡ apply_opt (opt_port v) c
unfolding apply_opt
apply_opt-port_wraps v c = let same = to_32_bits-wraps v in ground (arith, same)
