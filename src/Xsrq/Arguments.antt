-- ===== src/Xsrq/Arguments.antt =====
-- rdma-core/xsrq_pingpong.c: `init` and the options of `main`. `getopt_long` is represented by the
-- options that it finds, and `strtol` by the 64 bits of its result; an `int` is its 32 bits.
use ibv_bench.Base.{
  ℕ, ◌^◌, ◌≤◌, ◌<◌, ◌≡◌, Bool, true, false, Option, none, some, List, [], ◌∷◌, arith, ltb, leb,
  if◌then◌else◌, Option-cases, inl, inr, length,
}
use ibv_bench.Base.Text.{Text}
use ibv_bench.Wire.Gid.{Mtu, mtu_1024, pp_mtu_to_enum}
use ibv_bench.Rc.Arguments.{to_32_bits}

pub data Opt : Type 0 where
  opt_port opt_ib_port opt_size opt_mtu opt_clients opt_num_tests opt_sl opt_gid_idx : ℕ → Opt
  opt_ib_dev : Text → Opt
  opt_events opt_odp opt_unknown : Opt

-- The variables of `main` and the part of `ctx` that `init` and the options set.
pub record Config : Type 0 where
  pub port : ℕ
  pub ib_devname : Option Text
  pub ib_port : ℕ
  pub size : ℕ
  pub mtu : Mtu
  pub num_clients : ℕ
  pub num_tests : ℕ
  pub sl : ℕ
  pub gidx : ℕ
  pub use_event : Bool
  pub use_odp : Bool

-- `init`, and the initial values of `main`; `gidx` is -1.
abbrev pub init : Config
init = record {
  port = 18515;
  ib_devname = none;
  ib_port = 1;
  size = 4096;
  mtu = mtu_1024;
  num_clients = 1;
  num_tests = 5;
  sl = 0;
  gidx = 0xffffffff;
  use_event = false;
  use_odp = false;
}

set_mtu : Config → Option Mtu → Option Config
set_mtu c none = none
set_mtu c (some m) = some (record c { mtu = m })

-- `port < 0 || port > 65535`, and `ib_port < 0`, of the 32 bits of an `int`.
bad_port : ℕ → Bool
bad_port p = if leb (2 ^ 31) p then true else ltb 65535 p

negative : ℕ → Bool
negative p = leb (2 ^ 31) p

-- The `switch` of one option; none for `usage` and the return of 1.
apply_opt : Opt → Config → Option Config
unfolding set_mtu bad_port negative
apply_opt (opt_port v) c =
    if bad_port (to_32_bits v) then none else some (record c { port = to_32_bits v })
apply_opt (opt_ib_dev d) c = some (record c { ib_devname = some d })
apply_opt (opt_ib_port v) c =
    if negative (to_32_bits v) then none else some (record c { ib_port = to_32_bits v })
apply_opt (opt_size v) c = some (record c { size = to_32_bits v })
apply_opt (opt_mtu v) c = set_mtu c (pp_mtu_to_enum (to_32_bits v))
apply_opt (opt_clients v) c = some (record c { num_clients = to_32_bits v })
apply_opt (opt_num_tests v) c = some (record c { num_tests = to_32_bits v })
apply_opt (opt_sl v) c = some (record c { sl = to_32_bits v })
apply_opt (opt_gid_idx v) c = some (record c { gidx = to_32_bits v })
apply_opt opt_events c = some (record c { use_event = true })
apply_opt opt_odp c = some (record c { use_odp = true })
apply_opt opt_unknown c = none

-- The `while` over the options.
apply_opts : List Opt → Config → Option Config
unfolding apply_opt
apply_opts [] c = some c
apply_opts (o ∷ os) c = elim (apply_opt o c) [ none ↦ none | some c' ↦ apply_opts os c' ]

-- The arguments behind the options: at most one, the server's name, and then one client.
with_server : List Text → Config → Option (Config × Option Text)
with_server [] c = some (c, none)
with_server (s ∷ []) c = some (record c { num_clients = 1 }, some s)
with_server _ c = none

-- `main` up to `pp_init_ctx`; none where it returns 1.
unfoldable pub main_arguments : List Opt → List Text → Option (Config × Option Text)
unfolding apply_opts with_server
main_arguments os args = elim (apply_opts os init) [ none ↦ none | some c ↦ with_server args c ]

-- What the options keep true.
record IsSane (c : Config) : Type 0 where
  port_range : c.port ≤ 65535
  ib_port_range : c.ib_port < 2 ^ 31

apply_opt-IsSane : (o : Opt) (c c' : Config) → IsSane c → apply_opt o c ≡ some c' → IsSane c'
unfolding apply_opt
apply_opt-IsSane o c c' h e = ground arith

apply_opts-IsSane :
    (os : List Opt) (c c' : Config) → IsSane c → apply_opts os c ≡ some c' → IsSane c'
unfolding apply_opts
apply_opts-IsSane [] c c' h e = ground arith
apply_opts-IsSane (o ∷ os) c c' h e = elim (Option-cases (apply_opt o c)) [
  | inl stop ↦ absurd (ground (arith, stop))
  | inr (d, on) ↦ apply_opts-IsSane os d c' (apply_opt-IsSane o c d h on) (ground (arith, on))
]

with_server-inv :
    (args : List Text) (c c' : Config) (server : Option Text)
    → IsSane c
    → with_server args c ≡ some (c', server)
    → (length args ≤ 1)
      × (c'.port ≤ 65535)
      × (c'.ib_port < 2 ^ 31)
      × ((1 ≤ length args) → c'.num_clients ≡ 1)
unfolding with_server
with_server-inv [] c c' server h e =
    (ground arith, ground arith, ground arith, λ some_arg. absurd (omega arith))
with_server-inv (s ∷ []) c c' server h e =
    (ground arith, ground arith, ground arith, λ some_arg. ground arith)
with_server-inv (s ∷ t ∷ r) c c' server h e = cc

-- What `main` goes on with: a port of 16 bits, a device port that is not negative, at most one
-- argument, and with one, which makes the program a client, a single client.
main_arguments-one_client :
    (os : List Opt) (args : List Text) (c : Config) (server : Option Text)
    → main_arguments os args ≡ some (c, server)
    → (length args ≤ 1)
      × (c.port ≤ 65535)
      × (c.ib_port < 2 ^ 31)
      × ((1 ≤ length args) → c.num_clients ≡ 1)
unfolding main_arguments
main_arguments-one_client os args c server e = elim (Option-cases (apply_opts os init)) [
  | inl stop ↦ absurd (ground (arith, stop))
  | inr (d, on) ↦
      with_server-inv args d c server
        (apply_opts-IsSane os init d
          (record { port_range = omega arith; ib_port_range = omega arith }) on)
        (ground (arith, on, e))
]
