-- ===== src/Devinfo/Arguments.antt =====
-- rdma-core/devinfo.c: `main`. `getopt_long` is represented by the options that it finds, and
-- `strtol` by the 64 bits of its result; an `int` is its 32 bits.
use Prim.Native.Nat.{bit_or}
use ibv_bench.Base.{
  ℕ, ◌-◌, ◌%◌, ◌^◌, Bool, true, false, Option, none, some, List, [], ◌∷◌, ◌++◌, if◌then◌else◌, map,
}
use ibv_bench.Base.Text.{Text, text_eq}
use ibv_bench.Rc.Arguments.{to_32_bits, int_lt_one}
use ibv_bench.Devinfo.Hca.{Library, Device, Event, print_hca_cap}

pub data Opt : Type 0 where
  opt_ib_dev : Text → Opt
  opt_ib_port : ℕ → Opt
  opt_list opt_verbose opt_unknown : Opt

pub record Config : Type 0 where
  pub ib_devname : Option Text
  pub ib_port : ℕ
  pub verbose : Bool

-- How `main` ends: the names of the devices behind their number, or a status and what was printed.
pub data Result : Type 0 where
  listed : List Text → Result
  shown : ℕ → List Event → Result

-- The 32 bits of -1.
abbrev pub minus_one : ℕ
minus_one = 2 ^ 32 - 1

-- Where the `while` over the options stands: on, or out of `main`.
pub data Parsed : Type 0 where
  on : Config → Parsed
  out : Result → Parsed

abbrev pub defaults : Config
defaults = record { ib_devname = none; ib_port = 0; verbose = false }

pub list_names : Option (List Device) → Result
list_names none = shown minus_one []
list_names (some ds) = listed (map (λ d. d.name) ds)

-- The `switch` of one option. `--list` lists at once, whatever stands behind it.
unfoldable pub apply_opt : Option (List Device) → Opt → Config → Parsed
unfolding list_names
apply_opt devices (opt_ib_dev n) c = on (record c { ib_devname = some n })
apply_opt devices (opt_ib_port v) c =
    if int_lt_one (to_32_bits v) then out (shown 1 []) else on (record c { ib_port = to_32_bits v })
apply_opt devices opt_verbose c = on (record c { verbose = true })
apply_opt devices opt_list c = out (list_names devices)
apply_opt devices opt_unknown c = out (shown minus_one [])

unfoldable pub apply_opts : Option (List Device) → List Opt → Config → Parsed
apply_opts devices [] c = on c
apply_opts devices (o ∷ os) c = elim (apply_opt devices o c) [
  | on c' ↦ apply_opts devices os c'
  | out r ↦ out r
]

-- The `while` that looks for the name.
pub find_name : Text → List Device → Option Device
find_name name [] = none
find_name name (d ∷ ds) =
    let rest = find_name name ds in if text_eq d.name name then some d else rest

module _ (lib : Library) where
  -- The call gives the port to a `uint8_t`.
  pub print_one : Config → Device → ℕ × List Event
  print_one c d = print_hca_cap lib c.verbose d (c.ib_port % 2 ^ 8)

  pub print_devices : Config → ℕ → List Device → ℕ × List Event
  unfolding print_one
  print_devices c ret [] = (ret, [])
  print_devices c ret (d ∷ ds) =
      let (rc, printed) = print_one c d in
      let (ret', rest) = print_devices c (bit_or ret rc) ds in (ret', printed ++ rest)

  pub print_found : Config → Option Device → Result
  unfolding print_one
  print_found c none = shown minus_one []
  print_found c (some d) = let (rc, printed) = print_one c d in shown rc printed

  -- Behind the options.
  pub print_all : Option (List Device) → Config → Option Text → Result
  unfolding print_devices print_found find_name
  print_all none c name = shown minus_one []
  print_all (some ds) c (some name) = print_found c (find_name name ds)
  print_all (some []) c none = shown minus_one []
  print_all (some (d ∷ ds)) c none =
      let (ret, printed) = print_devices c 0 (d ∷ ds) in shown ret printed

  pub main : Option (List Device) → List Opt → Result
  unfolding apply_opts print_all
  main devices os = elim (apply_opts devices os defaults) [
    | out r ↦ r
    | on c ↦ print_all devices c c.ib_devname
  ]
