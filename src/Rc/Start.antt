-- ===== src/Rc/Start.antt =====
-- rdma-core/rc_pingpong.c: the part of `main` between the options and the exchange: the choice of the
-- device and the own address.
use ibv_bench.Base.{
  ℕ, suc, ◌%◌, ◌^◌, ◌<◌, ◌≡◌, Bool, not, ◌&&◌, ◌||◌, Option, none, some, List, [], ◌∷◌, arith, ltb,
  ◌==◌, if◌then◌else◌, length, get_elem?, Bool-cases, Option-cases, inl, inr,
}
use ibv_bench.Base.Text.{Text, text_eq, text_eq_iff}
use ibv_bench.Wire.Gid.{Gid, IsGid}
use ibv_bench.Wire.Address.{
  Dest, Fields, IsAddress, print_address, read_address, sizeof_msg, read_address-print_address,
  print_address-fits,
}

-- The `for` over the names of the devices; none where it stops at the NULL behind the last.
find_device : Text → List Text → Option ℕ
find_device name [] = none
find_device name (d ∷ ds) =
    let rest = find_device name ds in
    if text_eq d name then some 0 else elim rest [ none ↦ none | some i ↦ some (suc i) ]

first_device : List Text → Option ℕ
first_device [] = none
first_device (d ∷ ds) = some 0

-- The index of `ib_dev` in `dev_list`; none where `main` returns 1, as it does without a list.
unfoldable pub choose_device : Option (List Text) → Option Text → Option ℕ
unfolding find_device first_device
choose_device none ib_devname = none
choose_device (some devices) none = first_device devices
choose_device (some devices) (some name) = find_device name devices

-- The first request for an event, behind the receives; `main` returns 1 where it is false.
pub request_notify : (use_event notify_ok : Bool) → Bool
request_notify use_event notify_ok = not use_event || notify_ok

find_device-get_elem? :
    (name : Text) (devices : List Text) (i : ℕ)
    → find_device name devices ≡ some i
    → get_elem? devices i ≡ some name
unfolding find_device
find_device-get_elem? name [] i h = cc
find_device-get_elem? name (d ∷ ds) i h = elim (Bool-cases (text_eq d name)) [
  | inl same ↦ ground (arith, same, (text_eq_iff d name).0 same)
  | inr other ↦ elim (Option-cases (find_device name ds)) [
    | inl absent ↦ absurd (ground (arith, other, absent))
    | inr (j, found) ↦ ground (arith, other, found, find_device-get_elem? name ds j found)
  ]
]

-- A device that was asked for by name is one of that name in the list.
pub choose_device-get_elem? :
    (devices : List Text) (name : Text) (i : ℕ)
    → choose_device (some devices) (some name) ≡ some i
    → get_elem? devices i ≡ some name
unfolding choose_device
choose_device-get_elem? devices name i h = find_device-get_elem? name devices i h

-- What is read of `struct ibv_port_attr`.
pub record PortInfo : Type 0 where
  pub lid : ℕ
  pub is_ethernet : Bool

abbrev pub no_gid : Gid
no_gid = record {
  w0 = record { b0 = 0; b1 = 0; b2 = 0; b3 = 0 };
  w1 = record { b0 = 0; b1 = 0; b2 = 0; b3 = 0 };
  w2 = record { b0 = 0; b1 = 0; b2 = 0; b3 = 0 };
  w3 = record { b0 = 0; b1 = 0; b2 = 0; b3 = 0 };
}

-- `gidx >= 0` of the 32 bits of an `int`, and the answer of `ibv_query_gid`.
own_gid : ℕ → Option Gid → Option Gid
own_gid gidx queried = if ltb gidx (2 ^ 31) then queried else some no_gid

with_gid : PortInfo → ℕ → ℕ → Option Gid → Option Dest
with_gid info qp_num random none = none
with_gid info qp_num random (some g) =
    some (record { lid = info.lid; qpn = qp_num; psn = random % 2 ^ 24; gid = g })

-- `my_dest`; none where `main` returns 1. `random` is the result of `lrand48`, of which the low 24
-- bits are kept.
unfoldable pub own_address : Option PortInfo → ℕ → Option Gid → ℕ → ℕ → Option Dest
unfolding own_gid with_gid
own_address none gidx queried qp_num random = none
own_address (some info) gidx queried qp_num random =
    if not info.is_ethernet && info.lid == 0
    then none
    else with_gid info qp_num random (own_gid gidx queried)

-- The ranges of what the verbs library reports: a LID of 16 bits, a queue pair number of 24, and
-- bytes in the GID.
pub record IsReported (info : PortInfo) (g : Gid) (qp_num : ℕ) : Type 0 where
  pub lid_16_bits : info.lid < 2 ^ 16
  pub qpn_24_bits : qp_num < 2 ^ 24
  pub gid_bytes : IsGid g

pub no_gid-IsGid : IsGid no_gid
no_gid-IsGid = ground arith

pub own_address-IsAddress :
    (info : PortInfo) (gidx : ℕ) (g : Gid) (qp_num random : ℕ) (d : Dest)
    → IsReported info g qp_num
    → own_address (some info) gidx (some g) qp_num random ≡ some d
    → IsAddress d
unfolding own_address
own_address-IsAddress info gidx g qp_num random d h e =
    ground (arith, no_gid-IsGid, h.gid_bytes, h.lid_16_bits, h.qpn_24_bits)

-- The address that the program makes for itself, from a port and a queue pair as the library
-- reports them, fits into the message, and is read back from it by the other side.
pub own_address-readable :
    (info : PortInfo) (gidx : ℕ) (g : Gid) (qp_num random : ℕ) (d : Dest) (junk : ℕ) (old : Fields)
    → IsReported info g qp_num
    → own_address (some info) gidx (some g) qp_num random ≡ some d
    → (length (print_address d) < sizeof_msg) × (read_address junk old (print_address d) ≡ d)
own_address-readable info gidx g qp_num random d junk old h e =
    let a = own_address-IsAddress info gidx g qp_num random d h e in
    (
      (print_address-fits d a.gid_bytes (omega (arith, a.lid_16_bits))
            (omega (arith, a.qpn_24_bits)) (omega (arith, a.psn_24_bits))).1
          (a.lid_16_bits, a.qpn_24_bits, a.psn_24_bits),
      read_address-print_address d a junk old,
    )
