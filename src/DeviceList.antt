-- ===== src/DeviceList.antt =====
-- rdma-core/device_list.c, which prints the names of the devices and their identifiers.
mod Tests
use ibv_bench.Base.{
  ℕ, ◌+◌, ◌-◌, ◌≤◌, ◌≡◌, refl, Option, none, some, List, [], ◌∷◌, ◌++◌, map, length, replicate,
  length-append, length-replicate, arith,
}
use ibv_bench.Base.Text.{Text, codes}
use ibv_bench.Wire.Hex.{hex_fixed, length-hex_fixed}

-- What the library answers for one device; the identifier has 64 bits.
pub record Device : Type 0 where
  pub name : Text
  pub guid : ℕ

-- `%-16s`
pub padded : Text → Text
padded s = s ++ replicate (16 - length s) b' '

-- `"    %-16s\t%016llx"`, without the end of the line.
row : Text → Text → Text
unfolding padded
row name second = codes "    " ++ padded name ++ b'\t' ∷ second

device_row : Device → Text
unfolding row
device_row d = row d.name (hex_fixed 16 d.guid)

-- The status and the lines, where `ibv_get_device_list` answers with a list or fails.
pub main : Option (List Device) → ℕ × List Text
unfolding device_row
main none = (1, [])
main (some ds) = (
  0,
  row (codes "device") (codes "   node GUID")
      ∷ row (codes "------") (codes "----------------")
      ∷ map device_row ds,
)

length-padded : (s : Text) → length s ≤ 16 → length (padded s) ≡ 16
unfolding padded
length-padded s h = omega (
  arith,
  length-append s (replicate (16 - length s) b' '),
  length-replicate {A = ℕ} (16 - length s) b' ',
)

-- The rows of devices with names of at most 16 characters are equally long.
length-device_row : (d : Device) → length d.name ≤ 16 → length (device_row d) ≡ 37
unfolding device_row row
length-device_row d h =
    let name = length-padded d.name h in
    let guid = length-hex_fixed 16 d.guid in
    let whole = length-append (padded d.name) (b'\t' ∷ hex_fixed 16 d.guid) in
    omega (arith, name, guid, whole)
