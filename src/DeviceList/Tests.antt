-- ===== src/DeviceList/Tests.antt =====
-- The table for one device.
use ibv_bench.Base.{◌≡◌, refl, some, [], ◌∷◌}
use ibv_bench.Base.Text.{codes}
use ibv_bench.Wire.Hex.{hex_fixed}
use ibv_bench.DeviceList.{main}

shown : main (some (record { name = codes "mlx5_0"; guid = 0x0002c90300fed670 } ∷ [])) ≡ (
  0,
  codes "    device          \t   node GUID"
      ∷ codes "    ------          \t----------------"
      ∷ codes "    mlx5_0          \t0002c90300fed670"
      ∷ [],
)
unfolding main hex_fixed ibv_bench.Wire.Hex.hex_digit
shown = refl
