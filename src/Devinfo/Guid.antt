-- ===== src/Devinfo/Guid.antt =====
-- rdma-core/devinfo.c: `guid_str`, of the number that `be64toh` gives.
use ibv_bench.Base.{
  ℕ, ◌+◌, ◌*◌, ◌/◌, ◌%◌, ◌^◌, ◌<◌, ◌≡◌, Option, none, some, [], ◌∷◌, ◌++◌, arith, length,
  length-append, ap, sym, ◌∙◌, append-nil,
}
use ibv_bench.Base.Text.{Text}
use ibv_bench.Wire.Hex.{
  hex_fixed, print_hex, scan_hex, print_hex-fits, length-hex_fixed, scan_hex-hex_fixed,
}
use ibv_bench.Wire.Address.{scan_colon, scan_hex-field}

-- The 16 bits from bit `k` on.
abbrev group : ℕ → ℕ → ℕ
group guid k = guid / 2 ^ k % 2 ^ 16

pub guid_str : ℕ → Text
guid_str guid =
    print_hex 4 (group guid 48)
    ++ (b':'
        ∷ (print_hex 4 (group guid 32)
            ++ (b':' ∷ (print_hex 4 (group guid 16) ++ (b':' ∷ print_hex 4 (group guid 0))))))

-- The number that such a text stands for: groups of hexadecimal digits, the last without a colon.
after_colon : (Text → Option ℕ) → Text → Option ℕ
unfolding scan_colon
after_colon next s = elim (scan_colon s) [ none ↦ none | some r ↦ next r ]

last_group : ℕ → Text → Option ℕ
last_group high s = elim (scan_hex s) [ none ↦ none | some (v, r) ↦ some (high * 2 ^ 16 + v) ]

then_group : (ℕ → Text → Option ℕ) → ℕ → Text → Option ℕ
unfolding after_colon
then_group next high s = elim (scan_hex s) [
  | none ↦ none
  | some (v, r) ↦ after_colon (next (high * 2 ^ 16 + v)) r
]

pub guid_of : Text → Option ℕ
unfolding then_group last_group
guid_of = then_group (then_group (then_group last_group)) 0

length-group : (v : ℕ) → v < 2 ^ 16 → length (print_hex 4 v) ≡ 4
length-group v h = rw (print_hex-fits 4 v (omega arith)) (length-hex_fixed 4 v)

then_group-field :
    (next : ℕ → Text → Option ℕ) (high v : ℕ) (rest : Text)
    → v < 2 ^ 16
    → then_group next high (print_hex 4 v ++ (b':' ∷ rest)) ≡ next (high * 2 ^ 16 + v) rest
unfolding then_group after_colon scan_colon
then_group-field next high v rest h =
    ground (arith, scan_hex-field 2 v rest (omega arith) (omega arith))

last_group-field :
    (high v : ℕ) → v < 2 ^ 16 → last_group high (print_hex 4 v) ≡ some (high * 2 ^ 16 + v)
unfolding last_group
last_group-field high v h =
    let read =
      ap scan_hex (print_hex-fits 4 v (omega arith) ∙ sym (append-nil (hex_fixed 4 v)))
      ∙ scan_hex-hex_fixed 2 v [] (omega arith) (omega arith) tt in
    ground (arith, read)

-- What is printed of a GUID of 64 bits has 19 characters, and its four groups of hexadecimal digits
-- are read back as the GUID.
pub guid_of-guid_str :
    (guid : ℕ)
    → guid < 2 ^ 64
    → (length (guid_str guid) ≡ 19) × (guid_of (guid_str guid) ≡ some guid)
unfolding guid_str guid_of
guid_of-guid_str guid small = (
  omega (
    arith,
    length-append {0},
    length-group (group guid 48) (omega arith),
    length-group (group guid 32) (omega arith),
    length-group (group guid 16) (omega arith),
    length-group (group guid 0) (omega arith),
  ),
  then_group-field (then_group (then_group last_group)) 0 (group guid 48) _ (omega arith)
      ∙ then_group-field (then_group last_group) first (group guid 32) _ (omega arith)
      ∙ then_group-field last_group second (group guid 16) _ (omega arith)
      ∙ last_group-field third (group guid 0) (omega arith)
      ∙ ap (λ (n : ℕ). some n) whole,
)
  where
    first : ℕ
    first = 0 * 2 ^ 16 + group guid 48

    second : ℕ
    second = first * 2 ^ 16 + group guid 32

    third : ℕ
    third = second * 2 ^ 16 + group guid 16

    whole : third * 2 ^ 16 + group guid 0 ≡ guid
    whole = omega arith
