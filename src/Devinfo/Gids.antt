-- ===== src/Devinfo/Gids.antt =====
-- rdma-core/devinfo.c: `null_gid`, `print_formated_gid` and `print_all_port_gids`. A line that is
-- printed is recorded with what it shows.
use ibv_bench.Base.{
  ℕ, zero, suc, ◌≡◌, refl, Bool, true, false, ◌&&◌, Option, none, some, List, [], ◌∷◌, ◌++◌, arith,
  ◌==◌, if◌then◌else◌,
}
use ibv_bench.Base.Text.{Text, codes}
use ibv_bench.Wire.Hex.{print_hex}
use ibv_bench.Wire.Gid.{Gid}
use ibv_bench.Devinfo.Names.{
  GidType, roce_v1, roce_v2, invalid_type, gid_type_str, LinkLayer, ethernet_layer,
}

-- The `|` of the bytes of the interface is 0.
pub null_gid : Gid → Bool
null_gid g =
    g.w2.b0 == 0
    && g.w2.b1 == 0
    && g.w2.b2 == 0
    && g.w2.b3 == 0
    && g.w3.b0 == 0
    && g.w3.b1 == 0
    && g.w3.b2 == 0
    && g.w3.b3 == 0

pub is_ethernet : LinkLayer → Bool
is_ethernet ethernet_layer = true
is_ethernet _ = false

-- Two bytes of the first form.
abbrev pair_of : ℕ → ℕ → Text
pair_of a b = print_hex 2 a ++ print_hex 2 b

colon : Text → Text
colon s = b':' ∷ s

-- The GID in the form of the first type.
pub gid_groups : Gid → Text
unfolding colon
gid_groups g =
    pair_of g.w0.b0 g.w0.b1
    ++ colon (pair_of g.w0.b2 g.w0.b3)
    ++ colon (pair_of g.w1.b0 g.w1.b1)
    ++ colon (pair_of g.w1.b2 g.w1.b3)
    ++ colon (pair_of g.w2.b0 g.w2.b1)
    ++ colon (pair_of g.w2.b2 g.w2.b3)
    ++ colon (pair_of g.w3.b0 g.w3.b1)
    ++ colon (pair_of g.w3.b2 g.w3.b3)

-- A line for one GID: its index, and the texts behind it. The second form is that of the library's
-- `inet_ntop`.
pub record GidLine : Type 0 where
  pub index : ℕ
  pub shown : Text
  pub suffix : Text

-- What the library answers for the entry of one index. A `query_rc` of 0 is success, and no type
-- is a failure of `ibv_query_gid_type`.
pub record Entry : Type 0 where
  pub query_rc : ℕ
  pub gid : Gid
  pub gid_type : Option GidType

pub type_of : Option GidType → GidType
type_of none = invalid_type
type_of (some t) = t

module _ (inet_ntop : Gid → Text) where
  pub suffix_of : GidType → LinkLayer → Text
  unfolding is_ethernet
  suffix_of type ll = if is_ethernet ll then codes ", " ++ gid_type_str type else []

  -- The two tests of the type.
  pub print_formated_gid : Gid → ℕ → GidType → LinkLayer → List GidLine
  unfolding suffix_of gid_groups
  print_formated_gid g i roce_v1 ll =
      record { index = i; shown = gid_groups g; suffix = suffix_of roce_v1 ll } ∷ []
  print_formated_gid g i roce_v2 ll =
      record { index = i; shown = inet_ntop g; suffix = suffix_of roce_v2 ll } ∷ []
  print_formated_gid g i invalid_type ll = []

  pub entry_lines : LinkLayer → ℕ → Entry → List GidLine
  unfolding print_formated_gid type_of null_gid
  entry_lines ll i e =
      if null_gid e.gid then [] else print_formated_gid e.gid i (type_of e.gid_type) ll

  -- The `for`, from the index `i` on with so many entries left: `rc`, and what is printed.
  pub print_gids_from : LinkLayer → (ℕ → Entry) → ℕ → ℕ → ℕ × List GidLine
  unfolding entry_lines
  print_gids_from ll table i zero = (0, [])
  print_gids_from ll table i (suc left) =
      let rest = print_gids_from ll table (suc i) left in
      let rc = (table i).query_rc in
      if rc == 0 then (rest.0, entry_lines ll i (table i) ++ rest.1) else (rc, [])

  pub print_all_port_gids : LinkLayer → (ℕ → Entry) → ℕ → ℕ × List GidLine
  unfolding print_gids_from
  print_all_port_gids ll table tbl_len = print_gids_from ll table 0 tbl_len

  -- The lines of the entries of some indices.
  pub lines_of : LinkLayer → (ℕ → Entry) → ℕ → ℕ → List GidLine
  lines_of ll table i zero = []
  lines_of ll table i (suc left) = entry_lines ll i (table i) ++ lines_of ll table (suc i) left

  print_gids-all :
      (ll : LinkLayer) (table : ℕ → Entry) (i left : ℕ)
      → ((j : ℕ) → (table j).query_rc ≡ 0)
      → print_gids_from ll table i left ≡ (0, lines_of ll table i left)
  unfolding print_gids_from lines_of
  print_gids-all ll table i zero h = refl
  print_gids-all ll table i (suc left) h =
      let rest = print_gids-all ll table (suc i) left h in let ok = h i in ground (arith, ok, rest)

  -- Where no query fails, the entries with a GID that is not null and a type that the library knows
  -- are printed, in order.
  pub print_all_port_gids-all :
      (ll : LinkLayer) (table : ℕ → Entry) (tbl_len : ℕ)
      → ((j : ℕ) → (table j).query_rc ≡ 0)
      → print_all_port_gids ll table tbl_len ≡ (0, lines_of ll table 0 tbl_len)
  unfolding print_all_port_gids
  print_all_port_gids-all ll table tbl_len h = print_gids-all ll table 0 tbl_len h
