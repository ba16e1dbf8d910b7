-- ===== src/Pm/Operation.antt =====
-- modules/pmi/pmi_wrapper.h: the operations of the process manager interface, as a program calls them
-- one after another.
use ibv_bench.Base.{List, [], ◌∷◌}
use ibv_bench.Base.Text.{Text}

pub data Operation : Type 0 where
  initialize initialized get_rank get_size barrier finalize : Operation
  publish : (key value : Text) → Operation
  getname : (key : Text) → Operation

abbrev pub Pair : Type 0
Pair = Text × Text

-- The pairs that are published, in order.
unfoldable pub published : List Operation → List Pair
published [] = []
published (publish key value ∷ ops) = (key, value) ∷ published ops
published (_ ∷ ops) = published ops
