-- ===== src/Pm/Pmi1.antt =====
-- modules/pmi/pmi_wrapper_pmi1.c: the calls of the PMI client library that each operation makes. What
-- the library returns is not looked at, but for the name of the key value space.
use ibv_bench.Base.{ℕ, ◌≡◌, refl, List, [], ◌∷◌, ◌++◌}
use ibv_bench.Base.Text.{Text}
use ibv_bench.Pm.Operation.{
  Operation, initialize, initialized, get_rank, get_size, barrier, finalize, publish, getname, Pair,
}

pub data Call : Type 0 where
  pmi_init pmi_initialized pmi_get_rank pmi_get_universe_size pmi_barrier pmi_finalize : Call
  pmi_kvs_get_my_name : (length : ℕ) → Call
  pmi_kvs_put : (kvsname key value : Text) → Call
  pmi_kvs_get : (kvsname key : Text) (length : ℕ) → Call
  pmi_kvs_commit : (kvsname : Text) → Call

-- `lcg_name` is what the library gives as the name of the space.
module _ (lcg_name : Text) where
  pub lcm_pm_publish : Text → Text → List Call
  lcm_pm_publish key value = pmi_kvs_get_my_name 255 ∷ pmi_kvs_put lcg_name key value ∷ []

  pub lcm_pm_getname : Text → List Call
  lcm_pm_getname key = pmi_kvs_get_my_name 255 ∷ pmi_kvs_get lcg_name key 255 ∷ []

  -- The other operations make one call.
  pub lcm_pm : Operation → List Call
  unfolding lcm_pm_publish lcm_pm_getname
  lcm_pm initialize = pmi_init ∷ []
  lcm_pm initialized = pmi_initialized ∷ []
  lcm_pm get_rank = pmi_get_rank ∷ []
  lcm_pm get_size = pmi_get_universe_size ∷ []
  lcm_pm barrier = pmi_barrier ∷ []
  lcm_pm finalize = pmi_finalize ∷ []
  lcm_pm (publish key value) = lcm_pm_publish key value
  lcm_pm (getname key) = lcm_pm_getname key

  pub run : List Operation → List Call
  unfolding lcm_pm
  run [] = []
  run (op ∷ ops) = lcm_pm op ++ run ops

-- What other processes may see by the documentation of `PMI_KVS_Put`: the pairs that were put, once
-- `PMI_KVS_Commit` has been called. `put` are those that were not committed.
visible : List Pair → List Call → List Pair
visible put [] = []
visible put (pmi_kvs_put name key value ∷ calls) = visible (put ++ ((key, value) ∷ [])) calls
visible put (pmi_kvs_commit name ∷ calls) = put ++ visible [] calls
visible put (_ ∷ calls) = visible put calls

-- Whatever operations are called, in whatever order, nothing that is published may be seen.
run-sees_nothing :
    (lcg_name : Text) (ops : List Operation) (put : List Pair) → visible put (run lcg_name ops) ≡ []
unfolding run visible
run-sees_nothing n [] put = refl
run-sees_nothing n (publish key value ∷ ops) put =
    run-sees_nothing n ops (put ++ ((key, value) ∷ []))
run-sees_nothing n (getname key ∷ ops) put = run-sees_nothing n ops put
run-sees_nothing n (initialize ∷ ops) put = run-sees_nothing n ops put
run-sees_nothing n (initialized ∷ ops) put = run-sees_nothing n ops put
run-sees_nothing n (get_rank ∷ ops) put = run-sees_nothing n ops put
run-sees_nothing n (get_size ∷ ops) put = run-sees_nothing n ops put
run-sees_nothing n (barrier ∷ ops) put = run-sees_nothing n ops put
run-sees_nothing n (finalize ∷ ops) put = run-sees_nothing n ops put
