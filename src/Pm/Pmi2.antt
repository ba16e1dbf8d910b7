-- ===== src/Pm/Pmi2.antt =====
-- modules/pmi/pmi_wrapper_pmi2.c: the calls of the PMI2 client library that each operation makes.
use ibv_bench.Base.{ℕ, ◌≡◌, refl, ap, List, [], ◌∷◌, ◌++◌, append_assoc, ◌∙◌}
use ibv_bench.Base.Text.{Text}
use ibv_bench.Pm.Operation.{
  Operation, initialize, initialized, get_rank, get_size, barrier, finalize, publish, getname, Pair,
  published,
}

pub data Call : Type 0 where
  pmi2_init pmi2_initialized pmi2_job_get_rank pmi2_info_get_size : Call
  pmi2_kvs_fence pmi2_finalize : Call
  pmi2_kvs_put : (key value : Text) → Call
  pmi2_kvs_get : (key : Text) (maxvalue : ℕ) → Call

pub lcm_pm : Operation → Call
lcm_pm initialize = pmi2_init
lcm_pm initialized = pmi2_initialized
lcm_pm get_rank = pmi2_job_get_rank
lcm_pm get_size = pmi2_info_get_size
lcm_pm barrier = pmi2_kvs_fence
lcm_pm finalize = pmi2_finalize
lcm_pm (publish key value) = pmi2_kvs_put key value
lcm_pm (getname key) = pmi2_kvs_get key 255

pub run : List Operation → List Call
unfolding lcm_pm
run [] = []
run (op ∷ ops) = lcm_pm op ∷ run ops

-- What all processes must see by the documentation of `PMI2_KVS_Fence`: the pairs that were put
-- before it.
visible : List Pair → List Call → List Pair
visible put [] = []
visible put (pmi2_kvs_put key value ∷ calls) = visible (put ++ ((key, value) ∷ [])) calls
visible put (pmi2_kvs_fence ∷ calls) = put ++ visible [] calls
visible put (_ ∷ calls) = visible put calls

-- Behind a barrier, all that has been published is to be seen, in order.
run-sees_published :
    (ops : List Operation) (put : List Pair)
    → visible put (run (ops ++ (barrier ∷ []))) ≡ put ++ published ops
unfolding run visible published
run-sees_published [] put = refl
run-sees_published (publish key value ∷ ops) put =
    run-sees_published ops (put ++ ((key, value) ∷ []))
    ∙ append_assoc put ((key, value) ∷ []) (published ops)
run-sees_published (barrier ∷ ops) put = ap (λ l. put ++ l) (run-sees_published ops [])
run-sees_published (getname key ∷ ops) put = run-sees_published ops put
run-sees_published (initialize ∷ ops) put = run-sees_published ops put
run-sees_published (initialized ∷ ops) put = run-sees_published ops put
run-sees_published (get_rank ∷ ops) put = run-sees_published ops put
run-sees_published (get_size ∷ ops) put = run-sees_published ops put
run-sees_published (finalize ∷ ops) put = run-sees_published ops put
