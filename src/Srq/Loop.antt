-- ===== src/Srq/Loop.antt =====
-- rdma-core/srq_pingpong.c: the loop of `main` over the answers of the library.
pub mod Ends
use ibv_bench.Base.{
  ℕ, Bool, true, false, ◌||◌, Option, none, some, List, [], ◌∷◌, ltb, if◌then◌else◌,
}
use ibv_bench.Rc.Loop.{Event, event_arrived}
use ibv_bench.Srq.Completion.{Context, State, Wc, handle_all}

-- One round: the answer of `ibv_get_cq_event` and what belongs to it, and that of `ibv_poll_cq`, a
-- failure or the completions, at most `num_wc`. Where the `do` polls again, which it does at no
-- completion and without events, that is the next round.
pub record Round : Type 0 where
  pub event : Event
  pub poll : Option (List Wc)

-- Where `main` stands after some rounds: past the loop, in it, or out of it by a `return`.
pub data Outcome : Type 0 where
  finished waiting : State → Outcome
  exited : Outcome

-- `while (rcnt < iters || scnt < iters)`
unfoldable pub running : ℕ → State → Bool
running iters s = ltb s.rcnt iters || ltb s.scnt iters

module _ (ctx : Context) where
  pub poll_body : ℕ → Option (List Wc) → State → Option State
  poll_body iters none s = none
  poll_body iters (some wcs) s = handle_all ctx iters wcs s

  -- One round, with `use_event` or without; none for a `return`.
  pub round_body : Bool → ℕ → Round → State → Option State
  unfolding poll_body
  round_body true iters r s = elim r.event [ event_arrived ↦ poll_body iters r.poll s | _ ↦ none ]
  round_body false iters r s = poll_body iters r.poll s

  pub main_loop : Bool → ℕ → List Round → State → Outcome
  unfolding round_body running
  main_loop use_event iters [] s = if running iters s then waiting s else finished s
  main_loop use_event iters (r ∷ rs) s =
      let on : Outcome = elim (round_body use_event iters r s) [
        | some t ↦ main_loop use_event iters rs t
        | none ↦ exited
      ] in
      if running iters s then on else finished s
