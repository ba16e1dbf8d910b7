-- ===== src/Rc/Finish.antt =====
-- rdma-core/rc_pingpong.c: `main` behind its loop, but for the numbers of its report.
use ibv_bench.Base.{
  ℕ, ◌≡◌, ◌≢◌, ◌⊎◌, Bool, false, not, ◌&&◌, Option, none, some, List, [], if◌then◌else◌,
}
use ibv_bench.Rc.Setup.{Action, CloseAnswers, Built, pp_close_ctx}
use ibv_bench.Rc.Setup.Balance.{replay, held}
use ibv_bench.Validate.{Memory, check_pages}

-- What `main` has behind its loop.
pub record Ends : Type 0 where
  pub time_ok : Bool
  pub server : Bool
  pub validate_buf : Bool
  pub use_dm : Bool
  pub copy_ok : Bool
  pub num_cq_events : ℕ
  pub memory : Memory

-- `main` at its end: whether it returns 0, the pages that it reports as invalid (none where the
-- index overflows, from where on the rest is undefined), the events that are
-- acknowledged, and what is released.
pub record Ending : Type 0 where
  pub status : Bool
  pub invalid : Option (List ℕ)
  pub acked : ℕ
  pub closing : List Action

abbrev failed : Ending
failed = record { status = false; invalid = some []; acked = 0; closing = [] }

module _ (page_size size : ℕ) (e : Ends) (d : CloseAnswers) (c : Built) where
  close_with : Option (List ℕ) → Ending
  close_with invalid =
      let (ok, actions) = pp_close_ctx d c in
      record { status = ok; invalid = invalid; acked = e.num_cq_events; closing = actions }

  validate : Ending
  unfolding close_with
  validate =
      if e.use_dm && not e.copy_ok
      then failed
      else close_with (check_pages page_size 0 size e.memory)

  unfoldable pub main_end : Ending
  unfolding close_with validate
  main_end =
      if not e.time_ok
      then failed
      else if e.server && e.validate_buf
      then validate
      else close_with (some [])

  -- An ending that releases legally, and where it is one of success, all with these reports.
  abbrev Releases : Option (List ℕ) → Ending → Type 0
  Releases invalid x =
      (replay x.closing (held c) ≢ none)
      × ((x.status ≡ false)
          ⊎ (replay x.closing (held c) ≡ some [])
            × (x.acked ≡ e.num_cq_events)
            × (x.invalid ≡ invalid))
