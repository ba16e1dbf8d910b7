-- ===== src/Asyncwatch.antt =====
-- rdma-core/asyncwatch.c, which prints the asynchronous events of a device.
mod Tests
use ibv_bench.Base.{
  ℕ, ◌≡◌, refl, Bool, true, false, Option, none, some, List, [], ◌∷◌, ◌++◌, map, ap, if◌then◌else◌,
}
use ibv_bench.Base.Text.{Text, codes}
use ibv_bench.Rc.Start.{choose_device}

-- The events of the verbs library that have a name here; all others are `other_event`.
pub data EventType : Type 0 where
  device_fatal port_active port_err lid_change pkey_change sm_change : EventType
  client_reregister gid_change other_event : EventType

unfoldable pub event_name_str : EventType → Text
event_name_str device_fatal = codes "IBV_EVENT_DEVICE_FATAL"
event_name_str port_active = codes "IBV_EVENT_PORT_ACTIVE"
event_name_str port_err = codes "IBV_EVENT_PORT_ERR"
event_name_str lid_change = codes "IBV_EVENT_LID_CHANGE"
event_name_str pkey_change = codes "IBV_EVENT_PKEY_CHANGE"
event_name_str sm_change = codes "IBV_EVENT_SM_CHANGE"
event_name_str client_reregister = codes "IBV_EVENT_CLIENT_REREGISTER"
event_name_str gid_change = codes "IBV_EVENT_GID_CHANGE"
event_name_str other_event = codes "unexpected"

pub data Opt : Type 0 where
  opt_ib_dev : Text → Opt
  opt_help opt_unknown : Opt

-- The options, up to one that ends `main`: the name of the device, or a status.
pub data Parsed : Type 0 where
  device_of : Option Text → Parsed
  ended : ℕ → Parsed

pub parse : Option Text → List Opt → Parsed
parse name [] = device_of name
parse name (opt_ib_dev n ∷ os) = parse (some n) os
parse name (opt_help ∷ os) = ended 0
parse name (opt_unknown ∷ os) = ended 1

pub record AsyncEvent : Type 0 where
  pub event_type : EventType
  pub type_number : ℕ
  pub port_num : ℕ

-- An answer of `ibv_get_async_event`.
pub data Answer : Type 0 where
  event : AsyncEvent → Answer
  failed : Answer

-- What is done for an event: a line with its name, number and port, and the acknowledgement.
pub data Action : Type 0 where
  printed : Text → ℕ → ℕ → Action
  acknowledged : AsyncEvent → Action

-- Where the program stands: its status, or none where it waits for the next event.
pub record Run : Type 0 where
  pub status : Option ℕ
  pub actions : List Action

pub print_event : AsyncEvent → List Action
print_event e = printed (event_name_str e.event_type) e.type_number e.port_num ∷ acknowledged e ∷ []

-- The last `while`.
unfoldable pub watch : List Answer → Run
unfolding print_event
watch [] = record { status = none; actions = [] }
watch (failed ∷ answers) = record { status = some 1; actions = [] }
watch (event e ∷ answers) =
    let rest = watch answers in
    record { status = rest.status; actions = print_event e ++ rest.actions }

-- The device of some index is opened, and watched.
pub watch_device : (ℕ → Bool) → List Answer → Option ℕ → Run
unfolding watch
watch_device open_ok answers none = record { status = some 1; actions = [] }
watch_device open_ok answers (some i) =
    if open_ok i then watch answers else record { status = some 1; actions = [] }

-- `main`, from the names of the devices, where the library gives a list. Without a name, the first
-- device is watched.
unfoldable pub main : Option (List Text) → (ℕ → Bool) → List Opt → List Answer → Run
unfolding parse watch_device
main devices open_ok os answers = elim (parse none os) [
  | ended s ↦ record { status = some s; actions = [] }
  | device_of name ↦ watch_device open_ok answers (choose_device devices name)
]

-- What is done for some events, in order.
printed_all : List AsyncEvent → List Action
printed_all [] = []
printed_all (e ∷ es) = print_event e ++ printed_all es

-- Events are printed and acknowledged one after another, before anything is done for what the
-- library answers behind them, which decides how the program ends.
watch-events :
    (es : List AsyncEvent) (answers : List Answer)
    → watch (map event es ++ answers) ≡ record {
      status = (watch answers).status;
      actions = printed_all es ++ (watch answers).actions;
    }
unfolding watch printed_all
watch-events [] answers = refl
watch-events (e ∷ es) answers =
    ap (λ (r : Run). record { status = r.status; actions = print_event e ++ r.actions })
      (watch-events es answers)
