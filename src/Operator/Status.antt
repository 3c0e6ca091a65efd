-- ===== src/Operator/Status.antt =====
-- operator/pkg/service/operator/Status.go: the status of the resource and its recent events.
pub mod Laws
pub mod Saved
use nacos_k8s.Base.{
  ℕ, String, Bool, true, false, Option, List, [], ◌∷◌, ◌++◌, ltb, if◌then◌else◌, length, ℤ, int_eq,
}
use nacos_k8s.Errors.{Error, Err, Exec, pure, code_normal, ensure_normal, ◌>>=◌, ◌>>◌}
use nacos_k8s.Api.{Nacos, Event, phase_running, phase_failed}
use nacos_k8s.Environment.{Environment, call}
use nacos_k8s.Operator.World.{World, reading, modify, with_status}

abbrev pub event_max_size : ℕ
event_max_size = 10

-- `append(events[:0], events[1:]...)`
unfoldable pub drop_first : List Event → List Event
drop_first [] = []
drop_first (x ∷ xs) = xs

-- `if len(events) > EVENT_MAX_SIZE { ... }`
unfoldable pub trim_events : List Event → List Event
unfolding drop_first
trim_events events = if ltb event_max_size (length events) then drop_first events else events

-- `events[len(events)-1]` of a slice that is not empty
unfoldable pub last_event : Event → List Event → Event
last_event x [] = x
last_event x (y ∷ ys) = last_event y ys

-- `events[len(events)-1] = event`
unfoldable pub set_last : List Event → Event → List Event
set_last [] event = []
set_last (x ∷ []) event = event ∷ []
set_last (x ∷ y ∷ ys) event = x ∷ set_last (y ∷ ys) event

module _ {K : Type 0} (e : Environment K) (code : ℤ) (msg : String) (status : Bool) where
  -- the second half of `updateLastEvent`, where `event` is the latest
  unfoldable pub touch_event : List Event → Event → Exec K (List Event)
  unfolding set_last
  touch_event events event =
      if int_eq event.code code
      then (do
        t ← call e.now
        pure (set_last events (record event { last_transition_time = t; message = msg })))
      else (do
        t ← call e.now
        t' ← call e.now
        pure (
            events
            ++ record {
              status = status;
              first_appear_time = t';
              last_transition_time = t;
              message = msg;
              code = code;
            }
              ∷ []))

  unfoldable pub record_event : List Event → Exec K (List Event)
  unfolding touch_event last_event
  record_event [] = do
    t ← call e.now
    let event : Event = record {
      status = false;
      first_appear_time = t;
      last_transition_time = 0;
      message = msg;
      code = code;
    }
    touch_event (event ∷ []) event
  record_event (x ∷ xs) = touch_event (x ∷ xs) (last_event x xs)

  unfoldable pub update_last_event : Nacos → Exec K (List Event)
  unfolding trim_events record_event
  update_last_event nacos = record_event (trim_events nacos.status.event)

  -- the assignments to the resource
  unfoldable pub store_event : Exec (World K) (Unit {0})
  unfolding update_last_event
  store_event = do
    events ← reading update_last_event
    modify (with_status λ s. record s { event = events })

module _ {K : Type 0} (e : Environment K) where
  -- `client.Status().Update`
  unfoldable pub push_status : Exec (World K) (Option Error)
  push_status = reading λ nacos. call (e.update_status nacos)

  unfoldable pub update_status_running : Exec (World K) (Unit {0})
  unfolding store_event push_status ensure_normal
  update_status_running = do
    store_event e code_normal "" true
    modify (with_status λ s. record s { phase = phase_running })
    err ← push_status
    ensure_normal err

  unfoldable pub update_status : Exec (World K) (Unit {0})
  unfolding push_status ensure_normal
  update_status = do err ← push_status; ensure_normal err

  -- an error of the update is only logged
  unfoldable pub update_exception_status : Err → Exec (World K) (Unit {0})
  unfolding store_event push_status
  update_exception_status err = do
    store_event e err.code err.msg false
    modify (with_status λ s. record s { phase = phase_failed })
    failed ← push_status
    pure tt
