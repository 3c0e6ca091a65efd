-- ===== src/Operator/Status/Laws.antt =====
-- The list of recent events: how long it gets, and what its last entry says.
use nacos_k8s.Base.{
  suc, ◌≤◌, String, ◌≡◌, refl, Bool, false, Option, none, some, List, [], ◌∷◌, ◌++◌, ap, arith,
  length, length-append, Bool-cases, inl, inr, ℤ, int_eq, int_eq→eq, int_eq_refl,
}
use nacos_k8s.Errors.{Outcome, done, panic}
use nacos_k8s.Api.{Nacos, Event}
use nacos_k8s.Environment.{Environment}
use nacos_k8s.Operator.Status.{
  event_max_size, trim_events, last_event, set_last, touch_event, record_event, update_last_event,
}

-- the computation does not panic, and what it returns satisfies `P`
abbrev pub Returns {ℓ} : {A : Type ℓ} → (A → Type 0) → Outcome A → Type 0
Returns P (done a) = P a
Returns P (panic f) = ⊥

pub returned :
    {A : Type 0} (P : A → Type 0) (r : Outcome A) → Returns P r → (a : A) × (r ≡ done a) × P a
returned P (done a) h = (a, refl, h)
returned P (panic f) h = absurd h

abbrev pub latest : List Event → Option Event
latest [] = none
latest (x ∷ xs) = some (last_event x xs)

-- an entry that reports the error or success with the code and the message
abbrev pub Reports : ℤ → String → List Event → Type 0
Reports code msg events =
    (x : Event) × (latest events ≡ some x) × (x.code ≡ code) × (x.message ≡ msg)

length-trim_events :
    (events : List Event)
    → length events ≤ suc event_max_size
    → length (trim_events events) ≤ event_max_size
unfolding trim_events
length-trim_events [] h = omega arith
length-trim_events (x ∷ xs) h = ground arith

length-set_last : (events : List Event) (x : Event) → length (set_last events x) ≡ length events
unfolding set_last
length-set_last [] x = refl
length-set_last (y ∷ []) x = refl
length-set_last (y ∷ z ∷ ys) x = ap suc (length-set_last (z ∷ ys) x)

last_event-append : (x : Event) (xs : List Event) (y : Event) → last_event x (xs ++ y ∷ []) ≡ y
unfolding last_event
last_event-append x [] y = refl
last_event-append x (z ∷ xs) y = last_event-append z xs y

latest-set_last : (x : Event) (xs : List Event) (y : Event) → latest (set_last (x ∷ xs) y) ≡ some y
unfolding last_event set_last
latest-set_last x [] y = refl
latest-set_last x (z ∷ []) y = refl
latest-set_last x (z ∷ w ∷ xs) y = latest-set_last z (w ∷ xs) y

module _ {K : Type 0} (e : Environment K) (code : ℤ) (msg : String) (status : Bool) where
  touch_event_lem :
      (x : Event) (xs : List Event) (event : Event) (k : K)
      → length (x ∷ xs) ≤ event_max_size
      → Returns
          (λ result. (length result ≤ suc event_max_size) × Reports code msg result)
          (touch_event e code msg status (x ∷ xs) event k).0
  unfolding touch_event
  touch_event_lem x xs event k h = elim (Bool-cases (int_eq event.code code)) [
    | inl p ↦ rw p (
      omega (arith, h, length-set_last (x ∷ xs)),
      (_, latest-set_last x xs _, int_eq→eq event.code code p, refl),
    )
    | inr p ↦ rw p (
      omega (arith, h, length-append {0} (x ∷ xs)),
      (_, ap some (last_event-append x xs _), refl, refl),
    )
  ]

  record_event_lem :
      (events : List Event) (k : K)
      → length events ≤ event_max_size
      → Returns
          (λ result. (length result ≤ suc event_max_size) × Reports code msg result)
          (record_event e code msg status events k).0
  unfolding record_event
  record_event_lem [] k h =
      let event : Event = record {
        status = false;
        first_appear_time = (e.now k).0;
        last_transition_time = 0;
        message = msg;
        code = code;
      } in
      touch_event_lem event [] event (e.now k).1 (omega arith)
  record_event_lem (x ∷ xs) k h = touch_event_lem x xs (last_event x xs) k h

  -- When the resource holds at most eleven events, an update does not panic, again leaves at most
  -- eleven, and its latest entry carries the code and the message that were reported.
  pub update_last_event_lem :
      (nacos : Nacos) (k : K)
      → length nacos.status.event ≤ suc event_max_size
      → Returns
          (λ result. (length result ≤ suc event_max_size) × Reports code msg result)
          (update_last_event e code msg status nacos k).0
  unfolding update_last_event
  update_last_event_lem nacos k h =
      record_event_lem (trim_events nacos.status.event) k (length-trim_events nacos.status.event h)

  -- When the resource holds no event yet, the update leaves one entry, whose status is false,
  -- whatever status was reported.
  pub first_event_status :
      (nacos : Nacos) (k : K)
      → nacos.status.event ≡ []
      → Returns
          (λ result. (x : Event) × (result ≡ x ∷ []) × (x.status ≡ false) × (x.code ≡ code))
          (update_last_event e code msg status nacos k).0
  unfolding update_last_event trim_events record_event touch_event set_last
  first_event_status nacos k h = rw (h, int_eq_refl code) (_, refl, refl, refl)
