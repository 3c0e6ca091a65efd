-- ===== src/Controller/Sets.antt =====
-- How far a step can change the phase of the resource.
use nacos_k8s.Base.{
  String, ◌≡◌, refl, ap, ◌∙◌, Bool, true, false, ℤ, ◌⊎◌, inl, inr, if◌then◌else◌, int_eq,
}
use nacos_k8s.Errors.{
  Err, Fault, Exec, Outcome, done, panic, continue, raised, plain, runtime, pure, code_normal,
  ensure_normal, ◌>>=◌,
}
use nacos_k8s.Api.{Nacos, Phase, phase_failed, phase_running}
use nacos_k8s.Environment.{Environment}
use nacos_k8s.Operator.World.{World, reading, modify, with_status}
use nacos_k8s.Operator.Keeps.{Keeps, reading-Keeps, pure-Keeps, ensure_normal-Keeps}
use nacos_k8s.Operator.Status
use nacos_k8s.Operator.Status.{
  store_event, push_status, update_status_running, update_exception_status,
}
use nacos_k8s.Operator.Status.Saved.{store_event-Keeps, push_status-Keeps}
use nacos_k8s.Controller.{global_except_handle, handle_err, shows_exception}

abbrev pub phase : Nacos → Phase
phase n = n.status.phase

-- the step leaves the phase alone or sets it to `q`, also when it panics
pub record Sets {K A : Type 0} (q : Phase) (m : Exec (World K) A) : Type 0 where
  pub sets : (w : World K) → (phase ((m w).1).nacos ≡ phase w.nacos) ⊎ (phase ((m w).1).nacos ≡ q)

second : {p q r s : Phase} → (q ≡ p) ⊎ (q ≡ s) → (r ≡ q) ⊎ (r ≡ s) → (r ≡ p) ⊎ (r ≡ s)
second (inl a) (inl b) = inl (b ∙ a)
second (inr a) (inl b) = inr (b ∙ a)
second h (inr b) = inr b

module _ {K A B : Type 0} (q : Phase) where
  after :
      (r : Outcome A) (g : A → Exec (World K) B) (v : World K)
      → ((a : A) → Sets q (g a))
      → (phase ((continue r g v).1).nacos ≡ phase v.nacos) ⊎ (phase ((continue r g v).1).nacos ≡ q)
  after (done a) g v h = (h a).sets v
  after (panic e) g v h = inl refl

  pub Sets->>= :
      (m : Exec (World K) A) (g : A → Exec (World K) B)
      → Sets q m
      → ((a : A) → Sets q (g a))
      → Sets q (m >>= g)
  Sets->>= m g h k = record { sets = λ w. second (h.sets w) (after (m w).0 g (m w).1 k) }

module _ {K A : Type 0} (q : Phase) where
  pub Keeps→Sets : (m : Exec (World K) A) → Keeps phase m → Sets q m
  Keeps→Sets m h = record { sets = λ w. inl (h.kept w) }

  if-Sets : (b : Bool) (m n : Exec (World K) A) → Sets q m → Sets q n → Sets q (if b then m else n)
  if-Sets true m n h k = h
  if-Sets false m n h k = k

module _ {K : Type 0} (e : Environment K) where
  store_event-Sets :
      (q : Phase) (code : ℤ) (msg : String) (status : Bool) → Sets q (store_event e code msg status)
  store_event-Sets q code msg status = record {
    sets = λ w. inl (ap (λ t. t.2) ((store_event-Keeps e code msg status).kept w));
  }

  saves-Sets : (q : Phase) → Sets q (push_status e >>= λ err. ensure_normal err)
  saves-Sets q =
      Sets->>= q (push_status e) _ (Keeps→Sets q _ (push_status-Keeps e phase))
        λ err. Keeps→Sets q (ensure_normal err) (ensure_normal-Keeps phase err)

  pub update_status_running-Sets : Sets phase_running (update_status_running e)
  unfolding update_status_running
  update_status_running-Sets =
      Sets->>= phase_running (store_event e code_normal "" true) _
        (store_event-Sets phase_running code_normal "" true)
        λ a.
          Sets->>= phase_running (modify (with_status λ s. record s { phase = phase_running })) _
            (record { sets = λ w. inr refl }) λ b. saves-Sets phase_running

  update_exception_status-Sets : (err : Err) → Sets phase_failed (update_exception_status e err)
  unfolding update_exception_status
  update_exception_status-Sets err =
      Sets->>= phase_failed (store_event e err.code err.msg false) _
        (store_event-Sets phase_failed err.code err.msg false)
        λ a.
          Sets->>= phase_failed (modify (with_status λ s. record s { phase = phase_failed })) _
            (record { sets = λ w. inr refl })
            λ b.
              Sets->>= phase_failed (push_status e) _
                (Keeps→Sets phase_failed (push_status e) (push_status-Keeps e phase))
                λ c. Keeps→Sets phase_failed (pure tt) (pure-Keeps phase tt)

  update_status-Sets : (q : Phase) → Sets q (Status.update_status e)
  unfolding Status.update_status
  update_status-Sets q = saves-Sets q

  handle_err-Sets : (err : Err) → Sets phase_failed (handle_err e err)
  unfolding handle_err
  handle_err-Sets err =
      if-Sets phase_failed (int_eq err.code code_normal) (Status.update_status e) _
        (update_status-Sets phase_failed)
        (Sets->>= phase_failed (reading (shows_exception e)) _
          (Keeps→Sets phase_failed (reading (shows_exception e))
            (reading-Keeps phase (shows_exception e)))
          λ shown.
            if-Sets phase_failed shown (update_exception_status e err) (pure tt)
              (update_exception_status-Sets err)
              (Keeps→Sets phase_failed (pure tt) (pure-Keeps phase tt)))

  pub global_except_handle-Sets : (f : Fault) → Sets phase_failed (global_except_handle e f)
  unfolding global_except_handle
  global_except_handle-Sets (raised err) = handle_err-Sets err
  global_except_handle-Sets (plain err) = Keeps→Sets phase_failed (pure tt) (pure-Keeps phase tt)
  global_except_handle-Sets (runtime s) = Keeps→Sets phase_failed (pure tt) (pure-Keeps phase tt)
