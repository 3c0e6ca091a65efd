-- ===== src/Controller/Patience.antt =====
-- What becomes of a reconciliation that stops with an error of the operator: a resource that has been
-- under creation for at most three minutes is left alone.
use nacos_k8s.Base.{
  ◌+◌, ◌≤◌, ◌<◌, suc, ◌≡◌, refl, ap, ◌∙◌, Bool, true, false, length, int_eq, ltb, ◌⊎◌, inl, inr,
  arith,
}
use nacos_k8s.Go.Maps.{RangeOrder}
use nacos_k8s.Errors.{Err, raised, panic, code_normal}
use nacos_k8s.Api.{
  Phase, phase_creating, phase_failed, phase_none, phase_scale, phase_running, other_phase,
}
use nacos_k8s.Environment.{Environment}
use nacos_k8s.Operator.World.{World}
use nacos_k8s.Operator.Status
use nacos_k8s.Operator.Status.{event_max_size, update_last_event}
use nacos_k8s.Operator.Status.Laws.{returned, Reports, update_last_event_lem}
use nacos_k8s.Controller.{
  three_minutes, is_creating, shows_exception, handle_err, global_except_handle, recover, stages,
  reconcile_work,
}

module _ (o : RangeOrder) {K : Type 0} (e : Environment K) (err : Err) where
  -- the error stands in the resource, which has failed and is sent to the cluster
  abbrev pub Shown : World K → World K → Type 0
  Shown v w =
      (w.nacos.status.phase ≡ phase_failed)
      × Reports err.code err.msg w.nacos.status.event
      × (w.nacos.spec ≡ v.nacos.spec)
      × ((k : K) × (w.cluster ≡ (e.update_status w.nacos k).1))

  -- the resource is still being created, by the clock
  abbrev pub IsPatient : World K → Type 0
  IsPatient v =
      (v.nacos.status.phase ≡ phase_creating)
      × ((e.now v.cluster).0 ≤ v.nacos.creation_timestamp + three_minutes)

  abbrev pub IsOverdue : World K → Type 0
  IsOverdue v =
      (v.nacos.status.phase ≡ phase_creating → ⊥)
      ⊎ (v.nacos.creation_timestamp + three_minutes < (e.now v.cluster).0)

  exception-Shown :
      (v : World K)
      → length v.nacos.status.event ≤ suc event_max_size
      → Shown v (Status.update_exception_status e err v).1
  unfolding Status.update_exception_status Status.store_event Status.push_status
  exception-Shown v h =
      let step = update_last_event e err.code err.msg false v.nacos v.cluster in
      let written =
        returned _ step.0 (update_last_event_lem e err.code err.msg false v.nacos v.cluster h) in
      rw written.1 (refl, (written.2).1, refl, (_, refl))

  handle-patient :
      (v : World K)
      → int_eq err.code code_normal ≡ false
      → IsPatient v
      → (handle_err e err v).1 ≡ record v { cluster = (e.now v.cluster).1 }
  unfolding handle_err shows_exception
  handle-patient v c (p, q) =
      let early : ltb (v.nacos.creation_timestamp + three_minutes) (e.now v.cluster).0 ≡ false =
        ground (arith, q) in
      rw (c, p, early) refl

  not_creating : (p : Phase) → (p ≡ phase_creating → ⊥) → is_creating p ≡ false
  not_creating phase_creating h = absurd (h refl)
  not_creating phase_none h = refl
  not_creating phase_failed h = refl
  not_creating phase_scale h = refl
  not_creating phase_running h = refl
  not_creating (other_phase s) h = refl

  handle-overdue :
      (v : World K)
      → int_eq err.code code_normal ≡ false
      → length v.nacos.status.event ≤ suc event_max_size
      → IsOverdue v
      → Shown v (handle_err e err v).1
  unfolding handle_err shows_exception
  handle-overdue v c n (inl p) = rw (c, not_creating v.nacos.status.phase p) (exception-Shown v n)
  handle-overdue v c n (inr q) = split (is_creating v.nacos.status.phase) refl
    where
      late : ltb (v.nacos.creation_timestamp + three_minutes) (e.now v.cluster).0 ≡ true
      late = ground (arith, q)

      split : (b : Bool) → is_creating v.nacos.status.phase ≡ b → Shown v (handle_err e err v).1
      split true p =
          rw (c, p, late) (exception-Shown (record v { cluster = (e.now v.cluster).1 }) n)
      split false p = rw (c, p) (exception-Shown v n)

  -- When the stages stop with an error of the operator whose code is not the normal one, and the
  -- resource has at most eleven events: if the resource is still being created and the clock says that
  -- at most three minutes have passed since, the reconciliation does not settle and nothing but the
  -- reading of the clock happens after the stop, so the error is not shown. If it is in another phase
  -- or more time has passed, its phase becomes failed, its latest event carries the code and the
  -- message of the error, its specification is kept, and the resource is sent to the cluster.
  pub reconcile_work-error :
      (w v : World K)
      → stages o e w ≡ (panic (raised err), v)
      → int_eq err.code code_normal ≡ false
      → length v.nacos.status.event ≤ suc event_max_size
      → (IsPatient v → reconcile_work o e w ≡ (false, record v { cluster = (e.now v.cluster).1 }))
        × (IsOverdue v → Shown v (reconcile_work o e w).1)
  unfolding reconcile_work recover global_except_handle
  reconcile_work-error w v h c n = (
    λ p. ap (λ r. recover e r.0 r.1) h ∙ ap (λ u. (false, u)) (handle-patient v c p),
    λ p. rw h (handle-overdue v c n p),
  )
