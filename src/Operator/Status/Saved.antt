-- ===== src/Operator/Status/Saved.antt =====
-- What has been written once the status has been updated.
use nacos_k8s.Base.{String, ◌≡◌, refl, ap, sym, ◌∙◌, Bool, true, Option, none, List, ℤ}
use nacos_k8s.Errors.{Error, done, ensure_normal, code_normal, ◌>>=◌}
use nacos_k8s.Errors.Laws.{invert-pure, invert->>=, invert-ensure_normal}
use nacos_k8s.Api.{Nacos, NacosSpec, Condition, Phase, phase_running}
use nacos_k8s.Environment.{Environment, call}
use nacos_k8s.Operator.World.{World, reading, modify, with_status}
use nacos_k8s.Operator.Keeps.{Keeps, invert-reading, Keeps->>=, reading-Keeps}
use nacos_k8s.Operator.Status.{update_last_event, store_event, push_status, update_status_running}

-- the parts of the resource that a change of its events leaves alone
abbrev pub but_events : Nacos → NacosSpec × List Condition × Phase
but_events n = (n.spec, n.status.conditions, n.status.phase)

module _ {K : Type 0} (e : Environment K) where
  pub store_event-Keeps :
      (code : ℤ) (msg : String) (status : Bool) → Keeps but_events (store_event e code msg status)
  unfolding store_event
  store_event-Keeps code msg status =
      Keeps->>= but_events (reading (update_last_event e code msg status)) _
        (reading-Keeps but_events _) λ events. record { kept = λ w. refl }

  pub push_status-Keeps : {X : Type 0} (part : Nacos → X) → Keeps part (push_status e)
  unfolding push_status
  push_status-Keeps part = reading-Keeps part _

  -- the cluster's state is the answer to an accepted update with this resource
  abbrev pub Saved : World K → Type 0
  Saved w = (k : K) × (e.update_status w.nacos k ≡ (none, w.cluster))

  invert-push_status :
      (w v w' : World K) (err : Option Error)
      → push_status e w ≡ (done err, v)
      → err ≡ none
      → v ≡ w'
      → Saved w' × (w'.nacos ≡ w.nacos)
  unfolding push_status
  invert-push_status w v w' err h p q =
      let i = invert-reading (λ nacos. call (e.update_status nacos)) err w v h in
      let asked = invert-pure (e.update_status w.nacos w.cluster).0 err _ v.cluster i.0 in
      let same = ap (λ u. u.nacos) (sym q) ∙ i.1 in
      (
        (
          w.cluster,
          ap (λ n. e.update_status n w.cluster) same ∙ λ j.
              ((asked.0 ∙ p) j, (asked.1 ∙ ap (λ u. u.cluster) q) j),
        ),
        same,
      )

  -- When the final update of the status returns, the phase is running, the specification and the
  -- conditions are unchanged, and the cluster has accepted the resource with that status.
  pub update_status_running_lem :
      (w w' : World K)
      → update_status_running e w ≡ (done tt, w')
      → (w'.nacos.status.phase ≡ phase_running)
        × (w'.nacos.spec ≡ w.nacos.spec)
        × (w'.nacos.status.conditions ≡ w.nacos.status.conditions)
        × Saved w'
  unfolding update_status_running
  update_status_running_lem w w' h =
      let stored = invert->>= (store_event e code_normal "" true) _ w w' tt h in
      let kept = (store_event-Keeps code_normal "" true).kept w in
      let run =
        invert->>= (modify (with_status λ s. record s { phase = phase_running }))
          (λ a. push_status e >>= λ err. ensure_normal err) stored.1 w' tt stored.3 in
      let pushed = invert->>= (push_status e) (λ err. ensure_normal err) run.1 w' tt run.3 in
      let normal = invert-ensure_normal pushed.0 pushed.1 w' pushed.3 in
      let saved = invert-push_status run.1 pushed.1 w' pushed.0 pushed.2 normal.0 normal.1 in
      let same = ap (λ q. but_events (q.1).nacos) (sym stored.2) ∙ kept in
      let ran = saved.1 ∙ ap (λ q. (q.1).nacos) (sym run.2) in
      (
        ap (λ n. n.status.phase) ran,
        ap (λ n. n.spec) ran ∙ ap (λ t. t.0) same,
        ap (λ n. n.status.conditions) ran ∙ ap (λ t. t.1) same,
        saved.0,
      )
