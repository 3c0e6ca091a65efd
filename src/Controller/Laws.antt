-- ===== src/Controller/Laws.antt =====
-- What a reconciliation that settles has achieved.
use nacos_k8s.Base.{
  [], ◌⊎◌, ℕ, ◌*◌, ◌≤◌, String, ◌≡◌, refl, ap, sym, ◌∙◌, true, some, List, All, length, ℤ, pos,
  arith,
}
use mathlib.Core.Path.{subst}
use nacos_k8s.Go.Maps.{RangeOrder}
use nacos_k8s.Errors.{Outcome, done, panic, ◌>>=◌}
use nacos_k8s.Errors.Laws.{invert->>=}
use nacos_k8s.Kube.{Pod}
use nacos_k8s.Api.{
  NacosSpec, Phase, phase_none, phase_failed, phase_creating, phase_running, phase_scale,
  other_phase,
}
use nacos_k8s.Environment.{Environment}
use nacos_k8s.Kind.Defaults.{validation_field}
use nacos_k8s.Operator.World.{World, reading}
use nacos_k8s.Operator.Keeps.{invert-reading}
use nacos_k8s.Operator.Check.{check_kind, check_nacos}
use nacos_k8s.Operator.Check.Laws.{Healthy, reported, named, check_nacos-Healthy}
use nacos_k8s.Operator.Check.Listed.{Listed, check_kind-Listed}
use nacos_k8s.Operator.Check.Quorum.{IsReady, check_kind-Ready}
use nacos_k8s.Operator.Status.Saved.{Saved, update_status_running_lem}
use nacos_k8s.Operator.Stages.{
  pre_check, pre_check_phase, make_heal, ensure_type, make_ensure, check_and_make_heal,
  update_status,
}
use nacos_k8s.Controller.{recover, stages, reconcile_work}

module _ {K : Type 0} where
  invert-pre_check : (p : Phase) (w w' : World K) → pre_check_phase p w ≡ (done tt, w') → w ≡ w'
  unfolding pre_check_phase make_heal
  invert-pre_check phase_failed w w' h = ap (λ r. r.1) h
  invert-pre_check phase_none w w' h = ground (arith, h)
  invert-pre_check phase_scale w w' h = ap (λ r. r.1) h
  invert-pre_check phase_running w w' h = ap (λ r. r.1) h
  invert-pre_check phase_creating w w' h = ap (λ r. r.1) h
  invert-pre_check (other_phase s) w w' h = ap (λ r. r.1) h

module _ (o : RangeOrder) {K : Type 0} (e : Environment K) where
  pub invert-make_ensure :
      (w w' : World K) → make_ensure o e w ≡ (done tt, w') → w'.nacos ≡ validation_field w.nacos
  unfolding make_ensure
  invert-make_ensure w w' h =
      (invert-reading (ensure_type o e) tt (record w { nacos = validation_field w.nacos }) w' h).1

  invert-reconcile_work :
      (r : Outcome (Unit {0})) (w w' : World K)
      → recover e r w ≡ (true, w')
      → (r ≡ done tt) × (w ≡ w')
  unfolding recover
  invert-reconcile_work (done a) w w' h = (refl, ap (λ q. q.1) h)
  invert-reconcile_work (panic f) w w' h = ground (arith, h)

  -- the stages of a reconciliation that settles; the first one changes nothing
  pub settled_stages :
      (w w' : World K)
      → reconcile_work o e w ≡ (true, w')
      → (v : World K) × (u : World K) × (make_ensure o e w ≡ (done tt, v))
        × (check_and_make_heal o e v ≡ (done tt, u))
        × (update_status o e u ≡ (done tt, w'))
  unfolding reconcile_work stages pre_check
  settled_stages w w' h =
      let ran = invert-reconcile_work (stages o e w).0 (stages o e w).1 w' h in
      let all : stages o e w ≡ (done tt, w') = λ j. (ran.0 j, ran.1 j) in
      let pre =
        invert->>= pre_check
          (λ a. make_ensure o e >>= λ b. check_and_make_heal o e >>= λ c. update_status o e) w w' tt
          all in
      let ensure =
        invert->>= (make_ensure o e) (λ b. check_and_make_heal o e >>= λ c. update_status o e) pre.1
          w' tt pre.3 in
      let check =
        invert->>= (check_and_make_heal o e) (λ c. update_status o e) ensure.1 w' tt ensure.3 in
      let first = invert-pre_check w.nacos.status.phase w pre.1 pre.2 in
      (ensure.1, check.1, ap (make_ensure o e) first ∙ ensure.2, check.2, check.3)

  -- what has been found for a specification: the pods are ready, at least half of the replicas,
  -- and healthy under one leader
  abbrev pub Up : NacosSpec → List Pod → Type 0
  Up spec pods =
      (n : ℤ) × (leader : String) × (spec.replicas ≡ some n)
      × ((m : ℕ) → n ≡ pos m → m ≤ 2 * length pods)
      × All IsReady pods
      × All (Healthy e spec.replicas leader) pods

  -- the pods are those that the API server lists for the stateful set and that are ready, from this
  -- state on
  abbrev pub AreListed : World K → List Pod → Type 0
  AreListed w pods =
      (pods ≡ [])
      ⊎ Listed e w.nacos.meta.namespace w.nacos.meta.name
          (e.stateful_sets.get w.nacos.meta.namespace w.nacos.meta.name w.cluster).1 pods

  invert-check :
      (w w' : World K)
      → check_and_make_heal o e w ≡ (done tt, w')
      → (pods : List Pod) × Up w.nacos.spec pods
        × (reported w'.nacos.status.conditions ≡ named pods)
        × (w'.nacos.spec ≡ w.nacos.spec)
        × AreListed w pods
  unfolding check_and_make_heal
  invert-check w w' h =
      let i = invert->>= (reading (check_kind o e)) (λ pods. check_nacos e pods) w w' tt h in
      let read = invert-reading (check_kind o e) i.0 w i.1 i.2 in
      let ready = check_kind-Ready o e w.nacos i.0 _ _ read.0 in
      let healthy = check_nacos-Healthy e i.0 i.1 w' i.3 in
      (
        i.0,
        (
          ready.0,
          healthy.0,
          ready.2,
          ready.6,
          ready.5,
          subst (λ n. All (Healthy e n.spec.replicas healthy.0) i.0) read.1 healthy.1,
        ),
        healthy.2,
        healthy.3 ∙ ap (λ n. n.spec) read.1,
        check_kind-Listed o e w.nacos i.0 w.cluster _ read.0,
      )

  -- When a reconciliation settles, the resource that it leaves has the validated specification and
  -- the phase running, and the cluster has accepted it. Its conditions list pods that are healthy
  -- under one leader and at least half as many as the replicas. If there are any, these pods are
  -- exactly the ready ones among those that the API server lists, in the order of the list, after the
  -- objects have been ensured and the stateful set has been asked for twice; the request asks for
  -- the labels that the stateful set selects, one term for each, given that none of them is there
  -- twice.
  pub reconcile_work-Up :
      (w w' : World K)
      → reconcile_work o e w ≡ (true, w')
      → (pods : List Pod) × Up w'.nacos.spec pods
        × (reported w'.nacos.status.conditions ≡ named pods)
        × (w'.nacos.spec ≡ (validation_field w.nacos).spec)
        × (w'.nacos.status.phase ≡ phase_running)
        × Saved e w'
        × AreListed (make_ensure o e w).1 pods
  unfolding update_status
  reconcile_work-Up w w' h =
      let run = settled_stages w w' h in
      let valid = invert-make_ensure w run.0 run.2 in
      let up = invert-check run.0 run.1 run.3 in
      let saved = update_status_running_lem e run.1 w' run.4 in
      (
        up.0,
        subst (λ spec. Up spec up.0) (sym (saved.1 ∙ up.3)) up.1,
        ap reported saved.2 ∙ up.2,
        saved.1 ∙ up.3 ∙ ap (λ n. n.spec) valid,
        saved.0,
        saved.3,
        subst (λ v. AreListed v up.0) (sym (ap (λ r. r.1) run.2)) up.4,
      )
