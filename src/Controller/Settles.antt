-- ===== src/Controller/Settles.antt =====
-- When a reconciliation settles: the resource is known, its objects can be ensured, and the cluster
-- runs and accepts the status.
use nacos_k8s.Base.{◌≤◌, suc, String, ◌≡◌, ◌≢◌, refl, sym, ap, ◌∙◌, true, none, List, All, length}
use mathlib.Core.Path.{subst}
use nacos_k8s.Go.Maps.{RangeOrder}
use nacos_k8s.Errors.{Outcome, done, ensure_normal, code_normal, ◌>>=◌}
use nacos_k8s.Kube.{Pod}
use nacos_k8s.Api.{
  Nacos, Phase, phase_failed, phase_none, phase_creating, phase_scale, phase_running, other_phase,
}
use nacos_k8s.Environment.{Environment}
use nacos_k8s.Kind.Defaults.{
  validation_field, set_default_nacos_type, set_default_mysql, set_default_certification,
}
use nacos_k8s.Operator.World.{World}
use nacos_k8s.Operator.Keeps.{check_and_make_heal-Keeps}
use nacos_k8s.Operator.Status.{
  event_max_size, update_last_event, store_event, push_status, update_status_running,
}
use nacos_k8s.Operator.Status.Laws.{returned, update_last_event_lem}
use nacos_k8s.Operator.Check.Settles.{>>=-returns, Nothing, Shows, still-Shows, Serves}
use nacos_k8s.Operator.Check.Runs.{Runs, check_and_make_heal-passes}
use nacos_k8s.Operator.Calm.{check_and_make_heal-Calm, update_last_event-Quiet}
use nacos_k8s.ApiServer.{Cluster, IsServer}
use nacos_k8s.Operator.Stages.{
  make_heal, pre_check_phase, pre_check, make_ensure, check_and_make_heal, update_status,
}
use nacos_k8s.Controller.{recover, stages, reconcile_work}
use nacos_k8s.Controller.Laws.{invert-make_ensure}

module _ {K : Type 0} where
  known_phase : (p : Phase) (w : World K) → p ≢ phase_none → pre_check_phase p w ≡ (done tt, w)
  unfolding pre_check_phase make_heal
  known_phase phase_failed w h = refl
  known_phase phase_none w h = absurd (h refl)
  known_phase phase_scale w h = refl
  known_phase phase_running w h = refl
  known_phase phase_creating w h = refl
  known_phase (other_phase s) w h = refl

events_kept : (n : Nacos) → (validation_field n).status.event ≡ n.status.event
unfolding validation_field set_default_nacos_type set_default_mysql set_default_certification
events_kept n = refl

module _ (o : RangeOrder) {K : Type 0} (e : Environment K) (s : IsServer e) where
  -- as long as the objects are these, the cluster accepts every status
  abbrev pub IsAccepting : Cluster → Type 0
  IsAccepting seen = (nacos : Nacos) (k : K) → Shows e s seen k → (e.update_status nacos k).0 ≡ none

  running-passes :
      (seen : Cluster) (w : World K)
      → length w.nacos.status.event ≤ suc event_max_size
      → Shows e s seen w.cluster
      → IsAccepting seen
      → (update_status_running e w).0 ≡ done tt
  unfolding update_status_running store_event push_status ensure_normal
  running-passes seen w n at a =
      let step = update_last_event e code_normal "" true w.nacos w.cluster in
      let written =
        returned _ step.0 (update_last_event_lem e code_normal "" true w.nacos w.cluster n) in
      let there : Shows e s seen step.1 =
        still-Shows e s seen (update_last_event e code_normal "" true w.nacos) w.cluster
          (update_last_event-Quiet o e s Nothing code_normal "" true w.nacos) at in
      rw (written.1, a _ _ there) refl

  -- the stages after the first, from a resource whose objects have been ensured
  stages-pass :
      (leader : String) (pods : List Pod) (w v : World K)
      → make_ensure o e w ≡ (done tt, v)
      → length w.nacos.status.event ≤ suc event_max_size
      → Runs e s (s.view v.cluster) (validation_field w.nacos) pods
      → All (Serves e s (s.view v.cluster) leader (validation_field w.nacos).spec.replicas) pods
      → IsAccepting (s.view v.cluster)
      → ((make_ensure o e >>= λ a. check_and_make_heal o e >>= λ b. update_status o e) w).0
        ≡ done tt
  unfolding update_status
  stages-pass leader pods w v h n r t a =
      let seen = s.view v.cluster in
      let valid = sym (invert-make_ensure o e w v h) in
      let checked =
        check_and_make_heal-passes o e s seen leader pods v (λ q. refl)
          (subst (λ m. Runs e s seen m pods) valid r)
          (subst (λ m. All (Serves e s seen leader m.spec.replicas) pods) valid t) in
      let events : (((check_and_make_heal o e v).1).nacos.status.event) ≡ w.nacos.status.event =
        ap (λ c. c.3) ((check_and_make_heal-Keeps o e).kept v)
        ∙ ap (λ m. m.status.event) (sym valid)
        ∙ events_kept w.nacos in
      let last =
        running-passes seen (check_and_make_heal o e v).1
          (subst (λ l. length l ≤ suc event_max_size) (sym events) n)
          (λ q. (check_and_make_heal-Calm o e s Nothing).framed v q (λ never. never)) a in
      let rest =
        >>=-returns (check_and_make_heal o e) (λ b. update_status_running e) v tt tt checked last in
      >>=-returns (make_ensure o e) (λ a. check_and_make_heal o e >>= λ b. update_status_running e)
        w tt tt (ap (λ q. q.0) h)
        (ap (λ q. ((check_and_make_heal o e >>= λ b. update_status_running e) q.1).0) h ∙ rest)

  -- A reconciliation settles when its resource is not new and has at most eleven events, the objects
  -- that the resource asks for have been ensured without a panic, and, as long as the objects of the
  -- cluster stay as they are then, the cluster runs the resource, with the defaults set, by a stateful
  -- set with the same replicas, for whose labels the API server lists pods of which at least half as
  -- many are ready, each of these ready pods names as many servers as there are replicas, all up and
  -- under one leader, and the cluster accepts the status. The API server keeps its promises, and none
  -- of the labels is there twice.
  pub reconcile_work-settles :
      (leader : String) (pods : List Pod) (w v : World K)
      → w.nacos.status.phase ≢ phase_none
      → length w.nacos.status.event ≤ suc event_max_size
      → make_ensure o e w ≡ (done tt, v)
      → Runs e s (s.view v.cluster) (validation_field w.nacos) pods
      → All (Serves e s (s.view v.cluster) leader (validation_field w.nacos).spec.replicas) pods
      → IsAccepting (s.view v.cluster)
      → (reconcile_work o e w).0 ≡ true
  unfolding reconcile_work stages pre_check recover
  reconcile_work-settles leader pods w v p n h r t a =
      settled (stages o e w).0 (stages o e w).1
        (rw (known_phase w.nacos.status.phase w p) (stages-pass leader pods w v h n r t a))
    where
      settled : (q : Outcome (Unit {0})) (u : World K) → q ≡ done tt → (recover e q u).0 ≡ true
      settled q u h = rw h refl
