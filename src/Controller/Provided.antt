-- ===== src/Controller/Provided.antt =====
-- What a reconciliation that settles has provided in the cluster.
use nacos_k8s.Base.{◌≡◌, refl, sym, ◌∙◌, ap, true, ◌==◌, Bool, false, eq_iff, if◌then◌else◌, arith}
use mathlib.Core.Path.{subst}
use nacos_k8s.Go.Maps.{RangeOrder}
use nacos_k8s.Errors.{Exec, Fault, done, throw}
use nacos_k8s.Api.{Nacos}
use nacos_k8s.Environment.{Environment}
use nacos_k8s.Errors.Laws.{invert->>=}
use nacos_k8s.ApiServer.{Cluster, IsServer, stateful_set, Answers}
use nacos_k8s.ApiServer.Holds.{Holds}
use nacos_k8s.Kind.Defaults.{validation_field, type_stand_alone, type_cluster}
use nacos_k8s.Operator.World.{World, reading}
use nacos_k8s.Operator.Keeps.{invert-reading}
use nacos_k8s.Operator.Check.{check_kind, check_nacos}
use nacos_k8s.Operator.Check.Quorum.{check_kind-Ready}
use nacos_k8s.Operator.Calm.{check_and_make_heal-Calm, update_status_running-Calm}
use nacos_k8s.Operator.Provided.{Provided, stand_alone-Provided, cluster-Provided}
use nacos_k8s.Operator.Stages.{
  ensure_stand_alone, ensure_cluster, ensure_type, make_ensure, check_and_make_heal, update_status,
}
use nacos_k8s.Controller.{reconcile_work}
use nacos_k8s.Controller.Laws.{invert-make_ensure, settled_stages}

module _ {K : Type 0} {P : Type 0} where
  -- a `switch` with two cases that returns is in one of them
  pick :
      (b c : Bool) (m n : Exec K (Unit {0})) (f : Fault) (k k' : K)
      → (b ≡ true → m k ≡ (done tt, k') → P)
      → (c ≡ true → n k ≡ (done tt, k') → P)
      → (if b then m else if c then n else throw f) k ≡ (done tt, k')
      → P
  pick true c m n f k k' one two h = one refl h
  pick false true m n f k k' one two h = two refl h
  pick false false m n f k k' one two h = absurd (ground (arith, h))

module _ (o : RangeOrder) {K : Type 0} (e : Environment K) (s : IsServer e) where
  ensure_type-Provided :
      (nacos : Nacos) (k k' : K)
      → ensure_type o e nacos k ≡ (done tt, k')
      → Provided o nacos (s.view k')
  unfolding ensure_type
  ensure_type-Provided nacos k k' h =
      pick (nacos.spec.type == type_stand_alone) (nacos.spec.type == type_cluster)
        (ensure_stand_alone o e nacos) (ensure_cluster o e nacos) _ k k'
        (λ p. stand_alone-Provided o e s nacos k k' ((eq_iff _ _).0 p))
        (λ p. cluster-Provided o e s nacos k k' ((eq_iff _ _).0 p)) h

  -- the stateful set of a resource, with its number of replicas
  abbrev pub Scaled : Nacos → Cluster → Type 0
  Scaled nacos =
      Holds (stateful_set nacos.meta.namespace nacos.meta.name)
        λ ss. ss.spec.replicas ≡ nacos.spec.replicas

  check-Scaled :
      (v u : World K) → check_and_make_heal o e v ≡ (done tt, u) → Scaled v.nacos (s.view v.cluster)
  unfolding check_and_make_heal
  check-Scaled v u h =
      let i = invert->>= (reading (check_kind o e)) (λ pods. check_nacos e pods) v u tt h in
      let read = invert-reading (check_kind o e) i.0 v i.1 i.2 in
      let ready = check_kind-Ready o e v.nacos i.0 _ _ read.0 in
      let held = s.view v.cluster (stateful_set v.nacos.meta.namespace v.nacos.meta.name) in
      (
        ready.1,
        subst (λ r. Answers r held) ready.3
            (s.stateful_sets.get_answers v.nacos.meta.namespace v.nacos.meta.name v.cluster),
        ready.4 ∙ sym ready.2,
      )

  -- what the check and the writing of the status find in the cluster, they leave there
  still :
      (v u w : World K)
      → check_and_make_heal o e v ≡ (done tt, u)
      → update_status o e u ≡ (done tt, w)
      → s.view v.cluster ≡ s.view w.cluster
  unfolding update_status
  still v u w h p =
      let checked = (check_and_make_heal-Calm o e s (λ q. ⊥)).framed v in
      let written = (update_status_running-Calm o e s (λ q. ⊥)).framed u in
      (λ i q. sym (checked q λ x. x) i)
      ∙ ap (λ r. s.view (r.1).cluster) h
      ∙ (λ i q. sym (written q λ x. x) i)
      ∙ ap (λ r. s.view (r.1).cluster) p

  -- When a reconciliation settles, the cluster holds what the resource, with its defaults, asks for,
  -- provided that the API server keeps its promises: the stateful set of its name, with its number of
  -- replicas; where it has a configuration, the config map of its name with exactly that
  -- configuration; where it is standalone, the service of its name; where it is a cluster, the
  -- headless service, which selects the pods by the resource's labels and does not wait until they
  -- are ready, and the client service; where it sets MySQL up, the config map of the script and the
  -- job that imports it.
  pub reconcile_work-Provided :
      (w w' : World K)
      → reconcile_work o e w ≡ (true, w')
      → Provided o (validation_field w.nacos) (s.view w'.cluster)
        × Scaled (validation_field w.nacos) (s.view w'.cluster)
  unfolding make_ensure
  reconcile_work-Provided w w' h =
      let run = settled_stages o e w w' h in
      let valid = invert-make_ensure o e w run.0 run.2 in
      let same = still run.0 run.1 w' run.3 run.4 in
      let made =
        invert-reading (ensure_type o e) tt (record w { nacos = validation_field w.nacos }) run.0
          run.2 in
      (
        subst (Provided o (validation_field w.nacos)) same
            (ensure_type-Provided (validation_field w.nacos) w.cluster (run.0).cluster made.0),
        subst (Scaled (validation_field w.nacos)) same
            (subst (λ n. Scaled n (s.view (run.0).cluster)) valid (check-Scaled run.0 run.1 run.3)),
      )
