-- ===== src/Operator/Confined.antt =====
-- The steps of a reconciliation that write objects touch only those of the resource.
use nacos_k8s.Base.{◌≡◌, refl, sym, ◌∙◌, [], ◌==◌}
use mathlib.Core.Path.{subst}
use nacos_k8s.Go.Maps.{RangeOrder}
use nacos_k8s.Errors.{Exec, Outcome, done, panic, continue, raised, new, code_normal, ◌>>=◌}
use nacos_k8s.Kube.{ObjectMeta}
use nacos_k8s.Api.{
  Nacos, Phase, phase_failed, phase_none, phase_creating, phase_scale, phase_running, other_phase,
}
use nacos_k8s.Environment.{Environment}
use nacos_k8s.ApiServer.{Key, Cluster, Within, IsServer}
use nacos_k8s.ApiServer.Frame.{Frames, Frames->>=, pure-Frames, throw-Frames, if-Frames}
use nacos_k8s.Kind.Defaults.{
  validation_field, set_default_certification, set_default_mysql, set_default_nacos_type,
  type_stand_alone, type_cluster,
}
use nacos_k8s.Kind.StatefulSet.{sets_up_mysql}
use nacos_k8s.Kind.Ensure.{
  ensure_configmap, ensure_statefulset, ensure_service, ensure_statefulset_cluster,
  ensure_headless_service_cluster, ensure_client_service,
}
use nacos_k8s.Kind.Ensure.Owned
use nacos_k8s.Kind.Ensure.Owned.{
  OwnedBy, Own, own_config_map, own_sql_config_map, own_job, own_stateful_set, own_service,
  own_headless, own_client,
}
use nacos_k8s.Operator.World.{World, reading, modify, with_status}
use nacos_k8s.Operator.Keeps.{Keeps}
use nacos_k8s.Operator.Calm.{Calm, pure-Calm, throw-Calm, calm_then, modify-Calm}
use nacos_k8s.Operator.Stages.{
  make_heal, pre_check_phase, pre_check, ensure_mysql, ensure_stand_alone, ensure_cluster,
  ensure_type, make_ensure,
}

module _ {K A : Type 0} where
  -- the step leaves the metadata of the resource alone, and all objects that are not its own
  pub record Confined (view : K → Cluster) (m : Exec (World K) A) : Type 0 where
    pub meta_kept : (w : World K) → ((m w).1).nacos.meta ≡ w.nacos.meta
    pub within : (w : World K) → Within (Own w.nacos) (view w.cluster) (view ((m w).1).cluster)

abbrev OwnedByMeta : ObjectMeta → Key → Type 0
OwnedByMeta m = OwnedBy m.namespace m.name

module _ {K A B : Type 0} (view : K → Cluster) where
  after_meta :
      (r : Outcome A) (g : A → Exec (World K) B) (v : World K)
      → ((a : A) → Confined view (g a))
      → ((continue r g v).1).nacos.meta ≡ v.nacos.meta
  after_meta (done a) g v h = (h a).meta_kept v
  after_meta (panic f) g v h = refl

  after_within :
      (r : Outcome A) (g : A → Exec (World K) B) (v : World K)
      → ((a : A) → Confined view (g a))
      → Within (Own v.nacos) (view v.cluster) (view ((continue r g v).1).cluster)
  after_within (done a) g v h q n = (h a).within v q n
  after_within (panic f) g v h q n = refl

  pub Confined->>= :
      (m : Exec (World K) A) (g : A → Exec (World K) B)
      → Confined view m
      → ((a : A) → Confined view (g a))
      → Confined view (m >>= g)
  Confined->>= m g h n = record {
    meta_kept = λ w. after_meta (m w).0 g (m w).1 n ∙ h.meta_kept w;
    within = λ w q p.
        after_within (m w).0 g (m w).1 n q
          (subst (λ x. OwnedByMeta x q → ⊥) (sym (h.meta_kept w)) p)
        ∙ h.within w q p;
  }

module _ (o : RangeOrder) {K : Type 0} (e : Environment K) (s : IsServer e) where
  -- a step that changes no object, and keeps the metadata
  pub calm-Confined :
      {A : Type 0} (m : Exec (World K) A)
      → Keeps (λ n. n.meta) m
      → ((Own : Key → Type 0) → Calm o e s Own m)
      → Confined s.view m
  calm-Confined m h c = record {
    meta_kept = λ w. h.kept w;
    within = λ w. (c (Own w.nacos)).framed w;
  }

  pre_check_phase-Calm : (Own : Key → Type 0) (p : Phase) → Calm o e s Own (pre_check_phase p)
  unfolding pre_check_phase make_heal
  pre_check_phase-Calm Own phase_failed = pure-Calm o e s Own tt
  pre_check_phase-Calm Own phase_none =
      calm_then o e s Own (modify (with_status λ s. record s { phase = phase_creating })) _
        (modify-Calm o e s Own _) λ a. throw-Calm o e s Own (raised (new code_normal "" []))
  pre_check_phase-Calm Own phase_scale = pure-Calm o e s Own tt
  pre_check_phase-Calm Own phase_running = pure-Calm o e s Own tt
  pre_check_phase-Calm Own phase_creating = pure-Calm o e s Own tt
  pre_check_phase-Calm Own (other_phase t) = pure-Calm o e s Own tt

  pre_check_phase-meta :
      (p : Phase) (w : World K) → ((pre_check_phase p w).1).nacos.meta ≡ w.nacos.meta
  unfolding pre_check_phase make_heal
  pre_check_phase-meta phase_failed w = refl
  pre_check_phase-meta phase_none w = refl
  pre_check_phase-meta phase_scale w = refl
  pre_check_phase-meta phase_running w = refl
  pre_check_phase-meta phase_creating w = refl
  pre_check_phase-meta (other_phase t) w = refl

  pub pre_check-Confined : Confined s.view (pre_check {K = K})
  unfolding pre_check
  pre_check-Confined = record {
    meta_kept = λ w. pre_check_phase-meta w.nacos.status.phase w;
    within = λ w. (pre_check_phase-Calm (Own w.nacos) w.nacos.status.phase).framed w;
  }

  module _ (nacos : Nacos) where
    abbrev Owns : {A : Type 0} → Exec K A → Type 0
    Owns = Frames s.view (Own nacos)

    then_Owns :
        {A : Type 0} (m : Exec K (Unit {0})) (n : Exec K A) → Owns m → Owns n → Owns (m >>= λ a. n)
    then_Owns m n h p = Frames->>= s.view (Own nacos) m (λ a. n) h (λ a. p)

    ensure_mysql-Owns : Owns (ensure_mysql o e nacos)
    unfolding ensure_mysql
    ensure_mysql-Owns =
        if-Frames s.view (Own nacos) (sets_up_mysql nacos) _ _
          (then_Owns _ _
            (Owned.ensure_mysql_config_map-Frames o e s nacos (Own nacos) own_sql_config_map)
            (Owned.ensure_job-Frames o e s nacos (Own nacos) own_job))
          (pure-Frames s.view (Own nacos) tt)

    ensure_stand_alone-Owns : Owns (ensure_stand_alone o e nacos)
    unfolding ensure_stand_alone
    ensure_stand_alone-Owns =
        then_Owns (ensure_configmap o e nacos) _
          (Owned.ensure_configmap-Frames o e s nacos (Own nacos) own_config_map)
          (then_Owns (ensure_statefulset o e nacos) _
            (Owned.ensure_statefulset-Frames o e s nacos (Own nacos) own_stateful_set)
            (then_Owns (ensure_service o e nacos) _
              (Owned.ensure_service-Frames o e s nacos (Own nacos) own_service) ensure_mysql-Owns))

    ensure_cluster-Owns : Owns (ensure_cluster o e nacos)
    unfolding ensure_cluster
    ensure_cluster-Owns =
        then_Owns (ensure_configmap o e nacos) _
          (Owned.ensure_configmap-Frames o e s nacos (Own nacos) own_config_map)
          (then_Owns (ensure_statefulset_cluster o e nacos) _
            (Owned.ensure_statefulset_cluster-Frames o e s nacos (Own nacos) own_stateful_set)
            (then_Owns (ensure_headless_service_cluster o e nacos) _
              (Owned.ensure_headless-Frames o e s nacos (Own nacos) own_headless)
              (then_Owns (ensure_client_service o e nacos) _
                (Owned.ensure_client_service-Frames o e s nacos (Own nacos) own_client)
                ensure_mysql-Owns)))

    ensure_type-Owns : Owns (ensure_type o e nacos)
    unfolding ensure_type
    ensure_type-Owns =
        if-Frames s.view (Own nacos) (nacos.spec.type == type_stand_alone) _ _
          ensure_stand_alone-Owns
          (if-Frames s.view (Own nacos) (nacos.spec.type == type_cluster) _ _ ensure_cluster-Owns
            (throw-Frames s.view (Own nacos) _))

  validation_field-meta : (nacos : Nacos) → (validation_field nacos).meta ≡ nacos.meta
  unfolding validation_field set_default_certification set_default_mysql set_default_nacos_type
  validation_field-meta nacos = refl

  pub make_ensure-Confined : Confined s.view (make_ensure o e)
  unfolding make_ensure
  make_ensure-Confined =
      Confined->>= s.view (modify validation_field) (λ a. reading (ensure_type o e))
        (record { meta_kept = λ w. validation_field-meta w.nacos; within = λ w q p. refl })
        λ a. record {
          meta_kept = λ w. refl;
          within = λ w. (ensure_type-Owns w.nacos).framed w.cluster;
        }
