-- ===== src/Kind/Ensure/Works.antt =====
-- The `Ensure` methods return, where the API server refuses nothing without need.
use nacos_k8s.Base.{
  ℕ, suc, ◌≡◌, refl, sym, ◌∙◌, ap, Bool, true, false, Option, none, some, List, ◌∷◌, ℤ, pos, concat,
  ◌==◌, Bool-cases, inl, inr, if◌then◌else◌,
}
use nacos_k8s.Go.Maps.{RangeOrder}
use nacos_k8s.Errors.{Error, Exec, Outcome, done, panic, ensure_normal, ◌>>=◌}
use nacos_k8s.Errors.Laws.{invert-and_then, done_injective}
use nacos_k8s.Kube.{ObjectMeta, StatefulSet, Container}
use nacos_k8s.Api.{Nacos}
use nacos_k8s.Environment.{Environment, lift, and_then, dereference}
use nacos_k8s.ApiServer.{IsServer, stateful_set}
use nacos_k8s.ApiServer.Willing.{
  IsWilling, create_if_not_exists_config_map-works, create_if_not_exists_job-works,
  create_if_not_exists_service-works, create_or_update_service-works, create_stateful_set-works,
}
use nacos_k8s.Services.ConfigMaps.{create_if_not_exists_config_map}
use nacos_k8s.Services.Jobs.{create_if_not_exists_job}
use nacos_k8s.Services.NetServices.{create_if_not_exists_service, create_or_update_service}
use nacos_k8s.Services.StatefulSets.{create_or_update_stateful_set}
use nacos_k8s.Operator.Check.Settles.{>>=-returns}
use nacos_k8s.Kind.Defaults.{type_stand_alone}
use nacos_k8s.Kind.Env.{build_env, mode_env}
use nacos_k8s.Kind.StatefulSet.{
  controlled, stateful_set as built_set, build_statefulset, add_check_database, sets_up_mysql,
  has_config,
}
use nacos_k8s.Kind.Cluster.{build_statefulset_cluster}
use nacos_k8s.Kind.Cluster.Laws.{build_cluster_servers}
use nacos_k8s.Kind.Objects.{
  build_mysql_config_map, build_job, build_service, build_client_service, build_config_map,
  build_headless_service_cluster,
}
use nacos_k8s.Kind.Ensure.{
  script_of, read_sql, wrap_stateful_set, wrap_job, ensure_statefulset, ensure_statefulset_cluster,
  ensure_service, ensure_client_service, ensure_headless_service_cluster, ensure_configmap,
  ensure_mysql_config_map, ensure_job,
}
use nacos_k8s.Kind.Ensure.Names.{name-build_statefulset, name-build_statefulset_cluster}

-- the computation does not panic
abbrev IsDone : {A : Type 0} → Outcome A → Type 0
IsDone {A = A} r = (a : A) × (r ≡ done a)

and_then-IsDone :
    {A B : Type 0} (r : Outcome A) (f : A → Outcome B)
    → IsDone r
    → ((a : A) → IsDone (f a))
    → IsDone (and_then r f)
and_then-IsDone (done a) f h n = n a
and_then-IsDone (panic x) f (a, p) n = absurd (cc p)

if-IsDone :
    {A : Type 0} (b : Bool) (q r : Outcome A) → IsDone q → IsDone r → IsDone (if b then q else r)
if-IsDone true q r h n = h
if-IsDone false q r h n = n

module _ {K : Type 0} where
  raising-works :
      (m : Exec K (Option Error)) (k : K)
      → (m k).0 ≡ done none
      → ((m >>= ensure_normal) k).0 ≡ done tt
  unfolding ensure_normal
  raising-works m k h = >>=-returns m ensure_normal k none tt h refl

  writing-works :
      {O : Type 0} (built : Outcome O) (write : O → Exec K (Option Error)) (k : K)
      → IsDone built
      → ((object : O) → built ≡ done object → (write object k).0 ≡ done none)
      → ((lift built >>= λ object. write object >>= ensure_normal) k).0 ≡ done tt
  writing-works built write k (object, p) h =
      >>=-returns (lift built) _ k object tt p (raising-works (write object) k (h object p))

module _ (o : RangeOrder) {K : Type 0} (e : Environment K) (s : IsServer e) (w : IsWilling e s)
    (nacos : Nacos) where
  controlled-IsDone : (m : ObjectMeta) → IsDone (controlled e nacos m)
  unfolding controlled
  controlled-IsDone m = let x = w.owns nacos m in (x.0, rw (x.1, controlled) refl)

  pub ensure_configmap-works : (k : K) → (ensure_configmap o e nacos k).0 ≡ done tt
  unfolding ensure_configmap build_config_map
  ensure_configmap-works k = elim (Bool-cases (has_config nacos)) [
    | inl p ↦ rw p (
        writing-works (build_config_map o e nacos)
          (create_if_not_exists_config_map e.config_maps nacos.meta.namespace) k
          (and_then-IsDone (controlled e nacos _) _ (controlled-IsDone _) λ m. (_, refl))
          λ cm q. create_if_not_exists_config_map-works e s w nacos.meta.namespace cm k)
    | inr p ↦ rw p refl
  ]

  pub ensure_service-works : (k : K) → (ensure_service o e nacos k).0 ≡ done tt
  unfolding ensure_service build_service
  ensure_service-works k =
      writing-works (build_service o e nacos)
        (create_if_not_exists_service e.services nacos.meta.namespace) k
        (and_then-IsDone (controlled e nacos _) _ (controlled-IsDone _) λ m. (_, refl))
        λ svc q. create_if_not_exists_service-works e s w nacos.meta.namespace svc k

  pub ensure_client_service-works : (k : K) → (ensure_client_service o e nacos k).0 ≡ done tt
  unfolding ensure_client_service build_client_service
  ensure_client_service-works k =
      writing-works (build_client_service o e nacos)
        (create_if_not_exists_service e.services nacos.meta.namespace) k
        (and_then-IsDone (controlled e nacos _) _ (controlled-IsDone _) λ m. (_, refl))
        λ svc q. create_if_not_exists_service-works e s w nacos.meta.namespace svc k

  pub ensure_headless-works : (k : K) → (ensure_headless_service_cluster o e nacos k).0 ≡ done tt
  unfolding ensure_headless_service_cluster build_service
  ensure_headless-works k =
      writing-works (build_service o e nacos)
        (λ svc.
          create_or_update_service e.services nacos.meta.namespace
            (build_headless_service_cluster svc nacos))
        k (and_then-IsDone (controlled e nacos _) _ (controlled-IsDone _) λ m. (_, refl))
        λ svc q.
          create_or_update_service-works e s w nacos.meta.namespace
            (build_headless_service_cluster svc nacos) k

  pub ensure_job-works : (k : K) → (ensure_job o e nacos k).0 ≡ done tt
  unfolding ensure_job build_job
  ensure_job-works k =
      writing-works (build_job o e nacos)
        (λ j. create_if_not_exists_job e.jobs nacos.meta.namespace (wrap_job o e nacos j)) k
        (and_then-IsDone (controlled e nacos _) _ (controlled-IsDone _) λ m. (_, refl))
        λ j q. create_if_not_exists_job-works e s w nacos.meta.namespace (wrap_job o e nacos j) k

  pub ensure_mysql_config_map-works : (k : K) → (ensure_mysql_config_map o e nacos k).0 ≡ done tt
  unfolding ensure_mysql_config_map read_sql build_mysql_config_map
  ensure_mysql_config_map-works k =
      let sql =
        script_of (e.read_file (concat e.abspath (concat "/config/sql/" "nacos-mysql.sql")) k).0 in
      let after = (read_sql o e "nacos-mysql.sql" k).1 in
      >>=-returns (read_sql o e "nacos-mysql.sql")
        (λ sql. lift (build_mysql_config_map o e nacos sql) >>= λ cm.
          create_if_not_exists_config_map e.config_maps nacos.meta.namespace cm >>= ensure_normal)
        k sql tt refl
        (writing-works (build_mysql_config_map o e nacos sql)
          (create_if_not_exists_config_map e.config_maps nacos.meta.namespace) after
          (and_then-IsDone (controlled e nacos _) _ (controlled-IsDone _) λ m. (_, refl))
          λ cm q. create_if_not_exists_config_map-works e s w nacos.meta.namespace cm after)

  module _ (replicas : ℤ) (r : nacos.spec.replicas ≡ some replicas) where
    mode_env-IsDone : IsDone (mode_env nacos.spec)
    unfolding mode_env
    mode_env-IsDone =
        if-IsDone (nacos.spec.type == type_stand_alone) (done _) _ (_, refl)
          (and_then-IsDone (dereference nacos.spec.replicas) _ (replicas, ap dereference r)
            λ n. (_, refl))

    build_env-IsDone : IsDone (build_env nacos.spec)
    unfolding build_env
    build_env-IsDone = and_then-IsDone (mode_env nacos.spec) _ mode_env-IsDone λ mode. (_, refl)

    build_statefulset-IsDone : IsDone (build_statefulset o e nacos)
    unfolding build_statefulset
    build_statefulset-IsDone =
        and_then-IsDone (build_env nacos.spec) _ build_env-IsDone
          λ env. and_then-IsDone (controlled e nacos _) _ (controlled-IsDone _) λ m. (_, refl)

    -- where there is no stateful set of the resource's name yet
    pub ensure_statefulset-works :
        (k : K)
        → s.view k (stateful_set nacos.meta.namespace nacos.meta.name) ≡ none
        → (ensure_statefulset o e nacos k).0 ≡ done tt
    unfolding ensure_statefulset wrap_stateful_set
    ensure_statefulset-works k n =
        writing-works (build_statefulset o e nacos)
          (λ ss.
            create_or_update_stateful_set e nacos.meta.namespace (wrap_stateful_set o e nacos ss))
          k build_statefulset-IsDone
          λ ss q.
            create_stateful_set-works e s w nacos.meta.namespace (wrap_stateful_set o e nacos ss) k
              (ap (λ m. s.view k (stateful_set nacos.meta.namespace m))
                  (name-build_statefulset o e s nacos ss q)
                ∙ n)

  -- the stateful set has a container
  abbrev HasContainer : StatefulSet → Type 0
  HasContainer ss =
      (c : Container) × (r : List Container) × (ss.spec.template.spec.containers ≡ c ∷ r)

  checked-HasContainer :
      (b : Bool) (ss0 ss : StatefulSet)
      → HasContainer ss0
      → done (if b then add_check_database nacos ss0 else ss0) ≡ done ss
      → HasContainer ss
  unfolding add_check_database
  checked-HasContainer true ss0 ss (c, r, h) p =
      (c, r, ap (λ x. x.spec.template.spec.containers) (sym (done_injective _ ss p)) ∙ h)
  checked-HasContainer false ss0 ss (c, r, h) p =
      (c, r, ap (λ x. x.spec.template.spec.containers) (sym (done_injective _ ss p)) ∙ h)

  build_statefulset-HasContainer :
      (ss : StatefulSet) → build_statefulset o e nacos ≡ done ss → HasContainer ss
  unfolding build_statefulset built_set
  build_statefulset-HasContainer ss h =
      let env = invert-and_then (build_env nacos.spec) _ ss h in
      let meta = invert-and_then (controlled e nacos _) _ ss env.2 in
      checked-HasContainer (sets_up_mysql nacos) (built_set nacos _ env.0 meta.0) ss (_, _, refl)
        meta.2

  -- a cluster has at least one replica
  pub ensure_statefulset_cluster-works :
      (n : ℕ) (k : K)
      → nacos.spec.replicas ≡ some (pos (suc n))
      → s.view k (stateful_set nacos.meta.namespace nacos.meta.name) ≡ none
      → (ensure_statefulset_cluster o e nacos k).0 ≡ done tt
  unfolding ensure_statefulset_cluster wrap_stateful_set
  ensure_statefulset_cluster-works n k q none_yet =
      let built = build_statefulset-IsDone (pos (suc n)) q in
      let c = build_statefulset-HasContainer built.0 built.1 in
      >>=-returns (lift (build_statefulset o e nacos)) _ k built.0 tt built.1 (
        writing-works (build_statefulset_cluster nacos built.0)
          (λ ss.
            create_or_update_stateful_set e nacos.meta.namespace (wrap_stateful_set o e nacos ss))
          k (_, build_cluster_servers nacos built.0 n c.0 c.1 q c.2)
          λ ss p.
            create_stateful_set-works e s w nacos.meta.namespace (wrap_stateful_set o e nacos ss) k
              (ap (λ m. s.view k (stateful_set nacos.meta.namespace m))
                  (name-build_statefulset_cluster nacos built.0 ss p
                    ∙ name-build_statefulset o e s nacos built.0 built.1)
                ∙ none_yet))
