-- ===== src/Kind/Ensure/Owned.antt =====
-- What the `Ensure` methods may touch: the resource's own objects, whatever the API server answers,
-- and also when they stop with a panic.
use nacos_k8s.Base.{concat, String, ◌≡◌, sym, ◌∙◌, Option}
use mathlib.Core.Path.{subst}
use nacos_k8s.Go.Maps.{RangeOrder}
use nacos_k8s.Errors.{Error, Exec, Outcome, done, ensure_normal, ◌>>=◌}
use nacos_k8s.Kube.{ObjectMeta}
use nacos_k8s.Api.{Nacos}
use nacos_k8s.Environment.{Environment, call, lift}
use nacos_k8s.ApiServer.{Key, config_map, stateful_set, service, job, IsServer}
use nacos_k8s.ApiServer.Frame.{
  Frames, Frames->>=, Frames-lift->>=, pure-Frames, ensure_normal-Frames, if-Frames, still-Frames,
}
use nacos_k8s.ApiServer.Writes.{
  create_if_not_exists_config_map-Frames, create_if_not_exists_job-Frames,
  create_if_not_exists_service-Frames, create_or_update_service-Frames,
  create_or_update_stateful_set-Frames,
}
use nacos_k8s.Services.ConfigMaps.{create_if_not_exists_config_map}
use nacos_k8s.Services.Jobs.{create_if_not_exists_job}
use nacos_k8s.Services.NetServices.{create_if_not_exists_service}
use nacos_k8s.Services.StatefulSets.{create_or_update_stateful_set}
use nacos_k8s.Kind.Labels.{generate_headless_svc_name, generate_client_svc_name}
use nacos_k8s.Kind.StatefulSet.{build_statefulset, has_config}
use nacos_k8s.Kind.Cluster.{build_statefulset_cluster}
use nacos_k8s.Kind.Objects.{
  sql_name, build_mysql_config_map, build_job, build_service, build_client_service,
  build_config_map, build_headless_service_cluster,
}
use nacos_k8s.Kind.Ensure.{
  script_of, read_sql, wrap_stateful_set, wrap_job, ensure_statefulset, ensure_statefulset_cluster,
  ensure_service, ensure_client_service, ensure_headless_service_cluster, ensure_configmap,
  ensure_mysql_config_map, ensure_job,
}
use nacos_k8s.Kind.Ensure.Names.{
  name-build_statefulset, name-build_statefulset_cluster, name-build_service,
  name-build_client_service, name-build_config_map, name-build_mysql_config_map, name-build_job,
}

-- the keys of the objects that belong to the resource
pub data OwnedBy (namespace name : String) : Key → Type 0 where
  own_config_map : OwnedBy namespace name (config_map namespace name)
  own_sql_config_map : OwnedBy namespace name (config_map namespace (concat name "-mysql-sql-init"))
  own_job : OwnedBy namespace name (job namespace (concat name "-mysql-sql-init"))
  own_stateful_set : OwnedBy namespace name (stateful_set namespace name)
  own_service : OwnedBy namespace name (service namespace name)
  own_headless : OwnedBy namespace name (service namespace (concat name "-headless"))
  own_client : OwnedBy namespace name (service namespace (concat name "-client"))

abbrev pub Own : Nacos → Key → Type 0
Own nacos = OwnedBy nacos.meta.namespace nacos.meta.name

module _ (o : RangeOrder) {K : Type 0} (e : Environment K) (s : IsServer e) (nacos : Nacos)
    (Mine : Key → Type 0) where
  abbrev Owns : {A : Type 0} → Exec K A → Type 0
  Owns = Frames s.view Mine

  -- a write whose error is raised
  raising : (m : Exec K (Option Error)) → Owns m → Owns (m >>= ensure_normal)
  raising m h = Frames->>= s.view Mine m ensure_normal h (ensure_normal-Frames s.view Mine)

  -- an object that is built and then written, under a name that the resource owns
  writing :
      {O : Type 0} (key : String → Key) (meta : O → ObjectMeta) (name : String)
      → (built : Outcome O) (write : O → Exec K (Option Error))
      → ((object : O) → built ≡ done object → (meta object).name ≡ name)
      → Mine (key name)
      → ((object : O) → Mine (key (meta object).name) → Owns (write object))
      → Owns (lift built >>= λ object. write object >>= ensure_normal)
  writing key meta name built write named own framed =
      Frames-lift->>= s.view Mine built _ λ object h.
        raising (write object)
          (framed object (subst (λ n. Mine (key n)) (sym (named object h)) own))

  pub ensure_configmap-Frames :
      Mine (config_map nacos.meta.namespace nacos.meta.name) → Owns (ensure_configmap o e nacos)
  unfolding ensure_configmap
  ensure_configmap-Frames mine =
      if-Frames s.view Mine (has_config nacos) _ _
        (writing (config_map nacos.meta.namespace) (λ x. x.meta) nacos.meta.name
          (build_config_map o e nacos)
          (create_if_not_exists_config_map e.config_maps nacos.meta.namespace)
          (name-build_config_map o e s nacos) mine
          (create_if_not_exists_config_map-Frames e s Mine nacos.meta.namespace))
        (pure-Frames s.view Mine tt)

  pub ensure_service-Frames :
      Mine (service nacos.meta.namespace nacos.meta.name) → Owns (ensure_service o e nacos)
  unfolding ensure_service
  ensure_service-Frames mine =
      writing (service nacos.meta.namespace) (λ x. x.meta) nacos.meta.name (build_service o e nacos)
        (create_if_not_exists_service e.services nacos.meta.namespace)
        (name-build_service o e s nacos) mine
        (create_if_not_exists_service-Frames e s Mine nacos.meta.namespace)

  pub ensure_client_service-Frames :
      Mine (service nacos.meta.namespace (concat nacos.meta.name "-client"))
      → Owns (ensure_client_service o e nacos)
  unfolding ensure_client_service generate_client_svc_name
  ensure_client_service-Frames mine =
      writing (service nacos.meta.namespace) (λ x. x.meta) (generate_client_svc_name nacos)
        (build_client_service o e nacos)
        (create_if_not_exists_service e.services nacos.meta.namespace)
        (name-build_client_service o e s nacos) mine
        (create_if_not_exists_service-Frames e s Mine nacos.meta.namespace)

  pub ensure_headless-Frames :
      Mine (service nacos.meta.namespace (concat nacos.meta.name "-headless"))
      → Owns (ensure_headless_service_cluster o e nacos)
  unfolding ensure_headless_service_cluster build_headless_service_cluster
      generate_headless_svc_name
  ensure_headless-Frames mine = Frames-lift->>= s.view Mine (build_service o e nacos) _ λ svc h.
      raising _ (
        create_or_update_service-Frames e s Mine nacos.meta.namespace
          (build_headless_service_cluster svc nacos) mine)

  pub ensure_statefulset-Frames :
      Mine (stateful_set nacos.meta.namespace nacos.meta.name) → Owns (ensure_statefulset o e nacos)
  unfolding ensure_statefulset wrap_stateful_set
  ensure_statefulset-Frames mine =
      writing (stateful_set nacos.meta.namespace) (λ x. x.meta) nacos.meta.name
        (build_statefulset o e nacos)
        (λ ss.
          create_or_update_stateful_set e nacos.meta.namespace (wrap_stateful_set o e nacos ss))
        (name-build_statefulset o e s nacos) mine
        λ ss own.
          create_or_update_stateful_set-Frames e s Mine nacos.meta.namespace
            (wrap_stateful_set o e nacos ss) own

  pub ensure_statefulset_cluster-Frames :
      Mine (stateful_set nacos.meta.namespace nacos.meta.name)
      → Owns (ensure_statefulset_cluster o e nacos)
  unfolding ensure_statefulset_cluster wrap_stateful_set
  ensure_statefulset_cluster-Frames mine =
      Frames-lift->>= s.view Mine (build_statefulset o e nacos) _ λ ss0 h.
        writing (stateful_set nacos.meta.namespace) (λ x. x.meta) nacos.meta.name
          (build_statefulset_cluster nacos ss0)
          (λ ss.
            create_or_update_stateful_set e nacos.meta.namespace (wrap_stateful_set o e nacos ss))
          (λ ss p.
            name-build_statefulset_cluster nacos ss0 ss p
            ∙ name-build_statefulset o e s nacos ss0 h)
          mine
          λ ss own.
            create_or_update_stateful_set-Frames e s Mine nacos.meta.namespace
              (wrap_stateful_set o e nacos ss) own

  pub ensure_job-Frames :
      Mine (job nacos.meta.namespace (sql_name nacos)) → Owns (ensure_job o e nacos)
  unfolding ensure_job wrap_job
  ensure_job-Frames mine =
      writing (job nacos.meta.namespace) (λ x. x.meta) (sql_name nacos) (build_job o e nacos)
        (λ j. create_if_not_exists_job e.jobs nacos.meta.namespace (wrap_job o e nacos j))
        (name-build_job o e s nacos) mine
        λ j own.
          create_if_not_exists_job-Frames e s Mine nacos.meta.namespace (wrap_job o e nacos j) own

  pub ensure_mysql_config_map-Frames :
      Mine (config_map nacos.meta.namespace (sql_name nacos))
      → Owns (ensure_mysql_config_map o e nacos)
  unfolding ensure_mysql_config_map read_sql
  ensure_mysql_config_map-Frames mine =
      Frames->>= s.view Mine (read_sql o e "nacos-mysql.sql") _
        (Frames->>= s.view Mine (call (e.read_file _)) _
          (still-Frames s.view Mine _ (s.read_file_same _))
          λ read. pure-Frames s.view Mine (script_of read))
        λ sql.
          writing (config_map nacos.meta.namespace) (λ x. x.meta) (sql_name nacos)
            (build_mysql_config_map o e nacos sql)
            (create_if_not_exists_config_map e.config_maps nacos.meta.namespace)
            (name-build_mysql_config_map o e s nacos sql) mine
            (create_if_not_exists_config_map-Frames e s Mine nacos.meta.namespace)
