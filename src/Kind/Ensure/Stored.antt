-- ===== src/Kind/Ensure/Stored.antt =====
-- What the `Ensure` methods leave in the cluster where they return.
use nacos_k8s.Base.{◌≡◌, sym, ◌∙◌, ap, true, [], ◌∷◌, Option, none, concat}
use mathlib.Core.Path.{subst}
use nacos_k8s.Go.Maps.{RangeOrder}
use nacos_k8s.Errors.{Error, Exec, Outcome, done, ensure_normal, ◌>>=◌}
use nacos_k8s.Errors.Laws.{invert-and_then, done_injective}
use nacos_k8s.Kube.{ConfigMap, Service}
use nacos_k8s.Api.{Nacos}
use nacos_k8s.Environment.{Environment, lift}
use nacos_k8s.ApiServer.{Cluster, IsServer, config_map, service, job}
use nacos_k8s.ApiServer.Holds.{
  Holds, Exists, Leaves, Leaves-second, Leaves-lift->>=, raising-Leaves,
}
use nacos_k8s.ApiServer.Stored.{
  create_if_not_exists_config_map-Holds, create_if_not_exists_job-Exists,
  create_if_not_exists_service-Exists, updated_service-Holds,
}
use nacos_k8s.Services.ConfigMaps.{create_if_not_exists_config_map}
use nacos_k8s.Services.Jobs.{create_if_not_exists_job}
use nacos_k8s.Services.NetServices.{create_if_not_exists_service, create_or_update_service}
use nacos_k8s.Kind.Labels.{nacos_labels, generate_headless_svc_name, generate_client_svc_name}
use nacos_k8s.Kind.StatefulSet.{controlled, has_config}
use nacos_k8s.Kind.Objects.{
  sql_name, build_mysql_config_map, build_job, build_service, build_client_service,
  build_config_map, build_headless_service_cluster,
}
use nacos_k8s.Kind.Ensure.{
  read_sql, wrap_job, ensure_service, ensure_client_service, ensure_headless_service_cluster,
  ensure_configmap, ensure_mysql_config_map, ensure_job,
}
use nacos_k8s.Kind.Ensure.Names.{
  name-build_service, name-build_client_service, name-build_config_map, name-build_mysql_config_map,
  name-build_job,
}

-- the service selects the pods by the labels of the resource, and waits for none
abbrev pub ServesPods : RangeOrder → Nacos → Service → Type 0
ServesPods o nacos svc =
    (svc.spec.selector ≡ nacos_labels o nacos) × (svc.spec.publish_not_ready_addresses ≡ true)

module _ (o : RangeOrder) {K : Type 0} (e : Environment K) (s : IsServer e) (nacos : Nacos) where
  entries-build_config_map :
      (cm : ConfigMap)
      → build_config_map o e nacos ≡ done cm
      → cm.entries ≡ ("custom.properties", nacos.spec.config) ∷ []
  unfolding build_config_map
  entries-build_config_map cm h =
      let meta = invert-and_then (controlled e nacos _) _ cm h in
      ap (λ x. x.entries) (sym (done_injective _ cm meta.2))

  build_service-ServesPods :
      (svc : Service) → build_service o e nacos ≡ done svc → ServesPods o nacos svc
  unfolding build_service
  build_service-ServesPods svc h =
      let meta = invert-and_then (controlled e nacos _) _ svc h in
      let same = sym (done_injective _ svc meta.2) in
      (ap (λ x. x.spec.selector) same, ap (λ x. x.spec.publish_not_ready_addresses) same)

  -- an object that is built and then written
  writing-Leaves :
      {O : Type 0} (P : Cluster → Type 0) (built : Outcome O) (write : O → Exec K (Option Error))
      → ((object : O)
          → built ≡ done object
          → (k k' : K) → write object k ≡ (done none, k')
          → P (s.view k'))
      → Leaves s.view P (lift built >>= λ object. write object >>= ensure_normal)
  writing-Leaves P built write h =
      Leaves-lift->>= s.view P built _
        λ object p. raising-Leaves s.view P (write object) (h object p)

  pub ensure_configmap-Leaves :
      has_config nacos ≡ true
      → Leaves s.view
          (Holds
            (config_map nacos.meta.namespace nacos.meta.name)
            λ cm. cm.entries ≡ ("custom.properties", nacos.spec.config) ∷ [])
          (ensure_configmap o e nacos)
  unfolding ensure_configmap
  ensure_configmap-Leaves q = rw q (
      writing-Leaves _ (build_config_map o e nacos)
        (create_if_not_exists_config_map e.config_maps nacos.meta.namespace)
        λ cm p k k' w.
          let stored = create_if_not_exists_config_map-Holds e s nacos.meta.namespace cm k k' w in
          (
            stored.0,
            ap (λ n. s.view k' (config_map nacos.meta.namespace n))
                  (sym (name-build_config_map o e s nacos cm p))
                ∙ stored.1,
            stored.2 ∙ entries-build_config_map cm p,
          ))

  pub ensure_service-Leaves :
      Leaves s.view
        (Exists (service nacos.meta.namespace nacos.meta.name))
        (ensure_service o e nacos)
  unfolding ensure_service
  ensure_service-Leaves =
      writing-Leaves _ (build_service o e nacos)
        (create_if_not_exists_service e.services nacos.meta.namespace)
        λ svc p k k' w.
          subst (λ n. Exists (service nacos.meta.namespace n) (s.view k'))
            (name-build_service o e s nacos svc p)
            (create_if_not_exists_service-Exists e s nacos.meta.namespace svc k k' w)

  pub ensure_client_service-Leaves :
      Leaves s.view
        (Exists (service nacos.meta.namespace (concat nacos.meta.name "-client")))
        (ensure_client_service o e nacos)
  unfolding ensure_client_service generate_client_svc_name
  ensure_client_service-Leaves =
      writing-Leaves _ (build_client_service o e nacos)
        (create_if_not_exists_service e.services nacos.meta.namespace)
        λ svc p k k' w.
          subst (λ n. Exists (service nacos.meta.namespace n) (s.view k'))
            (name-build_client_service o e s nacos svc p)
            (create_if_not_exists_service-Exists e s nacos.meta.namespace svc k k' w)

  pub ensure_headless-Leaves :
      Leaves s.view
        (Holds
          (service nacos.meta.namespace (concat nacos.meta.name "-headless"))
          (ServesPods o nacos))
        (ensure_headless_service_cluster o e nacos)
  unfolding ensure_headless_service_cluster build_headless_service_cluster
      generate_headless_svc_name
  ensure_headless-Leaves = Leaves-lift->>= s.view _ (build_service o e nacos) _ λ svc p.
      raising-Leaves s.view _
        (create_or_update_service e.services nacos.meta.namespace
          (build_headless_service_cluster svc nacos))
        λ k k' w.
          let stored =
            updated_service-Holds e s nacos.meta.namespace
              (build_headless_service_cluster svc nacos) k k' w in
          let asked = build_service-ServesPods svc p in
          (stored.0, stored.1, ((stored.2).0 ∙ asked.0, (stored.2).2 ∙ asked.1))

  pub ensure_job-Leaves :
      Leaves s.view (Exists (job nacos.meta.namespace (sql_name nacos))) (ensure_job o e nacos)
  unfolding ensure_job wrap_job
  ensure_job-Leaves =
      writing-Leaves _ (build_job o e nacos)
        (λ j. create_if_not_exists_job e.jobs nacos.meta.namespace (wrap_job o e nacos j))
        λ j p k k' w.
          subst (λ n. Exists (job nacos.meta.namespace n) (s.view k'))
            (name-build_job o e s nacos j p)
            (create_if_not_exists_job-Exists e s nacos.meta.namespace (wrap_job o e nacos j) k k' w)

  pub ensure_mysql_config_map-Leaves :
      Leaves s.view
        (Exists (config_map nacos.meta.namespace (sql_name nacos)))
        (ensure_mysql_config_map o e nacos)
  unfolding ensure_mysql_config_map
  ensure_mysql_config_map-Leaves = Leaves-second s.view _ (read_sql o e "nacos-mysql.sql") _ λ sql.
      writing-Leaves _ (build_mysql_config_map o e nacos sql)
        (create_if_not_exists_config_map e.config_maps nacos.meta.namespace)
        λ cm p k k' w.
          subst (λ n. Exists (config_map nacos.meta.namespace n) (s.view k'))
            (name-build_mysql_config_map o e s nacos sql cm p)
            (let stored =
                create_if_not_exists_config_map-Holds e s nacos.meta.namespace cm k k' w in
              (stored.0, stored.1, tt))
