-- ===== src/Kind/Ensure.antt =====
-- Kind.go: the `Ensure` methods, which build an object, merge the user's pod template into it and
-- hand it to the Kubernetes layer.
pub mod Names
pub mod Owned
pub mod Stored
pub mod Works
use nacos_k8s.Base.{String, concat, if◌then◌else◌}
use nacos_k8s.Go.Maps.{RangeOrder}
use nacos_k8s.Errors.{Exec, pure, ensure_normal, ◌>>=◌}
use nacos_k8s.Kube.{StatefulSet, Job}
use nacos_k8s.Api.{Nacos}
use nacos_k8s.Environment.{Environment, Reply, got, refused, call, lift}
use nacos_k8s.Merge.Pods.{pod_spec}
use nacos_k8s.Services.ConfigMaps.{create_if_not_exists_config_map}
use nacos_k8s.Services.Jobs.{create_if_not_exists_job}
use nacos_k8s.Services.NetServices.{create_if_not_exists_service, create_or_update_service}
use nacos_k8s.Services.StatefulSets.{create_or_update_stateful_set}
use nacos_k8s.Kind.StatefulSet.{build_statefulset, has_config}
use nacos_k8s.Kind.Cluster.{build_statefulset_cluster}
use nacos_k8s.Kind.Objects.{
  build_mysql_config_map, build_job, build_service, build_client_service, build_config_map,
  build_headless_service_cluster,
}

-- an error is printed, and the script is empty
unfoldable pub script_of : Reply String → String
script_of (got bytes) = bytes
script_of (refused err) = ""

module _ (o : RangeOrder) {K : Type 0} (e : Environment K) where
  -- `ss.Spec.Template.Spec = merge.PodSpec(ss.Spec.Template.Spec, nacos...PodSpec.Spec)`
  unfoldable pub wrap_stateful_set : Nacos → StatefulSet → StatefulSet
  unfolding pod_spec
  wrap_stateful_set nacos ss = record ss {
    spec = record (ss.spec) {
      template = record (ss.spec.template) {
        spec = pod_spec o ss.spec.template.spec nacos.spec.pod_spec;
      };
    };
  }

  unfoldable pub wrap_job : Nacos → Job → Job
  unfolding pod_spec
  wrap_job nacos job = record job {
    template = record (job.template) { spec = pod_spec o job.template.spec nacos.spec.pod_spec };
  }

  unfoldable pub ensure_statefulset_cluster : Nacos → Exec K (Unit {0})
  unfolding build_statefulset build_statefulset_cluster wrap_stateful_set
      create_or_update_stateful_set ensure_normal
  ensure_statefulset_cluster nacos = do
    ss ← lift (build_statefulset o e nacos)
    ss ← lift (build_statefulset_cluster nacos ss)
    err ← create_or_update_stateful_set e nacos.meta.namespace (wrap_stateful_set nacos ss)
    ensure_normal err

  unfoldable pub ensure_statefulset : Nacos → Exec K (Unit {0})
  unfolding build_statefulset wrap_stateful_set create_or_update_stateful_set ensure_normal
  ensure_statefulset nacos = do
    ss ← lift (build_statefulset o e nacos)
    err ← create_or_update_stateful_set e nacos.meta.namespace (wrap_stateful_set nacos ss)
    ensure_normal err

  unfoldable pub ensure_service : Nacos → Exec K (Unit {0})
  unfolding build_service create_if_not_exists_service ensure_normal
  ensure_service nacos = do
    svc ← lift (build_service o e nacos)
    err ← create_if_not_exists_service e.services nacos.meta.namespace svc
    ensure_normal err

  unfoldable pub ensure_service_cluster : Nacos → Exec K (Unit {0})
  unfolding build_service create_or_update_service ensure_normal
  ensure_service_cluster nacos = do
    svc ← lift (build_service o e nacos)
    err ← create_or_update_service e.services nacos.meta.namespace svc
    ensure_normal err

  unfoldable pub ensure_client_service : Nacos → Exec K (Unit {0})
  unfolding build_client_service create_if_not_exists_service ensure_normal
  ensure_client_service nacos = do
    svc ← lift (build_client_service o e nacos)
    err ← create_if_not_exists_service e.services nacos.meta.namespace svc
    ensure_normal err

  unfoldable pub ensure_headless_service_cluster : Nacos → Exec K (Unit {0})
  unfolding build_service build_headless_service_cluster create_or_update_service ensure_normal
  ensure_headless_service_cluster nacos = do
    svc ← lift (build_service o e nacos)
    let headless = build_headless_service_cluster svc nacos
    err ← create_or_update_service e.services nacos.meta.namespace headless
    ensure_normal err

  unfoldable pub ensure_configmap : Nacos → Exec K (Unit {0})
  unfolding build_config_map create_if_not_exists_config_map ensure_normal
  ensure_configmap nacos =
      if has_config nacos
      then (do
        cm ← lift (build_config_map o e nacos)
        err ← create_if_not_exists_config_map e.config_maps nacos.meta.namespace cm
        ensure_normal err)
      else pure tt

  unfoldable pub read_sql : String → Exec K String
  unfolding script_of
  read_sql sql_file_name = do
    read ← call (e.read_file (concat e.abspath (concat "/config/sql/" sql_file_name)))
    pure (script_of read)

  unfoldable pub ensure_mysql_config_map : Nacos → Exec K (Unit {0})
  unfolding read_sql build_mysql_config_map create_if_not_exists_config_map ensure_normal
  ensure_mysql_config_map nacos = do
    sql ← read_sql "nacos-mysql.sql"
    cm ← lift (build_mysql_config_map o e nacos sql)
    err ← create_if_not_exists_config_map e.config_maps nacos.meta.namespace cm
    ensure_normal err

  unfoldable pub ensure_job : Nacos → Exec K (Unit {0})
  unfolding build_job wrap_job create_if_not_exists_job ensure_normal
  ensure_job nacos = do
    job ← lift (build_job o e nacos)
    err ← create_if_not_exists_job e.jobs nacos.meta.namespace (wrap_job nacos job)
    ensure_normal err
