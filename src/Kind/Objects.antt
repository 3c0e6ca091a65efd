-- ===== src/Kind/Objects.antt =====
-- Kind.go: the services, the config maps and the job that the operator builds.
pub mod Selectors
pub mod DefaultConfig
use nacos_k8s.Base.{String, true, none, some, List, [], ◌∷◌, ◌++◌, ℤ, pos, concat}
use nacos_k8s.Go.Maps.{RangeOrder}
use nacos_k8s.Errors.{Outcome, done}
use nacos_k8s.Kube.{
  new_meta, config_map_key_ref, Container, new_container, empty_pod_spec, Service, ServicePort,
  ConfigMap, Job,
}
use nacos_k8s.Api.{Nacos}
use nacos_k8s.Environment.{Environment, and_then}
use nacos_k8s.Kind.Labels.{
  nacos_labels, nacos_annotations, generate_name, generate_headless_svc_name,
  generate_client_svc_name,
}
use nacos_k8s.Kind.StatefulSet.{controlled, mysql_env, nacos_port, raft_port, new_raft_port}

abbrev tcp : String → ℤ → ServicePort
tcp name port = record { name = name; port = port; protocol = "TCP" }

abbrev pub sql_name : Nacos → String
sql_name nacos = concat nacos.meta.name "-mysql-sql-init"

abbrev sh : String → List String
sh script = "/bin/sh" ∷ "-c" ∷ script ∷ []

-- the containers of the job: two that wait for MySQL and create the database, one that imports
init_containers : Nacos → List Container
init_containers nacos =
    record (new_container "mysql-ping-database" nacos.spec.mysql_init_image) {
      env = mysql_env nacos.spec.database;
      command =
          sh
            "while ! mysqladmin ping --host=\"${MYSQL_HOST}\" --port=\"${MYSQL_PORT}\" --user=\"${MYSQL_USER}\" --password=\"${MYSQL_PASS}\" ; do echo \"check mysql\"; sleep 1; done";
    }
    ∷ record (new_container "mysql-create-database" nacos.spec.mysql_init_image) {
      env = mysql_env nacos.spec.database;
      command =
          sh
            "until mysql -u\"${MYSQL_USER}\" -p\"${MYSQL_PASS}\" -h\"${MYSQL_HOST}\" -P\"${MYSQL_PORT}\" -e\"create database if not exists \"${MYSQL_DB}\"\"; do echo waiting for database creation...; sleep 2; done;";
    }
    ∷ []

import_container : Nacos → Container
import_container nacos = record (new_container "mysql-sql-init" nacos.spec.mysql_init_image) {
  env =
      mysql_env nacos.spec.database
      ++ record {
        name = "SQL_SCRIPT";
        value = "";
        value_from = some (config_map_key_ref (sql_name nacos) "SQL_SCRIPT");
      }
        ∷ [];
  command =
      sh
        "mysql -u\"${MYSQL_USER}\" -p\"${MYSQL_PASS}\" -h\"${MYSQL_HOST}\" -P\"${MYSQL_PORT}\" -D\"${MYSQL_DB}\" -e\"${SQL_SCRIPT}\";";
}

module _ (o : RangeOrder) {K : Type 0} (e : Environment K) where
  -- `sql` is what `readSql` returned
  unfoldable pub build_mysql_config_map : Nacos → String → Outcome ConfigMap
  unfolding nacos_labels controlled
  build_mysql_config_map nacos sql =
      and_then
        (controlled e nacos (record (new_meta (sql_name nacos) nacos.meta.namespace) {
          labels = nacos_labels o nacos;
        }))
        λ meta. done (record { meta = meta; entries = ("SQL_SCRIPT", sql) ∷ [] })

  unfoldable pub build_job : Nacos → Outcome Job
  unfolding nacos_labels controlled init_containers import_container mysql_env
  build_job nacos =
      and_then
        (controlled e nacos (record (new_meta (sql_name nacos) nacos.meta.namespace) {
          labels = nacos_labels o nacos;
        }))
        λ meta. done (record {
          meta = meta;
          template = record {
            namespace = nacos.meta.namespace;
            labels = [];
            annotations = [];
            spec = record empty_pod_spec {
              init_containers = init_containers nacos;
              containers = import_container nacos ∷ [];
              restart_policy = "Never";
            };
          };
        })

  unfoldable pub build_service : Nacos → Outcome Service
  unfolding nacos_labels nacos_annotations controlled
  build_service nacos =
      let labels = nacos_labels o nacos in
      and_then
        (controlled e nacos (record (new_meta nacos.meta.name nacos.meta.namespace) {
          labels = labels;
          annotations = nacos_annotations o nacos;
        }))
        λ meta. done (record {
          meta = meta;
          spec = record {
            publish_not_ready_addresses = true;
            ports =
                tcp "client" nacos_port ∷ tcp "rpc" raft_port ∷ tcp "new-rpc" new_raft_port ∷ [];
            selector = labels;
            cluster_ip = "";
            ip_families = [];
            ip_family_policy = none;
          };
        })

  unfoldable pub build_client_service : Nacos → Outcome Service
  unfolding nacos_labels nacos_annotations controlled generate_client_svc_name
  build_client_service nacos =
      let labels = nacos_labels o nacos in
      and_then
        (controlled e nacos
          (record (new_meta (generate_client_svc_name nacos) nacos.meta.namespace) {
            labels = labels;
            annotations = nacos_annotations o nacos;
          }))
        λ meta. done (record {
          meta = meta;
          spec = record {
            publish_not_ready_addresses = true;
            ports = tcp "client" nacos_port ∷ tcp "rpc" (pos 9848) ∷ [];
            selector = labels;
            cluster_ip = "";
            ip_families = "IPv4" ∷ "IPv6" ∷ [];
            ip_family_policy = some "PreferDualStack";
          };
        })

  unfoldable pub build_config_map : Nacos → Outcome ConfigMap
  unfolding nacos_labels controlled generate_name
  build_config_map nacos =
      and_then
        (controlled e nacos (record (new_meta (generate_name nacos) nacos.meta.namespace) {
          labels = nacos_labels o nacos;
          annotations = nacos.meta.annotations;
        }))
        λ meta.
          done (record { meta = meta; entries = ("custom.properties", nacos.spec.config) ∷ [] })

unfoldable pub build_headless_service_cluster : Service → Nacos → Service
unfolding generate_headless_svc_name
build_headless_service_cluster svc nacos = record svc {
  meta = record (svc.meta) { name = generate_headless_svc_name nacos };
  spec = record (svc.spec) {
    cluster_ip = "None";
    ip_families = "IPv4" ∷ [];
    ip_family_policy = some "SingleStack";
  };
}
