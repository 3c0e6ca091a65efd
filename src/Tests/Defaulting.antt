-- ===== src/Tests/Defaulting.antt =====
-- Defaults, labels, variables and addresses of small resources.
use nacos_k8s.Base.{
  concat, ◌≡◌, ◌≢◌, refl, true, false, some, none, pos, List, [], ◌∷◌, ◌++◌, or_else, join,
}
use nacos_k8s.Go.Maps.{get}
use nacos_k8s.Errors.{done, panic}
use nacos_k8s.Kube.{EnvVar, env_var}
use nacos_k8s.Api.{Nacos, phase_none}
use nacos_k8s.Environment.{slice_out_of_range}
use nacos_k8s.Kind.Defaults.{validation_field}
use nacos_k8s.Kind.Defaults.Laws.{
  IsValidated, validation_field-IsValidated, certification_untouched,
}
use nacos_k8s.Kind.Labels.{generate_labels, nacos_name, nacos_labels}
use nacos_k8s.Kind.Labels.Laws.{get-nacos_labels}
use nacos_k8s.Kind.Env.{build_env}
use nacos_k8s.Kind.Env.Laws.{values_of, flag_values, text_values, certification_tri_state}
use nacos_k8s.Kind.Cluster.{
  pod_domain, find_domain, services_from, drop_last, start_command, build_statefulset_cluster,
}
use nacos_k8s.Kind.Defaults.Kept.{settings, Fills, with_settings, validation_field-Fills}
use nacos_k8s.Kind.Cluster.Laws.{
  addresses, hosts, drop_last-services_from, build_cluster_servers, build_cluster_empty,
}
use nacos_k8s.Tests.{in_order, a_nacos, a_container, a_stateful_set}

abbrev new : Nacos
new = a_nacos phase_none

validation_field-IsValidated_example : IsValidated (validation_field new)
validation_field-IsValidated_example = validation_field-IsValidated new

-- a cluster on a MySQL server of the user's own, without a password
abbrev on_mysql : Nacos
on_mysql = record new {
  spec = record (new.spec) {
    type = "cluster";
    database = record {
      type_database = "mysql";
      mysql_host = "db.example";
      mysql_port = "";
      mysql_db = "";
      mysql_user = "operator";
      mysql_password = "";
    };
    certification = record {
      enabled = some true;
      token = "own";
      token_expire_seconds = "";
      cache_enabled = none;
    };
  };
}

validation_field-Fills_example :
    Fills (settings on_mysql.spec) (settings (validation_field on_mysql).spec)
    × (validation_field on_mysql ≡ with_settings on_mysql (validation_field on_mysql).spec)
validation_field-Fills_example = validation_field-Fills on_mysql

certification_untouched_example : (validation_field new).spec.certification ≡ new.spec.certification
certification_untouched_example = certification_untouched new off
  where
    off : some false ≢ some true
    off h = cc

get-nacos_labels_example :
    get "app" (nacos_labels in_order new)
    ≡ or_else (get "app" (generate_labels "one" nacos_name)) (get "app" [])
get-nacos_labels_example = get-nacos_labels in_order new "app" tt

built_env : List EnvVar
built_env =
    env_var "PREFER_HOST_MODE" "hostname"
    ∷ env_var "NACOS_AUTH_ENABLE" "false"
    ∷ env_var "EMBEDDED_STORAGE" "embedded"
    ∷ env_var "MODE" "standalone"
    ∷ []

builds : build_env new.spec ≡ done built_env
unfolding build_env built_env
builds = refl

certification_tri_state_example :
    (values_of "NACOS_AUTH_ENABLE" built_env ≡ [] ++ flag_values (some false))
    × (values_of "NACOS_AUTH_TOKEN_EXPIRE_SECONDS" built_env ≡ [] ++ text_values "")
    × (values_of "NACOS_AUTH_TOKEN" built_env ≡ [] ++ text_values "")
    × (values_of "NACOS_AUTH_CACHE_ENABLE" built_env ≡ [] ++ flag_values none)
certification_tri_state_example = certification_tri_state new.spec built_env builds

drop_last-services_from_example :
    drop_last (services_from new "cluster.local" 3 0 "")
    ≡ done (join " " (addresses new "cluster.local" 3 0))
drop_last-services_from_example = drop_last-services_from new "cluster.local" 2

three_addresses :
    join " " (addresses new "cluster.local" 2 0)
    ≡ "one-0.one-headless.default.svc.cluster.local:8848 one-1.one-headless.default.svc.cluster.local:8848"
unfolding addresses join pod_domain
three_addresses = refl

build_cluster_servers_example :
    build_statefulset_cluster new a_stateful_set
    ≡ done (record a_stateful_set {
      spec = record (a_stateful_set.spec) {
        service_name = "one-headless";
        template = record (a_stateful_set.spec.template) {
          spec = record (a_stateful_set.spec.template.spec) {
            containers =
                record a_container {
                  env =
                      env_var "NACOS_SERVERS"
                        (join " " (addresses new (find_domain "cluster.local" []) 1 0))
                      ∷ [];
                  command =
                      start_command
                        (concat (join " " (hosts new (find_domain "cluster.local" []) 1 0)) " ");
                }
                ∷ [];
          };
        };
      };
    })
build_cluster_servers_example = build_cluster_servers new a_stateful_set 0 a_container [] refl refl

abbrev empty : Nacos
empty = record new { spec = record (new.spec) { replicas = some (pos 0) } }

build_cluster_empty_example :
    build_statefulset_cluster empty a_stateful_set ≡ panic slice_out_of_range
build_cluster_empty_example = build_cluster_empty empty a_stateful_set (pos 0) refl refl
