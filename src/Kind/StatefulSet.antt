-- ===== src/Kind/StatefulSet.antt =====
-- Kind.go: `buildStatefulset` and `AddCheckDatabase`.
use nacos_k8s.Base.{
  String, Bool, false, none, some, List, [], ◌∷◌, ◌++◌, ◌==◌, ◌&&◌, not, if◌then◌else◌, ℤ, pos,
}
use nacos_k8s.Go.Maps.{Map, RangeOrder}
use nacos_k8s.Errors.{Outcome, done, panic, plain}
use nacos_k8s.Kube.{
  ObjectMeta, new_meta, EnvVar, env_var, ContainerPort, VolumeMount, Container, new_container,
  Volume, PersistentVolumeClaim, PodSpec, empty_pod_spec, StatefulSet,
}
use nacos_k8s.Api.{Nacos, Database}
use nacos_k8s.Environment.{Environment, got, refused, and_then}
use nacos_k8s.Kind.Labels.{nacos_labels, generate_name}
use nacos_k8s.Kind.Env.{build_env}

abbrev pub nacos_port : ℤ
nacos_port = pos 8848

abbrev pub raft_port : ℤ
raft_port = pos 7848

abbrev pub new_raft_port : ℤ
new_raft_port = pos 9848

-- `EnsureNormal(controllerutil.SetControllerReference(nacos, obj, scheme))`, on the metadata
unfoldable pub controlled : {K : Type 0} → Environment K → Nacos → ObjectMeta → Outcome ObjectMeta
controlled e nacos meta = elim (e.set_controller_reference nacos meta) [
  | got m ↦ done m
  | refused err ↦ panic (plain err)
]

abbrev tcp_port : String → ℤ → ContainerPort
tcp_port name port = record {
  name = name;
  container_port = port;
  host_port = pos 0;
  protocol = "TCP";
  host_ip = "";
}

abbrev mount : String → String → String → VolumeMount
mount name mount_path sub_path = record {
  name = name;
  read_only = false;
  mount_path = mount_path;
  sub_path = sub_path;
  mount_propagation = none;
  sub_path_expr = "";
}

-- `nacos.Spec.Config != ""`
abbrev pub has_config : Nacos → Bool
has_config nacos = not (nacos.spec.config == "")

-- the guard of the objects that set MySQL up
abbrev pub sets_up_mysql : Nacos → Bool
sets_up_mysql nacos =
    nacos.spec.database.type_database == "mysql" && not (nacos.spec.mysql_init_image == "")

nacos_mounts : Nacos → List VolumeMount
nacos_mounts nacos =
    (if nacos.spec.volume.enabled then mount "db" "/home/nacos/data" "" ∷ [] else [])
    ++ (if has_config nacos
        then mount "config" "/home/nacos/init.d/custom.properties" "custom.properties" ∷ []
        else [])

nacos_container : Nacos → List EnvVar → Container
unfolding nacos_mounts
nacos_container nacos env = record (new_container nacos.meta.name nacos.spec.image) {
  lifecycle = some (record {
    post_start = none;
    pre_stop = some (record {
      exec = some ("/bin/sh" ∷ "-c" ∷ "rm -rf /home/nacos/data/protocol/raft" ∷ []);
      http_get = none;
      tcp_socket = none;
    });
  });
  ports =
      tcp_port "client" nacos_port
      ∷ tcp_port "rpc" raft_port
      ∷ tcp_port "new-rpc" new_raft_port
      ∷ [];
  env = env;
  liveness_probe = nacos.spec.liveness_probe;
  readiness_probe = nacos.spec.readiness_probe;
  volume_mounts = nacos_mounts nacos;
  resources = nacos.spec.resources;
}

nacos_volumes : Nacos → List Volume
nacos_volumes nacos =
    if has_config nacos
    then record {
      name = "config";
      volume_source = record {
        empty_dir = none;
        secret = none;
        config_map = some (record {
          name = nacos.meta.name;
          items =
              record { key = "custom.properties"; path = "custom.properties"; mode = none } ∷ [];
          default_mode = none;
          optional = none;
        });
        other = none;
      };
    }
      ∷ []
    else []

nacos_claims : Nacos → Map String → List PersistentVolumeClaim
nacos_claims nacos labels =
    if nacos.spec.volume.enabled
    then record {
      meta = record (new_meta "db" "") { labels = labels };
      spec = record {
        volume_mode = none;
        storage_class_name = nacos.spec.volume.storage_class;
        access_modes = "ReadWriteOnce" ∷ [];
        selector = none;
        resources = record { limits = none; requests = nacos.spec.volume.requests };
        data_source = none;
      };
    }
      ∷ []
    else []

nacos_pod_spec : Nacos → List EnvVar → PodSpec
unfolding nacos_container nacos_volumes
nacos_pod_spec nacos env = record empty_pod_spec {
  volumes = nacos_volumes nacos;
  node_selector = nacos.spec.node_selector;
  tolerations = nacos.spec.tolerations;
  affinity = nacos.spec.affinity;
  containers = nacos_container nacos env ∷ [];
}

-- the five variables of the containers that talk to MySQL
unfoldable pub mysql_env : Database → List EnvVar
mysql_env d =
    env_var "MYSQL_HOST" d.mysql_host
    ∷ env_var "MYSQL_DB" d.mysql_db
    ∷ env_var "MYSQL_PORT" d.mysql_port
    ∷ env_var "MYSQL_USER" d.mysql_user
    ∷ env_var "MYSQL_PASS" d.mysql_password
    ∷ []

unfoldable pub add_check_database : Nacos → StatefulSet → StatefulSet
unfolding mysql_env
add_check_database nacos sts =
    let pod : PodSpec = sts.spec.template.spec in
    record sts {
      spec = record (sts.spec) {
        template = record (sts.spec.template) {
          spec = record pod {
            init_containers =
                pod.init_containers
                ++ record (new_container "mysql-check-database" nacos.spec.mysql_init_image) {
                  env = mysql_env nacos.spec.database;
                  command =
                      "/bin/sh" ∷ "-c"
                      ∷ "while ! mysqlcheck --host=\"${MYSQL_HOST}\" --port=\"${MYSQL_PORT}\" --user=\"${MYSQL_USER}\" --password=\"${MYSQL_PASS}\" --databases \"${MYSQL_DB}\" ; do sleep 1; done"
                      ∷ [];
                }
                  ∷ [];
          };
        };
      };
    }

-- the literal, from the labels, the variables and the metadata with its owner
unfoldable pub stateful_set : Nacos → Map String → List EnvVar → ObjectMeta → StatefulSet
unfolding nacos_pod_spec nacos_claims
stateful_set nacos labels env meta = record {
  meta = meta;
  spec = record {
    replicas = nacos.spec.replicas;
    selector = some (record { match_labels = labels; match_expressions = [] });
    template = record {
      namespace = "";
      labels = labels;
      annotations = [];
      spec = nacos_pod_spec nacos env;
    };
    volume_claim_templates = nacos_claims nacos labels;
    service_name = "";
    pod_management_policy = "Parallel";
    update_strategy = record { type = ""; rolling_update = none };
    revision_history_limit = none;
  };
}

module _ (o : RangeOrder) {K : Type 0} (e : Environment K) where
  unfoldable pub build_statefulset : Nacos → Outcome StatefulSet
  unfolding stateful_set nacos_labels build_env controlled add_check_database
  build_statefulset nacos =
      let labels = nacos_labels o nacos in
      and_then (build_env nacos.spec) λ env.
        and_then
          (controlled e nacos (record (new_meta (generate_name nacos) nacos.meta.namespace) {
            labels = labels;
            annotations = nacos.meta.annotations;
          }))
          λ meta.
            let ss = stateful_set nacos labels env meta in
            done (if sets_up_mysql nacos then add_check_database nacos ss else ss)
