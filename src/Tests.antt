-- ===== src/Tests.antt =====
-- Concrete inputs: an order of the map loops, and a small cluster with one standalone server.
pub mod Merging
pub mod Ordering
pub mod Defaulting
pub mod Reconciling
pub mod Serving
pub mod Storing
pub mod Building
pub mod Stopping
pub mod Table
pub mod Memory
use nacos_k8s.Base.{
  ℕ, String, ◌≡◌, refl, Bool, true, false, Option, none, some, List, [], ◌∷◌, ◌==◌, ◌+◌, pos,
}
use nacos_k8s.Go.Maps.{Map, get, RangeOrder}
use nacos_k8s.Errors.{Error, not_found}
use nacos_k8s.Kube.{
  new_meta, new_container, empty_pod_spec, ConfigMap, Service, StatefulSet, Job, Pod, Container,
}
use nacos_k8s.Api.{Nacos, Phase, phase_creating}
use nacos_k8s.Environment.{Environment, Api, Reply, got, refused, Server, ServersInfo}

-- the order in which the keys were put
abbrev pub in_order : RangeOrder
in_order = record { range = λ n V m. m; range-IsMap = λ n V m h. h; get-range = λ n V m k h. refl }

-- a client that finds the object and accepts every change; its state counts the changes
abbrev pub finds : {O : Type 0} → O → Api ℕ O
finds object = record {
  get = λ namespace name k. (got object, k);
  create = λ namespace object k. (none, k + 1);
  update = λ namespace object k. (none, k + 1);
  delete = λ namespace name k. (none, k + 1);
  list = λ namespace k. (got (object ∷ []), k);
}

abbrev pub a_container : Container
a_container = new_container "nacos" "nacos/nacos-server:2.0.3"

abbrev pub a_stateful_set : StatefulSet
a_stateful_set = record {
  meta = new_meta "one" "default";
  spec = record {
    replicas = some (pos 1);
    selector = some (record { match_labels = ("app", "one") ∷ []; match_expressions = [] });
    template = record {
      namespace = "default";
      labels = ("app", "one") ∷ [];
      annotations = [];
      spec = record empty_pod_spec { containers = a_container ∷ [] };
    };
    volume_claim_templates = [];
    service_name = "one";
    pod_management_policy = "";
    update_strategy = record { type = ""; rolling_update = none };
    revision_history_limit = none;
  };
}

abbrev pub a_pod : Pod
a_pod = record {
  name = "one-0";
  node_name = "node";
  pod_ip = "10.0.0.1";
  conditions = record { type = "Ready"; status = "True" } ∷ [];
}

abbrev pub a_server : Server
a_server = record {
  ip = "10.0.0.1";
  port = pos 8848;
  state = "UP";
  last_refresh_time = pos 0;
  leader = "one-0.one-headless.default.svc.cluster.local:7848";
  raft_group_member = [];
  term = pos 1;
  raft_port = "7848";
  version = "2.0.3";
  address = "10.0.0.1:8848";
  fail_access_cnt = pos 0;
}

abbrev pub a_nacos : Phase → Nacos
a_nacos phase = record {
  meta = new_meta "one" "default";
  creation_timestamp = 0;
  spec = record {
    image = "nacos/nacos-server:2.0.3";
    image_pull_secrets = none;
    replicas = some (pos 1);
    resources = record { limits = none; requests = none };
    affinity = none;
    tolerations = [];
    node_selector = none;
    liveness_probe = none;
    readiness_probe = none;
    env = [];
    mysql_init_image = "";
    type = "standalone";
    function_mode = "";
    database = record {
      type_database = "embedded";
      mysql_host = "";
      mysql_port = "";
      mysql_db = "";
      mysql_user = "";
      mysql_password = "";
    };
    volume = record { enabled = false; requests = none; storage_class = none };
    config = "";
    certification = record {
      enabled = some false;
      token = "";
      token_expire_seconds = "";
      cache_enabled = none;
    };
    pod_spec = empty_pod_spec;
  };
  status = record { conditions = []; event = []; phase = phase; version = "" };
}

abbrev pub a_service : Service
a_service = record {
  meta = new_meta "one" "default";
  spec = record {
    publish_not_ready_addresses = true;
    ports = [];
    selector = [];
    cluster_ip = "";
    ip_families = [];
    ip_family_policy = none;
  };
}

abbrev pub a_cluster : Environment ℕ
a_cluster = record {
  config_maps = finds (record { meta = new_meta "one" "default"; entries = [] });
  stateful_sets = finds a_stateful_set;
  services = finds a_service;
  jobs =
      finds (record { meta = new_meta "one" "default"; template = a_stateful_set.spec.template });
  list_pods = λ namespace selector k. (got (a_pod ∷ []), k);
  get_nacos = λ namespace name k. (got (a_nacos phase_creating), k);
  update_status = λ nacos k. (none, k + 1);
  now = λ k. (5, k);
  http_get = λ url k. (got "response", k);
  read_all = λ response k. (got "body", k);
  unmarshal = λ body. got (record { servers = a_server ∷ [] });
  set_controller_reference = λ owner meta. got (record meta { owner = some owner.meta.name });
  errorf = λ format. format;
  abspath = "/";
  read_file = λ path k. (got "sql", k);
  marshal_resources = λ r. "";
  marshal_env = λ env. "";
  equal_fold = λ a b. a == b;
}
