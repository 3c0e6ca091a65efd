-- ===== src/Tests/Memory.antt =====
-- An API server that keeps its objects in memory: it shows that the promises can be kept.
pub mod Holding
pub mod Settling
use nacos_k8s.Base.{String, ◌≡◌, refl, sym, ap, none, ◌==◌}
use nacos_k8s.Api.{phase_creating}
use nacos_k8s.Kube.{new_meta, ObjectMeta, ConfigMap, StatefulSet, Service, Job}
use nacos_k8s.Environment.{Environment, got}
use nacos_k8s.ApiServer.Willing.{IsWilling}
use nacos_k8s.ApiServer.{
  Key, Cluster, IsServer, config_map, stateful_set, service, job, LikeConfigMap, LikeStatefulSet,
  LikeService, LikeJob,
}
use nacos_k8s.Tests.{a_cluster, a_nacos}
use nacos_k8s.Tests.Table.{Table, Mem, client, client-IsClient, client-IsWillingClient, shown}

abbrev renamed : String → ObjectMeta → ObjectMeta
renamed name m = record m { name = name }

abbrev as_config_map : String → ConfigMap → ConfigMap
as_config_map name x = record x { meta = renamed name x.meta }

abbrev as_stateful_set : String → StatefulSet → StatefulSet
as_stateful_set name x = record x { meta = renamed name x.meta }

abbrev as_service : String → Service → Service
as_service name x = record x { meta = renamed name x.meta }

abbrev as_job : String → Job → Job
as_job name x = record x { meta = renamed name x.meta }

abbrev pub memory : Environment Mem
memory = record {
  config_maps =
      client (λ k. k.config_maps) (λ t k. record k { config_maps = t }) (λ x. x.meta) as_config_map;
  stateful_sets =
      client (λ k. k.stateful_sets) (λ t k. record k { stateful_sets = t }) (λ x. x.meta)
        as_stateful_set;
  services = client (λ k. k.services) (λ t k. record k { services = t }) (λ x. x.meta) as_service;
  jobs = client (λ k. k.jobs) (λ t k. record k { jobs = t }) (λ x. x.meta) as_job;
  list_pods = λ namespace selector k. ((a_cluster.list_pods namespace selector 0).0, k);
  get_nacos = λ namespace name k.
      (got (record (a_nacos phase_creating) { meta = new_meta name namespace }), k);
  update_status = λ nacos k. (none, k);
  now = λ k. (5, k);
  http_get = λ url k. (got "response", k);
  read_all = λ response k. (got "body", k);
  unmarshal = a_cluster.unmarshal;
  set_controller_reference = a_cluster.set_controller_reference;
  errorf = λ format. format;
  abspath = "/";
  read_file = λ path k. (got "sql", k);
  marshal_resources = λ r. "";
  marshal_env = λ env. "";
  equal_fold = λ a b. a == b;
}

-- the objects that the memory shows
abbrev pub visible : Mem → Cluster
visible k (config_map namespace name) = shown as_config_map name (k.config_maps namespace name)
visible k (stateful_set namespace name) =
    shown as_stateful_set name (k.stateful_sets namespace name)
visible k (service namespace name) = shown as_service name (k.services namespace name)
visible k (job namespace name) = shown as_job name (k.jobs namespace name)

config-others :
    (t : Table ConfigMap) (k : Mem) (q : Key)
    → ((a b : String) → q ≡ config_map a b → t a b ≡ k.config_maps a b)
    → visible (record k { config_maps = t }) q ≡ visible k q
config-others t k (config_map a b) h = ap (shown as_config_map b) (h a b refl)
config-others t k (stateful_set a b) h = refl
config-others t k (service a b) h = refl
config-others t k (job a b) h = refl

set-others :
    (t : Table StatefulSet) (k : Mem) (q : Key)
    → ((a b : String) → q ≡ stateful_set a b → t a b ≡ k.stateful_sets a b)
    → visible (record k { stateful_sets = t }) q ≡ visible k q
set-others t k (config_map a b) h = refl
set-others t k (stateful_set a b) h = ap (shown as_stateful_set b) (h a b refl)
set-others t k (service a b) h = refl
set-others t k (job a b) h = refl

service-others :
    (t : Table Service) (k : Mem) (q : Key)
    → ((a b : String) → q ≡ service a b → t a b ≡ k.services a b)
    → visible (record k { services = t }) q ≡ visible k q
service-others t k (config_map a b) h = refl
service-others t k (stateful_set a b) h = refl
service-others t k (service a b) h = ap (shown as_service b) (h a b refl)
service-others t k (job a b) h = refl

job-others :
    (t : Table Job) (k : Mem) (q : Key)
    → ((a b : String) → q ≡ job a b → t a b ≡ k.jobs a b)
    → visible (record k { jobs = t }) q ≡ visible k q
job-others t k (config_map a b) h = refl
job-others t k (stateful_set a b) h = refl
job-others t k (service a b) h = refl
job-others t k (job a b) h = ap (shown as_job b) (h a b refl)

got_injective : {A : Type 0} (a b : A) → got a ≡ got b → a ≡ b
got_injective a b h = cc

memory-IsServer : IsServer memory
memory-IsServer = record {
  view = visible;
  config_maps =
      client-IsClient (λ k. k.config_maps) (λ t k. record k { config_maps = t }) (λ x. x.meta)
        as_config_map visible config_map LikeConfigMap (λ t k. refl) (λ n x. refl) (λ n x. refl)
        config-others;
  stateful_sets =
      client-IsClient (λ k. k.stateful_sets) (λ t k. record k { stateful_sets = t }) (λ x. x.meta)
        as_stateful_set visible stateful_set LikeStatefulSet (λ t k. refl) (λ n x. refl)
        (λ n x. (refl, refl)) set-others;
  services =
      client-IsClient (λ k. k.services) (λ t k. record k { services = t }) (λ x. x.meta) as_service
        visible service LikeService (λ t k. refl) (λ n x. refl) (λ n x. (refl, refl, refl))
        service-others;
  jobs =
      client-IsClient (λ k. k.jobs) (λ t k. record k { jobs = t }) (λ x. x.meta) as_job visible job
        LikeJob (λ t k. refl) (λ n x. refl) (λ n x. refl) job-others;
  read_file_same = λ path k q. refl;
  owner_only = λ nacos m m' h. ap (λ x. x.name) (sym (got_injective _ m' h));
  list_pods_same = λ namespace selector k q. refl;
  http_get_same = λ url k q. refl;
  read_all_same = λ r k q. refl;
  now_same = λ k q. refl;
  update_status_same = λ nacos k q. refl;
  get_nacos_same = λ namespace name k q. refl;
  nacos_named = λ namespace name k nacos h.
      let same = sym (got_injective _ nacos h) in
      (ap (λ x. x.meta.namespace) same, ap (λ x. x.meta.name) same);
}

memory-IsWilling : IsWilling memory memory-IsServer
unfolding memory-IsServer
memory-IsWilling = record {
  config_maps =
      client-IsWillingClient (λ k. k.config_maps) (λ t k. record k { config_maps = t })
        (λ x. x.meta) as_config_map visible config_map LikeConfigMap (λ t k. refl) (λ n x. refl)
        (λ n x. refl) config-others;
  stateful_sets =
      client-IsWillingClient (λ k. k.stateful_sets) (λ t k. record k { stateful_sets = t })
        (λ x. x.meta) as_stateful_set visible stateful_set LikeStatefulSet (λ t k. refl)
        (λ n x. refl) (λ n x. (refl, refl)) set-others;
  services =
      client-IsWillingClient (λ k. k.services) (λ t k. record k { services = t }) (λ x. x.meta)
        as_service visible service LikeService (λ t k. refl) (λ n x. refl)
        (λ n x. (refl, refl, refl)) service-others;
  jobs =
      client-IsWillingClient (λ k. k.jobs) (λ t k. record k { jobs = t }) (λ x. x.meta) as_job
        visible job LikeJob (λ t k. refl) (λ n x. refl) (λ n x. refl) job-others;
  owns = λ nacos m. (_, refl);
}
