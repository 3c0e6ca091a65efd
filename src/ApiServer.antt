-- ===== src/ApiServer.antt =====
-- An abstract specification of the Kubernetes API server: the objects that it holds, and what its
-- typed clients promise of them. The operator's code takes the clients as parameters; the promises
-- are hypotheses of the theorems about what a reconciliation leaves in the cluster.
pub mod Frame
pub mod Writes
pub mod Holds
pub mod Stored
pub mod Willing
use nacos_k8s.Base.{String, ◌≡◌, Option, none, some}
use nacos_k8s.Errors.{Error, not_found, failure}
use nacos_k8s.Kube.{ObjectMeta, ConfigMap, StatefulSet, Service, Job}
use nacos_k8s.Api.{Nacos}
use nacos_k8s.Environment.{Environment, Api, Reply, got, refused}

-- an object's kind, namespace and name
pub data Key : Type 0 where
  config_map stateful_set service job : String → String → Key

abbrev pub Held : Key → Type 0
Held (config_map namespace name) = ConfigMap
Held (stateful_set namespace name) = StatefulSet
Held (service namespace name) = Service
Held (job namespace name) = Job

-- the objects that the server holds
abbrev pub Cluster : Type 0
Cluster = (key : Key) → Option (Held key)

-- the two clusters hold the same, but for the objects with a key in `Own`
abbrev pub Within : (Key → Type 0) → Cluster → Cluster → Type 0
Within Own c c' = (key : Key) → (Own key → ⊥) → c' key ≡ c key

abbrev pub Same : Cluster → Cluster → Type 0
Same c c' = (key : Key) → c' key ≡ c key

-- the answer to a request for one object fits what is held
abbrev pub Answers {ℓ} : {O : Type ℓ} → Reply O → Option O → Type ℓ
Answers (got object) held = held ≡ some object
Answers (refused (not_found s)) held = held ≡ none
Answers (refused (failure s)) held = Unit

-- What one client promises. A request for an object changes nothing and tells what is held. A write
-- changes only the object with that key, also where it is refused or its answer is lost. After an
-- accepted one the server holds an object that is like the one that was sent: it may fill in what
-- the request leaves open.
pub record IsClient {K O : Type 0} (view : K → Cluster) (read : K → String → String → Option O)
    (key : String → String → Key) (meta : O → ObjectMeta) (Like : O → O → Type 0) (api : Api K O)
    : Type 0 where
  pub get_same :
      (namespace name : String) (k : K) → Same (view k) (view (api.get namespace name k).1)
  pub get_answers :
      (namespace name : String) (k : K)
      → Answers (api.get namespace name k).0 (read k namespace name)
  pub named :
      (namespace name : String) (k : K) (object : O)
      → read k namespace name ≡ some object
      → (meta object).name ≡ name
  pub create_within :
      (namespace : String) (object : O) (k : K)
      → Within
          (λ q. q ≡ key namespace (meta object).name)
          (view k)
          (view (api.create namespace object k).1)
  pub created :
      (namespace : String) (object : O) (k k' : K)
      → api.create namespace object k ≡ (none, k')
      → (held : O) × (read k' namespace (meta object).name ≡ some held) × Like held object
  pub update_within :
      (namespace : String) (object : O) (k : K)
      → Within
          (λ q. q ≡ key namespace (meta object).name)
          (view k)
          (view (api.update namespace object k).1)
  pub updated :
      (namespace : String) (object : O) (k k' : K)
      → api.update namespace object k ≡ (none, k')
      → (held : O) × (read k' namespace (meta object).name ≡ some held) × Like held object
  pub delete_within :
      (namespace name : String) (k : K)
      → Within (λ q. q ≡ key namespace name) (view k) (view (api.delete namespace name k).1)

-- what of an object the server keeps as it was sent
abbrev pub LikeConfigMap : ConfigMap → ConfigMap → Type 0
LikeConfigMap held sent = held.entries ≡ sent.entries

abbrev pub LikeStatefulSet : StatefulSet → StatefulSet → Type 0
LikeStatefulSet held sent =
    (held.spec.selector ≡ sent.spec.selector)
    × (held.spec.template.labels ≡ sent.spec.template.labels)

abbrev pub LikeService : Service → Service → Type 0
LikeService held sent =
    (held.spec.selector ≡ sent.spec.selector)
    × (held.spec.ports ≡ sent.spec.ports)
    × (held.spec.publish_not_ready_addresses ≡ sent.spec.publish_not_ready_addresses)

abbrev pub LikeJob : Job → Job → Type 0
LikeJob held sent = held.template.spec.restart_policy ≡ sent.template.spec.restart_policy

-- The promises of the whole environment, as far as the objects are concerned. The file with the
-- script is no object, and the owner's reference is all that `SetControllerReference` writes.
pub record IsServer {K : Type 0} (e : Environment K) : Type 0 where
  pub view : K → Cluster
  pub config_maps :
      IsClient view
        (λ k s n. view k (config_map s n))
        config_map
        (λ x. x.meta)
        LikeConfigMap
        e.config_maps
  pub stateful_sets :
      IsClient view
        (λ k s n. view k (stateful_set s n))
        stateful_set
        (λ x. x.meta)
        LikeStatefulSet
        e.stateful_sets
  pub services :
      IsClient view (λ k s n. view k (service s n)) service (λ x. x.meta) LikeService e.services
  pub jobs : IsClient view (λ k s n. view k (job s n)) job (λ x. x.meta) LikeJob e.jobs
  pub read_file_same : (path : String) (k : K) → Same (view k) (view (e.read_file path k).1)
  pub owner_only :
      (nacos : Nacos) (m m' : ObjectMeta)
      → e.set_controller_reference nacos m ≡ got m'
      → m'.name ≡ m.name
  -- the calls that concern no object of the four kinds
  pub list_pods_same :
      (namespace selector : String) (k : K)
      → Same (view k) (view (e.list_pods namespace selector k).1)
  pub http_get_same : (url : String) (k : K) → Same (view k) (view (e.http_get url k).1)
  pub read_all_same : (r : String) (k : K) → Same (view k) (view (e.read_all r k).1)
  pub now_same : (k : K) → Same (view k) (view (e.now k).1)
  pub update_status_same :
      (nacos : Nacos) (k : K) → Same (view k) (view (e.update_status nacos k).1)
  pub get_nacos_same :
      (namespace name : String) (k : K) → Same (view k) (view (e.get_nacos namespace name k).1)
  pub nacos_named :
      (namespace name : String) (k : K) (nacos : Nacos)
      → (e.get_nacos namespace name k).0 ≡ got nacos
      → (nacos.meta.namespace ≡ namespace) × (nacos.meta.name ≡ name)
