-- ===== src/Kube/Pods.antt =====
-- The pod's specification, and what the operator reads of a running pod.
use nacos_k8s.Base.{String, Bool, false, Option, none, List, [], ℤ}
use nacos_k8s.Go.Maps.{Map}
use nacos_k8s.Kube.Meta.{Blob}
use nacos_k8s.Kube.Containers.{Container, EphemeralContainer}
use nacos_k8s.Kube.Volumes.{Volume}

pub record Toleration : Type 0 where
  pub key : String
  pub operator : String
  pub value : String
  pub effect : String

pub record Affinity : Type 0 where
  pub node_affinity : Option Blob
  pub pod_affinity : Option Blob
  pub pod_anti_affinity : Option Blob

pub record HostAlias : Type 0 where
  pub ip : String
  pub hostnames : List String

pub record PodDnsConfig : Type 0 where
  pub nameservers : Option (List String)
  pub searches : Option (List String)
  pub options : Option Blob

pub record TopologySpreadConstraint : Type 0 where
  pub max_skew : ℤ
  pub topology_key : String
  pub when_unsatisfiable : String
  pub label_selector : Option Blob

pub record PodSpec : Type 0 where
  pub volumes : List Volume
  pub init_containers : List Container
  pub containers : List Container
  pub ephemeral_containers : Option (List EphemeralContainer)
  pub restart_policy : String
  pub termination_grace_period_seconds : Option ℤ
  pub active_deadline_seconds : Option ℤ
  pub dns_policy : String
  pub node_selector : Option (Map String)
  pub service_account_name : String
  pub deprecated_service_account : String
  pub automount_service_account_token : Option Bool
  pub node_name : String
  pub host_network : Bool
  pub host_pid : Bool
  pub share_process_namespace : Option Bool
  pub security_context : Option Blob
  pub image_pull_secrets : Option Blob
  pub hostname : String
  pub subdomain : String
  pub affinity : Option Affinity
  pub scheduler_name : String
  pub tolerations : List Toleration
  pub host_aliases : List HostAlias
  pub priority_class_name : String
  pub priority : Option ℤ
  pub dns_config : Option PodDnsConfig
  pub readiness_gates : Option Blob
  pub runtime_class_name : Option String
  pub enable_service_links : Option Bool
  pub preemption_policy : Option Blob
  pub overhead : Option Blob
  pub topology_spread_constraints : Option (List TopologySpreadConstraint)

-- Go's zero value
abbrev pub empty_pod_spec : PodSpec
empty_pod_spec = record {
  volumes = [];
  init_containers = [];
  containers = [];
  ephemeral_containers = none;
  restart_policy = "";
  termination_grace_period_seconds = none;
  active_deadline_seconds = none;
  dns_policy = "";
  node_selector = none;
  service_account_name = "";
  deprecated_service_account = "";
  automount_service_account_token = none;
  node_name = "";
  host_network = false;
  host_pid = false;
  share_process_namespace = none;
  security_context = none;
  image_pull_secrets = none;
  hostname = "";
  subdomain = "";
  affinity = none;
  scheduler_name = "";
  tolerations = [];
  host_aliases = [];
  priority_class_name = "";
  priority = none;
  dns_config = none;
  readiness_gates = none;
  runtime_class_name = none;
  enable_service_links = none;
  preemption_policy = none;
  overhead = none;
  topology_spread_constraints = none;
}

pub record PodCondition : Type 0 where
  pub type : String
  pub status : String

pub record Pod : Type 0 where
  pub name : String
  pub node_name : String
  pub pod_ip : String
  pub conditions : List PodCondition
