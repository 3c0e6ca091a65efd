-- ===== src/Api.antt =====
-- operator/api/v1alpha1/nacos_types.go: the custom resource.
use nacos_k8s.Base.{ℕ, String, Bool, Option, List, ℤ}
use nacos_k8s.Go.Maps.{Map}
use nacos_k8s.Kube.{
  Blob, ObjectMeta, ResourceRequirements, Affinity, Toleration, Probe, EnvVar, PodSpec,
}

pub record Certification : Type 0 where
  pub enabled : Option Bool
  pub token : String
  pub token_expire_seconds : String
  pub cache_enabled : Option Bool

pub record Storage : Type 0 where
  pub enabled : Bool
  pub requests : Option Blob
  pub storage_class : Option String

pub record Database : Type 0 where
  pub type_database : String
  pub mysql_host : String
  pub mysql_port : String
  pub mysql_db : String
  pub mysql_user : String
  pub mysql_password : String

-- `pod_spec` is `K8sWrapper.PodSpec.Spec`
pub record NacosSpec : Type 0 where
  pub image : String
  pub image_pull_secrets : Option Blob
  pub replicas : Option ℤ
  pub resources : ResourceRequirements
  pub affinity : Option Affinity
  pub tolerations : List Toleration
  pub node_selector : Option (Map String)
  pub liveness_probe : Option Probe
  pub readiness_probe : Option Probe
  pub env : List EnvVar
  pub mysql_init_image : String
  pub type : String
  pub function_mode : String
  pub database : Database
  pub volume : Storage
  pub config : String
  pub certification : Certification
  pub pod_spec : PodSpec

pub record Condition : Type 0 where
  pub type : String
  pub status : String
  pub reason : String
  pub message : String
  pub instance_ip : String
  pub host_ip : String
  pub pod_name : String
  pub node_name : String

-- a time is a number of nanoseconds since the zero time, which is 0
abbrev pub Time : Type 0
Time = ℕ

pub record Event : Type 0 where
  pub status : Bool
  pub first_appear_time : Time
  pub last_transition_time : Time
  pub message : String
  pub code : ℤ

-- the values of the string type `Phase`; any other string is `other_phase`
pub data Phase : Type 0 where
  phase_running phase_none phase_creating phase_failed phase_scale : Phase
  other_phase : String → Phase

pub record NacosStatus : Type 0 where
  pub conditions : List Condition
  pub event : List Event
  pub phase : Phase
  pub version : String

pub record Nacos : Type 0 where
  pub meta : ObjectMeta
  pub creation_timestamp : Time
  pub spec : NacosSpec
  pub status : NacosStatus
