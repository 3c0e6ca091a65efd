-- ===== src/Kube/Workloads.antt =====
-- The objects that the operator creates: stateful sets, services, config maps and jobs.
use nacos_k8s.Base.{String, Bool, Option, List, ℤ}
use nacos_k8s.Go.Maps.{Map}
use nacos_k8s.Kube.Meta.{Blob, ObjectMeta, LabelSelector}
use nacos_k8s.Kube.Volumes.{PersistentVolumeClaim}
use nacos_k8s.Kube.Pods.{PodSpec}

pub record PodTemplateSpec : Type 0 where
  pub namespace : String
  pub labels : Map String
  pub annotations : Map String
  pub spec : PodSpec

pub record UpdateStrategy : Type 0 where
  pub type : String
  pub rolling_update : Option Blob

pub record StatefulSetSpec : Type 0 where
  pub replicas : Option ℤ
  pub selector : Option LabelSelector
  pub template : PodTemplateSpec
  pub volume_claim_templates : List PersistentVolumeClaim
  pub service_name : String
  pub pod_management_policy : String
  pub update_strategy : UpdateStrategy
  pub revision_history_limit : Option ℤ

pub record StatefulSet : Type 0 where
  pub meta : ObjectMeta
  pub spec : StatefulSetSpec

pub record DeploymentSpec : Type 0 where
  pub replicas : Option ℤ
  pub selector : Option LabelSelector
  pub template : PodTemplateSpec
  pub revision_history_limit : Option ℤ

pub record ServicePort : Type 0 where
  pub name : String
  pub port : ℤ
  pub protocol : String

pub record ServiceSpec : Type 0 where
  pub publish_not_ready_addresses : Bool
  pub ports : List ServicePort
  pub selector : Map String
  pub cluster_ip : String
  pub ip_families : List String
  pub ip_family_policy : Option String

pub record Service : Type 0 where
  pub meta : ObjectMeta
  pub spec : ServiceSpec

-- `entries` is the field `Data`
pub record ConfigMap : Type 0 where
  pub meta : ObjectMeta
  pub entries : Map String

pub record Job : Type 0 where
  pub meta : ObjectMeta
  pub template : PodTemplateSpec
