-- ===== src/Kube/Volumes.antt =====
-- Volumes and volume claims.
use nacos_k8s.Base.{String, Bool, Option, List, ℤ}
use nacos_k8s.Kube.Meta.{Blob, ObjectMeta}
use nacos_k8s.Kube.Containers.{ResourceRequirements}

pub record KeyToPath : Type 0 where
  pub key : String
  pub path : String
  pub mode : Option ℤ

pub record EmptyDirVolumeSource : Type 0 where
  pub medium : String
  pub size_limit : Option Blob

pub record SecretVolumeSource : Type 0 where
  pub secret_name : String
  pub items : List KeyToPath
  pub default_mode : Option ℤ
  pub optional : Option Bool

pub record ConfigMapVolumeSource : Type 0 where
  pub name : String
  pub items : List KeyToPath
  pub default_mode : Option ℤ
  pub optional : Option Bool

-- `other` is any of the sources that the operator does not name
pub record VolumeSource : Type 0 where
  pub empty_dir : Option EmptyDirVolumeSource
  pub secret : Option SecretVolumeSource
  pub config_map : Option ConfigMapVolumeSource
  pub other : Option Blob

pub record Volume : Type 0 where
  pub name : String
  pub volume_source : VolumeSource

pub record PersistentVolumeClaimSpec : Type 0 where
  pub volume_mode : Option Blob
  pub storage_class_name : Option String
  pub access_modes : List String
  pub selector : Option Blob
  pub resources : ResourceRequirements
  pub data_source : Option Blob

pub record PersistentVolumeClaim : Type 0 where
  pub meta : ObjectMeta
  pub spec : PersistentVolumeClaimSpec
