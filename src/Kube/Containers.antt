-- ===== src/Kube/Containers.antt =====
-- A container and its parts.
use nacos_k8s.Base.{String, Bool, false, Option, none, List, [], ℤ}
use nacos_k8s.Kube.Meta.{Blob}

pub data EnvVarSource : Type 0 where
  -- `ConfigMapKeyRef`: the config map's name and the key
  config_map_key_ref : String → String → EnvVarSource
  other_source : Blob → EnvVarSource

pub record EnvVar : Type 0 where
  pub name : String
  pub value : String
  pub value_from : Option EnvVarSource

-- `v1.EnvVar{Name: name, Value: value}`
abbrev pub env_var : String → String → EnvVar
env_var name value = record { name = name; value = value; value_from = none }

pub record ContainerPort : Type 0 where
  pub name : String
  pub container_port : ℤ
  pub host_port : ℤ
  pub protocol : String
  pub host_ip : String

pub record VolumeMount : Type 0 where
  pub name : String
  pub read_only : Bool
  pub mount_path : String
  pub sub_path : String
  pub mount_propagation : Option Blob
  pub sub_path_expr : String

pub record VolumeDevice : Type 0 where
  pub name : String
  pub device_path : String

pub record ResourceRequirements : Type 0 where
  pub limits : Option Blob
  pub requests : Option Blob

pub record Handler : Type 0 where
  pub exec : Option (List String)
  pub http_get : Option Blob
  pub tcp_socket : Option Blob

pub record Probe : Type 0 where
  pub handler : Handler
  pub initial_delay_seconds : ℤ
  pub timeout_seconds : ℤ
  pub period_seconds : ℤ
  pub success_threshold : ℤ
  pub failure_threshold : ℤ

pub record Lifecycle : Type 0 where
  pub post_start : Option Handler
  pub pre_stop : Option Handler

pub record SecurityContext : Type 0 where
  pub capabilities : Option Blob
  pub privileged : Option Bool
  pub se_linux_options : Option Blob
  pub windows_options : Option Blob
  pub run_as_user : Option ℤ
  pub run_as_group : Option ℤ
  pub run_as_non_root : Option Bool
  pub read_only_root_filesystem : Option Bool
  pub allow_privilege_escalation : Option Bool
  pub proc_mount : Option Blob

pub record Container : Type 0 where
  pub name : String
  pub image : String
  pub command : List String
  pub args : List String
  pub working_dir : String
  pub ports : List ContainerPort
  pub env : List EnvVar
  pub resources : ResourceRequirements
  pub volume_mounts : List VolumeMount
  pub volume_devices : List VolumeDevice
  pub liveness_probe : Option Probe
  pub readiness_probe : Option Probe
  pub startup_probe : Option Probe
  pub lifecycle : Option Lifecycle
  pub termination_message_path : String
  pub termination_message_policy : String
  pub image_pull_policy : String
  pub security_context : Option SecurityContext
  pub stdin : Bool
  pub stdin_once : Bool
  pub tty : Bool

-- `v1.Container{Name: name, Image: image}`: the other fields have Go's zero values
abbrev pub new_container : String → String → Container
new_container name image = record {
  name = name;
  image = image;
  command = [];
  args = [];
  working_dir = "";
  ports = [];
  env = [];
  resources = record { limits = none; requests = none };
  volume_mounts = [];
  volume_devices = [];
  liveness_probe = none;
  readiness_probe = none;
  startup_probe = none;
  lifecycle = none;
  termination_message_path = "";
  termination_message_policy = "";
  image_pull_policy = "";
  security_context = none;
  stdin = false;
  stdin_once = false;
  tty = false;
}

-- the container's own fields, which the source reads through the embedded struct, and its target
pub record EphemeralContainer : Type 0 where
  pub common : Container
  pub target_container_name : String
