-- ===== src/Merge/Containers.antt =====
-- operator/pkg/util/merge/merge.go and merge_ephemeral_container.go: containers and their parts.
-- `o` is the order in which Go visits maps; each function that has loops over maps numbers them.
pub mod Laws
pub mod Ports
pub mod Orders
use nacos_k8s.Base.{String, Option, none, some, List, [], ◌∷◌, ◌++◌, ◌==◌, if◌then◌else◌, join}
use nacos_k8s.Go.Maps.{Map, get, RangeOrder}
use nacos_k8s.Go.Sort.{slice_stable, by_key}
use nacos_k8s.Kube.{
  EnvVar, ContainerPort, VolumeMount, VolumeDevice, ResourceRequirements, Probe, Lifecycle,
  SecurityContext, Container, EphemeralContainer,
}
use nacos_k8s.Merge.Fields.{or_string, or_int, or_bool, or_nil, string_slices}
use nacos_k8s.Merge.Keyed.{create_map, merge_maps, collect, merge_by}

-- `if override == nil { return original }; if original == nil { return override }; ...`
abbrev both {ℓ} : {A : Type ℓ} → (A → A → A) → Option A → Option A → Option A
both f original none = original
both f none (some over) = some over
both f (some orig) (some over) = some (f orig over)

unfoldable pub probe : Option Probe → Option Probe → Option Probe
probe = both λ merged over. record merged {
  handler = record {
    exec = or_nil over.handler.exec merged.handler.exec;
    http_get = or_nil over.handler.http_get merged.handler.http_get;
    tcp_socket = or_nil over.handler.tcp_socket merged.handler.tcp_socket;
  };
  initial_delay_seconds = or_int over.initial_delay_seconds merged.initial_delay_seconds;
  timeout_seconds = or_int over.timeout_seconds merged.timeout_seconds;
  period_seconds = or_int over.period_seconds merged.period_seconds;
  success_threshold = or_int over.success_threshold merged.success_threshold;
  failure_threshold = or_int over.failure_threshold merged.failure_threshold;
}

unfoldable pub life_cycle : Option Lifecycle → Option Lifecycle → Option Lifecycle
life_cycle = both λ merged over. record merged {
  post_start = or_nil over.post_start merged.post_start;
  pre_stop = or_nil over.pre_stop merged.pre_stop;
}

unfoldable pub security_context :
    Option SecurityContext → Option SecurityContext → Option SecurityContext
security_context = both λ merged over. record merged {
  capabilities = or_nil over.capabilities merged.capabilities;
  privileged = or_nil over.privileged merged.privileged;
  se_linux_options = or_nil over.se_linux_options merged.se_linux_options;
  windows_options = or_nil over.windows_options merged.windows_options;
  run_as_user = or_nil over.run_as_user merged.run_as_user;
  run_as_group = or_nil over.run_as_group merged.run_as_group;
  run_as_non_root = or_nil over.run_as_non_root merged.run_as_non_root;
  read_only_root_filesystem =
      or_nil over.read_only_root_filesystem merged.read_only_root_filesystem;
  allow_privilege_escalation =
      or_nil over.allow_privilege_escalation merged.allow_privilege_escalation;
  proc_mount = or_nil over.proc_mount merged.proc_mount;
}

unfoldable pub merge_volume_device : VolumeDevice → VolumeDevice → VolumeDevice
merge_volume_device original over = record original {
  name = or_string over.name original.name;
  device_path = or_string over.device_path original.device_path;
}

-- loops 30 to 32
unfoldable pub volume_devices :
    RangeOrder → List VolumeDevice → List VolumeDevice → List VolumeDevice
unfolding merge_by merge_volume_device
volume_devices o = merge_by o 30 (λ d. d.name) merge_volume_device

-- A value in the override clears the source, and a source clears the value.
unfoldable pub merge_single_env : EnvVar → EnvVar → EnvVar
merge_single_env original over =
    let valued =
      if over.value == ""
      then original
      else record original { value = over.value; value_from = none } in
    elim over.value_from [
      | none ↦ valued
      | some source ↦ record valued { value_from = some source; value = "" }
    ]

-- loops 40 to 42
unfoldable pub envs : RangeOrder → List EnvVar → List EnvVar → List EnvVar
unfolding merge_by merge_single_env
envs o = merge_by o 40 (λ e. e.name) merge_single_env

unfoldable pub resource_requirements :
    ResourceRequirements → ResourceRequirements → ResourceRequirements
resource_requirements original over = record original {
  limits = or_nil over.limits original.limits;
  requests = or_nil over.requests original.requests;
}

unfoldable pub container_ports : ContainerPort → ContainerPort → ContainerPort
container_ports default_port over = record default_port {
  name = or_string over.name default_port.name;
  container_port = or_int over.container_port default_port.container_port;
  host_port = or_int over.host_port default_port.host_port;
  protocol = or_string over.protocol default_port.protocol;
  host_ip = or_string over.host_ip default_port.host_ip;
}

-- the loop over the default ports
unfoldable pub merged_ports :
    Map ContainerPort → List ContainerPort → Map ContainerPort → List ContainerPort
merged_ports overrides ports [] = ports
merged_ports overrides ports ((name, default_port) ∷ r) =
    merged_ports overrides
      (ports
        ++ (elim (get name overrides) [
          | some over ↦ container_ports default_port over
          | none ↦ default_port
        ])
          ∷ [])
      r

-- the loop over the override ports
unfoldable pub added_ports :
    Map ContainerPort → List ContainerPort → Map ContainerPort → List ContainerPort
added_ports defaults ports [] = ports
added_ports defaults ports ((name, over) ∷ r) =
    added_ports defaults (elim (get name defaults) [ some p ↦ ports | none ↦ ports ++ over ∷ [] ]) r

-- loops 50 and 51
unfoldable pub container_port_slices_by_name :
    RangeOrder → List ContainerPort → List ContainerPort → List ContainerPort
unfolding merged_ports added_ports create_map container_ports
container_port_slices_by_name o default_ports override_ports =
    let defaults = create_map (λ p. p.name) default_ports in
    let overrides = create_map (λ p. p.name) override_ports in
    slice_stable (by_key (λ p. p.name)) (
      added_ports defaults (merged_ports overrides [] (o.range 50 ContainerPort defaults))
        (o.range 51 ContainerPort overrides))

unfoldable pub volume_mount_to_string : VolumeMount → String
volume_mount_to_string v = join "_" (v.name ∷ v.mount_path ∷ v.sub_path ∷ [])

unfoldable pub volume_mount : VolumeMount → VolumeMount → VolumeMount
volume_mount original over = record original {
  name = or_string over.name original.name;
  read_only = or_bool over.read_only original.read_only;
  mount_path = or_string over.mount_path original.mount_path;
  sub_path = or_string over.sub_path original.sub_path;
  mount_propagation = or_nil over.mount_propagation original.mount_propagation;
  sub_path_expr = or_string over.sub_path_expr original.sub_path_expr;
}

-- loops 60 to 62
unfoldable pub volume_mounts : RangeOrder → List VolumeMount → List VolumeMount → List VolumeMount
unfolding merge_by volume_mount volume_mount_to_string
volume_mounts o = merge_by o 60 volume_mount_to_string volume_mount

unfoldable pub container : RangeOrder → Container → Container → Container
container o default over = record default {
  name = or_string over.name default.name;
  image = or_string over.image default.image;
  command = string_slices default.command over.command;
  args = string_slices default.args over.args;
  working_dir = or_string over.working_dir default.working_dir;
  ports = container_port_slices_by_name o default.ports over.ports;
  env = envs o default.env over.env;
  resources = resource_requirements default.resources over.resources;
  volume_mounts = volume_mounts o default.volume_mounts over.volume_mounts;
  volume_devices = volume_devices o default.volume_devices over.volume_devices;
  liveness_probe = probe default.liveness_probe over.liveness_probe;
  readiness_probe = probe default.readiness_probe over.readiness_probe;
  startup_probe = probe default.startup_probe over.startup_probe;
  lifecycle = life_cycle default.lifecycle over.lifecycle;
  termination_message_path =
      or_string over.termination_message_path default.termination_message_path;
  termination_message_policy =
      or_string over.termination_message_policy default.termination_message_policy;
  image_pull_policy = or_string over.image_pull_policy default.image_pull_policy;
  security_context = security_context default.security_context over.security_context;
  stdin = or_bool over.stdin default.stdin;
  stdin_once = or_bool over.stdin_once default.stdin_once;
  tty = or_bool over.tty default.tty;
}

-- loops 70 to 72
unfoldable pub containers : RangeOrder → List Container → List Container → List Container
unfolding merge_by container
containers o = merge_by o 70 (λ c. c.name) (container o)

-- The source repeats the assignments of `Container` for the common part.
unfoldable pub ephemeral_container :
    RangeOrder → EphemeralContainer → EphemeralContainer → EphemeralContainer
unfolding container
ephemeral_container o default over = record {
  common = container o default.common over.common;
  target_container_name = or_string over.target_container_name default.target_container_name;
}

-- loops 80 to 82; the result is not sorted
unfoldable pub ephemeral_containers :
    RangeOrder → List EphemeralContainer → List EphemeralContainer → List EphemeralContainer
unfolding create_map merge_maps collect ephemeral_container
ephemeral_containers o default over = collect o 80 (
    merge_maps o 80 (ephemeral_container o) (create_map (λ c. c.common.name) default)
      (create_map (λ c. c.common.name) over))
