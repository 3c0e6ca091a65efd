-- ===== src/Merge/Pods.antt =====
-- operator/pkg/util/merge/merge_podtemplate_spec.go, with `Tolerations` and `Affinity` of merge.go.
pub mod Laws
use nacos_k8s.Base.{Option, none, some, List, [], ◌∷◌, option_map}
use nacos_k8s.Go.Maps.{Map, get, put, RangeOrder}
use nacos_k8s.Go.Sort.{slice_stable, by_key}
use nacos_k8s.Kube.{
  Toleration, Affinity, HostAlias, PodDnsConfig, TopologySpreadConstraint, PodSpec, PodTemplateSpec,
}
use nacos_k8s.Merge.Fields.{
  or_string, or_int, or_bool, or_nil, elements, append_new, string_slices, string_to_string_map,
}
use nacos_k8s.Merge.Keyed.{fill, create_map, copy_entries, collect}
use nacos_k8s.Merge.Containers.{containers, ephemeral_containers}
use nacos_k8s.Merge.Volumes.{volumes}

-- loop 112; the empty slice is nil
unfoldable pub tolerations : RangeOrder → List Toleration → List Toleration → List Toleration
unfolding fill create_map collect
tolerations o default over =
    slice_stable (by_key (λ t. t.key))
      (collect o 110 (fill (λ t. t.key) (create_map (λ t. t.key) default) over))

unfoldable pub affinity : Option Affinity → Option Affinity → Option Affinity
affinity none over = over
affinity (some default) none = some default
affinity (some default) (some over) = some (record default {
  node_affinity = or_nil over.node_affinity default.node_affinity;
  pod_affinity = or_nil over.pod_affinity default.pod_affinity;
  pod_anti_affinity = or_nil over.pod_anti_affinity default.pod_anti_affinity;
})

unfoldable pub topology_spread_constraint :
    TopologySpreadConstraint → TopologySpreadConstraint → TopologySpreadConstraint
topology_spread_constraint original over = record original {
  label_selector = or_nil over.label_selector original.label_selector;
  max_skew = or_int over.max_skew original.max_skew;
  when_unsatisfiable = or_string over.when_unsatisfiable original.when_unsatisfiable;
}

-- the loop over the override map, which looks each key up in the map that it writes
unfoldable pub merge_constraints :
    Map TopologySpreadConstraint → Map TopologySpreadConstraint → Map TopologySpreadConstraint
merge_constraints merged [] = merged
merge_constraints merged ((k, v) ∷ r) =
    merge_constraints
      (put k
        (elim (get k merged) [ some original ↦ topology_spread_constraint original v | none ↦ v ])
        merged)
      r

-- loops 120 to 122; the result is not sorted
unfoldable pub topology_spread_constraints :
    RangeOrder
    → List TopologySpreadConstraint
    → List TopologySpreadConstraint
    → List TopologySpreadConstraint
unfolding create_map copy_entries merge_constraints collect topology_spread_constraint
topology_spread_constraints o original over = collect o 120 (
    merge_constraints
      (copy_entries []
        (o.range 120 TopologySpreadConstraint (create_map (λ c. c.topology_key) original)))
      (o.range 121 TopologySpreadConstraint (create_map (λ c. c.topology_key) over)))

-- the loop of `HostAliases` over the overrides
unfoldable pub merge_aliases : Map HostAlias → List HostAlias → Map HostAlias
unfolding append_new
merge_aliases m [] = m
merge_aliases m (over ∷ r) =
    merge_aliases
      (put over.ip
        (elim (get over.ip m) [
          | some found ↦ record {
            ip = over.ip;
            hostnames = append_new found.hostnames over.hostnames;
          }
          | none ↦ over
        ])
        m)
      r

-- loop 132
unfoldable pub host_aliases : RangeOrder → List HostAlias → List HostAlias → List HostAlias
unfolding create_map merge_aliases collect
host_aliases o original over =
    slice_stable (by_key (λ a. a.ip))
      (collect o 130 (merge_aliases (create_map (λ a. a.ip) original) over))

unfoldable pub pod_dns_config : Option PodDnsConfig → Option PodDnsConfig → Option PodDnsConfig
unfolding string_slices
pod_dns_config original none = original
pod_dns_config none (some over) = some over
pod_dns_config (some original) (some over) = some (record original {
  options = or_nil over.options original.options;
  nameservers =
      or_nil (option_map (string_slices (elements original.nameservers)) over.nameservers)
        original.nameservers;
  searches =
      or_nil (option_map (string_slices (elements original.searches)) over.searches)
        original.searches;
})

unfoldable pub pod_spec : RangeOrder → PodSpec → PodSpec → PodSpec
pod_spec o original over = record original {
  volumes = volumes o original.volumes over.volumes;
  containers = containers o original.containers over.containers;
  init_containers = containers o original.init_containers over.init_containers;
  ephemeral_containers =
      or_nil
        (option_map (ephemeral_containers o (elements original.ephemeral_containers))
          over.ephemeral_containers)
        original.ephemeral_containers;
  restart_policy = or_string over.restart_policy original.restart_policy;
  termination_grace_period_seconds =
      or_nil over.termination_grace_period_seconds original.termination_grace_period_seconds;
  active_deadline_seconds = or_nil over.active_deadline_seconds original.active_deadline_seconds;
  dns_policy = or_string over.dns_policy original.dns_policy;
  node_selector =
      or_nil
        (option_map (string_to_string_map o (elements original.node_selector)) over.node_selector)
        original.node_selector;
  service_account_name = or_string over.service_account_name original.service_account_name;
  deprecated_service_account =
      or_string over.deprecated_service_account original.deprecated_service_account;
  automount_service_account_token =
      or_nil over.automount_service_account_token original.automount_service_account_token;
  node_name = or_string over.node_name original.node_name;
  host_network = or_bool over.host_network original.host_network;
  host_pid = or_bool over.host_pid original.host_pid;
  share_process_namespace = or_nil over.share_process_namespace original.share_process_namespace;
  security_context = or_nil over.security_context original.security_context;
  image_pull_secrets = or_nil over.image_pull_secrets original.image_pull_secrets;
  hostname = or_string over.hostname original.hostname;
  subdomain = or_string over.subdomain original.subdomain;
  affinity = elim over.affinity [
    | none ↦ original.affinity
    | some a ↦ affinity original.affinity (some a)
  ];
  scheduler_name = or_string over.scheduler_name original.scheduler_name;
  tolerations = tolerations o original.tolerations over.tolerations;
  host_aliases = host_aliases o original.host_aliases over.host_aliases;
  priority_class_name = or_string over.priority_class_name original.priority_class_name;
  priority = or_nil over.priority original.priority;
  dns_config = elim over.dns_config [
    | none ↦ original.dns_config
    | some c ↦ pod_dns_config original.dns_config (some c)
  ];
  readiness_gates = or_nil over.readiness_gates original.readiness_gates;
  runtime_class_name = or_nil over.runtime_class_name original.runtime_class_name;
  enable_service_links = or_nil over.enable_service_links original.enable_service_links;
  preemption_policy = or_nil over.preemption_policy original.preemption_policy;
  overhead = or_nil over.overhead original.overhead;
  topology_spread_constraints =
      or_nil
        (option_map (topology_spread_constraints o (elements original.topology_spread_constraints))
          over.topology_spread_constraints)
        original.topology_spread_constraints;
}

unfoldable pub pod_template_specs : RangeOrder → PodTemplateSpec → PodTemplateSpec → PodTemplateSpec
unfolding pod_spec string_to_string_map
pod_template_specs o original over = record original {
  annotations = string_to_string_map o original.annotations over.annotations;
  labels = string_to_string_map o original.labels over.labels;
  spec = pod_spec o original.spec over.spec;
}
