-- ===== src/Merge/Workloads.antt =====
-- operator/pkg/util/merge/merge_statefulset.go and merge_deployment.go: label selectors, stateful
-- sets and deployments.
use nacos_k8s.Base.{
  String, Option, none, some, List, [], ◌∷◌, ◌++◌, ◌==◌, if◌then◌else◌, option_map,
}
use nacos_k8s.Go.Maps.{RangeOrder}
use nacos_k8s.Go.Sort.{slice_stable, by_key}
use nacos_k8s.Kube.{
  LabelSelector, LabelSelectorRequirement, StatefulSet, StatefulSetSpec, DeploymentSpec,
}
use nacos_k8s.Merge.Fields.{or_string, or_nil, elements, string_slices, string_to_string_map}
use nacos_k8s.Merge.Pods.{pod_template_specs}
use nacos_k8s.Merge.Volumes.{volume_claim_templates}

unfoldable pub label_selector_requirement_by_key :
    List LabelSelectorRequirement → String → Option LabelSelectorRequirement
label_selector_requirement_by_key [] key = none
label_selector_requirement_by_key (lsr ∷ r) key =
    if lsr.key == key then some lsr else label_selector_requirement_by_key r key

-- `sort.SliceStable(lsr.Values, ...)`; a nil slice stays nil
unfoldable pub sort_values : LabelSelectorRequirement → LabelSelectorRequirement
sort_values lsr = record lsr { values = option_map (slice_stable (by_key (λ v. v))) lsr.values }

-- the body of the first loop of `LabelSelectorRequirements`
unfoldable pub merge_requirement :
    List LabelSelectorRequirement → LabelSelectorRequirement → LabelSelectorRequirement
unfolding sort_values string_slices
merge_requirement override lsr =
    sort_values (elim (label_selector_requirement_by_key override lsr.key) [
      | none ↦ lsr
      | some over ↦ record lsr {
        operator = or_string over.operator lsr.operator;
        values = or_nil (option_map (string_slices (elements lsr.values)) over.values) lsr.values;
      }
    ])

-- the first loop
unfoldable pub merge_requirements :
    List LabelSelectorRequirement → List LabelSelectorRequirement → List LabelSelectorRequirement
unfolding merge_requirement
merge_requirements override [] = []
merge_requirements override (lsr ∷ r) =
    merge_requirement override lsr ∷ merge_requirements override r

-- the second loop
unfoldable pub missing_requirements :
    List LabelSelectorRequirement → List LabelSelectorRequirement → List LabelSelectorRequirement
unfolding label_selector_requirement_by_key
missing_requirements original [] = []
missing_requirements original (over ∷ r) =
    let rest = missing_requirements original r in
    elim (label_selector_requirement_by_key original over.key) [
      | none ↦ sort_values over ∷ rest
      | some found ↦ rest
    ]

unfoldable pub label_selector_requirements :
    List LabelSelectorRequirement → List LabelSelectorRequirement → List LabelSelectorRequirement
unfolding merge_requirements missing_requirements
label_selector_requirements original override =
    slice_stable (by_key (λ r. r.key))
      (merge_requirements override original ++ missing_requirements original override)

unfoldable pub label_selectors :
    RangeOrder → Option LabelSelector → Option LabelSelector → Option LabelSelector
unfolding label_selector_requirements string_to_string_map
label_selectors o original none = original
label_selectors o none (some over) = some over
label_selectors o (some original) (some over) = some (record {
  match_labels = string_to_string_map o original.match_labels over.match_labels;
  match_expressions = label_selector_requirements original.match_expressions over.match_expressions;
})

unfoldable pub stateful_set_specs : RangeOrder → StatefulSetSpec → StatefulSetSpec → StatefulSetSpec
unfolding label_selectors pod_template_specs volume_claim_templates
stateful_set_specs o default over = record {
  replicas = or_nil over.replicas default.replicas;
  selector = label_selectors o default.selector over.selector;
  pod_management_policy = or_string over.pod_management_policy default.pod_management_policy;
  revision_history_limit = or_nil over.revision_history_limit default.revision_history_limit;
  update_strategy = record {
    type = or_string over.update_strategy.type default.update_strategy.type;
    rolling_update =
        or_nil over.update_strategy.rolling_update default.update_strategy.rolling_update;
  };
  service_name = or_string over.service_name default.service_name;
  template = pod_template_specs o default.template over.template;
  volume_claim_templates =
      volume_claim_templates o default.volume_claim_templates over.volume_claim_templates;
}

unfoldable pub stateful_sets : RangeOrder → StatefulSet → StatefulSet → StatefulSet
unfolding stateful_set_specs string_to_string_map
stateful_sets o default over = record {
  meta = record (default.meta) {
    labels = string_to_string_map o default.meta.labels over.meta.labels;
    namespace = or_string over.meta.namespace default.meta.namespace;
    name = or_string over.meta.name default.meta.name;
  };
  spec = stateful_set_specs o default.spec over.spec;
}

unfoldable pub deployment_specs : RangeOrder → DeploymentSpec → DeploymentSpec → DeploymentSpec
unfolding label_selectors pod_template_specs
deployment_specs o default over = record {
  replicas = or_nil over.replicas default.replicas;
  selector = label_selectors o default.selector over.selector;
  revision_history_limit = or_nil over.revision_history_limit default.revision_history_limit;
  template = pod_template_specs o default.template over.template;
}
