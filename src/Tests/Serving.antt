-- ===== src/Tests/Serving.antt =====
-- Stored stateful sets, servers and tolerations of small clusters.
use nacos_k8s.Environment.{Environment, call}
use nacos_k8s.Base.{
  false, true, eq_iff, concat, ℕ, String, ◌≡◌, refl, inl, none, pos, List, [], ◌∷◌, ◌==◌, ◌||◌,
  ◌++◌, or_else,
}
use nacos_k8s.Errors.{done}
use nacos_k8s.Go.Sort.{find_by, IsAscending}
use nacos_k8s.Kube.{Container, StatefulSet, Toleration, EnvVar, env_var, new_container}
use nacos_k8s.Api.{NacosSpec, phase_creating}
use nacos_k8s.Services.StatefulSets.{create_or_update_stateful_set}
use nacos_k8s.Services.StatefulSets.Laws.{seen_change, unseen_change}
use nacos_k8s.Operator.World.{World}
use nacos_k8s.Operator.Check.{check_servers}
use nacos_k8s.Operator.Check.Passes.{check_servers-passes}
use nacos_k8s.Merge.Keyed.Lookup.{last_by}
use nacos_k8s.Merge.Pods.{tolerations}
use nacos_k8s.Merge.Pods.Laws.{tolerations_lookup}
use nacos_k8s.Kind.Env.{build_env}
use nacos_k8s.Kind.Env.Laws.{values_of}
use nacos_k8s.Kind.Env.Modes.{mode_values, prefer_host_mode}
use nacos_k8s.Tests.{in_order, a_nacos, a_container, a_server, a_stateful_set, a_cluster}

-- the stateful set with another image
abbrev upgraded : StatefulSet
upgraded = record a_stateful_set {
  spec = record (a_stateful_set.spec) {
    template = record (a_stateful_set.spec.template) {
      spec = record (a_stateful_set.spec.template.spec) {
        containers = new_container "nacos" "nacos/nacos-server:2.1.0" ∷ [];
      };
    };
  };
}

-- the encoding of variables by their names and values
abbrev spelled : List EnvVar → String
spelled [] = ""
spelled (v ∷ r) = concat v.name (concat "=" (concat v.value (concat ";" (spelled r))))

abbrev spelling : Environment ℕ
spelling = record a_cluster { marshal_env = spelled }

-- the first container with a variable
abbrev larger : Container
larger = record a_container { env = env_var "JVM" "1g" ∷ [] }

abbrev reconfigured : StatefulSet
reconfigured = record a_stateful_set {
  spec = record (a_stateful_set.spec) {
    template = record (a_stateful_set.spec.template) {
      spec = record (a_stateful_set.spec.template.spec) { containers = larger ∷ [] };
    };
  };
}

seen_change_example :
    create_or_update_stateful_set spelling "default" reconfigured 0
    ≡ call (spelling.stateful_sets.update "default" reconfigured) 0
seen_change_example =
    seen_change spelling "default" a_stateful_set reconfigured a_container larger (pos 1) (pos 1) 0
      0 refl (([], refl), refl, refl) (([], refl), refl, refl) λ same r v. other v
  where
    other : spelled [] ≡ spelled larger.env → ⊥
    other v = different ((eq_iff (spelled []) (spelled larger.env)).1 v)
      where
        different : false ≡ true → ⊥
        different h = cc

unseen_change_example :
    create_or_update_stateful_set a_cluster "default" upgraded 0 ≡ (done none, 0)
unseen_change_example =
    unseen_change a_cluster "default" a_stateful_set upgraded a_container
      (new_container "nacos" "nacos/nacos-server:2.1.0") (pos 1) 0 0 refl (([], refl), refl, refl)
      (([], refl), refl, refl) refl refl

abbrev a_world : World ℕ
a_world = record { nacos = a_nacos phase_creating; cluster = 0 }

check_servers-passes_example :
    (check_servers "" (a_server ∷ a_server ∷ []) a_world).0
    ≡ done "one-0.one-headless.default.svc.cluster.local:7848"
check_servers-passes_example =
    check_servers-passes a_server (a_server ∷ []) ""
      "one-0.one-headless.default.svc.cluster.local:7848" a_world (inl refl)
      ((refl, refl), ((refl, refl), tt))

abbrev a_toleration : String → String → Toleration
a_toleration key effect = record { key = key; operator = "Exists"; value = ""; effect = effect }

tolerations_lookup_example :
    IsAscending
      (λ t. t.key)
      (tolerations in_order
        (a_toleration "disk" "NoSchedule" ∷ [])
        (a_toleration "disk" "NoExecute" ∷ []))
    × ((k : String)
        → find_by
            (λ t. t.key)
            k
            (tolerations in_order
              (a_toleration "disk" "NoSchedule" ∷ [])
              (a_toleration "disk" "NoExecute" ∷ []))
          ≡ or_else
              (last_by (λ t. t.key) k (a_toleration "disk" "NoExecute" ∷ []))
              (last_by (λ t. t.key) k (a_toleration "disk" "NoSchedule" ∷ [])))
tolerations_lookup_example =
    tolerations_lookup in_order (a_toleration "disk" "NoSchedule" ∷ [])
      (a_toleration "disk" "NoExecute" ∷ [])

abbrev naming : NacosSpec
naming = record ((a_nacos phase_creating).spec) { function_mode = "naming" }

naming_env : List EnvVar
naming_env =
    env_var "FUNCTION_MODE" "naming"
    ∷ env_var "NACOS_AUTH_ENABLE" "false"
    ∷ env_var "EMBEDDED_STORAGE" "embedded"
    ∷ env_var "MODE" "standalone"
    ∷ []

naming_builds : build_env naming ≡ done naming_env
unfolding build_env naming_env
naming_builds = refl

prefer_host_mode_example :
    values_of "PREFER_HOST_MODE" naming_env
    ≡ values_of "PREFER_HOST_MODE" [] ++ mode_values ("naming" == "naming" || "naming" == "config")
prefer_host_mode_example = prefer_host_mode naming naming_env naming_builds
