-- ===== src/Tests/Merging.antt =====
-- The merges of the container and of its parts, at small inputs.
use mathlib.Core.List.{Memᴰ}
use nacos_k8s.Base.{
  ◌≡◌, refl, true, pos, ℤ, List, [], ◌∷◌, ◌++◌, ◌||◌, ◌↔◌, str_lt, String, or_else,
}
use nacos_k8s.Go.Maps.{values, put, get, IsMap}
use nacos_k8s.Go.Sort.{slice_stable, find_by, IsAscending}
use nacos_k8s.Kube.{EnvVar, env_var, Container, new_container, ContainerPort}
use nacos_k8s.Contains
use nacos_k8s.Contains.Laws.{string_iff}
use nacos_k8s.Merge.Keyed.Lookup.{combine, last_by}
use nacos_k8s.Merge.Fields.{string_slices, string_to_string_map}
use nacos_k8s.Merge.Fields.Laws.{
  contains-string_slices, AreNew, IsPart, string_slices-AreNew, get-string_to_string_map,
}
use nacos_k8s.Merge.Containers.{
  envs, merge_single_env, containers, container, container_ports, container_port_slices_by_name,
}
use nacos_k8s.Merge.Containers.Laws.{envs_lookup, containers_lookup}
use nacos_k8s.Merge.Containers.Ports.{ports_lookup}
use nacos_k8s.Tests.{in_order, a_container}

abbrev original_env : List EnvVar
original_env = env_var "MODE" "standalone" ∷ env_var "JVM" "512m" ∷ []

abbrev over_env : List EnvVar
over_env = env_var "JVM" "1g" ∷ []

envs_run :
    envs in_order original_env over_env ≡ env_var "JVM" "1g" ∷ env_var "MODE" "standalone" ∷ []
unfolding envs slice_stable values put str_lt get
envs_run = refl

envs_lookup_example :
    IsAscending (λ v. v.name) (envs in_order original_env over_env)
    × ((k : String)
        → find_by (λ v. v.name) k (envs in_order original_env over_env)
          ≡ combine merge_single_env
              (last_by (λ v. v.name) k original_env)
              (last_by (λ v. v.name) k over_env))
envs_lookup_example = envs_lookup in_order original_env over_env

abbrev pub a_sidecar : Container
a_sidecar = new_container "agent" "agent:1"

containers_lookup_example :
    IsAscending (λ c. c.name) (containers in_order (a_container ∷ []) (a_sidecar ∷ []))
    × ((k : String)
        → find_by (λ c. c.name) k (containers in_order (a_container ∷ []) (a_sidecar ∷ []))
          ≡ combine
              (container in_order)
              (last_by (λ c. c.name) k (a_container ∷ []))
              (last_by (λ c. c.name) k (a_sidecar ∷ [])))
containers_lookup_example = containers_lookup in_order (a_container ∷ []) (a_sidecar ∷ [])

abbrev a_port : String → ℤ → ContainerPort
a_port name number = record {
  name = name;
  container_port = number;
  host_port = pos 0;
  protocol = "TCP";
  host_ip = "";
}

ports_lookup_example :
    IsAscending
      (λ p. p.name)
      (container_port_slices_by_name in_order
        (a_port "http" (pos 8848) ∷ [])
        (a_port "raft" (pos 7848) ∷ []))
    × ((k : String)
        → find_by
            (λ p. p.name)
            k
            (container_port_slices_by_name in_order
              (a_port "http" (pos 8848) ∷ [])
              (a_port "raft" (pos 7848) ∷ []))
          ≡ combine container_ports
              (last_by (λ p. p.name) k (a_port "http" (pos 8848) ∷ []))
              (last_by (λ p. p.name) k (a_port "raft" (pos 7848) ∷ [])))
ports_lookup_example =
    ports_lookup in_order (a_port "http" (pos 8848) ∷ []) (a_port "raft" (pos 7848) ∷ [])

contains-string_slices_example :
    Contains.string (string_slices ("a" ∷ "b" ∷ []) ("b" ∷ "c" ∷ [])) "c"
    ≡ (Contains.string ("a" ∷ "b" ∷ []) "c" || Contains.string ("b" ∷ "c" ∷ []) "c")
contains-string_slices_example = contains-string_slices ("a" ∷ "b" ∷ []) ("b" ∷ "c" ∷ []) "c"

string_slices-AreNew_example :
    (added : List String) × (string_slices ("a" ∷ "a" ∷ []) ("b" ∷ "a" ∷ "b" ∷ [])
      ≡ ("a" ∷ "a" ∷ []) ++ added)
    × AreNew ("a" ∷ "a" ∷ []) added
    × IsPart added ("b" ∷ "a" ∷ "b" ∷ [])
    × ((t : String)
        → Contains.string ("b" ∷ "a" ∷ "b" ∷ []) t ≡ true
        → (Contains.string ("a" ∷ "a" ∷ []) t || Contains.string added t) ≡ true)
string_slices-AreNew_example = string_slices-AreNew ("a" ∷ "a" ∷ []) ("b" ∷ "a" ∷ "b" ∷ [])

first-IsMap : IsMap {V = String} (("app", "one") ∷ ("team", "x") ∷ [])
unfolding get
first-IsMap = (refl, (refl, tt))

second-IsMap : IsMap {V = String} (("app", "two") ∷ [])
unfolding get
second-IsMap = (refl, tt)

get-string_to_string_map_example :
    get "app"
      (string_to_string_map in_order (("app", "one") ∷ ("team", "x") ∷ []) (("app", "two") ∷ []))
    ≡ or_else (get "app" (("app", "two") ∷ [])) (get "app" (("app", "one") ∷ ("team", "x") ∷ []))
get-string_to_string_map_example =
    get-string_to_string_map in_order (("app", "one") ∷ ("team", "x") ∷ []) (("app", "two") ∷ [])
      "app" first-IsMap second-IsMap

string_iff_example :
    (Contains.string ("a" ∷ "b" ∷ []) "b" ≡ true) ↔ Memᴰ {A = String} "b" ("a" ∷ "b" ∷ [])
string_iff_example = string_iff ("a" ∷ "b" ∷ []) "b"
