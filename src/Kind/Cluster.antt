-- ===== src/Kind/Cluster.antt =====
-- Kind.go: `buildStatefulsetCluster`, which tells each pod the addresses of all pods.

pub mod Laws
use Prim.Native.Char.{Char}
use nacos_k8s.Base.{
  ℕ, zero, suc, ◌+◌, String, List, [], ◌∷◌, ◌++◌, ◌==◌, ◌&&◌, not, if◌then◌else◌, concat, pos,
  rounds,
}
use nacos_k8s.Go.Format.{itoa, sprintf}
use nacos_k8s.Errors.{Outcome, done, panic}
use nacos_k8s.Kube.{EnvVar, env_var, Container, StatefulSet}
use nacos_k8s.Api.{Nacos}
use nacos_k8s.Environment.{and_then, dereference, index_out_of_range, slice_out_of_range}
use nacos_k8s.Kind.Labels.{generate_name, generate_headless_svc_name}
use nacos_k8s.Kind.StatefulSet.{nacos_port}

abbrev pub init_scrit : String
init_scrit =
    "for element in %s\ndo\n  while true\n  do\n    if ping \"$element\" -c 1 > /dev/stdout 2>&1; then\n      echo \"$element all domain ready\"\n      break\n    else\n      echo \"$element wait for other domain ready\"\n    fi\n    sleep 1\n  done\ndone\nsleep 1\n\necho \"init success\""

-- the loop over the environment; the last variable that fits wins
unfoldable pub find_domain : String → List EnvVar → String
find_domain domain [] = domain
find_domain domain (env ∷ r) =
    find_domain (if env.name == "DOMAIN_NAME" && not (env.value == "") then env.value else domain) r

-- `fmt.Sprintf("%v-%d.%v.%v.%v.%v", name, i, headless, namespace, "svc", domain)`
unfoldable pub pod_domain : Nacos → String → ℕ → String
unfolding itoa sprintf generate_name generate_headless_svc_name
pod_domain nacos domain i = sprintf "%v-%d.%v.%v.%v.%v" (
    generate_name nacos
    ∷ itoa (pos i)
    ∷ generate_headless_svc_name nacos
    ∷ nacos.meta.namespace
    ∷ "svc"
    ∷ domain
    ∷ [])

-- the loop from `i`, with `n` rounds to go; each round appends the address, its port and a space
unfoldable pub services_from : Nacos → String → ℕ → ℕ → String → String
unfolding pod_domain itoa
services_from nacos domain zero i service = service
services_from nacos domain (suc n) i service = services_from nacos domain n (i + 1) (
    concat service (concat (pod_domain nacos domain i) (concat ":" (concat (itoa nacos_port) " "))))

unfoldable pub services_no_port_from : Nacos → String → ℕ → ℕ → String → String
unfolding pod_domain
services_no_port_from nacos domain zero i service = service
services_no_port_from nacos domain (suc n) i service =
    services_no_port_from nacos domain n (i + 1)
      (concat service (concat (pod_domain nacos domain i) " "))

all_but_last : Char → String → String
all_but_last c String.[] = ""
all_but_last c (String.◌∷◌ d s) = String.◌∷◌ c (all_but_last d s)

-- `s[0 : len(s)-1]`, where the last character is one byte
unfoldable pub drop_last : String → Outcome String
unfolding all_but_last
drop_last String.[] = panic slice_out_of_range
drop_last (String.◌∷◌ c s) = done (all_but_last c s)

-- the command that waits for all hosts and then starts the server
unfoldable pub start_command : String → List String
unfolding sprintf
start_command no_port =
    "sh"
    ∷ "-c"
    ∷ sprintf "%s && exec bin/docker-startup.sh" (sprintf init_scrit (no_port ∷ []) ∷ [])
    ∷ []

-- the changes to the first container
unfoldable pub clustered : String → String → List Container → Outcome (List Container)
clustered service no_port [] = panic index_out_of_range
clustered service no_port (c ∷ r) = done (
    record c {
      env = c.env ++ env_var "NACOS_SERVERS" service ∷ [];
      command = start_command no_port;
    }
    ∷ r)

-- the stateful set with these containers, which names the headless service
abbrev pub clustered_set : Nacos → StatefulSet → List Container → StatefulSet
unfolding generate_headless_svc_name
clustered_set nacos ss containers = record ss {
  spec = record (ss.spec) {
    service_name = generate_headless_svc_name nacos;
    template = record (ss.spec.template) {
      spec = record (ss.spec.template.spec) { containers = containers };
    };
  };
}

unfoldable pub build_statefulset_cluster : Nacos → StatefulSet → Outcome StatefulSet
unfolding find_domain services_from services_no_port_from drop_last clustered
    generate_headless_svc_name
build_statefulset_cluster nacos ss =
    let domain = find_domain "cluster.local" nacos.spec.env in
    and_then (dereference nacos.spec.replicas) λ replicas.
      and_then (drop_last (services_from nacos domain (rounds replicas) 0 "")) λ service.
        and_then
          (clustered service (services_no_port_from nacos domain (rounds replicas) 0 "")
            ss.spec.template.spec.containers)
          λ containers. done (clustered_set nacos ss containers)
