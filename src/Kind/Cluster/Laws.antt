-- ===== src/Kind/Cluster/Laws.antt =====
-- The list of addresses that every pod of a cluster gets.
use Prim.Native.Char.{Char}
use nacos_k8s.Base.{
  ℕ, zero, suc, ◌+◌, String, ◌≡◌, refl, sym, ◌∙◌, ap, Option, some, List, [], ◌∷◌, ◌++◌, concat,
  join, ℤ, pos, rounds,
}
use text.Mathlib.TextLemmas.{append-nil, nil-append, cons-append, append_assoc}
use nacos_k8s.Go.Format.{itoa}
use nacos_k8s.Errors.{Outcome, done, panic}
use nacos_k8s.Kube.{env_var, Container, StatefulSet}
use nacos_k8s.Api.{Nacos}
use nacos_k8s.Environment.{slice_out_of_range, and_then, dereference}
use nacos_k8s.Kind.StatefulSet.{nacos_port}
use nacos_k8s.Kind.Labels.{generate_headless_svc_name}
use nacos_k8s.Kind.Cluster.{
  find_domain, pod_domain, start_command, services_no_port_from, services_from,
  services_no_port_from, all_but_last, drop_last, clustered, build_statefulset_cluster,
}

-- The specification: the addresses of the pods `i`, ..., `i + n - 1`.
unfoldable pub addresses : Nacos → String → ℕ → ℕ → List String
addresses nacos domain zero i = []
addresses nacos domain (suc n) i =
    concat (pod_domain nacos domain i) (concat ":" (itoa nacos_port))
    ∷ addresses nacos domain n (i + 1)

-- The specification: the hosts of the same pods, without the port.
unfoldable pub hosts : Nacos → String → ℕ → ℕ → List String
hosts nacos domain zero i = []
hosts nacos domain (suc n) i = pod_domain nacos domain i ∷ hosts nacos domain n (i + 1)

-- each text with a space behind it
spaced : List String → String
spaced [] = ""
spaced (s ∷ r) = concat s (concat " " (spaced r))

spaced-join : (s : String) (r : List String) → spaced (s ∷ r) ≡ concat (join " " (s ∷ r)) " "
unfolding spaced join
spaced-join s [] = refl
spaced-join s (t ∷ r) =
    ap (λ u. concat s (concat " " u)) (spaced-join t r)
    ∙ ap (concat s) (sym (append_assoc " " (join " " (t ∷ r)) " "))
    ∙ sym (append_assoc s (concat " " (join " " (t ∷ r))) " ")

regroup :
    (a b c d r : String)
    → concat (concat a (concat b (concat c d))) r ≡ concat (concat a (concat b c)) (concat d r)
regroup a b c d r = simp append_assoc

services_from-spaced :
    (nacos : Nacos) (domain : String) (n i : ℕ) (service : String)
    → services_from nacos domain n i service ≡ concat service (spaced (addresses nacos domain n i))
unfolding services_from addresses spaced
services_from-spaced nacos domain zero i service = sym (append-nil service)
services_from-spaced nacos domain (suc n) i service =
    services_from-spaced nacos domain n (i + 1) _
    ∙ append_assoc service
        (concat (pod_domain nacos domain i) (concat ":" (concat (itoa nacos_port) " ")))
        (spaced (addresses nacos domain n (i + 1)))
    ∙ ap (concat service) (
        regroup (pod_domain nacos domain i) ":" (itoa nacos_port) " "
          (spaced (addresses nacos domain n (i + 1))))

all_but_last-space : (c : Char) (s : String) → all_but_last c (concat s " ") ≡ String.◌∷◌ c s
unfolding all_but_last
all_but_last-space c String.[] = refl
all_but_last-space c (String.◌∷◌ d s) = rw cons-append (ap (String.◌∷◌ c) (all_but_last-space d s))

drop_last-space : (s : String) → drop_last (concat s " ") ≡ done s
unfolding drop_last
drop_last-space String.[] = refl
drop_last-space (String.◌∷◌ c s) = rw cons-append (ap done (all_but_last-space c s))

-- With at least one replica, cutting the last byte off the text of the loop leaves the addresses of
-- all replicas, joined by single spaces.
pub drop_last-services_from :
    (nacos : Nacos) (domain : String) (n : ℕ)
    → drop_last (services_from nacos domain (suc n) 0 "")
      ≡ done (join " " (addresses nacos domain (suc n) 0))
unfolding addresses
drop_last-services_from nacos domain n =
    ap drop_last (
      services_from-spaced nacos domain (suc n) 0 ""
      ∙ nil-append (spaced (addresses nacos domain (suc n) 0))
      ∙ spaced-join (concat (pod_domain nacos domain 0) (concat ":" (itoa nacos_port)))
          (addresses nacos domain n (0 + 1)))
    ∙ drop_last-space (join " " (addresses nacos domain (suc n) 0))

services_no_port_from-spaced :
    (nacos : Nacos) (domain : String) (n i : ℕ) (text : String)
    → services_no_port_from nacos domain n i text ≡ concat text (spaced (hosts nacos domain n i))
unfolding services_no_port_from hosts spaced
services_no_port_from-spaced nacos domain zero i text = sym (append-nil text)
services_no_port_from-spaced nacos domain (suc n) i text =
    services_no_port_from-spaced nacos domain n (i + 1) _
    ∙ append_assoc text (concat (pod_domain nacos domain i) " ")
        (spaced (hosts nacos domain n (i + 1)))
    ∙ ap (concat text)
        (append_assoc (pod_domain nacos domain i) " " (spaced (hosts nacos domain n (i + 1))))

-- the text of the second loop is the hosts, joined by single spaces, and a last space
services_no_port_from-hosts :
    (nacos : Nacos) (domain : String) (n : ℕ)
    → services_no_port_from nacos domain (suc n) 0 ""
      ≡ concat (join " " (hosts nacos domain (suc n) 0)) " "
unfolding hosts
services_no_port_from-hosts nacos domain n =
    services_no_port_from-spaced nacos domain (suc n) 0 ""
    ∙ nil-append (spaced (hosts nacos domain (suc n) 0))
    ∙ spaced-join (pod_domain nacos domain 0) (hosts nacos domain n (0 + 1))

chain :
    (replicas : Option ℤ) (servers : ℤ → Outcome String) (waited : ℤ → String)
    → (containers : List Container) (built : List Container → StatefulSet)
    → (m : ℤ) (service names : String) (c : Container) (r : List Container) → replicas ≡ some m
    → servers m ≡ done service
    → waited m ≡ names
    → containers ≡ c ∷ r
    → and_then (dereference replicas) (λ m.
      and_then
        (servers m)
        (λ s. and_then (clustered s (waited m) containers) (λ cs. done (built cs))))
      ≡ done (
          built (
            record c {
              env = c.env ++ env_var "NACOS_SERVERS" service ∷ [];
              command = start_command names;
            }
            ∷ r))
unfolding clustered
chain replicas servers hosts containers built m service names c r p q t h = rw (p, q, t, h) refl

-- With n + 1 replicas and a first container, the cluster's stateful set is built, and it is the given
-- one with two changes. It names the headless service. Its first container gets, after its own
-- variables, NACOS_SERVERS with the addresses of all replicas joined by single spaces, and the command
-- that waits for the hosts of all replicas, which it names joined by single spaces and with a space
-- at the end.
pub build_cluster_servers :
    (nacos : Nacos) (ss : StatefulSet) (n : ℕ) (c : Container) (r : List Container)
    → nacos.spec.replicas ≡ some (pos (suc n))
    → ss.spec.template.spec.containers ≡ c ∷ r
    → build_statefulset_cluster nacos ss
      ≡ done (record ss {
        spec = record (ss.spec) {
          service_name = concat nacos.meta.name "-headless";
          template = record (ss.spec.template) {
            spec = record (ss.spec.template.spec) {
              containers =
                  record c {
                    env =
                        c.env
                        ++ env_var "NACOS_SERVERS" (
                            join " " (
                              addresses nacos
                                (find_domain "cluster.local" nacos.spec.env)
                                (suc n)
                                0))
                          ∷ [];
                    command = start_command (
                        concat
                          (join " "
                            (hosts nacos (find_domain "cluster.local" nacos.spec.env) (suc n) 0))
                          " ");
                  }
                  ∷ r;
            };
          };
        };
      })
unfolding build_statefulset_cluster generate_headless_svc_name
build_cluster_servers nacos ss n c r p q =
    let domain = find_domain "cluster.local" nacos.spec.env in
    chain nacos.spec.replicas (λ m. drop_last (services_from nacos domain (rounds m) 0 ""))
      (λ m. services_no_port_from nacos domain (rounds m) 0 "") ss.spec.template.spec.containers _
      (pos (suc n)) _ _ c r p (drop_last-services_from nacos domain n)
      (services_no_port_from-hosts nacos domain n) q

-- A cluster without replicas cannot be built: the code cuts a byte off an empty text and panics.
pub build_cluster_empty :
    (nacos : Nacos) (ss : StatefulSet) (replicas : ℤ)
    → nacos.spec.replicas ≡ some replicas
    → rounds replicas ≡ 0
    → build_statefulset_cluster nacos ss ≡ panic slice_out_of_range
unfolding build_statefulset_cluster services_from drop_last
build_cluster_empty nacos ss replicas p q = rw (p, q)
