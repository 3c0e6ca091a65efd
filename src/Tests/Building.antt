-- ===== src/Tests/Building.antt =====
-- The objects of one standalone server.
use nacos_k8s.Base.{◌≡◌, refl, some, []}
use nacos_k8s.Errors.{Outcome, done, panic}
use nacos_k8s.Kube.{StatefulSet, Service}
use nacos_k8s.Api.{Nacos, phase_none}
use nacos_k8s.Kind.StatefulSet.{build_statefulset}
use nacos_k8s.Kind.Objects.{build_service, build_client_service, build_headless_service_cluster}
use nacos_k8s.Kind.Objects.Selectors.{services_select_pods}
use nacos_k8s.Tests.{in_order, a_nacos, a_cluster, a_stateful_set, a_service}

abbrev new : Nacos
new = a_nacos phase_none

-- the value of an outcome, or another one
abbrev value_or {ℓ} : {A : Type ℓ} → A → Outcome A → A
value_or b (done a) = a
value_or b (panic f) = b

abbrev built : StatefulSet
built = value_or a_stateful_set (build_statefulset in_order a_cluster new)

abbrev served : Service
served = value_or a_service (build_service in_order a_cluster new)

abbrev for_clients : Service
for_clients = value_or a_service (build_client_service in_order a_cluster new)

builds : build_statefulset in_order a_cluster new ≡ done built
unfolding build_statefulset
builds = refl

serves : build_service in_order a_cluster new ≡ done served
unfolding build_service
serves = refl

serves_clients : build_client_service in_order a_cluster new ≡ done for_clients
unfolding build_client_service
serves_clients = refl

services_select_pods_example :
    (served.spec.selector ≡ built.spec.template.labels)
    × (for_clients.spec.selector ≡ built.spec.template.labels)
    × ((build_headless_service_cluster served new).spec.selector ≡ built.spec.template.labels)
    × (built.spec.selector
        ≡ some (record { match_labels = built.spec.template.labels; match_expressions = [] }))
services_select_pods_example =
    services_select_pods in_order a_cluster new built served for_clients builds serves
      serves_clients
