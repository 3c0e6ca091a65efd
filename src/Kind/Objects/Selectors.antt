-- ===== src/Kind/Objects/Selectors.antt =====
-- Which pods the services select.
use nacos_k8s.Base.{
  String, ◌≡◌, refl, ap, sym, ◌∙◌, Bool, true, false, Option, some, [], if◌then◌else◌,
}
use nacos_k8s.Go.Maps.{Map, RangeOrder}
use nacos_k8s.Errors.{done}
use nacos_k8s.Kube.{LabelSelector, StatefulSet, Service}
use nacos_k8s.Api.{Nacos}
use nacos_k8s.Errors.Laws.{invert-and_then, done_injective}
use nacos_k8s.Environment.{Environment}
use nacos_k8s.Kind.Env.{build_env}
use nacos_k8s.Kind.Labels.{nacos_labels}
use nacos_k8s.Kind.StatefulSet.{
  controlled, add_check_database, build_statefulset, stateful_set, sets_up_mysql,
}
use nacos_k8s.Kind.Objects.{build_service, build_client_service, build_headless_service_cluster}

-- the labels that a stateful set gives its pods, and those that it selects them by
abbrev pub pod_labels : StatefulSet → Map String × Option LabelSelector
pod_labels ss = (ss.spec.template.labels, ss.spec.selector)

pod_labels-if :
    (b : Bool) (nacos : Nacos) (ss : StatefulSet)
    → pod_labels (if b then add_check_database nacos ss else ss) ≡ pod_labels ss
unfolding add_check_database
pod_labels-if true nacos ss = refl
pod_labels-if false nacos ss = refl

pod_labels-built :
    (b : Bool) (nacos : Nacos) (ss0 ss : StatefulSet)
    → done (if b then add_check_database nacos ss0 else ss0) ≡ done ss
    → pod_labels ss ≡ pod_labels ss0
pod_labels-built b nacos ss0 ss h =
    ap pod_labels (sym (done_injective _ ss h)) ∙ pod_labels-if b nacos ss0

module _ (o : RangeOrder) {K : Type 0} (e : Environment K) where
  pod_labels-build_statefulset :
      (nacos : Nacos) (ss : StatefulSet)
      → build_statefulset o e nacos ≡ done ss
      → pod_labels ss ≡ (
        nacos_labels o nacos,
        some (record { match_labels = nacos_labels o nacos; match_expressions = [] }),
      )
  unfolding build_statefulset stateful_set
  pod_labels-build_statefulset nacos ss h =
      let env = invert-and_then (build_env nacos.spec) _ ss h in
      let meta = invert-and_then (controlled e nacos _) _ ss env.2 in
      pod_labels-built (sets_up_mysql nacos) nacos
        (stateful_set nacos (nacos_labels o nacos) env.0 meta.0) ss meta.2

  selector-build_service :
      (nacos : Nacos) (svc : Service)
      → build_service o e nacos ≡ done svc
      → svc.spec.selector ≡ nacos_labels o nacos
  unfolding build_service
  selector-build_service nacos svc h =
      let meta = invert-and_then (controlled e nacos _) _ svc h in
      ap (λ s. s.spec.selector) (sym (done_injective _ svc meta.2))

  selector-build_client_service :
      (nacos : Nacos) (svc : Service)
      → build_client_service o e nacos ≡ done svc
      → svc.spec.selector ≡ nacos_labels o nacos
  unfolding build_client_service
  selector-build_client_service nacos svc h =
      let meta = invert-and_then (controlled e nacos _) _ svc h in
      ap (λ s. s.spec.selector) (sym (done_injective _ svc meta.2))

  -- Whenever the stateful set, the service and the client service of a resource can be built, the two
  -- services, and the headless one made from the first, select by exactly the labels that the
  -- stateful set gives its pods, and the stateful set selects by these labels too.
  pub services_select_pods :
      (nacos : Nacos) (ss : StatefulSet) (svc client : Service)
      → build_statefulset o e nacos ≡ done ss
      → build_service o e nacos ≡ done svc
      → build_client_service o e nacos ≡ done client
      → (svc.spec.selector ≡ ss.spec.template.labels)
        × (client.spec.selector ≡ ss.spec.template.labels)
        × ((build_headless_service_cluster svc nacos).spec.selector ≡ ss.spec.template.labels)
        × (ss.spec.selector
            ≡ some (record { match_labels = ss.spec.template.labels; match_expressions = [] }))
  unfolding build_headless_service_cluster
  services_select_pods nacos ss svc client p q r =
      let pods = pod_labels-build_statefulset nacos ss p in
      let given = sym (ap (λ t. t.0) pods) in
      let own = selector-build_service nacos svc q ∙ given in
      (
        own,
        selector-build_client_service nacos client r ∙ given,
        own,
        ap (λ t. t.1) pods
            ∙ ap (λ l. some (record { match_labels = l; match_expressions = [] })) given,
      )
