-- ===== src/ApiServer/Willing.antt =====
-- An API server that refuses nothing without need: no request fails, what is missing can be created,
-- and what is there can be updated. Against it the writes of the Kubernetes layer succeed.
use nacos_k8s.Base.{String, ◌≡◌, refl, sym, ◌∙◌, ap, Option, none, some}
use mathlib.Core.Path.{subst}
use nacos_k8s.Errors.{not_found, failure, done}
use nacos_k8s.Kube.{ObjectMeta, ConfigMap, StatefulSet, Service, Job}
use nacos_k8s.Api.{Nacos}
use nacos_k8s.Environment.{Environment, Api, Reply, got, refused}
use nacos_k8s.ApiServer.{IsServer, config_map, stateful_set, service, job, Answers}
use nacos_k8s.Services.ConfigMaps.{
  create_config_map, create_missing_config_map, create_if_not_exists_config_map,
}
use nacos_k8s.Services.Jobs.{get_job, create_job, create_missing_job, create_if_not_exists_job}
use nacos_k8s.Services.NetServices.{
  get_service, create_service, update_service, on_top_of, write_service, create_or_update_service,
  create_missing_service, create_if_not_exists_service,
}
use nacos_k8s.Services.StatefulSets.{
  get_stateful_set, create_stateful_set, write_stateful_set, create_or_update_stateful_set,
}

pub record IsWillingClient {K O : Type 0} (read : K → String → String → Option O)
    (meta : O → ObjectMeta) (api : Api K O) : Type 0 where
  pub get_works :
      (namespace name : String) (k : K) (t : String)
      → (api.get namespace name k).0 ≡ refused (failure t)
      → ⊥
  pub create_works :
      (namespace : String) (object : O) (k : K)
      → read k namespace (meta object).name ≡ none
      → (api.create namespace object k).0 ≡ none
  pub update_works :
      (namespace : String) (object stored : O) (k : K)
      → read k namespace (meta object).name ≡ some stored
      → (api.update namespace object k).0 ≡ none
  pub update_misses :
      (namespace : String) (object : O) (k : K)
      → read k namespace (meta object).name ≡ none
      → ((t : String) × ((api.update namespace object k).0 ≡ some (not_found t)))
        × (read (api.update namespace object k).1 namespace (meta object).name ≡ none)

pub record IsWilling {K : Type 0} (e : Environment K) (s : IsServer e) : Type 0 where
  pub config_maps : IsWillingClient (λ k a b. s.view k (config_map a b)) (λ x. x.meta) e.config_maps
  pub stateful_sets :
      IsWillingClient (λ k a b. s.view k (stateful_set a b)) (λ x. x.meta) e.stateful_sets
  pub services : IsWillingClient (λ k a b. s.view k (service a b)) (λ x. x.meta) e.services
  pub jobs : IsWillingClient (λ k a b. s.view k (job a b)) (λ x. x.meta) e.jobs
  pub owns :
      (nacos : Nacos) (m : ObjectMeta)
      → (m' : ObjectMeta) × (e.set_controller_reference nacos m ≡ got m')

module _ {K : Type 0} (e : Environment K) (s : IsServer e) (w : IsWilling e s) where
  pub create_if_not_exists_config_map-works :
      (namespace : String) (cm : ConfigMap) (k : K)
      → (create_if_not_exists_config_map e.config_maps namespace cm k).0 ≡ done none
  unfolding create_if_not_exists_config_map create_missing_config_map create_config_map
  create_if_not_exists_config_map-works namespace cm k =
      split (s.view k (config_map namespace cm.meta.name)) refl
    where
      split :
          (held : Option ConfigMap)
          → s.view k (config_map namespace cm.meta.name) ≡ held
          → (create_if_not_exists_config_map e.config_maps namespace cm k).0 ≡ done none
      split (some x) p = rw (w.config_maps.update_works namespace cm x k p) refl
      split none p =
          let misses = w.config_maps.update_misses namespace cm k p in
          rw (misses.0).1 (ap done (w.config_maps.create_works namespace cm _ misses.1))

  missing_job-works :
      (namespace : String) (j : Job) (r : Reply Job) (k : K)
      → Answers r (s.view k (job namespace j.meta.name))
      → ((t : String) → r ≡ refused (failure t) → ⊥)
      → (create_missing_job e.jobs namespace j r k).0 ≡ done none
  unfolding create_missing_job create_job
  missing_job-works namespace j (got x) k a h = refl
  missing_job-works namespace j (refused (not_found t)) k a h =
      ap done (w.jobs.create_works namespace j k a)
  missing_job-works namespace j (refused (failure t)) k a h = absurd (h t refl)

  pub create_if_not_exists_job-works :
      (namespace : String) (j : Job) (k : K)
      → (create_if_not_exists_job e.jobs namespace j k).0 ≡ done none
  unfolding create_if_not_exists_job get_job
  create_if_not_exists_job-works namespace j k =
      missing_job-works namespace j (e.jobs.get namespace j.meta.name k).0 _
        (subst (Answers _)
          (sym (s.jobs.get_same namespace j.meta.name k (job namespace j.meta.name)))
          (s.jobs.get_answers namespace j.meta.name k))
        (w.jobs.get_works namespace j.meta.name k)

  missing_service-works :
      (namespace : String) (svc : Service) (r : Reply Service) (k : K)
      → Answers r (s.view k (service namespace svc.meta.name))
      → ((t : String) → r ≡ refused (failure t) → ⊥)
      → (create_missing_service e.services namespace svc r k).0 ≡ done none
  unfolding create_missing_service create_service
  missing_service-works namespace svc (got x) k a h = refl
  missing_service-works namespace svc (refused (not_found t)) k a h =
      ap done (w.services.create_works namespace svc k a)
  missing_service-works namespace svc (refused (failure t)) k a h = absurd (h t refl)

  write_service-works :
      (namespace : String) (svc : Service) (r : Reply Service) (k : K)
      → Answers r (s.view k (service namespace svc.meta.name))
      → ((t : String) → r ≡ refused (failure t) → ⊥)
      → (write_service e.services namespace svc r k).0 ≡ done none
  unfolding write_service create_service update_service on_top_of
  write_service-works namespace svc (got x) k a h =
      ap done (w.services.update_works namespace (on_top_of x svc) x k a)
  write_service-works namespace svc (refused (not_found t)) k a h =
      ap done (w.services.create_works namespace svc k a)
  write_service-works namespace svc (refused (failure t)) k a h = absurd (h t refl)

  service-Answers :
      (namespace name : String) (k : K)
      → Answers
          (e.services.get namespace name k).0
          (s.view (e.services.get namespace name k).1 (service namespace name))
  service-Answers namespace name k =
      subst (Answers _) (sym (s.services.get_same namespace name k (service namespace name)))
        (s.services.get_answers namespace name k)

  pub create_if_not_exists_service-works :
      (namespace : String) (svc : Service) (k : K)
      → (create_if_not_exists_service e.services namespace svc k).0 ≡ done none
  unfolding create_if_not_exists_service get_service
  create_if_not_exists_service-works namespace svc k =
      missing_service-works namespace svc (e.services.get namespace svc.meta.name k).0 _
        (service-Answers namespace svc.meta.name k) (w.services.get_works namespace svc.meta.name k)

  pub create_or_update_service-works :
      (namespace : String) (svc : Service) (k : K)
      → (create_or_update_service e.services namespace svc k).0 ≡ done none
  unfolding create_or_update_service get_service
  create_or_update_service-works namespace svc k =
      write_service-works namespace svc (e.services.get namespace svc.meta.name k).0 _
        (service-Answers namespace svc.meta.name k) (w.services.get_works namespace svc.meta.name k)

  missing_set-works :
      (namespace : String) (ss : StatefulSet) (r : Reply StatefulSet) (k : K)
      → Answers r (s.view k (stateful_set namespace ss.meta.name))
      → s.view k (stateful_set namespace ss.meta.name) ≡ none
      → ((t : String) → r ≡ refused (failure t) → ⊥)
      → (write_stateful_set e namespace ss r k).0 ≡ done none
  unfolding write_stateful_set create_stateful_set
  missing_set-works namespace ss (got x) k a n h = absurd (cc (a, n))
  missing_set-works namespace ss (refused (not_found t)) k a n h =
      ap done (w.stateful_sets.create_works namespace ss k n)
  missing_set-works namespace ss (refused (failure t)) k a n h = absurd (h t refl)

  -- where there is no stateful set of that name yet
  pub create_stateful_set-works :
      (namespace : String) (ss : StatefulSet) (k : K)
      → s.view k (stateful_set namespace ss.meta.name) ≡ none
      → (create_or_update_stateful_set e namespace ss k).0 ≡ done none
  unfolding create_or_update_stateful_set get_stateful_set
  create_stateful_set-works namespace ss k n =
      let same =
        s.stateful_sets.get_same namespace ss.meta.name k (stateful_set namespace ss.meta.name) in
      missing_set-works namespace ss (e.stateful_sets.get namespace ss.meta.name k).0 _
        (subst (Answers _) (sym same) (s.stateful_sets.get_answers namespace ss.meta.name k))
        (same ∙ n) (w.stateful_sets.get_works namespace ss.meta.name k)
