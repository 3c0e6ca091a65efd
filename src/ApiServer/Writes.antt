-- ===== src/ApiServer/Writes.antt =====
-- Each write of the Kubernetes layer changes one object at most.
use nacos_k8s.Base.{String, ◌≡◌, sym, ◌∙◌, Option, none, some}
use mathlib.Core.Path.{subst}
use nacos_k8s.Errors.{Error, not_found, failure}
use nacos_k8s.Kube.{ObjectMeta, ConfigMap, StatefulSet, Service, Job}
use nacos_k8s.Environment.{Environment, Api, Reply, got, refused, call}
use nacos_k8s.ApiServer.{
  Key, Cluster, IsClient, IsServer, config_map, stateful_set, service, job, Answers,
}
use nacos_k8s.ApiServer.Frame.{
  one-Within, Frames, Frames->>=, Frames-lift->>=, pure-Frames, call-Frames, still-Frames,
}
use nacos_k8s.Services.ConfigMaps.{
  create_config_map, create_missing_config_map, create_if_not_exists_config_map,
}
use nacos_k8s.Services.Jobs.{get_job, create_job, create_missing_job, create_if_not_exists_job}
use nacos_k8s.Services.NetServices.{
  get_service, create_service, update_service, on_top_of, write_service, create_or_update_service,
  create_missing_service, create_if_not_exists_service,
}
use nacos_k8s.Services.StatefulSets.{
  Operator, keep, update, delete, get_stateful_set, create_stateful_set, check_sts, apply_operator,
  write_stateful_set, create_or_update_stateful_set,
}

module _ {K O : Type 0} (view : K → Cluster) (read : K → String → String → Option O)
    (key : String → String → Key) (meta : O → ObjectMeta) (Like : O → O → Type 0) (api : Api K O)
    (c : IsClient view read key meta Like api) (Own : Key → Type 0) where
  get-Frames : (namespace name : String) → Frames view Own (call (api.get namespace name))
  get-Frames namespace name =
      still-Frames view Own (api.get namespace name) (c.get_same namespace name)

  create-Frames :
      (namespace : String) (object : O)
      → Own (key namespace (meta object).name)
      → Frames view Own (call (api.create namespace object))
  create-Frames namespace object own =
      call-Frames view Own (api.create namespace object)
        λ k. one-Within Own _ _ _ own (c.create_within namespace object k)

  update-Frames :
      (namespace : String) (object : O)
      → Own (key namespace (meta object).name)
      → Frames view Own (call (api.update namespace object))
  update-Frames namespace object own =
      call-Frames view Own (api.update namespace object)
        λ k. one-Within Own _ _ _ own (c.update_within namespace object k)

  delete-Frames :
      (namespace name : String)
      → Own (key namespace name)
      → Frames view Own (call (api.delete namespace name))
  delete-Frames namespace name own =
      call-Frames view Own (api.delete namespace name)
        λ k. one-Within Own _ _ _ own (c.delete_within namespace name k)

module _ {K : Type 0} (e : Environment K) (s : IsServer e) (Own : Key → Type 0) where
  pub create_if_not_exists_config_map-Frames :
      (namespace : String) (cm : ConfigMap)
      → Own (config_map namespace cm.meta.name)
      → Frames s.view Own (create_if_not_exists_config_map e.config_maps namespace cm)
  unfolding create_if_not_exists_config_map create_config_map
  create_if_not_exists_config_map-Frames namespace cm own =
      Frames->>= s.view Own (call (e.config_maps.update namespace cm)) _
        (update-Frames s.view _ config_map _ _ e.config_maps s.config_maps Own namespace cm own)
        missing
    where
      missing :
          (err : Option Error)
          → Frames s.view Own (create_missing_config_map e.config_maps namespace cm err)
      missing none = pure-Frames s.view Own none
      missing (some (not_found t)) =
          create-Frames s.view _ config_map _ _ e.config_maps s.config_maps Own namespace cm own
      missing (some (failure t)) = pure-Frames s.view Own (some (failure t))

  pub create_if_not_exists_job-Frames :
      (namespace : String) (j : Job)
      → Own (job namespace j.meta.name)
      → Frames s.view Own (create_if_not_exists_job e.jobs namespace j)
  unfolding create_if_not_exists_job get_job create_job
  create_if_not_exists_job-Frames namespace j own =
      Frames->>= s.view Own (call (e.jobs.get namespace j.meta.name)) _
        (get-Frames s.view _ job _ _ e.jobs s.jobs Own namespace j.meta.name) missing
    where
      missing : (r : Reply Job) → Frames s.view Own (create_missing_job e.jobs namespace j r)
      missing (got found) = pure-Frames s.view Own none
      missing (refused (not_found t)) =
          create-Frames s.view _ job _ _ e.jobs s.jobs Own namespace j own
      missing (refused (failure t)) = pure-Frames s.view Own (some (failure t))

  service_created-Frames :
      (namespace : String) (svc : Service)
      → Own (service namespace svc.meta.name)
      → Frames s.view Own (create_service e.services namespace svc)
  unfolding create_service
  service_created-Frames namespace svc own =
      create-Frames s.view _ service _ _ e.services s.services Own namespace svc own

  pub create_if_not_exists_service-Frames :
      (namespace : String) (svc : Service)
      → Own (service namespace svc.meta.name)
      → Frames s.view Own (create_if_not_exists_service e.services namespace svc)
  unfolding create_if_not_exists_service get_service
  create_if_not_exists_service-Frames namespace svc own =
      Frames->>= s.view Own (call (e.services.get namespace svc.meta.name)) _
        (get-Frames s.view _ service _ _ e.services s.services Own namespace svc.meta.name) missing
    where
      missing :
          (r : Reply Service)
          → Frames s.view Own (create_missing_service e.services namespace svc r)
      missing (got found) = pure-Frames s.view Own none
      missing (refused (not_found t)) = service_created-Frames namespace svc own
      missing (refused (failure t)) = pure-Frames s.view Own (some (failure t))

  pub create_or_update_service-Frames :
      (namespace : String) (svc : Service)
      → Own (service namespace svc.meta.name)
      → Frames s.view Own (create_or_update_service e.services namespace svc)
  unfolding create_or_update_service get_service update_service on_top_of
  create_or_update_service-Frames namespace svc own =
      Frames->>= s.view Own (call (e.services.get namespace svc.meta.name)) _
        (get-Frames s.view _ service _ _ e.services s.services Own namespace svc.meta.name) written
    where
      written : (r : Reply Service) → Frames s.view Own (write_service e.services namespace svc r)
      written (got found) =
          update-Frames s.view _ service _ _ e.services s.services Own namespace
            (on_top_of found svc) own
      written (refused (not_found t)) = service_created-Frames namespace svc own
      written (refused (failure t)) = pure-Frames s.view Own (some (failure t))

  apply_operator-Frames :
      (op : Operator) (namespace : String) (stored ss : StatefulSet)
      → Own (stateful_set namespace ss.meta.name)
      → stored.meta.name ≡ ss.meta.name
      → Frames s.view Own (apply_operator e op namespace stored ss)
  unfolding apply_operator
  apply_operator-Frames keep namespace stored ss own h = pure-Frames s.view Own none
  apply_operator-Frames update namespace stored ss own h =
      update-Frames s.view _ stateful_set _ _ e.stateful_sets s.stateful_sets Own namespace
        (record ss { meta = record (ss.meta) { resource_version = stored.meta.resource_version } })
        own
  apply_operator-Frames delete namespace stored ss own h =
      delete-Frames s.view _ stateful_set _ _ e.stateful_sets s.stateful_sets Own namespace
        stored.meta.name (subst (λ n. Own (stateful_set namespace n)) (sym h) own)

  write_stateful_set-Frames :
      (namespace : String) (ss : StatefulSet) (r : Reply StatefulSet) (held : Option StatefulSet)
      → Own (stateful_set namespace ss.meta.name)
      → Answers r held
      → ((stored : StatefulSet) → held ≡ some stored → stored.meta.name ≡ ss.meta.name)
      → Frames s.view Own (write_stateful_set e namespace ss r)
  unfolding write_stateful_set create_stateful_set
  write_stateful_set-Frames namespace ss (got stored) held own a h =
      Frames-lift->>= s.view Own (check_sts e stored ss) _
        λ op p. apply_operator-Frames op namespace stored ss own (h stored a)
  write_stateful_set-Frames namespace ss (refused (not_found t)) held own a h =
      create-Frames s.view _ stateful_set _ _ e.stateful_sets s.stateful_sets Own namespace ss own
  write_stateful_set-Frames namespace ss (refused (failure t)) held own a h =
      pure-Frames s.view Own (some (failure t))

  pub create_or_update_stateful_set-Frames :
      (namespace : String) (ss : StatefulSet)
      → Own (stateful_set namespace ss.meta.name)
      → Frames s.view Own (create_or_update_stateful_set e namespace ss)
  unfolding create_or_update_stateful_set get_stateful_set
  create_or_update_stateful_set-Frames namespace ss own = record {
    framed = λ k q n.
        (write_stateful_set-Frames namespace ss _ _ own
            (s.stateful_sets.get_answers namespace ss.meta.name k)
            (s.stateful_sets.named namespace ss.meta.name k)).framed
          (e.stateful_sets.get namespace ss.meta.name k).1 q n
        ∙ s.stateful_sets.get_same namespace ss.meta.name k q;
  }
