-- ===== src/ApiServer/Stored.antt =====
-- What the cluster holds once a write of the Kubernetes layer has returned no error.
use nacos_k8s.Base.{String, ◌≡◌, refl, sym, ◌∙◌, ap, Option, none, some, arith}
use nacos_k8s.Errors.{Error, not_found, failure, done}
use nacos_k8s.Errors.Laws.{invert-pure}
use nacos_k8s.Kube.{ConfigMap, Service, Job}
use nacos_k8s.Environment.{Environment, Reply, got, refused}
use nacos_k8s.ApiServer.{IsServer, config_map, service, job, Answers, LikeConfigMap, LikeService}
use mathlib.Core.Path.{subst}
use nacos_k8s.ApiServer.Holds.{Holds, Exists}
use nacos_k8s.Services.NetServices.Laws.{call_lem}
use nacos_k8s.Services.ConfigMaps.{
  create_config_map, create_missing_config_map, create_if_not_exists_config_map,
}
use nacos_k8s.Services.Jobs.{get_job, create_job, create_missing_job, create_if_not_exists_job}
use nacos_k8s.Services.NetServices.{
  get_service, create_service, update_service, on_top_of, write_service, create_or_update_service,
  create_missing_service, create_if_not_exists_service,
}

module _ {K : Type 0} (e : Environment K) (s : IsServer e) where
  missing_config_map-Holds :
      (namespace : String) (cm : ConfigMap) (err : Option Error) (k0 k k' : K)
      → e.config_maps.update namespace cm k0 ≡ (err, k)
      → create_missing_config_map e.config_maps namespace cm err k ≡ (done none, k')
      → Holds (config_map namespace cm.meta.name) (λ held. LikeConfigMap held cm) (s.view k')
  unfolding create_missing_config_map create_config_map
  missing_config_map-Holds namespace cm none k0 k k' u p =
      s.config_maps.updated namespace cm k0 k' (u ∙ λ j. (none, (invert-pure none none k k' p).1 j))
  missing_config_map-Holds namespace cm (some (not_found t)) k0 k k' u p =
      s.config_maps.created namespace cm k k'
        (call_lem (e.config_maps.create namespace cm) none k k' p)
  missing_config_map-Holds namespace cm (some (failure t)) k0 k k' u p = ground (arith, p)

  pub create_if_not_exists_config_map-Holds :
      (namespace : String) (cm : ConfigMap) (k k' : K)
      → create_if_not_exists_config_map e.config_maps namespace cm k ≡ (done none, k')
      → Holds (config_map namespace cm.meta.name) (λ held. LikeConfigMap held cm) (s.view k')
  unfolding create_if_not_exists_config_map
  create_if_not_exists_config_map-Holds namespace cm k k' p =
      missing_config_map-Holds namespace cm (e.config_maps.update namespace cm k).0 k
        (e.config_maps.update namespace cm k).1 k' refl p

  missing_job-Exists :
      (namespace : String) (j : Job) (r : Reply Job) (k k' : K)
      → Answers r (s.view k (job namespace j.meta.name))
      → create_missing_job e.jobs namespace j r k ≡ (done none, k')
      → Exists (job namespace j.meta.name) (s.view k')
  unfolding create_missing_job create_job
  missing_job-Exists namespace j (got found) k k' a p = (
    found,
    ap (λ q. s.view q (job namespace j.meta.name)) (sym (invert-pure none none k k' p).1) ∙ a,
    tt,
  )
  missing_job-Exists namespace j (refused (not_found t)) k k' a p =
      let made =
        s.jobs.created namespace j k k' (call_lem (e.jobs.create namespace j) none k k' p) in
      (made.0, made.1, tt)
  missing_job-Exists namespace j (refused (failure t)) k k' a p = ground (arith, p)

  missing_service-Exists :
      (namespace : String) (svc : Service) (r : Reply Service) (k k' : K)
      → Answers r (s.view k (service namespace svc.meta.name))
      → create_missing_service e.services namespace svc r k ≡ (done none, k')
      → Exists (service namespace svc.meta.name) (s.view k')
  unfolding create_missing_service create_service
  missing_service-Exists namespace svc (got found) k k' a p = (
    found,
    ap (λ q. s.view q (service namespace svc.meta.name)) (sym (invert-pure none none k k' p).1) ∙ a,
    tt,
  )
  missing_service-Exists namespace svc (refused (not_found t)) k k' a p =
      let made =
        s.services.created namespace svc k k'
          (call_lem (e.services.create namespace svc) none k k' p) in
      (made.0, made.1, tt)
  missing_service-Exists namespace svc (refused (failure t)) k k' a p = ground (arith, p)

  write_service-Holds :
      (namespace : String) (svc : Service) (r : Reply Service) (k k' : K)
      → write_service e.services namespace svc r k ≡ (done none, k')
      → Holds (service namespace svc.meta.name) (λ held. LikeService held svc) (s.view k')
  unfolding write_service create_service update_service on_top_of
  write_service-Holds namespace svc (got found) k k' p =
      s.services.updated namespace (on_top_of found svc) k k'
        (call_lem (e.services.update namespace (on_top_of found svc)) none k k' p)
  write_service-Holds namespace svc (refused (not_found t)) k k' p =
      s.services.created namespace svc k k' (call_lem (e.services.create namespace svc) none k k' p)
  write_service-Holds namespace svc (refused (failure t)) k k' p = ground (arith, p)

  pub updated_service-Holds :
      (namespace : String) (svc : Service) (k k' : K)
      → create_or_update_service e.services namespace svc k ≡ (done none, k')
      → Holds (service namespace svc.meta.name) (λ held. LikeService held svc) (s.view k')
  unfolding create_or_update_service get_service
  updated_service-Holds namespace svc k k' p =
      write_service-Holds namespace svc (e.services.get namespace svc.meta.name k).0
        (e.services.get namespace svc.meta.name k).1 k' p

  pub create_if_not_exists_job-Exists :
      (namespace : String) (j : Job) (k k' : K)
      → create_if_not_exists_job e.jobs namespace j k ≡ (done none, k')
      → Exists (job namespace j.meta.name) (s.view k')
  unfolding create_if_not_exists_job get_job
  create_if_not_exists_job-Exists namespace j k k' p =
      let key = job namespace j.meta.name in
      let r = e.jobs.get namespace j.meta.name k in
      missing_job-Exists namespace j r.0 r.1 k'
        (subst (Answers r.0) (sym (s.jobs.get_same namespace j.meta.name k key))
          (s.jobs.get_answers namespace j.meta.name k))
        p

  pub create_if_not_exists_service-Exists :
      (namespace : String) (svc : Service) (k k' : K)
      → create_if_not_exists_service e.services namespace svc k ≡ (done none, k')
      → Exists (service namespace svc.meta.name) (s.view k')
  unfolding create_if_not_exists_service get_service
  create_if_not_exists_service-Exists namespace svc k k' p =
      let key = service namespace svc.meta.name in
      let r = e.services.get namespace svc.meta.name k in
      missing_service-Exists namespace svc r.0 r.1 k'
        (subst (Answers r.0) (sym (s.services.get_same namespace svc.meta.name k key))
          (s.services.get_answers namespace svc.meta.name k))
        p
