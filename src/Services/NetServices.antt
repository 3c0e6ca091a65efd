-- ===== src/Services/NetServices.antt =====
-- operator/pkg/service/k8s/service.go
pub mod Laws
use nacos_k8s.Base.{String, Option, none, some, List}
use nacos_k8s.Errors.{Error, not_found, failure, Exec, pure, ◌>>=◌}
use nacos_k8s.Kube.{Service}
use nacos_k8s.Environment.{Reply, got, refused, Api, call}

-- the service that `CreateOrUpdateService` sends where one is stored
unfoldable pub on_top_of : Service → Service → Service
on_top_of stored service = record service {
  meta = record (service.meta) { resource_version = stored.meta.resource_version };
  spec = record (service.spec) { cluster_ip = stored.spec.cluster_ip };
}

module _ {K : Type 0} (api : Api K Service) where
  unfoldable pub get_service : String → String → Exec K (Reply Service)
  get_service namespace name = call (api.get namespace name)

  unfoldable pub create_service : String → Service → Exec K (Option Error)
  create_service namespace service = call (api.create namespace service)

  -- what `CreateIfNotExistsService` does with the answer to its request
  unfoldable pub create_missing_service : String → Service → Reply Service → Exec K (Option Error)
  unfolding create_service
  create_missing_service namespace service (refused (not_found s)) =
      create_service namespace service
  create_missing_service namespace service (refused (failure s)) = pure (some (failure s))
  create_missing_service namespace service (got found) = pure none

  unfoldable pub create_if_not_exists_service : String → Service → Exec K (Option Error)
  unfolding get_service create_missing_service
  create_if_not_exists_service namespace service = do
    stored ← get_service namespace service.meta.name
    create_missing_service namespace service stored

  unfoldable pub update_service : String → Service → Exec K (Option Error)
  update_service namespace service = call (api.update namespace service)

  -- what `CreateOrUpdateService` does with the answer to its request
  unfoldable pub write_service : String → Service → Reply Service → Exec K (Option Error)
  unfolding create_service update_service on_top_of
  write_service namespace service (refused (not_found s)) = create_service namespace service
  write_service namespace service (refused (failure s)) = pure (some (failure s))
  write_service namespace service (got found) = update_service namespace (on_top_of found service)

  unfoldable pub create_or_update_service : String → Service → Exec K (Option Error)
  unfolding get_service write_service
  create_or_update_service namespace service = do
    stored ← get_service namespace service.meta.name
    write_service namespace service stored

  unfoldable pub delete_service : String → String → Exec K (Option Error)
  delete_service namespace name = call (api.delete namespace name)

  unfoldable pub list_services : String → Exec K (Reply (List Service))
  list_services namespace = call (api.list namespace)
