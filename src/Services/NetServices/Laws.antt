-- ===== src/Services/NetServices/Laws.antt =====
-- What the cluster holds once a service has been created or updated.
use nacos_k8s.Base.{String, ◌≡◌, none, arith}
use nacos_k8s.Errors.{not_found, failure, done}
use nacos_k8s.Errors.Laws.{invert-pure}
use nacos_k8s.Kube.{Service}
use nacos_k8s.Environment.{Api, Reply, got, refused, call}
use nacos_k8s.Services.NetServices.{
  get_service, create_service, update_service, on_top_of, write_service, create_or_update_service,
}

-- a stored service that does what the given one asks for
abbrev pub Serves : Service → Service → Type 0
Serves stored service =
    (stored.spec.selector ≡ service.spec.selector)
    × (stored.spec.ports ≡ service.spec.ports)
    × (stored.spec.publish_not_ready_addresses ≡ service.spec.publish_not_ready_addresses)

pub call_lem :
    {K A : Type 0} (m : K → A × K) (a : A) (k k' : K) → call m k ≡ (done a, k') → m k ≡ (a, k')
call_lem m a k k' h = let i = invert-pure (m k).0 a (m k).1 k' h in λ j. (i.0 j, i.1 j)

module _ {K : Type 0} (api : Api K Service) where
  abbrev pub Holds : String → Service → K → Type 0
  Holds namespace service k =
      (stored : Service) × ((api.get namespace service.meta.name k).0 ≡ got stored)
      × Serves stored service

  -- The documented promise of the API server: what an accepted request has written is read back.
  pub record IsStore : Type 0 where
    pub created :
        (namespace : String) (service : Service) (k k' : K)
        → api.create namespace service k ≡ (none, k')
        → Holds namespace service k'
    pub updated :
        (namespace : String) (service : Service) (k k' : K)
        → api.update namespace service k ≡ (none, k')
        → Holds namespace service k'

  write_service-Holds :
      (found : Reply Service) (namespace : String) (service : Service) (k k' : K)
      → IsStore
      → write_service api namespace service found k ≡ (done none, k')
      → Holds namespace service k'
  unfolding write_service create_service update_service on_top_of
  write_service-Holds (refused (not_found s)) namespace service k k' h p =
      h.created namespace service k k' (call_lem (api.create namespace service) none k k' p)
  write_service-Holds (refused (failure s)) namespace service k k' h p = ground (arith, p)
  write_service-Holds (got old) namespace service k k' h p =
      h.updated namespace (on_top_of old service) k k'
        (call_lem (api.update namespace (on_top_of old service)) none k k' p)

  -- When creating or updating a service returns no error, the cluster holds a service with its name
  -- that has its selector, its ports and its choice about pods that are not ready, provided that the
  -- API server keeps what it accepts.
  pub create_or_update_service-Holds :
      (namespace : String) (service : Service) (k k' : K)
      → IsStore
      → create_or_update_service api namespace service k ≡ (done none, k')
      → Holds namespace service k'
  unfolding create_or_update_service get_service
  create_or_update_service-Holds namespace service k k' h p =
      write_service-Holds (api.get namespace service.meta.name k).0 namespace service
        (api.get namespace service.meta.name k).1 k' h p
