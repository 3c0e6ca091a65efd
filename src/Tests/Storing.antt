-- ===== src/Tests/Storing.antt =====
-- A store for one service.
use nacos_k8s.Base.{◌≡◌, refl, ap, sym, Option, some, none, [], ◌∷◌, pos, true}
use nacos_k8s.Errors.{done, not_found}
use nacos_k8s.Kube.{Service, new_meta}
use nacos_k8s.Environment.{Api, Reply, got, refused}
use nacos_k8s.Services.NetServices.{create_or_update_service}
use nacos_k8s.Services.NetServices.Laws.{Holds, IsStore, create_or_update_service-Holds}

abbrev read : Option Service → Reply Service
read none = refused (not_found "no service")
read (some service) = got service

abbrev one_service : Api (Option Service) Service
one_service = record {
  get = λ namespace name k. (read k, k);
  create = λ namespace service k. (none, some service);
  update = λ namespace service k. (none, some service);
  delete = λ namespace name k. (none, none);
  list = λ namespace k. (got [], k);
}

one_service-IsStore : IsStore one_service
one_service-IsStore = record {
  created = λ namespace service k k' p. (service, ap (λ q. read q.1) (sym p), (refl, refl, refl));
  updated = λ namespace service k k' p. (service, ap (λ q. read q.1) (sym p), (refl, refl, refl));
}

abbrev a_service : Service
a_service = record {
  meta = new_meta "one" "default";
  spec = record {
    publish_not_ready_addresses = true;
    ports = record { name = "client"; port = pos 8848; protocol = "TCP" } ∷ [];
    selector = ("app", "one") ∷ [];
    cluster_ip = "";
    ip_families = [];
    ip_family_policy = none;
  };
}

-- the service that is stored first, with an address of its own and no ports
abbrev an_old_service : Service
an_old_service = record a_service {
  spec = record (a_service.spec) { ports = []; cluster_ip = "10.1.0.1" };
}

abbrev rewritten : Option Service
rewritten = (create_or_update_service one_service "default" a_service (some an_old_service)).1

rewrites :
    create_or_update_service one_service "default" a_service (some an_old_service)
    ≡ (done none, rewritten)
unfolding create_or_update_service
rewrites = refl

create_or_update_service-Holds_example : Holds one_service "default" a_service rewritten
create_or_update_service-Holds_example =
    create_or_update_service-Holds one_service "default" a_service (some an_old_service) rewritten
      one_service-IsStore rewrites
