-- ===== src/Tests/Memory/Holding.antt =====
-- A reconciliation against the API server in memory, in which another resource has a config map.
use nacos_k8s.Base.{
  pos, inl, String, ◌≡◌, refl, true, false, none, some, [], ◌∷◌, ◌==◌, ◌||◌, ◌&&◌, if◌then◌else◌,
}
use nacos_k8s.Kube.{new_meta}
use nacos_k8s.Errors.{done}
use nacos_k8s.Api.{Nacos, phase_creating}
use nacos_k8s.ApiServer.{Key, config_map, stateful_set, service, job}
use nacos_k8s.Kind.Defaults.{
  type_stand_alone, validation_field, set_default_certification, set_default_mysql,
  set_default_nacos_type, mysql_only, default_type,
}
use nacos_k8s.Merge.Containers.{containers}
use nacos_k8s.Go.Sort.{slice_stable}
use nacos_k8s.Go.Maps.{values, put}
use nacos_k8s.Kind.Ensure.Owned.{
  OwnedBy, own_config_map, own_sql_config_map, own_job, own_stateful_set, own_service, own_headless,
  own_client,
}
use nacos_k8s.Operator.World.{World}
use nacos_k8s.Operator.Creates.{IsAbsent, make_ensure-returns}
use nacos_k8s.Operator.Stages.{make_ensure}
use nacos_k8s.Operator.Provided.{Provided}
use nacos_k8s.Controller.{reconcile, reconcile_work}
use nacos_k8s.Controller.Owned.{reconcile-Within}
use nacos_k8s.Controller.Provided.{Scaled, reconcile_work-Provided}
use nacos_k8s.Tests.{in_order, a_nacos}
use nacos_k8s.Tests.Table.{Mem}
use nacos_k8s.Tests.Memory.{memory, memory-IsServer, memory-IsWilling, visible}

abbrev start : Mem
start = record {
  config_maps = λ namespace name.
      if namespace == "default" && name == "two"
      then some (record { meta = new_meta "two" "default"; entries = ("k", "v") ∷ [] })
      else none;
  stateful_sets = λ namespace name. none;
  services = λ namespace name. none;
  jobs = λ namespace name. none;
}

-- the name of a config map; other objects count as the resource's own
abbrev map_name : Key → String
map_name (config_map namespace name) = name
map_name (stateful_set namespace name) = "one"
map_name (service namespace name) = "one"
map_name (job namespace name) = "one"

own_name :
    (key : Key)
    → OwnedBy "default" "one" key
    → (map_name key == "one" || map_name key == "one-mysql-sql-init") ≡ true
own_name key own_config_map = refl
own_name key own_sql_config_map = refl
own_name key own_job = refl
own_name key own_stateful_set = refl
own_name key own_service = refl
own_name key own_headless = refl
own_name key own_client = refl

not_own : OwnedBy "default" "one" (config_map "default" "two") → ⊥
not_own h = different (own_name _ h)
  where
    different : false ≡ true → ⊥
    different p = cc

reconcile-Within_example :
    visible (reconcile in_order memory "default" "one" start).1 (config_map "default" "two")
    ≡ some (record { meta = new_meta "two" "default"; entries = ("k", "v") ∷ [] })
unfolding memory-IsServer
reconcile-Within_example =
    reconcile-Within in_order memory memory-IsServer "default" "one" start
      (config_map "default" "two") not_own

abbrev pub before : World Mem
before = record { nacos = a_nacos phase_creating; cluster = start }

abbrev after : World Mem
after = (reconcile_work in_order memory before).1

settles : reconcile_work in_order memory before ≡ (true, after)
unfolding reconcile_work set_default_certification set_default_mysql set_default_nacos_type
    containers slice_stable values mysql_only default_type put
settles = refl

reconcile_work-Provided_example :
    Provided in_order (validation_field (a_nacos phase_creating)) (visible after.cluster)
    × Scaled in_order memory memory-IsServer
        (validation_field (a_nacos phase_creating))
        (visible after.cluster)
unfolding memory-IsServer
reconcile_work-Provided_example =
    reconcile_work-Provided in_order memory memory-IsServer before after settles

-- the stage that creates the objects of the resource
abbrev asked : Nacos
asked = validation_field (a_nacos phase_creating)

one_replica : asked.spec.replicas ≡ some (pos 1)
unfolding validation_field set_default_certification set_default_mysql set_default_nacos_type
one_replica = refl

is_stand_alone : asked.spec.type ≡ type_stand_alone
unfolding validation_field set_default_certification set_default_mysql set_default_nacos_type
is_stand_alone = refl

nothing_yet : IsAbsent in_order memory memory-IsServer memory-IsWilling asked start
unfolding memory-IsServer validation_field set_default_certification set_default_mysql
    set_default_nacos_type
nothing_yet = refl

make_ensure-returns_example : (make_ensure in_order memory before).0 ≡ done tt
make_ensure-returns_example =
    make_ensure-returns in_order memory memory-IsServer memory-IsWilling before 0 one_replica
      (inl is_stand_alone) nothing_yet
