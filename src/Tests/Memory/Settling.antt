-- ===== src/Tests/Memory/Settling.antt =====
-- The standalone server under creation runs, and its reconciliation settles, against the API server in
-- memory.
use nacos_k8s.Base.{Option, none, ◌≡◌, ◌≢◌, refl, ap, true, some, [], ◌∷◌, arith}
use nacos_k8s.Errors.{done}
use nacos_k8s.Api.{phase_none, phase_creating}
use nacos_k8s.Kube.{StatefulSet}
use nacos_k8s.ApiServer.{Cluster, stateful_set}
use nacos_k8s.Kind.Defaults.{
  validation_field, set_default_certification, set_default_mysql, set_default_nacos_type,
  mysql_only, default_type,
}
use nacos_k8s.Merge.Containers.{containers}
use nacos_k8s.Go.Sort.{slice_stable}
use nacos_k8s.Go.Maps.{values, put, get}
use nacos_k8s.Operator.World.{World}
use nacos_k8s.Operator.Servers.{get_cluster_nodes}
use nacos_k8s.Operator.Check.Listed.{none_listed, ready}
use nacos_k8s.Operator.Check.Settles.{Serves}
use nacos_k8s.Operator.Check.Runs.{Runs}
use nacos_k8s.Operator.Stages.{make_ensure}
use nacos_k8s.Services.StatefulSets.{is_ready}
use nacos_k8s.Controller.{reconcile_work}
use nacos_k8s.Controller.Settles.{reconcile_work-settles}
use nacos_k8s.Tests.{in_order, a_nacos, a_pod, a_server, a_stateful_set}
use nacos_k8s.Tests.Table.{Mem, answer}
use nacos_k8s.Tests.Memory.{memory, memory-IsServer, visible}
use nacos_k8s.Tests.Memory.Holding.{before}

abbrev ensured : World Mem
ensured = (make_ensure in_order memory before).1

abbrev shown_then : Cluster
shown_then = visible ensured.cluster

ensures : make_ensure in_order memory before ≡ (done tt, ensured)
unfolding make_ensure set_default_certification set_default_mysql set_default_nacos_type containers
    slice_stable values put mysql_only default_type
ensures = refl

-- what a query for an object that may be missing gives
abbrev or_given : Option StatefulSet → StatefulSet → StatefulSet
or_given none x = x
or_given (some y) x = y

abbrev kept_set : StatefulSet
kept_set = or_given (shown_then (stateful_set "default" "one")) a_stateful_set

runs :
    Runs memory memory-IsServer shown_then (validation_field (a_nacos phase_creating)) (a_pod ∷ [])
unfolding memory-IsServer make_ensure validation_field set_default_certification set_default_mysql
    set_default_nacos_type containers slice_stable values put get is_ready mysql_only default_type
runs = record {
  replicas = 1;
  stored = kept_set;
  selector = record {
    match_labels = ("app", "one") ∷ ("middleware", "nacos") ∷ ("component", "nacos") ∷ [];
    match_expressions = [];
  };
  listed = a_pod ∷ [];
  wanted = refl;
  found = λ k t. ap answer (t (stateful_set "default" "one"));
  scaled = refl;
  selects = refl;
  distinct = (refl, (refl, (refl, tt)));
  lists = λ labels k t asks. refl;
  kept = ready {pod = a_pod} refl none_listed;
  half = omega arith;
}

serves :
    Serves memory memory-IsServer shown_then a_server.leader
      (validation_field (a_nacos phase_creating)).spec.replicas
      a_pod
unfolding validation_field set_default_certification set_default_mysql set_default_nacos_type
    get_cluster_nodes
serves = record {
  first = a_server;
  rest = [];
  answers = λ k t. refl;
  counted = refl;
  agreed = ((refl, refl), tt);
}

creating-none : phase_creating ≢ phase_none
creating-none h = cc

reconcile_work-settles_example : (reconcile_work in_order memory before).0 ≡ true
unfolding memory-IsServer
reconcile_work-settles_example =
    reconcile_work-settles in_order memory memory-IsServer a_server.leader (a_pod ∷ []) before
      ensured creating-none (omega arith) ensures runs (serves, tt) (λ nacos k t. refl)
