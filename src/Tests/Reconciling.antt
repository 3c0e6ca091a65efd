-- ===== src/Tests/Reconciling.antt =====
-- A standalone server under creation, reconciled once, and what its steps do on the way.
use nacos_k8s.Base.{
  ℕ, suc, ◌*◌, ◌≤◌, ◌≡◌, refl, true, false, some, pos, ℤ, List, [], ◌∷◌, String, All, length, arith,
}
use nacos_k8s.Errors.{done, code_normal, code_cluster_faile}
use nacos_k8s.Kube.{Pod, StatefulSet}
use nacos_k8s.Api.{Event, phase_none, phase_creating, phase_running}
use nacos_k8s.Environment.{got}
use nacos_k8s.Kind.Defaults.{
  validation_field, set_default_certification, set_default_mysql, set_default_nacos_type,
  mysql_only, default_type,
}
use nacos_k8s.Merge.Containers.{containers}
use nacos_k8s.Go.Sort.{slice_stable}
use nacos_k8s.Go.Maps.{values, put}
use nacos_k8s.Operator.World.{World}
use nacos_k8s.Operator.Keeps.{core, check_and_make_heal-Keeps}
use nacos_k8s.Operator.Check.{check_kind, check_nacos}
use nacos_k8s.Operator.Check.Laws.{Healthy, reported, named, check_nacos-Healthy}
use nacos_k8s.Operator.Check.Quorum.{IsReady, check_kind-Ready}
use nacos_k8s.Operator.Status.{event_max_size, update_last_event, update_status_running}
use nacos_k8s.Operator.Status.Laws.{Returns, Reports, update_last_event_lem, first_event_status}
use nacos_k8s.Operator.Status.Saved.{Saved, update_status_running_lem}
use nacos_k8s.Operator.Stages.{make_ensure, check_and_make_heal}
use nacos_k8s.Controller.{reconcile_work}
use nacos_k8s.Controller.Laws.{Up, AreListed, reconcile_work-Up}
use nacos_k8s.Controller.Phases.{Move, creating, reconcile_first, reconcile_work-Move}
use nacos_k8s.Tests.{in_order, a_nacos, a_pod, a_cluster}

abbrev before : World ℕ
before = record { nacos = a_nacos phase_creating; cluster = 0 }

abbrev after : World ℕ
after = (reconcile_work in_order a_cluster before).1

settles : reconcile_work in_order a_cluster before ≡ (true, after)
unfolding reconcile_work set_default_certification set_default_mysql set_default_nacos_type
    containers slice_stable values mysql_only default_type put
settles = refl

reconcile_work-Up_example :
    (pods : List Pod) × Up in_order a_cluster after.nacos.spec pods
    × (reported after.nacos.status.conditions ≡ named pods)
    × (after.nacos.spec ≡ (validation_field (a_nacos phase_creating)).spec)
    × (after.nacos.status.phase ≡ phase_running)
    × Saved a_cluster after
    × AreListed in_order a_cluster (make_ensure in_order a_cluster before).1 pods
reconcile_work-Up_example = reconcile_work-Up in_order a_cluster before after settles

reconcile_work-Move_example : Move phase_creating true after.nacos.status.phase
reconcile_work-Move_example = reconcile_work-Move in_order a_cluster before after true settles

abbrev new : World ℕ
new = record { nacos = a_nacos phase_none; cluster = 0 }

reconcile_first_example : reconcile_work in_order a_cluster new ≡ (
  false,
  record {
    nacos = creating (a_nacos phase_none);
    cluster = (a_cluster.update_status (creating (a_nacos phase_none)) 0).1;
  },
)
reconcile_first_example = reconcile_first in_order a_cluster new refl

check_and_make_heal-Keeps_example :
    core ((check_and_make_heal in_order a_cluster before).1).nacos ≡ core (a_nacos phase_creating)
check_and_make_heal-Keeps_example = (check_and_make_heal-Keeps in_order a_cluster).kept before

checked :
    check_nacos a_cluster (a_pod ∷ []) before
    ≡ (done tt, (check_nacos a_cluster (a_pod ∷ []) before).1)
unfolding check_nacos
checked = refl

check_nacos-Healthy_example :
    (leader : String) × All (Healthy a_cluster (some (pos 1)) leader) (a_pod ∷ [])
    × (reported ((check_nacos a_cluster (a_pod ∷ []) before).1).nacos.status.conditions
        ≡ named (a_pod ∷ []))
    × (((check_nacos a_cluster (a_pod ∷ []) before).1).nacos.spec ≡ (a_nacos phase_creating).spec)
check_nacos-Healthy_example = check_nacos-Healthy a_cluster (a_pod ∷ []) before _ checked

ready : check_kind in_order a_cluster (a_nacos phase_creating) 0 ≡ (done (a_pod ∷ []), 0)
unfolding check_kind
ready = refl

check_kind-Ready_example :
    (n : ℤ) × (ss : StatefulSet) × (some (pos 1) ≡ some n)
    × ((a_cluster.stateful_sets.get "default" "one" 0).0 ≡ got ss)
    × (ss.spec.replicas ≡ some n)
    × All IsReady (a_pod ∷ [])
    × ((m : ℕ) → n ≡ pos m → m ≤ 2 * length (a_pod ∷ []))
check_kind-Ready_example =
    check_kind-Ready in_order a_cluster (a_nacos phase_creating) (a_pod ∷ []) 0 0 ready

saved :
    update_status_running a_cluster before ≡ (done tt, (update_status_running a_cluster before).1)
unfolding update_status_running
saved = refl

update_status_running_example :
    (((update_status_running a_cluster before).1).nacos.status.phase ≡ phase_running)
    × (((update_status_running a_cluster before).1).nacos.spec ≡ (a_nacos phase_creating).spec)
    × (((update_status_running a_cluster before).1).nacos.status.conditions ≡ [])
    × Saved a_cluster (update_status_running a_cluster before).1
update_status_running_example = update_status_running_lem a_cluster before _ saved

update_last_event_example :
    Returns
      (λ result. (length result ≤ suc event_max_size) × Reports code_cluster_faile "down" result)
      (update_last_event a_cluster code_cluster_faile "down" false (a_nacos phase_running) 0).0
update_last_event_example =
    update_last_event_lem a_cluster code_cluster_faile "down" false (a_nacos phase_running) 0
      (omega arith)

first_event_status_example :
    Returns
      (λ result. (x : Event) × (result ≡ x ∷ []) × (x.status ≡ false) × (x.code ≡ code_normal))
      (update_last_event a_cluster code_normal "" true (a_nacos phase_running) 0).0
first_event_status_example =
    first_event_status a_cluster code_normal "" true (a_nacos phase_running) 0 refl
