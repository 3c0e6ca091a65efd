-- ===== src/Tests/Stopping.antt =====
-- A resource of no known type, which stops its reconciliation; and the address of a leader.
use nacos_k8s.Base.{length, ℕ, ◌≡◌, refl, false, [], ◌∷◌, concat, eqb, if◌then◌else◌, arith}
use nacos_k8s.Errors.{Err, raised, panic, new, code_parameter_error, msg_parameter_errot}
use nacos_k8s.Go.Format.{itoa}
use nacos_k8s.Kube.{Pod}
use nacos_k8s.Api.{phase_creating}
use nacos_k8s.Kind.Defaults.{set_default_certification, set_default_mysql, set_default_nacos_type}
use nacos_k8s.Kind.Cluster.{pod_domain}
use nacos_k8s.Operator.World.{World}
use nacos_k8s.Operator.Check.{pod_condition}
use nacos_k8s.Operator.Check.Leader.{pod_name, pod_condition-pod_domain}
use nacos_k8s.Operator.Servers.{contains_char}
use nacos_k8s.Controller.{stages, reconcile_work}
use nacos_k8s.Controller.Patience.{IsPatient, IsOverdue, Shown, reconcile_work-error}
use nacos_k8s.Tests.{in_order, a_cluster, a_nacos, a_pod}

abbrev odd : World ℕ
odd = record {
  nacos = record (a_nacos phase_creating) {
    spec = record ((a_nacos phase_creating).spec) { type = "swarm" };
  };
  cluster = 0;
}

abbrev odd_err : Err
odd_err = new code_parameter_error msg_parameter_errot ("nacos.Spec.Type" ∷ "swarm" ∷ [])

abbrev stopped : World ℕ
stopped = (stages in_order a_cluster odd).1

stops : stages in_order a_cluster odd ≡ (panic (raised odd_err), stopped)
unfolding stages set_default_certification set_default_mysql set_default_nacos_type
stops = refl

no_event : length stopped.nacos.status.event ≡ 0
unfolding stages set_default_certification set_default_mysql set_default_nacos_type
no_event = refl

reconcile_work-error_example :
    (IsPatient in_order a_cluster odd_err stopped
      → reconcile_work in_order a_cluster odd
        ≡ (false, record stopped { cluster = (a_cluster.now stopped.cluster).1 }))
    × (IsOverdue in_order a_cluster odd_err stopped
        → Shown in_order a_cluster odd_err stopped (reconcile_work in_order a_cluster odd).1)
unfolding new
reconcile_work-error_example =
    reconcile_work-error in_order a_cluster odd_err odd stopped stops refl (omega (arith, no_event))

abbrev second_pod : Pod
second_pod = record a_pod { name = "one-1" }

no_dot : contains_char b'.' "one" ≡ false
unfolding contains_char
no_dot = refl

second_name : second_pod.name ≡ pod_name (a_nacos phase_creating) 1
unfolding itoa
second_name = refl

pod_condition-pod_domain_example :
    (pod_condition
      (concat (pod_domain (a_nacos phase_creating) "cluster.local" 1) ":7848")
      second_pod).type
    ≡ (if eqb 1 1 then "leader" else "follower")
pod_condition-pod_domain_example =
    pod_condition-pod_domain (a_nacos phase_creating) "cluster.local" ":7848" 1 1 second_pod no_dot
      second_name
