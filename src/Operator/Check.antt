-- ===== src/Operator/Check.antt =====
-- operator/pkg/service/operator/Check.go: whether the cluster is up.
pub mod Laws
pub mod Passes
pub mod Quorum
pub mod Leader
pub mod Listed
pub mod Runs
pub mod Settles
use Prim.Native.Char.{Char, code}
use nacos_k8s.Base.{
  ℕ, ◌+◌, ◌/◌, String, Bool, false, List, [], ◌∷◌, ◌++◌, ◌==◌, if◌then◌else◌, eqb, ltb, length, ℤ,
  pos, negsuc, int_eq,
}
use nacos_k8s.Go.Maps.{RangeOrder}
use nacos_k8s.Errors.{
  raised, plain, Exec, pure, throw, new, ensure_normal_my_error, ensure_equal_int,
  ensure_equal_string, code_cluster_faile, code_err_unknow, ◌>>=◌, ◌>>◌,
}
use nacos_k8s.Kube.{Pod, StatefulSet}
use nacos_k8s.Api.{Nacos, Condition}
use nacos_k8s.Environment.{Environment, Server, Reply, got, refused, lift, dereference}
use nacos_k8s.Services.StatefulSets.{get_stateful_set, get_stateful_set_read_pod}
use nacos_k8s.Operator.World.{World, reading, modify, with_status}
use nacos_k8s.Operator.Servers
use nacos_k8s.Operator.Servers.{get_cluster_nodes}

-- `(int(replicas)+1)/2`, where Go rounds towards zero; a negative result is a bound like 0
unfoldable pub quorum : ℤ → ℕ
quorum (pos n) = (n + 1) / 2
quorum (negsuc n) = 0

abbrev pub pods_of : Reply (List Pod) → List Pod
pods_of (got pods) = pods
pods_of (refused err) = []

module _ (o : RangeOrder) {K : Type 0} (e : Environment K) where
  -- the second half; the error of the request is not looked at
  unfoldable pub enough_pods : Nacos → ℤ → Exec K (List Pod)
  unfolding get_stateful_set_read_pod quorum new
  enough_pods nacos n = do
    reply ← get_stateful_set_read_pod e o nacos.meta.namespace nacos.meta.name
    if ltb (length (pods_of reply)) (quorum n)
        then throw (raised (new code_err_unknow "The number of ready pods is too less" []))
        else pure (pods_of reply)

  -- what follows the request for the stateful set
  unfoldable pub compare_replicas : Nacos → Reply StatefulSet → Exec K (List Pod)
  unfolding enough_pods new
  compare_replicas nacos (refused err) = throw (plain err)
  compare_replicas nacos (got ss) = do
    m ← lift (dereference ss.spec.replicas)
    n ← lift (dereference nacos.spec.replicas)
    if int_eq m n
        then enough_pods nacos n
        else throw (raised (new code_err_unknow "cr replicas is not equal ss replicas" []))

  unfoldable pub check_kind : Nacos → Exec K (List Pod)
  unfolding get_stateful_set compare_replicas
  check_kind nacos = do
    found ← get_stateful_set e nacos.meta.namespace nacos.meta.name
    compare_replicas nacos found

prepend : Char → List String → List String
prepend c [] = String.◌∷◌ c String.[] ∷ []
prepend c (s ∷ r) = String.◌∷◌ c s ∷ r

-- `strings.Split(s, sep)` for a separator of one byte
unfoldable pub split : ℕ → String → List String
unfolding prepend
split sep String.[] = "" ∷ []
split sep (String.◌∷◌ c s) =
    let rest = split sep s in if eqb (code c) sep then "" ∷ rest else prepend c rest

-- `strings.Index(s, sep) > 0`: the separator stands in the text, but not first
index_positive : ℕ → String → Bool
unfolding Servers.contains_char
index_positive sep String.[] = false
index_positive sep (String.◌∷◌ c s) =
    if eqb (code c) sep then false else Servers.contains_char sep s

unfoldable pub leader_split : String → List String
unfolding index_positive split
leader_split leader = if index_positive b'.' leader then split b'.' leader else split b':' leader

unfoldable pub condition_type : List String → String → String
condition_type [] pod_name = ""
condition_type (s ∷ r) pod_name = if s == pod_name then "leader" else "follower"

unfoldable pub pod_condition : String → Pod → Condition
unfolding leader_split condition_type
pod_condition leader pod = record {
  type = condition_type (leader_split leader) pod.name;
  status = "true";
  reason = "";
  message = "";
  instance_ip = pod.pod_ip;
  host_ip = "";
  pod_name = pod.name;
  node_name = pod.node_name;
}

module _ {K : Type 0} where
  -- the comparison with the leader that is known so far; returns the leader known then
  unfoldable pub agree_on_leader : String → String → Exec (World K) String
  unfolding ensure_equal_string
  agree_on_leader leader found =
      if leader == ""
      then pure found
      else (do ensure_equal_string leader found code_cluster_faile "leader not equal"; pure leader)

  -- the inner loop
  unfoldable pub check_servers : String → List Server → Exec (World K) String
  unfolding agree_on_leader ensure_equal_string
  check_servers leader [] = pure leader
  check_servers leader (svc ∷ r) = do
    ensure_equal_string svc.state "UP" code_cluster_faile "node is not up"
    leader' ← agree_on_leader leader svc.leader
    modify (with_status λ s. record s { version = svc.version })
    check_servers leader' r

module _ {K : Type 0} (e : Environment K) where
  -- the body of the outer loop
  unfoldable pub check_pod : String → Pod → Exec (World K) String
  unfolding get_cluster_nodes check_servers ensure_normal_my_error ensure_equal_int pod_condition
  check_pod leader pod = do
    answer ← reading λ nacos. get_cluster_nodes e pod.pod_ip
    ensure_normal_my_error answer.1 code_cluster_faile
    replicas ← reading λ nacos. lift (dereference nacos.spec.replicas)
    ensure_equal_int (pos (length (answer.0).servers)) replicas code_cluster_faile
        "server num is not equal"
    leader' ← check_servers leader (answer.0).servers
    modify
        (with_status λ s. record s { conditions = s.conditions ++ pod_condition leader' pod ∷ [] })
    pure leader'

  unfoldable pub check_pods : String → List Pod → Exec (World K) String
  unfolding check_pod
  check_pods leader [] = pure leader
  check_pods leader (pod ∷ r) = do leader' ← check_pod leader pod; check_pods leader' r

  unfoldable pub check_nacos : List Pod → Exec (World K) (Unit {0})
  unfolding check_pods
  check_nacos pods = do
    modify (with_status λ s. record s { conditions = [] })
    leader ← check_pods "" pods
    pure tt
