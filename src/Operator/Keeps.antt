-- ===== src/Operator/Keeps.antt =====
-- What the steps of a reconciliation leave alone in the resource, also when they panic.
use nacos_k8s.Base.{
  sym, ap, ◌≡◌, refl, ◌∙◌, Option, none, some, List, [], ◌∷◌, String, ℤ, ◌++◌, length, pos, ◌==◌,
  Bool, true, false, if◌then◌else◌,
}
use nacos_k8s.Errors.{
  Error, Fault, plain, code_cluster_faile, Exec, Outcome, done, panic, continue, pure, throw, ◌>>=◌,
  ensure_normal, ensure_normal_my_error, ensure_equal_int, ensure_equal_string,
}
use nacos_k8s.Kube.{Pod, ObjectMeta}
use nacos_k8s.Go.Maps.{RangeOrder}
use nacos_k8s.Api.{Nacos, NacosSpec, Phase, Event, Time}
use nacos_k8s.Environment.{Environment, Server, lift, dereference}
use nacos_k8s.Operator.Servers.{get_cluster_nodes}
use nacos_k8s.Operator.World.{World, reading, modify, with_status}
use nacos_k8s.Operator.Check.{
  agree_on_leader, check_servers, check_pod, check_pods, check_nacos, check_kind, pod_condition,
}
use nacos_k8s.Operator.Stages.{check_and_make_heal}

-- the step does not change `part` of the resource
pub record Keeps {K A X : Type 0} (part : Nacos → X) (m : Exec (World K) A) : Type 0 where
  pub kept : (w : World K) → part ((m w).1).nacos ≡ part w.nacos

module _ {K A B X : Type 0} where
  after :
      (part : Nacos → X) (r : Outcome A) (g : A → Exec (World K) B) (v : World K)
      → ((a : A) → Keeps part (g a))
      → part ((continue r g v).1).nacos ≡ part v.nacos
  after part (done a) g v h = (h a).kept v
  after part (panic e) g v h = refl

  pub Keeps->>= :
      (part : Nacos → X) (m : Exec (World K) A) (g : A → Exec (World K) B)
      → Keeps part m
      → ((a : A) → Keeps part (g a))
      → Keeps part (m >>= g)
  Keeps->>= part m g p q = record { kept = λ w. after part (m w).0 g (m w).1 q ∙ p.kept w }

module _ {K : Type 0} where
  pub invert-reading :
      {A : Type 0} (m : Nacos → Exec K A) (a : A) (w w' : World K)
      → reading m w ≡ (done a, w')
      → (m w.nacos w.cluster ≡ (done a, w'.cluster)) × (w'.nacos ≡ w.nacos)
  invert-reading m a w w' h = (ap (λ q. (q.0, (q.1).cluster)) h, ap (λ q. (q.1).nacos) (sym h))

-- everything but the version and the conditions
abbrev pub core : Nacos → ObjectMeta × Time × NacosSpec × List Event × Phase
core n = (n.meta, n.creation_timestamp, n.spec, n.status.event, n.status.phase)

module _ {K X : Type 0} (part : Nacos → X) where
  pub reading-Keeps : {A : Type 0} (m : Nacos → Exec K A) → Keeps part (reading m)
  reading-Keeps m = record { kept = λ w. refl }

  pub pure-Keeps : {A : Type 0} (a : A) → Keeps {K = K} part (pure a)
  pure-Keeps a = record { kept = λ w. refl }

  throw-Keeps : {A : Type 0} (f : Fault) → Keeps {K = K} {A = A} part (throw f)
  throw-Keeps f = record { kept = λ w. refl }

  pub ensure_normal-Keeps : (err : Option Error) → Keeps {K = K} part (ensure_normal err)
  unfolding ensure_normal
  ensure_normal-Keeps none = pure-Keeps tt
  ensure_normal-Keeps (some e) = throw-Keeps (plain e)

  ensure_normal_my_error-Keeps :
      (err : Option Error) (code : ℤ) → Keeps {K = K} part (ensure_normal_my_error err code)
  unfolding ensure_normal_my_error
  ensure_normal_my_error-Keeps none code = pure-Keeps tt
  ensure_normal_my_error-Keeps (some e) code = throw-Keeps _

  if-Keeps :
      {A : Type 0} (b : Bool) (m n : Exec (World K) A)
      → Keeps part m
      → Keeps part n
      → Keeps part (if b then m else n)
  if-Keeps true m n p q = p
  if-Keeps false m n p q = q

  ensure_equal_int-Keeps :
      (a b code : ℤ) (msg : String) → Keeps {K = K} part (ensure_equal_int a b code msg)
  unfolding ensure_equal_int
  ensure_equal_int-Keeps a b code msg = if-Keeps _ _ _ (pure-Keeps tt) (throw-Keeps _)

  ensure_equal_string-Keeps :
      (a b : String) (code : ℤ) (msg : String)
      → Keeps {K = K} part (ensure_equal_string a b code msg)
  unfolding ensure_equal_string
  ensure_equal_string-Keeps a b code msg = if-Keeps _ _ _ (pure-Keeps tt) (throw-Keeps _)

module _ {K : Type 0} where
  agree_on_leader-Keeps :
      (leader found : String) → Keeps {K = K} core (agree_on_leader leader found)
  unfolding agree_on_leader
  agree_on_leader-Keeps leader found =
      if-Keeps core (leader == "") (pure found) _ (pure-Keeps core found) (
        Keeps->>= core (ensure_equal_string leader found code_cluster_faile "leader not equal") _
          (ensure_equal_string-Keeps core leader found code_cluster_faile "leader not equal")
          λ a. pure-Keeps core leader)

  check_servers-Keeps :
      (svcs : List Server) (leader : String) → Keeps {K = K} core (check_servers leader svcs)
  unfolding check_servers
  check_servers-Keeps [] leader = pure-Keeps core leader
  check_servers-Keeps (svc ∷ r) leader =
      Keeps->>= core (ensure_equal_string svc.state "UP" code_cluster_faile "node is not up") _
        (ensure_equal_string-Keeps core svc.state "UP" code_cluster_faile "node is not up")
        λ up.
          Keeps->>= core (agree_on_leader leader svc.leader) _
            (agree_on_leader-Keeps leader svc.leader)
            λ leader'.
              Keeps->>= core (modify (with_status λ s. record s { version = svc.version })) _
                (record { kept = λ w. refl }) λ a. check_servers-Keeps r leader'

module _ {K : Type 0} (e : Environment K) where
  pub check_pod-Keeps : (leader : String) (pod : Pod) → Keeps core (check_pod e leader pod)
  unfolding check_pod
  check_pod-Keeps leader pod =
      Keeps->>= core (reading λ nacos. get_cluster_nodes e pod.pod_ip) _ (reading-Keeps core _)
        λ answer.
          Keeps->>= core (ensure_normal_my_error answer.1 code_cluster_faile) _
            (ensure_normal_my_error-Keeps core _ _)
            λ a.
              Keeps->>= core (reading λ nacos. lift (dereference nacos.spec.replicas)) _
                (reading-Keeps core _)
                λ replicas.
                  Keeps->>= core
                    (ensure_equal_int (pos (length (answer.0).servers)) replicas code_cluster_faile
                      "server num is not equal")
                    _
                    (ensure_equal_int-Keeps core (pos (length (answer.0).servers)) replicas
                      code_cluster_faile "server num is not equal")
                    λ b.
                      Keeps->>= core (check_servers leader (answer.0).servers) _
                        (check_servers-Keeps (answer.0).servers leader)
                        λ leader'.
                          Keeps->>= core
                            (modify (
                              with_status λ s. record s {
                                conditions = s.conditions ++ pod_condition leader' pod ∷ [];
                              }))
                            _ (record { kept = λ w. refl }) λ c. pure-Keeps core leader'

  check_pods-Keeps : (pods : List Pod) (leader : String) → Keeps core (check_pods e leader pods)
  unfolding check_pods
  check_pods-Keeps [] leader = pure-Keeps core leader
  check_pods-Keeps (pod ∷ r) leader =
      Keeps->>= core (check_pod e leader pod) _ (check_pod-Keeps leader pod)
        λ leader'. check_pods-Keeps r leader'

  check_nacos-Keeps : (pods : List Pod) → Keeps core (check_nacos e pods)
  unfolding check_nacos
  check_nacos-Keeps pods =
      Keeps->>= core (modify (with_status λ s. record s { conditions = [] })) _
        (record { kept = λ w. refl })
        λ a.
          Keeps->>= core (check_pods e "" pods) _ (check_pods-Keeps pods "") λ b. pure-Keeps core tt

-- Whether it returns or panics, the check changes nothing of the resource but its version and its
-- conditions.
pub check_and_make_heal-Keeps :
    (o : RangeOrder) {K : Type 0} (e : Environment K) → Keeps core (check_and_make_heal o e)
unfolding check_and_make_heal
check_and_make_heal-Keeps o e =
    Keeps->>= core (reading (check_kind o e)) _ (reading-Keeps core _)
      λ pods. check_nacos-Keeps e pods
