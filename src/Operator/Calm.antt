-- ===== src/Operator/Calm.antt =====
-- The same of steps on the resource and the cluster: the check and the writing of the status change
-- none of the objects.
use nacos_k8s.Base.{
  String, refl, Option, none, some, Bool, true, false, List, [], ◌∷◌, ◌++◌, ℤ, pos, length, ◌==◌,
  int_eq, if◌then◌else◌,
}
use nacos_k8s.Go.Maps.{RangeOrder}
use nacos_k8s.Errors.{
  Error, Fault, Err, Exec, pure, throw, ensure_normal, ensure_normal_my_error, ensure_equal_int,
  ensure_equal_string, code_cluster_faile, code_normal, ◌>>=◌,
}
use nacos_k8s.Kube.{Pod}
use nacos_k8s.Api.{Nacos, phase_failed, phase_running}
use nacos_k8s.Environment.{Environment, Server, lift, dereference}
use nacos_k8s.ApiServer.{Key, IsServer}
use nacos_k8s.ApiServer.Frame.{
  Frames, Frames->>=, pure-Frames, throw-Frames, ensure_normal-Frames, if-Frames, still-Frames,
}
use nacos_k8s.Operator.Quiet
use nacos_k8s.Operator.Quiet.{dereference-Frames}
use nacos_k8s.Operator.World.{World, reading, modify, with_status}
use nacos_k8s.Operator.Servers.{get_cluster_nodes}
use nacos_k8s.Operator.Status.{
  update_last_event, store_event, push_status, update_status_running, update_status,
  update_exception_status, trim_events,
}
use nacos_k8s.Operator.Stages.{check_and_make_heal}
use nacos_k8s.Operator.Check.{
  agree_on_leader, check_servers, check_pod, check_pods, check_nacos, check_kind, pod_condition,
}

module _ (o : RangeOrder) {K : Type 0} (e : Environment K) (s : IsServer e)
    (Own : Key → Type 0) where
  abbrev pub Calm : {A : Type 0} → Exec (World K) A → Type 0
  Calm = Frames (λ w. s.view w.cluster) Own

  pub reading-Calm :
      {A : Type 0} (m : Nacos → Exec K A)
      → ((n : Nacos) → Frames s.view Own (m n))
      → Calm (reading m)
  reading-Calm m h = record { framed = λ w. (h w.nacos).framed w.cluster }

  pub modify-Calm : (f : Nacos → Nacos) → Calm (modify f)
  modify-Calm f = record { framed = λ w q p. refl }

  abbrev pub calm_then :
      {A B : Type 0} (m : Exec (World K) A) (g : A → Exec (World K) B)
      → Calm m
      → ((a : A) → Calm (g a))
      → Calm (m >>= g)
  calm_then = Frames->>= (λ w. s.view w.cluster) Own

  pub pure-Calm : {A : Type 0} (a : A) → Calm (pure a)
  pure-Calm = pure-Frames (λ w. s.view w.cluster) Own

  pub throw-Calm : {A : Type 0} (f : Fault) → Calm (throw {A = A} f)
  throw-Calm = throw-Frames (λ w. s.view w.cluster) Own

  pub if-Calm :
      {A : Type 0} (b : Bool) (m n : Exec (World K) A) → Calm m → Calm n → Calm (if b then m else n)
  if-Calm = if-Frames (λ w. s.view w.cluster) Own

  equal_string-Calm :
      (a b : String) (code : ℤ) (msg : String) → Calm (ensure_equal_string a b code msg)
  unfolding ensure_equal_string
  equal_string-Calm a b code msg = if-Calm (a == b) (pure tt) _ (pure-Calm tt) (throw-Calm _)

  equal_int-Calm : (a b : ℤ) (code : ℤ) (msg : String) → Calm (ensure_equal_int a b code msg)
  unfolding ensure_equal_int
  equal_int-Calm a b code msg = if-Calm (int_eq a b) (pure tt) _ (pure-Calm tt) (throw-Calm _)

  my_error-Calm : (err : Option Error) (code : ℤ) → Calm (ensure_normal_my_error err code)
  unfolding ensure_normal_my_error
  my_error-Calm none code = pure-Calm tt
  my_error-Calm (some err) code = throw-Calm _

  agree_on_leader-Calm : (leader found : String) → Calm (agree_on_leader leader found)
  unfolding agree_on_leader
  agree_on_leader-Calm leader found = if-Calm (leader == "") (pure found) _ (pure-Calm found) (
      calm_then (ensure_equal_string leader found code_cluster_faile "leader not equal") _
        (equal_string-Calm leader found code_cluster_faile "leader not equal")
        λ a. pure-Calm leader)

  check_servers-Calm : (svcs : List Server) (leader : String) → Calm (check_servers leader svcs)
  unfolding check_servers
  check_servers-Calm [] leader = pure-Calm leader
  check_servers-Calm (svc ∷ r) leader =
      calm_then (ensure_equal_string svc.state "UP" code_cluster_faile "node is not up") _
        (equal_string-Calm svc.state "UP" code_cluster_faile "node is not up")
        λ up.
          calm_then (agree_on_leader leader svc.leader) _ (agree_on_leader-Calm leader svc.leader)
            λ leader'.
              calm_then (modify (with_status λ s. record s { version = svc.version })) _
                (modify-Calm _) λ a. check_servers-Calm r leader'

  pub check_pod-Calm : (leader : String) (pod : Pod) → Calm (check_pod e leader pod)
  unfolding check_pod
  check_pod-Calm leader pod =
      calm_then (reading λ nacos. get_cluster_nodes e pod.pod_ip) _
        (reading-Calm _ λ n. (Quiet.get_cluster_nodes-Quiet o e s Own) pod.pod_ip)
        λ answer.
          calm_then (ensure_normal_my_error answer.1 code_cluster_faile) _
            (my_error-Calm answer.1 code_cluster_faile)
            λ a.
              calm_then (reading λ nacos. lift (dereference nacos.spec.replicas)) _
                (reading-Calm _ λ n. dereference-Frames s.view Own n.spec.replicas)
                λ replicas.
                  calm_then
                    (ensure_equal_int (pos (length (answer.0).servers)) replicas code_cluster_faile
                      "server num is not equal")
                    _
                    (equal_int-Calm (pos (length (answer.0).servers)) replicas code_cluster_faile
                      "server num is not equal")
                    λ b.
                      calm_then (check_servers leader (answer.0).servers) _
                        (check_servers-Calm (answer.0).servers leader)
                        λ leader'.
                          calm_then
                            (modify (
                              with_status λ s. record s {
                                conditions = s.conditions ++ pod_condition leader' pod ∷ [];
                              }))
                            _ (modify-Calm _) λ c. pure-Calm leader'

  check_pods-Calm : (pods : List Pod) (leader : String) → Calm (check_pods e leader pods)
  unfolding check_pods
  check_pods-Calm [] leader = pure-Calm leader
  check_pods-Calm (pod ∷ r) leader =
      calm_then (check_pod e leader pod) _ (check_pod-Calm leader pod) (check_pods-Calm r)

  pub check_and_make_heal-Calm : Calm (check_and_make_heal o e)
  unfolding check_and_make_heal check_nacos
  check_and_make_heal-Calm =
      calm_then (reading (check_kind o e)) _
        (reading-Calm (check_kind o e) (Quiet.check_kind-Quiet o e s Own))
        λ pods.
          calm_then (modify (with_status λ s. record s { conditions = [] })) _ (modify-Calm _)
            λ a. calm_then (check_pods e "" pods) _ (check_pods-Calm pods "") λ b. pure-Calm tt

  pub update_last_event-Quiet :
      (code : ℤ) (msg : String) (status : Bool) (n : Nacos)
      → Frames s.view Own (update_last_event e code msg status n)
  unfolding update_last_event
  update_last_event-Quiet code msg status n =
      (Quiet.record_event-Quiet o e s Own) code msg status (trim_events n.status.event)

  store_event-Calm :
      (code : ℤ) (msg : String) (status : Bool) → Calm (store_event e code msg status)
  unfolding store_event
  store_event-Calm code msg status =
      calm_then (reading (update_last_event e code msg status)) _
        (reading-Calm (update_last_event e code msg status)
          (update_last_event-Quiet code msg status))
        λ events. modify-Calm _

  push_status-Calm : Calm (push_status e)
  unfolding push_status
  push_status-Calm =
      reading-Calm _ λ n. still-Frames s.view Own (e.update_status n) (s.update_status_same n)

  pub update_status-Calm : Calm (update_status e)
  unfolding update_status
  update_status-Calm =
      calm_then (push_status e) ensure_normal push_status-Calm
        (ensure_normal-Frames (λ w. s.view w.cluster) Own)

  pub update_status_running-Calm : Calm (update_status_running e)
  unfolding update_status_running
  update_status_running-Calm =
      calm_then (store_event e code_normal "" true) _ (store_event-Calm code_normal "" true) λ a.
        calm_then (modify (with_status λ s. record s { phase = phase_running })) _ (modify-Calm _)
          λ b.
            calm_then (push_status e) ensure_normal push_status-Calm
              (ensure_normal-Frames (λ w. s.view w.cluster) Own)

  pub update_exception_status-Calm : (err : Err) → Calm (update_exception_status e err)
  unfolding update_exception_status
  update_exception_status-Calm err =
      calm_then (store_event e err.code err.msg false) _ (store_event-Calm err.code err.msg false)
        λ a.
          calm_then (modify (with_status λ s. record s { phase = phase_failed })) _ (modify-Calm _)
            λ b. calm_then (push_status e) _ push_status-Calm λ failed. pure-Calm tt
