-- ===== src/Operator/Check/Settles.antt =====
-- When the check of the servers passes: as long as no object changes, the pods give the same answers.
use nacos_k8s.Base.{
  String, ◌≡◌, refl, sym, ap, ◌∙◌, Option, none, some, List, [], ◌∷◌, All, length, ℤ, pos,
  int_eq_refl, ◌⊎◌, inl, inr,
}
use mathlib.Core.Path.{subst}
use nacos_k8s.Go.Maps.{RangeOrder}
use nacos_k8s.Errors.{
  Exec, done, continue, ensure_normal_my_error, ensure_equal_int, code_cluster_faile, ◌>>=◌,
}
use nacos_k8s.Kube.{Pod}
use nacos_k8s.Environment.{Environment, Server, lift, dereference}
use nacos_k8s.Operator.World.{World, reading, modify, with_status}
use nacos_k8s.Operator.Keeps.{check_pod-Keeps}
use nacos_k8s.Operator.Calm.{check_pod-Calm}
use nacos_k8s.ApiServer.{Key, Cluster, IsServer}
use nacos_k8s.ApiServer.Frame.{Frames}
use nacos_k8s.Operator.Servers.{get_cluster_nodes}
use nacos_k8s.Operator.Check.{check_servers, check_pod, check_pods, check_nacos}
use nacos_k8s.Operator.Check.Passes.{Reports, check_servers-passes}

module _ {S A B : Type 0} where
  -- a sequence returns if its parts do
  pub >>=-returns :
      (m : Exec S A) (g : A → Exec S B) (s : S) (a : A) (b : B)
      → (m s).0 ≡ done a
      → (g a (m s).1).0 ≡ done b
      → ((m >>= g) s).0 ≡ done b
  >>=-returns m g s a b h p = ap (λ r. (continue r g (m s).1).0) h ∙ p

equal_int-passes :
    {S : Type 0} (a code : ℤ) (msg : String) (s : S) → (ensure_equal_int a a code msg s).0 ≡ done tt
unfolding ensure_equal_int
equal_int-passes a code msg s = rw (int_eq_refl a) refl

-- no object at all
abbrev pub Nothing : Key → Type 0
Nothing q = ⊥

module _ {K : Type 0} (e : Environment K) (s : IsServer e) where
  -- the state has exactly these objects
  abbrev pub Shows : Cluster → K → Type 0
  Shows seen k = (q : Key) → s.view k q ≡ seen q

  pub still-Shows :
      {A : Type 0} (seen : Cluster) (m : Exec K A) (k : K)
      → Frames s.view Nothing m
      → Shows seen k
      → Shows seen (m k).1
  still-Shows seen m k f h q = f.framed k q (λ never. never) ∙ h q

  -- As long as the objects are these, the pod names as many servers as there are replicas, at least
  -- one, and they are all up and report the leader.
  pub record Serves (seen : Cluster) (leader : String) (replicas : Option ℤ) (pod : Pod)
      : Type 0 where
    pub first : Server
    pub rest : List Server
    pub answers :
        (k : K)
        → Shows seen k
        → (get_cluster_nodes e pod.pod_ip k).0 ≡ done (record { servers = first ∷ rest }, none)
    pub counted : replicas ≡ some (pos (length (first ∷ rest)))
    pub agreed : All (Reports leader) (first ∷ rest)

module _ (o : RangeOrder) {K : Type 0} (e : Environment K) (s : IsServer e) (seen : Cluster) where
  check_pod-passes :
      (known leader : String) (pod : Pod) (w : World K)
      → (known ≡ "") ⊎ (known ≡ leader)
      → Shows e s seen w.cluster
      → Serves e s seen leader w.nacos.spec.replicas pod
      → (check_pod e known pod w).0 ≡ done leader
  unfolding check_pod ensure_normal_my_error
  check_pod-passes known leader pod w h at t =
      let servers = t.first ∷ t.rest in
      >>=-returns (reading λ nacos. get_cluster_nodes e pod.pod_ip) _ w
        (record { servers = servers }, none) leader (t.answers w.cluster at)
        (>>=-returns (reading λ nacos. lift (dereference nacos.spec.replicas)) _ _
          (pos (length servers)) leader (ap dereference t.counted)
          (>>=-returns
            (ensure_equal_int (pos (length servers)) (pos (length servers)) code_cluster_faile
              "server num is not equal")
            _ _ tt leader
            (equal_int-passes (pos (length servers)) code_cluster_faile "server num is not equal" _)
            (>>=-returns (check_servers known servers) _ _ leader leader
              (check_servers-passes t.first t.rest known leader _ h t.agreed) refl)))

  check_pods-passes :
      (known leader : String) (pods : List Pod) (w : World K)
      → (known ≡ "") ⊎ (known ≡ leader)
      → Shows e s seen w.cluster
      → All (Serves e s seen leader w.nacos.spec.replicas) pods
      → (last : String) × ((check_pods e known pods w).0 ≡ done last)
  unfolding check_pods
  check_pods-passes known leader [] w h at t = (known, refl)
  check_pods-passes known leader (pod ∷ r) w h at (t, ts) =
      let v = (check_pod e known pod w).1 in
      let same : v.nacos.spec.replicas ≡ w.nacos.spec.replicas =
        ap (λ c. (c.2).replicas) ((check_pod-Keeps e known pod).kept w) in
      let there : Shows e s seen v.cluster =
        λ q. (check_pod-Calm o e s Nothing known pod).framed w q (λ never. never) ∙ at q in
      let rest =
        check_pods-passes leader leader r v (inr refl) there
          (subst (λ n. All (Serves e s seen leader n) r) (sym same) ts) in
      (
        rest.0,
        >>=-returns (check_pod e known pod) _ w leader rest.0
            (check_pod-passes known leader pod w h at t) rest.1,
      )

  pub check_nacos-passes :
      (leader : String) (pods : List Pod) (w : World K)
      → Shows e s seen w.cluster
      → All (Serves e s seen leader w.nacos.spec.replicas) pods
      → (check_nacos e pods w).0 ≡ done tt
  unfolding check_nacos
  check_nacos-passes leader pods w at t =
      let cleared = (modify (with_status λ s. record s { conditions = [] }) w).1 in
      let all = check_pods-passes "" leader pods cleared (inl refl) at t in
      >>=-returns (check_pods e "" pods) _ cleared all.0 tt all.1 refl
