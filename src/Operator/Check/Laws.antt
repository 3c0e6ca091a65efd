-- ===== src/Operator/Check/Laws.antt =====
-- What a check that returns has found.
use nacos_k8s.Base.{
  String, ◌≡◌, refl, ap, sym, ◌∙◌, Option, none, some, ◌==◌, eq_iff, Bool-cases, ◌⊎◌, inl, inr, ℤ,
  pos, arith, List, [], ◌∷◌, ◌++◌, length, All, All-map,
}
use mathlib.Core.Path.{subst}
use mathlib.Core.List.{append-nil, append_assoc}
use nacos_k8s.Errors.{
  done, ensure_normal_my_error, ensure_equal_int, ensure_equal_string, code_cluster_faile,
}
use nacos_k8s.Errors.Laws.{
  invert-dereference, invert-pure, invert->>=, invert-ensure_equal_string, invert-ensure_equal_int,
  invert-ensure_normal_my_error,
}
use nacos_k8s.Kube.{Pod}
use nacos_k8s.Api.{Condition}
use nacos_k8s.Environment.{Environment, Server, ServersInfo, lift, dereference}
use nacos_k8s.Operator.Keeps.{invert-reading}
use nacos_k8s.Operator.World.{World, reading}
use nacos_k8s.Operator.Servers.{get_cluster_nodes}
use nacos_k8s.Operator.Check.{
  agree_on_leader, check_servers, check_pod, check_pods, check_nacos, pod_condition,
}

-- a server that is up and whose leader, where it reports one, is `leader`
abbrev pub Follows : String → Server → Type 0
Follows leader s = (s.state ≡ "UP") × ((s.leader ≡ "") ⊎ (s.leader ≡ leader))

known : {a b c : String} → (a ≡ "") ⊎ (a ≡ b) → (b ≡ "") ⊎ (b ≡ c) → (a ≡ "") ⊎ (a ≡ c)
known (inl p) q = inl p
known (inr p) (inl q) = inl (p ∙ q)
known (inr p) (inr q) = inr (p ∙ q)

module _ {K : Type 0} where
  invert-agree_on_leader :
      (leader found l : String) (w w' : World K)
      → agree_on_leader leader found w ≡ (done l, w')
      → ((leader ≡ "") ⊎ (leader ≡ l)) × (found ≡ l) × (w ≡ w')
  unfolding agree_on_leader
  invert-agree_on_leader leader found l w w' h = elim (Bool-cases (leader == "")) [
    | inl p ↦
        let e = invert-pure found l w w' (rw p at h) in
        (inl (ground (arith, eq_iff leader "", p)), e.0, e.1)
    | inr p ↦
        let i =
          invert->>= (ensure_equal_string leader found code_cluster_faile "leader not equal") _ w w'
            l (rw p at h) in
        let j =
          invert-ensure_equal_string leader found code_cluster_faile "leader not equal" w i.1 i.2 in
        let e = invert-pure leader l i.1 w' i.3 in (inr (e.0), cc, cc)
  ]

  invert-check_servers :
      (svcs : List Server) (leader l : String) (w w' : World K)
      → check_servers leader svcs w ≡ (done l, w')
      → ((leader ≡ "") ⊎ (leader ≡ l))
        × All (Follows l) svcs
        × (w'.nacos.spec ≡ w.nacos.spec)
        × (w'.nacos.status.conditions ≡ w.nacos.status.conditions)
  unfolding check_servers
  invert-check_servers [] leader l w w' h =
      let e = invert-pure leader l w w' h in
      (
        inr (e.0),
        tt,
        ap (λ v. v.nacos.spec) (sym (e.1)),
        ap (λ v. v.nacos.status.conditions) (sym (e.1)),
      )
  invert-check_servers (svc ∷ r) leader l w w' h =
      let i =
        invert->>= (ensure_equal_string svc.state "UP" code_cluster_faile "node is not up") _ w w' l
          h in
      let up =
        invert-ensure_equal_string svc.state "UP" code_cluster_faile "node is not up" w i.1 i.2 in
      let j = invert->>= (agree_on_leader leader svc.leader) _ i.1 w' l i.3 in
      let agreed = invert-agree_on_leader leader svc.leader j.0 i.1 j.1 j.2 in
      let rest = invert-check_servers r j.0 l _ w' j.3 in
      (
        known (agreed.0) (rest.0),
        ((up.0, known (inr (agreed.1)) (rest.0)), rest.1),
        rest.2 ∙ ap (λ v. v.nacos.spec) (sym (up.1 ∙ agreed.2)),
        rest.3 ∙ ap (λ v. v.nacos.status.conditions) (sym (up.1 ∙ agreed.2)),
      )

-- the names and addresses of the pods that the conditions report, and those of the pods
pub reported : List Condition → List (String × String)
reported [] = []
reported (c ∷ r) = (c.pod_name, c.instance_ip) ∷ reported r

pub named : List Pod → List (String × String)
named [] = []
named (pod ∷ r) = (pod.name, pod.pod_ip) ∷ named r

reported-append :
    (cs : List Condition) (leader : String) (pod : Pod)
    → reported (cs ++ pod_condition leader pod ∷ []) ≡ reported cs ++ (pod.name, pod.pod_ip) ∷ []
unfolding reported pod_condition
reported-append [] leader pod = refl
reported-append (c ∷ r) leader pod =
    ap (λ l. (c.pod_name, c.instance_ip) ∷ l) (reported-append r leader pod)

module _ {K : Type 0} (e : Environment K) where
  -- The pod, asked in some state of the environment, names as many servers as there should be
  -- replicas, and all of them are up and follow the leader.
  abbrev pub Healthy : Option ℤ → String → Pod → Type 0
  Healthy replicas leader pod =
      (k : K) × (k' : K) × (info : ServersInfo) × (get_cluster_nodes e pod.pod_ip k
        ≡ (done (info, none), k'))
      × (replicas ≡ some (pos (length info.servers)))
      × All (Follows leader) info.servers

  weaken :
      (replicas : Option ℤ) (a b : String) (pod : Pod)
      → (a ≡ "") ⊎ (a ≡ b)
      → Healthy replicas a pod
      → Healthy replicas b pod
  weaken replicas a b pod h (k, k', info, p, q, r) =
      (k, k', info, p, q, All-map (Follows a) (Follows b) (λ s f. (f.0, known (f.1) h)) _ r)

  invert-check_pod :
      (leader l : String) (pod : Pod) (w w' : World K)
      → check_pod e leader pod w ≡ (done l, w')
      → ((leader ≡ "") ⊎ (leader ≡ l))
        × Healthy w.nacos.spec.replicas l pod
        × (w'.nacos.spec ≡ w.nacos.spec)
        × (reported w'.nacos.status.conditions
            ≡ reported w.nacos.status.conditions ++ (pod.name, pod.pod_ip) ∷ [])
  unfolding check_pod
  invert-check_pod leader l pod w w' h =
      let asked = invert->>= (reading λ nacos. get_cluster_nodes e pod.pod_ip) _ w w' l h in
      let answer =
        invert-reading (λ nacos. get_cluster_nodes e pod.pod_ip) asked.0 w asked.1 asked.2 in
      let normal =
        invert->>= (ensure_normal_my_error (asked.0).1 code_cluster_faile) _ asked.1 w' l asked.3 in
      let nil =
        invert-ensure_normal_my_error (asked.0).1 code_cluster_faile asked.1 normal.1 normal.2 in
      let read =
        invert->>= (reading λ nacos. lift (dereference nacos.spec.replicas)) _ normal.1 w' l
          normal.3 in
      let held =
        invert-reading (λ nacos. lift (dereference nacos.spec.replicas)) read.0 normal.1 read.1
          read.2 in
      let replicas = invert-dereference (normal.1).nacos.spec.replicas read.0 _ _ held.0 in
      let counted =
        invert->>=
          (ensure_equal_int (pos (length ((asked.0).0).servers)) read.0 code_cluster_faile
            "server num is not equal")
          _ read.1 w' l read.3 in
      let equal =
        invert-ensure_equal_int (pos (length ((asked.0).0).servers)) read.0 code_cluster_faile
          "server num is not equal" read.1 counted.1 counted.2 in
      let checked =
        invert->>= (check_servers leader ((asked.0).0).servers) _ counted.1 w' l counted.3 in
      let servers =
        invert-check_servers ((asked.0).0).servers leader checked.0 counted.1 checked.1 checked.2 in
      let final = invert-pure checked.0 l _ w' checked.3 in
      let start = ap (λ v. v.nacos) (sym nil.1) ∙ answer.1 in
      let same = ap (λ v. v.nacos) (sym equal.1) ∙ held.1 ∙ start in
      (
        known servers.0 (inr final.0),
        weaken w.nacos.spec.replicas checked.0 l pod (inr final.0) (
          w.cluster,
          (asked.1).cluster,
          (asked.0).0,
          answer.0 ∙ ap (λ x. (done ((asked.0).0, x), (asked.1).cluster)) nil.0,
          ap (λ n. n.spec.replicas) (sym start) ∙ replicas ∙ ap some (sym equal.0),
          servers.1,
        ),
        ap (λ v. v.nacos.spec) (sym final.1) ∙ servers.2 ∙ ap (λ n. n.spec) same,
        ap (λ v. reported v.nacos.status.conditions) (sym final.1)
            ∙ reported-append (checked.1).nacos.status.conditions checked.0 pod
            ∙ ap (λ cs. reported cs ++ (pod.name, pod.pod_ip) ∷ [])
                (servers.3 ∙ ap (λ n. n.status.conditions) same),
      )

  invert-check_pods :
      (pods : List Pod) (leader l : String) (w w' : World K)
      → check_pods e leader pods w ≡ (done l, w')
      → ((leader ≡ "") ⊎ (leader ≡ l))
        × All (Healthy w.nacos.spec.replicas l) pods
        × (w'.nacos.spec ≡ w.nacos.spec)
        × (reported w'.nacos.status.conditions ≡ reported w.nacos.status.conditions ++ named pods)
  unfolding check_pods named
  invert-check_pods [] leader l w w' h =
      let i = invert-pure leader l w w' h in
      (
        inr i.0,
        tt,
        ap (λ v. v.nacos.spec) (sym i.1),
        ap (λ v. reported v.nacos.status.conditions) (sym i.1) ∙ sym (append-nil _),
      )
  invert-check_pods (pod ∷ r) leader l w w' h =
      let i = invert->>= (check_pod e leader pod) _ w w' l h in
      let one = invert-check_pod leader i.0 pod w i.1 i.2 in
      let rest = invert-check_pods r i.0 l i.1 w' i.3 in
      (
        known one.0 rest.0,
        (
          weaken w.nacos.spec.replicas i.0 l pod rest.0 one.1,
          subst (λ spec. All (Healthy spec.replicas l) r) one.2 rest.1,
        ),
        rest.2 ∙ one.2,
        rest.3
            ∙ ap (λ cs. cs ++ named r) one.3
            ∙ append_assoc (reported w.nacos.status.conditions) ((pod.name, pod.pod_ip) ∷ [])
                (named r),
      )

  -- When the check of the pods returns, there is one leader such that every pod, asked in some state
  -- of the environment, named as many servers as the resource asks for replicas, all of them up and
  -- reporting either that leader or none. The conditions of the resource then list exactly the
  -- pods, by name and address and in order, and the specification is unchanged.
  pub check_nacos-Healthy :
      (pods : List Pod) (w w' : World K)
      → check_nacos e pods w ≡ (done tt, w')
      → (leader : String) × All (Healthy w.nacos.spec.replicas leader) pods
        × (reported w'.nacos.status.conditions ≡ named pods)
        × (w'.nacos.spec ≡ w.nacos.spec)
  unfolding check_nacos reported
  check_nacos-Healthy pods w w' h =
      let i = invert->>= (check_pods e "" pods) _ _ w' tt h in
      let checked = invert-check_pods pods "" i.0 _ i.1 i.2 in
      let same = (invert-pure tt tt i.1 w' i.3).1 in
      (
        i.0,
        checked.1,
        ap (λ v. reported v.nacos.status.conditions) (sym same) ∙ checked.3,
        ap (λ v. v.nacos.spec) (sym same) ∙ checked.2,
      )
