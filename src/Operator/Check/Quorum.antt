-- ===== src/Operator/Check/Quorum.antt =====
-- What is known of the pods once the stateful set has been checked.
use nacos_k8s.Base.{
  ℕ, ◌*◌, ◌≤◌, String, ◌≡◌, refl, ap, ◌∙◌, true, some, Bool-cases, inl, inr, ℤ, pos, negsuc, int_eq,
  int_eq→eq, arith, List, [], ◌∷◌, length, All, ltb,
}
use mathlib.Core.Path.{subst}
use nacos_k8s.Go.Maps.{RangeOrder}
use nacos_k8s.Errors.{done}
use nacos_k8s.Errors.Laws.{invert->>=, invert-pure, invert-dereference}
use nacos_k8s.Kube.{Pod, StatefulSet}
use nacos_k8s.Api.{Nacos}
use nacos_k8s.Environment.{Environment, Reply, got, refused, lift, dereference}
use nacos_k8s.Services.StatefulSets.{
  is_ready, ready_pods, only_ready, get_stateful_set, get_stateful_set_read_pod,
  get_stateful_set_pods,
}
use nacos_k8s.Operator.Check.{pods_of, quorum, enough_pods, compare_replicas, check_kind}

abbrev pub IsReady : Pod → Type 0
IsReady pod = is_ready pod.conditions ≡ true

ready_pods-All : (pods : List Pod) → All IsReady (ready_pods pods)
unfolding ready_pods
ready_pods-All [] = tt
ready_pods-All (pod ∷ r) = elim (Bool-cases (is_ready pod.conditions)) [
  | inl p ↦ rw p (p, ready_pods-All r)
  | inr p ↦ rw p (ready_pods-All r)
]

only_ready-All : (reply : Reply (List Pod)) → All IsReady (pods_of (only_ready reply))
unfolding only_ready
only_ready-All (refused err) = tt
only_ready-All (got pods) = ready_pods-All pods

quorum_half : (n : ℤ) (m : ℕ) → n ≡ pos m → m ≤ 2 * quorum n
unfolding quorum
quorum_half (pos n) m h = ground (arith, h)
quorum_half (negsuc n) m h = ground (arith, h)

module _ (o : RangeOrder) {K : Type 0} (e : Environment K) where
  -- what the request for the pods returns
  read_pods-Ready :
      (namespace name : String) (reply : Reply (List Pod)) (k k' : K)
      → get_stateful_set_read_pod e o namespace name k ≡ (done reply, k')
      → All IsReady (pods_of reply)
  unfolding get_stateful_set_read_pod
  read_pods-Ready namespace name reply k k' h =
      let i = invert->>= (get_stateful_set_pods e o namespace name) _ k k' reply h in
      subst (λ r. All IsReady (pods_of r)) (invert-pure (only_ready i.0) reply i.1 k' i.3).0
        (only_ready-All i.0)

  invert-enough_pods :
      (nacos : Nacos) (n : ℤ) (pods : List Pod) (k k' : K)
      → enough_pods o e nacos n k ≡ (done pods, k')
      → (quorum n ≤ length pods) × All IsReady pods
  unfolding enough_pods
  invert-enough_pods nacos n pods k k' h =
      let i =
        invert->>= (get_stateful_set_read_pod e o nacos.meta.namespace nacos.meta.name) _ k k' pods
          h in
      let ready = read_pods-Ready nacos.meta.namespace nacos.meta.name i.0 k i.1 i.2 in
      elim (Bool-cases (ltb (length (pods_of i.0)) (quorum n))) [
        | inl p ↦ ground (arith, rw p at i.3)
        | inr p ↦
            let q = (invert-pure (pods_of i.0) pods i.1 k' (rw p at i.3)).0 in
            (subst (λ ps. quorum n ≤ length ps) q (ground (arith, p)), subst (All IsReady) q ready)
      ]

  invert-compare_replicas :
      (nacos : Nacos) (found : Reply StatefulSet) (pods : List Pod) (k k' : K)
      → compare_replicas o e nacos found k ≡ (done pods, k')
      → (n : ℤ) × (ss : StatefulSet) × (nacos.spec.replicas ≡ some n)
        × (found ≡ got ss)
        × (ss.spec.replicas ≡ some n)
        × (quorum n ≤ length pods)
        × All IsReady pods
  unfolding compare_replicas
  invert-compare_replicas nacos (refused err) pods k k' h = ground (arith, h)
  invert-compare_replicas nacos (got ss) pods k k' h =
      let m = invert->>= (lift (dereference ss.spec.replicas)) _ k k' pods h in
      let n = invert->>= (lift (dereference nacos.spec.replicas)) _ m.1 k' pods m.3 in
      let stored = invert-dereference ss.spec.replicas m.0 k m.1 m.2 in
      let asked = invert-dereference nacos.spec.replicas n.0 m.1 n.1 n.2 in
      elim (Bool-cases (int_eq m.0 n.0)) [
        | inl p ↦
            let found = invert-enough_pods nacos n.0 pods n.1 k' (rw p at n.3) in
            (n.0, ss, asked, refl, stored ∙ ap some (int_eq→eq m.0 n.0 p), found.0, found.1)
        | inr p ↦ ground (arith, rw p at n.3)
      ]

  -- When the check of the stateful set returns, the resource asks for some number of replicas, the
  -- stored stateful set asks for the same number, and the pods that are returned are ready and at
  -- least half as many.
  pub check_kind-Ready :
      (nacos : Nacos) (pods : List Pod) (k k' : K)
      → check_kind o e nacos k ≡ (done pods, k')
      → (n : ℤ) × (ss : StatefulSet) × (nacos.spec.replicas ≡ some n)
        × ((e.stateful_sets.get nacos.meta.namespace nacos.meta.name k).0 ≡ got ss)
        × (ss.spec.replicas ≡ some n)
        × All IsReady pods
        × ((m : ℕ) → n ≡ pos m → m ≤ 2 * length pods)
  unfolding check_kind get_stateful_set
  check_kind-Ready nacos pods k k' h =
      let r =
        invert-compare_replicas nacos (e.stateful_sets.get nacos.meta.namespace nacos.meta.name k).0
          pods (e.stateful_sets.get nacos.meta.namespace nacos.meta.name k).1 k' h in
      (r.0, r.1, r.2, r.3, r.4, r.6, λ m p. omega (arith, quorum_half r.0 m p, r.5))
