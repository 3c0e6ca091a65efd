-- ===== src/Operator/Check/Runs.antt =====
-- When the whole check passes: the cluster runs what the resource asks for.
use nacos_k8s.Base.{
  ℕ, ◌*◌, ◌≤◌, ltb, String, ◌≡◌, refl, ap, false, some, List, ◌∷◌, All, length, pos, int_eq_refl,
  Bool-cases, inl, inr, arith,
}
use nacos_k8s.Go.Maps.{RangeOrder, IsMap}
use nacos_k8s.Errors.{done}
use nacos_k8s.Services.StatefulSets.{
  is_ready, ready_pods, get_stateful_set, get_stateful_set_pods, get_stateful_set_read_pod,
  list_selected, only_ready,
}
use nacos_k8s.Services.StatefulSets.Selection.{Asks, label_terms-Asks}
use nacos_k8s.Kube.{Pod, StatefulSet, LabelSelector}
use nacos_k8s.Api.{Nacos}
use nacos_k8s.Environment.{Environment, got, lift, dereference}
use nacos_k8s.ApiServer.{Cluster, IsServer}
use nacos_k8s.Operator.World.{World, reading}
use nacos_k8s.Operator.Quiet
use nacos_k8s.Operator.Stages.{check_and_make_heal}
use nacos_k8s.Operator.Check.{quorum, check_nacos, check_kind, compare_replicas, enough_pods}
use nacos_k8s.Operator.Check.Listed.{ReadyOf, none_listed, ready, unready}
use nacos_k8s.Operator.Check.Settles.{>>=-returns, Shows, still-Shows, Serves, check_nacos-passes}

-- the code keeps the ready pods, and no others
ready_pods-of : (ps qs : List Pod) → ReadyOf ps qs → ready_pods ps ≡ qs
unfolding ready_pods
ready_pods-of ps qs none_listed = refl
ready_pods-of ps qs (ready {pod = pod} {ps = ps'} {qs = qs'} h r) =
    rw h (ap (λ l. pod ∷ l) (ready_pods-of ps' qs' r))
ready_pods-of ps qs (unready {pod = pod} {ps = ps'} n r) =
    elim (Bool-cases (is_ready pod.conditions)) [
      | inl p ↦ absurd (n p)
      | inr p ↦ rw p (ready_pods-of ps' qs r)
    ]

many_pods : (n m : ℕ) → n ≤ 2 * m → ltb m (quorum (pos n)) ≡ false
unfolding quorum
many_pods n m h = ground (arith, h)

module _ {K : Type 0} (e : Environment K) (s : IsServer e) where
  -- As long as the objects are these, the stateful set is found and asks for the replicas of the
  -- resource, and the pods that its labels select are listed, at least half as many of them ready.
  pub record Runs (seen : Cluster) (nacos : Nacos) (pods : List Pod) : Type 0 where
    pub replicas : ℕ
    pub stored : StatefulSet
    pub selector : LabelSelector
    pub listed : List Pod
    pub wanted : nacos.spec.replicas ≡ some (pos replicas)
    pub found :
        (k : K)
        → Shows e s seen k
        → (e.stateful_sets.get nacos.meta.namespace nacos.meta.name k).0 ≡ got stored
    pub scaled : stored.spec.replicas ≡ some (pos replicas)
    pub selects : stored.spec.selector ≡ some selector
    pub distinct : IsMap selector.match_labels
    pub lists :
        (labels : String) (k : K)
        → Shows e s seen k
        → Asks labels selector.match_labels
        → (e.list_pods nacos.meta.namespace labels k).0 ≡ got listed
    pub kept : ReadyOf listed pods
    pub half : replicas ≤ 2 * length pods

module _ (o : RangeOrder) {K : Type 0} (e : Environment K) (s : IsServer e) (seen : Cluster)
    (nacos : Nacos) (pods : List Pod) (r : Runs e s seen nacos pods) where
  abbrev There : K → Type 0
  There = Shows e s seen

  found-passes :
      (k : K)
      → There k
      → (get_stateful_set e nacos.meta.namespace nacos.meta.name k).0 ≡ done (got r.stored)
  unfolding get_stateful_set
  found-passes k t = ap done (r.found k t)

  -- the request for the stateful set changes no object
  found-Shows :
      (k : K) → There k → There (get_stateful_set e nacos.meta.namespace nacos.meta.name k).1
  found-Shows k t =
      still-Shows e s seen (get_stateful_set e nacos.meta.namespace nacos.meta.name) k
        ((Quiet.get_stateful_set-Quiet o e s _) nacos.meta.namespace nacos.meta.name) t

  list_selected-passes :
      (k : K)
      → There k
      → (list_selected e o nacos.meta.namespace (got r.stored) k).0 ≡ done (got r.listed)
  unfolding list_selected
  list_selected-passes k t =
      >>=-returns (lift (dereference (r.stored).spec.selector)) _ k r.selector (got r.listed)
        (ap dereference r.selects)
        (ap done (r.lists _ k t (label_terms-Asks o 140 (r.selector).match_labels r.distinct)))

  read_pod-passes :
      (k : K)
      → There k
      → (get_stateful_set_read_pod e o nacos.meta.namespace nacos.meta.name k).0 ≡ done (got pods)
  unfolding get_stateful_set_read_pod get_stateful_set_pods only_ready
  read_pod-passes k t =
      >>=-returns (get_stateful_set_pods e o nacos.meta.namespace nacos.meta.name) _ k
        (got r.listed) (got pods)
        (>>=-returns (get_stateful_set e nacos.meta.namespace nacos.meta.name)
          (list_selected e o nacos.meta.namespace) k (got r.stored) (got r.listed)
          (found-passes k t) (list_selected-passes _ (found-Shows k t)))
        (ap (λ l. done (got l)) (ready_pods-of r.listed pods r.kept))

  enough_pods-passes : (k : K) → There k → (enough_pods o e nacos (pos r.replicas) k).0 ≡ done pods
  unfolding enough_pods
  enough_pods-passes k t =
      >>=-returns (get_stateful_set_read_pod e o nacos.meta.namespace nacos.meta.name) _ k
        (got pods) pods (read_pod-passes k t) (rw (many_pods r.replicas (length pods) r.half) refl)

  compare-passes : (k : K) → There k → (compare_replicas o e nacos (got r.stored) k).0 ≡ done pods
  unfolding compare_replicas
  compare-passes k t =
      rw (r.scaled, r.wanted, int_eq_refl (pos r.replicas)) (enough_pods-passes k t)

  check_kind-passes : (k : K) → There k → (check_kind o e nacos k).0 ≡ done pods
  unfolding check_kind
  check_kind-passes k t =
      >>=-returns (get_stateful_set e nacos.meta.namespace nacos.meta.name)
        (compare_replicas o e nacos) k (got r.stored) pods (found-passes k t)
        (compare-passes _ (found-Shows k t))

module _ (o : RangeOrder) {K : Type 0} (e : Environment K) (s : IsServer e) (seen : Cluster) where
  -- The whole check passes on a cluster that runs what the resource asks for and whose servers agree.
  pub check_and_make_heal-passes :
      (leader : String) (pods : List Pod) (w : World K)
      → Shows e s seen w.cluster
      → Runs e s seen w.nacos pods
      → All (Serves e s seen leader w.nacos.spec.replicas) pods
      → (check_and_make_heal o e w).0 ≡ done tt
  unfolding check_and_make_heal
  check_and_make_heal-passes leader pods w at r t =
      let kind = (reading (check_kind o e) w).1 in
      let there : Shows e s seen kind.cluster =
        still-Shows e s seen (check_kind o e w.nacos) w.cluster
          ((Quiet.check_kind-Quiet o e s _) w.nacos) at in
      >>=-returns (reading (check_kind o e)) (check_nacos e) w pods tt
        (check_kind-passes o e s seen w.nacos pods r w.cluster at)
        (check_nacos-passes o e s seen leader pods kind there t)
