-- ===== src/Operator/Check/Listed.antt =====
-- Where the pods of the check come from: the API server lists them for the labels that the stateful
-- set selects, and the ready ones are kept.
use nacos_k8s.Base.{
  String, ◌≡◌, refl, sym, ap, ◌∙◌, some, List, [], ◌∷◌, ℤ, join, ◌⊎◌, inl, inr, Bool-cases, int_eq,
  ltb, length, arith,
}
use mathlib.Core.Path.{subst}
use nacos_k8s.Go.Maps.{IsMap, RangeOrder}
use nacos_k8s.Errors.{done}
use nacos_k8s.Errors.Laws.{invert->>=, invert-pure, invert-dereference}
use nacos_k8s.Kube.{Pod, StatefulSet, LabelSelector}
use nacos_k8s.Api.{Nacos}
use nacos_k8s.Environment.{Environment, Reply, got, refused, lift, dereference}
use nacos_k8s.Services.StatefulSets.{
  label_terms, is_ready, ready_pods, only_ready, get_stateful_set, list_selected,
  get_stateful_set_pods, get_stateful_set_read_pod,
}
use nacos_k8s.Services.StatefulSets.Selection.{Asks, label_terms-Asks}
use nacos_k8s.Operator.Check.{pods_of, quorum, enough_pods, compare_replicas, check_kind}
use nacos_k8s.Operator.Check.Quorum.{IsReady}

-- the second list has exactly the ready pods of the first, in their order
pub data ReadyOf : List Pod → List Pod → Type 0 where
  none_listed : ReadyOf [] []
  ready :
      {pod : Pod} {ps qs : List Pod} → IsReady pod → ReadyOf ps qs → ReadyOf (pod ∷ ps) (pod ∷ qs)
  unready :
      {pod : Pod} {ps qs : List Pod} → (IsReady pod → ⊥) → ReadyOf ps qs → ReadyOf (pod ∷ ps) qs

ready_pods-ReadyOf : (pods : List Pod) → ReadyOf pods (ready_pods pods)
unfolding ready_pods
ready_pods-ReadyOf [] = none_listed
ready_pods-ReadyOf (pod ∷ r) = elim (Bool-cases (is_ready pod.conditions)) [
  | inl p ↦ rw p (ready p (ready_pods-ReadyOf r))
  | inr p ↦ rw p (unready (λ h. cc (sym h ∙ p)) (ready_pods-ReadyOf r))
]

module _ {K : Type 0} (e : Environment K) where
  -- In the state `k` the stateful set is found, and then the API server, asked by its labels, lists
  -- pods of which these are the ready ones.
  pub record Listed (namespace name : String) (k : K) (pods : List Pod) : Type 0 where
    pub stored : StatefulSet
    pub selector : LabelSelector
    pub labels : String
    pub listed : List Pod
    pub found : (e.stateful_sets.get namespace name k).0 ≡ got stored
    pub selects : stored.spec.selector ≡ some selector
    pub asks : IsMap selector.match_labels → Asks labels selector.match_labels
    pub lists :
        (e.list_pods namespace labels (e.stateful_sets.get namespace name k).1).0 ≡ got listed
    pub kept : ReadyOf listed pods

module _ (o : RangeOrder) {K : Type 0} (e : Environment K) where
  from_reply :
      (namespace name : String) (k k' : K) (ss : StatefulSet) (sel : LabelSelector)
      (reply : Reply (List Pod))
      → (e.stateful_sets.get namespace name k).0 ≡ got ss
      → ss.spec.selector ≡ some sel
      → (e.list_pods namespace
          (join "," (label_terms (o.range 140 String sel.match_labels)))
          (e.stateful_sets.get namespace name k).1).0
        ≡ reply
      → (pods_of (only_ready reply) ≡ []) ⊎ Listed e namespace name k (pods_of (only_ready reply))
  unfolding only_ready
  from_reply namespace name k k' ss sel (refused err) f p q = inl refl
  from_reply namespace name k k' ss sel (got listed) f p q = inr (record {
    stored = ss;
    selector = sel;
    labels = join "," (label_terms (o.range 140 String sel.match_labels));
    listed = listed;
    found = f;
    selects = p;
    asks = label_terms-Asks o 140 sel.match_labels;
    lists = q;
    kept = ready_pods-ReadyOf listed;
  })

  selected-Listed :
      (namespace name : String) (k k' : K) (found : Reply StatefulSet) (reply : Reply (List Pod))
      → (e.stateful_sets.get namespace name k).0 ≡ found
      → list_selected e o namespace found (e.stateful_sets.get namespace name k).1
        ≡ (done reply, k')
      → (pods_of (only_ready reply) ≡ []) ⊎ Listed e namespace name k (pods_of (only_ready reply))
  unfolding list_selected only_ready
  selected-Listed namespace name k k' (refused err) reply f h =
      inl (ap (λ r. pods_of (only_ready r)) (sym (invert-pure (refused err) reply _ k' h).0))
  selected-Listed namespace name k k' (got ss) reply f h =
      let i =
        invert->>= (lift (dereference ss.spec.selector)) _ (e.stateful_sets.get namespace name k).1
          k' reply h in
      let sel = invert-dereference ss.spec.selector i.0 _ i.1 i.2 in
      let same = ap (λ r. r.1) (sym i.2) in
      let asked =
        invert-pure
          (e.list_pods namespace (join "," (label_terms (o.range 140 String (i.0).match_labels)))
            i.1).0
          reply _ k' i.3 in
      from_reply namespace name k k' ss i.0 reply f sel (
        ap
          (λ t.
            (e.list_pods namespace (join "," (label_terms (o.range 140 String (i.0).match_labels)))
              t).0)
          (sym same)
        ∙ asked.0)

  enough_pods-Listed :
      (nacos : Nacos) (n : ℤ) (pods : List Pod) (k k' : K)
      → enough_pods o e nacos n k ≡ (done pods, k')
      → (pods ≡ []) ⊎ Listed e nacos.meta.namespace nacos.meta.name k pods
  unfolding enough_pods get_stateful_set_read_pod get_stateful_set_pods get_stateful_set
  enough_pods-Listed nacos n pods k k' h =
      let read = get_stateful_set_read_pod e o nacos.meta.namespace nacos.meta.name in
      let all = get_stateful_set_pods e o nacos.meta.namespace nacos.meta.name in
      let one = get_stateful_set e nacos.meta.namespace nacos.meta.name in
      let i = invert->>= read _ k k' pods h in
      let j = invert->>= all _ k i.1 i.0 i.2 in
      let l = invert->>= one (list_selected e o nacos.meta.namespace) k j.1 j.0 j.2 in
      let g =
        invert-pure (e.stateful_sets.get nacos.meta.namespace nacos.meta.name k).0 l.0 _ l.1 l.2 in
      let made = selected-Listed nacos.meta.namespace nacos.meta.name k j.1 l.0 j.0 g.0 (
        subst (λ t. list_selected e o nacos.meta.namespace l.0 t ≡ (done j.0, j.1)) (sym g.1)
          l.3) in
      let kept = ap pods_of (invert-pure (only_ready j.0) i.0 j.1 i.1 j.3).0 in
      elim (Bool-cases (ltb (length (pods_of i.0)) (quorum n))) [
        | inl p ↦ absurd (ground (arith, rw p at i.3))
        | inr p ↦
            let q = kept ∙ (invert-pure (pods_of i.0) pods i.1 k' (rw p at i.3)).0 in
            subst (λ ps. (ps ≡ []) ⊎ Listed e nacos.meta.namespace nacos.meta.name k ps) q made
      ]

  compare_replicas-Listed :
      (nacos : Nacos) (found : Reply StatefulSet) (pods : List Pod) (k k' : K)
      → compare_replicas o e nacos found k ≡ (done pods, k')
      → (pods ≡ []) ⊎ Listed e nacos.meta.namespace nacos.meta.name k pods
  unfolding compare_replicas
  compare_replicas-Listed nacos (refused err) pods k k' h = absurd (ground (arith, h))
  compare_replicas-Listed nacos (got ss) pods k k' h =
      let m = invert->>= (lift (dereference ss.spec.replicas)) _ k k' pods h in
      let n = invert->>= (lift (dereference nacos.spec.replicas)) _ m.1 k' pods m.3 in
      let same = ap (λ r. r.1) (sym n.2) ∙ ap (λ r. r.1) (sym m.2) in
      elim (Bool-cases (int_eq m.0 n.0)) [
        | inl p ↦
            subst (λ t. (pods ≡ []) ⊎ Listed e nacos.meta.namespace nacos.meta.name t pods) same
              (enough_pods-Listed nacos n.0 pods n.1 k' (rw p at n.3))
        | inr p ↦ absurd (ground (arith, rw p at n.3))
      ]

  -- The pods that the check of the stateful set returns, if there are any, are the ready ones among
  -- those that the API server lists right after the stateful set has been asked for again.
  pub check_kind-Listed :
      (nacos : Nacos) (pods : List Pod) (k k' : K)
      → check_kind o e nacos k ≡ (done pods, k')
      → (pods ≡ [])
        ⊎ Listed e nacos.meta.namespace nacos.meta.name
            (e.stateful_sets.get nacos.meta.namespace nacos.meta.name k).1
            pods
  unfolding check_kind get_stateful_set
  check_kind-Listed nacos pods k k' h =
      compare_replicas-Listed nacos (e.stateful_sets.get nacos.meta.namespace nacos.meta.name k).0
        pods (e.stateful_sets.get nacos.meta.namespace nacos.meta.name k).1 k' h
