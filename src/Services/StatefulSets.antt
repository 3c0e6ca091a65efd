-- ===== src/Services/StatefulSets.antt =====
-- operator/pkg/service/k8s/statefulset.go
pub mod Laws
pub mod Selection
use nacos_k8s.Base.{
  String, Bool, true, false, Option, none, some, List, [], ◌∷◌, ◌==◌, ◌||◌, not, if◌then◌else◌,
  join, concat, int_eq, eqb, length,
}
use nacos_k8s.Go.Maps.{Map, RangeOrder}
use nacos_k8s.Errors.{Error, not_found, failure, Outcome, done, panic, Exec, pure, ◌>>=◌}
use nacos_k8s.Kube.{StatefulSet, Container, Pod, PodCondition, PersistentVolumeClaim}
use nacos_k8s.Environment.{
  Reply, got, refused, Environment, call, lift, and_then, dereference, index_out_of_range,
}

-- `labels = append(labels, fmt.Sprintf("%s=%s", k, v))`
unfoldable pub label_terms : Map String → List String
label_terms [] = []
label_terms ((k, v) ∷ r) = concat k (concat "=" v) ∷ label_terms r

-- the inner loop of `GetStatefulSetReadPod`: the first condition of type `Ready` decides
unfoldable pub is_ready : List PodCondition → Bool
is_ready [] = false
is_ready (c ∷ r) = if c.type == "Ready" then c.status == "True" else is_ready r

unfoldable pub ready_pods : List Pod → List Pod
unfolding is_ready
ready_pods [] = []
ready_pods (pod ∷ r) =
    let rest = ready_pods r in if is_ready pod.conditions then pod ∷ rest else rest

-- the pods of an answer
unfoldable pub only_ready : Reply (List Pod) → Reply (List Pod)
unfolding ready_pods
only_ready (refused err) = refused err
only_ready (got pods) = got (ready_pods pods)

-- the type `operator`
pub data Operator : Type 0 where
  keep update delete : Operator

abbrev first {ℓ} : {A : Type ℓ} → List A → Outcome A
first [] = panic index_out_of_range
first (x ∷ xs) = done x

module _ {K : Type 0} (e : Environment K) where
  -- the comparison of the first templates
  unfoldable pub claims_differ : PersistentVolumeClaim → PersistentVolumeClaim → Outcome Bool
  claims_differ old new =
      if e.marshal_resources old.spec.resources == e.marshal_resources new.spec.resources
      then (and_then (dereference old.spec.storage_class_name) λ a.
          and_then (dereference new.spec.storage_class_name) λ b. done (not (e.equal_fold a b)))
      else done true

  unfoldable pub check_claims :
      List PersistentVolumeClaim → List PersistentVolumeClaim → Outcome Bool
  unfolding claims_differ
  check_claims [] [] = done false
  check_claims [] (n ∷ ns) = done true
  check_claims (o ∷ os) [] = done true
  check_claims (o ∷ os) (n ∷ ns) =
      if eqb (length os) (length ns) then claims_differ o n else done true

  unfoldable pub check_volume_claim_templates : StatefulSet → StatefulSet → Outcome Bool
  unfolding check_claims
  check_volume_claim_templates old new =
      check_claims old.spec.volume_claim_templates new.spec.volume_claim_templates

  -- `!bytes.Equal(rsA, rsB) || *old.Spec.Replicas != *new.Spec.Replicas || !bytes.Equal(envA, envB)`
  unfoldable pub needs_update : StatefulSet → Container → StatefulSet → Container → Outcome Bool
  needs_update old a new b =
      if e.marshal_resources a.resources == e.marshal_resources b.resources
      then (and_then (dereference old.spec.replicas) λ m.
          and_then (dereference new.spec.replicas)
            λ n. done (not (int_eq m n) || not (e.marshal_env a.env == e.marshal_env b.env)))
      else done true

  unfoldable pub check_sts : StatefulSet → StatefulSet → Outcome Operator
  unfolding check_volume_claim_templates needs_update
  check_sts old new = and_then (first old.spec.template.spec.containers) λ a.
      and_then (first new.spec.template.spec.containers) λ b.
        and_then (check_volume_claim_templates old new) λ deleted.
          if deleted
          then done delete
          else and_then (needs_update old a new b)
              λ updated. done (if updated then update else keep)

  unfoldable pub get_stateful_set : String → String → Exec K (Reply StatefulSet)
  get_stateful_set namespace name = call (e.stateful_sets.get namespace name)

  unfoldable pub create_stateful_set : String → StatefulSet → Exec K (Option Error)
  create_stateful_set namespace ss = call (e.stateful_sets.create namespace ss)

  unfoldable pub update_stateful_set : String → StatefulSet → Exec K (Option Error)
  update_stateful_set namespace ss = call (e.stateful_sets.update namespace ss)

  unfoldable pub delete_stateful_set : String → String → Exec K (Option Error)
  delete_stateful_set namespace name = call (e.stateful_sets.delete namespace name)

  unfoldable pub list_stateful_sets : String → Exec K (Reply (List StatefulSet))
  list_stateful_sets namespace = call (e.stateful_sets.list namespace)

  -- the pods that a stateful set selects; loop 140
  unfoldable pub list_selected : RangeOrder → String → Reply StatefulSet → Exec K (Reply (List Pod))
  unfolding label_terms
  list_selected o namespace (refused err) = pure (refused err)
  list_selected o namespace (got ss) = do
    selector ← lift (dereference ss.spec.selector)
    call (e.list_pods namespace (join "," (label_terms (o.range 140 String selector.match_labels))))

  unfoldable pub get_stateful_set_pods : RangeOrder → String → String → Exec K (Reply (List Pod))
  unfolding get_stateful_set list_selected
  get_stateful_set_pods o namespace name = do
    found ← get_stateful_set namespace name
    list_selected o namespace found

  unfoldable pub get_stateful_set_read_pod :
      RangeOrder → String → String → Exec K (Reply (List Pod))
  unfolding get_stateful_set_pods only_ready
  get_stateful_set_read_pod o namespace name = do
    found ← get_stateful_set_pods o namespace name
    pure (only_ready found)

  -- what `CreateOrUpdateStatefulSet` does with a stored stateful set
  unfoldable pub apply_operator :
      Operator → String → StatefulSet → StatefulSet → Exec K (Option Error)
  unfolding update_stateful_set delete_stateful_set
  apply_operator update namespace stored ss =
      update_stateful_set namespace
        (record ss { meta = record (ss.meta) { resource_version = stored.meta.resource_version } })
  apply_operator delete namespace stored ss = delete_stateful_set namespace stored.meta.name
  apply_operator keep namespace stored ss = pure none

  -- what `CreateOrUpdateStatefulSet` does with the answer to its request
  unfoldable pub write_stateful_set :
      String → StatefulSet → Reply StatefulSet → Exec K (Option Error)
  unfolding create_stateful_set check_sts apply_operator
  write_stateful_set namespace ss (refused (not_found s)) = create_stateful_set namespace ss
  write_stateful_set namespace ss (refused (failure s)) = pure (some (failure s))
  write_stateful_set namespace ss (got stored) = do
    op ← lift (check_sts stored ss)
    apply_operator op namespace stored ss

  unfoldable pub create_or_update_stateful_set : String → StatefulSet → Exec K (Option Error)
  unfolding get_stateful_set write_stateful_set
  create_or_update_stateful_set namespace ss = do
    found ← get_stateful_set namespace ss.meta.name
    write_stateful_set namespace ss found
