-- ===== src/Services/StatefulSets/Laws.antt =====
-- When a stored stateful set is updated, deleted or left alone.
use nacos_k8s.Base.{
  ◌≡◌, refl, String, none, eq_refl, int_eq_refl, int_eq→eq, eq_iff, Bool, true, false, some, List,
  [], ◌∷◌, ◌==◌, ◌||◌, not, ℤ, int_eq, if◌then◌else◌, Bool-cases, inl, inr,
}
use nacos_k8s.Errors.{done}
use nacos_k8s.Kube.{StatefulSet, Container}
use nacos_k8s.Environment.{Environment, got, call}
use nacos_k8s.Services.StatefulSets.{
  keep, update, needs_update, check_claims, check_volume_claim_templates, check_sts,
  get_stateful_set, update_stateful_set, apply_operator, write_stateful_set,
  create_or_update_stateful_set,
}

module _ {K : Type 0} (e : Environment K) where
  -- the two stateful sets as the comparison sees them: their first containers, their numbers of
  -- replicas, and no claim templates
  abbrev pub Compared : StatefulSet → Container → ℤ → Type 0
  Compared ss c n =
      ((r : List Container) × (ss.spec.template.spec.containers ≡ c ∷ r))
      × (ss.spec.replicas ≡ some n)
      × (ss.spec.volume_claim_templates ≡ [])

  needs_update_lem :
      (old new : StatefulSet) (a b : Container) (m n : ℤ)
      → old.spec.replicas ≡ some m
      → new.spec.replicas ≡ some n
      → needs_update e old a new b
        ≡ done (
            not (e.marshal_resources a.resources == e.marshal_resources b.resources)
            || (not (int_eq m n) || not (e.marshal_env a.env == e.marshal_env b.env)))
  unfolding needs_update
  needs_update_lem old new a b m n p q =
      elim (Bool-cases (e.marshal_resources a.resources == e.marshal_resources b.resources)) [
        | inl h ↦ rw (h, p, q) refl
        | inr h ↦ rw h refl
      ]

  check_sts_lem :
      (old new : StatefulSet) (a b : Container) (m n : ℤ)
      → Compared old a m
      → Compared new b n
      → check_sts e old new
        ≡ done (
            if not (e.marshal_resources a.resources == e.marshal_resources b.resources)
              || (not (int_eq m n) || not (e.marshal_env a.env == e.marshal_env b.env))
            then update
            else keep)
  unfolding check_sts check_volume_claim_templates check_claims
  check_sts_lem old new a b m n (c, p, v) (d, q, w) =
      rw (c.1, d.1, v, w, needs_update_lem old new a b m n p q) refl

  -- When the stored stateful set and the new one have no claim templates, the same number of
  -- replicas, and first containers whose resources and variables encode alike, the new one is not
  -- applied and no error is returned, whatever else it changes, such as an image or a probe.
  pub unseen_change :
      (namespace : String) (old new : StatefulSet) (a b : Container) (n : ℤ) (k k' : K)
      → e.stateful_sets.get namespace new.meta.name k ≡ (got old, k')
      → Compared old a n
      → Compared new b n
      → e.marshal_resources a.resources ≡ e.marshal_resources b.resources
      → e.marshal_env a.env ≡ e.marshal_env b.env
      → create_or_update_stateful_set e namespace new k ≡ (done none, k')
  unfolding create_or_update_stateful_set get_stateful_set write_stateful_set apply_operator
  unseen_change namespace old new a b n k k' found p q r v =
      rw
        (
          found,
          check_sts_lem old new a b n n p q,
          r,
          v,
          int_eq_refl n,
          eq_refl (e.marshal_resources b.resources),
          eq_refl (e.marshal_env b.env),
        )
        refl

  -- When the stored stateful set and the new one have no claim templates, each a first container
  -- and a number of replicas, and the encodings of the first containers' resources, the encodings of
  -- their variables or the replicas differ, one update is sent, with the new stateful set under the
  -- stored one's resource version, and its answer is returned.
  pub seen_change :
      (namespace : String) (old new : StatefulSet) (a b : Container) (m n : ℤ) (k k' : K)
      → e.stateful_sets.get namespace new.meta.name k ≡ (got old, k')
      → Compared old a m
      → Compared new b n
      → ((m ≡ n
          → e.marshal_resources a.resources ≡ e.marshal_resources b.resources
          → e.marshal_env a.env ≡ e.marshal_env b.env
          → ⊥))
      → create_or_update_stateful_set e namespace new k
        ≡ call
            (e.stateful_sets.update namespace (record new {
              meta = record (new.meta) { resource_version = old.meta.resource_version };
            }))
            k'
  unfolding create_or_update_stateful_set get_stateful_set write_stateful_set apply_operator
      update_stateful_set
  seen_change namespace old new a b m n k k' found p q differ =
      rw (found, check_sts_lem old new a b m n p q, seen) refl
    where
      seen :
          (not (e.marshal_resources a.resources == e.marshal_resources b.resources)
            || (not (int_eq m n) || not (e.marshal_env a.env == e.marshal_env b.env)))
          ≡ true
      seen =
          decide (e.marshal_resources a.resources == e.marshal_resources b.resources) (int_eq m n)
            (e.marshal_env a.env == e.marshal_env b.env) refl refl refl
        where
          decide :
              (x y z : Bool)
              → (e.marshal_resources a.resources == e.marshal_resources b.resources) ≡ x
              → int_eq m n ≡ y
              → (e.marshal_env a.env == e.marshal_env b.env) ≡ z
              → (not x || (not y || not z)) ≡ true
          decide false y z h i j = refl
          decide true false z h i j = refl
          decide true true false h i j = refl
          decide true true true h i j =
              absurd (differ (int_eq→eq m n i) ((eq_iff _ _).0 h) ((eq_iff _ _).0 j))
