-- ===== src/Operator/Creates.antt =====
-- `MakeEnsure` returns for a resource that has no stateful set yet.
use nacos_k8s.Base.{
  ℕ, String, suc, ◌≡◌, refl, ◌∙◌, Bool, true, false, none, some, ◌==◌, ◌⊎◌, inl, inr, pos,
  if◌then◌else◌, eq_iff, arith,
}
use nacos_k8s.Go.Maps.{RangeOrder}
use nacos_k8s.Errors.{Exec, done, pure, ◌>>=◌}
use nacos_k8s.Api.{Nacos}
use nacos_k8s.Environment.{Environment}
use nacos_k8s.ApiServer.{IsServer, config_map, stateful_set}
use nacos_k8s.ApiServer.Willing.{IsWilling}
use nacos_k8s.Kind.Defaults.{validation_field, type_stand_alone, type_cluster}
use nacos_k8s.Kind.StatefulSet.{sets_up_mysql}
use nacos_k8s.Kind.Ensure.{
  ensure_configmap, ensure_statefulset, ensure_service, ensure_mysql_config_map, ensure_job,
  ensure_statefulset_cluster, ensure_headless_service_cluster, ensure_client_service,
}
use nacos_k8s.Kind.Ensure.Owned
use nacos_k8s.Kind.Ensure.Works
use nacos_k8s.Operator.World.{World}
use nacos_k8s.Operator.Check.Settles.{>>=-returns}
use nacos_k8s.Operator.Stages.{
  ensure_mysql, ensure_stand_alone, ensure_cluster, ensure_type, make_ensure,
}

set-config : {a b c d : String} → stateful_set a b ≡ config_map c d → ⊥
set-config h = cc

module _ (o : RangeOrder) {K : Type 0} (e : Environment K) (s : IsServer e) (w : IsWilling e s)
    (nacos : Nacos) where
  then_works :
      (m n : Exec K (Unit {0})) (k : K)
      → (m k).0 ≡ done tt
      → (n (m k).1).0 ≡ done tt
      → ((m >>= λ a. n) k).0 ≡ done tt
  then_works m n k = >>=-returns m (λ a. n) k tt tt

  -- a branch that is taken
  either_works :
      (b : Bool) (m n : Exec K (Unit {0})) (k : K)
      → (b ≡ true → (m k).0 ≡ done tt)
      → (b ≡ false → (n k).0 ≡ done tt)
      → ((if b then m else n) k).0 ≡ done tt
  either_works true m n k h p = h refl
  either_works false m n k h p = p refl

  ensure_mysql-works : (k : K) → (ensure_mysql o e nacos k).0 ≡ done tt
  unfolding ensure_mysql
  ensure_mysql-works k =
      either_works (sets_up_mysql nacos) _ (pure tt) k
        (λ p.
          then_works (ensure_mysql_config_map o e nacos) (ensure_job o e nacos) k
            (Works.ensure_mysql_config_map-works o e s w nacos k)
            (Works.ensure_job-works o e s w nacos _))
        λ p. refl

  -- no stateful set of the resource's name in the cluster
  abbrev pub IsAbsent : K → Type 0
  IsAbsent k = s.view k (stateful_set nacos.meta.namespace nacos.meta.name) ≡ none

  still-IsAbsent : (k : K) → IsAbsent k → IsAbsent (ensure_configmap o e nacos k).1
  still-IsAbsent k h =
      (Owned.ensure_configmap-Frames o e s nacos
          (λ q. stateful_set nacos.meta.namespace nacos.meta.name ≡ q → ⊥) set-config).framed
        k _ (λ n. n refl)
      ∙ h

  module _ (n : ℕ) (r : nacos.spec.replicas ≡ some (pos (suc n))) where
    stand_alone-works : (k : K) → IsAbsent k → (ensure_stand_alone o e nacos k).0 ≡ done tt
    unfolding ensure_stand_alone
    stand_alone-works k h =
        then_works (ensure_configmap o e nacos) _ k (Works.ensure_configmap-works o e s w nacos k) (
          then_works (ensure_statefulset o e nacos) _ _
            (Works.ensure_statefulset-works o e s w nacos (pos (suc n)) r _ (still-IsAbsent k h))
            (then_works (ensure_service o e nacos) (ensure_mysql o e nacos) _
              (Works.ensure_service-works o e s w nacos _) (ensure_mysql-works _)))

    cluster-works : (k : K) → IsAbsent k → (ensure_cluster o e nacos k).0 ≡ done tt
    unfolding ensure_cluster
    cluster-works k h =
        then_works (ensure_configmap o e nacos) _ k (Works.ensure_configmap-works o e s w nacos k) (
          then_works (ensure_statefulset_cluster o e nacos) _ _
            (Works.ensure_statefulset_cluster-works o e s w nacos n _ r (still-IsAbsent k h))
            (then_works (ensure_headless_service_cluster o e nacos) _ _
              (Works.ensure_headless-works o e s w nacos _)
              (then_works (ensure_client_service o e nacos) (ensure_mysql o e nacos) _
                (Works.ensure_client_service-works o e s w nacos _) (ensure_mysql-works _))))

    ensure_type-works :
        (k : K)
        → (nacos.spec.type ≡ type_stand_alone) ⊎ (nacos.spec.type ≡ type_cluster)
        → IsAbsent k
        → (ensure_type o e nacos k).0 ≡ done tt
    unfolding ensure_type
    ensure_type-works k t h =
        either_works (nacos.spec.type == type_stand_alone) (ensure_stand_alone o e nacos) _ k
          (λ p. stand_alone-works k h)
          λ p.
            either_works (nacos.spec.type == type_cluster) (ensure_cluster o e nacos) _ k
              (λ q. cluster-works k h) λ q. absurd (neither t p q)
      where
        neither :
            (nacos.spec.type ≡ type_stand_alone) ⊎ (nacos.spec.type ≡ type_cluster)
            → (nacos.spec.type == type_stand_alone) ≡ false
            → (nacos.spec.type == type_cluster) ≡ false
            → ⊥
        neither (inl t) p q = ground (arith, p, (eq_iff nacos.spec.type type_stand_alone).1 t)
        neither (inr t) p q = ground (arith, q, (eq_iff nacos.spec.type type_cluster).1 t)

module _ (o : RangeOrder) {K : Type 0} (e : Environment K) (s : IsServer e)
    (w : IsWilling e s) where
  -- The second stage of a reconciliation returns, and does not panic, when the resource, with its
  -- defaults, is standalone or a cluster and asks for at least one replica, there is no stateful set
  -- of its name yet, and the API server keeps its promises and refuses nothing without need.
  pub make_ensure-returns :
      (u : World K) (n : ℕ)
      → (validation_field u.nacos).spec.replicas ≡ some (pos (suc n))
      → ((validation_field u.nacos).spec.type ≡ type_stand_alone)
        ⊎ ((validation_field u.nacos).spec.type ≡ type_cluster)
      → IsAbsent o e s w (validation_field u.nacos) u.cluster
      → (make_ensure o e u).0 ≡ done tt
  unfolding make_ensure
  make_ensure-returns u n r t h =
      ensure_type-works o e s w (validation_field u.nacos) n r u.cluster t h
