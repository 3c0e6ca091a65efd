-- ===== src/Kind/Ensure/Names.antt =====
-- The names of the objects that the builders return.
use nacos_k8s.Base.{String, ◌≡◌, refl, ap, sym, ◌∙◌, Bool, true, false, if◌then◌else◌, rounds}
use nacos_k8s.Go.Maps.{RangeOrder}
use nacos_k8s.Errors.{Outcome, done, panic, plain}
use nacos_k8s.Errors.Laws.{invert-and_then, done_injective}
use nacos_k8s.Kube.{ObjectMeta, ConfigMap, StatefulSet, Service, Job}
use nacos_k8s.Api.{Nacos}
use nacos_k8s.Environment.{Environment, Reply, got, refused, and_then, dereference}
use nacos_k8s.ApiServer.{IsServer}
use nacos_k8s.Kind.Env.{build_env}
use nacos_k8s.Kind.Labels.{generate_name, generate_client_svc_name}
use nacos_k8s.Kind.StatefulSet.{
  controlled, add_check_database, build_statefulset, stateful_set, sets_up_mysql,
}
use nacos_k8s.Kind.Cluster.{
  build_statefulset_cluster, find_domain, clustered_set, services_from, services_no_port_from,
  drop_last, clustered,
}
use nacos_k8s.Kind.Objects.{
  sql_name, build_mysql_config_map, build_job, build_service, build_client_service,
  build_config_map,
}

name-add_check_database :
    (b : Bool) (nacos : Nacos) (ss0 ss : StatefulSet)
    → done (if b then add_check_database nacos ss0 else ss0) ≡ done ss
    → ss.meta.name ≡ ss0.meta.name
unfolding add_check_database
name-add_check_database true nacos ss0 ss h = ap (λ x. x.meta.name) (sym (done_injective _ ss h))
name-add_check_database false nacos ss0 ss h = ap (λ x. x.meta.name) (sym (done_injective _ ss h))

-- the steps of the cluster's builder, whatever they compute
name-chain :
    {A B C : Type 0} (first : Outcome A) (second : A → Outcome B) (third : A → B → Outcome C)
    → (built : A → B → C → StatefulSet) (name : String) (ss : StatefulSet)
    → ((a : A) (b : B) (c : C) → (built a b c).meta.name ≡ name)
    → and_then first (λ a. and_then (second a) λ b. and_then (third a b) λ c. done (built a b c))
      ≡ done ss
    → ss.meta.name ≡ name
name-chain first second third built name ss named h =
    let a = invert-and_then first _ ss h in
    let b = invert-and_then (second a.0) _ ss a.2 in
    let c = invert-and_then (third a.0 b.0) _ ss b.2 in
    ap (λ x. x.meta.name) (sym (done_injective _ ss c.2)) ∙ named a.0 b.0 c.0

pub name-build_statefulset_cluster :
    (nacos : Nacos) (ss0 ss : StatefulSet)
    → build_statefulset_cluster nacos ss0 ≡ done ss
    → ss.meta.name ≡ ss0.meta.name
unfolding build_statefulset_cluster
name-build_statefulset_cluster nacos ss0 ss h =
    let domain = find_domain "cluster.local" nacos.spec.env in
    name-chain (dereference nacos.spec.replicas)
      (λ m. drop_last (services_from nacos domain (rounds m) 0 ""))
      (λ m s.
        clustered s (services_no_port_from nacos domain (rounds m) 0 "")
          ss0.spec.template.spec.containers)
      (λ m s containers. clustered_set nacos ss0 containers) ss0.meta.name ss (λ m s c. refl) h

module _ (o : RangeOrder) {K : Type 0} (e : Environment K) (s : IsServer e) where
  name-controlled :
      (nacos : Nacos) (m m' : ObjectMeta) → controlled e nacos m ≡ done m' → m'.name ≡ m.name
  unfolding controlled
  name-controlled nacos m m' h = split (e.set_controller_reference nacos m) refl h
    where
      split :
          (r : Reply ObjectMeta)
          → e.set_controller_reference nacos m ≡ r
          → (elim r as (λ r. Outcome ObjectMeta) [
            | got x ↦ done x
            | refused err ↦ panic (plain err)
          ])
            ≡ done m'
          → m'.name ≡ m.name
      split (got x) p q = s.owner_only nacos m m' (p ∙ ap got (done_injective x m' q))
      split (refused err) p q = cc

  pub name-build_statefulset :
      (nacos : Nacos) (ss : StatefulSet)
      → build_statefulset o e nacos ≡ done ss
      → ss.meta.name ≡ nacos.meta.name
  unfolding build_statefulset stateful_set generate_name
  name-build_statefulset nacos ss h =
      let env = invert-and_then (build_env nacos.spec) _ ss h in
      let meta = invert-and_then (controlled e nacos _) _ ss env.2 in
      name-add_check_database (sets_up_mysql nacos) nacos (stateful_set nacos _ env.0 meta.0) ss
        meta.2
      ∙ name-controlled nacos _ meta.0 meta.1

  pub name-build_service :
      (nacos : Nacos) (svc : Service)
      → build_service o e nacos ≡ done svc
      → svc.meta.name ≡ nacos.meta.name
  unfolding build_service
  name-build_service nacos svc h =
      let meta = invert-and_then (controlled e nacos _) _ svc h in
      ap (λ x. x.meta.name) (sym (done_injective _ svc meta.2))
      ∙ name-controlled nacos _ meta.0 meta.1

  pub name-build_client_service :
      (nacos : Nacos) (svc : Service)
      → build_client_service o e nacos ≡ done svc
      → svc.meta.name ≡ generate_client_svc_name nacos
  unfolding build_client_service
  name-build_client_service nacos svc h =
      let meta = invert-and_then (controlled e nacos _) _ svc h in
      ap (λ x. x.meta.name) (sym (done_injective _ svc meta.2))
      ∙ name-controlled nacos _ meta.0 meta.1

  pub name-build_config_map :
      (nacos : Nacos) (cm : ConfigMap)
      → build_config_map o e nacos ≡ done cm
      → cm.meta.name ≡ nacos.meta.name
  unfolding build_config_map generate_name
  name-build_config_map nacos cm h =
      let meta = invert-and_then (controlled e nacos _) _ cm h in
      ap (λ x. x.meta.name) (sym (done_injective _ cm meta.2))
      ∙ name-controlled nacos _ meta.0 meta.1

  pub name-build_mysql_config_map :
      (nacos : Nacos) (sql : String) (cm : ConfigMap)
      → build_mysql_config_map o e nacos sql ≡ done cm
      → cm.meta.name ≡ sql_name nacos
  unfolding build_mysql_config_map
  name-build_mysql_config_map nacos sql cm h =
      let meta = invert-and_then (controlled e nacos _) _ cm h in
      ap (λ x. x.meta.name) (sym (done_injective _ cm meta.2))
      ∙ name-controlled nacos _ meta.0 meta.1

  pub name-build_job :
      (nacos : Nacos) (j : Job) → build_job o e nacos ≡ done j → j.meta.name ≡ sql_name nacos
  unfolding build_job
  name-build_job nacos j h =
      let meta = invert-and_then (controlled e nacos _) _ j h in
      ap (λ x. x.meta.name) (sym (done_injective _ j meta.2))
      ∙ name-controlled nacos _ meta.0 meta.1
