-- ===== src/Operator/Provided.antt =====
-- What `MakeEnsure` provides for a resource, where it returns.
use nacos_k8s.Base.{String, ◌≡◌, refl, sym, ◌∙◌, true, false, [], ◌∷◌, concat, ◌==◌, eq_iff, arith}
use text.Mathlib.TextLemmas.{append-nil, append_cancel_left}
use nacos_k8s.Go.Maps.{RangeOrder}
use nacos_k8s.Errors.{Exec, done, ◌>>=◌}
use nacos_k8s.Api.{Nacos}
use nacos_k8s.Environment.{Environment}
use nacos_k8s.ApiServer.{Key, Held, Cluster, IsServer, config_map, stateful_set, service, job}
use nacos_k8s.ApiServer.Frame.{Frames, Frames->>=, pure-Frames, if-Frames}
use nacos_k8s.ApiServer.Holds.{Holds, Exists, Leaves, Leaves-first, Leaves-second}
use nacos_k8s.Kind.Defaults.{type_stand_alone, type_cluster}
use nacos_k8s.Kind.StatefulSet.{has_config, sets_up_mysql}
use nacos_k8s.Kind.Objects.{sql_name}
use nacos_k8s.Kind.Ensure.{
  ensure_configmap, ensure_statefulset, ensure_service, ensure_mysql_config_map, ensure_job,
  ensure_statefulset_cluster, ensure_headless_service_cluster, ensure_client_service,
}
use nacos_k8s.Kind.Ensure.Owned
use nacos_k8s.Kind.Ensure.Stored
use nacos_k8s.Kind.Ensure.Stored.{ServesPods}
use nacos_k8s.Operator.Stages.{ensure_mysql, ensure_stand_alone, ensure_cluster}

-- keys that differ, by the kind of their object or by the end of its name
module _ {a b c d : String} where
  config-set : config_map a b ≡ stateful_set c d → ⊥
  config-set h = cc

  config-service : config_map a b ≡ service c d → ⊥
  config-service h = cc

  config-job : config_map a b ≡ job c d → ⊥
  config-job h = cc

  service-config : service a b ≡ config_map c d → ⊥
  service-config h = cc

  service-job : service a b ≡ job c d → ⊥
  service-job h = cc

config-config :
    (namespace name s : String)
    → ("" == s) ≡ false
    → config_map namespace name ≡ config_map namespace (concat name s)
    → ⊥
config-config namespace name s h e =
    ground (arith, eq_iff "" s, h, append_cancel_left name "" s (append-nil name ∙ injective e))
  where
    injective :
        config_map namespace name ≡ config_map namespace (concat name s) → name ≡ concat name s
    injective e = cc

headless-client :
    (namespace name : String)
    → service namespace (concat name "-headless") ≡ service namespace (concat name "-client")
    → ⊥
headless-client namespace name e = ground (
  arith,
  eq_iff "-headless" "-client",
  differ,
  append_cancel_left name "-headless" "-client" (injective e),
)
  where
    differ : ("-headless" == "-client") ≡ false
    differ = refl

    injective :
        service namespace (concat name "-headless") ≡ service namespace (concat name "-client")
        → concat name "-headless" ≡ concat name "-client"
    injective e = cc

one_type : (type : String) → type ≡ type_stand_alone → type ≡ type_cluster → ⊥
one_type type p q = ground (arith, eq_iff type_stand_alone type_cluster, differ, sym p ∙ q)
  where
    differ : (type_stand_alone == type_cluster) ≡ false
    differ = refl

-- What the cluster holds for a resource: the config map with its configuration, the services of
-- its type, and the objects that set MySQL up, each under its guard.
pub record Provided (o : RangeOrder) (nacos : Nacos) (c : Cluster) : Type 0 where
  pub configuration :
      has_config nacos ≡ true
      → Holds
          (config_map nacos.meta.namespace nacos.meta.name)
          (λ cm. cm.entries ≡ ("custom.properties", nacos.spec.config) ∷ [])
          c
  pub stand_alone :
      nacos.spec.type ≡ type_stand_alone → Exists (service nacos.meta.namespace nacos.meta.name) c
  pub headless :
      nacos.spec.type ≡ type_cluster
      → Holds
          (service nacos.meta.namespace (concat nacos.meta.name "-headless"))
          (ServesPods o nacos)
          c
  pub client :
      nacos.spec.type ≡ type_cluster
      → Exists (service nacos.meta.namespace (concat nacos.meta.name "-client")) c
  pub script :
      sets_up_mysql nacos ≡ true → Exists (config_map nacos.meta.namespace (sql_name nacos)) c
  pub import_job : sets_up_mysql nacos ≡ true → Exists (job nacos.meta.namespace (sql_name nacos)) c

module _ (o : RangeOrder) {K : Type 0} (e : Environment K) (s : IsServer e) (nacos : Nacos) where
  -- the step changes no object with the key
  abbrev Misses : {A : Type 0} → Key → Exec K A → Type 0
  Misses key = Frames s.view (λ q. key ≡ q → ⊥)

  then_Misses :
      {A : Type 0} (key : Key) (m : Exec K (Unit {0})) (n : Exec K A)
      → Misses key m
      → Misses key n
      → Misses key (m >>= λ a. n)
  then_Misses key m n h p = Frames->>= s.view _ m (λ a. n) h (λ a. p)

  ensure_mysql-Misses :
      (key : Key)
      → (key ≡ config_map nacos.meta.namespace (sql_name nacos) → ⊥)
      → (key ≡ job nacos.meta.namespace (sql_name nacos) → ⊥)
      → Misses key (ensure_mysql o e nacos)
  unfolding ensure_mysql
  ensure_mysql-Misses key h p =
      if-Frames s.view _ (sets_up_mysql nacos) _ _
        (then_Misses key (ensure_mysql_config_map o e nacos) _
          (Owned.ensure_mysql_config_map-Frames o e s nacos _ h)
          (Owned.ensure_job-Frames o e s nacos _ p))
        (pure-Frames s.view _ tt)

  first :
      {A : Type 0} (key : Key) (P : Held key → Type 0) (m : Exec K (Unit {0})) (n : Exec K A)
      → Leaves s.view (Holds key P) m
      → Misses key n
      → Leaves s.view (Holds key P) (m >>= λ a. n)
  first key P m n h p = Leaves-first s.view key P m (λ a. n) h (λ a. p)

  second :
      {A : Type 0} (P : Cluster → Type 0) (m : Exec K (Unit {0})) (n : Exec K A)
      → Leaves s.view P n
      → Leaves s.view P (m >>= λ a. n)
  second P m n h = Leaves-second s.view P m (λ a. n) (λ a. h)

  mysql-script :
      sets_up_mysql nacos ≡ true
      → Leaves s.view
          (Exists (config_map nacos.meta.namespace (sql_name nacos)))
          (ensure_mysql o e nacos)
  unfolding ensure_mysql
  mysql-script q = rw q (
      first (config_map nacos.meta.namespace (sql_name nacos)) _ (ensure_mysql_config_map o e nacos)
        (ensure_job o e nacos) (Stored.ensure_mysql_config_map-Leaves o e s nacos)
        (Owned.ensure_job-Frames o e s nacos _ config-job))

  mysql-job :
      sets_up_mysql nacos ≡ true
      → Leaves s.view (Exists (job nacos.meta.namespace (sql_name nacos))) (ensure_mysql o e nacos)
  unfolding ensure_mysql
  mysql-job q = rw q (
      second _ (ensure_mysql_config_map o e nacos) (ensure_job o e nacos)
        (Stored.ensure_job-Leaves o e s nacos))

  -- the config map of the configuration is not the one of the script
  config-Misses-mysql :
      Misses (config_map nacos.meta.namespace nacos.meta.name) (ensure_mysql o e nacos)
  config-Misses-mysql =
      ensure_mysql-Misses (config_map nacos.meta.namespace nacos.meta.name)
        (config-config nacos.meta.namespace nacos.meta.name "-mysql-sql-init" refl) config-job

  service-Misses-mysql :
      (name : String) → Misses (service nacos.meta.namespace name) (ensure_mysql o e nacos)
  service-Misses-mysql name =
      ensure_mysql-Misses (service nacos.meta.namespace name) service-config service-job

  pub stand_alone-Provided :
      (k k' : K)
      → nacos.spec.type ≡ type_stand_alone
      → ensure_stand_alone o e nacos k ≡ (done tt, k')
      → Provided o nacos (s.view k')
  unfolding ensure_stand_alone
  stand_alone-Provided k k' t h =
      let one = ensure_configmap o e nacos in
      let two = ensure_statefulset o e nacos in
      let three = ensure_service o e nacos in
      let four = ensure_mysql o e nacos in
      record {
        configuration = λ q.
            (first (config_map nacos.meta.namespace nacos.meta.name) _ one _
                (Stored.ensure_configmap-Leaves o e s nacos q)
                (then_Misses _ two _ (Owned.ensure_statefulset-Frames o e s nacos _ config-set) (
                  then_Misses _ three four
                    (Owned.ensure_service-Frames o e s nacos _ config-service)
                    config-Misses-mysql))).left
              k k' tt h;
        stand_alone = λ q.
            (second _ one _ (
                second _ two _ (
                  first (service nacos.meta.namespace nacos.meta.name) _ three four
                    (Stored.ensure_service-Leaves o e s nacos)
                    (service-Misses-mysql nacos.meta.name)))).left
              k k' tt h;
        headless = λ q. absurd (one_type nacos.spec.type t q);
        client = λ q. absurd (one_type nacos.spec.type t q);
        script = λ q.
            (second _ one _ (second _ two _ (second _ three four (mysql-script q)))).left k k' tt h;
        import_job = λ q.
            (second _ one _ (second _ two _ (second _ three four (mysql-job q)))).left k k' tt h;
      }

  pub cluster-Provided :
      (k k' : K)
      → nacos.spec.type ≡ type_cluster
      → ensure_cluster o e nacos k ≡ (done tt, k')
      → Provided o nacos (s.view k')
  unfolding ensure_cluster
  cluster-Provided k k' t h =
      let one = ensure_configmap o e nacos in
      let two = ensure_statefulset_cluster o e nacos in
      let three = ensure_headless_service_cluster o e nacos in
      let four = ensure_client_service o e nacos in
      let five = ensure_mysql o e nacos in
      record {
        configuration = λ q.
            (first (config_map nacos.meta.namespace nacos.meta.name) _ one _
                (Stored.ensure_configmap-Leaves o e s nacos q)
                (then_Misses _ two _
                  (Owned.ensure_statefulset_cluster-Frames o e s nacos _ config-set)
                  (then_Misses _ three _ (Owned.ensure_headless-Frames o e s nacos _ config-service)
                    (then_Misses _ four five
                      (Owned.ensure_client_service-Frames o e s nacos _ config-service)
                      config-Misses-mysql)))).left
              k k' tt h;
        stand_alone = λ q. absurd (one_type nacos.spec.type q t);
        headless = λ q.
            (second _ one _ (
                second _ two _ (
                  first (service nacos.meta.namespace (concat nacos.meta.name "-headless")) _ three
                    _ (Stored.ensure_headless-Leaves o e s nacos)
                    (then_Misses _ four five
                      (Owned.ensure_client_service-Frames o e s nacos _
                        (headless-client nacos.meta.namespace nacos.meta.name))
                      (service-Misses-mysql _))))).left
              k k' tt h;
        client = λ q.
            (second _ one _ (
                second _ two _ (
                  second _ three _ (
                    first (service nacos.meta.namespace (concat nacos.meta.name "-client")) _ four
                      five (Stored.ensure_client_service-Leaves o e s nacos)
                      (service-Misses-mysql _))))).left
              k k' tt h;
        script = λ q.
            (second _ one _
                (second _ two _ (second _ three _ (second _ four five (mysql-script q))))).left
              k k' tt h;
        import_job = λ q.
            (second _ one _
                (second _ two _ (second _ three _ (second _ four five (mysql-job q))))).left
              k k' tt h;
      }
