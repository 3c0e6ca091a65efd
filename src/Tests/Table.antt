-- ===== src/Tests/Table.antt =====
-- A client that keeps its objects in memory, and keeps its promises. It refuses to create what exists
-- and to update what is missing.
use nacos_k8s.Base.{
  String, ◌≡◌, refl, sym, ◌∙◌, ap, Bool, true, false, Option, none, some, ◌==◌, ◌&&◌, if◌then◌else◌,
  eq_iff, eq_refl, arith,
}
use nacos_k8s.Errors.{Error, not_found, failure}
use nacos_k8s.Kube.{ObjectMeta, ConfigMap, StatefulSet, Service, Job}
use nacos_k8s.Environment.{Api, Reply, got, refused}
use nacos_k8s.ApiServer.Willing.{IsWillingClient}
use nacos_k8s.ApiServer.{Key, Cluster, Within, Answers, IsClient}

abbrev pub Table : Type 0 → Type 0
Table O = String → String → Option O

abbrev set : {O : Type 0} → Table O → String → String → Option O → Table O
set t namespace name v a b = if a == namespace && b == name then v else t a b

set-same :
    {O : Type 0} (t : Table O) (namespace name : String) (v : Option O)
    → set t namespace name v namespace name ≡ v
set-same t namespace name v = rw (eq_refl namespace, eq_refl name) refl

set-other :
    {O : Type 0} (t : Table O) (namespace name a b : String) (v : Option O)
    → (a ≡ namespace → b ≡ name → ⊥)
    → set t namespace name v a b ≡ t a b
set-other t namespace name a b v h =
    split (a == namespace) (b == name) (λ p. (eq_iff a namespace).0 p) (λ p. (eq_iff b name).0 p)
  where
    split :
        (c d : Bool)
        → (c ≡ true → a ≡ namespace)
        → (d ≡ true → b ≡ name)
        → (if c && d then v else t a b) ≡ t a b
    split true true p q = absurd (h (p refl) (q refl))
    split true false p q = refl
    split false d p q = refl

pub record Mem : Type 0 where
  pub config_maps : Table ConfigMap
  pub stateful_sets : Table StatefulSet
  pub services : Table Service
  pub jobs : Table Job

abbrev pub answer : {O : Type 0} → Option O → Reply O
answer none = refused (not_found "no such object")
answer (some x) = got x

-- what is shown of an object bears the name that it is kept under
abbrev pub shown : {O : Type 0} → (String → O → O) → String → Option O → Option O
shown named name none = none
shown named name (some x) = some (named name x)

-- One client: its table within the memory, and an object under its name.
module _ {O : Type 0} (fetch : Mem → Table O) (store : Table O → Mem → Mem) (meta : O → ObjectMeta)
    (named : String → O → O) where
  abbrev write : String → O → Mem → Mem
  write namespace object k = store (set (fetch k) namespace (meta object).name (some object)) k

  abbrev create_at : Option O → String → O → Mem → Option Error × Mem
  create_at (some x) namespace object k = (some (failure "already exists"), k)
  create_at none namespace object k = (none, write namespace object k)

  abbrev update_at : Option O → String → O → Mem → Option Error × Mem
  update_at none namespace object k = (some (not_found "no such object"), k)
  update_at (some x) namespace object k = (none, write namespace object k)

  abbrev pub client : Api Mem O
  client = record {
    get = λ namespace name k. (answer (shown named name (fetch k namespace name)), k);
    create =
        λ namespace object k. create_at (fetch k namespace (meta object).name) namespace object k;
    update =
        λ namespace object k. update_at (fetch k namespace (meta object).name) namespace object k;
    delete = λ namespace name k. (none, store (set (fetch k) namespace name none) k);
    list = λ namespace k. (refused (failure "not supported"), k);
  }

  -- the client keeps its promises, where the table is a part of the memory that a view shows
  module _ (view : Mem → Cluster) (key : String → String → Key) (Like : O → O → Type 0)
      (fetched : (t : Table O) (k : Mem) → fetch (store t k) ≡ t)
      (name-named : (name : String) (x : O) → (meta (named name x)).name ≡ name)
      (like : (name : String) (x : O) → Like (named name x) x)
      (others : (t : Table O) (k : Mem) (q : Key)
        → ((a b : String) → q ≡ key a b → t a b ≡ fetch k a b)
        → view (store t k) q ≡ view k q) where
    abbrev pub read : Mem → String → String → Option O
    read k namespace name = shown named name (fetch k namespace name)

    set-Within :
        (namespace name : String) (v : Option O) (k : Mem)
        → Within
            (λ q. q ≡ key namespace name)
            (view k)
            (view (store (set (fetch k) namespace name v) k))
    set-Within namespace name v k q n =
        others (set (fetch k) namespace name v) k q
          λ a b p. set-other (fetch k) namespace name a b v (λ x y. n (p ∙ λ i. key (x i) (y i)))

    written :
        (namespace : String) (object : O) (k : Mem)
        → (held : O) × (read (write namespace object k) namespace (meta object).name ≡ some held)
          × Like held object
    written namespace object k = (
      named (meta object).name object,
      ap (shown named (meta object).name) (
          ap (λ t. t namespace (meta object).name) (fetched _ k)
          ∙ set-same (fetch k) namespace (meta object).name (some object)),
      like (meta object).name object,
    )

    get-Answers :
        (name : String) (v : Option O) → Answers (answer (shown named name v)) (shown named name v)
    get-Answers name none = refl
    get-Answers name (some x) = refl

    shown-named :
        (name : String) (v : Option O) (object : O)
        → shown named name v ≡ some object
        → (meta object).name ≡ name
    shown-named name none object h = ground (arith, h)
    shown-named name (some x) object h = ap (λ r. (meta (from r)).name) (sym h) ∙ name-named name x
      where
        from : Option O → O
        from none = object
        from (some y) = y

    create-Within :
        (v : Option O) (namespace : String) (object : O) (k : Mem)
        → Within
            (λ q. q ≡ key namespace (meta object).name)
            (view k)
            (view (create_at v namespace object k).1)
    create-Within none namespace object k q n =
        set-Within namespace (meta object).name (some object) k q n
    create-Within (some x) namespace object k q n = refl

    update-Within :
        (v : Option O) (namespace : String) (object : O) (k : Mem)
        → Within
            (λ q. q ≡ key namespace (meta object).name)
            (view k)
            (view (update_at v namespace object k).1)
    update-Within none namespace object k q n = refl
    update-Within (some x) namespace object k q n =
        set-Within namespace (meta object).name (some object) k q n

    create-written :
        (v : Option O) (namespace : String) (object : O) (k k' : Mem)
        → create_at v namespace object k ≡ (none, k')
        → (held : O) × (read k' namespace (meta object).name ≡ some held) × Like held object
    create-written none namespace object k k' h =
        let w = written namespace object k in
        (w.0, ap (λ r. read r.1 namespace (meta object).name) (sym h) ∙ w.1, w.2)
    create-written (some x) namespace object k k' h = absurd (ground (arith, h))

    update-written :
        (v : Option O) (namespace : String) (object : O) (k k' : Mem)
        → update_at v namespace object k ≡ (none, k')
        → (held : O) × (read k' namespace (meta object).name ≡ some held) × Like held object
    update-written none namespace object k k' h = absurd (ground (arith, h))
    update-written (some x) namespace object k k' h =
        let w = written namespace object k in
        (w.0, ap (λ r. read r.1 namespace (meta object).name) (sym h) ∙ w.1, w.2)

    pub client-IsClient : IsClient view read key meta Like client
    client-IsClient = record {
      get_same = λ namespace name k q. refl;
      get_answers = λ namespace name k. get-Answers name (fetch k namespace name);
      named = λ namespace name k object h. shown-named name (fetch k namespace name) object h;
      create_within = λ namespace object k.
          create-Within (fetch k namespace (meta object).name) namespace object k;
      created = λ namespace object k k' h.
          create-written (fetch k namespace (meta object).name) namespace object k k' h;
      update_within = λ namespace object k.
          update-Within (fetch k namespace (meta object).name) namespace object k;
      updated = λ namespace object k k' h.
          update-written (fetch k namespace (meta object).name) namespace object k k' h;
      delete_within = λ namespace name k. set-Within namespace name none k;
    }

    get-fails :
        (name : String) (v : Option O) (t : String)
        → answer (shown named name v) ≡ refused (failure t)
        → ⊥
    get-fails name none t h = cc
    get-fails name (some x) t h = cc

    create-works :
        (v : Option O) (namespace : String) (object : O) (k : Mem)
        → shown named (meta object).name v ≡ none
        → (create_at v namespace object k).0 ≡ none
    create-works none namespace object k h = refl
    create-works (some x) namespace object k h = absurd (cc h)

    update-works :
        (v : Option O) (namespace : String) (object stored : O) (k : Mem)
        → shown named (meta object).name v ≡ some stored
        → (update_at v namespace object k).0 ≡ none
    update-works none namespace object stored k h = absurd (cc h)
    update-works (some x) namespace object stored k h = refl

    update-misses :
        (v : Option O) (namespace : String) (object : O) (k : Mem)
        → fetch k namespace (meta object).name ≡ v
        → shown named (meta object).name v ≡ none
        → ((t : String) × ((update_at v namespace object k).0 ≡ some (not_found t)))
          × (read (update_at v namespace object k).1 namespace (meta object).name ≡ none)
    update-misses none namespace object k p h = ((_, refl), ap (shown named (meta object).name) p)
    update-misses (some x) namespace object k p h = absurd (cc h)

    pub client-IsWillingClient : IsWillingClient read meta client
    client-IsWillingClient = record {
      get_works = λ namespace name k t. get-fails name (fetch k namespace name) t;
      create_works = λ namespace object k.
          create-works (fetch k namespace (meta object).name) namespace object k;
      update_works = λ namespace object stored k.
          update-works (fetch k namespace (meta object).name) namespace object stored k;
      update_misses = λ namespace object k.
          update-misses (fetch k namespace (meta object).name) namespace object k refl;
    }
