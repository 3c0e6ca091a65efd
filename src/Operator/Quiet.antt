-- ===== src/Operator/Quiet.antt =====
-- The steps of a reconciliation that change none of the cluster's objects.
use nacos_k8s.Base.{
  String, Option, none, some, Bool, false, List, [], ◌∷◌, ◌++◌, ℤ, length, ltb, int_eq,
}
use nacos_k8s.Go.Maps.{RangeOrder}
use nacos_k8s.Errors.{plain, Exec}
use nacos_k8s.Kube.{StatefulSet}
use nacos_k8s.Api.{Nacos, Event}
use nacos_k8s.Environment.{Environment, Reply, got, refused, call, lift, dereference}
use nacos_k8s.Services.StatefulSets.{
  get_stateful_set, get_stateful_set_read_pod, get_stateful_set_pods, list_selected, only_ready,
}
use nacos_k8s.ApiServer.{Key, Cluster, IsServer}
use nacos_k8s.ApiServer.Frame.{
  Frames, Frames->>=, pure-Frames, throw-Frames, if-Frames, still-Frames,
}
use nacos_k8s.Operator.Servers.{servers_url, read_response, get_cluster_nodes, decode_body}
use nacos_k8s.Operator.Status.{touch_event, record_event, last_event, set_last}
use nacos_k8s.Operator.Check.{check_kind, compare_replicas, enough_pods, pods_of, quorum}

-- `*p` as a step
pub dereference-Frames :
    {K A : Type 0} (view : K → Cluster) (Own : Key → Type 0) (p : Option A)
    → Frames view Own (lift {K = K} (dereference p))
dereference-Frames view Own none = throw-Frames view Own _
dereference-Frames view Own (some a) = pure-Frames view Own a

module _ (o : RangeOrder) {K : Type 0} (e : Environment K) (s : IsServer e)
    (Own : Key → Type 0) where
  abbrev pub Quiet : {A : Type 0} → Exec K A → Type 0
  Quiet = Frames s.view Own

  read_response-Quiet : (ip : String) (r : Reply String) → Quiet (read_response e ip r)
  unfolding read_response
  read_response-Quiet ip (refused err) = pure-Frames s.view Own _
  read_response-Quiet ip (got r) =
      Frames->>= s.view Own (call (e.read_all r)) _
        (still-Frames s.view Own (e.read_all r) (s.read_all_same r))
        λ body. pure-Frames s.view Own (decode_body e ip body)

  pub get_cluster_nodes-Quiet : (ip : String) → Quiet (get_cluster_nodes e ip)
  unfolding get_cluster_nodes
  get_cluster_nodes-Quiet ip =
      Frames->>= s.view Own (call (e.http_get (servers_url ip))) _
        (still-Frames s.view Own (e.http_get (servers_url ip)) (s.http_get_same (servers_url ip)))
        (read_response-Quiet ip)

  pub get_stateful_set-Quiet : (namespace name : String) → Quiet (get_stateful_set e namespace name)
  unfolding get_stateful_set
  get_stateful_set-Quiet namespace name =
      still-Frames s.view Own (e.stateful_sets.get namespace name)
        (s.stateful_sets.get_same namespace name)

  list_selected-Quiet :
      (namespace : String) (r : Reply StatefulSet) → Quiet (list_selected e o namespace r)
  unfolding list_selected
  list_selected-Quiet namespace (refused err) = pure-Frames s.view Own _
  list_selected-Quiet namespace (got ss) =
      Frames->>= s.view Own (lift (dereference ss.spec.selector)) _
        (dereference-Frames s.view Own ss.spec.selector)
        λ selector. still-Frames s.view Own _ (s.list_pods_same namespace _)

  enough_pods-Quiet : (nacos : Nacos) (n : ℤ) → Quiet (enough_pods o e nacos n)
  unfolding enough_pods get_stateful_set_read_pod get_stateful_set_pods
  enough_pods-Quiet nacos n =
      Frames->>= s.view Own (get_stateful_set_read_pod e o nacos.meta.namespace nacos.meta.name) _
        (Frames->>= s.view Own (get_stateful_set_pods e o nacos.meta.namespace nacos.meta.name) _
          (Frames->>= s.view Own (get_stateful_set e nacos.meta.namespace nacos.meta.name) _
            (get_stateful_set-Quiet nacos.meta.namespace nacos.meta.name)
            (list_selected-Quiet nacos.meta.namespace))
          λ found. pure-Frames s.view Own (only_ready found))
        λ reply.
          if-Frames s.view Own (ltb (length (pods_of reply)) (quorum n)) _ _
            (throw-Frames s.view Own _) (pure-Frames s.view Own (pods_of reply))

  compare_replicas-Quiet :
      (nacos : Nacos) (r : Reply StatefulSet) → Quiet (compare_replicas o e nacos r)
  unfolding compare_replicas
  compare_replicas-Quiet nacos (refused err) = throw-Frames s.view Own (plain err)
  compare_replicas-Quiet nacos (got ss) =
      Frames->>= s.view Own (lift (dereference ss.spec.replicas)) _
        (dereference-Frames s.view Own ss.spec.replicas)
        λ m.
          Frames->>= s.view Own (lift (dereference nacos.spec.replicas)) _
            (dereference-Frames s.view Own nacos.spec.replicas)
            λ n.
              if-Frames s.view Own (int_eq m n) (enough_pods o e nacos n) _
                (enough_pods-Quiet nacos n) (throw-Frames s.view Own _)

  pub check_kind-Quiet : (nacos : Nacos) → Quiet (check_kind o e nacos)
  unfolding check_kind
  check_kind-Quiet nacos =
      Frames->>= s.view Own (get_stateful_set e nacos.meta.namespace nacos.meta.name) _
        (get_stateful_set-Quiet nacos.meta.namespace nacos.meta.name) (compare_replicas-Quiet nacos)

  -- the events
  now-Quiet : Quiet (call e.now)
  now-Quiet = still-Frames s.view Own e.now s.now_same

  touch_event-Quiet :
      (code : ℤ) (msg : String) (status : Bool) (events : List Event) (event : Event)
      → Quiet (touch_event e code msg status events event)
  unfolding touch_event
  touch_event-Quiet code msg status events event =
      if-Frames s.view Own (int_eq event.code code) _ _
        (Frames->>= s.view Own (call e.now) _ now-Quiet λ t.
          pure-Frames s.view Own
            (set_last events (record event { last_transition_time = t; message = msg })))
        (Frames->>= s.view Own (call e.now) _ now-Quiet λ t.
          Frames->>= s.view Own (call e.now) _ now-Quiet λ t'. pure-Frames s.view Own (
            events
            ++ record {
              status = status;
              first_appear_time = t';
              last_transition_time = t;
              message = msg;
              code = code;
            }
              ∷ []))

  pub record_event-Quiet :
      (code : ℤ) (msg : String) (status : Bool) (events : List Event)
      → Quiet (record_event e code msg status events)
  unfolding record_event
  record_event-Quiet code msg status [] = Frames->>= s.view Own (call e.now) _ now-Quiet λ t.
      let event : Event = record {
        status = false;
        first_appear_time = t;
        last_transition_time = 0;
        message = msg;
        code = code;
      } in
      touch_event-Quiet code msg status (event ∷ []) event
  record_event-Quiet code msg status (x ∷ xs) =
      touch_event-Quiet code msg status (x ∷ xs) (last_event x xs)
