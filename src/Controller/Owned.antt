-- ===== src/Controller/Owned.antt =====
-- A reconciliation touches only the objects of its resource.
use nacos_k8s.Base.{String, ◌≡◌, refl, sym, ◌∙◌, ap, true, ltb, ◌+◌, int_eq}
use mathlib.Core.Path.{subst}
use nacos_k8s.Go.Maps.{RangeOrder}
use nacos_k8s.Errors.{
  not_found, failure, Err, Fault, raised, plain, runtime, Outcome, done, panic, pure, code_normal,
  ensure_normal,
}
use nacos_k8s.Api.{Nacos, phase_running}
use nacos_k8s.Environment.{Environment, Reply, got, refused, call}
use nacos_k8s.ApiServer.{Key, Within, IsServer}
use nacos_k8s.ApiServer.Frame.{Frames, Frames->>=, pure-Frames, if-Frames, still-Frames}
use nacos_k8s.Kind.Ensure.Owned.{OwnedBy, Own}
use nacos_k8s.Operator.World.{World, reading, modify, with_status}
use nacos_k8s.Operator.Status
use nacos_k8s.Operator.Keeps.{
  Keeps, Keeps->>=, reading-Keeps, ensure_normal-Keeps, check_and_make_heal-Keeps,
}
use nacos_k8s.Operator.Status.Saved.{push_status-Keeps}
use nacos_k8s.Operator.Calm.{
  Calm, calm_then, reading-Calm, pure-Calm, if-Calm, check_and_make_heal-Calm, update_status-Calm,
  update_status_running-Calm, update_exception_status-Calm,
}
use nacos_k8s.Operator.Confined.{
  Confined, Confined->>=, calm-Confined, pre_check-Confined, make_ensure-Confined,
}
use nacos_k8s.Operator.Stages.{pre_check, make_ensure, check_and_make_heal, update_status}
use nacos_k8s.Controller.{
  three_minutes, is_creating, shows_exception, handle_err, global_except_handle, recover, stages,
  reconcile_work, reconcile_found, reconcile,
}

module _ (o : RangeOrder) {K : Type 0} (e : Environment K) (s : IsServer e) where
  shows_exception-Quiet :
      (Own : Key → Type 0) (nacos : Nacos) → Frames s.view Own (shows_exception e nacos)
  unfolding shows_exception
  shows_exception-Quiet Own nacos =
      if-Frames s.view Own (is_creating nacos.status.phase) _ (pure true)
        (Frames->>= s.view Own (call e.now) _ (still-Frames s.view Own e.now s.now_same)
          λ t. pure-Frames s.view Own (ltb (nacos.creation_timestamp + three_minutes) t))
        (pure-Frames s.view Own true)

  handle_err-Calm : (Own : Key → Type 0) (err : Err) → Calm o e s Own (handle_err e err)
  unfolding handle_err
  handle_err-Calm Own err =
      if-Calm o e s Own (int_eq err.code code_normal) (Status.update_status e) _
        (update_status-Calm o e s Own)
        (calm_then o e s Own (reading (shows_exception e)) _
          (reading-Calm o e s Own (shows_exception e) (shows_exception-Quiet Own))
          λ shown.
            if-Calm o e s Own shown (Status.update_exception_status e err) (pure tt)
              (update_exception_status-Calm o e s Own err) (pure-Calm o e s Own tt))

  handle-Calm : (Own : Key → Type 0) (f : Fault) → Calm o e s Own (global_except_handle e f)
  unfolding global_except_handle
  handle-Calm Own (raised err) = handle_err-Calm Own err
  handle-Calm Own (plain err) = pure-Calm o e s Own tt
  handle-Calm Own (runtime t) = pure-Calm o e s Own tt

  recover-Within :
      (Own : Key → Type 0) (r : Outcome (Unit {0})) (w : World K)
      → Within Own (s.view w.cluster) (s.view ((recover e r w).1).cluster)
  unfolding recover
  recover-Within Own (done a) w q n = refl
  recover-Within Own (panic f) w q n = (handle-Calm Own f).framed w q n

  status_running-meta : Keeps (λ n. n.meta) (Status.update_status_running e)
  unfolding Status.update_status_running Status.store_event
  status_running-meta =
      Keeps->>= (λ n. n.meta) (Status.store_event e code_normal "" true) _
        (Keeps->>= (λ n. n.meta) (reading (Status.update_last_event e code_normal "" true)) _
          (reading-Keeps (λ n. n.meta) _) λ events. record { kept = λ w. refl })
        λ a.
          Keeps->>= (λ n. n.meta) (modify (with_status λ s. record s { phase = phase_running })) _
            (record { kept = λ w. refl })
            λ b.
              Keeps->>= (λ n. n.meta) (Status.push_status e) ensure_normal
                (push_status-Keeps e (λ n. n.meta)) (ensure_normal-Keeps (λ n. n.meta))

  stages-Confined : Confined s.view (stages o e)
  unfolding stages update_status
  stages-Confined = Confined->>= s.view (pre_check {K = K}) _ (pre_check-Confined o e s) λ a.
      Confined->>= s.view (make_ensure o e) _ (make_ensure-Confined o e s) λ b.
        Confined->>= s.view (check_and_make_heal o e) _
          (calm-Confined o e s (check_and_make_heal o e)
            (record { kept = λ w. ap (λ c. c.0) ((check_and_make_heal-Keeps o e).kept w) })
            (check_and_make_heal-Calm o e s))
          λ c.
            calm-Confined o e s (Status.update_status_running e) status_running-meta
              (update_status_running-Calm o e s)

  pub reconcile_work-Within :
      (w : World K)
      → Within (Own w.nacos) (s.view w.cluster) (s.view ((reconcile_work o e w).1).cluster)
  unfolding reconcile_work
  reconcile_work-Within w q n =
      recover-Within (Own w.nacos) (stages o e w).0 (stages o e w).1 q n
      ∙ stages-Confined.within w q n

  found-Within :
      (namespace name : String) (r : Reply Nacos) (k : K)
      → ((nacos : Nacos)
          → r ≡ got nacos
          → (nacos.meta.namespace ≡ namespace) × (nacos.meta.name ≡ name))
      → Within (OwnedBy namespace name) (s.view k) (s.view (reconcile_found o e r k).1)
  unfolding reconcile_found
  found-Within namespace name (refused (not_found t)) k h q n = refl
  found-Within namespace name (refused (failure t)) k h q n = refl
  found-Within namespace name (got nacos) k h q n =
      let same = h nacos refl in
      reconcile_work-Within (record { nacos = nacos; cluster = k }) q
        (subst {A = String × String} (λ m. OwnedBy m.0 m.1 q → ⊥)
          (λ i. (sym same.0 i, sym same.1 i)) n)

  -- However a reconciliation ends, with success, an error of the API server or a panic of any stage,
  -- the config maps, stateful sets, services and jobs in the cluster are the same as before, except
  -- those that belong to the reconciled resource by namespace and name. The API server keeps its
  -- promises.
  pub reconcile-Within :
      (namespace name : String) (k : K)
      → Within (OwnedBy namespace name) (s.view k) (s.view (reconcile o e namespace name k).1)
  unfolding reconcile
  reconcile-Within namespace name k q n =
      found-Within namespace name (e.get_nacos namespace name k).0 (e.get_nacos namespace name k).1
        (s.nacos_named namespace name k) q n
      ∙ s.get_nacos_same namespace name k q
