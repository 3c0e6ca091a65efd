-- ===== src/Controller.antt =====
-- operator/controllers/nacos_controller.go: one reconciliation, and what becomes of its panics.
pub mod Laws
pub mod Sets
pub mod Phases
pub mod Owned
pub mod Patience
pub mod Settles
pub mod Provided
use nacos_k8s.Base.{
  ℕ, ◌+◌, ◌*◌, String, Bool, true, false, none, some, ◌==◌, if◌then◌else◌, ltb, int_eq,
}
use nacos_k8s.Go.Maps.{Map, get, RangeOrder}
use nacos_k8s.Errors.{
  Error, not_found, failure, Err, Fault, raised, plain, runtime, Outcome, done, panic, Exec, pure,
  code_normal, ◌>>=◌, ◌>>◌,
}
use nacos_k8s.Api.{Nacos, Phase, Time, phase_creating}
use nacos_k8s.Environment.{Environment, Reply, got, refused, call}
use nacos_k8s.Operator.World.{World, reading}
use nacos_k8s.Operator.Status
use nacos_k8s.Operator.Stages.{pre_check, make_ensure, check_and_make_heal, update_status}

-- `time.Minute * 3`
abbrev pub three_minutes : Time
three_minutes = 180 * 1000000000

abbrev pub is_creating : Phase → Bool
is_creating phase_creating = true
is_creating _ = false

module _ {K : Type 0} (e : Environment K) where
  -- `phase != Creating || creationTimestamp + 3 min < now`; the clock is read for the second test only
  unfoldable pub shows_exception : Nacos → Exec K Bool
  shows_exception nacos =
      if is_creating nacos.status.phase
      then (do t ← call e.now; pure (ltb (nacos.creation_timestamp + three_minutes) t))
      else pure true

  unfoldable pub handle_err : Err → Exec (World K) (Unit {0})
  unfolding shows_exception Status.update_status Status.update_exception_status
  handle_err err = if int_eq err.code code_normal then Status.update_status e else (do
    shown ← reading shows_exception
    if shown then Status.update_exception_status e err else pure tt)

  -- any other panic is only logged
  unfoldable pub global_except_handle : Fault → Exec (World K) (Unit {0})
  unfolding handle_err
  global_except_handle (raised err) = handle_err err
  global_except_handle (plain err) = pure tt
  global_except_handle (runtime s) = pure tt

  -- the deferred functions: the first handles a panic of the stages; the second swallows a panic of
  -- the first. After a panic the method returns Go's zero value, `false`.
  unfoldable pub recover : Outcome (Unit {0}) → World K → Bool × World K
  unfolding global_except_handle
  recover (done a) w = (true, w)
  recover (panic f) w = (false, (global_except_handle f w).1)

-- what `Reconcile` returns: no requeue, a requeue after some seconds, or an error
pub data Result : Type 0 where
  settled : Result
  requeue_after : ℕ → Result
  failed : Error → Result

abbrev result_of : Bool → Result
result_of true = settled
result_of false = requeue_after 5

module _ (o : RangeOrder) {K : Type 0} (e : Environment K) where
  -- the loop over the four functions
  unfoldable pub stages : Exec (World K) (Unit {0})
  unfolding pre_check make_ensure check_and_make_heal update_status
  stages = do pre_check; make_ensure o e; check_and_make_heal o e; update_status o e

  unfoldable pub reconcile_work : World K → Bool × World K
  unfolding stages recover
  reconcile_work w = let r = stages w in recover e r.0 r.1

  -- `Reconcile`, once the resource has been read
  unfoldable pub reconcile_found : Reply Nacos → K → Result × K
  unfolding reconcile_work
  reconcile_found (refused (not_found s)) k = (settled, k)
  reconcile_found (refused (failure s)) k = (failed (failure s), k)
  reconcile_found (got found) k =
      let w = reconcile_work (record { nacos = found; cluster = k }) in
      (result_of w.0, (w.1).cluster)

  unfoldable pub reconcile : String → String → K → Result × K
  unfolding reconcile_found
  reconcile namespace name k = let r = e.get_nacos namespace name k in reconcile_found r.0 r.1

unfoldable pub filter_by_label : Map String → Bool
filter_by_label label = elim (get "middleware" label) [ none ↦ false | some v ↦ v == "nacos" ]
