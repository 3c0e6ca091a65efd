-- ===== src/Operator/Stages.antt =====
-- operator/pkg/service/operator/operaror.go and Heal.go: the four stages of a reconciliation.
use nacos_k8s.Base.{[], ◌∷◌, ◌==◌, if◌then◌else◌}
use nacos_k8s.Go.Maps.{RangeOrder}
use nacos_k8s.Errors.{
  raised, Exec, pure, throw, new, code_normal, code_parameter_error, msg_parameter_errot, ◌>>=◌,
  ◌>>◌,
}
use nacos_k8s.Api.{
  Nacos, Phase, phase_failed, phase_none, phase_creating, phase_scale, phase_running, other_phase,
}
use nacos_k8s.Environment.{Environment}
use nacos_k8s.Kind.Defaults.{validation_field, type_stand_alone, type_cluster}
use nacos_k8s.Kind.StatefulSet.{sets_up_mysql}
use nacos_k8s.Kind.Ensure.{
  ensure_configmap, ensure_statefulset, ensure_service, ensure_mysql_config_map, ensure_job,
  ensure_statefulset_cluster, ensure_headless_service_cluster, ensure_client_service,
}
use nacos_k8s.Operator.World.{World, reading, modify, with_status}
use nacos_k8s.Operator.Check.{check_kind, check_nacos}
use nacos_k8s.Operator.Status.{update_status_running}

-- `MakeHeal` is still to be written
unfoldable pub make_heal : {K : Type 0} → Exec (World K) (Unit {0})
make_heal = pure tt

unfoldable pub pre_check_phase : {K : Type 0} → Phase → Exec (World K) (Unit {0})
unfolding make_heal new
pre_check_phase phase_failed = make_heal
pre_check_phase phase_none = do
  modify (with_status λ s. record s { phase = phase_creating })
  throw (raised (new code_normal "" []))
pre_check_phase phase_scale = pure tt
pre_check_phase phase_running = pure tt
pre_check_phase phase_creating = pure tt
pre_check_phase (other_phase s) = pure tt

unfoldable pub pre_check : {K : Type 0} → Exec (World K) (Unit {0})
unfolding pre_check_phase
pre_check w = pre_check_phase w.nacos.status.phase w

module _ (o : RangeOrder) {K : Type 0} (e : Environment K) where
  -- the objects of MySQL, behind their guard
  unfoldable pub ensure_mysql : Nacos → Exec K (Unit {0})
  unfolding ensure_mysql_config_map ensure_job
  ensure_mysql nacos =
      if sets_up_mysql nacos
      then (do ensure_mysql_config_map o e nacos; ensure_job o e nacos)
      else pure tt

  unfoldable pub ensure_stand_alone : Nacos → Exec K (Unit {0})
  unfolding ensure_mysql ensure_configmap ensure_statefulset ensure_service
  ensure_stand_alone nacos = do
    ensure_configmap o e nacos
    ensure_statefulset o e nacos
    ensure_service o e nacos
    ensure_mysql nacos

  unfoldable pub ensure_cluster : Nacos → Exec K (Unit {0})
  unfolding ensure_mysql ensure_configmap ensure_statefulset_cluster ensure_headless_service_cluster
      ensure_client_service
  ensure_cluster nacos = do
    ensure_configmap o e nacos
    ensure_statefulset_cluster o e nacos
    ensure_headless_service_cluster o e nacos
    ensure_client_service o e nacos
    ensure_mysql nacos

  -- the `switch` on the type
  unfoldable pub ensure_type : Nacos → Exec K (Unit {0})
  unfolding ensure_stand_alone ensure_cluster new
  ensure_type nacos =
      if nacos.spec.type == type_stand_alone
      then ensure_stand_alone nacos
      else if nacos.spec.type == type_cluster
      then ensure_cluster nacos
      else throw (
          raised (
            new code_parameter_error msg_parameter_errot
              ("nacos.Spec.Type" ∷ nacos.spec.type ∷ [])))

  unfoldable pub make_ensure : Exec (World K) (Unit {0})
  unfolding validation_field ensure_type
  make_ensure = do modify validation_field; reading ensure_type

  unfoldable pub check_and_make_heal : Exec (World K) (Unit {0})
  unfolding check_kind check_nacos
  check_and_make_heal = do pods ← reading (check_kind o e); check_nacos e pods

  unfoldable pub update_status : Exec (World K) (Unit {0})
  unfolding update_status_running
  update_status = update_status_running e
