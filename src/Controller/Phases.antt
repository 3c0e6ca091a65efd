-- ===== src/Controller/Phases.antt =====
-- The phases that a resource goes through: one reconciliation as a step between phases.
use nacos_k8s.Base.{
  ◌≡◌, ◌≢◌, refl, ap, sym, ◌∙◌, Bool, true, false, Option, none, some, ◌⊎◌, inl, inr,
}
use mathlib.Core.Path.{subst}
use nacos_k8s.Go.Maps.{RangeOrder}
use nacos_k8s.Errors.{Error, new, Exec, Outcome, done, panic, ensure_normal, ◌>>=◌}
use nacos_k8s.Errors.Laws.{invert->>=}
use nacos_k8s.Api.{
  Nacos, Phase, phase_none, phase_failed, phase_creating, phase_running, phase_scale, other_phase,
}
use nacos_k8s.Environment.{Environment}
use nacos_k8s.Kind.Defaults.{
  validation_field, set_default_nacos_type, set_default_mysql, set_default_certification,
}
use nacos_k8s.Operator.World.{World, reading, modify, with_status}
use nacos_k8s.Operator.Keeps.{reading-Keeps, check_and_make_heal-Keeps}
use nacos_k8s.Operator.Status
use nacos_k8s.Operator.Status.{
  store_event, push_status, update_status_running, update_exception_status,
}
use nacos_k8s.Operator.Status.Saved.{update_status_running_lem}
use nacos_k8s.Operator.Stages.{
  pre_check, pre_check_phase, make_heal, ensure_type, make_ensure, check_and_make_heal,
  update_status,
}
use nacos_k8s.Controller.{recover, stages, reconcile_work, global_except_handle, handle_err}
use nacos_k8s.Controller.Sets.{
  phase, Sets, Sets->>=, Keeps→Sets, update_status_running-Sets, global_except_handle-Sets,
}

-- One reconciliation takes the first phase to the second; the Boolean says whether it settles.
pub data Move : Phase → Bool → Phase → Type 0 where
  start : Move phase_none false phase_creating
  up : {p : Phase} → p ≢ phase_none → Move p true phase_running
  unsaved : {p : Phase} → p ≢ phase_none → Move p false phase_running
  stay : {p : Phase} → p ≢ phase_none → Move p false p
  down : {p : Phase} → p ≢ phase_none → Move p false phase_failed

status_kept : (n : Nacos) → phase (validation_field n) ≡ phase n
unfolding validation_field set_default_nacos_type set_default_mysql set_default_certification
status_kept n = refl

-- the resource once its creation has been noticed
abbrev pub creating : Nacos → Nacos
creating = with_status λ s. record s { phase = phase_creating }

module _ (o : RangeOrder) {K : Type 0} (e : Environment K) where
  make_ensure-Sets : (q : Phase) → Sets q (make_ensure o e)
  unfolding make_ensure
  make_ensure-Sets q =
      Sets->>= q (modify validation_field) _ (record { sets = λ w. inl (status_kept w.nacos) })
        λ a. Keeps→Sets q (reading (ensure_type o e)) (reading-Keeps phase (ensure_type o e))

  -- the stages after the first
  abbrev later : Exec (World K) (Unit {0})
  later = make_ensure o e >>= λ a. check_and_make_heal o e >>= λ b. update_status o e

  later-Sets : Sets phase_running later
  unfolding update_status
  later-Sets = Sets->>= phase_running (make_ensure o e) _ (make_ensure-Sets phase_running) λ a.
      Sets->>= phase_running (check_and_make_heal o e) _
        (record { sets = λ w. inl (ap (λ t. t.4) ((check_and_make_heal-Keeps o e).kept w)) })
        λ b. update_status_running-Sets e

  later_done : (w v : World K) → later w ≡ (done tt, v) → phase v.nacos ≡ phase_running
  unfolding update_status
  later_done w v h =
      let a =
        invert->>= (make_ensure o e) (λ a. check_and_make_heal o e >>= λ b. update_status o e) w v
          tt h in
      let b = invert->>= (check_and_make_heal o e) (λ b. update_status o e) a.1 v tt a.3 in
      (update_status_running_lem e b.1 v b.3).0

  after_panic :
      {p q r : Phase}
      → p ≢ phase_none
      → (q ≡ p) ⊎ (q ≡ phase_running)
      → (r ≡ q) ⊎ (r ≡ phase_failed)
      → Move p false r
  after_panic {p} n h (inr k) = subst (Move p false) (sym k) (down n)
  after_panic {p} n (inl h) (inl k) = subst (Move p false) (sym (k ∙ h)) (stay n)
  after_panic {p} n (inr h) (inl k) = subst (Move p false) (sym (k ∙ h)) (unsaved n)

  none-cases : (p : Phase) → (p ≡ phase_none) ⊎ (p ≢ phase_none)
  none-cases phase_none = inl refl
  none-cases phase_failed = inr λ h. cc
  none-cases phase_scale = inr λ h. cc
  none-cases phase_running = inr λ h. cc
  none-cases phase_creating = inr λ h. cc
  none-cases (other_phase s) = inr λ h. cc

  started :
      (r : Outcome (Unit {0})) (w v w' : World K) (b : Bool)
      → phase w.nacos ≢ phase_none
      → later w ≡ (r, v)
      → recover e r v ≡ (b, w')
      → Move (phase w.nacos) b (phase w'.nacos)
  unfolding recover
  started (done a) w v w' b n h k =
      subst (λ c. Move (phase w.nacos) c (phase w'.nacos)) (ap (λ q. q.0) k)
        (subst (Move (phase w.nacos) true)
          (sym (ap (λ q. phase (q.1).nacos) (sym k) ∙ later_done w v h)) (up n))
  started (panic f) w v w' b n h k =
      subst (λ c. Move (phase w.nacos) c (phase w'.nacos)) (ap (λ q. q.0) k)
        (subst (Move (phase w.nacos) false) (ap (λ q. phase (q.1).nacos) k) (
          after_panic n
            (subst (λ q. (phase (q.1).nacos ≡ phase w.nacos) ⊎ (phase (q.1).nacos ≡ phase_running))
              h (later-Sets.sets w))
            ((global_except_handle-Sets e f).sets v)))

  move :
      {p : Phase} (w w' : World K) (b : Bool)
      → w.nacos.status.phase ≡ p
      → p ≢ phase_none
      → recover e (later w).0 (later w).1 ≡ (b, w')
      → Move p b w'.nacos.status.phase
  move w w' b h n k =
      subst (λ q. Move q b w'.nacos.status.phase) h
        (started (later w).0 w (later w).1 w' b (subst (λ q. q ≢ phase_none) (sym h) n) refl k)

  after_ensure_normal : (err : Option Error) (v : World K) → (ensure_normal err v).1 ≡ v
  unfolding ensure_normal
  after_ensure_normal none v = refl
  after_ensure_normal (some e) v = refl

  first :
      (w : World K)
      → (let r = (pre_check_phase phase_none >>= λ a. later) w in recover e r.0 r.1) ≡ (
        false,
        record {
          nacos = creating w.nacos;
          cluster = (e.update_status (creating w.nacos) w.cluster).1;
        },
      )
  unfolding pre_check_phase recover global_except_handle handle_err new Status.update_status
      push_status
  first w = ap (λ v. (false, v)) (after_ensure_normal _ _)

  -- The first reconciliation of a resource sets its phase to creating, updates its status with that,
  -- does nothing else to the cluster, and does not settle, whether the update succeeds or not.
  pub reconcile_first :
      (w : World K)
      → w.nacos.status.phase ≡ phase_none
      → reconcile_work o e w ≡ (
        false,
        record {
          nacos = creating w.nacos;
          cluster = (e.update_status (creating w.nacos) w.cluster).1;
        },
      )
  unfolding reconcile_work stages pre_check
  reconcile_first w h =
      ap (λ p. let r = (pre_check_phase p >>= λ a. later) w in recover e r.0 r.1) h ∙ first w

  other_phases :
      (p : Phase) (w w' : World K) (b : Bool)
      → w.nacos.status.phase ≡ p
      → p ≢ phase_none
      → (let r = (pre_check_phase p >>= λ a. later) w in recover e r.0 r.1) ≡ (b, w')
      → Move p b w'.nacos.status.phase
  unfolding pre_check_phase make_heal
  other_phases phase_none w w' b h n k = absurd (n refl)
  other_phases phase_failed w w' b h n k = move w w' b h n k
  other_phases phase_scale w w' b h n k = move w w' b h n k
  other_phases phase_running w w' b h n k = move w w' b h n k
  other_phases phase_creating w w' b h n k = move w w' b h n k
  other_phases (other_phase s) w w' b h n k = move w w' b h n k

  -- Every reconciliation, whatever the environment answers, moves the phase in one of five ways. A new
  -- resource becomes creating and does not settle. Any other settles with the phase running, or does
  -- not settle and keeps its phase, or has it set to running or to failed.
  pub reconcile_work-Move :
      (w w' : World K) (b : Bool)
      → reconcile_work o e w ≡ (b, w')
      → Move w.nacos.status.phase b w'.nacos.status.phase
  unfolding reconcile_work stages pre_check
  reconcile_work-Move w w' b k = elim (none-cases w.nacos.status.phase) [
    | inl h ↦
        subst (λ p. Move p b w'.nacos.status.phase) (sym h)
          (subst (λ r. Move phase_none r.0 (r.1).nacos.status.phase) (sym (reconcile_first w h) ∙ k)
            start)
    | inr n ↦ other_phases w.nacos.status.phase w w' b refl n k
  ]
