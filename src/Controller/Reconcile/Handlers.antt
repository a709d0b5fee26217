-- ===== src/Controller/Reconcile/Handlers.antt =====
-- The tests of the handlers, and the handlers of a deletion and of a missing finalizer.
use kterodactyl.Prelude.{
  ℕ, ◌-◌, ltb, String, ◌==◌, Bool, true, false, ◌&&◌, none, List, [], ◌∷◌, text_at, if◌then◌else◌,
}
use kterodactyl.Labels.{annotation_allocated}
use kterodactyl.Kube.Errors.{str, Reply, ok, err, wrap, is_not_found}
use kterodactyl.Kube.Meta.{key_of, Condition, ConditionStatus, is_true}
use kterodactyl.Kube.Objects.{
  GameServer, game_servers, Pod, pods, PodPhase, pod_running, pod_failed,
}
use kterodactyl.Kube.Exec.{Exec, pure, fail, wrapping, attempt, modify, ◌>>=◌, ◌>>◌}
use kterodactyl.Kube.Platform.{Platform}
use kterodactyl.Controller.Conditions.{type_progressing}
use kterodactyl.Controller.Pods.{is_pod_ready}
use kterodactyl.Controller.Reconcile.Transition.{Result, done, again, starting_timeout}

abbrev pub finalizer_name : String
finalizer_name = "game.kterodactyl.io/finalizer"

abbrev pub shutdown_grace_period : ℕ
shutdown_grace_period = 30

abbrev pub is_running_phase : PodPhase → Bool
is_running_phase pod_running = true
is_running_phase _ = false

abbrev pub is_failed_phase : PodPhase → Bool
is_failed_phase pod_failed = true
is_failed_phase _ = false

abbrev pub status_is_true : ConditionStatus → Bool
status_is_true is_true = true
status_is_true _ = false

-- pod.Status.Phase == Running && isPodReady(pod)
unfoldable pub pod_serves : Pod → Bool
unfolding is_pod_ready
pod_serves pod = is_running_phase pod.status.phase && is_pod_ready pod

-- the loop over the conditions in `reconcileStarting`: has a Progressing condition been true for
-- longer than the timeout? `-` stops at 0, where Go's duration is negative and below the timeout.
unfoldable pub timed_out : ℕ → List Condition → Bool
timed_out now [] = false
timed_out now (c ∷ cs) =
    if (c.type == type_progressing && status_is_true c.status)
      && ltb starting_timeout (now - c.last_transition_time)
    then true
    else timed_out now cs

-- gs.Annotations[AnnotationAllocated] == "true"
unfoldable pub is_allocated : GameServer → Bool
unfolding text_at
is_allocated gs = text_at annotation_allocated gs.meta.annotations == "true"

module _ {S : Type 0} (p : Platform S) where
  unfoldable pub add_finalizer : GameServer → Exec S Result
  add_finalizer gs = do
    wrapping "failed to add finalizer"
        (p.update game_servers (record gs { meta = p.add_finalizer gs.meta finalizer_name }))
    pure again

  -- A delete whose object is gone counts as done.
  unfoldable pub ignore_not_found : String → Reply (Unit {0}) → Exec S (Unit {0})
  ignore_not_found context (ok u) = pure tt
  ignore_not_found context (err e) = if is_not_found e then pure tt else fail (wrap context e)

  unfoldable pub delete_pod : Reply Pod → Exec S (Unit {0})
  unfolding ignore_not_found
  delete_pod (ok pod) = do
    r ← attempt (p.delete pods pod none)
    ignore_not_found "failed to delete Pod during finalization" r
  delete_pod (err e) =
      if is_not_found e then pure tt else fail (wrap "failed to get Pod during finalization" e)

  unfoldable pub handle_deletion : GameServer → Exec S Result
  unfolding delete_pod
  handle_deletion gs =
      if p.contains_finalizer gs.meta finalizer_name
      then (do
        r ← attempt (p.get pods (key_of gs.meta))
        delete_pod r
        wrapping "failed to remove finalizer"
            (p.update game_servers (record gs { meta = p.remove_finalizer gs.meta finalizer_name }))
        modify (
            p.event gs.meta "Normal" "Finalized"
              (str "GameServer finalized and resources cleaned up" ∷ []))
        pure done)
      else pure done
