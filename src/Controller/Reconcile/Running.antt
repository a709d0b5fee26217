-- ===== src/Controller/Reconcile/Running.antt =====
-- The handlers of the other five states.
use kterodactyl.Prelude.{ℕ, not, some, [], ◌∷◌, if◌then◌else◌}
use kterodactyl.Lifecycle.{creating, ready, allocated, error}
use kterodactyl.Kube.Errors.{str, Reply, ok, err, wrap, is_not_found}
use kterodactyl.Kube.Meta.{key_of, is_true, is_false}
use kterodactyl.Kube.Objects.{GameServer, Pod, pods}
use kterodactyl.Kube.Exec.{Exec, pure, fail, attempt, modify, ◌>>=◌, ◌>>◌}
use kterodactyl.Kube.Platform.{Platform}
use kterodactyl.Controller.Conditions.{type_ready, type_degraded}
use kterodactyl.Controller.Reconcile.Transition.{
  Result, done, after, requeue_delay, transition_state, update_ready_status,
  refresh_and_update_condition,
}
use kterodactyl.Controller.Reconcile.Handlers.{
  pod_serves, timed_out, is_allocated, is_failed_phase, ignore_not_found, shutdown_grace_period,
}

module _ {S : Type 0} (p : Platform S) (now : ℕ) where
  unfoldable pub starting_with : GameServer → Reply Pod → Exec S Result
  unfolding pod_serves timed_out transition_state
  starting_with gs (ok pod) =
      if pod_serves pod
      then transition_state p now gs ready "PodReady"
          (str "Pod is running and all containers are ready" ∷ [])
      else if is_failed_phase pod.status.phase
      then transition_state p now gs error "PodFailed"
          (str "Pod failed with reason: " ∷ str pod.status.reason ∷ [])
      else if timed_out now gs.status.conditions
      then transition_state p now gs error "StartingTimeout"
          (str "Pod did not become ready within 5 minutes" ∷ [])
      else pure (after requeue_delay)
  starting_with gs (err e) =
      if is_not_found e
      then transition_state p now gs creating "PodDeleted"
          (str "Pod was deleted externally, recreating" ∷ [])
      else fail (wrap "failed to get Pod" e)

  unfoldable pub reconcile_starting : GameServer → Exec S Result
  unfolding starting_with
  reconcile_starting gs = do r ← attempt (p.get pods (key_of gs.meta)); starting_with gs r

  unfoldable pub ready_with : GameServer → Reply Pod → Exec S Result
  unfolding pod_serves is_allocated transition_state update_ready_status
  ready_with gs (ok pod) =
      if not (pod_serves pod)
      then transition_state p now gs error "PodNotReady"
          (str "Pod is no longer running or ready" ∷ [])
      else if is_allocated gs
      then transition_state p now gs allocated "Allocated"
          (str "GameServer has been allocated" ∷ [])
      else (do update_ready_status p now gs pod; pure done)
  ready_with gs (err e) =
      if is_not_found e
      then transition_state p now gs error "PodNotFound"
          (str "Pod disappeared while GameServer was Ready" ∷ [])
      else fail (wrap "failed to get Pod" e)

  unfoldable pub reconcile_ready : GameServer → Exec S Result
  unfolding ready_with
  reconcile_ready gs = do r ← attempt (p.get pods (key_of gs.meta)); ready_with gs r

  unfoldable pub allocated_with : GameServer → Reply Pod → Exec S Result
  unfolding pod_serves is_allocated transition_state
  allocated_with gs (ok pod) =
      if not (pod_serves pod)
      then transition_state p now gs error "PodNotReady"
          (str "Pod is no longer running or ready while Allocated" ∷ [])
      else if not (is_allocated gs)
      then transition_state p now gs ready "Deallocated"
          (str "GameServer has been deallocated" ∷ [])
      else pure done
  allocated_with gs (err e) =
      if is_not_found e
      then transition_state p now gs error "PodNotFound"
          (str "Pod disappeared while GameServer was Allocated" ∷ [])
      else fail (wrap "failed to get Pod" e)

  unfoldable pub reconcile_allocated : GameServer → Exec S Result
  unfolding allocated_with
  reconcile_allocated gs = do r ← attempt (p.get pods (key_of gs.meta)); allocated_with gs r

  unfoldable pub stop_pod : GameServer → Reply Pod → Exec S (Unit {0})
  unfolding ignore_not_found
  stop_pod gs (ok pod) = do
    r ← attempt (p.delete pods pod (some shutdown_grace_period))
    ignore_not_found p "failed to delete Pod during shutdown" r
    modify (p.event gs.meta "Normal" "PodDeleted" (str "Pod deleted during shutdown" ∷ []))
  stop_pod gs (err e) =
      if is_not_found e then pure tt else fail (wrap "failed to get Pod during shutdown" e)

  unfoldable pub reconcile_shutdown : GameServer → Exec S Result
  unfolding stop_pod refresh_and_update_condition
  reconcile_shutdown gs = do
    r ← attempt (p.get pods (key_of gs.meta))
    stop_pod gs r
    refresh_and_update_condition p now gs type_ready is_false "ShuttingDown"
        (str "GameServer is shutting down" ∷ [])
    pure done

  unfoldable pub reconcile_error : GameServer → Exec S Result
  unfolding refresh_and_update_condition
  reconcile_error gs = do
    refresh_and_update_condition p now gs type_degraded is_true "Error"
        (str "GameServer has encountered an error" ∷ [])
    pure done
