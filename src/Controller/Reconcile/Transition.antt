-- ===== src/Controller/Reconcile/Transition.antt =====
-- `transitionState`, `initializeState`, `updateReadyStatus` and `refreshAndUpdateCondition`: the
-- writers of the status. Each reads the object anew before it writes.
use Prim.Native.String.{◌++◌}
use kterodactyl.Prelude.{ℕ, ◌*◌, ◌^◌, String, Bool, true, false, List, [], ◌∷◌, map, if◌then◌else◌}
use kterodactyl.Lifecycle.{GameServerState, creating, starting, is_valid_transition}
use kterodactyl.Kube.Errors.{Piece, str, of_state, invalid_transition}
use kterodactyl.Kube.Meta.{key_of, ConditionStatus}
use kterodactyl.Kube.Objects.{GameServerPort, GameServerStatusPort, GameServer, game_servers, Pod}
use kterodactyl.Kube.Exec.{Exec, pure, fail, wrapping, modify, ◌>>=◌, ◌>>◌}
use kterodactyl.Kube.Platform.{Platform}
use kterodactyl.Controller.Conditions.{
  set, transition_conditions, initial_conditions, ready_conditions,
}

-- `ctrl.Result`, the delay in nanoseconds
pub record Result : Type 0 where
  pub requeue : Bool
  pub requeue_after : ℕ

abbrev pub done : Result
done = record { requeue = false; requeue_after = 0 }

abbrev pub again : Result
again = record { requeue = true; requeue_after = 0 }

abbrev pub after : ℕ → Result
after delay = record { requeue = false; requeue_after = delay }

abbrev pub second : ℕ
second = 10 ^ 9

abbrev pub requeue_delay : ℕ
requeue_delay = 5 * second

abbrev pub starting_timeout : ℕ
starting_timeout = 300 * second

-- the last `switch newState` of `transitionState`
unfoldable pub requeue_of : GameServerState → Result
requeue_of creating = again
requeue_of starting = after requeue_delay
requeue_of _ = again

unfoldable pub status_port : GameServerPort → GameServerStatusPort
status_port port = record { name = port.name; port = port.container_port; protocol = port.protocol }

module _ {S : Type 0} (p : Platform S) (now : ℕ) where
  -- the new status, on the object that was read anew
  unfoldable pub with_state : GameServerState → String → List Piece → GameServer → GameServer
  unfolding transition_conditions
  with_state new reason message fresh = record fresh {
    status = record (fresh.status) {
      state = new;
      conditions =
          transition_conditions p now fresh.meta.generation new reason message
            fresh.status.conditions;
    };
  }

  -- the rest of `transitionState`, once the object is read anew
  unfoldable pub write_state :
      GameServer → GameServerState → String → List Piece → GameServer → Exec S Result
  unfolding with_state requeue_of
  write_state gs new reason message fresh = do
    wrapping "failed to update status for state transition"
        (p.update_status game_servers (with_state new reason message fresh))
    modify (
        p.event gs.meta "Normal" "StateChanged" (
          str "State changed from "
          ∷ of_state gs.status.state
          ∷ str " to "
          ∷ of_state new
          ∷ str ": "
          ∷ message))
    pure (requeue_of new)

  unfoldable pub transition_state :
      GameServer → GameServerState → String → List Piece → Exec S Result
  unfolding is_valid_transition write_state
  transition_state gs new reason message =
      if is_valid_transition gs.status.state new
      then (do
        fresh ←
            wrapping "failed to re-fetch GameServer for status update"
              (p.get game_servers (key_of gs.meta))
        write_state gs new reason message fresh)
      else fail (invalid_transition gs.status.state new)

  unfoldable pub with_initial_state : GameServer → GameServer
  unfolding initial_conditions
  with_initial_state gs = record gs {
    status = record (gs.status) {
      state = creating;
      conditions = initial_conditions p now gs.meta.generation gs.status.conditions;
    };
  }

  unfoldable pub initialize_state : GameServer → Exec S Result
  unfolding with_initial_state
  initialize_state gs = do
    wrapping "failed to set initial state" (p.update_status game_servers (with_initial_state gs))
    modify (p.event gs.meta "Normal" "StateChanged" (str "GameServer state set to Creating" ∷ []))
    pure again

  unfoldable pub with_ready_status : Pod → GameServer → GameServer
  unfolding status_port ready_conditions
  with_ready_status pod fresh = record fresh {
    status = record (fresh.status) {
      address = pod.status.pod_ip;
      ports = map status_port fresh.spec.ports;
      conditions = ready_conditions p now fresh.meta.generation fresh.status.conditions;
    };
  }

  unfoldable pub update_ready_status : GameServer → Pod → Exec S GameServer
  unfolding with_ready_status
  update_ready_status gs pod = do
    fresh ←
        wrapping "failed to re-fetch GameServer for ready status update"
          (p.get game_servers (key_of gs.meta))
    wrapping "failed to update ready status"
        (p.update_status game_servers (with_ready_status pod fresh))

  unfoldable pub with_condition :
      String → ConditionStatus → String → List Piece → GameServer → GameServer
  unfolding set
  with_condition type status reason message fresh = record fresh {
    status = record (fresh.status) {
      conditions =
          set p now fresh.meta.generation type status reason message fresh.status.conditions;
    };
  }

  unfoldable pub refresh_and_update_condition :
      GameServer → String → ConditionStatus → String → List Piece → Exec S GameServer
  unfolding with_condition
  refresh_and_update_condition gs type status reason message = do
    fresh ←
        wrapping "failed to re-fetch GameServer for condition update"
          (p.get game_servers (key_of gs.meta))
    wrapping ("failed to update condition " ++ type)
        (p.update_status game_servers (with_condition type status reason message fresh))
