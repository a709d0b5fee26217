-- ===== src/Controller/Conditions.antt =====
-- The status conditions of a game server: `transitionState` and the other writers of conditions in
-- internal/controller/gameserver_controller.go, as functions on the list of conditions.
use kterodactyl.Prelude.{ℕ, String, List, [], ◌∷◌}
use kterodactyl.Lifecycle.{GameServerState, creating, starting, ready, allocated, shutdown, error}
use kterodactyl.Kube.Errors.{Piece, str}
use kterodactyl.Kube.Meta.{Condition, ConditionStatus, is_true, is_false}
use kterodactyl.Kube.Platform.{Platform}

abbrev pub type_ready : String
type_ready = "Ready"

abbrev pub type_progressing : String
type_progressing = "Progressing"

abbrev pub type_degraded : String
type_degraded = "Degraded"

-- A condition literal leaves the transition time at its zero value.
abbrev pub condition : String → ConditionStatus → String → List Piece → ℕ → Condition
condition type status reason message generation = record {
  type = type;
  status = status;
  reason = reason;
  message = message;
  observed_generation = generation;
  last_transition_time = 0;
}

abbrev pub shutting_down : List Piece
shutting_down = str "GameServer is shutting down" ∷ []

module _ {S : Type 0} (p : Platform S) (now generation : ℕ) where
  unfoldable pub set :
      String → ConditionStatus → String → List Piece → List Condition → List Condition
  set type status reason message cs =
      p.set_status_condition now (condition type status reason message generation) cs

  -- the first `switch newState` of `transitionState`
  unfoldable pub transition_conditions :
      GameServerState → String → List Piece → List Condition → List Condition
  unfolding set
  transition_conditions creating reason message cs =
      set type_ready is_false reason message (set type_progressing is_true reason message cs)
  transition_conditions starting reason message cs =
      set type_ready is_false reason message (set type_progressing is_true reason message cs)
  transition_conditions ready reason message cs =
      set type_progressing is_false reason message (set type_ready is_true reason message cs)
  transition_conditions allocated reason message cs = set type_ready is_true reason message cs
  transition_conditions shutdown reason message cs =
      set type_progressing is_false "ShuttingDown" shutting_down
        (set type_ready is_false "ShuttingDown" shutting_down cs)
  transition_conditions error reason message cs =
      set type_progressing is_false reason message
        (set type_ready is_false reason message (set type_degraded is_true reason message cs))
  transition_conditions _ reason message cs = cs

  -- the conditions that `initializeState` sets
  unfoldable pub initial_conditions : List Condition → List Condition
  unfolding set
  initial_conditions cs =
      set type_ready is_false "Initializing" (str "GameServer is not yet ready" ∷ [])
        (set type_progressing is_true "Initializing" (str "GameServer is being created" ∷ []) cs)

  -- the conditions that `updateReadyStatus` sets
  unfoldable pub ready_conditions : List Condition → List Condition
  unfolding set
  ready_conditions cs =
      set type_progressing is_false "PodReady" (str "GameServer is running and ready" ∷ [])
        (set type_ready is_true "PodReady" (str "GameServer is running and ready" ∷ []) cs)
