-- ===== src/Controller/Transitions.antt =====
-- The writers of the status and the setup of objects move game servers along the table only.
pub mod Handlers
pub mod Reconciliation
use kterodactyl.Prelude.{
  ℕ, String, ◌==◌, ◌≡◌, ◌≢◌, refl, sym, ap, ◌∙◌, subst, ◌⊎◌, inl, inr, Bool, true, false, not, ◌&&◌,
  Option, none, some, List, [], length, exceeds, arith, Bool-cases, text_at, if◌then◌else◌,
}
use kterodactyl.Lifecycle.{
  GameServerState, creating, starting, ready, allocated, shutdown, error, is_valid_transition,
  same_state,
}
use kterodactyl.Lifecycle.Graph.{same_state_iff}
use kterodactyl.Labels.{label_owner, annotation_mod_path}
use kterodactyl.Kube.Errors.{Err, Piece, Reply, ok, err, is_not_found, wrap}
use kterodactyl.Kube.Meta.{Key, key_of, ConditionStatus}
use kterodactyl.Kube.Objects.{
  GameServer, GameServerStatus, Kind, game_servers, Pod, pods, pvcs, all_namespaces, quotas,
  limit_ranges, network_policies, config_maps, ConfigMap,
}
use kterodactyl.Kube.Exec.{Exec, pure, fail, wrapping, attempt, modify, ◌>>=◌, ◌>>◌}
use kterodactyl.Kube.Exec.Results.{or_wrap-eq-ok}
use kterodactyl.Kube.Platform.{Platform, Laws}
use kterodactyl.Controller.Config.{AdminConfig, config_of, load_admin_config}
use kterodactyl.Controller.Pods.{reconcile_pod, reconcile_mod_pvc}
use kterodactyl.Controller.Namespaces.{
  ensure_resource_quota, ensure_limit_range, ensure_network_policy, ensure_user_namespace,
}
use kterodactyl.Controller.Reconcile.{
  Result, with_state, transition_state, with_initial_state, initialize_state, with_ready_status,
  update_ready_status, with_condition, refresh_and_update_condition, add_finalizer,
  ignore_not_found, delete_pod, handle_deletion, user_servers, create_objects, create_for_user,
  reconcile_creating, starting_with, reconcile_starting, ready_with, reconcile_ready,
  allocated_with, reconcile_allocated, stop_pod, reconcile_shutdown, reconcile_error, Counts,
  set_gauges, gauge_of, update_game_server_gauge, then_gauge, dispatch, reconcile_server, after_get,
  reconcile, pod_serves, is_failed_phase, timed_out, is_allocated,
}
use kterodactyl.Controller.Moves.{
  state_of, IsStep, Allowed, same, state_at, Quiet, Moves, Stored, Quiet-pure, Quiet-fail,
  Quiet-wrapping, Quiet-attempt, Quiet-if, Moves-of_Quiet, Moves-if, Moves-wrapping, Quiet-bind,
  Moves-bind, Moves-bind_of, Moves-then, Quiet-get, Quiet-list, Quiet-event, Quiet-delete,
  Quiet-create_or_update, Moves-update_status, Moves-update,
}

module _ {S : Type 0} {p : Platform S} (l : Laws p) where
  pub Quiet-load_admin_config : (ns : String) → Quiet l (load_admin_config p ns)
  unfolding load_admin_config
  Quiet-load_admin_config ns =
      Quiet-bind _ _ (Quiet-attempt _ (Quiet-get config_maps _)) config_of-quiet
    where
      config_of-quiet : (r : Reply ConfigMap) → Quiet l (config_of p r)
      config_of-quiet (ok cm) = Quiet-pure _
      config_of-quiet (err e) = Quiet-if (is_not_found e) _ _ (Quiet-pure _) (Quiet-fail _)

  pub Quiet-ensure_user_namespace :
      (configured username : String) (cfg : AdminConfig)
      → Quiet l (ensure_user_namespace p configured username cfg)
  unfolding ensure_user_namespace ensure_resource_quota ensure_limit_range ensure_network_policy
  Quiet-ensure_user_namespace configured username cfg =
      Quiet-bind _ _ (Quiet-wrapping _ _ (Quiet-create_or_update all_namespaces _ _ (λ e. cc))) λ _.
        Quiet-bind _ _ (Quiet-wrapping _ _ (Quiet-create_or_update quotas _ _ (λ e. cc))) λ _.
          Quiet-bind _ _ (Quiet-wrapping _ _ (Quiet-create_or_update limit_ranges _ _ (λ e. cc)))
            λ _.
              Quiet-bind _ _
                (Quiet-wrapping _ _ (Quiet-create_or_update network_policies _ _ (λ e. cc)))
                λ _. Quiet-pure _

  pub Quiet-reconcile_pod : (gs : GameServer) → Quiet l (reconcile_pod p gs)
  unfolding reconcile_pod
  Quiet-reconcile_pod gs =
      Quiet-bind _ _ (Quiet-wrapping _ _ (Quiet-create_or_update pods _ _ (λ e. cc)))
        λ _. Quiet-event _ _ _ _

  pub Quiet-reconcile_mod_pvc :
      (gs : GameServer) (cfg : AdminConfig) → Quiet l (reconcile_mod_pvc p gs cfg)
  unfolding reconcile_mod_pvc
  Quiet-reconcile_mod_pvc gs cfg =
      Quiet-bind _ _ (Quiet-wrapping _ _ (Quiet-create_or_update pvcs _ _ (λ e. cc)))
        λ _. Quiet-event _ _ _ _

module _ {S : Type 0} {p : Platform S} (l : Laws p) (now : ℕ) where
  -- the object that was read anew, for one that was read before
  same_key :
      (gs fresh : GameServer) (s : S) (context : String)
      → (wrapping context (p.get game_servers (key_of gs.meta)) s).0 ≡ ok fresh
      → key_of fresh.meta ≡ key_of gs.meta
  unfolding wrapping
  same_key gs fresh s context h =
      (l.get_ok game_servers (key_of gs.meta) s (or_wrap-eq-ok context _ h)).1

  same-Stored :
      (gs fresh : GameServer) (s : S) (context : String)
      → Stored l gs s
      → (wrapping context (p.get game_servers (key_of gs.meta)) s).0 ≡ ok fresh
      → fresh.status.state ≡ gs.status.state
  unfolding wrapping
  same-Stored gs fresh s context stored h =
      let found = (l.get_ok game_servers (key_of gs.meta) s (or_wrap-eq-ok context _ h)).0 in
      let e : some fresh.status.state ≡ some gs.status.state = sym (ap state_of found) ∙ stored in
      cc

  pub Moves-transition_state :
      (gs : GameServer) (new : GameServerState) (reason : String) (message : List Piece)
      → Moves l gs (transition_state p now gs new reason message)
  unfolding transition_state with_state
  Moves-transition_state gs new reason message =
      Moves-if gs (is_valid_transition gs.status.state new) _ _
        (λ valid.
          Moves-bind_of gs _ _ (Quiet-wrapping _ _ (Quiet-get game_servers _)) λ s fresh _ h.
            Moves-then gs _ _
              (Moves-wrapping gs _ _
                (Moves-update_status gs _ (same_key gs fresh s _ h) (inr (inl valid))))
              λ _. Quiet-bind _ _ (Quiet-event _ _ _ _) λ _. Quiet-pure _)
        (Moves-of_Quiet gs _ (Quiet-fail _))

  pub Moves-update_ready_status :
      (gs : GameServer) (pod : Pod) → Moves l gs (update_ready_status p now gs pod)
  unfolding update_ready_status with_ready_status
  Moves-update_ready_status gs pod =
      Moves-bind_of gs _ _ (Quiet-wrapping _ _ (Quiet-get game_servers _)) λ s fresh stored h.
        Moves-wrapping gs _ _ (
          Moves-update_status gs _ (same_key gs fresh s _ h)
            (inl (same-Stored gs fresh s _ stored h)))

  pub Moves-refresh :
      (gs : GameServer) (type : String) (status : ConditionStatus) (reason : String)
      (message : List Piece)
      → Moves l gs (refresh_and_update_condition p now gs type status reason message)
  unfolding refresh_and_update_condition with_condition
  Moves-refresh gs type status reason message =
      Moves-bind_of gs _ _ (Quiet-wrapping _ _ (Quiet-get game_servers _)) λ s fresh stored h.
        Moves-wrapping gs _ _ (
          Moves-update_status gs _ (same_key gs fresh s _ h)
            (inl (same-Stored gs fresh s _ stored h)))

  pub Moves-initialize_state :
      (gs : GameServer)
      → same_state gs.status.state GameServerState.unset ≡ true
      → Moves l gs (initialize_state p now gs)
  unfolding initialize_state with_initial_state
  Moves-initialize_state gs h =
      Moves-then gs _ _
        (Moves-wrapping gs _ _ (
          Moves-update_status gs _ refl
            (inr (inr ((same_state_iff gs.status.state GameServerState.unset).0 h, refl)))))
        λ _. Quiet-bind _ _ (Quiet-event _ _ _ _) λ _. Quiet-pure _
