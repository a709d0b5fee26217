-- ===== src/Controller/Transitions/Handlers.antt =====
-- The handler of each state moves its game server along the table only.
use kterodactyl.Prelude.{ℕ, String, ◌==◌, not, List, length, exceeds, text_at}
use kterodactyl.Labels.{label_owner, annotation_mod_path}
use kterodactyl.Kube.Errors.{Reply, ok, err, is_not_found}
use kterodactyl.Kube.Objects.{GameServer, game_servers, Pod, pods}
use kterodactyl.Kube.Platform.{Platform, Laws}
use kterodactyl.Controller.Config.{AdminConfig}
use kterodactyl.Controller.Reconcile.{
  add_finalizer, ignore_not_found, delete_pod, handle_deletion, user_servers, create_objects,
  create_for_user, reconcile_creating, starting_with, ready_with, allocated_with, stop_pod,
  reconcile_shutdown, pod_serves, is_failed_phase, timed_out, is_allocated,
}
use kterodactyl.Controller.Moves.{
  Quiet, Moves, Quiet-pure, Quiet-fail, Quiet-wrapping, Quiet-attempt, Quiet-if, Moves-of_Quiet,
  Moves-if, Moves-wrapping, Quiet-bind, Moves-bind, Moves-then, Quiet-get, Quiet-list, Quiet-event,
  Quiet-delete, Moves-update,
}
use kterodactyl.Controller.Transitions.{
  Quiet-load_admin_config, Quiet-ensure_user_namespace, Quiet-reconcile_pod,
  Quiet-reconcile_mod_pvc, Moves-transition_state, Moves-update_ready_status, Moves-refresh,
}

module _ {S : Type 0} {p : Platform S} (l : Laws p) (now : ℕ) (gs : GameServer) where
  Quiet-ignore_not_found :
      (context : String) (r : Reply (Unit {0})) → Quiet l (ignore_not_found p context r)
  unfolding ignore_not_found
  Quiet-ignore_not_found context (ok u) = Quiet-pure _
  Quiet-ignore_not_found context (err e) =
      Quiet-if (is_not_found e) _ _ (Quiet-pure _) (Quiet-fail _)

  Quiet-delete_pod : (r : Reply Pod) → Quiet l (delete_pod p r)
  unfolding delete_pod
  Quiet-delete_pod (ok pod) =
      Quiet-bind _ _ (Quiet-attempt _ (Quiet-delete pods _ _ (λ e. cc)))
        λ r. Quiet-ignore_not_found _ r
  Quiet-delete_pod (err e) = Quiet-if (is_not_found e) _ _ (Quiet-pure _) (Quiet-fail _)

  Quiet-stop_pod : (r : Reply Pod) → Quiet l (stop_pod p now gs r)
  unfolding stop_pod
  Quiet-stop_pod (ok pod) =
      Quiet-bind _ _ (Quiet-attempt _ (Quiet-delete pods _ _ (λ e. cc)))
        λ r. Quiet-bind _ _ (Quiet-ignore_not_found _ r) λ _. Quiet-event _ _ _ _
  Quiet-stop_pod (err e) = Quiet-if (is_not_found e) _ _ (Quiet-pure _) (Quiet-fail _)

  pub Moves-add_finalizer : Moves l gs (add_finalizer p gs)
  unfolding add_finalizer
  Moves-add_finalizer =
      Moves-then gs _ _ (Moves-wrapping gs _ _ (Moves-update gs _)) λ _. Quiet-pure _

  pub Moves-handle_deletion : Moves l gs (handle_deletion p gs)
  unfolding handle_deletion
  Moves-handle_deletion =
      Moves-if gs (p.contains_finalizer gs.meta _) _ _
        (λ _. Moves-bind gs _ _ (Quiet-attempt _ (Quiet-get pods _)) λ r.
          Moves-bind gs _ _ (Quiet-delete_pod r) λ _.
            Moves-then gs _ _ (Moves-wrapping gs _ _ (Moves-update gs _))
              λ _. Quiet-bind _ _ (Quiet-event _ _ _ _) λ _. Quiet-pure _)
        (Moves-of_Quiet gs _ (Quiet-pure _))

  Moves-create_objects :
      (cfg : AdminConfig) (r : Reply (Unit {0})) → Moves l gs (create_objects p now gs cfg r)
  unfolding create_objects
  Moves-create_objects cfg (err e) = Moves-transition_state l now gs _ _ _
  Moves-create_objects cfg (ok u) =
      Moves-bind gs _ _
        (Quiet-if (text_at annotation_mod_path gs.meta.annotations == "") _ _ (Quiet-pure _)
          (Quiet-wrapping _ _ (Quiet-reconcile_mod_pvc l gs cfg)))
        λ _.
          Moves-bind gs _ _ (Quiet-wrapping _ _ (Quiet-reconcile_pod l gs))
            λ _. Moves-transition_state l now gs _ _ _

  Moves-create_for_user :
      (configured owner : String) (cfg : AdminConfig) (items : List GameServer)
      → Moves l gs (create_for_user p now configured gs owner cfg items)
  unfolding create_for_user
  Moves-create_for_user configured owner cfg items =
      Moves-if gs (exceeds (length items) cfg.max_servers_per_user) _ _
        (λ _. Moves-transition_state l now gs _ _ _)
        (Moves-bind gs _ _ (Quiet-attempt _ (Quiet-ensure_user_namespace l configured owner cfg))
          (Moves-create_objects cfg))

  Quiet-user_servers : (r : Reply (List GameServer)) → Quiet l (user_servers p r)
  unfolding user_servers
  Quiet-user_servers (ok items) = Quiet-pure _
  Quiet-user_servers (err e) = Quiet-if (is_not_found e) _ _ (Quiet-pure _) (Quiet-fail _)

  pub Moves-reconcile_creating :
      (configured : String) → Moves l gs (reconcile_creating p now configured gs)
  unfolding reconcile_creating
  Moves-reconcile_creating configured =
      Moves-if gs (text_at label_owner gs.meta.labels == "") _ _
        (λ _. Moves-transition_state l now gs _ _ _)
        (Moves-bind gs _ _ (Quiet-wrapping _ _ (Quiet-load_admin_config l _)) λ cfg.
          Moves-bind gs _ _ (Quiet-wrapping _ _ (Quiet-list game_servers _ _)) λ items.
            Moves-if gs (exceeds (length items) cfg.max_servers_global) _ _
              (λ _. Moves-transition_state l now gs _ _ _)
              (Moves-bind gs _ _ (Quiet-attempt _ (Quiet-list game_servers _ _)) λ r.
                Moves-bind gs _ _ (Quiet-user_servers r)
                  λ user_items. Moves-create_for_user configured _ cfg user_items))

  pub Moves-starting_with : (r : Reply Pod) → Moves l gs (starting_with p now gs r)
  unfolding starting_with
  Moves-starting_with (ok pod) =
      Moves-if gs (pod_serves pod) _ _ (λ _. Moves-transition_state l now gs _ _ _)
        (Moves-if gs (is_failed_phase pod.status.phase) _ _
          (λ _. Moves-transition_state l now gs _ _ _)
          (Moves-if gs (timed_out now gs.status.conditions) _ _
            (λ _. Moves-transition_state l now gs _ _ _) (Moves-of_Quiet gs _ (Quiet-pure _))))
  Moves-starting_with (err e) =
      Moves-if gs (is_not_found e) _ _ (λ _. Moves-transition_state l now gs _ _ _)
        (Moves-of_Quiet gs _ (Quiet-fail _))

  pub Moves-ready_with : (r : Reply Pod) → Moves l gs (ready_with p now gs r)
  unfolding ready_with
  Moves-ready_with (ok pod) =
      Moves-if gs (not (pod_serves pod)) _ _ (λ _. Moves-transition_state l now gs _ _ _)
        (Moves-if gs (is_allocated gs) _ _ (λ _. Moves-transition_state l now gs _ _ _)
          (Moves-then gs _ _ (Moves-update_ready_status l now gs pod) λ _. Quiet-pure _))
  Moves-ready_with (err e) =
      Moves-if gs (is_not_found e) _ _ (λ _. Moves-transition_state l now gs _ _ _)
        (Moves-of_Quiet gs _ (Quiet-fail _))

  pub Moves-allocated_with : (r : Reply Pod) → Moves l gs (allocated_with p now gs r)
  unfolding allocated_with
  Moves-allocated_with (ok pod) =
      Moves-if gs (not (pod_serves pod)) _ _ (λ _. Moves-transition_state l now gs _ _ _)
        (Moves-if gs (not (is_allocated gs)) _ _ (λ _. Moves-transition_state l now gs _ _ _)
          (Moves-of_Quiet gs _ (Quiet-pure _)))
  Moves-allocated_with (err e) =
      Moves-if gs (is_not_found e) _ _ (λ _. Moves-transition_state l now gs _ _ _)
        (Moves-of_Quiet gs _ (Quiet-fail _))

  pub Moves-reconcile_shutdown : Moves l gs (reconcile_shutdown p now gs)
  unfolding reconcile_shutdown
  Moves-reconcile_shutdown = Moves-bind gs _ _ (Quiet-attempt _ (Quiet-get pods _)) λ r.
      Moves-bind gs _ _ (Quiet-stop_pod r)
        λ _. Moves-then gs _ _ (Moves-refresh l now gs _ _ _ _) λ _. Quiet-pure _
