-- ===== src/Controller/Reconcile/Creating.antt =====
-- `reconcileCreating`: the owner, the limits, the namespace, the claim and the pod.
use kterodactyl.Prelude.{
  ℕ, pos, exceeds, length, String, ◌==◌, none, some, List, [], ◌∷◌, text_at, if◌then◌else◌,
}
use kterodactyl.Labels.{label_owner, annotation_mod_path, user_namespace}
use kterodactyl.Lifecycle.{starting, error}
use kterodactyl.Kube.Errors.{str, int, of_err, Reply, ok, err, wrap, is_not_found}
use kterodactyl.Kube.Objects.{GameServer, game_servers}
use kterodactyl.Kube.Exec.{Exec, pure, fail, wrapping, attempt, ◌>>=◌, ◌>>◌}
use kterodactyl.Kube.Platform.{Platform}
use kterodactyl.Controller.Config.{AdminConfig, load_admin_config}
use kterodactyl.Controller.Namespaces.{operator_ns, ensure_user_namespace}
use kterodactyl.Controller.Pods.{reconcile_pod, reconcile_mod_pvc}
use kterodactyl.Controller.Reconcile.Transition.{Result, transition_state}

module _ {S : Type 0} (p : Platform S) where
  -- An error of the list is passed on, unless the namespace is missing: then there are no servers.
  unfoldable pub user_servers : Reply (List GameServer) → Exec S (List GameServer)
  user_servers (ok items) = pure items
  user_servers (err e) =
      if is_not_found e
      then pure []
      else fail (wrap "failed to list GameServers for per-user count check" e)

module _ {S : Type 0} (p : Platform S) (now : ℕ) where
  -- the rest of `reconcileCreating`, once the namespace was set up or was not
  unfoldable pub create_objects : GameServer → AdminConfig → Reply (Unit {0}) → Exec S Result
  unfolding text_at reconcile_mod_pvc reconcile_pod transition_state
  create_objects gs cfg (err e) =
      transition_state p now gs error "NamespaceSetupFailed"
        (str "Failed to set up user namespace: " ∷ of_err e ∷ [])
  create_objects gs cfg (ok u) = do
    if text_at annotation_mod_path gs.meta.annotations == ""
        then pure tt
        else wrapping "failed to reconcile mod PVC" (reconcile_mod_pvc p gs cfg)
    wrapping "failed to reconcile Pod" (reconcile_pod p gs)
    transition_state p now gs starting "PodCreated"
        (str "Pod created, waiting for it to become ready" ∷ [])

  -- the rest of `reconcileCreating`, from the count of the user's servers
  unfoldable pub create_for_user :
      String → GameServer → String → AdminConfig → List GameServer → Exec S Result
  unfolding transition_state ensure_user_namespace create_objects
  create_for_user configured gs owner cfg user_items =
      if exceeds (length user_items) cfg.max_servers_per_user
      then transition_state p now gs error "UserLimitExceeded" (
          str "Per-user server limit of "
          ∷ int cfg.max_servers_per_user
          ∷ str " exceeded for user "
          ∷ str owner
          ∷ str " (current: "
          ∷ int (pos (length user_items))
          ∷ str ")"
          ∷ [])
      else do r ← attempt (ensure_user_namespace p configured owner cfg); create_objects gs cfg r

  unfoldable pub reconcile_creating : String → GameServer → Exec S Result
  unfolding text_at transition_state operator_ns load_admin_config user_namespace user_servers
      create_for_user
  reconcile_creating configured gs =
      let owner = text_at label_owner gs.meta.labels in
      if owner == ""
      then transition_state p now gs error "MissingOwnerLabel"
          (str "GameServer is missing required owner label" ∷ [])
      else do
        cfg ← wrapping "failed to load admin config" (load_admin_config p (operator_ns configured))
        items ←
            wrapping "failed to list GameServers for global count check"
              (p.list game_servers none [])
        if exceeds (length items) cfg.max_servers_global
            then transition_state p now gs error "GlobalLimitExceeded" (
                str "Global server limit of "
                ∷ int cfg.max_servers_global
                ∷ str " exceeded (current: "
                ∷ int (pos (length items))
                ∷ str ")"
                ∷ [])
            else do
              r ← attempt (p.list game_servers (some (user_namespace owner)) [])
              user_items ← user_servers p r
              create_for_user configured gs owner cfg user_items
