-- ===== src/Controller/Creation.antt =====
-- What `reconcileCreating` does to the cluster: nothing over a limit, and else a pod.
use kterodactyl.Prelude.{
  ℕ, ◌≡◌, ◌≢◌, refl, sym, ap, subst, ◌∙◌, ◌⊎◌, inl, inr, true, Bool-cases, some, none, [], length,
  exceeds, List, String, ◌==◌, text_at,
}
use kterodactyl.Labels.{label_owner, user_namespace}
use kterodactyl.Lifecycle.{GameServerState, error, is_valid_transition}
use kterodactyl.Kube.Errors.{Piece, Reply, ok, err, is_not_found}
use kterodactyl.Kube.Meta.{Key, key_of}
use kterodactyl.Kube.Objects.{GameServer, Kind, game_servers, config_maps, ConfigMap}
use kterodactyl.Kube.Exec.{attempt, ◌>>=◌}
use kterodactyl.Kube.Exec.Leaves.{
  Leaves, Leaves-pure, Leaves-fail, Leaves-wrapping, Leaves-attempt, Leaves-if, Leaves-bind,
}
use kterodactyl.Kube.Platform.{Platform, Laws}
use kterodactyl.Kube.Platform.Frame.{
  stored_at, Leaves-get, Leaves-list, Leaves-event, Leaves-update_status,
}
use kterodactyl.Controller.Config.{AdminConfig, config_of, load_admin_config}
use kterodactyl.Controller.Namespaces.{operator_ns}
use kterodactyl.Controller.Reconcile.{
  Result, with_state, write_state, transition_state, user_servers, create_for_user,
  reconcile_creating,
}
use kterodactyl.Controller.Status.{transition_state_writes}

module _ {S : Type 0} {p : Platform S} (l : Laws p) (now : ℕ) (gs : GameServer) where
  pub Leaves-transition_state :
      (j : Kind) (q : Key) (new : GameServerState) (reason : String) (message : List Piece)
      → j ≢ game_servers
      → Leaves (stored_at l j q) (transition_state p now gs new reason message)
  unfolding transition_state write_state
  Leaves-transition_state j q new reason message n =
      Leaves-if (is_valid_transition gs.status.state new) _ _
        (Leaves-bind _ _ (Leaves-wrapping _ _ (Leaves-get l j q game_servers _)) λ fresh.
          Leaves-bind _ _ (Leaves-wrapping _ _ (Leaves-update_status l j q _ n))
            λ _. Leaves-bind _ _ (Leaves-event l j q _ _ _ _) λ _. Leaves-pure _)
        (Leaves-fail _)

  -- an error, or the stored server is in Error
  abbrev pub EndsInError : Reply Result × S → Type 0
  EndsInError (err e, s) = Unit
  EndsInError (ok r, s) =
      (new : GameServer) × (l.at game_servers s (key_of gs.meta) ≡ some new)
      × (new.status.state ≡ error)

  -- what a move to Error does from `s`: objects of other kinds stay
  pub record Refuses (s : S) (out : Reply Result × S) : Type 0 where
    pub others : (j : Kind) (q : Key) → j ≢ game_servers → l.at j out.1 q ≡ l.at j s q
    pub failed : EndsInError out

  transition_state-EndsInError :
      (reason : String) (message : List Piece) (s : S) (out : Reply Result × S)
      → transition_state p now gs error reason message s ≡ out
      → EndsInError out
  unfolding with_state
  transition_state-EndsInError reason message s (err e, s') h = tt
  transition_state-EndsInError reason message s (ok r, s') h =
      let (old, valid, before, after, rest) =
        transition_state_writes l now gs error reason message s (ap (λ o. o.0) h) in
      (
        with_state p now error reason message old,
        ap (λ o. l.at game_servers o.1 (key_of gs.meta)) (sym h) ∙ after,
        refl,
      )

  refuses :
      (reason : String) (message : List Piece) (s : S)
      → Refuses s (transition_state p now gs error reason message s)
  refuses reason message s = record {
    others = λ j q n. (Leaves-transition_state j q error reason message n).same_view s;
    failed = transition_state-EndsInError reason message s _ refl;
  }

  -- after steps that changed no stored object
  Refuses-after :
      (s s' : S) (out out' : Reply Result × S)
      → out ≡ out'
      → ((j : Kind) (q : Key) → l.at j s' q ≡ l.at j s q)
      → Refuses s' out'
      → Refuses s out
  Refuses-after s s' out out' e same k =
      subst (Refuses s) (sym e)
        (record { others = λ j q n. k.others j q n ∙ same j q; failed = k.failed })

  Leaves-load_admin_config :
      (j : Kind) (q : Key) (ns : String) → Leaves (stored_at l j q) (load_admin_config p ns)
  unfolding load_admin_config
  Leaves-load_admin_config j q ns =
      Leaves-bind _ _ (Leaves-attempt _ (Leaves-get l j q config_maps _)) config_of-leaves
    where
      config_of-leaves : (r : Reply ConfigMap) → Leaves (stored_at l j q) (config_of p r)
      config_of-leaves (ok cm) = Leaves-pure _
      config_of-leaves (err e) = Leaves-if (is_not_found e) _ _ (Leaves-pure _) (Leaves-fail _)

  -- the state after the configuration was read, and after each of the two lists
  module _ (configured : String) (s : S) where
    abbrev pub after_config : S
    after_config = (load_admin_config p (operator_ns configured) s).1

    abbrev pub after_list : S
    after_list = (p.list game_servers none [] after_config).1

    abbrev pub users_list : Reply (List GameServer) × S
    users_list =
        p.list game_servers (some (user_namespace (text_at label_owner gs.meta.labels))) []
          after_list

  user_over :
      (configured owner : String) (cfg : AdminConfig) (s : S) {items : List GameServer}
      → (p.list game_servers (some (user_namespace owner)) [] s).0 ≡ ok items
      → exceeds (length items) cfg.max_servers_per_user ≡ true
      → Refuses s (
          (attempt (p.list game_servers (some (user_namespace owner)) []) >>= λ r.
          user_servers p r >>= λ user_items.
          create_for_user p now configured gs owner cfg user_items)
            s)
  unfolding create_for_user user_servers ◌>>=◌
  user_over configured owner cfg s {items} listed over =
      rw (listed, over)
        (Refuses-after s (p.list game_servers (some (user_namespace owner)) [] s).1 _ _ refl
          (λ j q. (Leaves-list l j q game_servers _ _).same_view s) (refuses _ _ _))

  over_limit :
      (configured : String) (s : S) {cfg : AdminConfig} {items user_items : List GameServer}
      → (load_admin_config p (operator_ns configured) s).0 ≡ ok cfg
      → (p.list game_servers none [] (after_config configured s)).0 ≡ ok items
      → (users_list configured s).0 ≡ ok user_items
      → (exceeds (length items) cfg.max_servers_global ≡ true)
        ⊎ (exceeds (length user_items) cfg.max_servers_per_user ≡ true)
      → Refuses s (reconcile_creating p now configured gs s)
  unfolding reconcile_creating ◌>>=◌
  over_limit configured s {cfg} {items} loaded listed users over =
      let quiet = λ (j : Kind) (q : Key).
        (Leaves-list l j q game_servers none []).same_view (after_config configured s)
        ∙ (Leaves-load_admin_config j q (operator_ns configured)).same_view s in
      elim (Bool-cases (text_at label_owner gs.meta.labels == "")) [
        | inl h ↦ rw h (refuses _ _ s)
        | inr h ↦
            rw (h, loaded, listed)
              (elim (Bool-cases (exceeds (length items) cfg.max_servers_global)) [
                | inl g ↦
                    rw g (Refuses-after s (after_list configured s) _ _ refl quiet (refuses _ _ _))
                | inr g ↦ rw g (
                    Refuses-after s (after_list configured s) _ _ refl quiet
                      (user_over configured _ cfg _ users (elim over [ inl e ↦ cc | inr e ↦ e ])))
              ])
      ]

  -- When the configuration, the list of all game servers and the list of the user's are read, and one
  -- of the lists is longer than the configuration allows, the reconciliation of a server in Creating
  -- changes no stored object of another kind: no namespace, no claim and no pod. It returns an error,
  -- or leaves the stored server in Error.
  pub over_limit_refused :
      (configured : String) (s : S) {cfg : AdminConfig} {items user_items : List GameServer}
      → (load_admin_config p (operator_ns configured) s).0 ≡ ok cfg
      → (p.list game_servers none [] (after_config configured s)).0 ≡ ok items
      → (users_list configured s).0 ≡ ok user_items
      → (exceeds (length items) cfg.max_servers_global ≡ true)
        ⊎ (exceeds (length user_items) cfg.max_servers_per_user ≡ true)
      → (j : Kind) (q : Key) → j ≢ game_servers
      → (l.at j (reconcile_creating p now configured gs s).1 q ≡ l.at j s q)
        × EndsInError (reconcile_creating p now configured gs s)
  over_limit_refused configured s loaded listed users over j q n =
      let refused = over_limit configured s loaded listed users over in
      (refused.others j q n, refused.failed)
