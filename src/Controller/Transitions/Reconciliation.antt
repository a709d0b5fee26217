-- ===== src/Controller/Transitions/Reconciliation.antt =====
-- Every reconciliation moves game servers along the table of transitions only.
use kterodactyl.Prelude.{ℕ, String, ◌∷◌, ◌≡◌, refl, ap, ◌∙◌, subst, none, List, [], if◌then◌else◌}
use kterodactyl.Lifecycle.{
  GameServerState, creating, starting, ready, allocated, shutdown, error, same_state,
}
use kterodactyl.Kube.Errors.{Reply, ok, err, is_not_found, wrap}
use kterodactyl.Kube.Meta.{Key, key_of}
use kterodactyl.Kube.Objects.{GameServer, game_servers, pods}
use kterodactyl.Kube.Exec.{Exec, pure, fail, modify, ◌>>=◌}
use kterodactyl.Kube.Platform.{Platform, Laws}
use kterodactyl.Controller.Reconcile.{
  Result, done, reconcile_starting, reconcile_ready, reconcile_allocated, reconcile_error, Counts,
  set_gauges, gauge_of, update_game_server_gauge, then_gauge, dispatch, reconcile_server, after_get,
  reconcile, count_servers,
}
use kterodactyl.Controller.Moves.{
  state_of, Allowed, same, state_at, Quiet, Moves, Quiet-pure, Quiet-fail, Quiet-attempt, Quiet-if,
  Moves-of_Quiet, Moves-if, Quiet-bind, Moves-bind, Moves-then, Quiet-get, Quiet-list,
}
use kterodactyl.Controller.Transitions.{Moves-refresh, Moves-initialize_state}
use kterodactyl.Controller.Transitions.Handlers.{
  Moves-add_finalizer, Moves-handle_deletion, Moves-reconcile_creating, Moves-starting_with,
  Moves-ready_with, Moves-allocated_with, Moves-reconcile_shutdown,
}

module _ {S : Type 0} {p : Platform S} {l : Laws p} where
  Quiet-set_gauges : (counts : Counts) → Quiet l (modify (set_gauges p counts))
  unfolding set_gauges modify
  Quiet-set_gauges [] = record { at_key = λ s q. refl }
  Quiet-set_gauges ((state, game, n) ∷ counts) = record {
    at_key = λ s q.
        (Quiet-set_gauges counts).at_key (p.gauge_set state game n s) q
        ∙ ap state_of (l.gauge_set_at state game n s game_servers q);
  }

  Quiet-gauge_reset : Quiet l (modify p.gauge_reset)
  unfolding modify
  Quiet-gauge_reset = record { at_key = λ s q. ap state_of (l.gauge_reset_at s game_servers q) }

  Quiet-gauge_of : (r : Reply (List GameServer)) → Quiet l (gauge_of p r)
  unfolding gauge_of
  Quiet-gauge_of (ok items) =
      Quiet-bind _ _ Quiet-gauge_reset λ _. Quiet-set_gauges (count_servers [] items)
  Quiet-gauge_of (err e) = Quiet-pure _

  Quiet-update_game_server_gauge : Quiet l (update_game_server_gauge p)
  unfolding update_game_server_gauge
  Quiet-update_game_server_gauge =
      Quiet-bind _ _ (Quiet-attempt _ (Quiet-list game_servers none [])) Quiet-gauge_of

  Moves-then_gauge :
      (gs : GameServer) (m : Exec S Result) → Moves l gs m → Moves l gs (then_gauge p m)
  unfolding then_gauge
  Moves-then_gauge gs m k = record {
    at_key =
        λ s q stored. rw (Quiet-update_game_server_gauge.at_key (m s).1 q) (k.at_key s q stored);
  }

module _ {S : Type 0} {p : Platform S} (l : Laws p) (now : ℕ) (gs : GameServer) where
  Moves-dispatch :
      (configured : String) (state : GameServerState)
      → Moves l gs (dispatch p configured now state gs)
  unfolding dispatch reconcile_starting reconcile_ready reconcile_allocated reconcile_error
  Moves-dispatch configured creating =
      Moves-then_gauge gs _ (Moves-reconcile_creating l now gs configured)
  Moves-dispatch configured starting =
      Moves-then_gauge gs _
        (Moves-bind gs _ _ (Quiet-attempt _ (Quiet-get pods _)) (Moves-starting_with l now gs))
  Moves-dispatch configured ready =
      Moves-then_gauge gs _
        (Moves-bind gs _ _ (Quiet-attempt _ (Quiet-get pods _)) (Moves-ready_with l now gs))
  Moves-dispatch configured allocated =
      Moves-then_gauge gs _
        (Moves-bind gs _ _ (Quiet-attempt _ (Quiet-get pods _)) (Moves-allocated_with l now gs))
  Moves-dispatch configured shutdown = Moves-then_gauge gs _ (Moves-reconcile_shutdown l now gs)
  Moves-dispatch configured error =
      Moves-then_gauge gs _ (Moves-then gs _ _ (Moves-refresh l now gs _ _ _ _) λ _. Quiet-pure _)
  Moves-dispatch configured _ = Moves-of_Quiet gs _ (Quiet-pure _)

  Moves-reconcile_server : (configured : String) → Moves l gs (reconcile_server p configured now gs)
  unfolding reconcile_server
  Moves-reconcile_server configured =
      Moves-if gs gs.meta.deleting _ _ (λ _. Moves-handle_deletion l now gs)
        (Moves-if gs (p.contains_finalizer gs.meta _) _ _
          (λ _.
            Moves-if gs (same_state gs.status.state GameServerState.unset) _ _
              (Moves-initialize_state l now gs) (Moves-dispatch configured gs.status.state))
          (Moves-add_finalizer l now gs))

module _ {S : Type 0} {p : Platform S} (l : Laws p) (now : ℕ) where
  Quiet-Allowed :
      (m : Exec S Result) (key q : Key) (s : S)
      → Quiet l m
      → Allowed (state_at l s q) (state_at l (m (p.get game_servers key s).1).1 q)
  Quiet-Allowed m key q s k =
      same
        (k.at_key (p.get game_servers key s).1 q ∙ (Quiet-get {l = l} game_servers key).at_key s q)

  after_get-Allowed :
      (configured : String) (key q : Key) (s : S) (r : Reply GameServer)
      → (p.get game_servers key s).0 ≡ r
      → Allowed
          (state_at l s q)
          (state_at l (after_get p configured now r (p.get game_servers key s).1).1 q)
  unfolding after_get
  after_get-Allowed configured key q s (ok gs) e =
      let found = l.get_ok game_servers key s e in
      let s' = (p.get game_servers key s).1 in
      let quiet = (Quiet-get {l = l} game_servers key).at_key s in
      subst (λ b. Allowed b (state_at l (reconcile_server p configured now gs s').1 q)) (quiet q)
        ((Moves-reconcile_server l now gs configured).at_key s' q
          (quiet (key_of gs.meta) ∙ ap (state_at l s) found.1 ∙ ap state_of found.0))
  after_get-Allowed configured key q s (err e) h =
      Quiet-Allowed (if is_not_found e then pure done else fail (wrap "failed to get GameServer" e))
        key q s (Quiet-if (is_not_found e) _ _ (Quiet-pure _) (Quiet-fail _))

  -- Whatever game server a reconciliation is called for, and whatever the API answers, the state
  -- that is stored under each key afterwards is the one before, or one that the table of
  -- transitions allows after it, or Creating where there was none; or the object is gone. No state
  -- appears where no object was.
  pub reconcile_follows_table :
      (configured : String) (key : Key) (s : S) (q : Key)
      → Allowed (state_at l s q) (state_at l (reconcile p configured now key s).1 q)
  unfolding reconcile ◌>>=◌
  reconcile_follows_table configured key s q = after_get-Allowed configured key q s _ refl
