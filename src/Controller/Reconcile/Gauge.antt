-- ===== src/Controller/Reconcile/Gauge.antt =====
-- `updateGameServerGauge`: how many game servers there are of each state and game. An error is only
-- logged.
use kterodactyl.Prelude.{ℕ, suc, String, ◌==◌, ◌&&◌, none, List, [], ◌∷◌, if◌then◌else◌}
use kterodactyl.Lifecycle.{GameServerState, same_state}
use kterodactyl.Kube.Errors.{Reply, ok, err}
use kterodactyl.Kube.Objects.{GameServer, game_servers}
use kterodactyl.Kube.Exec.{Exec, pure, attempt, modify, ◌>>=◌, ◌>>◌}
use kterodactyl.Kube.Platform.{Platform}
use kterodactyl.Controller.Reconcile.Transition.{Result}

-- `counts[state][gameType]`
abbrev pub Counts : Type 0
Counts = List (GameServerState × String × ℕ)

unfoldable pub increment : GameServerState → String → Counts → Counts
increment state game [] = (state, game, 1) ∷ []
increment state game ((s, g, n) ∷ counts) =
    let rest = increment state game counts in
    if same_state s state && g == game then (s, g, suc n) ∷ counts else (s, g, n) ∷ rest

unfoldable pub count_servers : Counts → List GameServer → Counts
unfolding increment
count_servers counts [] = counts
count_servers counts (gs ∷ rest) =
    count_servers (increment gs.status.state gs.spec.game_type counts) rest

module _ {S : Type 0} (p : Platform S) where
  unfoldable pub set_gauges : Counts → S → S
  set_gauges [] s = s
  set_gauges ((state, game, n) ∷ counts) s = set_gauges counts (p.gauge_set state game n s)

  unfoldable pub gauge_of : Reply (List GameServer) → Exec S (Unit {0})
  unfolding count_servers set_gauges
  gauge_of (ok items) = do modify p.gauge_reset; modify (set_gauges (count_servers [] items))
  gauge_of (err e) = pure tt

  unfoldable pub update_game_server_gauge : Exec S (Unit {0})
  unfolding gauge_of
  update_game_server_gauge = do r ← attempt (p.list game_servers none []); gauge_of r

  -- the result of a state's handler, after the gauge is updated
  unfoldable pub then_gauge : Exec S Result → Exec S Result
  unfolding update_game_server_gauge
  then_gauge handler s =
      let (r, s') = handler s in let (_, s'') = update_game_server_gauge s' in (r, s'')
