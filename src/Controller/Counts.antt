-- ===== src/Controller/Counts.antt =====
-- `updateGameServerGauge` counts: what its map holds against a count of the servers.
use kterodactyl.Prelude.{
  ℕ, suc, ◌+◌, String, ◌==◌, ◌&&◌, List, [], ◌∷◌, if◌then◌else◌, ◌≡◌, refl, arith, eq_iff,
}
use kterodactyl.Lifecycle.{GameServerState, same_state}
use kterodactyl.Lifecycle.Graph.{same_state_iff}
use kterodactyl.Kube.Objects.{GameServer}
use kterodactyl.Controller.Reconcile.{Counts, increment, count_servers}

-- what a map of counts holds for a state and a game; a missing entry reads as zero
unfoldable pub count_at : GameServerState → String → Counts → ℕ
count_at state game [] = 0
count_at state game ((s, g, n) ∷ counts) =
    let rest = count_at state game counts in if same_state s state && g == game then n else rest

-- the number of game servers with a state and a game
unfoldable pub number_of : GameServerState → String → List GameServer → ℕ
number_of state game [] = 0
number_of state game (gs ∷ rest) =
    let n = number_of state game rest in
    if same_state gs.status.state state && gs.spec.game_type == game then suc n else n

count_at-increment :
    (state : GameServerState) (game : String) (s : GameServerState) (g : String) (counts : Counts)
    → count_at state game (increment s g counts) ≡ (
        if same_state s state && g == game
        then suc (count_at state game counts)
        else count_at state game counts)
unfolding increment count_at
count_at-increment state game s g [] = refl
count_at-increment state game s g ((t, h, n) ∷ counts) = ground (
  arith,
  count_at-increment state game s g counts,
  same_state_iff t s,
  same_state_iff t state,
  same_state_iff s state,
  eq_iff h g,
  eq_iff h game,
  eq_iff g game,
)

count_at-count_servers_from :
    (state : GameServerState) (game : String) (counts : Counts) (items : List GameServer)
    → count_at state game (count_servers counts items)
      ≡ number_of state game items + count_at state game counts
unfolding count_servers number_of
count_at-count_servers_from state game counts [] = omega arith
count_at-count_servers_from state game counts (gs ∷ rest) = ground (
  arith,
  count_at-count_servers_from state game (increment gs.status.state gs.spec.game_type counts) rest,
  count_at-increment state game gs.status.state gs.spec.game_type counts,
)

-- For each state and game type, the map that the gauges are set from holds the number of the listed
-- game servers with that state and type, and nothing (zero) where there is none.
pub count_at-count_servers :
    (state : GameServerState) (game : String) (items : List GameServer)
    → count_at state game (count_servers [] items) ≡ number_of state game items
unfolding count_at
count_at-count_servers state game items =
    omega (arith, count_at-count_servers_from state game [] items)
