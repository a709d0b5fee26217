-- ===== src/Controller/Reconcile.antt =====
-- `GameServerReconciler.Reconcile` of internal/controller/gameserver_controller.go, with a handler
-- for each state. Times are in nanoseconds. `now` is the time of the call; a handler takes no time.
-- The logger is left out.
mod Transition
mod Handlers
mod Creating
mod Running
mod Gauge
unfoldable pub use Transition.*
unfoldable pub use Handlers.*
unfoldable pub use Creating.*
unfoldable pub use Running.*
unfoldable pub use Gauge.*
use kterodactyl.Prelude.{ℕ, String, ◌≡◌, Bool, true, false, if◌then◌else◌}
use kterodactyl.Lifecycle.{
  GameServerState, creating, starting, ready, allocated, shutdown, error, same_state,
}
use kterodactyl.Kube.Errors.{Piece, str, Reply, ok, err, wrap, is_not_found}
use kterodactyl.Kube.Meta.{Key}
use kterodactyl.Kube.Objects.{GameServer, game_servers}
use kterodactyl.Kube.Exec.{Exec, pure, fail, wrapping, attempt, modify, ◌>>=◌, ◌>>◌}
use kterodactyl.Kube.Platform.{Platform}

module _ {S : Type 0} (p : Platform S) (operator_namespace : String) (now : ℕ) where
  -- the `switch` of `Reconcile`; the last clause is its default, which skips the gauge
  unfoldable pub dispatch : GameServerState → GameServer → Exec S Result
  unfolding reconcile_creating reconcile_starting reconcile_ready reconcile_allocated
      reconcile_shutdown reconcile_error update_game_server_gauge
  dispatch creating gs = then_gauge p (reconcile_creating p now operator_namespace gs)
  dispatch starting gs = then_gauge p (reconcile_starting p now gs)
  dispatch ready gs = then_gauge p (reconcile_ready p now gs)
  dispatch allocated gs = then_gauge p (reconcile_allocated p now gs)
  dispatch shutdown gs = then_gauge p (reconcile_shutdown p now gs)
  dispatch error gs = then_gauge p (reconcile_error p now gs)
  dispatch _ gs = pure done

  -- steps 2 to 5, once the object is read
  unfoldable pub reconcile_server : GameServer → Exec S Result
  unfolding handle_deletion add_finalizer initialize_state same_state dispatch
  reconcile_server gs =
      if gs.meta.deleting
      then handle_deletion p gs
      else if p.contains_finalizer gs.meta finalizer_name
      then if same_state gs.status.state GameServerState.unset
        then initialize_state p now gs
        else dispatch gs.status.state gs
      else add_finalizer p gs

  unfoldable pub after_get : Reply GameServer → Exec S Result
  unfolding reconcile_server
  after_get (ok gs) = reconcile_server gs
  after_get (err e) = if is_not_found e then pure done else fail (wrap "failed to get GameServer" e)

  unfoldable pub reconcile : Key → Exec S Result
  unfolding after_get
  reconcile key = do r ← attempt (p.get game_servers key); after_get r
