-- ===== src/Api/Isolation.antt =====
-- A request reaches the game servers of its own namespace only.
pub mod Backups
pub mod Pods
pub mod Restores
pub mod Mods
use kterodactyl.Prelude.{ℕ, String, ◌≢◌, ◌⊎◌, List}
use kterodactyl.Kube.Errors.{Piece, Reply, ok, err}
use kterodactyl.Kube.Meta.{Key, Meta}
use kterodactyl.Kube.Objects.{Kind, game_servers}
use kterodactyl.Kube.Exec.{Exec}
use kterodactyl.Kube.Exec.Leaves.{Leaves, Leaves-pure}
use kterodactyl.Kube.Platform.{Platform, Laws}
use kterodactyl.Kube.Platform.Frame.{stored_at}
use kterodactyl.Api.Responses.{Body, respond_error, respond_pieces, respond_json}
use kterodactyl.Api.Servers.{Handler, with_valid}

module _ {S : Type 0} {p : Platform S} (l : Laws p) (ns : String) (j : Kind) (q : Key)
    (away : (j ≢ game_servers) ⊎ (q.namespace ≢ ns)) where
  abbrev Safe : {A : Type 0} → Exec S A → Type 0
  Safe m = Leaves (stored_at l j q) m

  Safe-respond_json : (status : ℕ) (body : Body) → Safe (respond_json status body)
  unfolding respond_json
  Safe-respond_json status body = Leaves-pure _

  Safe-respond_pieces : (status : ℕ) (message : List Piece) → Safe (respond_pieces status message)
  unfolding respond_pieces
  Safe-respond_pieces status message = Safe-respond_json _ _

  Safe-respond_error : (status : ℕ) (message : String) → Safe (respond_error status message)
  unfolding respond_error
  Safe-respond_error status message = Safe-respond_pieces _ _

  Safe-with_valid :
      {A : Type 0} (r : Reply A) (next : A → Handler p)
      → ((a : A) → Safe (next a))
      → Safe (with_valid p r next)
  unfolding with_valid
  Safe-with_valid (ok a) next h = h a
  Safe-with_valid (err e) next h = Safe-respond_pieces _ _
