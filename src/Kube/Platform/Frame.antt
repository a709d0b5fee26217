-- ===== src/Kube/Platform/Frame.antt =====
-- The calls that leave the stored objects of a kind as they are.
use kterodactyl.Prelude.{ℕ, String, Option, List, ◌≡◌, ◌≢◌, ◌⊎◌, inl, inr, refl, Dict}
use kterodactyl.Kube.Errors.{Piece, Reply}
use kterodactyl.Kube.Meta.{Key, Meta, key_of}
use kterodactyl.Kube.Objects.{GameServer, Kind, game_servers, Object}
use kterodactyl.Kube.Exec.{modify}
use kterodactyl.Kube.Exec.Leaves.{Leaves}
use kterodactyl.Kube.Platform.{Platform, Laws}

module _ {S : Type 0} {p : Platform S} (l : Laws p) (j : Kind) (q : Key) where
  abbrev pub stored_at : S → Option (Object j)
  stored_at s = l.at j s q

module _ {S : Type 0} {p : Platform S} (l : Laws p) (j : Kind) (q : Key) where
  pub Leaves-get : (k : Kind) (key : Key) → Leaves (stored_at l j q) (p.get k key)
  Leaves-get k key = record { same_view = λ s. l.get_at k key s j q }

  pub Leaves-list :
      (k : Kind) (ns : Option String) (ls : Dict String) → Leaves (stored_at l j q) (p.list k ns ls)
  Leaves-list k ns ls = record { same_view = λ s. l.list_at k ns ls s j q }

  pub Leaves-event :
      (m : Meta) (type reason : String) (message : List Piece)
      → Leaves (stored_at l j q) (modify (p.event m type reason message))
  unfolding modify
  Leaves-event m type reason message = record {
    same_view = λ s. l.event_at m type reason message s j q;
  }

  pub Leaves-update_status :
      (o : GameServer)
      → j ≢ game_servers
      → Leaves (stored_at l j q) (p.update_status game_servers o)
  Leaves-update_status o n = record { same_view = λ s. l.update_status_frame o s j q n }

  pub Leaves-create_or_update :
      (k : Kind) (o : Object k) (f : Object k → Reply (Object k))
      → j ≢ k
      → Leaves (stored_at l j q) (p.create_or_update k o f)
  Leaves-create_or_update k o f n = record {
    same_view = λ s. l.create_or_update_frame k o f s j q n;
  }

  -- what a write of the game server `o` may not touch: another kind, or another key
  abbrev pub Elsewhere : Meta → Type 0
  Elsewhere m = (j ≢ game_servers) ⊎ (q ≢ key_of m)

module _ {S : Type 0} {p : Platform S} (l : Laws p) where
  update_status-Elsewhere :
      (j : Kind) (q : Key) (o : GameServer) (s : S)
      → Elsewhere l j q o.meta
      → l.at j (p.update_status game_servers o s).1 q ≡ l.at j s q
  update_status-Elsewhere game_servers q o s (inl n) = absurd (n refl)
  update_status-Elsewhere game_servers q o s (inr n) = elim (l.update_status_at o s q) [
    | inl same ↦ same
    | inr (here, written) ↦ absurd (n here)
  ]
  update_status-Elsewhere j q o s c = l.update_status_frame o s j q (λ e. cc)

  create-Elsewhere :
      (j : Kind) (q : Key) (o : GameServer) (s : S)
      → Elsewhere l j q o.meta
      → l.at j (p.create game_servers o s).1 q ≡ l.at j s q
  create-Elsewhere game_servers q o s (inl n) = absurd (n refl)
  create-Elsewhere game_servers q o s (inr n) = l.create_other game_servers o s q n
  create-Elsewhere j q o s c = l.create_frame game_servers o s j q (λ e. cc)

  delete-Elsewhere :
      (j : Kind) (q : Key) (o : GameServer) (grace : Option ℕ) (s : S)
      → Elsewhere l j q o.meta
      → l.at j (p.delete game_servers o grace s).1 q ≡ l.at j s q
  delete-Elsewhere game_servers q o grace s (inl n) = absurd (n refl)
  delete-Elsewhere game_servers q o grace s (inr n) = l.delete_other game_servers o grace s q n
  delete-Elsewhere j q o grace s c = l.delete_frame game_servers o grace s j q (λ e. cc)

module _ {S : Type 0} {p : Platform S} (l : Laws p) (j : Kind) (q : Key) (o : GameServer)
    (c : Elsewhere l j q o.meta) where
  pub Leaves-update_status_of : Leaves (stored_at l j q) (p.update_status game_servers o)
  Leaves-update_status_of = record { same_view = λ s. update_status-Elsewhere l j q o s c }

  pub Leaves-update_of : Leaves (stored_at l j q) (p.update game_servers o)
  Leaves-update_of = record { same_view = λ s. l.update_frame o s j q c }

  pub Leaves-create_of : Leaves (stored_at l j q) (p.create game_servers o)
  Leaves-create_of = record { same_view = λ s. create-Elsewhere l j q o s c }

  pub Leaves-delete_of :
      (grace : Option ℕ) → Leaves (stored_at l j q) (p.delete game_servers o grace)
  Leaves-delete_of grace = record { same_view = λ s. delete-Elsewhere l j q o grace s c }
