-- ===== src/Controller/Moves.antt =====
-- Which states of game servers an action may change. An action is quiet if it changes none; one that
-- moves may make an allowed transition, or the first step to Creating, or drop a finalized object.
use kterodactyl.Prelude.{
  ℕ, String, ◌≡◌, ◌≢◌, refl, sym, ap, ◌∙◌, subst, ◌⊎◌, inl, inr, Bool, true, false, Option, none,
  some, List, if◌then◌else◌,
}
use kterodactyl.Lifecycle.{GameServerState, creating, is_valid_transition}
use kterodactyl.Kube.Errors.{Err, Piece, Reply, ok, err}
use kterodactyl.Kube.Meta.{Key, Meta, key_of}
use kterodactyl.Kube.Objects.{GameServerStatus, GameServer, Kind, game_servers, Object}
use kterodactyl.Kube.Exec.{Exec, pure, fail, wrapping, attempt, modify, continue, ◌>>=◌}
use kterodactyl.Kube.Platform.{Platform, Laws}

abbrev pub state_of : Option GameServer → Option GameServerState
state_of none = none
state_of (some gs) = some gs.status.state

abbrev pub IsStep : GameServerState → GameServerState → Type 0
IsStep from to =
    (is_valid_transition from to ≡ true) ⊎ ((from ≡ GameServerState.unset) × (to ≡ creating))

-- what may happen to the state that is stored under one key
pub data Allowed (before after : Option GameServerState) : Type 0 where
  same : after ≡ before → Allowed before after
  gone : after ≡ none → Allowed before after
  step :
      (from to : GameServerState)
      → before ≡ some from
      → after ≡ some to
      → IsStep from to
      → Allowed before after

module _ {S : Type 0} {p : Platform S} (l : Laws p) where
  abbrev pub state_at : S → Key → Option GameServerState
  state_at s q = state_of (l.at game_servers s q)

  pub record Quiet {A : Type 0} (m : Exec S A) : Type 0 where
    pub at_key : (s : S) (q : Key) → state_at (m s).1 q ≡ state_at s q

  -- `gs` is what is stored, as far as its state goes
  abbrev pub Stored : GameServer → S → Type 0
  Stored gs s = state_at s (key_of gs.meta) ≡ some gs.status.state

  pub record Moves {A : Type 0} (gs : GameServer) (m : Exec S A) : Type 0 where
    pub at_key : (s : S) (q : Key) → Stored gs s → Allowed (state_at s q) (state_at (m s).1 q)

module _ {S : Type 0} {p : Platform S} {l : Laws p} {A : Type 0} where
  pub Quiet-pure : (a : A) → Quiet l (pure a)
  unfolding pure
  Quiet-pure a = record { at_key = λ s q. refl }

  pub Quiet-fail : (e : Err) → Quiet l (fail {A = A} e)
  unfolding fail
  Quiet-fail e = record { at_key = λ s q. refl }

  pub Quiet-wrapping : (context : String) (m : Exec S A) → Quiet l m → Quiet l (wrapping context m)
  unfolding wrapping
  Quiet-wrapping context m k = record { at_key = k.at_key }

  pub Quiet-attempt : (m : Exec S A) → Quiet l m → Quiet l (attempt m)
  unfolding attempt
  Quiet-attempt m k = record { at_key = k.at_key }

  pub Quiet-if : (b : Bool) (m n : Exec S A) → Quiet l m → Quiet l n → Quiet l (if b then m else n)
  Quiet-if true m n k h = k
  Quiet-if false m n k h = h

  pub Moves-of_Quiet : (gs : GameServer) (m : Exec S A) → Quiet l m → Moves l gs m
  Moves-of_Quiet gs m k = record { at_key = λ s q h. same (k.at_key s q) }

  pub Moves-if :
      (gs : GameServer) (b : Bool) (m n : Exec S A)
      → (b ≡ true → Moves l gs m)
      → Moves l gs n
      → Moves l gs (if b then m else n)
  Moves-if gs true m n k h = k refl
  Moves-if gs false m n k h = h

  pub Moves-wrapping :
      (gs : GameServer) (context : String) (m : Exec S A)
      → Moves l gs m
      → Moves l gs (wrapping context m)
  unfolding wrapping
  Moves-wrapping gs context m k = record { at_key = k.at_key }

module _ {S : Type 0} {p : Platform S} {l : Laws p} {A B : Type 0} where
  Quiet-continue :
      (r : Reply A) (f : A → Exec S B) → ((a : A) → Quiet l (f a)) → Quiet l (continue r f)
  Quiet-continue (ok a) f k = k a
  Quiet-continue (err e) f k = record { at_key = λ s q. refl }

  pub Quiet-bind :
      (m : Exec S A) (f : A → Exec S B) → Quiet l m → ((a : A) → Quiet l (f a)) → Quiet l (m >>= f)
  unfolding ◌>>=◌
  Quiet-bind m f k h = record {
    at_key = λ s q. (Quiet-continue (m s).0 f h).at_key (m s).1 q ∙ k.at_key s q;
  }

  Moves-continue :
      (gs : GameServer) (r : Reply A) (f : A → Exec S B)
      → ((a : A) → r ≡ ok a → Moves l gs (f a))
      → Moves l gs (continue r f)
  Moves-continue gs (ok a) f k = k a refl
  Moves-continue gs (err e) f k = record { at_key = λ s q h. same refl }

  -- The rest of the block may use what `m` returned.
  pub Moves-bind_of :
      (gs : GameServer) (m : Exec S A) (f : A → Exec S B)
      → Quiet l m
      → ((s : S) (a : A) → Stored l gs s → (m s).0 ≡ ok a → Moves l gs (f a))
      → Moves l gs (m >>= f)
  unfolding ◌>>=◌
  Moves-bind_of gs m f k h = record {
    at_key = λ s q stored.
        subst (λ b. Allowed b (state_at l ((m >>= f) s).1 q)) (k.at_key s q)
          ((Moves-continue gs (m s).0 f (λ a. h s a stored)).at_key (m s).1 q
            (k.at_key s (key_of gs.meta) ∙ stored));
  }

  pub Moves-bind :
      (gs : GameServer) (m : Exec S A) (f : A → Exec S B)
      → Quiet l m
      → ((a : A) → Moves l gs (f a))
      → Moves l gs (m >>= f)
  Moves-bind gs m f k h = Moves-bind_of gs m f k (λ s a _ _. h a)

  -- A step that moves, and then quiet ones.
  pub Moves-then :
      (gs : GameServer) (m : Exec S A) (f : A → Exec S B)
      → Moves l gs m
      → ((a : A) → Quiet l (f a))
      → Moves l gs (m >>= f)
  unfolding ◌>>=◌
  Moves-then gs m f k h = record {
    at_key = λ s q stored. rw ((Quiet-continue (m s).0 f h).at_key (m s).1 q) (k.at_key s q stored);
  }

stored_step :
    (gs o : GameServer) (before after : Option GameServerState)
    → before ≡ some gs.status.state
    → after ≡ some o.status.state
    → (o.status.state ≡ gs.status.state) ⊎ IsStep gs.status.state o.status.state
    → Allowed before after
stored_step gs o before after hb ha (inl e) = same (ha ∙ ap some e ∙ sym hb)
stored_step gs o before after hb ha (inr h) = step gs.status.state o.status.state hb ha h

-- The calls of the platform.
module _ {S : Type 0} {p : Platform S} {l : Laws p} where
  pub Quiet-get : (k : Kind) (key : Key) → Quiet l (p.get k key)
  Quiet-get k key = record { at_key = λ s q. ap state_of (l.get_at k key s game_servers q) }

  pub Quiet-list :
      (k : Kind) (ns : Option String) (ls : List (String × String)) → Quiet l (p.list k ns ls)
  Quiet-list k ns ls = record { at_key = λ s q. ap state_of (l.list_at k ns ls s game_servers q) }

  pub Quiet-event :
      (m : Meta) (type reason : String) (message : List Piece)
      → Quiet l (modify (p.event m type reason message))
  unfolding modify
  Quiet-event m type reason message = record {
    at_key = λ s q. ap state_of (l.event_at m type reason message s game_servers q);
  }

  pub Quiet-delete :
      (k : Kind) (o : Object k) (grace : Option ℕ) → game_servers ≢ k → Quiet l (p.delete k o grace)
  Quiet-delete k o grace n = record {
    at_key = λ s q. ap state_of (l.delete_frame k o grace s game_servers q n);
  }

  pub Quiet-create_or_update :
      (k : Kind) (o : Object k) (f : Object k → Reply (Object k))
      → game_servers ≢ k
      → Quiet l (p.create_or_update k o f)
  Quiet-create_or_update k o f n = record {
    at_key = λ s q. ap state_of (l.create_or_update_frame k o f s game_servers q n);
  }

  -- A status update of the same object that leaves the state, or makes an allowed step.
  pub Moves-update_status :
      (gs o : GameServer)
      → key_of o.meta ≡ key_of gs.meta
      → (o.status.state ≡ gs.status.state) ⊎ IsStep gs.status.state o.status.state
      → Moves l gs (p.update_status game_servers o)
  Moves-update_status gs o e c = record {
    at_key = λ s q stored. elim (l.update_status_at o s q) [
      | inl h ↦ same (ap state_of h)
      | inr (at_q, (old, before, after)) ↦
          stored_step gs o _ _ (ap (state_at l s) (at_q ∙ e) ∙ stored) (ap state_of after) c
    ];
  }

  pub Moves-update : (gs o : GameServer) → Moves l gs (p.update game_servers o)
  Moves-update gs o = record {
    at_key = λ s q stored. elim (l.update_at o s q) [
      | inl h ↦ same (ap state_of h)
      | inr (inl h) ↦ gone (ap state_of h)
      | inr (inr (old, new, before, after, e)) ↦ same (
          ap state_of after
          ∙ ap (λ (t : GameServerStatus). some t.state) e
          ∙ sym (ap state_of before))
    ];
  }
