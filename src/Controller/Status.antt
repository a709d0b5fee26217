-- ===== src/Controller/Status.antt =====
-- What a transition leaves in the status: the state and the conditions.
use kterodactyl.Prelude.{
  ◌==◌, eq_iff, if◌then◌else◌, ℕ, String, ◌≡◌, refl, sym, ap, ◌∙◌, true, false, Option, none, some,
  List, arith, Bool-cases, inl, inr, some_inj,
}
use kterodactyl.Lifecycle.{
  GameServerState, creating, starting, ready, allocated, shutdown, error, is_valid_transition,
}
use kterodactyl.Kube.Errors.{Piece, invalid_transition, ok, ok_inj}
use kterodactyl.Kube.Meta.{key_of, Condition, ConditionStatus, is_true, is_false, find_condition}
use kterodactyl.Kube.Objects.{GameServer, game_servers}
use kterodactyl.Kube.Exec.{wrapping, ◌>>=◌}
use kterodactyl.Kube.Exec.Results.{wrapping-bind-eq-ok, modify-pure, guarded-eq-ok}
use kterodactyl.Kube.Platform.{Platform, Laws}
use kterodactyl.Controller.Conditions.{
  type_ready, type_progressing, type_degraded, transition_conditions,
}
use kterodactyl.Controller.Reconcile.{Result, requeue_of, with_state, write_state, transition_state}

-- the status of a condition
abbrev pub status_of : Option Condition → Option ConditionStatus
status_of none = none
status_of (some c) = some c.status

abbrev pub status_in : String → List Condition → Option ConditionStatus
status_in type cs = status_of (find_condition type cs)

-- the status that each condition has after a transition, from the one before
abbrev pub ready_after : GameServerState → Option ConditionStatus → Option ConditionStatus
ready_after creating old = some is_false
ready_after starting old = some is_false
ready_after ready old = some is_true
ready_after allocated old = some is_true
ready_after shutdown old = some is_false
ready_after error old = some is_false
ready_after _ old = old

abbrev pub progressing_after : GameServerState → Option ConditionStatus → Option ConditionStatus
progressing_after creating old = some is_true
progressing_after starting old = some is_true
progressing_after ready old = some is_false
progressing_after shutdown old = some is_false
progressing_after error old = some is_false
progressing_after _ old = old

abbrev pub degraded_after : GameServerState → Option ConditionStatus → Option ConditionStatus
degraded_after error old = some is_true
degraded_after _ old = old

-- the three conditions after a transition
abbrev pub HasConditions : GameServerState → List Condition → List Condition → Type 0
HasConditions new cs cs' =
    (status_in type_ready cs' ≡ ready_after new (status_in type_ready cs))
    × (status_in type_progressing cs' ≡ progressing_after new (status_in type_progressing cs))
    × (status_in type_degraded cs' ≡ degraded_after new (status_in type_degraded cs))

-- A game server in a new state that is otherwise as it was, but for its conditions.
abbrev pub IsMoved : GameServerState → GameServer → GameServer → Type 0
IsMoved new old after =
    (after.status.state ≡ new)
    × (after.meta ≡ old.meta)
    × (after.spec ≡ old.spec)
    × (after.status.address ≡ old.status.address)
    × (after.status.ports ≡ old.status.ports)

-- when a game server comes back: after five seconds, in nanoseconds, or at once
abbrev pub comes_back : GameServerState → Result
comes_back starting = record { requeue = false; requeue_after = 5000000000 }
comes_back _ = record { requeue = true; requeue_after = 0 }

comes_back-requeue_of : (new : GameServerState) → requeue_of new ≡ comes_back new
unfolding requeue_of
comes_back-requeue_of creating = refl
comes_back-requeue_of starting = refl
comes_back-requeue_of _ = refl

module _ {S : Type 0} {p : Platform S} (l : Laws p) (now : ℕ) where
  status_set :
      (t : String) (c : Condition) (cs : List Condition)
      → status_in t (p.set_status_condition now c cs)
        ≡ (if c.type == t then some c.status else status_in t cs)
  status_set t c cs = elim (Bool-cases (c.type == t)) [
    | inl h ↦
        let e : c.type ≡ t = (eq_iff c.type t).0 h in
        let (d, found, same, _, _, _) = l.set_condition_same now c cs in
        rw (h, ← e) (ap status_of found ∙ ap some same)
    | inr h ↦ rw h (
        ap status_of
          (l.set_condition_other now c cs t (λ e. ground (arith, eq_iff c.type t, sym e))))
  ]

  -- A transition leaves the three conditions as the tables above say, for every state that it may
  -- lead to and whatever the conditions were: Ready is true exactly for Ready and Allocated,
  -- Progressing is true for Creating and Starting, kept for Allocated and false for the rest, and
  -- Degraded becomes true for Error and is otherwise kept.
  pub transition_conditions_table :
      (generation : ℕ) (new : GameServerState) (reason : String) (message : List Piece)
      (cs : List Condition)
      → let cs' = transition_conditions p now generation new reason message cs in
        (status_in type_ready cs' ≡ ready_after new (status_in type_ready cs))
        × (status_in type_progressing cs' ≡ progressing_after new (status_in type_progressing cs))
        × (status_in type_degraded cs' ≡ degraded_after new (status_in type_degraded cs))
  unfolding transition_conditions
  transition_conditions_table generation creating reason message cs =
      (simp status_set, simp status_set, simp status_set)
  transition_conditions_table generation starting reason message cs =
      (simp status_set, simp status_set, simp status_set)
  transition_conditions_table generation ready reason message cs =
      (simp status_set, simp status_set, simp status_set)
  transition_conditions_table generation allocated reason message cs =
      (simp status_set, simp status_set, simp status_set)
  transition_conditions_table generation shutdown reason message cs =
      (simp status_set, simp status_set, simp status_set)
  transition_conditions_table generation error reason message cs =
      (simp status_set, simp status_set, simp status_set)
  transition_conditions_table generation _ reason message cs = (refl, refl, refl)

module _ {S : Type 0} {p : Platform S} (l : Laws p) (now : ℕ) (gs : GameServer)
    (new : GameServerState) (reason : String) (message : List Piece) where
  -- the status of the stored object is the new one
  write_state_stores :
      (fresh : GameServer) (s : S) {r : Result}
      → (write_state p now gs new reason message fresh s).0 ≡ ok r
      → (old : GameServer) × (l.at game_servers s (key_of fresh.meta) ≡ some old)
        × (l.at game_servers (write_state p now gs new reason message fresh s).1 (key_of fresh.meta)
            ≡ some (record old { status = (with_state p now new reason message fresh).status }))
        × (r ≡ requeue_of new)
  unfolding write_state with_state
  write_state_stores fresh s h =
      let (o, written, rest) = wrapping-bind-eq-ok _ _ _ s h in
      let (old, before, after) =
        l.update_status_ok (with_state p now new reason message fresh) s written in
      let end = rest ∙ modify-pure _ (requeue_of new) _ in
      (
        old,
        before,
        ap (λ r. l.at game_servers r.1 (key_of fresh.meta)) end
            ∙ l.event_at _ _ _ _ _ game_servers _
            ∙ after,
        ok_inj (sym h ∙ ap (λ r. r.0) end),
      )

  pub transition_state_writes :
      (s : S) {r : Result}
      → (transition_state p now gs new reason message s).0 ≡ ok r
      → (old : GameServer) × (is_valid_transition gs.status.state new ≡ true)
        × (l.at game_servers s (key_of gs.meta) ≡ some old)
        × (l.at game_servers (transition_state p now gs new reason message s).1 (key_of gs.meta)
            ≡ some (with_state p now new reason message old))
        × (r ≡ requeue_of new)
  unfolding transition_state with_state
  transition_state_writes s h =
      let block =
        wrapping "failed to re-fetch GameServer for status update"
          (p.get game_servers (key_of gs.meta))
        >>= λ fresh. write_state p now gs new reason message fresh in
      let (valid, taken) =
        guarded-eq-ok (is_valid_transition gs.status.state new) block
          (invalid_transition gs.status.state new) s h in
      let (fresh, read, rest) =
        wrapping-bind-eq-ok "failed to re-fetch GameServer for status update"
          (p.get game_servers (key_of gs.meta))
          (λ fresh. write_state p now gs new reason message fresh) s
          (sym (ap (λ r. r.0) taken) ∙ h) in
      let end = taken ∙ rest in
      let (stored, same_key) = l.get_ok game_servers (key_of gs.meta) s read in
      let (old, before, after, r) = write_state_stores fresh _ (sym (ap (λ r. r.0) end) ∙ h) in
      let same : old ≡ fresh = some_inj (
        sym before
        ∙ l.get_at game_servers (key_of gs.meta) s game_servers (key_of fresh.meta)
        ∙ ap (λ q. l.at game_servers s q) same_key
        ∙ stored) in
      (
        fresh,
        valid,
        stored,
        ap (λ r. l.at game_servers r.1 (key_of gs.meta)) end
            ∙ ap
                (λ q.
                  l.at game_servers
                    (write_state p now gs new reason message fresh
                      (p.get game_servers (key_of gs.meta) s).1).1
                    q)
                (sym same_key)
            ∙ after
            ∙ ap {A = GameServer} {B = Option GameServer}
                (λ o.
                  some (record o { status = (with_state p now new reason message fresh).status }))
                same,
        r,
      )

  pub moved : (old : GameServer) → IsMoved new old (with_state p now new reason message old)
  unfolding with_state
  moved old = (refl, refl, refl, refl, refl)

  pub conditions :
      (old : GameServer)
      → HasConditions new old.status.conditions
          (with_state p now new reason message old).status.conditions
  unfolding with_state
  conditions old = transition_conditions_table l now _ new reason message old.status.conditions

  -- A transition that succeeds was allowed from the state that was read before. It leaves the
  -- metadata, the specification, the address and the ports of the stored object as they were; the
  -- stored state is the new one and the conditions are as the tables above say; and the object comes
  -- back after five seconds from Starting, and at once from any other state.
  pub transition_state_stores :
      (s : S) {r : Result}
      → (transition_state p now gs new reason message s).0 ≡ ok r
      → (old after : GameServer) × (is_valid_transition gs.status.state new ≡ true)
        × (l.at game_servers s (key_of gs.meta) ≡ some old)
        × (l.at game_servers (transition_state p now gs new reason message s).1 (key_of gs.meta)
            ≡ some after)
        × IsMoved new old after
        × HasConditions new old.status.conditions after.status.conditions
        × (r ≡ comes_back new)
  transition_state_stores s h =
      let (old, valid, before, stored, r) = transition_state_writes s h in
      (
        old,
        with_state p now new reason message old,
        valid,
        before,
        stored,
        moved old,
        conditions old,
        r ∙ comes_back-requeue_of new,
      )
