-- ===== src/Api/Outcomes.antt =====
-- What the answer 200 of start, stop and restart means for the stored game server.
use kterodactyl.Prelude.{
  String, ◌==◌, ◌≡◌, ◌⊎◌, inl, inr, refl, sym, ap, ◌∙◌, subst, Option, none, some, some_inj,
  Bool-cases, arith,
}
use kterodactyl.Lifecycle.{
  GameServerState, creating, starting, ready, allocated, shutdown, error, is_valid_transition,
}
use kterodactyl.Lifecycle.Graph.{IsKnown, ◌⟶◌}
use kterodactyl.Kube.Errors.{Reply, ok, err, is_not_found}
use kterodactyl.Kube.Meta.{Key}
use kterodactyl.Kube.Objects.{GameServer, game_servers}
use kterodactyl.Kube.Exec.{pure, ◌>>=◌}
use kterodactyl.Kube.Platform.{Platform, Laws}
use kterodactyl.Api.Responses.{Response, status_ok, respond_json, respond_error}
use kterodactyl.Api.Servers.{
  Handler, with_found, with_server, answer_written, write_game_server_state, start_from,
  start_server, stop_from, stop_server, handle_start_game_server, handle_stop_game_server,
  handle_restart_game_server,
}

pub data Operation : Type 0 where
  to_start to_stop to_restart : Operation

-- the state that an operation asks for, if it may
unfoldable pub target : Operation → GameServerState → Option GameServerState
target to_start creating = none
target to_start starting = none
target to_start ready = none
target to_start allocated = none
target to_start _ = some creating
target to_stop shutdown = none
target to_stop error = none
target to_stop _ = some shutdown
target to_restart _ = some creating

-- a step of the table, or one from Creating or from a text that is no state
abbrev pub OnTable : GameServerState → GameServerState → Type 0
OnTable from to = (from ⟶ to) ⊎ (from ≡ creating) ⊎ (¬ IsKnown from)

target-OnTable :
    (op : Operation) (from : GameServerState) {to : GameServerState}
    → target op from ≡ some to
    → OnTable from to
unfolding target is_valid_transition
target-OnTable op creating e = inr (inl refl)
target-OnTable op GameServerState.unset e = inr (inr (λ k. k))
target-OnTable op (GameServerState.unknown t) e = inr (inr (λ k. k))
target-OnTable to_start shutdown e = subst (OnTable shutdown) (some_inj e) (inl refl)
target-OnTable to_start error e = subst (OnTable error) (some_inj e) (inl refl)
target-OnTable to_start from e = cc
target-OnTable to_stop shutdown e = cc
target-OnTable to_stop error e = cc
target-OnTable to_stop from e = subst (OnTable from) (some_inj e) (inl refl)
target-OnTable to_restart from e = subst (OnTable from) (some_inj e) (inl refl)

module _ {S : Type 0} (p : Platform S) where
  unfoldable pub perform : Operation → String → String → Handler p
  unfolding handle_start_game_server handle_stop_game_server handle_restart_game_server
  perform to_start ns name = handle_start_game_server p ns name
  perform to_stop ns name = handle_stop_game_server p ns name
  perform to_restart ns name = handle_restart_game_server p ns name

module _ {S : Type 0} where
  -- the handler has answered, and the answer 200 means `P`
  abbrev Achieves : (S → Type 0) → Reply Response × S → Type 0
  Achieves P (ok a, s) = a.status ≡ status_ok → P s
  Achieves P (err e, s) = ⊥

  achieved :
      (P : S → Type 0) (out : Reply Response × S) {answer : Response}
      → Achieves P out
      → out.0 ≡ ok answer
      → answer.status ≡ status_ok
      → P out.1
  achieved P (ok a, s) h e c = let same : a.status ≡ _ = cc in h (same ∙ c)
  achieved P (err e, s) h _ c = absurd h

module _ {S : Type 0} {p : Platform S} (l : Laws p) (P : S → Type 0) where
  Achieves-answer_written :
      (message : String) (r : Reply GameServer) (s : S)
      → ((gs : GameServer) → r ≡ ok gs → P s)
      → Achieves P (answer_written p message r s)
  unfolding answer_written respond_json pure
  Achieves-answer_written message (ok gs) s h = λ c. h gs refl
  Achieves-answer_written message (err e) s h = λ c. absurd (omega (arith, c))

  Achieves-with_found :
      (name : String) (next : GameServer → Handler p) (r : Reply GameServer) (s : S)
      → ((gs : GameServer) → r ≡ ok gs → Achieves P (next gs s))
      → Achieves P (with_found p name next r s)
  unfolding with_found pure
  Achieves-with_found name next (ok gs) s h = h gs refl
  Achieves-with_found name next (err e) s h = elim (Bool-cases (is_not_found e)) [
    | inl f ↦ rw f (λ c. absurd (omega (arith, c)))
    | inr f ↦ rw f (λ c. absurd (omega (arith, c)))
  ]

  Achieves-with_server :
      (ns name : String) (next : GameServer → Handler p) (s : S)
      → let key : Key = record { namespace = ns; name = name } in
        ((gs : GameServer)
          → (p.get game_servers key s).0 ≡ ok gs
          → Achieves P (next gs (p.get game_servers key s).1))
        → Achieves P (with_server p ns name next s)
  unfolding with_server respond_error ◌>>=◌
  Achieves-with_server ns name next s h = elim (Bool-cases (ns == "")) [
    | inl f ↦ rw f (λ c. absurd (omega (arith, c)))
    | inr f ↦ rw f (Achieves-with_found name next _ _ h)
  ]

module _ {S : Type 0} {p : Platform S} (l : Laws p) (op : Operation) (ns name : String)
    (s : S) where
  abbrev key : Key
  key = record { namespace = ns; name = name }

  -- the stored server has the state that the operation asks for, and is the same otherwise
  abbrev pub Performed : S → Type 0
  Performed s' =
      (old : GameServer) × (new : GameServerState) × (l.at game_servers s key ≡ some old)
      × (target op old.status.state ≡ some new)
      × OnTable old.status.state new
      × (l.at game_servers s' key
          ≡ some (record old { status = record (old.status) { state = new } }))

  module _ (gs : GameServer) (read : (p.get game_servers key s).0 ≡ ok gs) where
    abbrev after_read : S
    after_read = (p.get game_servers key s).1

    written :
        (new : GameServerState)
        → target op gs.status.state ≡ some new
        → Achieves Performed (write_game_server_state p new gs after_read)
    unfolding write_game_server_state ◌>>=◌
    written new e =
        let o : GameServer = record gs { status = record (gs.status) { state = new } } in
        let (found, same) = l.get_ok game_servers key s read in
        Achieves-answer_written l Performed _ _ _ λ o' done.
          let (old, before, after) = l.update_status_ok o after_read done in
          let stored : l.at game_servers after_read key ≡ some gs =
            l.get_at game_servers key s game_servers key ∙ found in
          let equal : old ≡ gs =
            some_inj (sym before ∙ ap (λ k. l.at game_servers after_read k) same ∙ stored) in
          (
            gs,
            new,
            found,
            e,
            target-OnTable op gs.status.state e,
            ap (λ k. l.at game_servers (p.update_status game_servers o after_read).1 k) (sym same)
                ∙ after
                ∙ ap {A = GameServer} {B = Option GameServer}
                    (λ g. some (record g { status = record (gs.status) { state = new } })) equal,
          )

    started :
        (state : GameServerState)
        → op ≡ to_start
        → gs.status.state ≡ state
        → Achieves Performed (start_from p gs state after_read)
    unfolding start_from respond_error pure target
    started creating h e = λ c. absurd (omega (arith, c))
    started starting h e = λ c. absurd (omega (arith, c))
    started ready h e = λ c. absurd (omega (arith, c))
    started allocated h e = λ c. absurd (omega (arith, c))
    started state h e = written creating (rw (h, e) refl)

    stopped :
        (state : GameServerState)
        → op ≡ to_stop
        → gs.status.state ≡ state
        → Achieves Performed (stop_from p gs state after_read)
    unfolding stop_from respond_error pure target
    stopped shutdown h e = λ c. absurd (omega (arith, c))
    stopped error h e = λ c. absurd (omega (arith, c))
    stopped state h e = written shutdown (rw (h, e) refl)

    restarted :
        op ≡ to_restart → Achieves Performed (write_game_server_state p creating gs after_read)
    unfolding target
    restarted h = written creating (rw h refl)

  performed : (o : Operation) → op ≡ o → Achieves Performed (perform p o ns name s)
  unfolding perform start_server stop_server
  performed to_start h =
      Achieves-with_server l Performed ns name _ s λ gs read. started gs read gs.status.state h refl
  performed to_stop h =
      Achieves-with_server l Performed ns name _ s λ gs read. stopped gs read gs.status.state h refl
  performed to_restart h =
      Achieves-with_server l Performed ns name _ s λ gs read. restarted gs read h

  -- A start, stop or restart answers 200 only if a game server is stored under the name in the
  -- user's namespace and the operation may be asked for in its state. The stored server then has the
  -- state that the operation asks for, and is otherwise as it was. That step is in the table of
  -- transitions, or starts in Creating or in a text that is no lifecycle state.
  pub perform_achieves :
      {answer : Response}
      → (perform p op ns name s).0 ≡ ok answer
      → answer.status ≡ status_ok
      → Performed (perform p op ns name s).1
  perform_achieves h c = achieved Performed (perform p op ns name s) (performed op refl) h c
