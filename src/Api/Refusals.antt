-- ===== src/Api/Refusals.antt =====
-- What an answer other than 200 and 500 of start, stop and restart means: nothing was written.
use kterodactyl.Prelude.{String, ◌==◌, ◌≡◌, ◌≢◌, refl, sym, subst, Bool-cases, inl, inr}
use kterodactyl.Lifecycle.{GameServerState, creating, starting, ready, allocated, shutdown, error}
use kterodactyl.Kube.Errors.{Reply, ok, err, is_not_found}
use kterodactyl.Kube.Meta.{Key}
use kterodactyl.Kube.Objects.{GameServer, Kind, game_servers}
use kterodactyl.Kube.Exec.{pure, ◌>>=◌}
use kterodactyl.Kube.Platform.{Platform, Laws}
use kterodactyl.Api.Responses.{
  Response, status_ok, status_internal_server_error, respond_json, respond_error,
}
use kterodactyl.Api.Servers.{
  Handler, with_found, with_server, answer_written, write_game_server_state, start_from,
  start_server, stop_from, stop_server,
}
use kterodactyl.Api.Outcomes.{Operation, to_start, to_stop, to_restart, perform}

module _ {S : Type 0} {p : Platform S} (l : Laws p) (j : Kind) (q : Key) (s : S) where
  -- the handler has answered, and the object at `q` is the one in `s` unless the answer is one of two
  abbrev Untouched : Reply Response × S → Type 0
  Untouched (ok a, s') =
      a.status ≢ status_ok → a.status ≢ status_internal_server_error → l.at j s' q ≡ l.at j s q
  Untouched (err e, s') = ⊥

  untouched :
      (out : Reply Response × S) {answer : Response}
      → Untouched out
      → out.0 ≡ ok answer
      → answer.status ≢ status_ok
      → answer.status ≢ status_internal_server_error
      → l.at j out.1 q ≡ l.at j s q
  untouched (ok a, s') h e c d =
      let same : a.status ≡ _ = cc in
      h (subst (λ n. n ≢ status_ok) (sym same) c)
        (subst (λ n. n ≢ status_internal_server_error) (sym same) d)
  untouched (err e, s') h _ c d = absurd h

  Untouched-answer_written :
      (message : String) (r : Reply GameServer) (s' : S) → Untouched (answer_written p message r s')
  unfolding answer_written respond_json respond_error pure
  Untouched-answer_written message (ok gs) s' = λ c d. absurd (c refl)
  Untouched-answer_written message (err e) s' = λ c d. absurd (d refl)

  Untouched-write :
      (new : GameServerState) (gs : GameServer) (s' : S)
      → Untouched (write_game_server_state p new gs s')
  unfolding write_game_server_state ◌>>=◌
  Untouched-write new gs s' = Untouched-answer_written _ _ _

  Untouched-with_found :
      (name : String) (next : GameServer → Handler p) (r : Reply GameServer) (s' : S)
      → l.at j s' q ≡ l.at j s q
      → ((gs : GameServer) → Untouched (next gs s'))
      → Untouched (with_found p name next r s')
  unfolding with_found pure
  Untouched-with_found name next (ok gs) s' e h = h gs
  Untouched-with_found name next (err x) s' e h = elim (Bool-cases (is_not_found x)) [
    | inl f ↦ rw f (λ c d. e)
    | inr f ↦ rw f (λ c d. e)
  ]

  Untouched-with_server :
      (ns name : String) (next : GameServer → Handler p)
      → ((gs : GameServer) (s' : S) → l.at j s' q ≡ l.at j s q → Untouched (next gs s'))
      → Untouched (with_server p ns name next s)
  unfolding with_server respond_error ◌>>=◌
  Untouched-with_server ns name next h = elim (Bool-cases (ns == "")) [
    | inl f ↦ rw f (λ c d. refl)
    | inr f ↦
        let key : Key = record { namespace = ns; name = name } in
        let (r, s') = p.get game_servers key s in
        let read = l.get_at game_servers key s j q in
        rw f (Untouched-with_found name next r s' read (λ gs. h gs s' read))
  ]

  Untouched-start_from :
      (gs : GameServer) (state : GameServerState) (s' : S)
      → l.at j s' q ≡ l.at j s q
      → Untouched (start_from p gs state s')
  unfolding start_from respond_error pure
  Untouched-start_from gs creating s' e = λ c d. e
  Untouched-start_from gs starting s' e = λ c d. e
  Untouched-start_from gs ready s' e = λ c d. e
  Untouched-start_from gs allocated s' e = λ c d. e
  Untouched-start_from gs _ s' e = Untouched-write creating gs s'

  Untouched-stop_from :
      (gs : GameServer) (state : GameServerState) (s' : S)
      → l.at j s' q ≡ l.at j s q
      → Untouched (stop_from p gs state s')
  unfolding stop_from respond_error pure
  Untouched-stop_from gs shutdown s' e = λ c d. e
  Untouched-stop_from gs error s' e = λ c d. e
  Untouched-stop_from gs _ s' e = Untouched-write shutdown gs s'

  Untouched-perform : (op : Operation) (ns name : String) → Untouched (perform p op ns name s)
  unfolding perform start_server stop_server
  Untouched-perform to_start ns name =
      Untouched-with_server ns name _ λ gs s' e. Untouched-start_from gs gs.status.state s' e
  Untouched-perform to_stop ns name =
      Untouched-with_server ns name _ λ gs s' e. Untouched-stop_from gs gs.status.state s' e
  Untouched-perform to_restart ns name =
      Untouched-with_server ns name _ λ gs s' e. Untouched-write creating gs s'

  -- A start, stop or restart that answers with another status than 200 and 500 has changed no stored
  -- object of any kind.
  pub perform_refused :
      (op : Operation) (ns name : String) {answer : Response}
      → (perform p op ns name s).0 ≡ ok answer
      → answer.status ≢ status_ok
      → answer.status ≢ status_internal_server_error
      → l.at j (perform p op ns name s).1 q ≡ l.at j s q
  perform_refused op ns name h c d =
      untouched (perform p op ns name s) (Untouched-perform op ns name) h c d
