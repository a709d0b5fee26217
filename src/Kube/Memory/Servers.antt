-- ===== src/Kube/Memory/Servers.antt =====
-- What an update of a game server, or of its status, does to the stored game servers.
use kterodactyl.Prelude.{
  ◌≡◌, refl, subst, ap, sym, ◌∙◌, ◌⊎◌, inl, inr, true, false, none, some, List, Bool-cases,
  Option-cases,
}
use kterodactyl.Kube.Errors.{Reply, ok, err, ok_inj, not_found}
use kterodactyl.Kube.Meta.{Key, key_of}
use kterodactyl.Kube.Objects.{GameServer, game_servers}
use kterodactyl.Kube.Memory.Store.{same_key_iff, find-put, find-remove}
use kterodactyl.Kube.Memory.{Memory, same_key, find, put, remove, update_server}
use kterodactyl.Kube.Memory.Objects.{stored}
use kterodactyl.Kube.Memory.{is_finalized}

-- a write of one game server
module _ (new : GameServer) (m : Memory) (q : Key) where
  find-put_here :
      same_key (key_of new.meta) q ≡ true
      → find game_servers q (put game_servers new m.stored_game_servers) ≡ some new
  find-put_here e = find-put game_servers new m.stored_game_servers q ∙ rw e

  find-put_away :
      same_key (key_of new.meta) q ≡ false
      → find game_servers q (put game_servers new m.stored_game_servers)
        ≡ find game_servers q m.stored_game_servers
  find-put_away e = find-put game_servers new m.stored_game_servers q ∙ rw e

module _ (o : GameServer) (m : Memory) where
  update_missing :
      find game_servers (key_of o.meta) m.stored_game_servers ≡ none
      → update_server o m ≡ (err not_found, m)
  unfolding update_server
  update_missing e = rw (e, update_server)

  update_removed :
      (old : GameServer)
      → find game_servers (key_of o.meta) m.stored_game_servers ≡ some old
      → is_finalized o.meta ≡ true
      → update_server o m ≡ (
        ok (record o { status = old.status }),
        record m {
          stored_game_servers = remove game_servers (key_of o.meta) m.stored_game_servers;
        },
      )
  unfolding update_server
  update_removed old e f = rw (e, update_server) (rw f)

  update_put :
      (old : GameServer)
      → find game_servers (key_of o.meta) m.stored_game_servers ≡ some old
      → is_finalized o.meta ≡ false
      → update_server o m ≡ (
        ok (record o { status = old.status }),
        record m {
          stored_game_servers =
              put game_servers (record o { status = old.status }) m.stored_game_servers;
        },
      )
  unfolding update_server
  update_put old e f = rw (e, update_server) (rw f)

  removed_at :
      (q : Key)
      → (find game_servers q (remove game_servers (key_of o.meta) m.stored_game_servers)
          ≡ stored game_servers m q)
        ⊎ (find game_servers q (remove game_servers (key_of o.meta) m.stored_game_servers) ≡ none)
  removed_at q = elim (Bool-cases (same_key (key_of o.meta) q)) [
    | inl e ↦ inr (find-remove game_servers (key_of o.meta) m.stored_game_servers q ∙ rw e)
    | inr e ↦ inl (find-remove game_servers (key_of o.meta) m.stored_game_servers q ∙ rw e)
  ]

  abbrev Updated : Key → List GameServer → Type 0
  Updated q os =
      (find game_servers q os ≡ stored game_servers m q)
      ⊎ (find game_servers q os ≡ none)
      ⊎ ((old new : GameServer) × (stored game_servers m q ≡ some old)
          × (find game_servers q os ≡ some new)
          × (new.status ≡ old.status))

  put_at :
      (old : GameServer) (q : Key)
      → find game_servers (key_of o.meta) m.stored_game_servers ≡ some old
      → Updated q (put game_servers (record o { status = old.status }) m.stored_game_servers)
  put_at old q e =
      let new : GameServer = record o { status = old.status } in
      elim (Bool-cases (same_key (key_of new.meta) q)) [
        | inl here ↦
            let at_q : q ≡ key_of o.meta = sym ((same_key_iff _ q).0 here) in
            inr (inr (old, new, rw at_q e, find-put_here new m q here, refl))
        | inr away ↦ inl (find-put_away new m q away)
      ]

  pub update_at :
      (q : Key)
      → (stored game_servers (update_server o m).1 q ≡ stored game_servers m q)
        ⊎ (stored game_servers (update_server o m).1 q ≡ none)
        ⊎ ((old new : GameServer) × (stored game_servers m q ≡ some old)
            × (stored game_servers (update_server o m).1 q ≡ some new)
            × (new.status ≡ old.status))
  update_at q = elim (Option-cases (find game_servers (key_of o.meta) m.stored_game_servers)) [
    | inl e ↦ inl (ap (λ r. stored game_servers r.1 q) (update_missing e))
    | inr (old, e) ↦ elim (Bool-cases (is_finalized o.meta)) [
      | inl f ↦
          let same = ap (λ r. stored game_servers r.1 q) (update_removed old e f) in
          elim (removed_at q) [ inl h ↦ inl (same ∙ h) | inr h ↦ inr (inl (same ∙ h)) ]
      | inr f ↦
          subst (Updated q)
            (sym (
              ap (λ (r : Reply GameServer × Memory). r.1.stored_game_servers) (update_put old e f)))
            (put_at old q e)
    ]
  ]

  own : same_key (key_of o.meta) (key_of o.meta) ≡ true
  own = (same_key_iff (key_of o.meta) (key_of o.meta)).1 refl

  pub update_server_ok :
      {o' : GameServer}
      → (update_server o m).0 ≡ ok o'
      → (o'.meta.annotations ≡ o.meta.annotations)
        × ((stored game_servers (update_server o m).1 (key_of o.meta) ≡ none)
            ⊎ ((new : GameServer) × (stored game_servers (update_server o m).1 (key_of o.meta)
                  ≡ some new)
                × (key_of new.meta ≡ key_of o.meta)
                × (new.meta.annotations ≡ o.meta.annotations)))
  update_server_ok {o' = o'} h =
      elim (Option-cases (find game_servers (key_of o.meta) m.stored_game_servers)) [
        | inl e ↦
            (let bad : err not_found ≡ ok o' = sym (ap (λ r. r.0) (update_missing e)) ∙ h in cc)
        | inr (old, e) ↦ elim (Bool-cases (is_finalized o.meta)) [
          | inl f ↦
              (let whole = update_removed old e f in
                (
                  ap (λ (x : GameServer). x.meta.annotations)
                      (ok_inj (sym h ∙ ap (λ r. r.0) whole)),
                  inl (
                      ap (λ r. stored game_servers r.1 (key_of o.meta)) whole
                      ∙ find-remove game_servers (key_of o.meta) m.stored_game_servers
                          (key_of o.meta)
                      ∙ rw own),
                ))
          | inr f ↦
              (let whole = update_put old e f in
                let new : GameServer = record o { status = old.status } in
                (
                  ap (λ (x : GameServer). x.meta.annotations)
                      (ok_inj (sym h ∙ ap (λ r. r.0) whole)),
                  inr (
                    new,
                    ap (λ r. stored game_servers r.1 (key_of o.meta)) whole
                        ∙ find-put_here new m (key_of o.meta) own,
                    refl,
                    refl,
                  ),
                ))
        ]
      ]
