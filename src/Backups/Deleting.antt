-- ===== src/Backups/Deleting.antt =====
-- What the retention does to the stored backups.
use kterodactyl.Prelude.{
  ℕ, ℤ, zero, suc, pos, negsuc, String, ◌≡◌, refl, ap, ◌∙◌, ◌⊎◌, inl, inr, Option, none, some, List,
  [], ◌∷◌, Any, All-of, All-Any, Any-both, Any-map,
}
use kterodactyl.Labels.{label_backup_game_server}
use kterodactyl.Lifecycle.{completed}
use kterodactyl.Kube.Errors.{ok, Reply-cases}
use kterodactyl.Kube.Meta.{Key, key_of}
use kterodactyl.Kube.Objects.{Backup, backups}
use kterodactyl.Kube.Exec.{pure}
use kterodactyl.Kube.Exec.Leaves.{Leaves, Leaves-pure, Leaves-if, Leaves-attempt, Leaves-bind}
use kterodactyl.Kube.Exec.Results.{wrapping-bind-ok, wrapping-bind-err}
use kterodactyl.Kube.Exec.Runs.{Runs, Runs-attempt, Runs-of_Leaves, Runs-bind, Runs-seq, Runs-then}
use kterodactyl.Kube.Platform.{Platform, Laws}
use kterodactyl.Kube.Platform.Frame.{stored_at}
use kterodactyl.Backups.Storage.{Storage, Clock, StorageLaws, ClockLaws}
use kterodactyl.Backups.Retention.{
  expired, remove_stored, delete_backup, delete_each, enforce_retention,
}
use kterodactyl.Backups.Keeping.{expired-All}

-- What a deletion of listed backups does under one key.
abbrev Taken : Key → List Backup → Option Backup → Option Backup → Type 0
Taken q items before after =
    (after ≡ before) ⊎ (Any (λ o. q ≡ key_of o.meta) items × (after ≡ none))

-- A backup that is taken away was completed.
abbrev pub Removed : Option Backup → Option Backup → Type 0
Removed before after =
    (after ≡ before)
    ⊎ ((old : Backup) × (before ≡ some old) × (old.status.state ≡ completed) × (after ≡ none))

module _ {S C R : Type 0} {p : Platform S} (l : Laws p) {t : Storage S C R} (sl : StorageLaws l t)
    (clock : Clock) where
  module _ (q : Key) where
    Leaves-remove_stored :
        (old : Backup) (c : Option (C × String))
        → Leaves (stored_at l backups q) (remove_stored p t clock old c)
    unfolding remove_stored
    Leaves-remove_stored old none = Leaves-pure tt
    Leaves-remove_stored old (some (client, bucket)) =
        Leaves-if _ _ _
          (Leaves-bind _ _
            (Leaves-attempt _
              (record { same_view = λ s. sl.remove_object_at client _ _ s backups q }))
            (λ r. Leaves-pure tt))
          (Leaves-pure tt)

    Runs-delete_backup :
        (old : Backup)
        → Runs
            (stored_at l backups q)
            (λ v. Unit)
            (Taken q (old ∷ []))
            (delete_backup p t clock old)
    unfolding delete_backup
    Runs-delete_backup old =
        Runs-bind (λ v h. inl refl) _ _
          (record { same_view = λ s. (Leaves-remove_stored old (t.cached s)).same_view s })
          (λ u.
            Runs-then _ _
              (Runs-attempt _ (record {
                runs = λ s h. elim (l.delete_backup_at old none s q) [
                  | inl same ↦ inl same
                  | inr (here, gone) ↦ inr (inl here, gone)
                ];
              }))
              (λ r. Leaves-pure tt))

    Taken-seq :
        (o : Backup) (rest : List Backup) (u v w : Option Backup)
        → Taken q (o ∷ []) u v
        → Taken q rest v w
        → Taken q (o ∷ rest) u w
    Taken-seq o rest u v w (inl e) (inl f) = inl (f ∙ e)
    Taken-seq o rest u v w (inl e) (inr (k, f)) = inr (inr k, f)
    Taken-seq o rest u v w (inr (inl k, e)) (inl f) = inr (inl k, f ∙ e)
    Taken-seq o rest u v w (inr (inr k, e)) h = elim k [ ]
    Taken-seq o rest u v w (inr (inl k, e)) (inr (k', f)) = inr (inl k, f)

    Taken-head :
        (o : Backup) (rest : List Backup) (u v : Option Backup)
        → Taken q (o ∷ []) u v
        → Taken q (o ∷ rest) u v
    Taken-head o rest u v (inl e) = inl e
    Taken-head o rest u v (inr (inl k, e)) = inr (inl k, e)
    Taken-head o rest u v (inr (inr k, e)) = elim k [ ]

    Runs-delete_each :
        (items : List Backup)
        → Runs (stored_at l backups q) (λ v. Unit) (Taken q items) (delete_each p t clock items)
    unfolding delete_each
    Runs-delete_each [] = Runs-of_Leaves (λ v h. inl refl) _ (Leaves-pure tt)
    Runs-delete_each (o ∷ rest) =
        Runs-seq (λ u v h k. tt) (λ u v w h. Taken-seq o rest u v w)
          (λ u v h. Taken-head o rest u v) _ _ (Runs-delete_backup o) (λ r. Runs-delete_each rest)

  module _ (cl : ClockLaws clock) (namespace name : String) where
    -- A retention that lists the backups of a game server deletes some of those that are expired,
    -- and nothing else: what is stored under a key is as before, or it was an expired backup, which
    -- was completed, and is gone.
    pub enforce_retention_deletes :
        (n : ℕ) (s : S) {items : List Backup} (q : Key)
        → (p.list backups (some namespace) ((label_backup_game_server, name) ∷ []) s).0 ≡ ok items
        → (l.at backups (enforce_retention p t clock namespace name (pos (suc n)) s).1 q
            ≡ l.at backups s q)
          ⊎ (Any
                (λ old. (l.at backups s q ≡ some old) × (old.status.state ≡ completed))
                (expired clock (suc n) items)
              × (l.at backups (enforce_retention p t clock namespace name (pos (suc n)) s).1 q
                  ≡ none))
    unfolding enforce_retention
    enforce_retention_deletes n s {items} q listed =
        let s' = (p.list backups (some namespace) ((label_backup_game_server, name) ∷ []) s).1 in
        let old = expired clock (suc n) items in
        let run =
          wrapping-bind-ok "failed to list backups for retention"
            (p.list backups (some namespace) ((label_backup_game_server, name) ∷ []))
            (λ xs. delete_each p t clock (expired clock (suc n) xs)) s listed in
        let before =
          l.list_at backups (some namespace) ((label_backup_game_server, name) ∷ []) s backups q in
        let after = ap (λ r. l.at backups r.1 q) run in
        elim ((Runs-delete_each q old).runs s' tt) [
          | inl same ↦ inl (after ∙ same ∙ before)
          | inr (found, gone) ↦ inr (
            Any-map _ _ (λ o h. (ap (l.at backups s) h.1 ∙ h.0.0, h.0.1)) old
                (Any-both _ _ old
                  (expired-All cl (suc n) (λ o. l.at backups s (key_of o.meta) ≡ some o) items
                    (l.list_ok backups _ _ s listed))
                  found),
            after ∙ gone,
          )
        ]

    -- Whatever the count is, and whatever the list returns.
    pub enforce_retention-removes :
        (count : ℤ) (s : S) (q : Key)
        → Removed
            (l.at backups s q)
            (l.at backups (enforce_retention p t clock namespace name count s).1 q)
    unfolding enforce_retention pure
    enforce_retention-removes (negsuc n) s q = inl refl
    enforce_retention-removes (pos zero) s q = inl refl
    enforce_retention-removes (pos (suc n)) s q =
        let listed = p.list backups (some namespace) ((label_backup_game_server, name) ∷ []) in
        elim (Reply-cases (listed s).0) [
          | inl (items, e) ↦ elim (enforce_retention_deletes n s q e) [
            | inl same ↦ inl same
            | inr (found, gone) ↦
                let (old, _, (before, done)) =
                  All-Any (λ o. Unit) _ (expired clock (suc n) items) (All-of _ (λ o. tt) _)
                    found in
                inr (old, before, done, gone)
          ]
          | inr (e, h) ↦ inl (
              ap (λ r. l.at backups r.1 q)
                (wrapping-bind-err "failed to list backups for retention" listed _ s h)
              ∙ l.list_at backups _ _ s backups q)
        ]
