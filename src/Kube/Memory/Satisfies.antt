-- ===== src/Kube/Memory/Satisfies.antt =====
-- The cluster in memory satisfies the laws of `Platform`.
use kterodactyl.Prelude.{refl, inl, inr, ap, ◌∙◌}
use kterodactyl.Kube.Platform.{Laws}
use kterodactyl.Kube.Memory.Conditions.{set_condition_same, set_condition_other}
use kterodactyl.Kube.Memory.Objects.{
  stored, get_ok, create_frame, delete_frame, create_or_update_frame, create_or_update_ok,
}
use kterodactyl.Kube.Memory.Others.{
  create_key, create_other, create_secret_ok, delete_other, update_frame,
}
use kterodactyl.Kube.Memory.Servers.{update_at, update_server_ok}
use kterodactyl.Kube.Memory.Rewrites.{rewrite_at, rewrite_ok, rewrite_frame}
use kterodactyl.Kube.Memory.Lists.{list_ok, list_selected}
use kterodactyl.Kube.Memory.Backups.{create_backup_at, delete_backup_at}
use kterodactyl.Kube.Objects.{game_servers, backups, GameServer, Backup, BackupStatus}
use kterodactyl.Kube.Memory.{memory, get, list, update, update_status}

abbrev server_with : GameServer → GameServer → GameServer
server_with o old = record old { status = o.status }

abbrev backup_with : Backup → Backup → Backup
backup_with o old = record old { status = o.status }

unfoldable pub memory_laws : Laws memory
unfolding get list update update_status
memory_laws = record {
  at = λ k m q. stored k m q;
  get_at = λ k key m j q. refl;
  get_ok = λ k key m h. get_ok k key m h;
  list_ok = λ k ns ls m h. list_ok k ns ls m h;
  list_selected = λ k ns ls m h. list_selected k ns ls m h;
  list_at = λ k ns ls m j q. refl;
  update_status_at = λ o m q. rewrite_at game_servers (server_with o) (λ old. refl) _ m q;
  update_status_ok = λ o m h. rewrite_ok game_servers (server_with o) (λ old. refl) _ m h;
  update_status_frame =
      λ o m j q n. rewrite_frame game_servers (server_with o) (λ old. refl) _ m j q n;
  update_at = update_at;
  update_ok = λ o m h. update_server_ok o m h;
  update_frame = update_frame;
  create_frame = create_frame;
  create_other = λ k o m q n. create_other k q o m n;
  create_key = λ k o m h. create_key k o m h;
  create_secret_ok = λ o m h. create_secret_ok o m h;
  delete_other = λ k o grace m q n. delete_other k q o grace m n;
  delete_frame = delete_frame;
  create_or_update_frame = create_or_update_frame;
  create_or_update_ok = λ k o f m h. create_or_update_ok k o f m h;
  backup_status_at = λ o m q. rewrite_at backups (backup_with o) (λ old. refl) _ m q;
  backup_status_ok = λ o m h. rewrite_ok backups (backup_with o) (λ old. refl) _ m h;
  backup_status_frame = λ o m j q n. rewrite_frame backups (backup_with o) (λ old. refl) _ m j q n;
  create_backup_at = λ o m q no_state. elim (create_backup_at o m q) [
    | inl same ↦ inl same
    | inr (before, (new, after, e)) ↦
        inr (before, (new, after, ap (λ (t : BackupStatus). t.state) e ∙ no_state))
  ];
  delete_backup_at = delete_backup_at;
  event_at = λ o type reason message m j q. refl;
  gauge_reset_at = λ m j q. refl;
  gauge_set_at = λ state game n m j q. refl;
  set_condition_same = set_condition_same;
  set_condition_other = set_condition_other;
}
