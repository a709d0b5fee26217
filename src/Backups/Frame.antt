-- ===== src/Backups/Frame.antt =====
-- The calls between the storage and the pods leave every object of the cluster as it is.
use kterodactyl.Prelude.{refl, String, Option, none, some}
use kterodactyl.Kube.Errors.{Reply, ok, err}
use kterodactyl.Kube.Meta.{Key}
use kterodactyl.Kube.Objects.{Secret, secrets, Kind}
use kterodactyl.Kube.Exec.{modify}
use kterodactyl.Kube.Exec.Leaves.{
  Leaves, Leaves-pure, Leaves-fail, Leaves-if, Leaves-wrapping, Leaves-attempt, Leaves-bind,
}
use kterodactyl.Kube.Platform.{Platform, Laws}
use kterodactyl.Kube.Platform.Frame.{stored_at, Leaves-get}
use kterodactyl.Controller.Config.{AdminConfig}
use kterodactyl.Backups.Storage.{ExecRequest, Storage, StorageLaws}
use kterodactyl.Backups.Transfer.{
  s3_credentials_secret_name, tar_from_request, run_in_pod, perform_backup, keep_client, client_of,
  client_or_new, ensure_s3_client,
}

module _ {S C R : Type 0} {p : Platform S} (l : Laws p) {t : Storage S C R} (sl : StorageLaws l t)
    (operator_namespace : String) (j : Kind) (q : Key) where
  Leaves-run_in_pod :
      (request : ExecRequest) (stdin : Option R)
      → Leaves (stored_at l j q) (run_in_pod p t operator_namespace request stdin)
  unfolding run_in_pod
  Leaves-run_in_pod request stdin =
      Leaves-bind _ _ (Leaves-wrapping "exec setup failed" _ (record { same_view = λ s. refl }))
        (λ u. record { same_view = λ s. sl.stream_at request stdin s j q })

  pub Leaves-perform_backup :
      (client : C) (bucket namespace pod path key : String)
      → Leaves
          (stored_at l j q)
          (perform_backup p t operator_namespace (client, bucket) namespace pod path key)
  unfolding perform_backup
  Leaves-perform_backup client bucket namespace pod path key = record {
    same_view =
        sl.piped_at _ _ _ j q
          (Leaves-run_in_pod (tar_from_request namespace pod path) none).same_view
          (λ s. sl.put_object_at client bucket key s j q);
  }

  Leaves-cache : (c : C × String) → Leaves (stored_at l j q) (modify (t.cache c))
  unfolding modify
  Leaves-cache c = record { same_view = λ s. sl.cache_at c s j q }

  Leaves-keep_client :
      (cfg : AdminConfig) (r : Reply C)
      → Leaves (stored_at l j q) (keep_client p t operator_namespace cfg r)
  unfolding keep_client
  Leaves-keep_client cfg (err e) = Leaves-fail _
  Leaves-keep_client cfg (ok c) =
      Leaves-bind (modify (t.cache (c, cfg.backup_s3_bucket))) _
        (Leaves-cache (c, cfg.backup_s3_bucket)) (λ u. Leaves-pure (c, cfg.backup_s3_bucket))

  Leaves-client_of :
      (cfg : AdminConfig) (r : Reply Secret)
      → Leaves (stored_at l j q) (client_of p t operator_namespace cfg r)
  unfolding client_of
  Leaves-client_of cfg (err e) = Leaves-fail _
  Leaves-client_of cfg (ok secret) = Leaves-if _ _ _ (Leaves-fail _) (Leaves-keep_client cfg _)

  Leaves-client_or_new :
      (cfg : AdminConfig) (c : Option (C × String))
      → Leaves (stored_at l j q) (client_or_new p t operator_namespace cfg c)
  unfolding client_or_new
  Leaves-client_or_new cfg (some c) = Leaves-pure c
  Leaves-client_or_new cfg none =
      Leaves-bind _ _
        (Leaves-attempt _ (
          Leaves-get l j q secrets
            (record { namespace = operator_namespace; name = s3_credentials_secret_name })))
        (Leaves-client_of cfg)

  pub Leaves-ensure_s3_client :
      (cfg : AdminConfig) → Leaves (stored_at l j q) (ensure_s3_client p t operator_namespace cfg)
  unfolding ensure_s3_client
  Leaves-ensure_s3_client cfg = record {
    same_view = λ s. (Leaves-client_or_new cfg (t.cached s)).same_view s;
  }
