-- ===== src/Backups/Transfer.antt =====
-- `ensureS3Client`, `execTarFromPod`, `execTarIntoPod`, `performBackup` and `performRestore` of
-- internal/controller/backup_controller.go: the way of the bytes between a pod and the storage.
use Prim.Native.String.{◌++◌}
use kterodactyl.Prelude.{
  ℕ, ◌*◌, ◌^◌, ℤ, String, ◌==◌, true, false, ◌||◌, Option, none, some, [], ◌∷◌, text_at,
  if◌then◌else◌,
}
use kterodactyl.Kube.Errors.{Reply, ok, err, Err, failed, wrap, noted, is_not_found}
use kterodactyl.Kube.Objects.{Secret, secrets}
use kterodactyl.Kube.Exec.{Exec, pure, fail, wrapping, attempt, modify, ◌>>=◌, ◌>>◌}
use kterodactyl.Kube.Platform.{Platform}
use kterodactyl.Controller.Config.{AdminConfig}
use kterodactyl.Backups.Storage.{ExecRequest, Storage}

abbrev pub s3_credentials_secret_name : String
s3_credentials_secret_name = "kterodactyl-s3-credentials"

-- 30 minutes
abbrev pub backup_timeout : ℕ
backup_timeout = 1800 * 10 ^ 9

unfoldable pub tar_from_request : String → String → String → ExecRequest
tar_from_request namespace pod path = record {
  namespace = namespace;
  pod = pod;
  container = "gameserver";
  command = "tar" ∷ "-cf" ∷ "-" ∷ "-C" ∷ path ∷ "." ∷ [];
  stdin = false;
  stdout = true;
  stderr = true;
}

unfoldable pub tar_into_request : String → String → String → ExecRequest
tar_into_request namespace pod path = record {
  namespace = namespace;
  pod = pod;
  container = "gameserver";
  command = "tar" ∷ "-xf" ∷ "-" ∷ "-C" ∷ path ∷ [];
  stdin = true;
  stdout = true;
  stderr = true;
}

-- the error of a command, with what it wrote to stderr if it wrote anything
unfoldable pub stream_result : Reply (Unit {0}) × String × String → Reply (Unit {0})
stream_result (ok u, stdout, stderr) = ok u
stream_result (err e, stdout, stderr) =
    err (if stderr == "" then wrap "exec failed" e else noted "exec failed" e stderr)

-- the errors of both ends of the pipe: that of the upload comes first
unfoldable pub pipe_result : Reply (Unit {0}) × Reply ℤ → Reply ℤ
pipe_result (written, err e) = err (wrap "S3 upload failed" e)
pipe_result (err e, ok size) = err (wrap "tar exec failed" e)
pipe_result (ok u, ok size) = ok size

module _ {S C R : Type 0} (p : Platform S) (t : Storage S C R) (operator_namespace : String) where
  unfoldable pub run_in_pod : ExecRequest → Option R → Exec S (Unit {0})
  unfolding stream_result
  run_in_pod request stdin = do
    wrapping "exec setup failed" (λ s. (t.new_executor request, s))
    λ s. let (reply, s') = t.stream request stdin s in (stream_result reply, s')

  unfoldable pub exec_tar_from_pod : String → String → String → Exec S (Unit {0})
  unfolding run_in_pod tar_from_request
  exec_tar_from_pod namespace pod path = run_in_pod (tar_from_request namespace pod path) none

  unfoldable pub exec_tar_into_pod : String → String → String → R → Exec S (Unit {0})
  unfolding run_in_pod tar_into_request
  exec_tar_into_pod namespace pod path stdin =
      run_in_pod (tar_into_request namespace pod path) (some stdin)

  -- the size of what was uploaded
  unfoldable pub perform_backup : C × String → String → String → String → String → Exec S ℤ
  unfolding exec_tar_from_pod pipe_result
  perform_backup (client, bucket) namespace pod path key s =
      let (replies, s') =
        t.piped backup_timeout (exec_tar_from_pod namespace pod path)
          (t.put_object client bucket key) s in
      (pipe_result replies, s')

  unfoldable pub perform_restore :
      C → String → String → String → String → String → Exec S (Unit {0})
  unfolding exec_tar_into_pod
  perform_restore client namespace pod path bucket key = do
    object ← wrapping "S3 download failed" (t.get_object client bucket key)
    reader ← wrapping "gzip decompression failed" (λ s. (t.gunzip object, s))
    wrapping "tar restore failed" (exec_tar_into_pod namespace pod path reader)

  -- the error of a missing secret, and of another failure to read it
  unfoldable pub credentials_error : Err → Err
  credentials_error e =
      if is_not_found e
      then failed (
          "S3 credentials secret "
          ++ (s3_credentials_secret_name ++ (" not found in namespace " ++ operator_namespace)))
      else wrap "failed to get S3 credentials secret" e

  unfoldable pub keep_client : AdminConfig → Reply C → Exec S (C × String)
  keep_client cfg (err e) = fail (wrap "failed to create S3 client" e)
  keep_client cfg (ok client) = do
    modify (t.cache (client, cfg.backup_s3_bucket))
    pure (client, cfg.backup_s3_bucket)

  unfoldable pub client_of : AdminConfig → Reply Secret → Exec S (C × String)
  unfolding credentials_error keep_client text_at
  client_of cfg (err e) = fail (credentials_error e)
  client_of cfg (ok secret) =
      let access_key = text_at "accessKeyID" secret.entries in
      let secret_key = text_at "secretAccessKey" secret.entries in
      if access_key == "" || secret_key == ""
      then fail (failed "S3 credentials secret missing accessKeyID or secretAccessKey")
      else keep_client cfg
          (t.new_client cfg.backup_s3_endpoint access_key secret_key cfg.backup_s3_use_ssl)

  unfoldable pub client_or_new : AdminConfig → Option (C × String) → Exec S (C × String)
  unfolding client_of
  client_or_new cfg (some c) = pure c
  client_or_new cfg none = do
    r ← attempt (
        p.get secrets
          (record { namespace = operator_namespace; name = s3_credentials_secret_name }))
    client_of cfg r

  -- It returns the fields that the caller reads next: the client and the bucket.
  unfoldable pub ensure_s3_client : AdminConfig → Exec S (C × String)
  unfolding client_or_new
  ensure_s3_client cfg s = client_or_new cfg (t.cached s) s
