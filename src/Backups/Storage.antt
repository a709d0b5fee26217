-- ===== src/Backups/Storage.antt =====
-- What the backup controller calls besides the Kubernetes API: the S3 client, commands in a pod, the
-- pipe between the two, the cron parser, the formats of times, and `sort.Slice`. `S` is the state of
-- everything outside the program and of the reconciler's own fields, `C` a storage client and `R` a
-- reader of stored bytes.
use kterodactyl.Prelude.{
  ℕ, ℤ, String, Bool, Option, some, List, [], ◌∷◌, ◌≡◌, true, false, All, Shuffle,
}
use kterodactyl.Kube.Errors.{Reply}
use kterodactyl.Kube.Meta.{Key}
use kterodactyl.Kube.Objects.{Kind, Backup}
use kterodactyl.Kube.Exec.{Exec}
use kterodactyl.Kube.Platform.{Platform, Laws}

-- a `PodExecOptions` with the pod's name and namespace
pub record ExecRequest : Type 0 where
  pub namespace : String
  pub pod : String
  pub container : String
  pub command : List String
  pub stdin : Bool
  pub stdout : Bool
  pub stderr : Bool

pub record Storage (S C R : Type 0) : Type 0 where
  -- minio.New: the endpoint, the key and its secret, and whether the connection is secure
  pub new_client : String → String → String → Bool → Reply C
  -- BucketExists, MakeBucket in a region, PutObject with its size, GetObject and RemoveObject
  pub bucket_exists : C → String → Exec S Bool
  pub make_bucket : C → String → String → Exec S (Unit {0})
  pub put_object : C → String → String → Exec S ℤ
  pub get_object : C → String → String → Exec S R
  pub remove_object : C → String → String → Exec S (Unit {0})
  -- gzip.NewReader
  pub gunzip : R → Reply R
  -- remotecommand.NewSPDYExecutor; StreamWithContext, with what the command wrote to stdout, where
  -- that is kept, and to stderr
  pub new_executor : ExecRequest → Reply (Unit {0})
  pub stream : ExecRequest → Option R → S → (Reply (Unit {0}) × String × String) × S
  -- A goroutine that writes into `io.Pipe` through gzip and closes it with its error, beside a call
  -- that reads from it; both within a time. The replies of both.
  pub piped : ℕ → Exec S (Unit {0}) → Exec S ℤ → S → (Reply (Unit {0}) × Reply ℤ) × S
  -- the fields `s3Client` and `s3Bucket` of the reconciler; `none` is a nil client
  pub cached : S → Option (C × String)
  pub cache : C × String → S → S

-- Times are in nanoseconds, `none` the zero time.
pub record Clock : Type 0 where
  -- `Parse` of the cron parser with five fields: the schedule by its `Next`
  pub parse_schedule : String → Reply (Option ℕ → Option ℕ)
  -- time.Parse with RFC 3339; `none` is an error, or the zero time
  pub parse_rfc3339 : String → Option ℕ
  -- `Format` with RFC 3339, and with "20060102-150405"
  pub format_rfc3339 : ℕ → String
  pub format_compact : ℕ → String
  pub sort_slice : (Backup → Backup → Bool) → List Backup → List Backup

-- What `sort.Slice` asks of its order, and what it then gives: the elements rearranged, with none
-- before one that is less.
pub record IsStrictWeak (less : Backup → Backup → Bool) : Type 0 where
  pub asymmetric : (a b : Backup) → less a b ≡ true → less b a ≡ false
  pub transitive : (a b c : Backup) → less a b ≡ false → less b c ≡ false → less a c ≡ false

abbrev pub Sorted : (Backup → Backup → Bool) → List Backup → Type 0
Sorted less [] = Unit
Sorted less (x ∷ xs) = All (λ y. less y x ≡ false) xs × Sorted less xs

pub record ClockLaws (clock : Clock) : Type 0 where
  pub sort_slice-Shuffle :
      (less : Backup → Backup → Bool) (xs : List Backup) → Shuffle (clock.sort_slice less xs) xs
  pub sort_slice-Sorted :
      (less : Backup → Backup → Bool) (xs : List Backup)
      → IsStrictWeak less
      → Sorted less (clock.sort_slice less xs)

-- None of the storage calls changes an object of the cluster.
pub record StorageLaws {S C R : Type 0} {p : Platform S} (l : Laws p) (t : Storage S C R)
    : Type 0 where
  pub bucket_exists_at :
      (c : C) (bucket : String) (s : S) (j : Kind) (q : Key)
      → l.at j (t.bucket_exists c bucket s).1 q ≡ l.at j s q
  pub make_bucket_at :
      (c : C) (bucket region : String) (s : S) (j : Kind) (q : Key)
      → l.at j (t.make_bucket c bucket region s).1 q ≡ l.at j s q
  pub put_object_at :
      (c : C) (bucket key : String) (s : S) (j : Kind) (q : Key)
      → l.at j (t.put_object c bucket key s).1 q ≡ l.at j s q
  pub get_object_at :
      (c : C) (bucket key : String) (s : S) (j : Kind) (q : Key)
      → l.at j (t.get_object c bucket key s).1 q ≡ l.at j s q
  pub remove_object_at :
      (c : C) (bucket key : String) (s : S) (j : Kind) (q : Key)
      → l.at j (t.remove_object c bucket key s).1 q ≡ l.at j s q
  pub stream_at :
      (r : ExecRequest) (stdin : Option R) (s : S) (j : Kind) (q : Key)
      → l.at j (t.stream r stdin s).1 q ≡ l.at j s q
  -- Nor does the pipe, if neither end does.
  pub piped_at :
      (timeout : ℕ) (write : Exec S (Unit {0})) (read : Exec S ℤ) (j : Kind) (q : Key)
      → ((s : S) → l.at j (write s).1 q ≡ l.at j s q)
      → ((s : S) → l.at j (read s).1 q ≡ l.at j s q)
      → (s : S) → l.at j (t.piped timeout write read s).1 q ≡ l.at j s q
  pub cache_at : (c : C × String) (s : S) (j : Kind) (q : Key) → l.at j (t.cache c s) q ≡ l.at j s q
  pub cached-cache : (c : C × String) (s : S) → t.cached (t.cache c s) ≡ some c
