-- ===== src/Kube/Platform.antt =====
-- The Kubernetes API and the libraries of the controllers, which the program only calls: the client
-- and the event recorder of controller-runtime, `meta.SetStatusCondition`, the Prometheus gauge.
-- `Platform` is what the program calls, `Laws` what it relies on. `S` is the state of the cluster.
pub mod Frame
pub mod Away
use kterodactyl.Prelude.{
  ℕ, String, ◌≡◌, ◌≢◌, ◌⊎◌, Bool, Option, none, some, List, Dict, All, lookup,
}
use kterodactyl.Lifecycle.{GameServerState, BackupState}
use kterodactyl.Kube.Errors.{Piece, Reply, ok}
use kterodactyl.Kube.Meta.{Key, Meta, key_of, Condition, find_condition}
use kterodactyl.Kube.Objects.{
  Quantity, GameServer, Secret, Kind, game_servers, secrets, Backup, backups, Object, meta_of,
}
use kterodactyl.Kube.Exec.{Exec}

pub record Platform (S : Type 0) : Type 0 where
  -- client.Get
  pub get : (k : Kind) → Key → Exec S (Object k)
  -- client.List, with the options InNamespace and MatchingLabels
  pub list : (k : Kind) → Option String → Dict String → Exec S (List (Object k))
  -- client.Create, client.Update, client.Status().Update: the object as the API returns it
  pub create : (k : Kind) → Object k → Exec S (Object k)
  pub update : (k : Kind) → Object k → Exec S (Object k)
  pub update_status : (k : Kind) → Object k → Exec S (Object k)
  -- client.Delete, with the option GracePeriodSeconds
  pub delete : (k : Kind) → Object k → Option ℕ → Exec S (Unit {0})
  -- controllerutil.CreateOrUpdate, from an object with a name: the operation result as a text
  pub create_or_update : (k : Kind) → Object k → (Object k → Reply (Object k)) → Exec S String
  -- controllerutil.ContainsFinalizer, AddFinalizer and RemoveFinalizer
  pub contains_finalizer : Meta → String → Bool
  pub add_finalizer : Meta → String → Meta
  pub remove_finalizer : Meta → String → Meta
  -- resource.ParseQuantity, and MustParse at the literals of the source
  pub parse_quantity : String → Option Quantity
  pub must_parse : String → Quantity
  -- ctrl.SetControllerReference
  pub set_controller_reference : GameServer → Meta → Reply Meta
  -- meta.SetStatusCondition, at a time
  pub set_status_condition : ℕ → Condition → List Condition → List Condition
  -- Recorder.Event: the object, the event's type, its reason and its message
  pub event : Meta → String → String → List Piece → S → S
  -- metrics.GameServersByState: Reset, and Set at a state and a game type
  pub gauge_reset : S → S
  pub gauge_set : GameServerState → String → ℕ → S → S

-- what the options InNamespace and MatchingLabels ask of an object
abbrev pub IsIn : Option String → Meta → Type 0
IsIn none m = Unit
IsIn (some ns) m = m.namespace ≡ ns

abbrev pub HasLabels : Dict String → Meta → Type 0
HasLabels ls m = All (λ wanted. lookup wanted.0 m.labels ≡ some wanted.1) ls

pub record Laws {S : Type 0} (p : Platform S) : Type 0 where
  -- the stored objects
  pub at : (k : Kind) → S → Key → Option (Object k)
  -- Reads change nothing, and return what is stored under the key.
  pub get_at :
      (k : Kind) (key : Key) (s : S) (j : Kind) (q : Key) → at j (p.get k key s).1 q ≡ at j s q
  pub get_ok :
      (k : Kind) (key : Key) (s : S) {o : Object k}
      → (p.get k key s).0 ≡ ok o
      → (at k s key ≡ some o) × (key_of (meta_of k o) ≡ key)
  pub list_at :
      (k : Kind) (ns : Option String) (ls : Dict String) (s : S) (j : Kind) (q : Key)
      → at j (p.list k ns ls s).1 q ≡ at j s q
  -- What a list returns is stored.
  pub list_ok :
      (k : Kind) (ns : Option String) (ls : Dict String) (s : S) {items : List (Object k)}
      → (p.list k ns ls s).0 ≡ ok items
      → All (λ o. at k s (key_of (meta_of k o)) ≡ some o) items
  pub list_selected :
      (k : Kind) (ns : Option String) (ls : Dict String) (s : S) {items : List (Object k)}
      → (p.list k ns ls s).0 ≡ ok items
      → All (λ o. IsIn ns (meta_of k o) × HasLabels ls (meta_of k o)) items
  -- A status update writes the status of its own object, or nothing; with a success it did.
  pub update_status_at :
      (o : GameServer) (s : S) (q : Key)
      → (at game_servers (p.update_status game_servers o s).1 q ≡ at game_servers s q)
        ⊎ ((q ≡ key_of o.meta)
            × ((old : GameServer) × (at game_servers s q ≡ some old)
                × (at game_servers (p.update_status game_servers o s).1 q
                    ≡ some (record old { status = o.status }))))
  pub update_status_ok :
      (o : GameServer) (s : S) {o' : GameServer}
      → (p.update_status game_servers o s).0 ≡ ok o'
      → (old : GameServer) × (at game_servers s (key_of o.meta) ≡ some old)
        × (at game_servers (p.update_status game_servers o s).1 (key_of o.meta)
            ≡ some (record old { status = o.status }))
  pub update_status_frame :
      (o : GameServer) (s : S) (j : Kind) (q : Key)
      → j ≢ game_servers
      → at j (p.update_status game_servers o s).1 q ≡ at j s q
  -- An update of a game server leaves its status, and its last finalizer gone may remove it.
  pub update_at :
      (o : GameServer) (s : S) (q : Key)
      → (at game_servers (p.update game_servers o s).1 q ≡ at game_servers s q)
        ⊎ (at game_servers (p.update game_servers o s).1 q ≡ none)
        ⊎ ((old new : GameServer) × (at game_servers s q ≡ some old)
            × (at game_servers (p.update game_servers o s).1 q ≡ some new)
            × (new.status ≡ old.status))
  -- With a success, the annotations are those that were sent, in the answer and in what is stored.
  pub update_ok :
      (o : GameServer) (s : S) {o' : GameServer}
      → (p.update game_servers o s).0 ≡ ok o'
      → (o'.meta.annotations ≡ o.meta.annotations)
        × ((at game_servers (p.update game_servers o s).1 (key_of o.meta) ≡ none)
            ⊎ ((new : GameServer) × (at game_servers (p.update game_servers o s).1 (key_of o.meta)
                  ≡ some new)
                × (key_of new.meta ≡ key_of o.meta)
                × (new.meta.annotations ≡ o.meta.annotations)))
  pub update_frame :
      (o : GameServer) (s : S) (j : Kind) (q : Key)
      → (j ≢ game_servers) ⊎ (q ≢ key_of o.meta)
      → at j (p.update game_servers o s).1 q ≡ at j s q
  -- Other writes touch objects of their kind only, and a creation or a deletion its own object.
  pub create_frame :
      (k : Kind) (o : Object k) (s : S) (j : Kind) (q : Key)
      → j ≢ k
      → at j (p.create k o s).1 q ≡ at j s q
  pub delete_frame :
      (k : Kind) (o : Object k) (grace : Option ℕ) (s : S) (j : Kind) (q : Key)
      → j ≢ k
      → at j (p.delete k o grace s).1 q ≡ at j s q
  pub create_other :
      (k : Kind) (o : Object k) (s : S) (q : Key)
      → q ≢ key_of (meta_of k o)
      → at k (p.create k o s).1 q ≡ at k s q
  -- What a creation returns has the name that was given.
  pub create_key :
      (k : Kind) (o : Object k) (s : S) {o' : Object k}
      → (p.create k o s).0 ≡ ok o'
      → key_of (meta_of k o') ≡ key_of (meta_of k o)
  -- A secret that was created was not there, and has the labels and the data that were given.
  pub create_secret_ok :
      (o : Secret) (s : S) {o' : Secret}
      → (p.create secrets o s).0 ≡ ok o'
      → (at secrets s (key_of o.meta) ≡ none)
        × ((new : Secret) × (at secrets (p.create secrets o s).1 (key_of o.meta) ≡ some new)
            × (new.meta.labels ≡ o.meta.labels)
            × (new.entries ≡ o.entries))
  pub delete_other :
      (k : Kind) (o : Object k) (grace : Option ℕ) (s : S) (q : Key)
      → q ≢ key_of (meta_of k o)
      → at k (p.delete k o grace s).1 q ≡ at k s q
  pub create_or_update_frame :
      (k : Kind) (o : Object k) (f : Object k → Reply (Object k)) (s : S) (j : Kind) (q : Key)
      → j ≢ k
      → at j (p.create_or_update k o f s).1 q ≡ at j s q
  -- With a success, what is stored is the mutated object, from the stored one or the given one.
  pub create_or_update_ok :
      (k : Kind) (o : Object k) (f : Object k → Reply (Object k)) (s : S) {result : String}
      → (p.create_or_update k o f s).0 ≡ ok result
      → (old new : Object k) × ((at k s (key_of (meta_of k o)) ≡ some old)
          ⊎ ((at k s (key_of (meta_of k o)) ≡ none) × (old ≡ o)))
        × (f old ≡ ok new)
        × (at k (p.create_or_update k o f s).1 (key_of (meta_of k o)) ≡ some new)
  -- The same of the status of a backup.
  pub backup_status_at :
      (o : Backup) (s : S) (q : Key)
      → (at backups (p.update_status backups o s).1 q ≡ at backups s q)
        ⊎ ((q ≡ key_of o.meta)
            × ((old : Backup) × (at backups s q ≡ some old)
                × (at backups (p.update_status backups o s).1 q
                    ≡ some (record old { status = o.status }))))
  pub backup_status_ok :
      (o : Backup) (s : S) {o' : Backup}
      → (p.update_status backups o s).0 ≡ ok o'
      → (old : Backup) × (at backups s (key_of o.meta) ≡ some old)
        × (at backups (p.update_status backups o s).1 (key_of o.meta)
            ≡ some (record old { status = o.status }))
  pub backup_status_frame :
      (o : Backup) (s : S) (j : Kind) (q : Key)
      → j ≢ backups
      → at j (p.update_status backups o s).1 q ≡ at j s q
  -- A backup that a creation adds was not there, and has no state if none was given. A deletion
  -- takes backups away or leaves them; they have no finalizers.
  pub create_backup_at :
      (o : Backup) (s : S) (q : Key)
      → o.status.state ≡ BackupState.unset
      → (at backups (p.create backups o s).1 q ≡ at backups s q)
        ⊎ ((at backups s q ≡ none)
            × ((new : Backup) × (at backups (p.create backups o s).1 q ≡ some new)
                × (new.status.state ≡ BackupState.unset)))
  pub delete_backup_at :
      (o : Backup) (grace : Option ℕ) (s : S) (q : Key)
      → (at backups (p.delete backups o grace s).1 q ≡ at backups s q)
        ⊎ ((q ≡ key_of o.meta) × (at backups (p.delete backups o grace s).1 q ≡ none))
  pub event_at :
      (m : Meta) (type reason : String) (message : List Piece) (s : S) (j : Kind) (q : Key)
      → at j (p.event m type reason message s) q ≡ at j s q
  pub gauge_reset_at : (s : S) (j : Kind) (q : Key) → at j (p.gauge_reset s) q ≡ at j s q
  pub gauge_set_at :
      (state : GameServerState) (game : String) (n : ℕ) (s : S) (j : Kind) (q : Key)
      → at j (p.gauge_set state game n s) q ≡ at j s q
  -- A condition that is set has the given status; its transition time is kept where the status is.
  pub set_condition_same :
      (now : ℕ) (c : Condition) (cs : List Condition)
      → (d : Condition) × (find_condition c.type (p.set_status_condition now c cs) ≡ some d)
        × (d.status ≡ c.status)
        × (d.reason ≡ c.reason)
        × (d.message ≡ c.message)
        × ((o : Condition)
            → find_condition c.type cs ≡ some o
            → o.status ≡ c.status
            → d.last_transition_time ≡ o.last_transition_time)
  pub set_condition_other :
      (now : ℕ) (c : Condition) (cs : List Condition) (t : String)
      → t ≢ c.type
      → find_condition t (p.set_status_condition now c cs) ≡ find_condition t cs
