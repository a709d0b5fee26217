-- ===== src/Kube/Memory.antt =====
-- A cluster kept in memory: an instance of `Platform`, for tests and for the instances of theorems.
-- It fails only where an object is missing or there already.
pub mod Conditions
pub mod Store
pub mod Objects
pub mod Rewrites
pub mod Servers
pub mod Backups
pub mod Secrets
pub mod Lists
pub mod Others
pub mod Satisfies
use kterodactyl.Prelude.{
  ℕ, String, ◌==◌, Bool, true, false, ◌&&◌, Option, none, some, List, [], ◌∷◌, Dict, lookup,
  if◌then◌else◌,
}
use kterodactyl.Kube.Errors.{Reply, ok, err, not_found, already_exists, failed}
use kterodactyl.Kube.Meta.{Key, Meta, key_of}
use kterodactyl.Kube.Objects.{
  Quantity, GameServer, Pod, Pvc, Namespace, ResourceQuota, LimitRange, NetworkPolicy, ConfigMap,
  Secret, Backup, Kind, game_servers, pods, pvcs, all_namespaces, quotas, limit_ranges,
  network_policies, config_maps, secrets, backups, Object, meta_of,
}
use kterodactyl.Kube.Exec.{Exec}
use kterodactyl.Kube.Platform.{Platform}
use kterodactyl.Kube.Memory.Conditions.{set_status_condition}

pub record Memory : Type 0 where
  pub stored_game_servers : List GameServer
  pub stored_pods : List Pod
  pub stored_pvcs : List Pvc
  pub stored_namespaces : List Namespace
  pub stored_quotas : List ResourceQuota
  pub stored_limit_ranges : List LimitRange
  pub stored_network_policies : List NetworkPolicy
  pub stored_config_maps : List ConfigMap
  pub stored_secrets : List Secret
  pub stored_backups : List Backup
  -- the storage client of the backup reconciler, by its endpoint, with its bucket
  pub storage_client : Option (String × String)

abbrev pub objects : (k : Kind) → Memory → List (Object k)
objects game_servers m = m.stored_game_servers
objects pods m = m.stored_pods
objects pvcs m = m.stored_pvcs
objects all_namespaces m = m.stored_namespaces
objects quotas m = m.stored_quotas
objects limit_ranges m = m.stored_limit_ranges
objects network_policies m = m.stored_network_policies
objects config_maps m = m.stored_config_maps
objects secrets m = m.stored_secrets
objects backups m = m.stored_backups

abbrev pub with_objects : (k : Kind) → List (Object k) → Memory → Memory
with_objects game_servers os m = record m { stored_game_servers = os }
with_objects pods os m = record m { stored_pods = os }
with_objects pvcs os m = record m { stored_pvcs = os }
with_objects all_namespaces os m = record m { stored_namespaces = os }
with_objects quotas os m = record m { stored_quotas = os }
with_objects limit_ranges os m = record m { stored_limit_ranges = os }
with_objects network_policies os m = record m { stored_network_policies = os }
with_objects config_maps os m = record m { stored_config_maps = os }
with_objects secrets os m = record m { stored_secrets = os }
with_objects backups os m = record m { stored_backups = os }

unfoldable pub same_key : Key → Key → Bool
same_key a b = a.namespace == b.namespace && a.name == b.name

module _ (k : Kind) where
  unfoldable pub find : Key → List (Object k) → Option (Object k)
  unfolding same_key
  find key [] = none
  find key (o ∷ os) = if same_key (key_of (meta_of k o)) key then some o else find key os

  unfoldable pub put : Object k → List (Object k) → List (Object k)
  unfolding same_key
  put o [] = o ∷ []
  put o (x ∷ xs) =
      if same_key (key_of (meta_of k x)) (key_of (meta_of k o)) then o ∷ xs else x ∷ put o xs

  unfoldable pub remove : Key → List (Object k) → List (Object k)
  unfolding same_key
  remove key [] = []
  remove key (o ∷ os) =
      let rest = remove key os in if same_key (key_of (meta_of k o)) key then rest else o ∷ rest

  unfoldable pub found : Option (Object k) → Reply (Object k)
  found none = err not_found
  found (some o) = ok o

  unfoldable pub get : Key → Exec Memory (Object k)
  unfolding find found
  get key m = (found (find key (objects k m)), m)

  -- `MatchingLabels`
  unfoldable pub has_labels : Dict String → Dict String → Bool
  unfolding lookup
  has_labels [] labels = true
  has_labels ((key, v) ∷ wanted) labels = elim (lookup key labels) [
    | none ↦ false
    | some w ↦ v == w && has_labels wanted labels
  ]

  unfoldable pub in_namespace : Option String → Meta → Bool
  in_namespace none m = true
  in_namespace (some ns) m = m.namespace == ns

  unfoldable pub selected : Option String → Dict String → List (Object k) → List (Object k)
  unfolding has_labels in_namespace
  selected ns ls [] = []
  selected ns ls (o ∷ os) =
      let rest = selected ns ls os in
      let m = meta_of k o in if in_namespace ns m && has_labels ls m.labels then o ∷ rest else rest

  -- the objects that are found under their keys
  unfoldable pub distinct : List (Object k) → List (Object k)
  unfolding remove
  distinct [] = []
  distinct (o ∷ os) = o ∷ remove (key_of (meta_of k o)) (distinct os)

  unfoldable pub list : Option String → Dict String → Exec Memory (List (Object k))
  unfolding selected distinct
  list ns ls m = (ok (selected ns ls (distinct (objects k m))), m)

  unfoldable pub create : Object k → Exec Memory (Object k)
  unfolding find put
  create o m = elim (find (key_of (meta_of k o)) (objects k m)) [
    | none ↦ (ok o, with_objects k (put o (objects k m)) m)
    | some old ↦ (err already_exists, m)
  ]

  unfoldable pub delete : Object k → Option ℕ → Exec Memory (Unit {0})
  unfolding find remove
  delete o grace m = elim (find (key_of (meta_of k o)) (objects k m)) [
    | none ↦ (err not_found, m)
    | some old ↦ (ok tt, with_objects k (remove (key_of (meta_of k o)) (objects k m)) m)
  ]

  -- A mutation may not rename the object.
  unfoldable pub store_mutated : Object k → Reply (Object k) → Exec Memory String
  unfolding put same_key
  store_mutated o (err e) m = (err e, m)
  store_mutated o (ok new) m =
      if same_key (key_of (meta_of k new)) (key_of (meta_of k o))
      then (ok "updated", with_objects k (put new (objects k m)) m)
      else (err (failed "MutateFn cannot mutate object name and/or object namespace"), m)

  unfoldable pub create_or_update : Object k → (Object k → Reply (Object k)) → Exec Memory String
  unfolding find store_mutated
  create_or_update o f m = elim (find (key_of (meta_of k o)) (objects k m)) [
    | none ↦ store_mutated o (f o) m
    | some old ↦ store_mutated o (f old) m
  ]

  unfoldable pub replace : Object k → Exec Memory (Object k)
  unfolding find put
  replace o m = elim (find (key_of (meta_of k o)) (objects k m)) [
    | none ↦ (err not_found, m)
    | some old ↦ (ok o, with_objects k (put o (objects k m)) m)
  ]

  -- a change of the stored object
  unfoldable pub rewrite : (Object k → Object k) → Key → Exec Memory (Object k)
  unfolding find put
  rewrite f key m = elim (find key (objects k m)) [
    | none ↦ (err not_found, m)
    | some old ↦ (ok (f old), with_objects k (put (f old) (objects k m)) m)
  ]

-- A deleted object is removed with its last finalizer.
unfoldable pub is_finalized : Meta → Bool
is_finalized m = elim m.finalizers [ [] ↦ m.deleting | f ∷ fs ↦ false ]

-- An update of a game server leaves its status.
unfoldable pub update_server : GameServer → Exec Memory GameServer
unfolding find put remove is_finalized
update_server o m = elim (find game_servers (key_of o.meta) m.stored_game_servers) [
  | none ↦ (err not_found, m)
  | some old ↦
      let new : GameServer = record o { status = old.status } in
      if is_finalized o.meta
      then (
        ok new,
        record m {
          stored_game_servers = remove game_servers (key_of o.meta) m.stored_game_servers;
        },
      )
      else (ok new, record m { stored_game_servers = put game_servers new m.stored_game_servers })
]

unfoldable pub update : (k : Kind) → Object k → Exec Memory (Object k)
unfolding update_server replace
update game_servers o = update_server o
update pods o = replace pods o
update k o = replace k o

unfoldable pub update_status : (k : Kind) → Object k → Exec Memory (Object k)
unfolding rewrite replace
update_status game_servers o =
    rewrite game_servers (λ old. record old { status = o.status }) (key_of o.meta)
update_status backups o = rewrite backups (λ old. record old { status = o.status }) (key_of o.meta)
update_status pods o = replace pods o
update_status k o = replace k o

unfoldable pub has_text : String → List String → Bool
has_text s [] = false
has_text s (t ∷ ts) = if t == s then true else has_text s ts

unfoldable pub without_text : String → List String → List String
without_text s [] = []
without_text s (t ∷ ts) = let rest = without_text s ts in if t == s then rest else t ∷ rest

abbrev pub memory : Platform Memory
memory = record {
  get = get;
  list = list;
  create = create;
  update = update;
  update_status = update_status;
  delete = delete;
  create_or_update = create_or_update;
  contains_finalizer = λ m f. has_text f m.finalizers;
  add_finalizer = λ m f. record m { finalizers = f ∷ m.finalizers };
  remove_finalizer = λ m f. record m { finalizers = without_text f m.finalizers };
  parse_quantity = λ s. some (record { text = s });
  must_parse = λ s. record { text = s };
  set_controller_reference = λ gs m. ok (record m { controller = some gs.meta.name });
  set_status_condition = set_status_condition;
  event = λ m type reason message s. s;
  gauge_reset = λ s. s;
  gauge_set = λ state game n s. s;
}

abbrev pub empty : Memory
empty = record {
  stored_game_servers = [];
  stored_pods = [];
  stored_pvcs = [];
  stored_namespaces = [];
  stored_quotas = [];
  stored_limit_ranges = [];
  stored_network_policies = [];
  stored_config_maps = [];
  stored_secrets = [];
  stored_backups = [];
  storage_client = none;
}
