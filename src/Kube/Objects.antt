-- ===== src/Kube/Objects.antt =====
-- The kinds of objects: `GameServer` of api/v1alpha1/gameserver_types.go with its parts, and of the
-- built-in kinds the fields that the program sets.
mod Backups
unfoldable pub use Backups.*
use kterodactyl.Prelude.{ℕ, String, Bool, Option, List, Dict}
use kterodactyl.Lifecycle.{GameServerState}
use kterodactyl.Kube.Meta.{Meta, Condition}

-- `resource.Quantity`, which the program only parses and copies: the text that it stands for.
pub record Quantity : Type 0 where
  pub text : String

pub record ResourceRequirements : Type 0 where
  pub requests : Dict Quantity
  pub limits : Dict Quantity

pub record GameServerPort : Type 0 where
  pub name : String
  pub container_port : ℕ
  pub protocol : String

pub record GameServerSpec : Type 0 where
  pub game_type : String
  pub image : String
  pub resources : ResourceRequirements
  pub ports : List GameServerPort
  pub parameters : Dict String

pub record GameServerStatusPort : Type 0 where
  pub name : String
  pub port : ℕ
  pub protocol : String

pub record GameServerStatus : Type 0 where
  pub state : GameServerState
  pub address : String
  pub ports : List GameServerStatusPort
  pub conditions : List Condition

pub record GameServer : Type 0 where
  pub meta : Meta
  pub spec : GameServerSpec
  pub status : GameServerStatus

pub data RestartPolicy : Type 0 where
  policy_unset always on_failure never : RestartPolicy

pub record VolumeMount : Type 0 where
  pub name : String
  pub mount_path : String

-- a volume from a claim
pub record Volume : Type 0 where
  pub name : String
  pub claim_name : String

-- `ports` holds the container ports, which copy the ports of the game server.
pub record Container : Type 0 where
  pub name : String
  pub image : String
  pub ports : List GameServerPort
  pub resources : ResourceRequirements
  pub env : Dict String
  pub volume_mounts : List VolumeMount

pub record PodSpec : Type 0 where
  pub containers : List Container
  pub restart_policy : RestartPolicy
  pub volumes : List Volume

pub data PodPhase : Type 0 where
  phase_unset pod_pending pod_running pod_succeeded pod_failed pod_unknown : PodPhase

-- `container_statuses` holds the `Ready` field of each container status.
pub record PodStatus : Type 0 where
  pub phase : PodPhase
  pub container_statuses : List Bool
  pub pod_ip : String
  pub reason : String

pub record Pod : Type 0 where
  pub meta : Meta
  pub spec : PodSpec
  pub status : PodStatus

pub data AccessMode : Type 0 where
  read_write_once : AccessMode

-- `corev1.PersistentVolumeClaim`
pub record Pvc : Type 0 where
  pub meta : Meta
  pub access_modes : List AccessMode
  pub requests : Dict Quantity
  pub storage_class_name : Option String

pub record Namespace : Type 0 where
  pub meta : Meta

pub record ResourceQuota : Type 0 where
  pub meta : Meta
  pub hard : Dict Quantity

pub record LimitRangeItem : Type 0 where
  pub type : String
  pub default : Dict Quantity
  pub default_request : Dict Quantity
  pub max : Dict Quantity
  pub min : Dict Quantity

pub record LimitRange : Type 0 where
  pub meta : Meta
  pub limits : List LimitRangeItem

-- A peer of a policy rule: every pod of the policy's own namespace, every pod of the namespaces
-- with the labels, or a block of addresses less some.
pub data Peer : Type 0 where
  same_namespace : Peer
  namespaces : Dict String → Peer
  ip_block : String → List String → Peer

pub record PolicyPort : Type 0 where
  pub protocol : String
  pub port : ℕ

pub record PolicyRule : Type 0 where
  pub peers : List Peer
  pub ports : List PolicyPort

pub data PolicyType : Type 0 where
  policy_ingress policy_egress : PolicyType

-- The pod selector is the empty one, which selects every pod of the namespace.
pub record NetworkPolicy : Type 0 where
  pub meta : Meta
  pub policy_types : List PolicyType
  pub ingress : List PolicyRule
  pub egress : List PolicyRule

pub record ConfigMap : Type 0 where
  pub meta : Meta
  pub entries : Dict String

-- `corev1.Secret`, its byte values as texts
pub record Secret : Type 0 where
  pub meta : Meta
  pub entries : Dict String

pub data Kind : Type 0 where
  game_servers pods pvcs all_namespaces quotas limit_ranges network_policies config_maps secrets
        backups :
      Kind

abbrev pub Object : Kind → Type 0
Object game_servers = GameServer
Object pods = Pod
Object pvcs = Pvc
Object all_namespaces = Namespace
Object quotas = ResourceQuota
Object limit_ranges = LimitRange
Object network_policies = NetworkPolicy
Object config_maps = ConfigMap
Object secrets = Secret
Object backups = Backup

abbrev pub meta_of : (k : Kind) → Object k → Meta
meta_of game_servers o = o.meta
meta_of pods o = o.meta
meta_of pvcs o = o.meta
meta_of all_namespaces o = o.meta
meta_of quotas o = o.meta
meta_of limit_ranges o = o.meta
meta_of network_policies o = o.meta
meta_of config_maps o = o.meta
meta_of secrets o = o.meta
meta_of backups o = o.meta
