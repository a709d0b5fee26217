-- ===== src/Kube/Meta.antt =====
-- The parts of Kubernetes' object metadata and status conditions that the program uses.
use kterodactyl.Prelude.{
  ℕ, String, ◌==◌, Bool, false, Option, none, some, List, [], ◌∷◌, Dict, if◌then◌else◌,
}
use kterodactyl.Kube.Errors.{Piece}

-- `types.NamespacedName`
pub record Key : Type 0 where
  pub namespace : String
  pub name : String

-- `metav1.ObjectMeta`. `deleting` says that the deletion timestamp is set; `controller` is the name
-- of the object in the controller reference.
pub record Meta : Type 0 where
  pub name : String
  pub namespace : String
  pub labels : Dict String
  pub annotations : Dict String
  pub finalizers : List String
  pub generation : ℕ
  pub creation_timestamp : Option ℕ
  pub deleting : Bool
  pub controller : Option String

abbrev pub key_of : Meta → Key
key_of m = record { namespace = m.namespace; name = m.name }

-- an object literal with a name, a namespace, labels and annotations
abbrev pub new_meta : String → String → Dict String → Dict String → Meta
new_meta name namespace labels annotations = record {
  name = name;
  namespace = namespace;
  labels = labels;
  annotations = annotations;
  finalizers = [];
  generation = 0;
  creation_timestamp = none;
  deleting = false;
  controller = none;
}

-- `metav1.ConditionStatus`
pub data ConditionStatus : Type 0 where
  is_true is_false is_unknown : ConditionStatus

-- `metav1.Condition`
pub record Condition : Type 0 where
  pub type : String
  pub status : ConditionStatus
  pub reason : String
  pub message : List Piece
  pub observed_generation : ℕ
  pub last_transition_time : ℕ

-- the condition of a type
unfoldable pub find_condition : String → List Condition → Option Condition
find_condition t [] = none
find_condition t (c ∷ cs) = if c.type == t then some c else find_condition t cs
