-- ===== src/Api/Manifests.antt =====
-- internal/manifest: a loaded manifest and the validation of parameters. The loading reads files
-- with libraries and is left out, and so is the raw schema; a compiled schema is its `Validate`.
use kterodactyl.Prelude.{String, Option, none, some, List, Dict}
use kterodactyl.Kube.Errors.{Reply, ok, or_wrap}
use kterodactyl.Kube.Objects.{GameServerPort, ResourceRequirements}

pub record GameManifest : Type 0 where
  pub name : String
  pub display_name : String
  pub image : String
  pub ports : List GameServerPort
  pub parameters : Dict String
  pub resources : ResourceRequirements
  pub mod_path : String
  pub backup_path : String
  pub compiled_schema : Option (Dict String → Reply (Unit {0}))

unfoldable pub validate_parameters : GameManifest → Dict String → Reply (Unit {0})
validate_parameters m params = elim m.compiled_schema [
  | none ↦ ok tt
  | some validate ↦ or_wrap "parameter validation failed" (validate params)
]
