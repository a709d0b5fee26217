-- ===== src/Controller/Defaults.antt =====
-- `LoadAdminConfig`: which fields a configuration always has, and when there is none.
use kterodactyl.Prelude.{
  ◌≡◌, ◌≢◌, refl, ◌⊎◌, inl, inr, String, Option-cases, false, Bool-cases, Dict, lookup, arith,
  eq_iff,
}
use kterodactyl.Kube.Errors.{Err, Reply, ok, err, is_not_found, wrap}
use kterodactyl.Kube.Meta.{Key}
use kterodactyl.Kube.Objects.{config_maps, ConfigMap}
use kterodactyl.Kube.Exec.{pure, fail, ◌>>=◌}
use kterodactyl.Kube.Platform.{Platform}
use kterodactyl.Controller.Config.{
  AdminConfig, admin_config_map_name, nonempty_field, default_admin_config, apply_entries,
  config_of, load_admin_config,
}

nonempty_field-nonempty :
    (key : String) (es : Dict String) (current : String)
    → current ≢ ""
    → nonempty_field key es current ≢ ""
unfolding nonempty_field
nonempty_field-nonempty key es current h = elim (Option-cases (lookup key es)) [
  | inl e ↦ rw (nonempty_field, e) h
  | inr (v, e) ↦ rw (nonempty_field, e) (ground (arith, eq_iff v "", h))
]

-- the fields that code relies on: the gateway, its namespaces, the bucket and its region
pub record IsComplete (cfg : AdminConfig) : Type 0 where
  pub gateway : cfg.gateway_name ≢ ""
  pub gateway_namespace : cfg.gateway_namespace ≢ ""
  pub controller_namespace : cfg.gateway_controller_namespace ≢ ""
  pub bucket : cfg.backup_s3_bucket ≢ ""
  pub region : cfg.backup_s3_region ≢ ""

apply_entries-IsComplete :
    {S : Type 0} (p : Platform S) (es : Dict String) (cfg : AdminConfig)
    → IsComplete cfg
    → IsComplete (apply_entries p es cfg)
unfolding apply_entries
apply_entries-IsComplete p es cfg k = record {
  gateway = nonempty_field-nonempty "gatewayName" es _ k.gateway;
  gateway_namespace = nonempty_field-nonempty "gatewayNamespace" es _ k.gateway_namespace;
  controller_namespace =
      nonempty_field-nonempty "gatewayControllerNamespace" es _ k.controller_namespace;
  bucket = nonempty_field-nonempty "backupS3Bucket" es _ k.bucket;
  region = nonempty_field-nonempty "backupS3Region" es _ k.region;
}

module _ {S : Type 0} (p : Platform S) where
  default-IsComplete : IsComplete (default_admin_config p)
  unfolding default_admin_config
  default-IsComplete = record {
    gateway = λ e. cc;
    gateway_namespace = λ e. cc;
    controller_namespace = λ e. cc;
    bucket = λ e. cc;
    region = λ e. cc;
  }

  config_of-IsComplete :
      (r : Reply ConfigMap) (s : S)
      → ((cfg : AdminConfig) × ((config_of p r s).0 ≡ ok cfg) × IsComplete cfg)
        ⊎ ((e : Err) × (r ≡ err e)
            × (is_not_found e ≡ false)
            × ((config_of p r s).0 ≡ err (wrap "failed to get admin config ConfigMap" e)))
  unfolding config_of pure fail
  config_of-IsComplete (ok cm) s =
      inl (_, refl, apply_entries-IsComplete p cm.entries _ default-IsComplete)
  config_of-IsComplete (err e) s = elim (Bool-cases (is_not_found e)) [
    | inl h ↦ inl (default_admin_config p, rw h refl, default-IsComplete)
    | inr h ↦ inr (e, refl, h, rw h refl)
  ]

  -- No entry of the ConfigMap makes the loading fail: it returns a configuration whose gateway,
  -- namespaces, bucket and region are not empty, or else the API failed, and not because the
  -- ConfigMap is missing.
  pub load_admin_config-IsComplete :
      (namespace : String) (s : S)
      → let key : Key = record { namespace = namespace; name = admin_config_map_name } in
        ((cfg : AdminConfig) × ((load_admin_config p namespace s).0 ≡ ok cfg) × IsComplete cfg)
        ⊎ ((e : Err) × ((p.get config_maps key s).0 ≡ err e)
            × (is_not_found e ≡ false)
            × ((load_admin_config p namespace s).0
                ≡ err (wrap "failed to get admin config ConfigMap" e)))
  unfolding load_admin_config ◌>>=◌
  load_admin_config-IsComplete namespace s = config_of-IsComplete _ _
