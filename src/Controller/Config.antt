-- ===== src/Controller/Config.antt =====
-- AdminConfig of internal/controller/gameserver_controller.go: its defaults, and how the entries of
-- the ConfigMap override them.
use kterodactyl.Prelude.{
  ℤ, pos, atoi, parse_bool, String, ◌==◌, Bool, true, false, Option, none, some, Dict, lookup,
  if◌then◌else◌,
}
use kterodactyl.Kube.Errors.{Reply, ok, err, wrap, is_not_found}
use kterodactyl.Kube.Objects.{Quantity, ConfigMap, config_maps}
use kterodactyl.Kube.Exec.{Exec, pure, fail, attempt, ◌>>=◌}
use kterodactyl.Kube.Platform.{Platform}

pub record AdminConfig : Type 0 where
  pub max_servers_global : ℤ
  pub max_servers_per_user : ℤ
  pub quota_cpu_requests : Quantity
  pub quota_cpu_limits : Quantity
  pub quota_memory_requests : Quantity
  pub quota_memory_limits : Quantity
  pub quota_pods : Quantity
  pub quota_pvcs : Quantity
  pub quota_storage : Quantity
  pub default_cpu : Quantity
  pub default_memory : Quantity
  pub default_request_cpu : Quantity
  pub default_request_memory : Quantity
  pub max_cpu : Quantity
  pub max_memory : Quantity
  pub min_cpu : Quantity
  pub min_memory : Quantity
  pub base_domain : String
  pub gateway_name : String
  pub gateway_namespace : String
  pub gateway_controller_namespace : String
  pub jwt_expiration_hours : ℤ
  pub invite_expiration_hours : ℤ
  pub registration_enabled : Bool
  pub panel_url : String
  pub smtp_host : String
  pub smtp_port : ℤ
  pub smtp_username : String
  pub smtp_from : String
  pub mod_storage_size : Quantity
  pub mod_storage_class : String
  pub backup_s3_endpoint : String
  pub backup_s3_bucket : String
  pub backup_s3_region : String
  pub backup_s3_use_ssl : Bool
  pub backup_retention_count : ℤ

abbrev pub default_max_servers_global : ℤ
default_max_servers_global = pos 100

abbrev pub default_max_servers_per_user : ℤ
default_max_servers_per_user = pos 5

abbrev pub default_operator_namespace : String
default_operator_namespace = "kterodactyl-system"

abbrev pub admin_config_map_name : String
admin_config_map_name = "kterodactyl-admin-config"

-- `if v, ok := cm.Data[key]; ok { if n, err := parse(v); err == nil { target = n } }`
unfoldable pub parsed_field : {A : Type 0} → (String → Option A) → String → Dict String → A → A
unfolding lookup
parsed_field parse key entries current = elim (lookup key entries) [
  | none ↦ current
  | some v ↦ elim (parse v) [ none ↦ current | some n ↦ n ]
]

-- `if v, ok := cm.Data[key]; ok { target = v }`
unfoldable pub text_field : String → Dict String → String → String
unfolding lookup
text_field key entries current = elim (lookup key entries) [ none ↦ current | some v ↦ v ]

-- `if v, ok := cm.Data[key]; ok && v != "" { target = v }`
unfoldable pub nonempty_field : String → Dict String → String → String
unfolding lookup
nonempty_field key entries current = elim (lookup key entries) [
  | none ↦ current
  | some v ↦ if v == "" then current else v
]

module _ {S : Type 0} (p : Platform S) where
  unfoldable pub default_admin_config : AdminConfig
  default_admin_config = record {
    max_servers_global = default_max_servers_global;
    max_servers_per_user = default_max_servers_per_user;
    quota_cpu_requests = p.must_parse "4";
    quota_cpu_limits = p.must_parse "8";
    quota_memory_requests = p.must_parse "8Gi";
    quota_memory_limits = p.must_parse "16Gi";
    quota_pods = p.must_parse "5";
    quota_pvcs = p.must_parse "5";
    quota_storage = p.must_parse "50Gi";
    default_cpu = p.must_parse "2";
    default_memory = p.must_parse "4Gi";
    default_request_cpu = p.must_parse "500m";
    default_request_memory = p.must_parse "1Gi";
    max_cpu = p.must_parse "4";
    max_memory = p.must_parse "8Gi";
    min_cpu = p.must_parse "100m";
    min_memory = p.must_parse "128Mi";
    base_domain = "";
    gateway_name = "kterodactyl-gateway";
    gateway_namespace = "kterodactyl-system";
    gateway_controller_namespace = "envoy-gateway-system";
    jwt_expiration_hours = pos 24;
    invite_expiration_hours = pos 72;
    registration_enabled = true;
    panel_url = "";
    smtp_host = "";
    smtp_port = pos 587;
    smtp_username = "";
    smtp_from = "";
    mod_storage_size = p.must_parse "1Gi";
    mod_storage_class = "";
    backup_s3_endpoint = "";
    backup_s3_bucket = "kterodactyl-backups";
    backup_s3_region = "us-east-1";
    backup_s3_use_ssl = false;
    backup_retention_count = pos 5;
  }

  -- The assignments of `LoadAdminConfig` after the ConfigMap is read. Each writes a field of its own.
  unfoldable pub apply_entries : Dict String → AdminConfig → AdminConfig
  unfolding parsed_field text_field nonempty_field
  apply_entries es cfg = record {
    max_servers_global = parsed_field atoi "maxServersGlobal" es cfg.max_servers_global;
    max_servers_per_user = parsed_field atoi "maxServersPerUser" es cfg.max_servers_per_user;
    quota_cpu_requests = parsed_field p.parse_quantity "quotaCPURequests" es cfg.quota_cpu_requests;
    quota_cpu_limits = parsed_field p.parse_quantity "quotaCPULimits" es cfg.quota_cpu_limits;
    quota_memory_requests =
        parsed_field p.parse_quantity "quotaMemoryRequests" es cfg.quota_memory_requests;
    quota_memory_limits =
        parsed_field p.parse_quantity "quotaMemoryLimits" es cfg.quota_memory_limits;
    quota_pods = parsed_field p.parse_quantity "quotaPods" es cfg.quota_pods;
    quota_pvcs = parsed_field p.parse_quantity "quotaPVCs" es cfg.quota_pvcs;
    quota_storage = parsed_field p.parse_quantity "quotaStorage" es cfg.quota_storage;
    default_cpu = parsed_field p.parse_quantity "defaultCPU" es cfg.default_cpu;
    default_memory = parsed_field p.parse_quantity "defaultMemory" es cfg.default_memory;
    default_request_cpu =
        parsed_field p.parse_quantity "defaultRequestCPU" es cfg.default_request_cpu;
    default_request_memory =
        parsed_field p.parse_quantity "defaultRequestMemory" es cfg.default_request_memory;
    max_cpu = parsed_field p.parse_quantity "maxCPU" es cfg.max_cpu;
    max_memory = parsed_field p.parse_quantity "maxMemory" es cfg.max_memory;
    min_cpu = parsed_field p.parse_quantity "minCPU" es cfg.min_cpu;
    min_memory = parsed_field p.parse_quantity "minMemory" es cfg.min_memory;
    base_domain = text_field "baseDomain" es cfg.base_domain;
    gateway_name = nonempty_field "gatewayName" es cfg.gateway_name;
    gateway_namespace = nonempty_field "gatewayNamespace" es cfg.gateway_namespace;
    gateway_controller_namespace =
        nonempty_field "gatewayControllerNamespace" es cfg.gateway_controller_namespace;
    jwt_expiration_hours = parsed_field atoi "jwtExpirationHours" es cfg.jwt_expiration_hours;
    invite_expiration_hours =
        parsed_field atoi "inviteExpirationHours" es cfg.invite_expiration_hours;
    registration_enabled =
        parsed_field parse_bool "registrationEnabled" es cfg.registration_enabled;
    panel_url = text_field "panelURL" es cfg.panel_url;
    smtp_host = text_field "smtpHost" es cfg.smtp_host;
    smtp_port = parsed_field atoi "smtpPort" es cfg.smtp_port;
    smtp_username = text_field "smtpUsername" es cfg.smtp_username;
    smtp_from = text_field "smtpFrom" es cfg.smtp_from;
    mod_storage_size = parsed_field p.parse_quantity "modStorageSize" es cfg.mod_storage_size;
    mod_storage_class = text_field "modStorageClass" es cfg.mod_storage_class;
    backup_s3_endpoint = text_field "backupS3Endpoint" es cfg.backup_s3_endpoint;
    backup_s3_bucket = nonempty_field "backupS3Bucket" es cfg.backup_s3_bucket;
    backup_s3_region = nonempty_field "backupS3Region" es cfg.backup_s3_region;
    backup_s3_use_ssl = parsed_field parse_bool "backupS3UseSSL" es cfg.backup_s3_use_ssl;
    backup_retention_count = parsed_field atoi "backupRetentionCount" es cfg.backup_retention_count;
  }

  unfoldable pub config_of : Reply ConfigMap → Exec S AdminConfig
  unfolding default_admin_config apply_entries
  config_of (ok cm) = pure (apply_entries cm.entries default_admin_config)
  config_of (err e) =
      if is_not_found e
      then pure default_admin_config
      else fail (wrap "failed to get admin config ConfigMap" e)

  unfoldable pub load_admin_config : String → Exec S AdminConfig
  unfolding config_of
  load_admin_config namespace = do
    r ← attempt (p.get config_maps (record { namespace = namespace; name = admin_config_map_name }))
    config_of r
