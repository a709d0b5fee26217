-- ===== src/Controller/Namespaces.antt =====
-- `ensureUserNamespace` of internal/controller/gameserver_controller.go: the namespace of a user,
-- with its quota, its limits and its network policy.
use Prim.Native.String.{◌++◌}
use kterodactyl.Prelude.{String, ◌==◌, [], ◌∷◌, insert, if◌then◌else◌}
use kterodactyl.Labels.{label_user, label_managed_by_kterodactyl, managed_by_value, user_namespace}
use kterodactyl.Kube.Errors.{Reply, ok}
use kterodactyl.Kube.Meta.{new_meta}
use kterodactyl.Kube.Objects.{
  Namespace, all_namespaces, ResourceQuota, quotas, LimitRange, limit_ranges, same_namespace,
  namespaces, ip_block, PolicyRule, policy_ingress, policy_egress, NetworkPolicy, network_policies,
}
use kterodactyl.Kube.Exec.{Exec, pure, wrapping, ◌>>◌}
use kterodactyl.Kube.Platform.{Platform}
use kterodactyl.Controller.Config.{AdminConfig, default_operator_namespace}

-- `operatorNs`
unfoldable pub operator_ns : String → String
operator_ns configured = if configured == "" then default_operator_namespace else configured

unfoldable pub mutate_namespace : String → Namespace → Reply Namespace
unfolding insert
mutate_namespace username ns = ok (record ns {
  meta = record (ns.meta) {
    labels =
        insert label_user username
          (insert label_managed_by_kterodactyl managed_by_value ns.meta.labels);
  };
})

unfoldable pub mutate_quota : AdminConfig → ResourceQuota → Reply ResourceQuota
mutate_quota cfg quota = ok (record quota {
  hard =
      ("requests.cpu", cfg.quota_cpu_requests)
      ∷ ("requests.memory", cfg.quota_memory_requests)
      ∷ ("limits.cpu", cfg.quota_cpu_limits)
      ∷ ("limits.memory", cfg.quota_memory_limits)
      ∷ ("pods", cfg.quota_pods)
      ∷ ("persistentvolumeclaims", cfg.quota_pvcs)
      ∷ ("requests.storage", cfg.quota_storage)
      ∷ [];
})

unfoldable pub mutate_limit_range : AdminConfig → LimitRange → Reply LimitRange
mutate_limit_range cfg lr = ok (record lr {
  limits =
      (record {
        type = "Container";
        default = ("cpu", cfg.default_cpu) ∷ ("memory", cfg.default_memory) ∷ [];
        default_request =
            ("cpu", cfg.default_request_cpu) ∷ ("memory", cfg.default_request_memory) ∷ [];
        max = ("cpu", cfg.max_cpu) ∷ ("memory", cfg.max_memory) ∷ [];
        min = ("cpu", cfg.min_cpu) ∷ ("memory", cfg.min_memory) ∷ [];
      })
      ∷ [];
})

abbrev pub namespace_named : String → PolicyRule
namespace_named name = record {
  peers = namespaces (("kubernetes.io/metadata.name", name) ∷ []) ∷ [];
  ports = [];
}

unfoldable pub mutate_network_policy : String → AdminConfig → NetworkPolicy → Reply NetworkPolicy
unfolding operator_ns
mutate_network_policy configured cfg np = ok (record np {
  policy_types = policy_ingress ∷ policy_egress ∷ [];
  ingress =
      (record { peers = same_namespace ∷ []; ports = [] })
      ∷ namespace_named (operator_ns configured)
      ∷ namespace_named cfg.gateway_controller_namespace
      ∷ [];
  egress =
      (record { peers = same_namespace ∷ []; ports = [] })
      ∷ (record {
        peers = namespaces (("kubernetes.io/metadata.name", "kube-system") ∷ []) ∷ [];
        ports =
            (record { protocol = "TCP"; port = 53 })
            ∷ (record { protocol = "UDP"; port = 53 })
            ∷ [];
      })
      ∷ (record {
        peers = ip_block "0.0.0.0/0" ("10.0.0.0/8" ∷ "172.16.0.0/12" ∷ "192.168.0.0/16" ∷ []) ∷ [];
        ports = [];
      })
      ∷ [];
})

module _ {S : Type 0} (p : Platform S) where
  unfoldable pub ensure_resource_quota : String → AdminConfig → Exec S String
  unfolding mutate_quota
  ensure_resource_quota namespace cfg =
      p.create_or_update quotas (record { meta = new_meta "user-quota" namespace [] []; hard = [] })
        (mutate_quota cfg)

  unfoldable pub ensure_limit_range : String → AdminConfig → Exec S String
  unfolding mutate_limit_range
  ensure_limit_range namespace cfg =
      p.create_or_update limit_ranges
        (record { meta = new_meta "gameserver-limits" namespace [] []; limits = [] })
        (mutate_limit_range cfg)

  unfoldable pub ensure_network_policy : String → String → AdminConfig → Exec S String
  unfolding mutate_network_policy
  ensure_network_policy configured namespace cfg =
      p.create_or_update network_policies
        (record {
          meta = new_meta "deny-cross-namespace" namespace [] [];
          policy_types = [];
          ingress = [];
          egress = [];
        })
        (mutate_network_policy configured cfg)

  unfoldable pub ensure_user_namespace : String → String → AdminConfig → Exec S (Unit {0})
  unfolding user_namespace mutate_namespace ensure_resource_quota ensure_limit_range
      ensure_network_policy
  ensure_user_namespace configured username cfg = do
    let namespace_name = user_namespace username
    wrapping ("failed to create/update namespace " ++ namespace_name) (
        p.create_or_update all_namespaces (record { meta = new_meta namespace_name "" [] [] })
          (mutate_namespace username))
    wrapping ("failed to ensure ResourceQuota in " ++ namespace_name)
        (ensure_resource_quota namespace_name cfg)
    wrapping ("failed to ensure LimitRange in " ++ namespace_name)
        (ensure_limit_range namespace_name cfg)
    wrapping ("failed to ensure NetworkPolicy in " ++ namespace_name)
        (ensure_network_policy configured namespace_name cfg)
    pure tt
