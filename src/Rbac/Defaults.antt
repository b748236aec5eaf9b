-- ===== src/Rbac/Defaults.antt =====
-- The default roles and policies of rbac.go, and what they grant.
use sssonector.Prelude.{
  Bool, List, String, [], arith, eq_iff, insert, lookup, string_eq, ℕ, ◌&&◌, ◌==◌, ◌||◌, ◌∷◌, ◌≡◌,
}
use sssonector.Rbac.{
  Permission, Policy, RbacManager, Result, Role, add_policy, add_role, check_policy, err,
  new_rbac_manager, ok,
}

abbrev permission : String → String → String → String → Permission
permission name description resource action = record {
  name = name;
  description = description;
  resource = resource;
  action = action;
}

abbrev default_role : ℕ → String → List Permission → Role
default_role now name permissions = record {
  name = name;
  permissions = permissions;
  created_at = now;
  updated_at = now;
}

abbrev admin_permissions : List Permission
admin_permissions =
    permission "full_access" "Full system access" "*" "*"
    ∷ permission "manage_users" "Manage user accounts" "users" "*"
    ∷ permission "manage_certificates" "Manage certificates" "certificates" "*"
    ∷ permission "manage_config" "Manage configuration" "config" "*"
    ∷ permission "view_audit" "View audit logs" "audit" "read"
    ∷ []

abbrev operator_permissions : List Permission
operator_permissions =
    permission "manage_tunnels" "Manage tunnel connections" "tunnels" "*"
    ∷ permission "view_status" "View system status" "status" "read"
    ∷ permission "view_metrics" "View system metrics" "metrics" "read"
    ∷ permission "restart_services" "Restart services" "services" "restart"
    ∷ permission "view_config" "View configuration" "config" "read"
    ∷ []

abbrev monitor_permissions : List Permission
monitor_permissions =
    permission "view_status" "View system status" "status" "read"
    ∷ permission "view_metrics" "View system metrics" "metrics" "read"
    ∷ permission "view_logs" "View system logs" "logs" "read"
    ∷ permission "view_audit" "View audit logs" "audit" "read"
    ∷ []

abbrev client_permissions : List Permission
client_permissions =
    permission "connect_tunnel" "Connect to tunnel" "tunnels" "connect"
    ∷ permission "view_status" "View client status" "status" "read"
    ∷ permission "view_metrics" "View client metrics" "metrics" "read"
    ∷ []

unfoldable pub default_roles : ℕ → List Role
default_roles now =
    default_role now "admin" admin_permissions
    ∷ default_role now "operator" operator_permissions
    ∷ default_role now "monitor" monitor_permissions
    ∷ default_role now "client" client_permissions
    ∷ []

unfoldable pub default_policies : ℕ → List Policy
default_policies now =
    record {
      name = "tunnel_management";
      description = "Policy for managing tunnel connections";
      roles = "admin" ∷ "operator" ∷ [];
      resources = "tunnels" ∷ "connections" ∷ [];
      actions = "create" ∷ "read" ∷ "update" ∷ "delete" ∷ "restart" ∷ [];
      created_at = now;
      updated_at = now;
    }
    ∷ record {
      name = "certificate_management";
      description = "Policy for managing certificates";
      roles = "admin" ∷ [];
      resources = "certificates" ∷ "keys" ∷ [];
      actions = "create" ∷ "read" ∷ "update" ∷ "delete" ∷ "revoke" ∷ [];
      created_at = now;
      updated_at = now;
    }
    ∷ record {
      name = "monitoring_access";
      description = "Policy for accessing monitoring data";
      roles = "admin" ∷ "operator" ∷ "monitor" ∷ [];
      resources = "status" ∷ "metrics" ∷ "logs" ∷ "audit" ∷ [];
      actions = "read" ∷ [];
      created_at = now;
      updated_at = now;
    }
    ∷ record {
      name = "configuration_management";
      description = "Policy for managing system configuration";
      roles = "admin" ∷ [];
      resources = "config" ∷ [];
      actions = "create" ∷ "read" ∷ "update" ∷ "delete" ∷ [];
      created_at = now;
      updated_at = now;
    }
    ∷ []

load_roles : List Role → RbacManager → ℕ → Result RbacManager
unfolding add_role
load_roles [] m now = ok m
load_roles (r ∷ rs) m now = elim (add_role m r now) [ err e ↦ err e | ok m' ↦ load_roles rs m' now ]

load_policies : List Policy → RbacManager → ℕ → Result RbacManager
unfolding add_policy
load_policies [] m now = ok m
load_policies (p ∷ ps) m now = elim (add_policy m p now) [
  | err e ↦ err e
  | ok m' ↦ load_policies ps m' now
]

-- A manager to which every default role and policy has been added.
unfoldable pub with_defaults : ℕ → Result RbacManager
unfolding load_roles load_policies default_roles default_policies new_rbac_manager
with_defaults now = elim (load_roles (default_roles now) new_rbac_manager now) [
  | err e ↦ err e
  | ok m ↦ load_policies (default_policies now) m now
]

unfoldable pub defaults_check : ℕ → String → String → String → Result Bool
unfolding with_defaults check_policy
defaults_check now role resource action = elim (with_defaults now) [
  | err e ↦ err e
  | ok m ↦ check_policy m role resource action
]

-- "*" in a permission is no wildcard: with the default roles and policies, an administrator, who has
-- the permissions for every action on everything and on users, is granted no action on users but
-- the one that is spelled "*".
pub admin_users :
    (now : ℕ) (action : String) → defaults_check now "admin" "users" action ≡ ok (action == "*")
unfolding defaults_check lookup insert
admin_users now action = ground (arith, eq_iff "*" action, eq_iff action "*")

-- With the defaults, a monitor is granted exactly the reading of the status, the metrics, the logs
-- and the audit.
pub monitor_reads :
    (now : ℕ) (resource action : String)
    → defaults_check now "monitor" resource action
      ≡ ok (
          action == "read"
          && (resource == "status"
              || resource == "metrics"
              || resource == "logs"
              || resource == "audit"))
unfolding defaults_check lookup insert
monitor_reads now resource action = ground (
  arith,
  eq_iff "read" action,
  eq_iff action "read",
  eq_iff "status" resource,
  eq_iff resource "status",
  eq_iff "metrics" resource,
  eq_iff resource "metrics",
  eq_iff "logs" resource,
  eq_iff resource "logs",
  eq_iff "audit" resource,
  eq_iff resource "audit",
)
