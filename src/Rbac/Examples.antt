-- ===== src/Rbac/Examples.antt =====
-- A manager with two roles, and the theorems at concrete inputs.
use sssonector.Prelude.{[], insert, lookup, refl, string_eq, true, ◌∷◌, ◌≡◌}
use sssonector.Rbac.{
  Permission, Policy, RbacManager, Role, add_permission_to_role, check_permission, ok,
}
use sssonector.Rbac.Checks.{check_permission-add}

abbrev reads_logs : Permission
reads_logs = record { name = "logs"; description = ""; resource = "logs"; action = "read" }

abbrev guest : Role
guest = record { name = "guest"; permissions = []; created_at = 1; updated_at = 1 }

abbrev small : RbacManager
small = record { roles = ("guest", guest) ∷ []; policies = [] }

abbrev granted : RbacManager
granted = record {
  roles = ("guest", record guest { permissions = reads_logs ∷ []; updated_at = 5 }) ∷ [];
  policies = [];
}

abbrev guests_read : Policy
guests_read = record {
  name = "guests";
  description = "";
  roles = "guest" ∷ [];
  resources = "*" ∷ [];
  actions = "read" ∷ [];
  created_at = 7;
  updated_at = 7;
}

check_permission-add_example : check_permission granted "guest" "logs" "read" ≡ ok true
unfolding add_permission_to_role lookup insert
check_permission-add_example =
    check_permission-add small granted "guest" reads_logs 5 "guest" "logs" "read" refl
