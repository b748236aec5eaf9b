-- ===== src/Rbac.antt =====
-- internal/security/access/rbac.go: roles with permissions, policies, and the two checks. Names are
-- texts and the maps are association lists; a method is a function of the manager. A stored role is
-- not shared with the caller who gave or got it.
pub mod Checks
pub mod Defaults
mod Examples
use sssonector.Prelude.{
  Bool, List, String, [], delete, false, if◌then◌else◌, insert, lookup, none, some, string_eq, true,
  ℕ, ◌&&◌, ◌*◌, ◌++◌, ◌==◌, ◌||◌, ◌∷◌,
}

pub record Permission : Type 0 where
  pub name : String
  pub description : String
  pub resource : String
  pub action : String

pub record Role : Type 0 where
  pub name : String
  pub permissions : List Permission
  pub created_at : ℕ
  pub updated_at : ℕ

-- `Conditions` is stored and never read.
pub record Policy : Type 0 where
  pub name : String
  pub description : String
  pub roles : List String
  pub resources : List String
  pub actions : List String
  pub created_at : ℕ
  pub updated_at : ℕ

pub record RbacManager : Type 0 where
  pub roles : List (String × Role)
  pub policies : List (String × Policy)

pub data RbacError : Type 0 where
  role_exists role_not_found policy_exists policy_not_found permission_exists permission_not_found :
      RbacError

pub data Result (A : Type 0) : Type 0 where
  ok : A → Result A
  err : RbacError → Result A

unfoldable pub new_rbac_manager : RbacManager
new_rbac_manager = record { roles = []; policies = [] }

unfoldable pub add_role : RbacManager → Role → ℕ → Result RbacManager
add_role m role now = elim (lookup role.name m.roles) [
  | some _ ↦ err role_exists
  | none ↦ ok (record m {
    roles = insert role.name (record role { created_at = now; updated_at = now }) m.roles;
  })
]

unfoldable pub get_role : RbacManager → String → Result Role
get_role m name = elim (lookup name m.roles) [ none ↦ err role_not_found | some role ↦ ok role ]

unfoldable pub update_role : RbacManager → Role → ℕ → Result RbacManager
update_role m role now = elim (lookup role.name m.roles) [
  | none ↦ err role_not_found
  | some _ ↦ ok (record m { roles = insert role.name (record role { updated_at = now }) m.roles })
]

unfoldable pub delete_role : RbacManager → String → Result RbacManager
delete_role m name = elim (lookup name m.roles) [
  | none ↦ err role_not_found
  | some _ ↦ ok (record m { roles = delete name m.roles })
]

unfoldable pub add_policy : RbacManager → Policy → ℕ → Result RbacManager
add_policy m policy now = elim (lookup policy.name m.policies) [
  | some _ ↦ err policy_exists
  | none ↦ ok (record m {
    policies = insert policy.name (record policy { created_at = now; updated_at = now }) m.policies;
  })
]

unfoldable pub update_policy : RbacManager → Policy → ℕ → Result RbacManager
update_policy m policy now = elim (lookup policy.name m.policies) [
  | none ↦ err policy_not_found
  | some _ ↦
      ok
        (record m { policies = insert policy.name (record policy { updated_at = now }) m.policies })
]

unfoldable pub delete_policy : RbacManager → String → Result RbacManager
delete_policy m name = elim (lookup name m.policies) [
  | none ↦ err policy_not_found
  | some _ ↦ ok (record m { policies = delete name m.policies })
]

-- The loop that both `CheckPermission` and `AddPermissionToRole` run.
unfoldable pub has_permission : List Permission → String → String → Bool
has_permission [] resource action = false
has_permission (p ∷ ps) resource action =
    (p.resource == resource && p.action == action) || has_permission ps resource action

unfoldable pub check_permission : RbacManager → String → String → String → Result Bool
unfolding has_permission
check_permission m role_name resource action = elim (lookup role_name m.roles) [
  | none ↦ err role_not_found
  | some role ↦ ok (has_permission role.permissions resource action)
]

-- The inner loops of `CheckPolicy`: some entry is the wanted one, or "*" where that is allowed.
unfoldable pub names_role : List String → String → Bool
names_role [] role_name = false
names_role (r ∷ rs) role_name = r == role_name || names_role rs role_name

unfoldable pub allows : List String → String → Bool
allows [] wanted = false
allows (x ∷ xs) wanted = (x == wanted || x == "*") || allows xs wanted

unfoldable pub policies_allow : List (String × Policy) → String → String → String → Bool
unfolding names_role allows
policies_allow [] role_name resource action = false
policies_allow ((_, p) ∷ ps) role_name resource action =
    (names_role p.roles role_name && (allows p.resources resource && allows p.actions action))
    || policies_allow ps role_name resource action

unfoldable pub check_policy : RbacManager → String → String → String → Result Bool
unfolding check_permission policies_allow
check_policy m role_name resource action = elim (check_permission m role_name resource action) [
  | err e ↦ err e
  | ok true ↦ ok true
  | ok false ↦ ok (policies_allow m.policies role_name resource action)
]

unfoldable pub get_role_permissions : RbacManager → String → Result (List Permission)
get_role_permissions m role_name = elim (lookup role_name m.roles) [
  | none ↦ err role_not_found
  | some role ↦ ok role.permissions
]

unfoldable pub add_permission_to_role : RbacManager → String → Permission → ℕ → Result RbacManager
unfolding has_permission
add_permission_to_role m role_name p now = elim (lookup role_name m.roles) [
  | none ↦ err role_not_found
  | some role ↦
      if has_permission role.permissions p.resource p.action
      then err permission_exists
      else ok (record m {
        roles =
            insert role_name
              (record role { permissions = role.permissions ++ (p ∷ []); updated_at = now })
              m.roles;
      })
]

unfoldable pub without_permission : List Permission → String → String → List Permission
without_permission [] resource action = []
without_permission (p ∷ ps) resource action =
    let rest = without_permission ps resource action in
    if p.resource == resource && p.action == action then rest else p ∷ rest

unfoldable pub remove_permission_from_role :
    RbacManager → String → String → String → ℕ → Result RbacManager
unfolding has_permission without_permission
remove_permission_from_role m role_name resource action now = elim (lookup role_name m.roles) [
  | none ↦ err role_not_found
  | some role ↦
      if has_permission role.permissions resource action
      then ok (record m {
        roles =
            insert role_name
              (record role {
                permissions = without_permission role.permissions resource action;
                updated_at = now;
              })
              m.roles;
      })
      else err permission_not_found
]
