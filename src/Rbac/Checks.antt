-- ===== src/Rbac/Checks.antt =====
-- What the changes of roles and policies do to the two checks.
use sssonector.Prelude.{
  Bool, List, Option-cases, String, [], arith, eq_iff, false, if◌then◌else◌, inl, inr, insert,
  lookup, lookup-delete, lookup-insert, none, refl, string_eq, true, ℕ, ◌&&◌, ◌++◌, ◌==◌, ◌||◌, ◌∷◌,
  ◌≡◌,
}
use sssonector.Rbac.{
  Permission, Policy, RbacManager, add_permission_to_role, add_policy, allows, check_permission,
  check_policy, delete_role, err, has_permission, names_role, ok, policies_allow,
  remove_permission_from_role, role_not_found, without_permission,
}

has_permission-append :
    (ps : List Permission) (p : Permission) (resource action : String)
    → has_permission (ps ++ (p ∷ [])) resource action
      ≡ (p.resource == resource && p.action == action) || has_permission ps resource action
unfolding has_permission
has_permission-append [] p resource action = refl
has_permission-append (q ∷ ps) p resource action =
    ground (arith, has_permission-append ps p resource action)

has_permission-without :
    (ps : List Permission) (r a resource action : String)
    → has_permission (without_permission ps r a) resource action
      ≡ (if r == resource && a == action then false else has_permission ps resource action)
unfolding has_permission without_permission
has_permission-without [] r a resource action = ground arith
has_permission-without (q ∷ ps) r a resource action = ground (
  arith,
  eq_iff r resource,
  eq_iff a action,
  eq_iff q.resource r,
  eq_iff q.resource resource,
  eq_iff q.action a,
  eq_iff q.action action,
  has_permission-without ps r a resource action,
)

-- A permission that is added to a role is granted to that role from then on, for exactly its resource
-- and action; every other check of every role answers as before, errors included.
pub check_permission-add :
    (m m' : RbacManager) (role_name : String) (p : Permission) (now : ℕ)
    (role resource action : String)
    → add_permission_to_role m role_name p now ≡ ok m'
    → check_permission m' role resource action ≡ (
        if role_name == role && (p.resource == resource && p.action == action)
        then ok true
        else check_permission m role resource action)
unfolding add_permission_to_role check_permission
check_permission-add m m' role_name p now role resource action h =
    elim (Option-cases (lookup role_name m.roles)) [
      | inl e ↦ ground arith
      | inr (r, e) ↦ ground (
        arith,
        eq_iff role_name role,
        lookup-insert role_name role
            (record r { permissions = r.permissions ++ (p ∷ []); updated_at = now }) m.roles,
        has_permission-append r.permissions p resource action,
      )
    ]

-- A permission that is removed from a role is refused to that role from then on; every other check
-- of every role answers as before.
pub check_permission-remove :
    (m m' : RbacManager) (role_name r a : String) (now : ℕ) (role resource action : String)
    → remove_permission_from_role m role_name r a now ≡ ok m'
    → check_permission m' role resource action ≡ (
        if role_name == role && (r == resource && a == action)
        then ok false
        else check_permission m role resource action)
unfolding remove_permission_from_role check_permission
check_permission-remove m m' role_name r a now role resource action h =
    elim (Option-cases (lookup role_name m.roles)) [
      | inl e ↦ ground arith
      | inr (q, e) ↦ ground (
        arith,
        eq_iff role_name role,
        lookup-insert role_name role
            (record q { permissions = without_permission q.permissions r a; updated_at = now })
            m.roles,
        has_permission-without q.permissions r a resource action,
      )
    ]

-- Once a role is deleted, both checks fail for it with the error that the role is not found, even
-- where a policy names the role.
pub delete_role-checks :
    (m m' : RbacManager) (name resource action : String)
    → delete_role m name ≡ ok m'
    → (check_permission m' name resource action ≡ err role_not_found)
      × (check_policy m' name resource action ≡ err role_not_found)
unfolding delete_role check_permission check_policy
delete_role-checks m m' name resource action h =
    ground (arith, eq_iff name name, lookup-delete name name m.roles)

policies_allow-insert :
    (ps : List (String × Policy)) (p : Policy) (role resource action : String)
    → lookup p.name ps ≡ none
    → policies_allow (insert p.name p ps) role resource action
      ≡ policies_allow ps role resource action
        || (names_role p.roles role && (allows p.resources resource && allows p.actions action))
unfolding policies_allow insert lookup
policies_allow-insert [] p role resource action h = ground arith
policies_allow-insert ((k, q) ∷ ps) p role resource action h =
    ground (arith, policies_allow-insert ps p role resource action)

-- A new policy grants exactly what it names: after it, a check of a known role is granted if it was
-- granted before or the policy names the role and, literally or by "*", the resource and the action.
pub check_policy-add_policy :
    (m m' : RbacManager) (p : Policy) (now : ℕ) (role resource action : String) (before : Bool)
    → add_policy m p now ≡ ok m'
    → check_policy m role resource action ≡ ok before
    → check_policy m' role resource action
      ≡ ok (
          before
          || (names_role p.roles role && (allows p.resources resource && allows p.actions action)))
unfolding add_policy check_policy
check_policy-add_policy m m' p now role resource action before h b =
    elim (Option-cases (lookup p.name m.policies)) [
      | inr (q, e) ↦ ground arith
      | inl e ↦ ground (
        arith,
        policies_allow-insert m.policies (record p { created_at = now; updated_at = now }) role
            resource action e,
      )
    ]
