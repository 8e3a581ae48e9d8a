-- ===== src/GroupType/Tests.antt =====
-- A global security group.
use go_adldap.Base.{ℕ, ◌≡◌, some}
use go_adldap.GroupType.{
  global, security, scope_and_category, group_type_value, group_type_value, group_type_string,
  parse_group_type,
}
use go_adldap.GroupType.Scope.{scope_and_category-parse_group_type}

scope_and_category-parse_group_type_example :
    (v : ℕ) × (parse_group_type (group_type_string (group_type_value global security)) ≡ some v)
    × (scope_and_category v ≡ (global, security))
scope_and_category-parse_group_type_example = scope_and_category-parse_group_type global security
