-- ===== src/GroupType/Scope.antt =====
-- Scope and category share one field.
use go_adldap.Base.{ℕ, ◌<◌, ◌^◌, ◌≡◌, refl, arith, some}
use go_adldap.GroupType.Wire.{parse_group_type-group_type_string}
use go_adldap.GroupType.{
  group_type_string, parse_group_type, GroupScope, domain_local, universal, global, GroupCategory,
  distribution, security, scope_and_category, scope_bit, group_type_value,
}

scope_and_category-group_type_value :
    (s : GroupScope) (c : GroupCategory) → scope_and_category (group_type_value s c) ≡ (s, c)
unfolding scope_and_category group_type_value scope_bit
scope_and_category-group_type_value domain_local distribution = refl
scope_and_category-group_type_value universal distribution = refl
scope_and_category-group_type_value global distribution = refl
scope_and_category-group_type_value domain_local security = refl
scope_and_category-group_type_value universal security = refl
scope_and_category-group_type_value global security = refl

group_type_value-lt : (s : GroupScope) (c : GroupCategory) → group_type_value s c < 2 ^ 32
unfolding group_type_value scope_bit
group_type_value-lt domain_local distribution = omega arith
group_type_value-lt universal distribution = omega arith
group_type_value-lt global distribution = omega arith
group_type_value-lt domain_local security = omega arith
group_type_value-lt universal security = omega arith
group_type_value-lt global security = omega arith

-- The text of the groupType built from a scope and a category is read back as a value from which
-- both are derived again.
pub scope_and_category-parse_group_type :
    (s : GroupScope) (c : GroupCategory)
    → (v : ℕ) × (parse_group_type (group_type_string (group_type_value s c)) ≡ some v)
      × (scope_and_category v ≡ (s, c))
scope_and_category-parse_group_type s c = (
  group_type_value s c,
  parse_group_type-group_type_string _ (group_type_value-lt s c),
  scope_and_category-group_type_value s c,
)
