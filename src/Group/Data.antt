-- ===== src/Group/Data.antt =====
-- group.go: a group, its specification, and what is written for the one to become the other.
use go_adldap.Base.{
  Bool, true, false, not, ◌||◌, Option, none, some, List, [], ◌∷◌, ◌++◌, if◌then◌else◌, is_empty,
}
use go_adldap.Base.Bytes.{Bytes}
use go_adldap.Base.Text.{codes}
use go_adldap.Sid.{sid_to_string}
use go_adldap.GroupType.{
  GroupScope, domain_local, universal, global, GroupCategory, distribution, security,
  group_type_value, group_type_string,
}
use go_adldap.Directory.{mod_replace, Attribute, Modification}
use go_adldap.Account.{sam_mods}
use go_adldap.Operation.{string_mods}

-- adcore.Group.
pub record Group : Type 0 where
  pub guid : Bytes
  pub dn : Bytes
  pub name : Bytes
  pub sam_account_name : Bytes
  pub container : Bytes
  pub scope : GroupScope
  pub category : GroupCategory
  pub description : Bytes
  pub managed_by : Bytes
  pub sid : Bytes

-- adcore.GroupSpec: a pointer is an Option, and so is a scope or a category that may be empty.
pub record GroupSpec : Type 0 where
  pub name : Bytes
  pub container : Bytes
  pub sam_account_name : Bytes
  pub scope : Option GroupScope
  pub category : Option GroupCategory
  pub description : Option Bytes
  pub managed_by : Option Bytes

abbrev pub group_attrs : List Bytes
group_attrs =
    codes "objectGUID"
    ∷ codes "distinguishedName"
    ∷ codes "name"
    ∷ codes "sAMAccountName"
    ∷ codes "description"
    ∷ codes "groupType"
    ∷ codes "objectSid"
    ∷ codes "managedBy"
    ∷ []

-- The SID of an entry, empty where it has none.
abbrev pub sid_of : Bytes → Option Bytes
sid_of raw = if is_empty raw then some [] else sid_to_string raw

-- An attribute of a new object, where it is wanted.
abbrev pub added_text : Bytes → Option Bytes → List Attribute
added_text attr none = []
added_text attr (some v) = if is_empty v then [] else record { type = attr; vals = v ∷ [] } ∷ []

-- The default branches of GroupTypeValue.
abbrev or_global : Option GroupScope → GroupScope
or_global none = global
or_global (some scope) = scope

abbrev or_security : Option GroupCategory → GroupCategory
or_security none = security
or_security (some category) = category

abbrev group_type_text : GroupScope → GroupCategory → Bytes
group_type_text scope category = group_type_string (group_type_value scope category)

abbrev pub group_add : GroupSpec → List Attribute
group_add spec =
    record { type = codes "objectClass"; vals = codes "top" ∷ codes "group" ∷ [] }
    ∷ record { type = codes "cn"; vals = spec.name ∷ [] }
    ∷ record { type = codes "sAMAccountName"; vals = spec.sam_account_name ∷ [] }
    ∷ record {
      type = codes "groupType";
      vals = group_type_text (or_global spec.scope) (or_security spec.category) ∷ [];
    }
    ∷ (added_text (codes "description") spec.description
        ++ added_text (codes "managedBy") spec.managed_by)

abbrev or_scope : Option GroupScope → GroupScope → GroupScope
or_scope none current = current
or_scope (some scope) current = scope

abbrev or_category : Option GroupCategory → GroupCategory → GroupCategory
or_category none current = current
or_category (some category) current = category

-- `scope != current.Scope` and the like.
abbrev same_scope : GroupScope → GroupScope → Bool
same_scope domain_local domain_local = true
same_scope universal universal = true
same_scope global global = true
same_scope a b = false

abbrev same_category : GroupCategory → GroupCategory → Bool
same_category distribution distribution = true
same_category security security = true
same_category a b = false

-- groupType is written whole.
abbrev pub type_mods : GroupScope → GroupCategory → GroupScope → GroupCategory → List Modification
type_mods scope category have_scope have_category =
    if not (same_scope scope have_scope) || not (same_category category have_category)
    then record {
      op = mod_replace;
      type = codes "groupType";
      vals = group_type_text scope category ∷ [];
    }
      ∷ []
    else []

unfoldable pub group_mods : GroupSpec → Group → List Modification
group_mods spec current =
    sam_mods spec.sam_account_name current.sam_account_name spec.sam_account_name
    ++ (string_mods (codes "description") spec.description current.description
        ++ (string_mods (codes "managedBy") spec.managed_by current.managed_by
            ++ type_mods (or_scope spec.scope current.scope)
                (or_category spec.category current.category) current.scope current.category))
