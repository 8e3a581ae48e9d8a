-- ===== src/Group.antt =====
-- group.go: the operations on groups. GroupSpec.Validate of adcore and replicate of replication.go are
-- parameters.
pub mod Data
pub mod Membership
pub mod Laws
pub mod Edits
mod Tests
use go_adldap.Base.{
  Bool, true, false, not, ◌||◌, ◌&&◌, Option, none, some, List, [], ◌∷◌, ◌++◌, if◌then◌else◌,
  is_empty, Outcome, ok, err,
}
use go_adldap.Base.Bytes.{Bytes}
use go_adldap.Base.Text.{codes, same_text}
use go_adldap.Guid.{guid_to_string}
use go_adldap.Sid.{sid_to_string}
use go_adldap.GroupType.{
  GroupScope, domain_local, universal, global, GroupCategory, distribution, security,
  scope_and_category, group_type_value, group_type_string, parse_group_type,
}
use go_adldap.Directory.{
  mod_replace, Attribute, Modification, Entry, first, Identity, by_guid, by_dn, OpError, add,
  modify, modify_dn, Reply, Proc, call, pure, fail, map_error, attempt, ◌>>=◌, ◌>>◌,
}
use go_adldap.Adcore.{Adcore, Query}
use go_adldap.Search.{get_one, search_entries}
use go_adldap.Tombstone.{annotate_already_exists, deleted_filter}
use go_adldap.Operation.{
  write_mods, rename, remove_object, check, when, finished, same_container, string_mods, modelled,
  delete_and_confirm,
}
use go_adldap.Group.Data.{Group, GroupSpec, group_attrs, sid_of, group_add, group_mods}

module _ (lib : Adcore) where
  unfoldable pub cn_rdn : Bytes → Bytes
  cn_rdn name = codes "CN=" ++ lib.escape_value name

  abbrev group_of :
      Entry
      → Option Bytes
      → Outcome OpError Bytes
      → Option Bytes
      → Option (GroupScope × GroupCategory)
      → Option Group
  group_of e (some guid) (ok container) (some sid) (some (scope, category)) = some (record {
    guid = guid;
    dn = e.dn;
    name = first e (codes "name");
    sam_account_name = first e (codes "sAMAccountName");
    container = container;
    scope = scope;
    category = category;
    description = first e (codes "description");
    managed_by = first e (codes "managedBy");
    sid = sid;
  })
  group_of e guid container sid parts = none

  unfoldable pub group_model : Entry → Option Group
  group_model e =
      group_of e (guid_to_string (first e (codes "objectGUID"))) (lib.container_of e.dn)
        (sid_of (first e (codes "objectSid")))
        (elim (parse_group_type (first e (codes "groupType"))) [
          | none ↦ none
          | some v ↦ some (scope_and_category v)
        ])

  module _ (dnc : Bytes) where
    unfoldable pub group_get : Identity → Proc Group
    group_get id =
        get_one lib dnc id (codes "group") group_attrs [] >>= λ e. modelled (group_model e)

    -- The loop over the entries of a search.
    model_groups : List Entry → Proc (List Group)
    model_groups [] = pure []
    model_groups (e ∷ entries) = do
      m ← modelled (group_model e)
      out ← model_groups entries
      pure (m ∷ out)

    pub group_search : Query → Proc (List Group)
    group_search q = search_entries lib dnc q (codes "group") group_attrs [] >>= model_groups

    unfoldable pub group_delete : Identity → Proc (Unit {0})
    group_delete id = remove_object lib group_get (λ m. (m.dn, m.guid)) id

    abbrev group_added : GroupSpec → Bytes → Reply → Proc (Unit {0})
    group_added spec dn (ok entries) = pure tt
    group_added spec dn (err e) =
        annotate_already_exists dnc e dn
          (deleted_filter lib (codes "group") spec.name spec.container)
        >>= fail

    module _ (validate : GroupSpec → Bool → Option OpError)
        (replicate : Bytes → Proc (Option OpError)) where
      abbrev group_replicated : Group → Proc (Group × Option OpError)
      group_replicated m = replicate m.guid >>= λ e. pure (m, e)

      pub group_create : GroupSpec → Proc (Group × Option OpError)
      group_create spec = do
        check (validate spec true)
        let dn = cn_rdn spec.name ++ (codes "," ++ spec.container)
        call (add dn (group_add spec)) (group_added spec dn)
        created ← group_get (by_dn dn)
        group_replicated created

      pub group_update : Identity → GroupSpec → Proc (Group × Option OpError)
      group_update id spec = do
        check (validate spec false)
        current ← group_get id
        write_mods lib id current.dn (group_mods spec current)
        same ← same_container (lib.equal_fold_dn spec.container current.container)
        rename lib id current.dn (cn_rdn spec.name) (same_text spec.name current.name) same
            spec.container
        updated ← group_get (by_guid current.guid)
        group_replicated updated
