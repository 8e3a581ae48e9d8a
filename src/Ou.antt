-- ===== src/Ou.antt =====
-- ou.go: the operations on organizational units. The lock that an operation holds on the object, and
-- the name of the operation in an error, are left out.
pub mod Protection
pub mod Steps
pub mod Laws
mod Tests
use go_adldap.Base.{
  ℕ, Bool, true, false, not, ◌&&◌, ◌||◌, Option, none, some, List, [], ◌∷◌, ◌++◌, ltb,
  if◌then◌else◌, length, is_empty, Outcome, ok, err,
}
use go_adldap.Base.Bytes.{Bytes}
use go_adldap.Base.Text.{codes, same_text}
use go_adldap.LdapErr.{constraint, denied, transport}
use go_adldap.Guid.{guid_to_string}
use go_adldap.SecDesc.{SdError}
use go_adldap.SecDesc.Protection.{is_protected, set_protected, same_bool}
use go_adldap.Directory.{
  scope_base, scope_one_level, ModOp, mod_delete, mod_replace, Attribute, Modification, Entry,
  first, Control, SearchRequest, sd_dacl, Identity, by_guid, by_dn, OpError, op_error, op_error_at,
  Request, search, add, modify, modify_dn, delete, Reply, Proc, done, call, pure, fail, attempt,
  map_error, request, ◌>>=◌, ◌>>◌,
}
use go_adldap.Adcore.{Adcore, Query, is_kind_too_many}
use go_adldap.Operation.{
  write_mods, check, when, finished, same_container, string_mods, modelled, delete_and_confirm,
}
use go_adldap.Search.{get_one, search_entries}
use go_adldap.Tombstone.{annotate_already_exists, deleted_filter}
use go_adldap.Ou.Protection.{security_descriptor, set_protection}

-- adcore.OU.
pub record Ou : Type 0 where
  pub guid : Bytes
  pub dn : Bytes
  pub name : Bytes
  pub container : Bytes
  pub description : Bytes
  pub protected : Bool

-- adcore.OUSpec: a pointer is an Option.
pub record OuSpec : Type 0 where
  pub name : Bytes
  pub container : Bytes
  pub description : Option Bytes
  pub protected : Option Bool

abbrev ou_attrs : List Bytes
ou_attrs =
    codes "objectGUID"
    ∷ codes "distinguishedName"
    ∷ codes "name"
    ∷ codes "description"
    ∷ codes "nTSecurityDescriptor"
    ∷ []

abbrev pub ou_add : OuSpec → List Attribute
ou_add spec =
    record { type = codes "objectClass"; vals = codes "top" ∷ codes "organizationalUnit" ∷ [] }
    ∷ record { type = codes "ou"; vals = spec.name ∷ [] }
    ∷ elim spec.description [
      | none ↦ []
      | some d ↦
          if is_empty d then [] else record { type = codes "description"; vals = d ∷ [] } ∷ []
    ]

abbrev wants_protection : Option Bool → Bool
wants_protection none = false
wants_protection (some b) = b

abbrev or_current : Option Bool → Bool → Bool
or_current none current = current
or_current (some want) current = want

abbrev pub child_request : Bytes → SearchRequest
child_request dn = record {
  base_dn = dn;
  scope = scope_one_level;
  filter = codes "(objectClass=*)";
  attributes = codes "distinguishedName" ∷ [];
  size_limit = 1;
  controls = [];
}

module _ (lib : Adcore) where
  unfoldable pub ou_rdn : Bytes → Bytes
  ou_rdn name = codes "OU=" ++ lib.escape_value name

  abbrev ou_of : Entry → Option Bytes → Outcome OpError Bytes → Outcome SdError Bool → Option Ou
  ou_of e (some guid) (ok container) (ok protected) = some (record {
    guid = guid;
    dn = e.dn;
    name = first e (codes "name");
    container = container;
    description = first e (codes "description");
    protected = protected;
  })
  ou_of e guid container protected = none

  pub ou_model : Entry → Option Ou
  ou_model e =
      let sd = first e security_descriptor in
      ou_of e (guid_to_string (first e (codes "objectGUID"))) (lib.container_of e.dn)
        (if is_empty sd then ok false else is_protected sd)

  module _ (dnc : Bytes) where
    unfoldable pub ou_get : Identity → Proc Ou
    ou_get id = get_one lib dnc id (codes "organizationalUnit") ou_attrs (sd_dacl ∷ []) >>= λ e.
        modelled (ou_model e)

    -- The loop over the entries of a search.
    model_all : List Entry → Proc (List Ou)
    model_all [] = pure []
    model_all (e ∷ entries) = do m ← modelled (ou_model e); out ← model_all entries; pure (m ∷ out)

    pub ou_search : Query → Proc (List Ou)
    ou_search q =
        search_entries lib dnc q (codes "organizationalUnit") ou_attrs (sd_dacl ∷ []) >>= model_all

    abbrev added : OuSpec → Bytes → Reply → Proc (Unit {0})
    added spec dn (ok entries) = pure tt
    added spec dn (err e) =
        annotate_already_exists dnc e dn
          (deleted_filter lib (codes "organizationalUnit") spec.name spec.container)
        >>= fail

    -- The number of children that the probe proves.
    abbrev pub child_count : Identity → Reply → Proc ℕ
    child_count id (ok entries) = pure (length entries)
    child_count id (err e) =
        if is_kind_too_many e.kind then pure 1 else fail (lib.with_identity e id)

    abbrev pub delete_if_empty : Identity → Ou → ℕ → Proc (Unit {0})
    delete_if_empty id current n =
        if ltb 0 n
        then fail (op_error_at constraint current.dn)
        else delete_and_confirm lib id current.dn (ou_get (by_guid current.guid))

    unfoldable pub delete_current : Identity → Bool → Ou → Proc (Unit {0})
    delete_current id unprotect current = do
      when (unprotect && current.protected)
          (map_error (λ e. lib.with_identity e id) (set_protection current.dn false))
      n ← call (search (child_request current.dn)) (child_count id)
      delete_if_empty id current n

    abbrev pub delete_found : Identity → Bool → Outcome OpError Ou → Proc (Unit {0})
    delete_found id unprotect (ok current) = delete_current id unprotect current
    delete_found id unprotect (err e) = if lib.is_not_found e then pure tt else fail e

    unfoldable pub ou_delete : Identity → Bool → Proc (Unit {0})
    ou_delete id unprotect = attempt (ou_get id) >>= delete_found id unprotect

    -- The wait for replication is a parameter: replicate of replication.go, by the GUID, with its
    -- error, which is returned next to the model.
    module _ (replicate : Bytes → Proc (Option OpError)) where
      abbrev with_replication : Ou → Proc (Ou × Option OpError)
      with_replication m = replicate m.guid >>= λ e. pure (m, e)

      pub ou_create : OuSpec → Proc (Ou × Option OpError)
      ou_create spec = do
        check (lib.validate_name spec.name)
        check (lib.validate_container spec.container)
        let dn = ou_rdn spec.name ++ (codes "," ++ spec.container)
        call (add dn (ou_add spec)) (added spec dn)
        when (wants_protection spec.protected) (set_protection dn true)
        created ← ou_get (by_dn dn)
        with_replication created

      abbrev pub protect_again : Identity → Bool → Ou → Ou → Proc (Ou × Option OpError)
      protect_again id want current updated =
          if same_bool updated.protected want then with_replication updated else do
            map_error (λ e. lib.with_identity e id) (set_protection updated.dn want)
            again ← ou_get (by_guid current.guid)
            with_replication again

      -- The part of an update behind the attributes.
      pub move_and_protect : Identity → OuSpec → Ou → Bool → Proc (Ou × Option OpError)
      move_and_protect id spec current same = do
        let want = or_current spec.protected current.protected
        let moving = not (same_text spec.name current.name) || not same
        when (moving && current.protected)
            (map_error (λ e. lib.with_identity e id) (set_protection current.dn false))
        when moving (
            map_error (λ e. lib.with_identity e id)
              (call
                (modify_dn current.dn (ou_rdn spec.name) true (if same then [] else spec.container))
                finished))
        updated ← ou_get (by_guid current.guid)
        protect_again id want current updated

      pub ou_update : Identity → OuSpec → Proc (Ou × Option OpError)
      ou_update id spec = do
        check (lib.validate_name spec.name)
        check (lib.validate_container spec.container)
        current ← ou_get id
        write_mods lib id current.dn
            (string_mods (codes "description") spec.description current.description)
        same ← same_container (lib.equal_fold_dn spec.container current.container)
        move_and_protect id spec current same
