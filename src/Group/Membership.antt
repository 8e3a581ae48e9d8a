-- ===== src/Group/Membership.antt =====
-- membership.go: the members of a group. The lock on the group is left out.
use go_adldap.Base.{
  ℕ, Bool, not, ◌||◌, ◌&&◌, Option, none, some, List, [], ◌∷◌, ◌++◌, ◌==◌, map, concat,
  if◌then◌else◌, is_empty, length, ok, err,
}
use go_adldap.Base.Bytes.{Bytes}
use go_adldap.Base.Text.{codes}
use go_adldap.LdapErr.{transport, contains}
use go_adldap.Guid.{guid_to_string}
use go_adldap.Directory.{
  scope_base, scope_subtree, ModOp, mod_add, mod_delete, Entry, first, lookup, SearchRequest,
  Identity, OpError, op_error, Request, search, modify, Reply, Proc, call, pure, fail, map_error,
  ◌>>=◌,
}
use go_adldap.Adcore.{Adcore, is_kind_constraint, is_kind_already_exists}
use go_adldap.Search.{resolve_dn}
use go_adldap.Ranged.{ranged_values}
use go_adldap.Group.Data.{Group, sid_of}
use go_adldap.Group.{group_get}

-- adcore.Member.
pub record Member : Type 0 where
  pub guid : Bytes
  pub dn : Bytes
  pub class : Bytes
  pub sid : Bytes

abbrev member_attrs : List Bytes
member_attrs =
    codes "objectGUID" ∷ codes "distinguishedName" ∷ codes "objectClass" ∷ codes "objectSid" ∷ []

-- The last class is the most derived one.
abbrev last_of : Bytes → List Bytes → Bytes
last_of x [] = x
last_of x (y ∷ ys) = last_of y ys

abbrev class_of : Option (List Bytes) → Bytes
class_of none = []
class_of (some []) = []
class_of (some (x ∷ classes)) = last_of x classes

abbrev member_of : Entry → Option Bytes → Option Bytes → Option (List Member) → Option (List Member)
member_of e (some guid) (some sid) (some out) = some (
    record {
      guid = guid;
      dn = e.dn;
      class = class_of (lookup (codes "objectClass") e.attrs);
      sid = sid;
    }
    ∷ out)
member_of e guid sid out = none

unfoldable pub model_members : List Entry → Option (List Member)
model_members [] = some []
model_members (e ∷ entries) =
    member_of e (guid_to_string (first e (codes "objectGUID")))
      (sid_of (first e (codes "objectSid"))) (model_members entries)

-- An error of the model is returned as it is: it has no kind of its own, and the model of it has that
-- of transport.
abbrev members_of : Option (List Member) → Proc (List Member)
members_of none = fail (op_error transport)
members_of (some out) = pure out

unfoldable pub already_satisfied : OpError → ModOp → Bool
already_satisfied e mod_add =
    contains e.server_message (codes "ENTRY_EXISTS")
    || contains e.server_message (codes "ATT_OR_VALUE_EXISTS")
    || e.code == 0x207E
already_satisfied e op =
    contains e.server_message (codes "NO_ATTRIBUTE_OR_VAL")
    || contains e.server_message (codes "NO_ATT_OR_VAL")
    || e.code == 0x2076

abbrev pub edit_request : Bytes → ModOp → List Bytes → Request
edit_request dn op vals = modify dn (record { op = op; type = codes "member"; vals = vals } ∷ []) []

abbrev pub matching_rule_in_chain : Bytes
matching_rule_in_chain = codes "1.2.840.113556.1.4.1941"

module _ (lib : Adcore) where
  -- The refusal of an edit.
  abbrev pub tolerated : OpError → ModOp → Bool
  tolerated e op =
      (is_kind_constraint e.kind || is_kind_already_exists e.kind) && already_satisfied e op

  abbrev pub edited : Identity → ModOp → Reply → Proc (Unit {0})
  edited id op (ok entries) = pure tt
  edited id op (err e) = if tolerated e op then pure tt else fail (lib.with_identity e id)

  module _ (dnc : Bytes) where
    -- The loop that resolves the members.
    unfoldable pub resolve_all : List Identity → Proc (List Bytes)
    resolve_all [] = pure []
    resolve_all (m ∷ members) =
        resolve_dn lib dnc m >>= λ dn. resolve_all members >>= λ vals. pure (dn ∷ vals)

    abbrev pub edit_resolved : Identity → List Identity → ModOp → Group → Proc (Unit {0})
    edit_resolved id members op target =
        resolve_all members >>= λ vals. call (edit_request target.dn op vals) (edited id op)

    unfoldable pub edit_members : Identity → List Identity → ModOp → Proc (Unit {0})
    edit_members id members op =
        if is_empty members then pure tt else group_get lib dnc id >>= edit_resolved id members op

    pub add_members : Identity → List Identity → Proc (Unit {0})
    add_members id members = edit_members id members mod_add

    pub remove_members : Identity → List Identity → Proc (Unit {0})
    remove_members id members = edit_members id members mod_delete

    abbrev dn_term : Bytes → Bytes
    dn_term dn = lib.equal (codes "distinguishedName") dn

    abbrev pub members_request : List Bytes → SearchRequest
    members_request dns = record {
      base_dn = dnc;
      scope = scope_subtree;
      filter = codes "(|" ++ (concat (map dn_term dns) ++ codes ")");
      attributes = member_attrs;
      size_limit = length dns;
      controls = [];
    }

    abbrev found_members : Reply → Proc (List Member)
    found_members (err e) = fail e
    found_members (ok entries) = members_of (model_members entries)

    unfoldable pub resolve_members : List Bytes → Proc (List Member)
    resolve_members [] = pure []
    resolve_members (dn ∷ dns) = call (search (members_request (dn ∷ dns))) found_members

    abbrev resolve_read : Option (List Bytes) → Proc (Option (List Member))
    resolve_read none = pure none
    resolve_read (some dns) = resolve_members dns >>= λ out. pure (some out)

    -- None where the fuel for the pages does not suffice.
    unfoldable pub members : ℕ → Identity → Proc (Option (List Member))
    members fuel id = resolve_dn lib dnc id >>= λ dn.
        map_error (λ e. lib.with_identity e id) (ranged_values fuel dn (codes "member"))
        >>= resolve_read

    abbrev chain_request : Group → SearchRequest
    chain_request target = record {
      base_dn = dnc;
      scope = scope_subtree;
      filter =
          codes "(&(|(objectClass=user)(objectClass=computer))(memberOf:"
          ++ (matching_rule_in_chain
              ++ (codes ":=" ++ (lib.escape_filter target.dn ++ codes "))")));
      attributes = member_attrs;
      size_limit = 0;
      controls = [];
    }

    abbrev found_chain : Identity → Reply → Proc (List Member)
    found_chain id (err e) = fail (lib.with_identity e id)
    found_chain id (ok entries) = members_of (model_members entries)

    pub members_recursive : Identity → Proc (List Member)
    members_recursive id =
        group_get lib dnc id >>= λ target. call (search (chain_request target)) (found_chain id)

    abbrev member_request : Bytes → Bytes → SearchRequest
    member_request group_dn member_dn = record {
      base_dn = group_dn;
      scope = scope_base;
      filter = lib.equal (codes "member") member_dn;
      attributes = codes "distinguishedName" ∷ [];
      size_limit = 1;
      controls = [];
    }

    abbrev found_member : Identity → Reply → Proc Bool
    found_member id (err e) = fail (lib.with_identity e id)
    found_member id (ok entries) = pure (not (is_empty entries))

    pub is_member : Identity → Identity → Proc Bool
    is_member id member = group_get lib dnc id >>= λ target.
        resolve_dn lib dnc member >>= λ member_dn.
        call (search (member_request target.dn member_dn)) (found_member id)
