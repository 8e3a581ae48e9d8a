-- ===== src/Schema.antt =====
-- schema.go: the GUIDs that the names of attributes, classes and extended rights stand for.
pub mod Laws
mod Tests
use go_adldap.Base.{
  ℕ, zero, suc, ◌+◌, Bool, true, false, not, ◌&&◌, ◌||◌, Option, none, some, List, [], ◌∷◌, ◌++◌,
  ◌==◌, leb, if◌then◌else◌, length, is_empty, Outcome, ok, err,
}
use go_adldap.Base.Bytes.{Bytes}
use go_adldap.Base.Text.{codes, same_text}
use go_adldap.LdapErr.{constraint, not_found}
use go_adldap.Guid.{guid_to_string}
use go_adldap.Directory.{
  scope_subtree, Entry, first, SearchRequest, OpError, op_error, search, Reply, Proc, call, pure,
  fail, ◌>>=◌,
}
use go_adldap.Adcore.{Adcore}

-- adcore.SchemaRefKind: the values that the package names, and every other.
pub data RefKind : Type 0 where
  ref_attribute ref_class ref_extended_right ref_unknown : RefKind

-- adcore.SchemaRef.
pub record SchemaRef : Type 0 where
  pub kind : RefKind
  pub name : Bytes

abbrev pub same_kind : RefKind → RefKind → Bool
same_kind ref_attribute ref_attribute = true
same_kind ref_class ref_class = true
same_kind ref_extended_right ref_extended_right = true
same_kind ref_unknown ref_unknown = true
same_kind a b = false

unfoldable pub same_ref : SchemaRef → SchemaRef → Bool
same_ref a b = same_kind a.kind b.kind && same_text a.name b.name

-- What the reply is searched for, and whether it is a GUID in bytes.
pub record SchemaQuery : Type 0 where
  pub base : Bytes
  pub object_class : Bytes
  pub name_attr : Bytes
  pub attr : Bytes
  pub binary_guid : Bool

-- The loop of isGUIDString from the position `i` on.
unfoldable pub guid_chars : ℕ → Bytes → Bool
guid_chars i [] = true
guid_chars i (c ∷ s) =
    let rest = guid_chars (i + 1) s in
    if i == 8 || i == 13 || i == 18 || i == 23
    then c == 45 && rest
    else ((leb 48 c && leb c 57) || (leb 97 c && leb c 102) || (leb 65 c && leb c 70)) && rest

unfoldable pub is_guid_string : Bytes → Bool
is_guid_string s = if length s == 36 then guid_chars 0 s else false

-- The GUIDs resolved so far: a map, by the list of what was put in, the latest first.
abbrev pub Resolved : Type 0
Resolved = List (SchemaRef × Bytes)

unfoldable pub is_known : SchemaRef → Resolved → Bool
is_known ref [] = false
is_known ref ((have, guid) ∷ out) = let rest = is_known ref out in same_ref have ref || rest

abbrev pub guid_value : Option Bytes → Proc Bytes
guid_value none = fail (op_error constraint)
guid_value (some guid) = pure guid

abbrev pub raw_value : Bool → Bytes → Proc Bytes
raw_value binary raw =
    if is_empty raw
    then fail (op_error constraint)
    else if binary
    then guid_value (guid_to_string raw)
    else pure raw

-- The switch on the number of entries.
abbrev pub one_ref : SchemaQuery → Reply → Proc Bytes
one_ref q (err e) = fail e
one_ref q (ok []) = fail (op_error not_found)
one_ref q (ok (e ∷ [])) = raw_value q.binary_guid (first e q.attr)
one_ref q (ok (e ∷ second ∷ entries)) = fail (op_error constraint)

module _ (lib : Adcore) (schema_nc config_nc : Bytes) where
  abbrev pub schema_query : RefKind → Option SchemaQuery
  schema_query ref_attribute = some (record {
    base = schema_nc;
    object_class = codes "attributeSchema";
    name_attr = codes "lDAPDisplayName";
    attr = codes "schemaIDGUID";
    binary_guid = true;
  })
  schema_query ref_class = some (record {
    base = schema_nc;
    object_class = codes "classSchema";
    name_attr = codes "lDAPDisplayName";
    attr = codes "schemaIDGUID";
    binary_guid = true;
  })
  schema_query ref_extended_right = some (record {
    base = codes "CN=Extended-Rights," ++ config_nc;
    object_class = codes "controlAccessRight";
    name_attr = codes "displayName";
    attr = codes "rightsGuid";
    binary_guid = false;
  })
  schema_query ref_unknown = none

  abbrev pub schema_request : SchemaQuery → Bytes → SearchRequest
  schema_request q name = record {
    base_dn = q.base;
    scope = scope_subtree;
    filter =
        codes "(&(objectClass="
        ++ (q.object_class ++ (codes ")" ++ (lib.equal q.name_attr name ++ codes ")")));
    attributes = q.attr ∷ [];
    size_limit = 2;
    controls = [];
  }

  abbrev pub resolve_with : Bytes → Option SchemaQuery → Proc Bytes
  resolve_with name none = fail (op_error constraint)
  resolve_with name (some q) = call (search (schema_request q name)) (one_ref q)

  unfoldable pub resolve_one : SchemaRef → Proc Bytes
  resolve_one ref = resolve_with ref.name (schema_query ref.kind)

  -- One pass of the loop.
  abbrev pub resolve_ref : Resolved → SchemaRef → Proc Resolved
  resolve_ref out ref =
      if is_known ref out
      then pure out
      else if is_guid_string ref.name
      then pure ((ref, ref.name) ∷ out)
      else resolve_one ref >>= λ guid. pure ((ref, guid) ∷ out)

  unfoldable pub resolve_from : Resolved → List SchemaRef → Proc Resolved
  resolve_from out [] = pure out
  resolve_from out (ref ∷ refs) = resolve_ref out ref >>= λ out'. resolve_from out' refs

  unfoldable pub resolve : List SchemaRef → Proc Resolved
  resolve refs = resolve_from [] refs
