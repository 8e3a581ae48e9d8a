-- ===== src/Acl.antt =====
-- acl.go: the access control entries of an object, as the directory's clients see them. The lock that
-- an operation holds on the object, and the name of the operation in an error, are left out.
pub mod Safety
pub mod Effect
mod Tests
use go_adldap.Base.{
  ℕ, Bool, true, false, not, ◌||◌, Option, none, some, List, [], ◌∷◌, ◌++◌, map, ◌==◌,
  if◌then◌else◌, length, is_empty, any, Outcome, ok, err,
}
use go_adldap.Base.Bytes.{Bytes}
use go_adldap.Base.Text.{codes, same_text}
use go_adldap.LdapErr.{constraint, denied}
use go_adldap.Guid.{guid_to_string, guid_to_bytes}
use go_adldap.Sid.{sid_to_string, sid_from_string}
use go_adldap.Rights.{rights_mask, rights_names}
use go_adldap.SecDesc.{SdError}
use go_adldap.SecDesc.Ace.{DecodedAce, decode_aces, add_aces, remove_aces}
use go_adldap.SecDesc.Inheritance.{Inheritance, inheritance_of, flags_for}
use go_adldap.Directory.{
  Modification, Entry, first, sd_dacl, Identity, by_dn, OpError, op_error, op_error_at, Request,
  Reply, Proc, done, call, pure, fail, map_error, ◌>>=◌, ◌>>◌,
}
use go_adldap.Adcore.{Adcore}
use go_adldap.Search.{get_one}
use go_adldap.Ou.Protection.{security_descriptor, replace_descriptor}
use go_adldap.Operation.{finished, when}

pub data AceType : Type 0 where
  allow deny : AceType

-- adcore.ACE: the trustee and the object types are texts.
pub record Ace : Type 0 where
  pub trustee : Bytes
  pub type : AceType
  pub rights : List Bytes
  pub object_type : Bytes
  pub inherited_object_type : Bytes
  pub inheritance : Inheritance
  pub inherited : Bool

abbrev acl_attrs : List Bytes
acl_attrs = codes "objectGUID" ∷ codes "distinguishedName" ∷ security_descriptor ∷ []

abbrev zero_guid : Bytes
zero_guid = codes "00000000-0000-0000-0000-000000000000"

abbrev unless_zero : Option Bytes → Bytes
unless_zero none = []
unless_zero (some s) = if same_text s zero_guid then [] else s

unfoldable pub guid_or_empty : Bytes → Bytes
guid_or_empty raw = if not (length raw == 16) then [] else unless_zero (guid_to_string raw)

abbrev type_of : Bool → AceType
type_of true = deny
type_of false = allow

abbrev ace_with : DecodedAce → Option Bytes → Option Ace
ace_with d none = none
ace_with d (some sid) = some (record {
  trustee = sid;
  type = type_of d.deny;
  rights = rights_names d.mask;
  object_type = guid_or_empty d.object_type;
  inherited_object_type = guid_or_empty d.inherited_object_type;
  inheritance = inheritance_of d.flags;
  inherited = d.inherited;
})

-- None where the trustee will not format.
unfoldable pub ace_of : DecodedAce → Option Ace
ace_of d = ace_with d (sid_to_string d.trustee_sid)

abbrev cons_ace : Option Ace → List Ace → List Ace
cons_ace none out = out
cons_ace (some ace) out = ace ∷ out

-- The loop of Get, which skips such an entry.
unfoldable pub aces_of : List DecodedAce → List Ace
aces_of [] = []
aces_of (d ∷ decoded) = cons_ace (ace_of d) (aces_of decoded)

-- A GUID that may be absent.
abbrev guid_bytes : Bytes → Option Bytes
guid_bytes s = if is_empty s then some [] else guid_to_bytes s

abbrev is_deny : AceType → Bool
is_deny deny = true
is_deny allow = false

abbrev decoded_with :
    Ace → Option Bytes → Option ℕ → Option Bytes → Option Bytes → Option DecodedAce
decoded_with ace (some sid) (some mask) (some ot) (some iot) = some (record {
  trustee_sid = sid;
  deny = is_deny ace.type;
  mask = mask;
  object_type = ot;
  inherited_object_type = iot;
  flags = flags_for ace.inheritance;
  inherited = false;
})
decoded_with ace sid mask ot iot = none

-- Every failure is of kind constraint.
unfoldable pub decode : Ace → Option DecodedAce
decode ace =
    decoded_with ace (sid_from_string ace.trustee) (rights_mask ace.rights)
      (guid_bytes ace.object_type) (guid_bytes ace.inherited_object_type)

module _ (lib : Adcore) (dnc : Bytes) where
  abbrev pub with_descriptor : Entry → Proc (Entry × Bytes)
  with_descriptor e =
      let sd = first e security_descriptor in
      if is_empty sd then fail (op_error_at denied e.dn) else pure (e, sd)

  unfoldable pub read_descriptor : Identity → Proc (Entry × Bytes)
  read_descriptor id = get_one lib dnc id (codes "*") acl_attrs (sd_dacl ∷ []) >>= with_descriptor

  abbrev pub decoded : Outcome SdError (List DecodedAce) → Proc (List Ace)
  decoded (err bad) = fail (op_error constraint)
  decoded (ok list) = pure (aces_of list)

  unfoldable pub acl_get : Identity → Proc (List Ace)
  acl_get id = read_descriptor id >>= λ found. decoded (decode_aces found.1)

  -- The write of what AddACEs or RemoveACEs made, if anything.
  abbrev pub write_changed : Identity → Bytes → Outcome SdError (Bytes × Bool) → Proc (Unit {0})
  write_changed id dn (err bad) = fail (op_error constraint)
  write_changed id dn (ok (updated, false)) = pure tt
  write_changed id dn (ok (updated, true)) =
      map_error (λ e. lib.with_identity e id) (call (replace_descriptor dn updated) finished)

  -- adcore.CanonicalACEKey is a parameter; a set of keys is a list.
  module _ (canonical_ace_key : Ace → Bytes) where
    abbrev pub has_key : List Bytes → Bytes → Bool
    has_key keys key = any (λ k. same_text k key) keys

    abbrev ace_key : Option Ace → Option Bytes
    ace_key none = none
    ace_key (some ace) = some (canonical_ace_key (record ace { inherited = false }))

    unfoldable pub key_of : DecodedAce → Option Bytes
    key_of d = ace_key (ace_of d)

    -- The keys of the explicit entries that are there.
    unfoldable pub explicit_keys : List Ace → List Bytes
    explicit_keys [] = []
    explicit_keys (x ∷ existing) =
        let keys = explicit_keys existing in
        if x.inherited then keys else canonical_ace_key x ∷ keys

    abbrev cons_decoded : Option DecodedAce → Option (List DecodedAce) → Option (List DecodedAce)
    cons_decoded (some d) (some add) = some (d ∷ add)
    cons_decoded d add = none

    -- The loop of Grant over the entries that are asked for.
    unfoldable pub missing : List Bytes → List Ace → Option (List DecodedAce)
    missing have [] = some []
    missing have (ace ∷ list) =
        let rest = missing have list in
        if has_key have (canonical_ace_key ace) then rest else cons_decoded (decode ace) rest

    abbrev pub add_missing : Identity → Bytes → Bytes → Option (List DecodedAce) → Proc (Unit {0})
    add_missing id dn sd none = fail (lib.with_identity (op_error constraint) id)
    add_missing id dn sd (some add) = write_changed id dn (add_aces sd add)

    unfoldable pub acl_grant : Identity → List Ace → Proc (Unit {0})
    acl_grant id list =
        if is_empty list
        then pure tt
        else read_descriptor id >>= λ found. acl_get (by_dn found.0.dn) >>= λ existing.
            add_missing id found.0.dn found.1 (missing (explicit_keys existing) list)

    abbrev cons_key : Bytes → Option DecodedAce → Option (List Bytes) → Option (List Bytes)
    cons_key key (some d) (some drop) = some (key ∷ drop)
    cons_key key d drop = none

    -- The loop of Revoke, which decodes each entry to validate it.
    unfoldable pub drop_keys : List Ace → Option (List Bytes)
    drop_keys [] = some []
    drop_keys (ace ∷ list) = cons_key (canonical_ace_key ace) (decode ace) (drop_keys list)

    abbrev in_keys : List Bytes → Option Bytes → Bool
    in_keys drop none = false
    in_keys drop (some key) = has_key drop key

    -- The match that RemoveACEs is given.
    unfoldable pub matches : List Bytes → DecodedAce → Bool
    matches drop d = in_keys drop (key_of d)

    abbrev pub remove_named : Identity → Bytes → Bytes → Option (List Bytes) → Proc (Unit {0})
    remove_named id dn sd none = fail (lib.with_identity (op_error constraint) id)
    remove_named id dn sd (some drop) = write_changed id dn (remove_aces sd (matches drop))

    unfoldable pub acl_revoke : Identity → List Ace → Proc (Unit {0})
    acl_revoke id list =
        if is_empty list
        then pure tt
        else read_descriptor id >>= λ found. remove_named id found.0.dn found.1 (drop_keys list)
