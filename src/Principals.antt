-- ===== src/Principals.antt =====
-- principals.go: the principals of a delegation, by their SIDs. The client's cache of the domain SID is
-- passed from call to call.
pub mod Laws
mod Tests
use go_adldap.Base.{
  true, false, Option, none, some, List, [], ◌∷◌, if◌then◌else◌, is_empty, Outcome, ok, err,
}
use go_adldap.Base.Bytes.{Bytes}
use go_adldap.Base.Text.{codes}
use go_adldap.LdapErr.{constraint, not_found, transport}
use go_adldap.Guid.{guid_to_string}
use go_adldap.Sid.{sid_to_string}
use go_adldap.SecDesc.{SdError}
use go_adldap.SecDesc.Principals.{build_principal_sd, principal_sids}
use go_adldap.Directory.{
  scope_base, Entry, first, SearchRequest, Identity, by_sid, OpError, op_error, search, Reply, Proc,
  call, pure, fail, attempt, ◌>>=◌,
}
use go_adldap.Adcore.{Adcore}
use go_adldap.Search.{get_one}

abbrev pub object_sid : Bytes
object_sid = codes "objectSid"

-- What the first read of the domain SID gave, its error included: sync.Once runs no second one.
abbrev pub DomainSidCache : Type 0
DomainSidCache = Option (Outcome OpError Bytes)

abbrev pub domain_request : Bytes → SearchRequest
domain_request dnc = record {
  base_dn = dnc;
  scope = scope_base;
  filter = codes "(objectClass=*)";
  attributes = object_sid ∷ [];
  size_limit = 1;
  controls = [];
}

abbrev pub domain_entry : Reply → Proc Bytes
domain_entry (err e) = fail e
domain_entry (ok []) = fail (op_error transport)
domain_entry (ok (e ∷ entries)) =
    let sid = first e object_sid in if is_empty sid then fail (op_error constraint) else pure sid

abbrev read_domain : Bytes → Proc (Outcome OpError Bytes)
read_domain dnc = attempt (call (search (domain_request dnc)) domain_entry)

unfoldable pub domain_sid : Bytes → DomainSidCache → Proc (Outcome OpError Bytes × DomainSidCache)
domain_sid dnc (some o) = pure (o, some o)
domain_sid dnc none = read_domain dnc >>= λ o. pure (o, some o)

-- An operation that leaves the cache as it is.
module _ {A : Type 0} where
  abbrev pub keep_cache : DomainSidCache → Proc A → Proc (Outcome OpError A × DomainSidCache)
  keep_cache cache m = attempt m >>= λ o. pure (o, cache)

module _ (lib : Adcore) (dnc : Bytes) where
  abbrev pub sid_entry : Outcome OpError Entry → Proc Bytes
  sid_entry (err e) = if lib.is_not_found e then fail (op_error not_found) else fail e
  sid_entry (ok e) =
      let sid = first e object_sid in if is_empty sid then fail (op_error constraint) else pure sid

  abbrev pub sid_of_principal : Identity → Proc Bytes
  sid_of_principal id = attempt (get_one lib dnc id (codes "*") (object_sid ∷ []) []) >>= sid_entry

  -- principalSIDs: the loop over the identities.
  unfoldable pub identity_sids : List Identity → Proc (List Bytes)
  identity_sids [] = pure []
  identity_sids (id ∷ ids) =
      sid_of_principal id >>= λ sid. identity_sids ids >>= λ out. pure (sid ∷ out)

  abbrev cons_guid : Option Bytes → List Bytes → List Bytes
  cons_guid none out = out
  cons_guid (some guid) out = guid ∷ out

  -- An object that is gone, or has no GUID that can be read, is skipped.
  abbrev pub guid_entry : Outcome OpError Entry → Proc (Option Bytes)
  guid_entry (err e) = if lib.is_not_found e then pure none else fail e
  guid_entry (ok e) = pure (guid_to_string (first e (codes "objectGUID")))

  abbrev pub guid_of_sid : Option Bytes → Proc (Option Bytes)
  guid_of_sid none = pure none
  guid_of_sid (some s) =
      attempt (get_one lib dnc (by_sid s) (codes "*") (codes "objectGUID" ∷ []) []) >>= guid_entry

  -- The loop over the SIDs of a descriptor.
  unfoldable pub guids_of_sids : List Bytes → Proc (List Bytes)
  guids_of_sids [] = pure []
  guids_of_sids (raw ∷ sids) =
      guid_of_sid (sid_to_string raw) >>= λ g. guids_of_sids sids >>= λ out. pure (cons_guid g out)

  abbrev pub read_sids : Outcome SdError (List Bytes) → Proc (List Bytes)
  read_sids (err e) = fail (op_error constraint)
  read_sids (ok sids) = guids_of_sids sids

  unfoldable pub principal_guids : Bytes → Proc (List Bytes)
  principal_guids sd = read_sids (principal_sids sd)

  abbrev pub built : Outcome SdError Bytes → Proc Bytes
  built (err e) = fail (op_error constraint)
  built (ok sd) = pure sd

  abbrev pub sd_value_with : List Identity → Outcome OpError Bytes → Proc Bytes
  sd_value_with ids (err e) = fail e
  sd_value_with ids (ok dsid) = identity_sids ids >>= λ sids. built (build_principal_sd dsid sids)

  unfoldable pub principal_sd_value :
      List Identity → DomainSidCache → Proc (Outcome OpError Bytes × DomainSidCache)
  principal_sd_value ids cache =
      domain_sid dnc cache >>= λ (o, cache'). keep_cache cache' (sd_value_with ids o)
