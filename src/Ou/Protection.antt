-- ===== src/Ou/Protection.antt =====
-- ou.go: setProtection, and the write of a descriptor.
use go_adldap.Base.{Bool, true, false, [], ◌∷◌, if◌then◌else◌, is_empty, Outcome, ok, err}
use go_adldap.Base.Bytes.{Bytes}
use go_adldap.Base.Text.{codes}
use go_adldap.LdapErr.{denied, transport}
use go_adldap.SecDesc.{SdError}
use go_adldap.SecDesc.Protection.{set_protected}
use go_adldap.Directory.{
  scope_base, mod_replace, first, SearchRequest, sd_dacl, op_error, op_error_at, Request, search,
  modify, Reply, Proc, call, pure, fail,
}
use go_adldap.Operation.{finished}

abbrev pub security_descriptor : Bytes
security_descriptor = codes "nTSecurityDescriptor"

abbrev pub descriptor_request : Bytes → SearchRequest
descriptor_request dn = record {
  base_dn = dn;
  scope = scope_base;
  filter = codes "(objectClass=*)";
  attributes = security_descriptor ∷ [];
  size_limit = 1;
  controls = sd_dacl ∷ [];
}

abbrev pub replace_descriptor : Bytes → Bytes → Request
replace_descriptor dn sd =
    modify dn (record { op = mod_replace; type = security_descriptor; vals = sd ∷ [] } ∷ [])
      (sd_dacl ∷ [])

-- What setProtection writes, if anything.
abbrev pub write_protection : Bytes → Outcome SdError (Bytes × Bool) → Proc (Unit {0})
write_protection dn (err e) = fail (op_error_at transport dn)
write_protection dn (ok (updated, false)) = pure tt
write_protection dn (ok (updated, true)) = call (replace_descriptor dn updated) finished

abbrev pub protect_current : Bytes → Bool → Bytes → Proc (Unit {0})
protect_current dn want current =
    if is_empty current
    then fail (op_error_at denied dn)
    else write_protection dn (set_protected current want)

-- An object that is gone is no LDAP error, and is classified as one of transport.
abbrev pub read_protection : Bytes → Bool → Reply → Proc (Unit {0})
read_protection dn want (err e) = fail e
read_protection dn want (ok []) = fail (op_error transport)
read_protection dn want (ok (e ∷ entries)) = protect_current dn want (first e security_descriptor)

unfoldable pub set_protection : Bytes → Bool → Proc (Unit {0})
set_protection dn want = call (search (descriptor_request dn)) (read_protection dn want)
