-- ===== src/User/Descriptor.antt =====
-- user.go: setCanChangePassword.
use go_adldap.Base.{Bool, true, false, not, [], ◌∷◌, if◌then◌else◌, is_empty, Outcome, ok, err}
use go_adldap.Base.Bytes.{Bytes}
use go_adldap.LdapErr.{denied, transport}
use go_adldap.SecDesc.{SdError}
use go_adldap.SecDesc.Denied.{set_denied_object_right}
use go_adldap.Directory.{first, op_error, op_error_at, search, Reply, Proc, call, pure, fail}
use go_adldap.Operation.{finished}
use go_adldap.Ou.Protection.{security_descriptor, descriptor_request, replace_descriptor}
use go_adldap.User.Data.{right_control_access, change_password_right, change_password_trustees}

-- What setCanChangePassword writes, if anything.
abbrev pub write_can_change : Bytes → Outcome SdError (Bytes × Bool) → Proc (Unit {0})
write_can_change dn (err e) = fail (op_error_at transport dn)
write_can_change dn (ok (updated, false)) = pure tt
write_can_change dn (ok (updated, true)) = call (replace_descriptor dn updated) finished

-- The Deny is there where the account cannot change its password.
abbrev pub change_current : Bytes → Bool → Bytes → Proc (Unit {0})
change_current dn can current =
    if is_empty current
    then fail (op_error_at denied dn)
    else write_can_change dn (
        set_denied_object_right current (not can) right_control_access change_password_right
          change_password_trustees)

abbrev pub read_can_change : Bytes → Bool → Reply → Proc (Unit {0})
read_can_change dn can (err e) = fail e
read_can_change dn can (ok []) = fail (op_error transport)
read_can_change dn can (ok (e ∷ entries)) = change_current dn can (first e security_descriptor)

unfoldable pub set_can_change_password : Bytes → Bool → Proc (Unit {0})
set_can_change_password dn can = call (search (descriptor_request dn)) (read_can_change dn can)
