-- ===== src/SecDesc/Denied/Tests.antt =====
-- One extended right denied to S-1-5-10 on a bare descriptor, on concrete bytes.
use go_adldap.Base.{◌≡◌, refl, true, [], ◌∷◌, ok, arith}
use go_adldap.Base.Bytes.{Bytes}
use go_adldap.SecDesc.{Parsed, parse, serialize, part_at, acl_len, aces, build_acl, put, header}
use go_adldap.SecDesc.Edit.{with_entries}
use go_adldap.SecDesc.Protection.Tests.{bare, bare_bytes, bare_parsed, bare_entries}
use go_adldap.SecDesc.Denied.{
  denied_object_ace, skip_write, has_denied_object_right, set_denied_object_right,
}
use go_adldap.SecDesc.Denied.Laws.{has_denied-set_denied}

abbrev object_type : Bytes
object_type = 1 ∷ 2 ∷ 3 ∷ 4 ∷ 5 ∷ 6 ∷ 7 ∷ 8 ∷ 9 ∷ 10 ∷ 11 ∷ 12 ∷ 13 ∷ 14 ∷ 15 ∷ 16 ∷ []

abbrev self_sid : Bytes
self_sid = 1 ∷ 1 ∷ 0 ∷ 0 ∷ 0 ∷ 0 ∷ 0 ∷ 5 ∷ 10 ∷ 0 ∷ 0 ∷ 0 ∷ []

abbrev denied : Parsed
denied = record bare {
  dacl =
      4 ∷ 0 ∷ 48 ∷ 0 ∷ 1 ∷ 0 ∷ 0 ∷ 0 ∷ 6 ∷ 0 ∷ 40 ∷ 0 ∷ 0 ∷ 1 ∷ 0 ∷ 0 ∷ 1 ∷ 0 ∷ 0 ∷ 0 ∷ 1 ∷ 2 ∷ 3
      ∷ 4 ∷ 5 ∷ 6 ∷ 7 ∷ 8 ∷ 9 ∷ 10 ∷ 11 ∷ 12 ∷ 13 ∷ 14 ∷ 15 ∷ 16 ∷ self_sid;
}

abbrev denied_bytes : Bytes
denied_bytes =
    1 ∷ 0 ∷ 4 ∷ 0x80 ∷ 0 ∷ 0 ∷ 0 ∷ 0 ∷ 0 ∷ 0 ∷ 0 ∷ 0 ∷ 0 ∷ 0 ∷ 0 ∷ 0 ∷ 20 ∷ 0 ∷ 0 ∷ 0 ∷ denied.dacl

denied_parsed : parse denied_bytes ≡ ok denied
unfolding parse part_at acl_len
denied_parsed = refl

deny_runs :
    set_denied_object_right bare_bytes true 0x100 object_type (self_sid ∷ [])
    ≡ ok (denied_bytes, true)
unfolding set_denied_object_right parse part_at acl_len aces denied_object_ace skip_write
    with_entries build_acl serialize put header
deny_runs = refl

has_denied-set_denied_example :
    has_denied_object_right denied_bytes 0x100 object_type (self_sid ∷ []) ≡ ok true
unfolding denied_object_ace
has_denied-set_denied_example =
    has_denied-set_denied bare_bytes (omega arith) bare [] bare_parsed bare_entries 0x100
      (omega arith) (omega arith) object_type refl self_sid [] (omega arith) true denied_bytes true
      deny_runs
