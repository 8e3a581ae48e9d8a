-- ===== src/Guid/Tests.antt =====
-- The GUID of the right to change a password.
use go_adldap.Base.{◌≡◌, refl, arith, some, [], ◌∷◌, All}
use go_adldap.Base.Bytes.{Bytes, IsByte}
use go_adldap.Base.Text.{codes}
use go_adldap.Guid.{guid_to_string, guid_to_bytes, hex_number, hex_bytes}
use go_adldap.Guid.RoundTrip.{guid_to_bytes-guid_to_string}

abbrev change_password : Bytes
change_password =
    0x53 ∷ 0x1a ∷ 0x72 ∷ 0xab ∷ 0x2f ∷ 0x1e ∷ 0xd0 ∷ 0x11 ∷ 0x98 ∷ 0x19 ∷ 0x00 ∷ 0xaa ∷ 0x00 ∷ 0x40
    ∷ 0x52 ∷ 0x9b ∷ []

change_password-IsByte : All IsByte change_password
change_password-IsByte = omega arith

guid_to_bytes-guid_to_string_example :
    guid_to_bytes (codes "ab721a53-1e2f-11d0-9819-00aa0040529b") ≡ some change_password
unfolding guid_to_string hex_number hex_bytes
guid_to_bytes-guid_to_string_example =
    guid_to_bytes-guid_to_string change_password (codes "ab721a53-1e2f-11d0-9819-00aa0040529b")
      change_password-IsByte refl
