-- ===== src/User/Password.antt =====
-- user.go: SetPassword. A password is the list of its runes, and a secret is zero where it is empty.
use go_adldap.Base.{
  ℕ, ◌+◌, ◌-◌, ◌/◌, ◌%◌, ◌&&◌, ◌||◌, List, [], ◌∷◌, ◌++◌, ltb, leb, if◌then◌else◌, is_empty,
}
use go_adldap.Base.Bytes.{Bytes, u16_bytes}
use go_adldap.Base.Text.{codes}
use go_adldap.LdapErr.{Kind, other}
use go_adldap.Directory.{
  mod_replace, Identity, op_error, modify, Request, Proc, call, fail, map_error, ◌>>=◌,
}
use go_adldap.Adcore.{Adcore}
use go_adldap.Search.{resolve_dn}
use go_adldap.Operation.{finished}

-- utf16.Encode: a rune that is none, or a surrogate, is replaced.
abbrev pub utf16_rune : ℕ → List ℕ
utf16_rune r =
    if ltb r 0xD800 || (leb 0xE000 r && ltb r 0x10000)
    then r ∷ []
    else if leb 0x10000 r && leb r 0x10FFFF
    then (0xD800 + (r - 0x10000) / 0x400) ∷ (0xDC00 + (r - 0x10000) % 0x400) ∷ []
    else 0xFFFD ∷ []

unfoldable pub utf16_encode : List ℕ → List ℕ
utf16_encode [] = []
utf16_encode (r ∷ s) = utf16_rune r ++ utf16_encode s

-- The loop over the units: the low byte first.
unfoldable pub units_bytes : List ℕ → Bytes
units_bytes [] = []
units_bytes (u ∷ units) = u16_bytes u ++ units_bytes units

unfoldable pub utf16_le_quoted : List ℕ → Bytes
utf16_le_quoted s = units_bytes (utf16_encode (34 ∷ (s ++ (34 ∷ []))))

abbrev pub password_request : Bytes → Bytes → Request
password_request dn encoded =
    modify dn (record { op = mod_replace; type = codes "unicodePwd"; vals = encoded ∷ [] } ∷ []) []

-- adcore.KindPassword, a kind that the other files do not name.
abbrev pub kind_password : Kind
kind_password = other 1

module _ (lib : Adcore) (dnc : Bytes) where
  -- SetPassword and setPasswordLocked, which differ in the lock.
  unfoldable pub set_password : Identity → List ℕ → Proc (Unit {0})
  set_password id password =
      if is_empty password
      then fail (op_error kind_password)
      else resolve_dn lib dnc id >>= λ dn.
          map_error (λ e. lib.with_identity e id)
            (call (password_request dn (utf16_le_quoted password)) finished)
