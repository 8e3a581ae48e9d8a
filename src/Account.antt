-- ===== src/Account.antt =====
-- What users, computers and group managed service accounts share: the account control, the time of
-- expiry, and the attributes of a new account.
use go_adldap.Base.{
  ℕ, Bool, true, false, not, ◌&&◌, Option, none, some, List, [], ◌∷◌, bit_and, bit_or, ◌==◌,
  if◌then◌else◌, is_empty,
}
use Prim.Native.Nat.{bit_xor}
use go_adldap.Base.Bytes.{Bytes}
use go_adldap.Base.Text.{codes, same_text}
use go_adldap.GroupType.{parse_group_type, group_type_string}
use go_adldap.FileTime.{time_to_file_time}
use go_adldap.Sid.{sid_to_string}
use go_adldap.Directory.{mod_replace, Attribute, Modification, Entry, first}

abbrev pub uac_account_disable : ℕ
uac_account_disable = 0x0002

abbrev pub uac_normal_account : ℕ
uac_normal_account = 0x0200

abbrev pub uac_dont_expire_password : ℕ
uac_dont_expire_password = 0x10000

abbrev pub uac_workstation_trust_account : ℕ
uac_workstation_trust_account = 0x1000

abbrev pub uac_trusted_for_delegation : ℕ
uac_trusted_for_delegation = 0x80000

-- ParseUint32 and Uint32String have the bodies of the functions of groupType.
unfoldable pub parse_uint32 : Bytes → Option ℕ
parse_uint32 s = parse_group_type s

unfoldable pub uint32_string : ℕ → Bytes
uint32_string v = group_type_string v

-- An integer attribute, 0 where it is absent.
abbrev pub control_of : Bytes → Option ℕ
control_of raw = if is_empty raw then some 0 else parse_uint32 raw

-- `a &^ b`
abbrev pub and_not : ℕ → ℕ → ℕ
and_not a b = bit_xor a (bit_and a b)

-- A flag that is stated positively, by the bit that is its negation.
abbrev pub apply_flag : Option Bool → ℕ → ℕ → ℕ
apply_flag none bit out = out
apply_flag (some true) bit out = and_not out bit
apply_flag (some false) bit out = bit_or out bit

abbrev pub replace_mod : Bytes → Bytes → Modification
replace_mod attr v = record { op = mod_replace; type = attr; vals = v ∷ [] }

-- The write of a control that differs.
abbrev pub control_mods : ℕ → ℕ → List Modification
control_mods current want =
    if want == current
    then []
    else replace_mod (codes "userAccountControl") (uint32_string want) ∷ []

abbrev pub is_wanted : Option Bool → Bool
is_wanted none = false
is_wanted (some b) = b

abbrev pub is_refused : Option Bool → Bool
is_refused none = false
is_refused (some b) = not b

-- adcore's time of expiry in a specification: left alone, cleared, or a time.
pub data Expiration : Type 0 where
  expires_unset expires_cleared : Expiration
  expires_at : ℕ → Expiration

abbrev pub expiration_mods : Expiration → List Modification
expiration_mods expires_unset = []
expiration_mods expires_cleared = replace_mod (codes "accountExpires") (codes "0") ∷ []
expiration_mods (expires_at t) = replace_mod (codes "accountExpires") (time_to_file_time t) ∷ []

abbrev pub attribute : Bytes → Bytes → Attribute
attribute attr v = record { type = attr; vals = v ∷ [] }

abbrev pub expiration_add : Expiration → List Attribute
expiration_add (expires_at t) = attribute (codes "accountExpires") (time_to_file_time t) ∷ []
expiration_add e = []

abbrev some_or_empty : Option Bytes → Bytes
some_or_empty none = []
some_or_empty (some s) = s

-- mustSID: an entry without a SID that can be read has an empty one.
abbrev pub must_sid : Entry → Bytes
must_sid e =
    let raw = first e (codes "objectSid") in
    if is_empty raw then [] else some_or_empty (sid_to_string raw)

abbrev pub sam_mods : Bytes → Bytes → Bytes → List Modification
sam_mods want current written =
    if not (is_empty want) && not (same_text want current)
    then replace_mod (codes "sAMAccountName") written ∷ []
    else []
