-- ===== src/User/Data.antt =====
-- user.go: a user, its specification, and what is written for the one to become the other.
use go_adldap.Base.{
  ℕ, Bool, true, false, not, Option, none, some, List, [], ◌∷◌, ◌++◌, bit_or, if◌then◌else◌,
  is_empty, Outcome, ok,
}
use go_adldap.Base.Bytes.{Bytes}
use go_adldap.Base.Text.{codes, same_text}
use go_adldap.Guid.{guid_to_bytes}
use go_adldap.SecDesc.{SdError}
use go_adldap.SecDesc.Protection.{everyone}
use go_adldap.SecDesc.Denied.{has_denied_object_right}
use go_adldap.Directory.{Attribute, Modification}
use go_adldap.Operation.{string_mods}
use go_adldap.Account.{
  uac_normal_account, uac_account_disable, uac_dont_expire_password, uint32_string, and_not,
  apply_flag, replace_mod, control_mods, is_wanted, is_refused, Expiration, expiration_mods,
  expiration_add, attribute, sam_mods,
}
use go_adldap.Group.Data.{added_text}

abbrev pub right_control_access : ℕ
right_control_access = 0x00000100

abbrev or_empty : Option Bytes → Bytes
or_empty none = []
or_empty (some b) = b

-- mustGUID of a GUID that can be read.
abbrev pub change_password_right : Bytes
change_password_right = or_empty (guid_to_bytes (codes "ab721a53-1e2f-11d0-9819-00aa0040529b"))

abbrev sid_self : Bytes
sid_self = 1 ∷ 1 ∷ 0 ∷ 0 ∷ 0 ∷ 0 ∷ 0 ∷ 5 ∷ 10 ∷ 0 ∷ 0 ∷ 0 ∷ []

abbrev pub change_password_trustees : List Bytes
change_password_trustees = everyone ∷ sid_self ∷ []

-- adcore.User. A time is an int64 of nanoseconds.
pub record User : Type 0 where
  pub guid : Bytes
  pub dn : Bytes
  pub name : Bytes
  pub sam_account_name : Bytes
  pub user_principal_name : Bytes
  pub display_name : Bytes
  pub given_name : Bytes
  pub surname : Bytes
  pub description : Bytes
  pub container : Bytes
  pub enabled : Bool
  pub password_expires : Bool
  pub change_password_at_logon : Bool
  pub can_change_password : Bool
  pub account_expiration : Option ℕ
  pub sid : Bytes

-- adcore.UserSpec: a pointer is an Option. The password is the list of its runes.
pub record UserSpec : Type 0 where
  pub name : Option Bytes
  pub sam_account_name : Bytes
  pub container : Bytes
  pub user_principal_name : Option Bytes
  pub display_name : Option Bytes
  pub given_name : Option Bytes
  pub surname : Option Bytes
  pub description : Option Bytes
  pub enabled : Option Bool
  pub password_expires : Option Bool
  pub change_password_at_logon : Option Bool
  pub can_change_password : Option Bool
  pub account_expiration : Expiration
  pub password : Option (List ℕ)

abbrev pub user_attrs : List Bytes
user_attrs =
    codes "objectGUID"
    ∷ codes "distinguishedName"
    ∷ codes "name"
    ∷ codes "sAMAccountName"
    ∷ codes "userPrincipalName"
    ∷ codes "displayName"
    ∷ codes "givenName"
    ∷ codes "sn"
    ∷ codes "description"
    ∷ codes "userAccountControl"
    ∷ codes "objectSid"
    ∷ codes "pwdLastSet"
    ∷ codes "accountExpires"
    ∷ codes "nTSecurityDescriptor"
    ∷ []

abbrev pub can_change : Bytes → Outcome SdError Bool
can_change sd =
    if is_empty sd
    then ok false
    else has_denied_object_right sd right_control_access change_password_right
        change_password_trustees

abbrev pub is_zero_text : Bytes → Bool
is_zero_text s = same_text s (codes "0")

unfoldable pub apply_uac : ℕ → UserSpec → ℕ
apply_uac current spec =
    apply_flag spec.password_expires uac_dont_expire_password
      (apply_flag spec.enabled uac_account_disable current)

-- The control that an update takes for the current one.
unfoldable pub current_uac : User → ℕ
current_uac current =
    let out =
      if current.enabled
      then uac_normal_account
      else bit_or uac_normal_account uac_account_disable in
    if current.password_expires then out else bit_or out uac_dont_expire_password

unfoldable pub uac_mods : User → UserSpec → List Modification
uac_mods current spec = control_mods (current_uac current) (apply_uac (current_uac current) spec)

-- -1 stamps the present time.
abbrev logon_text : Bool → Bytes
logon_text true = codes "0"
logon_text false = codes "-1"

abbrev pub same_flag : Bool → Bool → Bool
same_flag true b = b
same_flag false b = not b

abbrev pub logon_mods : Option Bool → Bool → List Modification
logon_mods none current = []
logon_mods (some want) current =
    if same_flag want current then [] else replace_mod (codes "pwdLastSet") (logon_text want) ∷ []

unfoldable pub user_mods : UserSpec → User → List Modification
user_mods spec current =
    sam_mods spec.sam_account_name current.sam_account_name spec.sam_account_name
    ++ (string_mods (codes "userPrincipalName") spec.user_principal_name current.user_principal_name
        ++ (string_mods (codes "displayName") spec.display_name current.display_name
            ++ (string_mods (codes "givenName") spec.given_name current.given_name
                ++ (string_mods (codes "sn") spec.surname current.surname
                    ++ (string_mods (codes "description") spec.description current.description
                        ++ (uac_mods current spec
                            ++ (expiration_mods spec.account_expiration
                                ++ logon_mods spec.change_password_at_logon
                                    current.change_password_at_logon)))))))

-- The control of a new account, which is disabled until it has a password.
unfoldable pub created_uac : UserSpec → ℕ
created_uac spec =
    let uac = bit_or uac_normal_account uac_account_disable in
    if is_refused spec.password_expires then bit_or uac uac_dont_expire_password else uac

abbrev pub name_or : Option Bytes → Bytes → Bytes
name_or none name = name
name_or (some want) name = if is_empty want then name else want

unfoldable pub user_add : UserSpec → List Attribute
user_add spec =
    record {
      type = codes "objectClass";
      vals = codes "top" ∷ codes "person" ∷ codes "organizationalPerson" ∷ codes "user" ∷ [];
    }
    ∷ attribute (codes "cn") (name_or spec.name spec.sam_account_name)
    ∷ attribute (codes "sAMAccountName") spec.sam_account_name
    ∷ attribute (codes "userAccountControl") (uint32_string (created_uac spec))
    ∷ (added_text (codes "userPrincipalName") spec.user_principal_name
        ++ (added_text (codes "displayName") spec.display_name
            ++ (added_text (codes "givenName") spec.given_name
                ++ (added_text (codes "sn") spec.surname
                    ++ (added_text (codes "description") spec.description
                        ++ expiration_add spec.account_expiration)))))

-- What is written behind the password.
unfoldable pub post_mods : UserSpec → List Modification
post_mods spec =
    let rest =
      if is_wanted spec.enabled
      then replace_mod (codes "userAccountControl")
          (uint32_string (and_not (created_uac spec) uac_account_disable))
        ∷ []
      else [] in
    if is_wanted spec.change_password_at_logon
    then replace_mod (codes "pwdLastSet") (codes "0") ∷ rest
    else rest
