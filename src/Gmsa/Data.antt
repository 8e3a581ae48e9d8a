-- ===== src/Gmsa/Data.antt =====
-- gmsa.go: a group managed service account, its specification, and what is written for the one to
-- become the other.
use go_adldap.Base.{ℕ, Bool, Option, none, some, List, [], ◌∷◌, ◌++◌}
use go_adldap.Base.Bytes.{Bytes}
use go_adldap.Base.Text.{codes}
use go_adldap.Directory.{Attribute, Modification, Identity}
use go_adldap.FileTime.{format_int64}
use go_adldap.Operation.{string_mods}
use go_adldap.Account.{
  uint32_string, Expiration, expiration_mods, expiration_add, attribute, sam_mods,
}
use go_adldap.Group.Data.{added_text}
use go_adldap.Machine.{
  sam_with_dollar, replace_multi, added_multi, enc_mods, enc_add, created_machine_uac,
  machine_uac_mods, sd_mods,
}

-- adcore.GMSA.
pub record Gmsa : Type 0 where
  pub guid : Bytes
  pub dn : Bytes
  pub name : Bytes
  pub sam_account_name : Bytes
  pub container : Bytes
  pub sid : Bytes
  pub dns_host_name : Bytes
  pub description : Bytes
  pub display_name : Bytes
  pub enabled : Bool
  pub trusted_for_delegation : Bool
  pub service_principal_names : List Bytes
  pub principals_allowed : List Bytes
  pub kerberos_encryption_type : List Bytes
  pub managed_password_interval_in_days : ℕ
  pub account_expiration : Option ℕ

-- adcore.GMSASpec: a pointer is an Option, and so is a slice that is nil. The host name, which the
-- validation of a create requires, is a pointer that only the create reads unguarded. An int is the
-- 64-bit word that stands for it.
pub record GmsaSpec : Type 0 where
  pub name : Bytes
  pub sam_account_name : Bytes
  pub container : Bytes
  pub enabled : Option Bool
  pub dns_host_name : Option Bytes
  pub description : Option Bytes
  pub display_name : Option Bytes
  pub trusted_for_delegation : Option Bool
  pub service_principal_names : Option (List Bytes)
  pub principals_allowed : Option (List Identity)
  pub kerberos_encryption_type : Option (List Bytes)
  pub managed_password_interval_in_days : Option ℕ
  pub account_expiration : Expiration

abbrev pub gmsa_class : Bytes
gmsa_class = codes "msDS-GroupManagedServiceAccount"

abbrev default_managed_password_interval : ℕ
default_managed_password_interval = 30

abbrev pub membership : Bytes
membership = codes "msDS-GroupMSAMembership"

abbrev pub gmsa_attrs : List Bytes
gmsa_attrs =
    codes "objectGUID"
    ∷ codes "distinguishedName"
    ∷ codes "name"
    ∷ codes "sAMAccountName"
    ∷ codes "objectSid"
    ∷ codes "dNSHostName"
    ∷ codes "description"
    ∷ codes "displayName"
    ∷ codes "userAccountControl"
    ∷ codes "servicePrincipalName"
    ∷ membership
    ∷ codes "msDS-SupportedEncryptionTypes"
    ∷ codes "msDS-ManagedPasswordInterval"
    ∷ codes "accountExpires"
    ∷ []

abbrev pub with_principals : Gmsa → List Bytes → Gmsa
with_principals m guids = record m { principals_allowed = guids }

-- A nil slice of principals ranges over nobody.
abbrev pub or_nobody : Option (List Identity) → List Identity
or_nobody none = []
or_nobody (some ids) = ids

abbrev interval_or_default : Option ℕ → ℕ
interval_or_default none = default_managed_password_interval
interval_or_default (some days) = days

-- The attributes of a new account, behind its host name and the descriptor of its principals.
unfoldable pub gmsa_add : GmsaSpec → Bytes → Bytes → List Attribute
gmsa_add spec host sd =
    record {
      type = codes "objectClass";
      vals =
          codes "top"
          ∷ codes "person"
          ∷ codes "organizationalPerson"
          ∷ codes "user"
          ∷ codes "computer"
          ∷ gmsa_class
          ∷ [];
    }
    ∷ attribute (codes "cn") spec.name
    ∷ attribute (codes "sAMAccountName") (sam_with_dollar spec.sam_account_name)
    ∷ attribute (codes "userAccountControl")
        (uint32_string (created_machine_uac spec.enabled spec.trusted_for_delegation))
    ∷ attribute (codes "dNSHostName") host
    ∷ attribute membership sd
    ∷ (added_text (codes "description") spec.description
        ++ (added_text (codes "displayName") spec.display_name
            ++ (added_multi (codes "servicePrincipalName") spec.service_principal_names
                ++ (enc_add spec.kerberos_encryption_type
                    ++ (attribute (codes "msDS-ManagedPasswordInterval") (
                          format_int64 (interval_or_default spec.managed_password_interval_in_days))
                        ∷ expiration_add spec.account_expiration)))))

unfoldable pub gmsa_mods : GmsaSpec → Gmsa → Option Bytes → List Modification
gmsa_mods spec current sd =
    sam_mods spec.sam_account_name current.sam_account_name (sam_with_dollar spec.sam_account_name)
    ++ (string_mods (codes "dNSHostName") spec.dns_host_name current.dns_host_name
        ++ (string_mods (codes "description") spec.description current.description
            ++ (string_mods (codes "displayName") spec.display_name current.display_name
                ++ (replace_multi (codes "servicePrincipalName") spec.service_principal_names
                    ++ (enc_mods spec.kerberos_encryption_type
                        ++ (sd_mods membership sd
                            ++ (machine_uac_mods spec.enabled spec.trusted_for_delegation
                                  current.enabled current.trusted_for_delegation
                                ++ expiration_mods spec.account_expiration)))))))
