-- ===== src/Computer/Data.antt =====
-- computer.go: a computer, its specification, and what is written for the one to become the other.
use go_adldap.Base.{ℕ, Bool, Option, List, [], ◌∷◌, ◌++◌}
use go_adldap.Base.Bytes.{Bytes}
use go_adldap.Base.Text.{codes}
use go_adldap.Directory.{Attribute, Modification, Identity}
use go_adldap.Operation.{string_mods}
use go_adldap.Account.{
  uint32_string, Expiration, expiration_mods, expiration_add, attribute, sam_mods,
}
use go_adldap.Group.Data.{added_text}
use go_adldap.Machine.{
  sam_with_dollar, replace_multi, added_multi, enc_mods, enc_add, created_machine_uac,
  machine_uac_mods, sd_mods, sd_add,
}

-- adcore.Computer.
pub record Computer : Type 0 where
  pub guid : Bytes
  pub dn : Bytes
  pub name : Bytes
  pub sam_account_name : Bytes
  pub container : Bytes
  pub sid : Bytes
  pub enabled : Bool
  pub dns_host_name : Bytes
  pub description : Bytes
  pub display_name : Bytes
  pub location : Bytes
  pub managed_by : Bytes
  pub trusted_for_delegation : Bool
  pub service_principal_names : List Bytes
  pub allowed_to_delegate_to : List Bytes
  pub principals_allowed : List Bytes
  pub kerberos_encryption_type : List Bytes
  pub account_expiration : Option ℕ
  pub operating_system : Bytes
  pub operating_system_version : Bytes

-- adcore.ComputerSpec: a pointer is an Option, and so is a slice that is nil.
pub record ComputerSpec : Type 0 where
  pub name : Bytes
  pub sam_account_name : Bytes
  pub container : Bytes
  pub enabled : Option Bool
  pub dns_host_name : Option Bytes
  pub description : Option Bytes
  pub display_name : Option Bytes
  pub location : Option Bytes
  pub managed_by : Option Bytes
  pub trusted_for_delegation : Option Bool
  pub service_principal_names : Option (List Bytes)
  pub allowed_to_delegate_to : Option (List Bytes)
  pub principals_allowed : Option (List Identity)
  pub kerberos_encryption_type : Option (List Bytes)
  pub account_expiration : Expiration

abbrev pub rbcd : Bytes
rbcd = codes "msDS-AllowedToActOnBehalfOfOtherIdentity"

abbrev pub computer_attrs : List Bytes
computer_attrs =
    codes "objectGUID"
    ∷ codes "distinguishedName"
    ∷ codes "name"
    ∷ codes "sAMAccountName"
    ∷ codes "objectSid"
    ∷ codes "dNSHostName"
    ∷ codes "description"
    ∷ codes "displayName"
    ∷ codes "location"
    ∷ codes "managedBy"
    ∷ codes "userAccountControl"
    ∷ codes "servicePrincipalName"
    ∷ codes "msDS-AllowedToDelegateTo"
    ∷ rbcd
    ∷ codes "msDS-SupportedEncryptionTypes"
    ∷ codes "accountExpires"
    ∷ codes "operatingSystem"
    ∷ codes "operatingSystemVersion"
    ∷ []

abbrev pub with_principals : Computer → List Bytes → Computer
with_principals m guids = record m { principals_allowed = guids }

unfoldable pub computer_add : ComputerSpec → Option Bytes → List Attribute
computer_add spec sd =
    record {
      type = codes "objectClass";
      vals =
          codes "top"
          ∷ codes "person"
          ∷ codes "organizationalPerson"
          ∷ codes "user"
          ∷ codes "computer"
          ∷ [];
    }
    ∷ attribute (codes "cn") spec.name
    ∷ attribute (codes "sAMAccountName") (sam_with_dollar spec.sam_account_name)
    ∷ attribute (codes "userAccountControl")
        (uint32_string (created_machine_uac spec.enabled spec.trusted_for_delegation))
    ∷ (added_text (codes "dNSHostName") spec.dns_host_name
        ++ (added_text (codes "description") spec.description
            ++ (added_text (codes "displayName") spec.display_name
                ++ (added_text (codes "location") spec.location
                    ++ (added_text (codes "managedBy") spec.managed_by
                        ++ (added_multi (codes "servicePrincipalName") spec.service_principal_names
                            ++ (added_multi (codes "msDS-AllowedToDelegateTo")
                                  spec.allowed_to_delegate_to
                                ++ (enc_add spec.kerberos_encryption_type
                                    ++ (expiration_add spec.account_expiration
                                        ++ sd_add rbcd sd)))))))))

unfoldable pub computer_mods : ComputerSpec → Computer → Option Bytes → List Modification
computer_mods spec current sd =
    sam_mods spec.sam_account_name current.sam_account_name (sam_with_dollar spec.sam_account_name)
    ++ (string_mods (codes "dNSHostName") spec.dns_host_name current.dns_host_name
        ++ (string_mods (codes "description") spec.description current.description
            ++ (string_mods (codes "displayName") spec.display_name current.display_name
                ++ (string_mods (codes "location") spec.location current.location
                    ++ (string_mods (codes "managedBy") spec.managed_by current.managed_by
                        ++ (replace_multi (codes "servicePrincipalName")
                              spec.service_principal_names
                            ++ (replace_multi (codes "msDS-AllowedToDelegateTo")
                                  spec.allowed_to_delegate_to
                                ++ (enc_mods spec.kerberos_encryption_type
                                    ++ (sd_mods rbcd sd
                                        ++ (machine_uac_mods spec.enabled
                                              spec.trusted_for_delegation current.enabled
                                              current.trusted_for_delegation
                                            ++ expiration_mods spec.account_expiration))))))))))
