-- ===== src/Idle/Tests.antt =====
-- A user, a computer and a service account.
use go_adldap.Base.{◌≡◌, ◌↔◌, true, false, none, some, []}
use go_adldap.Base.Text.{codes}
use go_adldap.Search.Tests.{example_dn}
use go_adldap.Account.{expires_unset}
use go_adldap.User.Data.{user_mods}
use go_adldap.User.Tests.{ann, leave}
use go_adldap.Computer.Data.{Computer, ComputerSpec, computer_mods}
use go_adldap.Gmsa.Data.{Gmsa, GmsaSpec, gmsa_mods}
use go_adldap.Idle.Updates.{UserAgrees, ComputerAgrees, GmsaAgrees, updates-Agree}

abbrev server : Computer
server = record {
  guid = [];
  dn = example_dn;
  name = codes "SRV01";
  sam_account_name = codes "SRV01";
  container = example_dn;
  sid = [];
  enabled = true;
  dns_host_name = codes "srv01.x";
  description = [];
  display_name = [];
  location = [];
  managed_by = [];
  trusted_for_delegation = false;
  service_principal_names = [];
  allowed_to_delegate_to = [];
  principals_allowed = [];
  kerberos_encryption_type = [];
  account_expiration = none;
  operating_system = [];
  operating_system_version = [];
}

abbrev server_spec : ComputerSpec
server_spec = record {
  name = codes "SRV01";
  sam_account_name = codes "SRV01";
  container = example_dn;
  enabled = some false;
  dns_host_name = some (codes "srv01.x");
  description = none;
  display_name = none;
  location = none;
  managed_by = none;
  trusted_for_delegation = none;
  service_principal_names = none;
  allowed_to_delegate_to = none;
  principals_allowed = none;
  kerberos_encryption_type = none;
  account_expiration = expires_unset;
}

abbrev service : Gmsa
service = record {
  guid = [];
  dn = example_dn;
  name = codes "svc";
  sam_account_name = codes "svc";
  container = example_dn;
  sid = [];
  dns_host_name = codes "svc.x";
  description = [];
  display_name = [];
  enabled = true;
  trusted_for_delegation = false;
  service_principal_names = [];
  principals_allowed = [];
  kerberos_encryption_type = [];
  managed_password_interval_in_days = 30;
  account_expiration = none;
}

abbrev service_spec : GmsaSpec
service_spec = record {
  name = codes "svc";
  sam_account_name = codes "svc";
  container = example_dn;
  enabled = none;
  dns_host_name = some (codes "svc.x");
  description = none;
  display_name = none;
  trusted_for_delegation = some false;
  service_principal_names = none;
  principals_allowed = none;
  kerberos_encryption_type = none;
  managed_password_interval_in_days = some 10;
  account_expiration = expires_unset;
}

updates-Agree_example :
    ((user_mods leave ann ≡ []) ↔ UserAgrees leave ann)
    × ((computer_mods server_spec server none ≡ []) ↔ ComputerAgrees server_spec server none)
    × ((gmsa_mods service_spec service none ≡ []) ↔ GmsaAgrees service_spec service none)
updates-Agree_example = updates-Agree leave ann server_spec server service_spec service none
