-- ===== src/User/Tests.antt =====
-- An account that is to be disabled, and the create of one with a password.
use go_adldap.Base.{◌≡◌, ◌==◌, true, false, none, some, [], ◌∷◌, if◌then◌else◌}
use go_adldap.Base.Text.{codes}
use go_adldap.Search.Tests.{example_dn}
use go_adldap.Account.{replace_mod, uint32_string, expires_unset}
use go_adldap.User.Data.{User, UserSpec, uac_mods, current_uac}
use go_adldap.User.Control.{ReadsAs, wanted_control, uac_mods_lem}

abbrev pub ann : User
ann = record {
  guid = [];
  dn = example_dn;
  name = codes "ann";
  sam_account_name = codes "ann";
  user_principal_name = [];
  display_name = [];
  given_name = [];
  surname = [];
  description = [];
  container = example_dn;
  enabled = true;
  password_expires = false;
  change_password_at_logon = false;
  can_change_password = true;
  account_expiration = none;
  sid = [];
}

abbrev pub leave : UserSpec
leave = record {
  name = none;
  sam_account_name = codes "ann";
  container = example_dn;
  user_principal_name = none;
  display_name = none;
  given_name = none;
  surname = none;
  description = none;
  enabled = some false;
  password_expires = none;
  change_password_at_logon = none;
  can_change_password = none;
  account_expiration = expires_unset;
  password = none;
}

abbrev join : UserSpec
join = record leave { enabled = some true; password = some (codes "secret") }

uac_mods_lem_example :
    (uac_mods ann leave ≡ (
      if wanted_control ann leave == current_uac ann
      then []
      else replace_mod (codes "userAccountControl") (uint32_string (wanted_control ann leave))
        ∷ []))
    × ReadsAs (wanted_control ann leave) false false
uac_mods_lem_example = uac_mods_lem ann leave
