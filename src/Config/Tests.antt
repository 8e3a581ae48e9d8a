-- ===== src/Config/Tests.antt =====
-- A client with a keytab.
use go_adldap.Base.{◌≡◌, ◌↔◌, false, none, some, []}
use go_adldap.Base.Text.{codes}
use go_adldap.Config.{Config, tls_ldaps, validate}
use go_adldap.Config.Laws.{IsValid, validate-IsValid}

abbrev ci : Config
ci = record {
  server = codes "dc01.x";
  tls = tls_ldaps;
  simple = none;
  kerberos = some (record {
    ccache_path = [];
    keytab = codes "ci.keytab";
    username = codes "ci";
    has_password = false;
  });
  ntlm = none;
}

validate-IsValid_example : (validate ci ≡ none) ↔ IsValid ci
validate-IsValid_example = validate-IsValid ci
