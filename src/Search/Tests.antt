-- ===== src/Search/Tests.antt =====
-- A stand-in for the library.
use go_adldap.Base.{none, ◌++◌, ok}
use go_adldap.Base.Bytes.{Bytes}
use go_adldap.Base.Text.{codes, same_text}
use go_adldap.Adcore.{Adcore, is_kind_not_found}

abbrev pub plain_lib : Adcore
plain_lib = record {
  equal = λ attr value. codes "(" ++ (attr ++ (codes "=" ++ (value ++ codes ")")));
  and_filter = λ a b. codes "(&" ++ (a ++ (b ++ codes ")"));
  escape_filter = λ s. s;
  escape_value = λ s. s;
  validate_name = λ s. none;
  validate_container = λ s. none;
  container_of = λ dn. ok dn;
  equal_fold_dn = λ a b. ok (same_text a b);
  with_identity = λ e id. e;
  is_not_found = λ e. is_kind_not_found e.kind;
  with_defaults = λ q dnc. q;
}

abbrev pub example_dn : Bytes
example_dn = codes "OU=a,DC=x"
