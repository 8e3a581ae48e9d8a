-- ===== src/Adcore.antt =====
-- What the operations use of github.com/nemethhh/go-adcore, which is not part of the repository: a
-- record that stands for the library in each of them. Errors have no operation name and no identity here.
use go_adldap.Base.{ℕ, Bool, Option, Outcome}
use go_adldap.Base.Bytes.{Bytes}
use go_adldap.LdapErr.{Kind, not_found, too_many_results, already_exists, constraint}
use go_adldap.Directory.{Identity, OpError}

pub data SearchScope : Type 0 where
  search_scope_base search_scope_one_level search_scope_subtree : SearchScope

pub record Query : Type 0 where
  pub filter : Bytes
  pub search_base : Bytes
  pub scope : SearchScope
  pub size_limit : ℕ

pub record Adcore : Type 0 where
  pub equal : Bytes → Bytes → Bytes
  pub and_filter : Bytes → Bytes → Bytes
  pub escape_filter : Bytes → Bytes
  pub escape_value : Bytes → Bytes
  pub validate_name : Bytes → Option OpError
  pub validate_container : Bytes → Option OpError
  pub container_of : Bytes → Outcome OpError Bytes
  pub equal_fold_dn : Bytes → Bytes → Outcome OpError Bool
  pub with_identity : OpError → Identity → OpError
  pub is_not_found : OpError → Bool
  pub with_defaults : Query → Bytes → Query

-- `e.Kind == adcore.KindNotFound` and the like.
abbrev pub is_kind_not_found : Kind → Bool
is_kind_not_found not_found = Bool.true
is_kind_not_found k = Bool.false

abbrev pub is_kind_too_many : Kind → Bool
is_kind_too_many too_many_results = Bool.true
is_kind_too_many k = Bool.false

abbrev pub is_kind_already_exists : Kind → Bool
is_kind_already_exists already_exists = Bool.true
is_kind_already_exists k = Bool.false

abbrev pub is_kind_constraint : Kind → Bool
is_kind_constraint constraint = Bool.true
is_kind_constraint k = Bool.false
