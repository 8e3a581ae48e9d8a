-- ===== src/Config.antt =====
-- config.go: the configuration of a client, as Validate sees it. A pointer is an Option, and of a secret
-- it is only asked whether it is zero. An error is told apart by the check that made it.
pub mod Laws
mod Tests
use go_adldap.Base.{
  ℕ, ◌+◌, Bool, true, false, not, ◌&&◌, Option, none, some, ◌==◌, leb, if◌then◌else◌, is_empty,
}
use go_adldap.Base.Bytes.{Bytes}

-- The modes, with the empty one and any other text.
pub data TlsMode : Type 0 where
  tls_ldaps tls_start_tls tls_unset tls_other : TlsMode

abbrev pub default_port : TlsMode → ℕ
default_port tls_start_tls = 389
default_port m = 636

pub record SimpleAuth : Type 0 where
  pub username : Bytes

pub record KerberosAuth : Type 0 where
  pub ccache_path : Bytes
  pub keytab : Bytes
  pub username : Bytes
  pub has_password : Bool

pub record NtlmAuth : Type 0 where
  pub username : Bytes

pub record Config : Type 0 where
  pub server : Bytes
  pub tls : TlsMode
  pub simple : Option SimpleAuth
  pub kerberos : Option KerberosAuth
  pub ntlm : Option NtlmAuth

pub data ConfigError : Type 0 where
  no_server no_tls bad_tls no_auth several_auths no_simple_user no_ntlm_user several_sources
        password_without_user keytab_without_user :
      ConfigError

-- The loops that count what is set.
abbrev pub one_if : Bool → ℕ
one_if true = 1
one_if false = 0

abbrev pub is_set : {A : Type 0} → Option A → Bool
is_set none = false
is_set (some a) = true

abbrev pub auth_count : Config → ℕ
auth_count c = one_if (is_set c.simple) + one_if (is_set c.kerberos) + one_if (is_set c.ntlm)

abbrev pub source_count : KerberosAuth → ℕ
source_count k =
    one_if (not (is_empty k.ccache_path)) + one_if (not (is_empty k.keytab)) + one_if k.has_password

-- The checks in their order; each goes on where it finds nothing.
abbrev pub refuse : Bool → ConfigError → Option ConfigError → Option ConfigError
refuse true e next = some e
refuse false e next = next

abbrev pub check_tls : TlsMode → Option ConfigError → Option ConfigError
check_tls tls_unset next = some no_tls
check_tls tls_other next = some bad_tls
check_tls mode next = next

abbrev pub check_count : ℕ → Option ConfigError → Option ConfigError
check_count n next = if n == 1 then next else if n == 0 then some no_auth else some several_auths

abbrev pub check_simple : Option SimpleAuth → Option ConfigError → Option ConfigError
check_simple none next = next
check_simple (some a) next = refuse (is_empty a.username) no_simple_user next

abbrev pub check_ntlm : Option NtlmAuth → Option ConfigError → Option ConfigError
check_ntlm none next = next
check_ntlm (some a) next = refuse (is_empty a.username) no_ntlm_user next

abbrev pub check_kerberos : Option KerberosAuth → Option ConfigError
check_kerberos none = none
check_kerberos (some k) = refuse (not (leb (source_count k) 1)) several_sources (
    refuse (k.has_password && is_empty k.username) password_without_user
      (refuse (not (is_empty k.keytab) && is_empty k.username) keytab_without_user none))

unfoldable pub validate : Config → Option ConfigError
validate c = refuse (is_empty c.server) no_server (
    check_tls c.tls (
      check_count (auth_count c)
        (check_simple c.simple (check_ntlm c.ntlm (check_kerberos c.kerberos)))))
