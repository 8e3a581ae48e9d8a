-- ===== src/Config/Laws.antt =====
-- The configurations that Validate lets through.
use go_adldap.Base.{
  ◌+◌, ◌≡◌, ◌⊎◌, ◌↔◌, inl, inr, refl, arith, Bool, true, false, not, ◌&&◌, Option, none, some, leb,
  is_empty,
}
use go_adldap.Config.{
  TlsMode, tls_ldaps, tls_start_tls, tls_unset, tls_other, SimpleAuth, KerberosAuth, NtlmAuth,
  Config, ConfigError, refuse, check_tls, check_simple, check_ntlm, check_kerberos, validate,
  check_count, is_set, no_simple_user, no_ntlm_user, no_server, one_if, several_sources,
  password_without_user, keytab_without_user,
}

-- At most one credential is named, and a user with a keytab or a password.
abbrev pub OneSource : KerberosAuth → Type 0
OneSource k =
    ((is_empty k.keytab ≡ true) × (k.has_password ≡ false))
    ⊎ ((is_empty k.username ≡ false)
        × (is_empty k.ccache_path ≡ true)
        × ((is_empty k.keytab ≡ true) ⊎ (k.has_password ≡ false)))

-- Exactly one way to authenticate, with what it needs.
abbrev pub OneAuth : Option SimpleAuth → Option KerberosAuth → Option NtlmAuth → Type 0
OneAuth (some a) none none = is_empty a.username ≡ false
OneAuth none (some k) none = OneSource k
OneAuth none none (some a) = is_empty a.username ≡ false
OneAuth simple kerberos ntlm = ⊥

abbrev pub IsValid : Config → Type 0
IsValid c =
    (is_empty c.server ≡ false)
    × (((c.tls ≡ tls_ldaps) ⊎ (c.tls ≡ tls_start_tls)) × OneAuth c.simple c.kerberos c.ntlm)

pub refuse_iff :
    (b : Bool) (e : ConfigError) (next : Option ConfigError) {P : Type 0}
    → (next ≡ none) ↔ P
    → (refuse b e next ≡ none) ↔ ((b ≡ false) × P)
refuse_iff true e next p = (λ h. cc, λ (h, x). cc)
refuse_iff false e next p = (λ h. (refl, p.0 h), λ (h, x). p.1 x)

refuse_last : (b : Bool) (e : ConfigError) → (refuse b e none ≡ none) ↔ (b ≡ false)
refuse_last true e = (λ h. cc, λ h. cc)
refuse_last false e = (λ h. refl, λ h. refl)

tls_iff :
    (mode : TlsMode) (next : Option ConfigError) {P : Type 0}
    → (next ≡ none) ↔ P
    → (check_tls mode next ≡ none) ↔ (((mode ≡ tls_ldaps) ⊎ (mode ≡ tls_start_tls)) × P)
tls_iff tls_ldaps next p = (λ h. (inl refl, p.0 h), λ (h, x). p.1 x)
tls_iff tls_start_tls next p = (λ h. (inr refl, p.0 h), λ (h, x). p.1 x)
tls_iff tls_unset next p = (λ h. cc, λ (h, x). absurd (wrong h))
  where
    wrong : (tls_unset ≡ tls_ldaps) ⊎ (tls_unset ≡ tls_start_tls) → ⊥
    wrong (inl h) = cc
    wrong (inr h) = cc
tls_iff tls_other next p = (λ h. cc, λ (h, x). absurd (wrong h))
  where
    wrong : (tls_other ≡ tls_ldaps) ⊎ (tls_other ≡ tls_start_tls) → ⊥
    wrong (inl h) = cc
    wrong (inr h) = cc

kerberos_iff : (k : KerberosAuth) → (check_kerberos (some k) ≡ none) ↔ OneSource k
kerberos_iff k =
    by_parts (is_empty k.ccache_path) (is_empty k.keytab) (is_empty k.username) k.has_password
  where
    by_parts :
        (p q u b : Bool)
        → (refuse
              (not (leb (one_if (not p) + one_if (not q) + one_if b) 1))
              several_sources
              (refuse (b && u) password_without_user (refuse (not q && u) keytab_without_user none))
            ≡ none)
          ↔ (((q ≡ true) × (b ≡ false)) ⊎ ((u ≡ false) × (p ≡ true) × ((q ≡ true) ⊎ (b ≡ false))))
    by_parts p q u b = ground arith

auth_iff :
    (simple : Option SimpleAuth) (kerberos : Option KerberosAuth) (ntlm : Option NtlmAuth)
    → (check_count
          (one_if (is_set simple) + one_if (is_set kerberos) + one_if (is_set ntlm))
          (check_simple simple (check_ntlm ntlm (check_kerberos kerberos)))
        ≡ none)
      ↔ OneAuth simple kerberos ntlm
auth_iff none none none = (λ h. cc, λ h. absurd h)
auth_iff (some a) none none = refuse_last (is_empty a.username) no_simple_user
auth_iff none (some k) none = kerberos_iff k
auth_iff none none (some a) = refuse_last (is_empty a.username) no_ntlm_user
auth_iff (some a) (some k) none = (λ h. cc, λ h. absurd h)
auth_iff (some a) none (some b) = (λ h. cc, λ h. absurd h)
auth_iff none (some k) (some b) = (λ h. cc, λ h. absurd h)
auth_iff (some a) (some k) (some b) = (λ h. cc, λ h. absurd h)

-- Validate finds no error exactly where the configuration has a server, one of the two modes, and
-- exactly one way to authenticate: by name, by NTLM with a name, or by Kerberos with at most one
-- credential, and a name where that is a keytab or a password.
pub validate-IsValid : (c : Config) → (validate c ≡ none) ↔ IsValid c
unfolding validate
validate-IsValid c =
    refuse_iff (is_empty c.server) no_server _
      (tls_iff c.tls _ (auth_iff c.simple c.kerberos c.ntlm))
