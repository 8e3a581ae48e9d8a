-- ===== src/SecDesc/Principals/Tests.antt =====
-- One principal in the domain S-1-5-21-1-2-3, on concrete bytes.
use go_adldap.Base.{◌≡◌, refl, [], ◌∷◌, arith, map, ok}
use go_adldap.Base.Bytes.{Bytes}
use go_adldap.SecDesc.{serialize, sid_len}
use go_adldap.SecDesc.Principals.{
  domain_admins_sid, build_principal_sd, principal_aces, principal_parsed, allow_full_ace,
  principal_sids,
}
use go_adldap.SecDesc.Principals.RoundTrip.{principal_sids-build_principal_sd}

abbrev domain : Bytes
domain =
    1 ∷ 4 ∷ 0 ∷ 0 ∷ 0 ∷ 0 ∷ 0 ∷ 5 ∷ 21 ∷ 0 ∷ 0 ∷ 0 ∷ 1 ∷ 0 ∷ 0 ∷ 0 ∷ 2 ∷ 0 ∷ 0 ∷ 0 ∷ 3 ∷ 0 ∷ 0 ∷ 0
    ∷ []

abbrev admins : Bytes
admins =
    1 ∷ 5 ∷ 0 ∷ 0 ∷ 0 ∷ 0 ∷ 0 ∷ 5 ∷ 21 ∷ 0 ∷ 0 ∷ 0 ∷ 1 ∷ 0 ∷ 0 ∷ 0 ∷ 2 ∷ 0 ∷ 0 ∷ 0 ∷ 3 ∷ 0 ∷ 0 ∷ 0
    ∷ 0 ∷ 2 ∷ 0 ∷ 0 ∷ []

abbrev host : Bytes
host =
    1 ∷ 5 ∷ 0 ∷ 0 ∷ 0 ∷ 0 ∷ 0 ∷ 5 ∷ 21 ∷ 0 ∷ 0 ∷ 0 ∷ 1 ∷ 0 ∷ 0 ∷ 0 ∷ 2 ∷ 0 ∷ 0 ∷ 0 ∷ 3 ∷ 0 ∷ 0 ∷ 0
    ∷ 0xe9 ∷ 3 ∷ 0 ∷ 0 ∷ []

abbrev written : Bytes
written = serialize (principal_parsed admins (map allow_full_ace (host ∷ [])))

built : build_principal_sd domain (host ∷ []) ≡ ok written
unfolding build_principal_sd domain_admins_sid principal_aces sid_len
built = refl

principal_sids-build_principal_sd_example : principal_sids written ≡ ok (host ∷ [])
unfolding allow_full_ace
principal_sids-build_principal_sd_example =
    principal_sids-build_principal_sd domain written (host ∷ []) (omega arith) (omega arith)
      (omega arith) built
