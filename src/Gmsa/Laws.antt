-- ===== src/Gmsa/Laws.antt =====
-- The read of a group managed service account.
use go_adldap.Base.{ℕ, ◌≡◌, refl, true, Option, none, some, Outcome, ok, err}
use go_adldap.Base.Bytes.{Bytes}
use go_adldap.LdapErr.{not_found}
use go_adldap.Directory.{Entry, Identity, OpError}
use go_adldap.Directory.Logic.{History, Holds}
use go_adldap.Adcore.{Adcore}
use go_adldap.Search.Laws.{IsSearch}
use go_adldap.Operation.Removal.{FoundOrNone, dn_or}
use go_adldap.Machine.Laws.{get_machine-FoundOrNone}
use go_adldap.Gmsa.Data.{Gmsa, membership, with_principals}
use go_adldap.Gmsa.{gmsa_get, gmsa_model, gmsa_of}

-- An account is told apart by its DN and its GUID.
abbrev pub gmsa_names : Gmsa → Bytes × Bytes
gmsa_names m = (m.dn, m.guid)

module _ (lib : Adcore) (dnc : Bytes) where
  gmsa_model-dn_or : (e : Entry) → dn_or gmsa_names e.dn (gmsa_model lib e) ≡ e.dn
  unfolding gmsa_model
  gmsa_model-dn_or e = by_parts _ (lib.container_of e.dn) _ _ _ _
    where
      by_parts :
          (guid : Option Bytes) (container : Outcome OpError Bytes) (uac : Option ℕ)
          (expires : Option (Option ℕ)) (enc days : Option ℕ)
          → dn_or gmsa_names e.dn (gmsa_of lib e guid container uac expires enc days) ≡ e.dn
      by_parts none container uac expires enc days = refl
      by_parts (some guid) (err bad) uac expires enc days = refl
      by_parts (some guid) (ok container) none expires enc days = refl
      by_parts (some guid) (ok container) (some uac) none enc days = refl
      by_parts (some guid) (ok container) (some uac) (some expires) none days = refl
      by_parts (some guid) (ok container) (some uac) (some expires) (some types) none = refl
      by_parts (some guid) (ok container) (some uac) (some expires) (some types) (some interval) =
          refl

  module _ (kept : (e : OpError) (id : Identity) → (lib.with_identity e id).kind ≡ e.kind)
      (exact : (e : OpError) → e.kind ≡ not_found → lib.is_not_found e ≡ true) where
    pub gmsa_get-FoundOrNone :
        (h : History) (id : Identity)
        → Holds IsSearch (FoundOrNone gmsa_names) h (gmsa_get lib dnc id)
    unfolding gmsa_get
    gmsa_get-FoundOrNone h id =
        get_machine-FoundOrNone lib dnc exact gmsa_names (gmsa_model lib) with_principals membership
          gmsa_model-dn_or (λ m guids. refl) kept h id _ _ _
