-- ===== src/Computer/Laws.antt =====
-- The read of a computer.
use go_adldap.Base.{ℕ, ◌≡◌, refl, true, Option, none, some, Outcome, ok, err}
use go_adldap.Base.Bytes.{Bytes}
use go_adldap.LdapErr.{not_found}
use go_adldap.Directory.{Entry, Identity, OpError}
use go_adldap.Directory.Logic.{History, Holds}
use go_adldap.Adcore.{Adcore}
use go_adldap.Search.Laws.{IsSearch}
use go_adldap.Operation.Removal.{FoundOrNone, dn_or}
use go_adldap.Machine.Laws.{get_machine-FoundOrNone}
use go_adldap.Computer.Data.{Computer, rbcd, with_principals}
use go_adldap.Computer.{computer_get, computer_model, computer_of}

-- A computer is told apart by its DN and its GUID.
abbrev pub computer_names : Computer → Bytes × Bytes
computer_names m = (m.dn, m.guid)

module _ (lib : Adcore) (dnc : Bytes) where
  computer_model-dn_or : (e : Entry) → dn_or computer_names e.dn (computer_model lib e) ≡ e.dn
  unfolding computer_model
  computer_model-dn_or e = by_parts _ (lib.container_of e.dn) _ _ _
    where
      by_parts :
          (guid : Option Bytes) (container : Outcome OpError Bytes) (uac : Option ℕ)
          (expires : Option (Option ℕ)) (enc : Option ℕ)
          → dn_or computer_names e.dn (computer_of lib e guid container uac expires enc) ≡ e.dn
      by_parts none container uac expires enc = refl
      by_parts (some guid) (err bad) uac expires enc = refl
      by_parts (some guid) (ok container) none expires enc = refl
      by_parts (some guid) (ok container) (some uac) none enc = refl
      by_parts (some guid) (ok container) (some uac) (some expires) none = refl
      by_parts (some guid) (ok container) (some uac) (some expires) (some types) = refl

  module _ (kept : (e : OpError) (id : Identity) → (lib.with_identity e id).kind ≡ e.kind)
      (exact : (e : OpError) → e.kind ≡ not_found → lib.is_not_found e ≡ true) where
    pub computer_get-FoundOrNone :
        (h : History) (id : Identity)
        → Holds IsSearch (FoundOrNone computer_names) h (computer_get lib dnc id)
    unfolding computer_get
    computer_get-FoundOrNone h id =
        get_machine-FoundOrNone lib dnc exact computer_names (computer_model lib) with_principals
          rbcd computer_model-dn_or (λ m guids. refl) kept h id _ _ _
