-- ===== src/User/Laws.antt =====
-- The read of a user.
use go_adldap.Base.{◌≡◌, refl, Bool, Option, none, some, Outcome, ok, err, ℕ}
use go_adldap.Base.Bytes.{Bytes}
use go_adldap.SecDesc.{SdError}
use go_adldap.Directory.{Entry, Identity, OpError}
use go_adldap.Directory.Logic.{History, Holds}
use go_adldap.Adcore.{Adcore}
use go_adldap.Search.Laws.{IsSearch}
use go_adldap.User.Data.{User}
use go_adldap.Operation.Removal.{
  IsRead, FoundOrNone, dn_or, get_model-IsRead, get_model-FoundOrNone,
}
use go_adldap.User.{user_get, user_model, user_of}

-- A user is told apart by its DN and its GUID.
abbrev pub user_names : User → Bytes × Bytes
user_names m = (m.dn, m.guid)

module _ (lib : Adcore) (dnc : Bytes) where
  user_model-dn_or : (e : Entry) → dn_or user_names e.dn (user_model lib e) ≡ e.dn
  unfolding user_model
  user_model-dn_or e = by_parts _ (lib.container_of e.dn) _ _ _
    where
      by_parts :
          (guid : Option Bytes) (container : Outcome OpError Bytes) (uac : Option ℕ)
          (expires : Option (Option ℕ)) (denied_change : Outcome SdError Bool)
          → dn_or user_names e.dn (user_of lib e guid container uac expires denied_change) ≡ e.dn
      by_parts none container uac expires denied_change = refl
      by_parts (some guid) (err bad) uac expires denied_change = refl
      by_parts (some guid) (ok container) none expires denied_change = refl
      by_parts (some guid) (ok container) (some uac) none denied_change = refl
      by_parts (some guid) (ok container) (some uac) (some expires) (err bad) = refl
      by_parts (some guid) (ok container) (some uac) (some expires) (ok denied_now) = refl

  pub user_get-IsRead :
      (h : History) (id : Identity) → Holds IsSearch (IsRead user_names) h (user_get lib dnc id)
  unfolding user_get
  user_get-IsRead h id =
      get_model-IsRead user_names lib dnc h id _ _ _ (user_model lib) user_model-dn_or

  module _ (kept : (e : OpError) (id : Identity) → (lib.with_identity e id).kind ≡ e.kind) where
    pub user_get-FoundOrNone :
        (h : History) (id : Identity)
        → Holds IsSearch (FoundOrNone user_names) h (user_get lib dnc id)
    unfolding user_get
    user_get-FoundOrNone h id =
        get_model-FoundOrNone user_names lib dnc kept h id _ _ _ (user_model lib) user_model-dn_or
