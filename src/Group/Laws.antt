-- ===== src/Group/Laws.antt =====
-- The delete of a group, and the edit of its members.
use go_adldap.Base.{◌≡◌, refl, Option, none, some, Outcome, ok, err}
use go_adldap.Base.Bytes.{Bytes}
use go_adldap.GroupType.{GroupScope, GroupCategory}
use go_adldap.Directory.{Entry, Identity, OpError}
use go_adldap.Directory.Logic.{History, Holds}
use go_adldap.Adcore.{Adcore}
use go_adldap.Search.Laws.{IsSearch}
use go_adldap.Group.Data.{Group}
use go_adldap.Operation.Removal.{
  IsRead, FoundOrNone, dn_or, get_model-IsRead, get_model-FoundOrNone,
}
use go_adldap.Group.{group_get, group_model, group_of}

-- A group is told apart by its DN and its GUID.
abbrev pub group_names : Group → Bytes × Bytes
group_names m = (m.dn, m.guid)

module _ (lib : Adcore) (dnc : Bytes) where
  group_model-dn_or : (e : Entry) → dn_or group_names e.dn (group_model lib e) ≡ e.dn
  unfolding group_model
  group_model-dn_or e = by_parts _ (lib.container_of e.dn) _ _
    where
      by_parts :
          (guid : Option Bytes) (container : Outcome OpError Bytes) (sid : Option Bytes)
          (parts : Option (GroupScope × GroupCategory))
          → dn_or group_names e.dn (group_of lib e guid container sid parts) ≡ e.dn
      by_parts none container sid parts = refl
      by_parts (some guid) (err bad) sid parts = refl
      by_parts (some guid) (ok container) none parts = refl
      by_parts (some guid) (ok container) (some sid) none = refl
      by_parts (some guid) (ok container) (some sid) (some (scope, category)) = refl

  pub group_get-IsRead :
      (h : History) (id : Identity) → Holds IsSearch (IsRead group_names) h (group_get lib dnc id)
  unfolding group_get
  group_get-IsRead h id =
      get_model-IsRead group_names lib dnc h id _ _ _ (group_model lib) group_model-dn_or

  module _ (kept : (e : OpError) (id : Identity) → (lib.with_identity e id).kind ≡ e.kind) where
    pub group_get-FoundOrNone :
        (h : History) (id : Identity)
        → Holds IsSearch (FoundOrNone group_names) h (group_get lib dnc id)
    unfolding group_get
    group_get-FoundOrNone h id =
        get_model-FoundOrNone group_names lib dnc kept h id _ _ _ (group_model lib)
          group_model-dn_or
