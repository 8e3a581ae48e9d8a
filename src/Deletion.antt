-- ===== src/Deletion.antt =====
-- The Delete of the directories of group.go, user.go, computer.go and gmsa.go.
mod Tests
use go_adldap.Base.{◌≡◌, true, [], ◌∷◌}
use go_adldap.Base.Bytes.{Bytes}
use go_adldap.LdapErr.{not_found}
use go_adldap.Directory.{Identity, OpError}
use go_adldap.Directory.Logic.{Holds}
use go_adldap.Adcore.{Adcore}
use go_adldap.Operation.Laws.{IsGone}
use go_adldap.Operation.Removal.{DeletesFound, remove_object-DeletesFound}
use go_adldap.Group.{group_get, group_delete}
use go_adldap.Group.Laws.{group_names, group_get-FoundOrNone}
use go_adldap.User.{user_get, user_delete}
use go_adldap.User.Laws.{user_names, user_get-FoundOrNone}
use go_adldap.Computer.{computer_get, computer_delete}
use go_adldap.Computer.Laws.{computer_names, computer_get-FoundOrNone}
use go_adldap.Gmsa.{gmsa_get, gmsa_delete}
use go_adldap.Gmsa.Laws.{gmsa_names, gmsa_get-FoundOrNone}

-- Where WithIdentity keeps the kind of an error and is_not_found tells the kind not-found from all
-- others: whatever the domain controller replies, the Delete of a group, of a user, of a computer and
-- of a service account requests the delete only of an object that a search has found alone, writes
-- nothing else, and reports success only where the last reply says that there is no such object.
pub delete-DeletesFound :
    (lib : Adcore) (dnc : Bytes)
    (kept : (e : OpError) (id : Identity) → (lib.with_identity e id).kind ≡ e.kind)
    (means : (e : OpError) → lib.is_not_found e ≡ true → e.kind ≡ not_found)
    (exact : (e : OpError) → e.kind ≡ not_found → lib.is_not_found e ≡ true) (id : Identity)
    → Holds DeletesFound IsGone [] (group_delete lib dnc id)
      × Holds DeletesFound IsGone [] (user_delete lib dnc id)
      × Holds DeletesFound IsGone [] (computer_delete lib dnc id)
      × Holds DeletesFound IsGone [] (gmsa_delete lib dnc id)
unfolding group_delete user_delete computer_delete gmsa_delete
delete-DeletesFound lib dnc kept means exact id = (
  remove_object-DeletesFound group_names lib means (group_get lib dnc)
      (group_get-FoundOrNone lib dnc kept) id,
  remove_object-DeletesFound user_names lib means (user_get lib dnc)
      (user_get-FoundOrNone lib dnc kept) id,
  remove_object-DeletesFound computer_names lib means (computer_get lib dnc)
      (computer_get-FoundOrNone lib dnc kept exact) id,
  remove_object-DeletesFound gmsa_names lib means (gmsa_get lib dnc)
      (gmsa_get-FoundOrNone lib dnc kept exact) id,
)
