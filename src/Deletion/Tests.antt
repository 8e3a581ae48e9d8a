-- ===== src/Deletion/Tests.antt =====
-- The deletes over the stand-in for the library.
use go_adldap.Base.{refl, ap, []}
use go_adldap.Base.Text.{codes}
use go_adldap.Directory.{by_sam}
use go_adldap.Directory.Logic.{Holds}
use go_adldap.Adcore.{is_kind_not_found}
use go_adldap.Search.Laws.{is_kind_not_found_eq}
use go_adldap.Search.Tests.{plain_lib, example_dn}
use go_adldap.Operation.Laws.{IsGone}
use go_adldap.Operation.Removal.{DeletesFound}
use go_adldap.Group.{group_delete}
use go_adldap.User.{user_delete}
use go_adldap.Computer.{computer_delete}
use go_adldap.Gmsa.{gmsa_delete}
use go_adldap.Deletion.{delete-DeletesFound}

delete-DeletesFound_example :
    Holds DeletesFound IsGone [] (group_delete plain_lib example_dn (by_sam (codes "staff")))
    × Holds DeletesFound IsGone [] (user_delete plain_lib example_dn (by_sam (codes "staff")))
    × Holds DeletesFound IsGone [] (computer_delete plain_lib example_dn (by_sam (codes "staff")))
    × Holds DeletesFound IsGone [] (gmsa_delete plain_lib example_dn (by_sam (codes "staff")))
delete-DeletesFound_example =
    delete-DeletesFound plain_lib example_dn (λ e id. refl) (λ e. is_kind_not_found_eq e.kind)
      (λ e. ap is_kind_not_found) (by_sam (codes "staff"))
