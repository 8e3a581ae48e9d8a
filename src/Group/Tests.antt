-- ===== src/Group/Tests.antt =====
-- The theorems over the stand-in for the library.
use go_adldap.Base.{[], ◌∷◌}
use go_adldap.Base.Text.{codes}
use go_adldap.Directory.{mod_add, by_dn, by_sam}
use go_adldap.Directory.Logic.{Holds}
use go_adldap.Search.Tests.{plain_lib, example_dn}
use go_adldap.Group.Membership.{edit_members}
use go_adldap.Group.Edits.{Edits, IsEdited, edit_members-IsEdited}

edit_members-IsEdited_example :
    Holds
      (Edits (by_sam (codes "ann") ∷ by_dn example_dn ∷ []) mod_add)
      (IsEdited (by_sam (codes "ann") ∷ by_dn example_dn ∷ []) mod_add)
      []
      (edit_members plain_lib example_dn
        (by_sam (codes "staff"))
        (by_sam (codes "ann") ∷ by_dn example_dn ∷ [])
        mod_add)
edit_members-IsEdited_example =
    edit_members-IsEdited plain_lib example_dn (by_sam (codes "staff"))
      (by_sam (codes "ann") ∷ by_dn example_dn ∷ []) mod_add
