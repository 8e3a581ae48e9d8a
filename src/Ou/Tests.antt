-- ===== src/Ou/Tests.antt =====
-- The theorems over the stand-in for the library.
use go_adldap.Base.{refl, true, []}
use go_adldap.Directory.{by_dn}
use go_adldap.Directory.Logic.{Holds}
use go_adldap.Search.Laws.{is_kind_not_found_eq}
use go_adldap.Search.Tests.{plain_lib, example_dn}
use go_adldap.Ou.{ou_delete}
use go_adldap.Operation.Laws.{IsGone}
use go_adldap.Ou.Laws.{DeletesSafely, ou_delete-Safe}

ou_delete-Safe_example :
    Holds DeletesSafely IsGone [] (ou_delete plain_lib example_dn (by_dn example_dn) true)
ou_delete-Safe_example =
    ou_delete-Safe plain_lib example_dn (λ e id. refl) (λ e. is_kind_not_found_eq e.kind)
      (by_dn example_dn) true
