-- ===== src/Schema/Tests.antt =====
-- The theorem over the stand-in for the library.
use go_adldap.Base.{List, [], ◌∷◌}
use go_adldap.Base.Text.{codes}
use go_adldap.Directory.Logic.{Holds}
use go_adldap.Search.Laws.{IsSearch}
use go_adldap.Search.Tests.{plain_lib, example_dn}
use go_adldap.Schema.{SchemaRef, ref_attribute, ref_extended_right, resolve}
use go_adldap.Schema.Laws.{IsResolved, resolve-IsResolved}

abbrev refs : List SchemaRef
refs =
    record { kind = ref_attribute; name = codes "member" }
    ∷ record { kind = ref_extended_right; name = codes "Reset Password" }
    ∷ record { kind = ref_attribute; name = codes "bf9679c0-0de6-11d0-a285-00aa003049e2" }
    ∷ []

resolve-IsResolved_example :
    Holds IsSearch
      (IsResolved plain_lib example_dn example_dn refs)
      []
      (resolve plain_lib example_dn example_dn refs)
resolve-IsResolved_example = resolve-IsResolved plain_lib example_dn example_dn refs
