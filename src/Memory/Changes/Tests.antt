-- ===== src/Memory/Changes/Tests.antt =====
-- A directory of one object, with the requests for it, in another spelling.
use go_adldap.Base.{refl, none, [], ◌∷◌, Outcome, ok}
use go_adldap.Base.Bytes.{Bytes}
use go_adldap.Base.Text.{codes}
use go_adldap.Account.{attribute, replace_mod}
use go_adldap.Directory.{OpError}
use go_adldap.Memory.{MemServer}
use go_adldap.Memory.Store.{memory_add, memory_modify, memory_delete}
use go_adldap.Memory.Move.{memory_modify_dn}
use go_adldap.Memory.Move.Laws.{AfterMove}
use go_adldap.Memory.Changes.{AfterAdd, AfterModify, AfterDelete, memory-IsUnique}
use go_adldap.Memory.Store.Unique.{IsUnique}

abbrev directory : MemServer
directory = record {
  entries = (codes "CN=x", (codes "name", codes "x" ∷ []) ∷ []) ∷ [];
  seq = 1;
  range_limit = 0;
}

abbrev in_domain : Bytes → Outcome OpError Bytes
in_domain dn = ok (codes "DC=corp")

memory-IsUnique_example :
    (let (o, m') =
        memory_add
          (λ dn. none)
          directory
          (codes "cn=x")
          (attribute (codes "objectClass") (codes "user") ∷ []) in
      IsUnique m'.entries × AfterAdd directory (codes "cn=x") o m')
    × (let (o, m') =
          memory_modify directory (codes "cn=x") (replace_mod (codes "name") (codes "y") ∷ []) in
        IsUnique m'.entries × AfterModify directory o m')
    × (let (o, m') = memory_delete directory (codes "cn=x") in
        IsUnique m'.entries × AfterDelete directory (codes "cn=x") o m')
    × (let (o, m') =
          memory_modify_dn (λ dn. none) in_domain directory (codes "cn=x") (codes "CN=z") [] in
        AfterMove in_domain directory (codes "cn=x") (codes "CN=z") [] o m')
memory-IsUnique_example =
    memory-IsUnique (λ dn. none) in_domain directory (refl, tt) (codes "cn=x")
      (attribute (codes "objectClass") (codes "user") ∷ [])
      (replace_mod (codes "name") (codes "y") ∷ []) (codes "CN=z") []
