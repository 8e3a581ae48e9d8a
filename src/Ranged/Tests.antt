-- ===== src/Ranged/Tests.antt =====
-- A domain controller that hands out three values in pages of two.
use go_adldap.Base.{zero, suc, ◌≡◌, refl, arith, List, [], ◌∷◌, if◌then◌else◌, some, ok}
use go_adldap.Base.Bytes.{Bytes}
use go_adldap.Base.Text.{codes, same_text, to_lower, lower, decimal}
use go_adldap.Directory.{Entry, Request, Reply, search, add, modify, modify_dn, delete, answered_by}
use go_adldap.Ranged.{ranged_values}
use go_adldap.Ranged.Paging.{page, IsPaged, ranged_values-IsPaged}

abbrev attr : Bytes
attr = codes "member"

abbrev spelled : Bytes
spelled = codes "Member"

abbrev three : List Bytes
three = codes "a" ∷ codes "b" ∷ codes "c" ∷ []

abbrev page_asked : List Bytes → Entry
page_asked [] = record { dn = []; attrs = [] }
page_asked (want ∷ rest) =
    if same_text want (codes "member;range=0-*")
    then page spelled (λ _. 2) three [] 0
    else if same_text want (codes "member;range=1-*")
    then page spelled (λ _. 2) three [] 1
    else if same_text want (codes "member;range=2-*")
    then page spelled (λ _. 2) three [] 2
    else page spelled (λ _. 2) three [] 3

abbrev server : Request → Reply
server (search r) = ok (page_asked r.attributes ∷ [])
server (add dn attrs) = ok []
server (modify dn mods controls) = ok []
server (modify_dn dn rdn del sup) = ok []
server (delete dn) = ok []

server-IsPaged : IsPaged spelled (λ _. 2) three [] attr server
unfolding same_text decimal
server-IsPaged zero h = (omega arith, refl)
server-IsPaged (suc zero) h = (omega arith, refl)
server-IsPaged (suc (suc zero)) h = (omega arith, refl)
server-IsPaged (suc (suc (suc zero))) h = (omega arith, refl)
server-IsPaged (suc (suc (suc (suc n)))) h = absurd (omega arith)

ranged_values-IsPaged_example : answered_by server (ranged_values 5 [] attr) ≡ ok (some three)
unfolding to_lower lower
ranged_values-IsPaged_example =
    ranged_values-IsPaged spelled (λ _. 2) three [] attr server 5 refl (omega arith) (omega arith)
      server-IsPaged
