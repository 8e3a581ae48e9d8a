-- ===== src/Memory/Retrieval/Tests.antt =====
-- A group of three three_members, in pages of two, beside another object.
use go_adldap.Base.{◌≡◌, refl, arith, true, some, List, [], ◌∷◌, ok}
use go_adldap.Base.Bytes.{Bytes}
use go_adldap.Base.Text.{codes, same_text, to_lower, lower, trim_left, trim_right, is_space}
use go_adldap.LdapErr.{not_found}
use go_adldap.Directory.{op_error, answered_by}
use go_adldap.Ranged.{ranged_values}
use go_adldap.Memory.{
  MemServer, equal_fold_dn, normalize_dn, normalize_from, lookup_fold, is_tombstone,
}
use go_adldap.Memory.Pages.{serve}
use go_adldap.Memory.Retrieval.{ranged_values-serve}

abbrev staff : Bytes
staff = codes "CN=staff"

abbrev three_members : List Bytes
three_members = codes "a" ∷ codes "b" ∷ codes "c" ∷ []

abbrev directory : MemServer
directory = record {
  entries =
      (codes "CN=x", (codes "name", codes "x" ∷ []) ∷ [])
      ∷ (staff, (codes "name", codes "staff" ∷ []) ∷ (codes "member", three_members) ∷ [])
      ∷ [];
  seq = 2;
  range_limit = 2;
}

ranged_values-serve_example :
    answered_by
      (serve (λ f a. true) (λ code. op_error not_found) directory)
      (ranged_values 5 staff (codes "member"))
    ≡ ok (some three_members)
unfolding equal_fold_dn normalize_dn normalize_from lookup_fold is_tombstone same_text to_lower
    lower trim_left trim_right is_space
ranged_values-serve_example =
    ranged_values-serve (λ f a. true) (λ code. op_error not_found) directory staff (codes "member")
      ((codes "name", codes "staff" ∷ []) ∷ (codes "member", three_members) ∷ []) three_members refl
      refl refl refl 5 (omega arith) (omega arith)
