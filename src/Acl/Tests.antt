-- ===== src/Acl/Tests.antt =====
-- S-1-5-10 is granted a right on the bare descriptor, under a key that joins the parts of an entry.
use go_adldap.Base.{◌≡◌, refl, subst, arith, false, some, List, [], ◌∷◌, ◌++◌, concat, ok}
use go_adldap.Base.Bytes.{Bytes}
use go_adldap.Base.Text.{
  codes, trim_left, trim_right, is_space, to_lower, lower, same_text, decimal,
}
use go_adldap.SecDesc.Protection.Tests.{bare, bare_bytes, bare_parsed, bare_entries}
use go_adldap.SecDesc.Ace.{DecodedAce, decode_aces, encode_ace, encode_body, ace_type_of}
use go_adldap.SecDesc.Ace.Tests.{
  self_read, granted_bytes, grant_runs, bare_decoded, self_read-IsEncodable,
}
use go_adldap.SecDesc.Inheritance.{this_object, flags_for, inheritance_of}
use go_adldap.Directory.{by_dn}
use go_adldap.Directory.Logic.{Holds}
use go_adldap.Search.Tests.{plain_lib, example_dn}
use go_adldap.Sid.{
  sid_from_string, split_dashes, parse_parts, parse_uint, all_decimal, decimal_from, parse_subs,
  sid_to_string, big_endian, subs_text,
}
use go_adldap.Rights.{rights_mask, mask_from, find_right, rights_names, walk}
use go_adldap.Operation.Laws.{Anything}
use go_adldap.Acl.{
  Ace, allow, aces_of, ace_of, decode, explicit_keys, missing, guid_or_empty, acl_grant,
}
use go_adldap.Acl.Safety.{WritesMade, IsGranted, acl_grant-IsGranted}
use go_adldap.Acl.Effect.{IsStable, missing-add_aces}

abbrev key : Ace → Bytes
key ace = ace.trustee ++ (concat ace.rights ++ ace.object_type)

abbrev wanted : Ace
wanted = record {
  trustee = codes "S-1-5-10";
  type = allow;
  rights = codes "ReadProperty" ∷ codes "GenericExecute" ∷ [];
  object_type = [];
  inherited_object_type = [];
  inheritance = this_object;
  inherited = false;
}

wanted_decoded : decode wanted ≡ some self_read
unfolding decode sid_from_string split_dashes parse_parts parse_uint all_decimal decimal_from
    parse_subs rights_mask mask_from find_right flags_for trim_left trim_right is_space to_lower
    lower same_text
wanted_decoded = refl

read_back : ace_of self_read ≡ some wanted
unfolding ace_of sid_to_string big_endian subs_text decimal rights_names walk guid_or_empty
    inheritance_of
read_back = refl

wanted-IsStable : IsStable plain_lib example_dn key wanted
wanted-IsStable d e =
    let same : self_read ≡ d = cc (e, wanted_decoded) in
    (wanted, subst (λ x. ace_of x ≡ some wanted) same read_back, refl)

nothing_there : missing plain_lib example_dn key [] (wanted ∷ []) ≡ some (self_read ∷ [])
unfolding missing
nothing_there = rw wanted_decoded refl

missing-add_aces_example :
    (after : List DecodedAce) × (decode_aces granted_bytes ≡ ok after)
    × (missing plain_lib example_dn key
          (explicit_keys plain_lib example_dn key (aces_of after))
          (wanted ∷ [])
        ≡ some [])
unfolding encode_ace encode_body ace_type_of aces_of explicit_keys
missing-add_aces_example =
    missing-add_aces plain_lib example_dn key bare_bytes (omega arith) bare [] bare_parsed
      bare_entries [] (self_read ∷ []) bare_decoded (wanted ∷ []) (wanted-IsStable, tt)
      nothing_there (self_read-IsEncodable, tt) (omega arith) granted_bytes _ grant_runs

acl_grant-IsGranted_example :
    Holds
      (WritesMade (IsGranted plain_lib example_dn key (wanted ∷ [])))
      Anything
      []
      (acl_grant plain_lib example_dn key (by_dn example_dn) (wanted ∷ []))
acl_grant-IsGranted_example =
    acl_grant-IsGranted plain_lib example_dn key (wanted ∷ []) (by_dn example_dn)
