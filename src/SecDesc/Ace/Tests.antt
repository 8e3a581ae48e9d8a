-- ===== src/SecDesc/Ace/Tests.antt =====
-- Entries added to a bare descriptor and removed from it again, on concrete bytes.
use go_adldap.Base.{◌≡◌, refl, Bool, true, false, not, [], ◌∷◌, arith, filter, ok, some, inl, inr}
use go_adldap.Base.Bytes.{Bytes}
use go_adldap.SecDesc.{
  parse, serialize, part_at, acl_len, sid_len, aces, build_acl, put, header, Parsed,
}
use go_adldap.SecDesc.Edit.{with_entries}
use go_adldap.SecDesc.Protection.Tests.{bare, bare_bytes, bare_parsed, bare_entries}
use go_adldap.SecDesc.Ace.{
  DecodedAce, decode_ace, encode_ace, decode_aces, decode_all, add_aces, remove_aces,
  acl_revision_for, IsEncodable, encode_body, ace_type_of, decode_rest, ace_kind, read_guids,
  read_trustee, is_inherited, keep_loop, drops,
}
use go_adldap.SecDesc.Ace.RoundTrip.{decode_ace-encode_ace}
use go_adldap.SecDesc.Ace.Add.{decode_aces-add_aces}
use go_adldap.SecDesc.Ace.Remove.{decode_aces-remove_aces, candidate}

-- S-1-5-10 may read, by a plain ACE.
abbrev pub self_read : DecodedAce
self_read = record {
  trustee_sid = 1 ∷ 1 ∷ 0 ∷ 0 ∷ 0 ∷ 0 ∷ 0 ∷ 5 ∷ 10 ∷ 0 ∷ 0 ∷ 0 ∷ [];
  deny = false;
  mask = 0x20014;
  object_type = [];
  inherited_object_type = [];
  flags = 0;
  inherited = false;
}

abbrev guid : Bytes
guid = 1 ∷ 2 ∷ 3 ∷ 4 ∷ 5 ∷ 6 ∷ 7 ∷ 8 ∷ 9 ∷ 10 ∷ 11 ∷ 12 ∷ 13 ∷ 14 ∷ 15 ∷ 16 ∷ []

-- The same trustee, denied on one object type.
abbrev self_denied : DecodedAce
self_denied = record self_read { deny = true; mask = 0x100; inherited_object_type = guid }

abbrev granted : Parsed
granted = record bare {
  dacl =
      2 ∷ 0 ∷ 28 ∷ 0 ∷ 1 ∷ 0 ∷ 0 ∷ 0 ∷ 0 ∷ 0 ∷ 20 ∷ 0 ∷ 0x14 ∷ 0 ∷ 2 ∷ 0 ∷ 1 ∷ 1 ∷ 0 ∷ 0 ∷ 0 ∷ 0 ∷ 0
      ∷ 5 ∷ 10 ∷ 0 ∷ 0 ∷ 0 ∷ [];
}

abbrev pub granted_bytes : Bytes
granted_bytes =
    1 ∷ 0 ∷ 4 ∷ 0x80 ∷ 0 ∷ 0 ∷ 0 ∷ 0 ∷ 0 ∷ 0 ∷ 0 ∷ 0 ∷ 0 ∷ 0 ∷ 0 ∷ 0 ∷ 20 ∷ 0 ∷ 0 ∷ 0 ∷ 2 ∷ 0 ∷ 28
    ∷ 0 ∷ 1 ∷ 0 ∷ 0 ∷ 0 ∷ 0 ∷ 0 ∷ 20 ∷ 0 ∷ 0x14 ∷ 0 ∷ 2 ∷ 0 ∷ 1 ∷ 1 ∷ 0 ∷ 0 ∷ 0 ∷ 0 ∷ 0 ∷ 5 ∷ 10 ∷ 0
    ∷ 0 ∷ 0 ∷ []

abbrev entry : Bytes
entry = 0 ∷ 0 ∷ 20 ∷ 0 ∷ 0x14 ∷ 0 ∷ 2 ∷ 0 ∷ 1 ∷ 1 ∷ 0 ∷ 0 ∷ 0 ∷ 0 ∷ 0 ∷ 5 ∷ 10 ∷ 0 ∷ 0 ∷ 0 ∷ []

granted_parsed : parse granted_bytes ≡ ok granted
unfolding parse part_at acl_len
granted_parsed = refl

granted_entries : aces granted.dacl ≡ ok (entry ∷ [])
unfolding aces
granted_entries = refl

granted_decoded : decode_aces granted_bytes ≡ ok (self_read ∷ [])
unfolding decode_aces parse part_at acl_len aces decode_all decode_ace ace_kind decode_rest
    read_guids read_trustee sid_len is_inherited
granted_decoded = refl

pub grant_runs : add_aces bare_bytes (self_read ∷ []) ≡ ok (granted_bytes, true)
unfolding add_aces parse part_at acl_len aces encode_ace encode_body ace_type_of acl_revision_for
    with_entries build_acl serialize put header
grant_runs = refl

abbrev everything : DecodedAce → Bool
everything d = true

revoke_runs : remove_aces granted_bytes everything ≡ ok (bare_bytes, true)
unfolding remove_aces parse part_at acl_len aces keep_loop drops decode_ace ace_kind decode_rest
    read_guids read_trustee sid_len is_inherited acl_revision_for with_entries build_acl serialize
    put header
revoke_runs = refl

pub bare_decoded : decode_aces bare_bytes ≡ ok []
unfolding decode_aces parse part_at acl_len aces decode_all
bare_decoded = refl

decode_ace-encode_ace_example : decode_ace (encode_ace self_denied) ≡ ok (some self_denied)
unfolding is_inherited
decode_ace-encode_ace_example = decode_ace-encode_ace self_denied (record {
  mask_u32 = omega arith;
  guid = inl refl;
  inherited_guid = inr refl;
  sid = omega arith;
  inherited_flag = refl;
})

pub self_read-IsEncodable : IsEncodable self_read
unfolding is_inherited
self_read-IsEncodable = record {
  mask_u32 = omega arith;
  guid = inl refl;
  inherited_guid = inl refl;
  sid = omega arith;
  inherited_flag = refl;
}

decode_aces-add_aces_example : decode_aces granted_bytes ≡ ok (self_read ∷ [])
unfolding encode_ace encode_body ace_type_of
decode_aces-add_aces_example =
    decode_aces-add_aces bare_bytes (omega arith) bare [] bare_parsed bare_entries (self_read ∷ [])
      (omega arith) granted_bytes true grant_runs (self_read-IsEncodable, tt) [] bare_decoded

decode_aces-remove_aces_example :
    decode_aces bare_bytes ≡ ok (filter (λ d. not (candidate everything d)) (self_read ∷ []))
decode_aces-remove_aces_example =
    decode_aces-remove_aces granted_bytes (omega arith) granted (entry ∷ []) granted_parsed
      granted_entries (omega arith) everything (self_read ∷ []) granted_decoded bare_bytes true
      revoke_runs
