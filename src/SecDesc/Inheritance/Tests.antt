-- ===== src/SecDesc/Inheritance/Tests.antt =====
-- An entry for S-1-5-10 that the children inherit.
use go_adldap.Base.{◌≡◌, arith, false, some, [], ◌∷◌, ok, inl, refl}
use go_adldap.SecDesc.Ace.{DecodedAce, decode_ace, encode_ace}
use go_adldap.SecDesc.Inheritance.{children, inheritance_of, flags_for}
use go_adldap.SecDesc.Inheritance.RoundTrip.{inheritance_of-decode_ace}

abbrev entry : DecodedAce
entry = record {
  trustee_sid = 1 ∷ 1 ∷ 0 ∷ 0 ∷ 0 ∷ 0 ∷ 0 ∷ 5 ∷ 10 ∷ 0 ∷ 0 ∷ 0 ∷ [];
  deny = false;
  mask = 0x20014;
  object_type = [];
  inherited_object_type = [];
  flags = 0;
  inherited = false;
}

inheritance_of-decode_ace_example :
    (d : DecodedAce) × (decode_ace
        (encode_ace (record entry { flags = flags_for children; inherited = false }))
      ≡ ok (some d))
    × (inheritance_of d.flags ≡ children)
    × (d.inherited ≡ false)
inheritance_of-decode_ace_example =
    inheritance_of-decode_ace entry children (omega arith) (inl refl) (inl refl) (omega arith)
