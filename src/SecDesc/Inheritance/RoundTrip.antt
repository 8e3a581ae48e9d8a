-- ===== src/SecDesc/Inheritance/RoundTrip.antt =====
-- The inheritance with which an entry is written is the one that is read.
use go_adldap.Base.{◌^◌, ◌<◌, ◌≡◌, ◌⊎◌, refl, sym, false, some, [], length, ok}
use go_adldap.SecDesc.{IsSid}
use go_adldap.SecDesc.Ace.{DecodedAce, decode_ace, encode_ace, is_inherited}
use go_adldap.SecDesc.Ace.RoundTrip.{decode_ace-encode_ace}
use go_adldap.SecDesc.Inheritance.{
  Inheritance, this_object, children, descendants, inheritance_of, flags_for,
}

inheritance_of-flags_for : (i : Inheritance) → inheritance_of (flags_for i) ≡ i
unfolding inheritance_of flags_for
inheritance_of-flags_for this_object = refl
inheritance_of-flags_for children = refl
inheritance_of-flags_for descendants = refl

is_inherited-flags_for : (i : Inheritance) → is_inherited (flags_for i) ≡ false
unfolding flags_for is_inherited
is_inherited-flags_for this_object = refl
is_inherited-flags_for children = refl
is_inherited-flags_for descendants = refl

-- An entry with a mask of 32 bits, a SID of the length that it counts, GUIDs of 16 bytes or none and
-- the flags of an inheritance is read back from what EncodeACE writes as an explicit entry with
-- that inheritance.
pub inheritance_of-decode_ace :
    (a : DecodedAce) (i : Inheritance)
    → a.mask < 2 ^ 32
    → (a.object_type ≡ []) ⊎ (length a.object_type ≡ 16)
    → (a.inherited_object_type ≡ []) ⊎ (length a.inherited_object_type ≡ 16)
    → IsSid a.trustee_sid
    → (d : DecodedAce) × (decode_ace
          (encode_ace (record a { flags = flags_for i; inherited = false }))
        ≡ ok (some d))
      × (inheritance_of d.flags ≡ i)
      × (d.inherited ≡ false)
inheritance_of-decode_ace a i mask guid inherited_guid sid = (
  written,
  decode_ace-encode_ace written (record {
    mask_u32 = mask;
    guid = guid;
    inherited_guid = inherited_guid;
    sid = sid;
    inherited_flag = sym (is_inherited-flags_for i);
  }),
  inheritance_of-flags_for i,
  refl,
)
  where
    written : DecodedAce
    written = record a { flags = flags_for i; inherited = false }
