-- ===== src/SecDesc/Ace/RoundTrip.antt =====
-- `decode_ace` reads back every entry that `encode_ace` writes.
use go_adldap.Base.{
  ℕ, ◌+◌, ◌^◌, ◌<◌, ◌≡◌, refl, sym, ap, subst, ◌⊎◌, inl, inr, Bool, true, false, some, [], ◌∷◌,
  ◌++◌, append-nil, append_assoc, arith, ltb-false, length, length-append, ok,
}
use go_adldap.Base.Bytes.{
  Bytes, u16_bytes, u32_bytes, slice_part, slice_rest, slice_all, get_u32-u32_bytes,
}
use go_adldap.SecDesc.{SdError, IsSid}
use go_adldap.SecDesc.Codec.{sid_len-append}
use go_adldap.SecDesc.Ace.{
  DecodedAce, ace_kind, ace_type_of, read_guid, read_flagged, read_guids, read_trustee,
  is_inherited, decode_rest, decode_ace, encode_ace, encode_body, obj_flags_of, has_guid,
  IsEncodable,
}

read_guid-at :
    (e : SdError) (ace pre g post : Bytes) (off : ℕ)
    → ace ≡ pre ++ (g ++ post)
    → off ≡ length pre
    → length g ≡ 16
    → read_guid true e ace off ≡ ok (g, off + 16)
unfolding read_guid
read_guid-at e ace pre g post off ea eo eg =
    rw
      (
        ea,
        eo,
        ltb-false (length (pre ++ (g ++ post))) (length pre + 16)
            (omega (arith, length-append pre (g ++ post), length-append g post, eg)),
        ← eg,
        slice_part pre g post,
      )
      refl

read_trustee-at :
    (ace pre sid : Bytes) (off : ℕ)
    → ace ≡ pre ++ sid
    → off ≡ length pre
    → IsSid sid
    → read_trustee ace off ≡ ok sid
unfolding read_trustee
read_trustee-at ace pre sid off ea eo v =
    rw
      (
        ea,
        eo,
        slice_rest pre sid,
        (rw (append-nil sid) at (sid_len-append sid [] v)),
        ltb-false (length sid) (length sid) (omega arith),
        slice_all sid,
      )
      refl

-- The bytes of an entry up to its mask, and what follows.
abbrev wire : ℕ → ℕ → ℕ → ℕ → Bytes → Bytes
wire t flags size mask tail = t ∷ flags ∷ (u16_bytes size ++ (u32_bytes mask ++ tail))

-- What the readers find behind the mask: the GUIDs, and the trustee behind them.
abbrev Found : Bool → Bytes → Bytes → Bytes → Bytes → Type 0
Found object ace ot iot sid =
    (off : ℕ) × (read_guids object ace ≡ ok (ot, iot, off)) × (read_trustee ace off ≡ ok sid)

module _ (t fl s mask : ℕ) (sid : Bytes) (v : IsSid sid) where
  Found-plain : Found false (wire t fl s mask sid) [] [] sid
  unfolding read_guids
  Found-plain = (8, refl, read_trustee-at _ (wire t fl s mask []) sid 8 refl refl v)

  Found-first :
      (ot : Bytes)
      → length ot ≡ 16
      → Found true (wire t fl s mask (u32_bytes 1 ++ ((ot ++ []) ++ sid))) ot [] sid
  unfolding read_guids read_flagged
  Found-first ot e =
      let pre = wire t fl s mask (u32_bytes 1) in
      let whole = wire t fl s mask (u32_bytes 1 ++ ((ot ++ []) ++ sid)) in
      let same : whole ≡ pre ++ (ot ++ sid) = rw append-nil in
      (
        28,
        rw
            (
              ltb-false (length whole) 12 (omega arith),
              read_guid-at SdError.no_object_type whole pre ot sid 12 same refl e,
            )
            (unfold read_guid in refl),
        read_trustee-at _ (pre ++ ot) sid 28 (rw append-nil)
            (omega (arith, length-append pre ot, e)) v,
      )

  Found-second :
      (iot : Bytes)
      → length iot ≡ 16
      → Found true (wire t fl s mask (u32_bytes 2 ++ (([] ++ iot) ++ sid))) [] iot sid
  unfolding read_guids read_flagged
  Found-second iot e =
      let pre = wire t fl s mask (u32_bytes 2) in
      let whole = wire t fl s mask (u32_bytes 2 ++ (([] ++ iot) ++ sid)) in
      (
        28,
        rw (ltb-false (length whole) 12 (omega arith)) (
            unfold read_guid in
            rw (read_guid-at SdError.no_inherited_type whole pre iot sid 12 refl refl e) refl),
        read_trustee-at _ (pre ++ iot) sid 28 refl (omega (arith, length-append pre iot, e)) v,
      )

  Found-both :
      (ot iot : Bytes)
      → length ot ≡ 16
      → length iot ≡ 16
      → Found true (wire t fl s mask (u32_bytes 3 ++ ((ot ++ iot) ++ sid))) ot iot sid
  unfolding read_guids read_flagged
  Found-both ot iot e k =
      let pre = wire t fl s mask (u32_bytes 3) in
      let whole = wire t fl s mask (u32_bytes 3 ++ ((ot ++ iot) ++ sid)) in
      let first : whole ≡ pre ++ (ot ++ (iot ++ sid)) = rw (append_assoc ot iot sid) in
      let second : whole ≡ (pre ++ ot) ++ (iot ++ sid) = rw (append_assoc ot iot sid) in
      let len : 28 ≡ length (pre ++ ot) = omega (arith, length-append pre ot, e) in
      (
        44,
        rw
            (
              ltb-false (length whole) 12 (omega arith),
              read_guid-at SdError.no_object_type whole pre ot (iot ++ sid) 12 first refl e,
              read_guid-at SdError.no_inherited_type whole (pre ++ ot) iot sid 28 second len k,
            )
            refl,
        read_trustee-at whole (pre ++ (ot ++ iot)) sid 44 refl
            (omega (arith, length-append pre (ot ++ iot), length-append ot iot, e, k)) v,
      )

kind-of-type : (object deny : Bool) → ace_kind (ace_type_of object deny) ≡ some (deny, object)
unfolding ace_kind ace_type_of
kind-of-type true true = refl
kind-of-type true false = refl
kind-of-type false true = refl
kind-of-type false false = refl

-- The decoded form of an entry with these fields.
abbrev decoded : Bytes → Bool → ℕ → Bytes → Bytes → ℕ → DecodedAce
decoded sid deny mask ot iot flags = record {
  trustee_sid = sid;
  deny = deny;
  mask = mask;
  object_type = ot;
  inherited_object_type = iot;
  flags = flags;
  inherited = is_inherited flags;
}

has_guid-true : (g : Bytes) → length g ≡ 16 → has_guid g ≡ true
has_guid-true g e = rw e refl

module _ (sid : Bytes) (deny : Bool) (mask : ℕ) (small : mask < 2 ^ 32) (flags : ℕ) where
  decode_wire :
      (object : Bool) (s : ℕ) (tail ot iot : Bytes)
      → Found object (wire (ace_type_of object deny) flags s mask tail) ot iot sid
      → decode_ace (wire (ace_type_of object deny) flags s mask tail)
        ≡ ok (some (decoded sid deny mask ot iot flags))
  unfolding decode_ace decode_rest
  decode_wire object s tail ot iot (off, guids, trustee) =
      rw
        (
          ltb-false (length (wire (ace_type_of object deny) flags s mask tail)) 8 (omega arith),
          kind-of-type object deny,
          guids,
          trustee,
          get_u32-u32_bytes mask small,
        )
        refl

  encode-by-guids :
      (v : IsSid sid) (ot iot : Bytes)
      → (ot ≡ []) ⊎ (length ot ≡ 16)
      → (iot ≡ []) ⊎ (length iot ≡ 16)
      → decode_ace (encode_ace (decoded sid deny mask ot iot flags))
        ≡ ok (some (decoded sid deny mask ot iot flags))
  unfolding encode_ace encode_body obj_flags_of
  encode-by-guids v ot iot (inl e) (inl k) =
      rw (e, k) (decode_wire false _ sid [] [] (Found-plain _ flags _ mask sid v))
  encode-by-guids v ot iot (inl e) (inr k) =
      rw (e, has_guid-true iot k)
        (decode_wire true _ _ [] iot (Found-second _ flags _ mask sid v iot k))
  encode-by-guids v ot iot (inr e) (inl k) =
      rw (k, has_guid-true ot e)
        (decode_wire true _ _ ot [] (Found-first _ flags _ mask sid v ot e))
  encode-by-guids v ot iot (inr e) (inr k) =
      rw (has_guid-true ot e, has_guid-true iot k)
        (decode_wire true _ _ ot iot (Found-both _ flags _ mask sid v ot iot e k))

-- An entry with a mask of 32 bits, a SID of the length that it counts, GUIDs of 16 bytes or none,
-- and the inherited mark that its flags say, is read back from the bytes that it is written as.
pub decode_ace-encode_ace :
    (a : DecodedAce) → IsEncodable a → decode_ace (encode_ace a) ≡ ok (some a)
decode_ace-encode_ace a v =
    let same : decoded a.trustee_sid a.deny a.mask a.object_type a.inherited_object_type a.flags
        ≡ a =
      ap (λ (b : Bool). record a { inherited = b }) (sym v.inherited_flag) in
    subst (λ d. decode_ace (encode_ace d) ≡ ok (some d)) same
      (encode-by-guids a.trustee_sid a.deny a.mask v.mask_u32 a.flags v.sid a.object_type
        a.inherited_object_type v.guid v.inherited_guid)
