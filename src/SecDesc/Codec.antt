-- ===== src/SecDesc/Codec.antt =====
-- `parse` and `serialize` are inverse: what is written is read back part by part, and what is read
-- is well formed.
use go_adldap.Base.{
  ℕ, zero, suc, ◌+◌, ◌^◌, ◌<◌, ◌≤◌, ◌≡◌, refl, ◌⊎◌, inl, inr, ◌∙◌, [], ◌∷◌, ◌++◌, arith,
  append_assoc, append-nil, length, length-append, Outcome, ok, ltb-false,
}
use go_adldap.Base.Bytes.{Bytes, byte_at, slice, get_u16}
use go_adldap.SecDesc.{
  SdError, Parsed, parse, serialize, part_at, sid_len, acl_len, IsSid, IsAcl, IsWellFormed,
}
use go_adldap.SecDesc.Image.{image, place, serialize_lem, parse-image, part_at-append, length-image}

byte_at-append : (b post : Bytes) (i : ℕ) → i < length b → byte_at (b ++ post) i ≡ byte_at b i
byte_at-append [] post i h = absurd (omega arith)
byte_at-append (x ∷ b) post zero h = refl
byte_at-append (x ∷ b) post (suc i) h = byte_at-append b post i (omega arith)

pub get_u16-append :
    (b post : Bytes) → 4 ≤ length b → get_u16 (slice (b ++ post) 2 4) ≡ get_u16 (slice b 2 4)
get_u16-append [] post h = absurd (omega arith)
get_u16-append (w ∷ []) post h = absurd (omega arith)
get_u16-append (w ∷ x ∷ []) post h = absurd (omega arith)
get_u16-append (w ∷ x ∷ y ∷ []) post h = absurd (omega arith)
get_u16-append (w ∷ x ∷ y ∷ z ∷ b) post h = refl

pub sid_len-append : (b post : Bytes) → IsSid b → sid_len (b ++ post) ≡ ok (length b)
unfolding sid_len
sid_len-append b post v =
    rw
      (
        ltb-false (length (b ++ post)) 8 (omega (arith, length-append b post, v.counted)),
        byte_at-append b post 1 (omega (arith, v.counted)),
        ← v.counted,
        ltb-false (length (b ++ post)) (length b) (omega (arith, length-append b post)),
      )
      refl

pub acl_len-append : (b post : Bytes) → IsAcl b → acl_len (b ++ post) ≡ ok (length b)
unfolding acl_len
acl_len-append b post v =
    rw
      (
        ltb-false (length (b ++ post)) 8 (omega (arith, length-append b post, v.long_enough)),
        get_u16-append b post (omega (arith, v.long_enough)),
        v.sized,
        ltb-false (length b) 8 v.long_enough,
        ltb-false (length (b ++ post)) (length b) (omega (arith, length-append b post)),
      )
      refl

-- A part behind the header of a descriptor, present or not.
part_at-image :
    (r z c o g s d : ℕ) (pre part post body : Bytes) (len : Bytes → Outcome SdError ℕ)
    → body ≡ pre ++ (part ++ post)
    → (part ≡ []) ⊎ (len (part ++ post) ≡ ok (length part)) × (0 < length part)
    → part_at (image r z c o g s d body) (place part (length pre + 20)) len ≡ ok part
part_at-image r z c o g s d pre [] post body len e h = unfold part_at in refl
part_at-image r z c o g s d pre (x ∷ part) post body len e (inl h) = cc
part_at-image r z c o g s d pre (x ∷ part) post body len e (inr h) =
    rw (e, ← length-image r z c o g s d pre)
      (unfold image in
        part_at-append (image r z c o g s d pre) (x ∷ part) post len (omega arith) h.1 h.0)

sid_part :
    (part post : Bytes)
    → (part ≡ []) ⊎ IsSid part
    → (part ≡ []) ⊎ (sid_len (part ++ post) ≡ ok (length part)) × (0 < length part)
sid_part part post (inl e) = inl e
sid_part part post (inr v) = inr (sid_len-append part post v, omega (arith, v.counted))

acl_part :
    (part post : Bytes)
    → (part ≡ []) ⊎ IsAcl part
    → (part ≡ []) ⊎ (acl_len (part ++ post) ≡ ok (length part)) × (0 < length part)
acl_part part post (inl e) = inl e
acl_part part post (inr v) = inr (acl_len-append part post v, omega (arith, v.long_enough))

sid_small : (b : Bytes) → (b ≡ []) ⊎ IsSid b → length b < 2000
sid_small b (inl e) = rw e (omega arith)
sid_small b (inr v) = omega (arith, v.counted, v.count_byte)

acl_small : (b : Bytes) → (b ≡ []) ⊎ IsAcl b → length b < 65536
acl_small b (inl e) = rw e (omega arith)
acl_small b (inr v) = v.size_u16

place-le : (part : Bytes) (pos : ℕ) → place part pos ≤ pos
place-le [] pos = omega arith
place-le (x ∷ part) pos = omega arith

module _ (p : Parsed) (v : IsWellFormed p) where
  abbrev owner_off : ℕ
  owner_off = place p.owner (length (p.sacl ++ p.dacl) + 20)

  abbrev group_off : ℕ
  group_off = place p.group (length ((p.sacl ++ p.dacl) ++ p.owner) + 20)

  abbrev dacl_off : ℕ
  dacl_off = place p.dacl (length p.sacl + 20)

  abbrev body : Bytes
  body = ((p.sacl ++ p.dacl) ++ p.owner) ++ p.group

  abbrev written : Bytes
  written = image p.revision p.sbz1 p.control owner_off group_off (place p.sacl 20) dacl_off body

  at_owner : part_at written owner_off sid_len ≡ ok p.owner
  at_owner =
      part_at-image _ _ _ _ _ _ _ (p.sacl ++ p.dacl) p.owner p.group body sid_len
        (append_assoc (p.sacl ++ p.dacl) p.owner p.group) (sid_part p.owner p.group v.owner_sid)

  at_group : part_at written group_off sid_len ≡ ok p.group
  at_group =
      part_at-image _ _ _ _ _ _ _ ((p.sacl ++ p.dacl) ++ p.owner) p.group [] body sid_len
        (rw append-nil) (sid_part p.group [] v.group_sid)

  at_sacl : part_at written (place p.sacl 20) acl_len ≡ ok p.sacl
  at_sacl =
      part_at-image _ _ _ _ _ _ _ [] p.sacl (p.dacl ++ (p.owner ++ p.group)) body acl_len
        (simp append_assoc) (acl_part p.sacl _ v.sacl_acl)

  at_dacl : part_at written dacl_off acl_len ≡ ok p.dacl
  at_dacl =
      part_at-image _ _ _ _ _ _ _ p.sacl p.dacl (p.owner ++ p.group) body acl_len
        (simp append_assoc) (acl_part p.dacl _ v.dacl_acl)

  -- The parts are short, so that no offset wraps.
  parts_small : length ((p.sacl ++ p.dacl) ++ p.owner) + 20 < 2 ^ 32
  parts_small = omega (
    arith,
    length-append (p.sacl ++ p.dacl) p.owner,
    length-append p.sacl p.dacl,
    acl_small p.sacl v.sacl_acl,
    acl_small p.dacl v.dacl_acl,
    sid_small p.owner v.owner_sid,
  )

  place_small :
      (part : Bytes) (pos : ℕ)
      → pos ≤ length ((p.sacl ++ p.dacl) ++ p.owner) + 20
      → place part pos < 2 ^ 32
  place_small part pos h = omega (arith, place-le part pos, parts_small)

  parse-written : parse written ≡ ok p
  parse-written =
      parse-image p.revision p.sbz1 p.control owner_off group_off (place p.sacl 20) dacl_off body
        v.control_u16
        (place_small p.owner _ (omega (arith, length-append (p.sacl ++ p.dacl) p.owner)))
        (place_small p.group _ (omega arith)) (place_small p.sacl 20 (omega arith))
        (place_small p.dacl _
          (omega (arith, length-append (p.sacl ++ p.dacl) p.owner, length-append p.sacl p.dacl)))
        v.self_relative
      ∙ rw (at_owner, at_group, at_sacl, at_dacl) refl

-- A well-formed descriptor is read back from the bytes that it is written as, part by part.
pub parse-serialize : (p : Parsed) → IsWellFormed p → parse (serialize p) ≡ ok p
parse-serialize p v = rw (serialize_lem p) (parse-written p v)
