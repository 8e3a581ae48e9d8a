-- ===== src/SecDesc/Image.antt =====
-- The bytes that `serialize` writes, field by field, and how `parse` reads such bytes.
use go_adldap.Base.{
  ℕ, ◌+◌, ◌<◌, ◌^◌, ◌≡◌, refl, [], ◌∷◌, ◌++◌, append-nil, arith, bit_and, if◌then◌else◌, length,
  ltb-false, ltb-true, ==-false, ne→==-false, length-append, ◌≢◌, is_empty, Outcome, ok, ◌>>=◌,
}
use go_adldap.Base.Bytes.{
  Bytes, u16_bytes, u32_bytes, get_u16-u16_bytes, get_u32-u32_bytes, slice_rest, slice_part,
}
use go_adldap.SecDesc.{
  Parsed, parse, put, serialize, part_at, header, sid_len, acl_len, SdError, control_self_rel,
}

-- A descriptor with these fields, offsets and body.
unfoldable pub image : (revision sbz1 control owner group sacl dacl : ℕ) → Bytes → Bytes
image r z c o g s d body =
    r
    ∷ z
    ∷ (u16_bytes c ++ (u32_bytes o ++ (u32_bytes g ++ (u32_bytes s ++ (u32_bytes d ++ body)))))

-- The offset that a part gets.
abbrev pub place : Bytes → ℕ → ℕ
place part pos = if is_empty part then 0 else pos

module _ (r z c o g s d : ℕ) (body : Bytes) where
  pub length-image : length (image r z c o g s d body) ≡ length body + 20
  unfolding image
  length-image = omega arith

  put_sacl :
      (part : Bytes)
      → put part 12 (image r z c o g s d body)
        ≡ image r z c o g (place part (length body + 20)) d (body ++ part)
  unfolding put image
  put_sacl [] = rw append-nil
  put_sacl (x ∷ part) = rw (← length-image)

  put_dacl :
      (part : Bytes)
      → put part 16 (image r z c o g s d body)
        ≡ image r z c o g s (place part (length body + 20)) (body ++ part)
  unfolding put image
  put_dacl [] = rw append-nil
  put_dacl (x ∷ part) = rw (← length-image)

  put_owner :
      (part : Bytes)
      → put part 4 (image r z c o g s d body)
        ≡ image r z c (place part (length body + 20)) g s d (body ++ part)
  unfolding put image
  put_owner [] = rw append-nil
  put_owner (x ∷ part) = rw (← length-image)

  put_group :
      (part : Bytes)
      → put part 8 (image r z c o g s d body)
        ≡ image r z c o (place part (length body + 20)) s d (body ++ part)
  unfolding put image
  put_group [] = rw append-nil
  put_group (x ∷ part) = rw (← length-image)

-- What `serialize` writes.
pub serialize_lem :
    (p : Parsed)
    → serialize p
      ≡ image p.revision p.sbz1 p.control
          (place p.owner (length (p.sacl ++ p.dacl) + 20))
          (place p.group (length ((p.sacl ++ p.dacl) ++ p.owner) + 20))
          (place p.sacl 20)
          (place p.dacl (length p.sacl + 20))
          (((p.sacl ++ p.dacl) ++ p.owner) ++ p.group)
unfolding serialize
serialize_lem p =
    rw (
      start,
      put_sacl p.revision p.sbz1 p.control 0 0 0 0 [] p.sacl,
      put_dacl,
      put_owner,
      put_group,
    )
  where
    start : header p ≡ image p.revision p.sbz1 p.control 0 0 0 0 []
    start = unfold header image in refl

-- What `parse` makes of such bytes, up to the parts.
pub parse-image :
    (r z c o g s d : ℕ) (body : Bytes)
    → c < 2 ^ 16
    → o < 2 ^ 32
    → g < 2 ^ 32
    → s < 2 ^ 32
    → d < 2 ^ 32
    → bit_and c control_self_rel ≢ 0
    → parse (image r z c o g s d body) ≡ (do
      owner ← part_at (image r z c o g s d body) o sid_len
      group ← part_at (image r z c o g s d body) g sid_len
      sacl ← part_at (image r z c o g s d body) s acl_len
      dacl ← part_at (image r z c o g s d body) d acl_len
      ok (record {
        revision = r;
        sbz1 = z;
        control = c;
        owner = owner;
        group = group;
        sacl = sacl;
        dacl = dacl;
      }))
unfolding parse image
parse-image r z c o g s d body hc ho hg hs hd self =
    rw
      (
        get_u16-u16_bytes c hc,
        get_u32-u32_bytes o ho,
        get_u32-u32_bytes g hg,
        get_u32-u32_bytes s hs,
        get_u32-u32_bytes d hd,
        ne→==-false (bit_and c control_self_rel) 0 self,
        ltb-false (length (image r z c o g s d body)) 20 (omega arith),
      )
      refl

-- A part that is found where its offset says.
pub part_at-append :
    (pre part post : Bytes) (len : Bytes → Outcome SdError ℕ)
    → 0 < length pre
    → 0 < length part
    → len (part ++ post) ≡ ok (length part)
    → part_at (pre ++ (part ++ post)) (length pre) len ≡ ok part
unfolding part_at
part_at-append pre part post len hpre hpart h =
    rw
      (
        ==-false 0 (length pre) hpre,
        ltb-true (length pre) (length (pre ++ (part ++ post)))
            (omega (arith, length-append pre (part ++ post), length-append part post)),
        slice_rest pre (part ++ post),
        h,
      )
      (rw (slice_part pre part post))
