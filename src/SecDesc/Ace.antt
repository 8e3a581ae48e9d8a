-- ===== src/SecDesc/Ace.antt =====
-- internal/secdesc/ace.go: the explicit entries of a DACL in decoded form, AddACEs and RemoveACEs.
pub mod RoundTrip
pub mod Add
pub mod Remove
pub mod Tests
use go_adldap.Base.{
  ℕ, ◌+◌, ◌^◌, ◌<◌, ◌≡◌, ◌⊎◌, Bool, true, false, not, ◌&&◌, ◌||◌, Option, none, some, List, [], ◌∷◌,
  ◌++◌, map, take, bit_and, bit_or, ltb, ◌==◌, if◌then◌else◌, length, is_empty, Outcome, ok, err,
  ◌>>=◌, any,
}
use go_adldap.Base.Bytes.{Bytes, byte_at, slice, get_u32, u16_bytes, u32_bytes}
use go_adldap.SecDesc.{
  SdError, Parsed, parse, serialize, aces, sid_len, ace_header, no_flags_word, no_object_type,
  no_inherited_type, ace_header_len, IsSid, ace_sid_truncated,
}
use go_adldap.SecDesc.Edit.{with_entries}
use go_adldap.SecDesc.Protection.{ace_type_access_denied}

abbrev pub ace_type_access_allowed : ℕ
ace_type_access_allowed = 0x00

abbrev pub ace_type_allowed_object : ℕ
ace_type_allowed_object = 0x05

abbrev pub ace_type_denied_object : ℕ
ace_type_denied_object = 0x06

abbrev pub ace_object_type_present : ℕ
ace_object_type_present = 0x00000001

abbrev pub ace_inherited_object_type_present : ℕ
ace_inherited_object_type_present = 0x00000002

abbrev pub ace_flag_inherited : ℕ
ace_flag_inherited = 0x10

abbrev pub acl_revision_ds : ℕ
acl_revision_ds = 4

pub record DecodedAce : Type 0 where
  pub trustee_sid : Bytes
  pub deny : Bool
  pub mask : ℕ
  pub object_type : Bytes
  pub inherited_object_type : Bytes
  pub flags : ℕ
  pub inherited : Bool

-- The switch on the type: whether the entry denies, and whether it is an object ACE.
ace_kind : ℕ → Option (Bool × Bool)
ace_kind t =
    if t == ace_type_access_allowed
    then some (false, false)
    else if t == ace_type_access_denied
    then some (true, false)
    else if t == ace_type_allowed_object
    then some (false, true)
    else if t == ace_type_denied_object
    then some (true, true)
    else none

-- One GUID that the flags word may announce, and the offset behind it.
read_guid : Bool → SdError → Bytes → ℕ → Outcome SdError (Bytes × ℕ)
read_guid present e ace off =
    if present
    then if ltb (length ace) (off + 16) then err e else ok (slice ace off (off + 16), off + 16)
    else ok ([], off)

-- The GUIDs that a flags word announces, from offset 12 on, and the offset behind them.
read_flagged : ℕ → Bytes → Outcome SdError (Bytes × Bytes × ℕ)
read_flagged obj_flags ace = do
  (ot, off) ← read_guid (not (bit_and obj_flags ace_object_type_present == 0)) no_object_type ace 12
  (iot, off') ←
      read_guid (not (bit_and obj_flags ace_inherited_object_type_present == 0)) no_inherited_type
        ace off
  ok (ot, iot, off')

-- The two GUIDs of an object ACE and the offset of the trustee.
read_guids : Bool → Bytes → Outcome SdError (Bytes × Bytes × ℕ)
read_guids object ace =
    if object
    then if ltb (length ace) (8 + 4)
      then err no_flags_word
      else read_flagged (get_u32 (slice ace 8 12)) ace
    else ok ([], [], 8)

read_trustee : Bytes → ℕ → Outcome SdError Bytes
read_trustee ace off = do
  let sid = slice ace off (length ace)
  n ← sid_len sid
  if ltb (length sid) n then err ace_sid_truncated else ok (slice sid 0 n)

unfoldable pub is_inherited : ℕ → Bool
is_inherited flags = not (bit_and flags ace_flag_inherited == 0)

-- What is read behind the type of an entry.
decode_rest : Bool → Bool → Bytes → Outcome SdError (Option DecodedAce)
decode_rest deny object ace = do
  (ot, iot, off) ← read_guids object ace
  sid ← read_trustee ace off
  ok (
      some (record {
        trustee_sid = sid;
        deny = deny;
        mask = get_u32 (slice ace 4 8);
        object_type = ot;
        inherited_object_type = iot;
        flags = byte_at ace 1;
        inherited = is_inherited (byte_at ace 1);
      }))

-- `none` is an ACE type that the package does not model.
pub decode_ace : Bytes → Outcome SdError (Option DecodedAce)
decode_ace ace =
    if ltb (length ace) (ace_header_len + 4)
    then err ace_header
    else elim (ace_kind (byte_at ace 0)) [
      | none ↦ ok none
      | some (deny, object) ↦ decode_rest deny object ace
    ]

-- An entry of a type that is not modelled is skipped.
abbrev pub cons_known : Option DecodedAce → List DecodedAce → List DecodedAce
cons_known none out = out
cons_known (some x) out = x ∷ out

-- The loop of DecodeACEs.
pub decode_all : List Bytes → Outcome SdError (List DecodedAce)
decode_all [] = ok []
decode_all (ace ∷ list) =
    let rest = decode_all list in decode_ace ace >>= λ d. rest >>= λ out. ok (cons_known d out)

pub decode_aces : Bytes → Outcome SdError (List DecodedAce)
decode_aces sd =
    if is_empty sd
    then ok []
    else do p ← parse sd; if is_empty p.dacl then ok [] else do list ← aces p.dacl; decode_all list

abbrev has_guid : Bytes → Bool
has_guid guid = length guid == 16

unfoldable pub ace_type_of : Bool → Bool → ℕ
ace_type_of object deny =
    if object && deny
    then ace_type_denied_object
    else if object
    then ace_type_allowed_object
    else if deny
    then ace_type_access_denied
    else ace_type_access_allowed

-- `objFlags |= …` for each GUID that is there.
unfoldable pub obj_flags_of : Bytes → Bytes → ℕ
obj_flags_of ot iot =
    let first = if has_guid ot then bit_or 0 ace_object_type_present else 0 in
    if has_guid iot then bit_or first ace_inherited_object_type_present else first

unfoldable pub encode_body : DecodedAce → Bool → Bytes
encode_body a object =
    u32_bytes a.mask
    ++ ((if object
          then u32_bytes (obj_flags_of a.object_type a.inherited_object_type)
            ++ ((if has_guid a.object_type then a.object_type else [])
                ++ (if has_guid a.inherited_object_type then a.inherited_object_type else []))
          else [])
        ++ a.trustee_sid)

unfoldable pub encode_ace : DecodedAce → Bytes
encode_ace a =
    let object = has_guid a.object_type || has_guid a.inherited_object_type in
    let body = encode_body a object in
    ace_type_of object a.deny ∷ a.flags ∷ (u16_bytes (ace_header_len + length body) ++ body)

pub acl_revision_for : List Bytes → ℕ
acl_revision_for list =
    if any
      (λ ace. byte_at ace 0 == ace_type_allowed_object || byte_at ace 0 == ace_type_denied_object)
      list
    then acl_revision_ds
    else 2

pub add_aces : Bytes → List DecodedAce → Outcome SdError (Bytes × Bool)
add_aces sd add = if is_empty add then ok (sd, false) else do
  p ← parse sd
  list ← aces p.dacl
  let list' = list ++ map encode_ace add
  ok (serialize (with_entries p (acl_revision_for list') list'), true)

-- The test of the loop of RemoveACEs, on an entry that was decoded.
pub drops : (DecodedAce → Bool) → Option DecodedAce → Bool
drops match none = false
drops match (some d) = not d.inherited && match d

-- The loop: the entries that stay, and whether any was dropped.
pub keep_loop : (DecodedAce → Bool) → List Bytes → Outcome SdError (List Bytes × Bool)
keep_loop match [] = ok ([], false)
keep_loop match (ace ∷ list) =
    let rest = keep_loop match list in
    decode_ace ace >>= λ d.
    rest >>= λ r. ok (if drops match d then (r.0, true) else (ace ∷ r.0, r.1))

pub remove_aces : Bytes → (DecodedAce → Bool) → Outcome SdError (Bytes × Bool)
remove_aces sd match = do
  p ← parse sd
  list ← aces p.dacl
  (kept, changed) ← keep_loop match list
  if not changed
      then ok (sd, false)
      else ok (serialize (with_entries p (acl_revision_for kept) kept), true)

-- An entry that EncodeACE can write faithfully.
pub record IsEncodable (a : DecodedAce) : Type 0 where
  pub mask_u32 : a.mask < 2 ^ 32
  pub guid : (a.object_type ≡ []) ⊎ (length a.object_type ≡ 16)
  pub inherited_guid : (a.inherited_object_type ≡ []) ⊎ (length a.inherited_object_type ≡ 16)
  pub sid : IsSid a.trustee_sid
  pub inherited_flag : a.inherited ≡ is_inherited a.flags
