-- ===== src/SecDesc/Denied.antt =====
-- internal/secdesc/secdesc.go, object ACEs: the Deny of an extended right, HasDeniedObjectRight and
-- SetDeniedObjectRight.
pub mod Laws
mod Tests
use go_adldap.Base.{
  ℕ, ◌+◌, Bool, true, false, not, ◌&&◌, ◌||◌, List, [], ◌∷◌, ◌++◌, map, bit_and, ltb, leb, ◌==◌,
  if◌then◌else◌, length, filter, any, is_empty, Outcome, ok, ◌>>=◌,
}
use go_adldap.Base.Bytes.{Bytes, byte_at, slice, get_u32, u16_bytes, u32_bytes}
use go_adldap.SecDesc.{SdError, parse, serialize, aces, ace_header_len}
use go_adldap.SecDesc.Edit.{with_entries}
use go_adldap.SecDesc.Ace.{
  ace_type_denied_object, ace_object_type_present, ace_inherited_object_type_present,
  acl_revision_ds,
}

-- `string(a) == string(b)` on byte slices.
unfoldable pub same_bytes : Bytes → Bytes → Bool
same_bytes [] [] = true
same_bytes (x ∷ a) (y ∷ b) = x == y && same_bytes a b
same_bytes a b = false

-- The trustee at an offset, which the second GUID may push back.
trustee_at : Bytes → ℕ → ℕ → Bytes → Bool
trustee_at ace flags off trustee =
    let off' = if bit_and flags ace_inherited_object_type_present == 0 then off else off + 16 in
    leb (off' + length trustee) (length ace)
    && same_bytes (slice ace off' (off' + length trustee)) trustee

pub denied_object : Bytes → ℕ → Bytes → Bytes → Bool
unfolding trustee_at
denied_object ace mask object_type trustee =
    if ltb (length ace) (ace_header_len + 8) || not (byte_at ace 0 == ace_type_denied_object)
    then false
    else if bit_and (get_u32 (slice ace 4 8)) mask == 0
    then false
    else let flags = get_u32 (slice ace 8 12) in
      if not (bit_and flags ace_object_type_present == 0)
      then if ltb (length ace) (12 + 16)
        then false
        else if not (same_bytes (slice ace 12 (12 + 16)) object_type)
        then false
        else trustee_at ace flags (12 + 16) trustee
      else if ltb 0 (length object_type)
      then false
      else trustee_at ace flags 12 trustee

pub denied_object_ace : ℕ → Bytes → Bytes → Bytes
denied_object_ace mask object_type trustee =
    ace_type_denied_object
    ∷ 0
    ∷ (u16_bytes (ace_header_len + 4 + 4 + length object_type + length trustee)
        ++ (u32_bytes mask ++ (u32_bytes ace_object_type_present ++ (object_type ++ trustee))))

-- Whether an entry denies the right to any of the trustees.
pub denies : ℕ → Bytes → List Bytes → Bytes → Bool
denies mask object_type trustees ace = any (λ t. denied_object ace mask object_type t) trustees

pub has_denied_object_right : Bytes → ℕ → Bytes → List Bytes → Outcome SdError Bool
has_denied_object_right sd mask object_type trustees = do
  p ← parse sd
  list ← aces p.dacl
  ok (any (denies mask object_type trustees) list)

-- Nothing is written where there is nothing to remove, or where as many entries match as there
-- are trustees.
pub skip_write : Bool → ℕ → ℕ → Bool
skip_write on removed wanted = if not on then removed == 0 else removed == wanted && ltb 0 removed

pub set_denied_object_right : Bytes → Bool → ℕ → Bytes → List Bytes → Outcome SdError (Bytes × Bool)
set_denied_object_right sd on mask object_type trustees = do
  p ← parse sd
  list ← aces p.dacl
  let kept = filter (λ a. not (denies mask object_type trustees a)) list
  let removed = length (filter (denies mask object_type trustees) list)
  let add = map (denied_object_ace mask object_type) trustees
  let revision =
      if not (is_empty p.dacl) && ltb acl_revision_ds (byte_at p.dacl 0)
      then byte_at p.dacl 0
      else acl_revision_ds
  if skip_write on removed (length trustees)
      then ok (sd, false)
      else ok (serialize (with_entries p revision (if on then add ++ kept else kept)), true)
