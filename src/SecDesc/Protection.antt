-- ===== src/SecDesc/Protection.antt =====
-- internal/secdesc/secdesc.go, ProtectedFromAccidentalDeletion: the Deny ACE for Everyone, the test
-- for it, IsProtected and SetProtected.
pub mod Laws
pub mod Tests
use go_adldap.Base.{
  ℕ, ◌+◌, Bool, true, false, not, ◌&&◌, ◌||◌, List, [], ◌∷◌, ◌++◌, bit_and, bit_or, ltb, ◌==◌,
  if◌then◌else◌, length, filter, any, is_empty, Outcome, ok, ◌>>=◌,
}
use go_adldap.Base.Bytes.{Bytes, byte_at, slice, get_u32, u16_bytes, u32_bytes}
use go_adldap.SecDesc.{SdError, parse, serialize, aces, ace_header_len}
use go_adldap.SecDesc.Edit.{with_entries}

abbrev pub ace_type_access_denied : ℕ
ace_type_access_denied = 0x01

abbrev pub right_delete : ℕ
right_delete = 0x00010000

abbrev pub right_delete_tree : ℕ
right_delete_tree = 0x00000040

-- `rightDelete | rightDeleteTree`
abbrev pub protection_mask : ℕ
protection_mask = bit_or right_delete right_delete_tree

-- S-1-1-0
abbrev pub everyone : Bytes
everyone = 1 ∷ 1 ∷ 0 ∷ 0 ∷ 0 ∷ 0 ∷ 0 ∷ 1 ∷ 0 ∷ 0 ∷ 0 ∷ 0 ∷ []

-- `b` begins with `p`, byte by byte.
unfoldable pub has_prefix : Bytes → Bytes → Bool
has_prefix [] b = true
has_prefix (x ∷ p) [] = false
has_prefix (x ∷ p) (y ∷ b) = y == x && has_prefix p b

pub is_protection_ace : Bytes → Bool
is_protection_ace ace =
    if ltb (length ace) (ace_header_len + 4 + length everyone)
    then false
    else if not (byte_at ace 0 == ace_type_access_denied)
    then false
    else if bit_and (get_u32 (slice ace 4 8)) protection_mask == 0
    then false
    else if ltb (length (slice ace 8 (length ace))) (length everyone)
    then false
    else has_prefix everyone (slice ace 8 (length ace))

pub protection_ace : Bytes
protection_ace =
    ace_type_access_denied
    ∷ 0
    ∷ (u16_bytes (ace_header_len + 4 + length everyone) ++ (u32_bytes protection_mask ++ everyone))

pub is_protected : Bytes → Outcome SdError Bool
is_protected sd = do p ← parse sd; list ← aces p.dacl; ok (any is_protection_ace list)

abbrev pub same_bool : Bool → Bool → Bool
same_bool a b = if a then b else not b

-- The new bytes, and whether anything changed.
pub set_protected : Bytes → Bool → Outcome SdError (Bytes × Bool)
set_protected sd on = do
  p ← parse sd
  list ← aces p.dacl
  let kept = filter (λ a. not (is_protection_ace a)) list
  let found = any is_protection_ace list
  if same_bool on found
      then ok (sd, false)
      else ok (
        serialize (
            with_entries p (if is_empty p.dacl then 2 else byte_at p.dacl 0)
              (if on then protection_ace ∷ kept else kept)),
        true,
      )
