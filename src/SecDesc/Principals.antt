-- ===== src/SecDesc/Principals.antt =====
-- internal/secdesc/principals.go: the descriptor that names the principals of a gMSA or of
-- resource-based delegation, and reading the principals back.
pub mod RoundTrip
mod Tests
use go_adldap.Base.{
  ℕ, ◌+◌, ◌%◌, Bool, true, false, not, ◌||◌, List, [], ◌∷◌, ◌++◌, map, take, drop, bit_or, ltb, leb,
  ◌==◌, if◌then◌else◌, length, is_empty, Outcome, ok, err, ◌>>=◌,
}
use go_adldap.Base.Bytes.{Bytes, byte_at, slice, u16_bytes, u32_bytes}
use go_adldap.SecDesc.{
  SdError, domain_sid_length, domain_sid_full, principal_sid_length, malformed_trustee, Parsed,
  parse, serialize, aces, sid_len, build_acl, ace_header_len, control_dacl_present,
  control_self_rel,
}
use go_adldap.SecDesc.Ace.{ace_type_access_allowed}

abbrev pub rid_domain_admins : ℕ
rid_domain_admins = 512

abbrev pub rights_full_control : ℕ
rights_full_control = 0x000F01FF

-- `out[1]++` on a byte.
abbrev grow_count : Bytes → Bytes
grow_count b = take 1 b ++ ((byte_at b 1 + 1) % 256 ∷ drop 2 b)

pub domain_admins_sid : Bytes → Outcome SdError Bytes
domain_admins_sid domain_sid = do
  n ← sid_len domain_sid
  if not (n == length domain_sid)
      then err domain_sid_length
      else if leb 15 (byte_at domain_sid 1)
      then err domain_sid_full
      else ok (grow_count domain_sid ++ u32_bytes rid_domain_admins)

pub allow_full_ace : Bytes → Bytes
allow_full_ace trustee =
    ace_type_access_allowed
    ∷ 0x00
    ∷ (u16_bytes (ace_header_len + 4 + length trustee)
        ++ (u32_bytes rights_full_control ++ trustee))

-- The loop over the principals: each SID is checked, and becomes one ACE.
principal_aces : List Bytes → Outcome SdError (List Bytes)
principal_aces [] = ok []
principal_aces (sid ∷ sids) =
    let rest = principal_aces sids in
    sid_len sid >>= λ n.
    if not (n == length sid)
    then err principal_sid_length
    else (rest >>= λ list. ok (allow_full_ace sid ∷ list))

pub principal_parsed : Bytes → List Bytes → Parsed
principal_parsed admins list = record {
  revision = 1;
  sbz1 = 0;
  control = bit_or control_dacl_present control_self_rel;
  owner = admins;
  group = admins;
  sacl = [];
  dacl = build_acl 2 list;
}

pub build_principal_sd : Bytes → List Bytes → Outcome SdError Bytes
build_principal_sd domain_sid principals = do
  admins ← domain_admins_sid domain_sid
  list ← principal_aces principals
  ok (serialize (principal_parsed admins list))

-- The trustee of one plain allow ACE.
ace_trustee : Bytes → Outcome SdError Bytes
ace_trustee ace =
    let sid = slice ace 8 (length ace) in
    elim (sid_len sid) [
      | err e ↦ err malformed_trustee
      | ok n ↦ if ltb (length sid) n then err malformed_trustee else ok (slice sid 0 n)
    ]

trustees : List Bytes → Outcome SdError (List Bytes)
trustees [] = ok []
trustees (ace ∷ list) =
    let rest = trustees list in
    if ltb (length ace) (ace_header_len + 4) || not (byte_at ace 0 == ace_type_access_allowed)
    then rest
    else (ace_trustee ace >>= λ sid. rest >>= λ out. ok (sid ∷ out))

pub principal_sids : Bytes → Outcome SdError (List Bytes)
principal_sids sd =
    if is_empty sd
    then ok []
    else do p ← parse sd; if is_empty p.dacl then ok [] else do list ← aces p.dacl; trustees list
