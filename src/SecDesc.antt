-- ===== src/SecDesc.antt =====
-- internal/secdesc/secdesc.go, the descriptor itself: reading a self-relative security descriptor
-- into its parts, writing it back, and splitting and building an ACL. The ACEs stay opaque here.
pub mod Image
pub mod Codec
pub mod WellFormed
pub mod AceList
pub mod Edit
pub mod Protection
pub mod Ace
pub mod Inheritance
pub mod Principals
pub mod Denied
use go_adldap.Base.{
  ℕ, zero, suc, ◌+◌, ◌*◌, ◌^◌, ◌<◌, ◌≤◌, ◌≡◌, ◌≢◌, ◌⊎◌, ◌||◌, List, [], ◌∷◌, ◌++◌, bit_and, ltb,
  ◌==◌, if◌then◌else◌, length, concat, is_empty, Outcome, ok, err, ◌>>=◌,
}
use go_adldap.Base.Bytes.{Bytes, byte_at, slice, get_u16, get_u32, u16_bytes, put_u32}

-- The errors of the package, one for each message.
pub data SdError : Type 0 where
  sid_truncated sid_short acl_truncated acl_short : SdError
  descriptor_short : ℕ → SdError
  not_self_relative offset_past_end ace_count ace_short : SdError
  ace_header ace_sid_truncated no_flags_word no_object_type no_inherited_type : SdError
  domain_sid_length domain_sid_full principal_sid_length malformed_trustee : SdError

abbrev pub sd_header_len : ℕ
sd_header_len = 20

abbrev pub acl_header_len : ℕ
acl_header_len = 8

abbrev pub ace_header_len : ℕ
ace_header_len = 4

abbrev pub control_dacl_present : ℕ
control_dacl_present = 0x0004

abbrev pub control_self_rel : ℕ
control_self_rel = 0x8000

-- A part that the descriptor does not have is the empty slice.
pub record Parsed : Type 0 where
  pub revision : ℕ
  pub sbz1 : ℕ
  pub control : ℕ
  pub owner : Bytes
  pub group : Bytes
  pub sacl : Bytes
  pub dacl : Bytes

unfoldable pub sid_len : Bytes → Outcome SdError ℕ
sid_len b =
    if ltb (length b) 8
    then err sid_truncated
    else let n = 8 + 4 * byte_at b 1 in if ltb (length b) n then err sid_short else ok n

unfoldable pub acl_len : Bytes → Outcome SdError ℕ
acl_len b =
    if ltb (length b) acl_header_len
    then err acl_truncated
    else let n = get_u16 (slice b 2 4) in
      if ltb n acl_header_len || ltb (length b) n then err acl_short else ok n

-- The closure `slice` of `parse`.
pub part_at : Bytes → ℕ → (Bytes → Outcome SdError ℕ) → Outcome SdError Bytes
part_at sd off len =
    if off == 0
    then ok []
    else if ltb off (length sd)
    then (do n ← len (slice sd off (length sd)); ok (slice sd off (off + n)))
    else err offset_past_end

pub parse : Bytes → Outcome SdError Parsed
parse sd =
    if ltb (length sd) sd_header_len
    then err (descriptor_short (length sd))
    else if bit_and (get_u16 (slice sd 2 4)) control_self_rel == 0
    then err not_self_relative
    else do
      owner ← part_at sd (get_u32 (slice sd 4 8)) sid_len
      group ← part_at sd (get_u32 (slice sd 8 12)) sid_len
      sacl ← part_at sd (get_u32 (slice sd 12 16)) acl_len
      dacl ← part_at sd (get_u32 (slice sd 16 20)) acl_len
      ok (record {
        revision = byte_at sd 0;
        sbz1 = byte_at sd 1;
        control = get_u16 (slice sd 2 4);
        owner = owner;
        group = group;
        sacl = sacl;
        dacl = dacl;
      })

-- The closure `put` of `serialize`.
pub put : Bytes → ℕ → Bytes → Bytes
put part at out = if is_empty part then put_u32 out at 0 else put_u32 out at (length out) ++ part

-- The header before the offsets are filled in.
pub header : Parsed → Bytes
header p =
    p.revision
    ∷ p.sbz1
    ∷ (u16_bytes p.control ++ (0 ∷ 0 ∷ 0 ∷ 0 ∷ 0 ∷ 0 ∷ 0 ∷ 0 ∷ 0 ∷ 0 ∷ 0 ∷ 0 ∷ 0 ∷ 0 ∷ 0 ∷ 0 ∷ []))

pub serialize : Parsed → Bytes
serialize p = put p.group 8 (put p.owner 4 (put p.dacl 16 (put p.sacl 12 (header p))))

-- The loop of `aces`: `i` entries are still to be read, the next one at `off`.
pub aces_from : ℕ → Bytes → ℕ → Outcome SdError (List Bytes)
aces_from zero acl off = ok []
aces_from (suc i) acl off =
    if ltb (length acl) (off + ace_header_len)
    then err ace_count
    else let n = get_u16 (slice acl (off + 2) (off + 4)) in
      let ace = slice acl off (off + n) in
      let rest = aces_from i acl (off + n) in
      if ltb n ace_header_len || ltb (length acl) (off + n)
      then err ace_short
      else rest >>= λ list. ok (ace ∷ list)

pub aces : Bytes → Outcome SdError (List Bytes)
unfolding aces_from
aces acl = if is_empty acl then ok [] else aces_from (get_u16 (slice acl 4 6)) acl acl_header_len

-- The size wraps at 2 ^ 16, and so does the count.
pub build_acl : ℕ → List Bytes → Bytes
build_acl revision list =
    revision
    ∷ 0
    ∷ (u16_bytes (acl_header_len + length (concat list))
        ++ (u16_bytes (length list) ++ (0 ∷ 0 ∷ concat list)))

-- What `sid_len` and `acl_len` accept as a whole slice, and the header of one ACE.
pub record IsSid (b : Bytes) : Type 0 where
  pub counted : length b ≡ 8 + 4 * byte_at b 1
  pub count_byte : byte_at b 1 < 256

pub record IsAcl (b : Bytes) : Type 0 where
  pub long_enough : acl_header_len ≤ length b
  pub sized : get_u16 (slice b 2 4) ≡ length b
  pub size_u16 : length b < 2 ^ 16

pub record IsAce (b : Bytes) : Type 0 where
  pub long_enough : ace_header_len ≤ length b
  pub sized : get_u16 (slice b 2 4) ≡ length b

-- A descriptor that `serialize` can write faithfully.
pub record IsWellFormed (p : Parsed) : Type 0 where
  pub control_u16 : p.control < 2 ^ 16
  pub self_relative : bit_and p.control control_self_rel ≢ 0
  pub owner_sid : (p.owner ≡ []) ⊎ IsSid p.owner
  pub group_sid : (p.group ≡ []) ⊎ IsSid p.group
  pub sacl_acl : (p.sacl ≡ []) ⊎ IsAcl p.sacl
  pub dacl_acl : (p.dacl ≡ []) ⊎ IsAcl p.dacl
