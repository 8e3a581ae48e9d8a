-- ===== src/LdapErr.antt =====
-- internal/ldaperr/classify.go: the Win32 code of a diagnostic message, and the kind of a failure.
pub mod Code
pub mod Kinds
pub mod Tests
use go_adldap.Base.{
  ℕ, ◌+◌, ◌*◌, ◌-◌, ◌≡◌, Bool, true, false, not, ◌&&◌, ◌||◌, Option, none, some, List, [], ◌∷◌, ltb,
  leb, ◌==◌, if◌then◌else◌, length, take,
}
use go_adldap.Base.Bytes.{Bytes, byte_at}
use go_adldap.Base.Text.{starts_with}

-- The kinds of adcore that this package names; adcore has others.
pub data Kind : Type 0 where
  unknown too_many_results denied referral constraint invalid_attribute not_found : Kind
  transient already_exists transport : Kind
  other : ℕ → Kind

-- conn.RawError.
pub record RawError : Type 0 where
  pub result_code : ℕ
  pub diagnostic_message : Bytes

-- An error by what errors.Is and errors.As find in its chain: one of the two context errors,
-- a RawError, and conn.ErrCredentialRejected.
pub record Failure : Type 0 where
  pub context_error : Bool
  pub raw : Option RawError
  pub credential_rejected : Bool

-- What `explain` adds to the message.
pub data Explanation : Type 0 where
  channel_binding wrong_password password_expired locked_out logon_time logon_host : Explanation
  disabled account_expired : Explanation

-- adcore.Error: the server message is the diagnostic with the explanation behind it. The name of the
-- operation and the wrapped cause are passed through, and left out here.
pub record AdError : Type 0 where
  pub kind : Kind
  pub code : ℕ
  pub server_message : Bytes
  pub explanation : Option Explanation

-- The test `isHex` of the loop.
pub is_hex : ℕ → Bool
is_hex c = (leb 48 c && leb c 57) || (leb 97 c && leb c 102) || (leb 65 c && leb c 70)

pub all_hex : Bytes → Bool
all_hex [] = true
all_hex (c ∷ head) = is_hex c && all_hex head

-- strconv.ParseUint in base 16, on what are hex digits, few enough for 64 bits.
pub hex_value : ℕ → ℕ
hex_value c = if leb c 57 then c - 48 else if leb 97 c then c - 87 else c - 55

pub parse_hex : ℕ → Bytes → ℕ
parse_hex v [] = v
parse_hex v (c ∷ head) = parse_hex (16 * v + hex_value c) head

pub extract_win32_code : Bytes → Option ℕ
extract_win32_code diagnostic =
    if ltb (length diagnostic) 9 || not (byte_at diagnostic 8 == 58)
    then none
    else let head = take 8 diagnostic in
      if not (all_hex head) then none else some (parse_hex 0 head)

abbrev pub result_kinds : List (ℕ × Kind)
result_kinds =
    (1, unknown)
    ∷ (4, too_many_results)
    ∷ (8, denied)
    ∷ (10, referral)
    ∷ (16, constraint)
    ∷ (17, invalid_attribute)
    ∷ (19, constraint)
    ∷ (20, constraint)
    ∷ (21, invalid_attribute)
    ∷ (32, not_found)
    ∷ (34, constraint)
    ∷ (49, denied)
    ∷ (50, denied)
    ∷ (51, transient)
    ∷ (52, transient)
    ∷ (53, constraint)
    ∷ (64, constraint)
    ∷ (65, constraint)
    ∷ (66, constraint)
    ∷ (67, constraint)
    ∷ (68, already_exists)
    ∷ []

pub look_up : List (ℕ × Kind) → ℕ → Option Kind
look_up [] key = none
look_up ((k, kind) ∷ table) key = if k == key then some kind else look_up table key

pub by_result_code : ℕ → Option Kind
by_result_code code = look_up result_kinds code

-- strings.Contains.
pub contains : Bytes → Bytes → Bool
contains [] part = starts_with [] part
contains (c ∷ s) part = starts_with (c ∷ s) part || contains s part

-- "data 5xx", by its last three characters.
abbrev data_code : ℕ → ℕ → ℕ → Bytes
data_code x y z = 100 ∷ 97 ∷ 116 ∷ 97 ∷ 32 ∷ x ∷ y ∷ z ∷ []

abbrev bind_sub_status : List (Bytes × Explanation)
bind_sub_status =
    (data_code 53 50 101, wrong_password)
    ∷ (data_code 53 51 50, password_expired)
    ∷ (data_code 55 55 51, password_expired)
    ∷ (data_code 55 55 53, locked_out)
    ∷ (data_code 53 51 48, logon_time)
    ∷ (data_code 53 51 49, logon_host)
    ∷ (data_code 53 51 51, disabled)
    ∷ (data_code 55 48 49, account_expired)
    ∷ []

explain_by : List (Bytes × Explanation) → Bytes → Option Explanation
explain_by [] message = none
explain_by ((part, e) ∷ rest) message =
    if contains message part then some e else explain_by rest message

pub explain : RawError → Option Explanation
explain raw =
    if raw.result_code == 8
    then some channel_binding
    else explain_by bind_sub_status raw.diagnostic_message

-- A failure that carries no LDAP result.
abbrev pub no_result : AdError
no_result = record { kind = transport; code = 0; server_message = []; explanation = none }

abbrev pub annotate : Kind → ℕ → RawError → AdError
annotate kind code raw = record {
  kind = kind;
  code = code;
  server_message = raw.diagnostic_message;
  explanation = explain raw;
}

abbrev pub or_unknown : Option Kind → Kind
or_unknown none = unknown
or_unknown (some kind) = kind

-- adcore.ClassifyCode, the table of the Win32 codes, is a parameter.
module _ (classify_code : ℕ → Option Kind) where
  -- The kind and the code, from the Win32 code that was found, if any.
  pub kind_of : Option ℕ → ℕ → Kind × ℕ
  kind_of none result = (or_unknown (by_result_code result), 0)
  kind_of (some code) result = elim (classify_code code) [
    | some kind ↦ (kind, code)
    | none ↦ (or_unknown (by_result_code result), code)
  ]

  pub classify : Failure → AdError
  classify e = if e.context_error then no_result else elim e.raw [
    | none ↦ no_result
    | some raw ↦
        let found = kind_of (extract_win32_code raw.diagnostic_message) raw.result_code in
        annotate found.0 found.1 raw
  ]
