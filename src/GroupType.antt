-- ===== src/GroupType.antt =====
-- internal/attrs/attrs.go: the groupType of a group, its scope and category, and its text on the wire.
pub mod Wire
pub mod Scope
mod Tests
use go_adldap.Base.{
  ℕ, zero, suc, ◌+◌, ◌*◌, ◌-◌, ◌/◌, ◌%◌, ◌^◌, Bool, true, false, not, ◌&&◌, ◌||◌, Option, none,
  some, List, [], ◌∷◌, ◌++◌, bit_and, bit_or, ltb, leb, ◌==◌, if◌then◌else◌, is_empty,
}
use go_adldap.Base.Bytes.{Bytes}
use go_adldap.Base.Text.{trim_left, trim_right, decimal}

abbrev pub group_type_global : ℕ
group_type_global = 0x00000002

abbrev pub group_type_domain_local : ℕ
group_type_domain_local = 0x00000004

abbrev pub group_type_universal : ℕ
group_type_universal = 0x00000008

abbrev pub group_type_security : ℕ
group_type_security = 0x80000000

abbrev pub group_type_scope_mask : ℕ
group_type_scope_mask =
    bit_or (bit_or group_type_global group_type_domain_local) group_type_universal

-- The values of adcore.GroupScope and adcore.GroupCategory that the package names.
pub data GroupScope : Type 0 where
  domain_local universal global : GroupScope

pub data GroupCategory : Type 0 where
  distribution security : GroupCategory

pub scope_and_category : ℕ → GroupScope × GroupCategory
scope_and_category v =
    let category = if not (bit_and v group_type_security == 0) then security else distribution in
    let scope_bits = bit_and v group_type_scope_mask in
    (
      if scope_bits == group_type_domain_local
          then domain_local
          else if scope_bits == group_type_universal
          then universal
          else global,
      category,
    )

scope_bit : GroupScope → ℕ
scope_bit domain_local = group_type_domain_local
scope_bit universal = group_type_universal
scope_bit global = group_type_global

pub group_type_value : GroupScope → GroupCategory → ℕ
unfolding scope_bit
group_type_value scope distribution = bit_or 0 (scope_bit scope)
group_type_value scope security = bit_or (bit_or 0 (scope_bit scope)) group_type_security

-- The signed value of 32 bits: ten digits are enough.
pub group_type_string : ℕ → Bytes
group_type_string v = if ltb v (2 ^ 31) then decimal 10 v else 45 ∷ decimal 10 (2 ^ 32 - v)

unfoldable pub is_digit : ℕ → Bool
is_digit c = leb 48 c && leb c 57

unfoldable pub all_digits : Bytes → Bool
all_digits [] = true
all_digits (c ∷ s) = is_digit c && all_digits s

unfoldable pub decimal_value : ℕ → Bytes → ℕ
decimal_value v [] = v
decimal_value v (c ∷ s) = decimal_value (10 * v + (c - 48)) s

-- strconv.ParseInt in base 10 with 64 bits, as uint32(int32(v)) of its value.
unfoldable pub magnitude : Bool → Bytes → Option ℕ
magnitude negative s =
    if is_empty s || not (all_digits s)
    then none
    else let n = decimal_value 0 s in
      if negative
      then if ltb (2 ^ 63) n then none else some ((2 ^ 32 - n % 2 ^ 32) % 2 ^ 32)
      else if leb (2 ^ 63) n
      then none
      else some (n % 2 ^ 32)

unfoldable pub parse_int : Bytes → Option ℕ
parse_int [] = none
parse_int (c ∷ s) =
    if c == 45
    then magnitude true s
    else if c == 43
    then magnitude false s
    else magnitude false (c ∷ s)

pub parse_group_type : Bytes → Option ℕ
parse_group_type s = parse_int (trim_right (trim_left s))
