-- ===== src/Guid.antt =====
-- internal/attrs/attrs.go: the text of an objectGUID, GUIDToString and GUIDToBytes.
pub mod Digits
pub mod RoundTrip
mod Tests
use go_adldap.Base.{
  ℕ, zero, suc, ◌+◌, ◌*◌, ◌-◌, ◌/◌, ◌%◌, not, ◌&&◌, Option, none, some, [], ◌∷◌, ◌++◌, ltb, leb,
  ◌==◌, if◌then◌else◌, length, filter,
}
use go_adldap.Base.Bytes.{Bytes, byte_at, slice, get_u16, get_u32}
use go_adldap.Base.Text.{trim_left, trim_right}

-- One hex digit in lower case.
abbrev pub hex_digit : ℕ → ℕ
hex_digit d = if ltb d 10 then 48 + d else 87 + d

-- `%0kx`, on a number of at most k digits.
unfoldable pub hex_number : ℕ → ℕ → Bytes
hex_number zero n = []
hex_number (suc k) n = hex_number k (n / 16) ++ (hex_digit (n % 16) ∷ [])

-- `%x` on a byte slice.
unfoldable pub hex_bytes : Bytes → Bytes
hex_bytes [] = []
hex_bytes (b ∷ rest) = hex_digit (b / 16) ∷ hex_digit (b % 16) ∷ hex_bytes rest

-- binary.BigEndian.Uint16.
abbrev pub get_u16_be : Bytes → ℕ
get_u16_be b = byte_at b 1 + byte_at b 0 * 256

abbrev pub guid_text : Bytes → Bytes
guid_text b =
    hex_number 8 (get_u32 (slice b 0 4))
    ++ (45
        ∷ (hex_number 4 (get_u16 (slice b 4 6))
            ++ (45
                ∷ (hex_number 4 (get_u16 (slice b 6 8))
                    ++ (45
                        ∷ (hex_number 4 (get_u16_be (slice b 8 10))
                            ++ (45 ∷ hex_bytes (slice b 10 16))))))))

unfoldable pub guid_to_string : Bytes → Option Bytes
guid_to_string b = if not (length b == 16) then none else some (guid_text b)

-- strconv.ParseUint in base 16 of one digit.
unfoldable pub hex_value : ℕ → Option ℕ
hex_value c =
    if leb 48 c && leb c 57
    then some (c - 48)
    else if leb 97 c && leb c 102
    then some (c - 87)
    else if leb 65 c && leb c 70
    then some (c - 55)
    else none

abbrev pub two_digits : Option ℕ → Option ℕ → Option Bytes → Option Bytes
two_digits (some hi) (some lo) (some flat) = some ((hi * 16 + lo) ∷ flat)
two_digits hi lo flat = none

-- The loop over the pairs of digits.
unfoldable pub parse_pairs : Bytes → Option Bytes
parse_pairs [] = some []
parse_pairs (c ∷ []) = none
parse_pairs (c ∷ d ∷ rest) = two_digits (hex_value c) (hex_value d) (parse_pairs rest)

-- The first three fields are turned around.
abbrev pub swap_fields : Bytes → Bytes
swap_fields flat =
    byte_at flat 3
    ∷ byte_at flat 2
    ∷ byte_at flat 1
    ∷ byte_at flat 0
    ∷ byte_at flat 5
    ∷ byte_at flat 4
    ∷ byte_at flat 7
    ∷ byte_at flat 6
    ∷ slice flat 8 16

abbrev pub swapped : Option Bytes → Option Bytes
swapped none = none
swapped (some flat) = some (swap_fields flat)

abbrev pub without_dashes : Bytes → Bytes
without_dashes s = filter (λ c. not (c == 45)) s

unfoldable pub guid_to_bytes : Bytes → Option Bytes
guid_to_bytes s =
    let hexs = without_dashes (trim_right (trim_left s)) in
    if not (length hexs == 32) then none else swapped (parse_pairs hexs)
