-- ===== src/FileTime.antt =====
-- internal/attrs/attrs.go: FILETIME attributes. An int64 is a number below 2 ^ 64, in two's complement,
-- and a time of Go's library is the int64 of its nanoseconds since the Unix epoch.
pub mod RoundTrip
mod Tests
use go_adldap.Base.{
  ℕ, ◌+◌, ◌-◌, ◌*◌, ◌/◌, ◌%◌, ◌^◌, Bool, true, false, not, ◌||◌, Option, none, some, [], ◌∷◌, ltb,
  leb, ◌==◌, if◌then◌else◌, is_empty,
}
use go_adldap.Base.Bytes.{Bytes}
use go_adldap.Base.Text.{decimal}
use go_adldap.GroupType.{all_digits, decimal_value}

abbrev pub file_time_never : ℕ
file_time_never = 0x7FFFFFFFFFFFFFFF

abbrev pub file_time_epoch_offset : ℕ
file_time_epoch_offset = 116444736000000000

-- strconv.ParseInt in base 10 with 64 bits.
unfoldable pub magnitude64 : Bool → Bytes → Option ℕ
magnitude64 negative s =
    if is_empty s || not (all_digits s)
    then none
    else let n = decimal_value 0 s in
      if negative
      then if ltb (2 ^ 63) n then none else some ((2 ^ 64 - n) % 2 ^ 64)
      else if leb (2 ^ 63) n
      then none
      else some n

unfoldable pub parse_int64 : Bytes → Option ℕ
parse_int64 [] = none
parse_int64 (c ∷ s) =
    if c == 45
    then magnitude64 true s
    else if c == 43
    then magnitude64 false s
    else magnitude64 false (c ∷ s)

-- strconv.FormatInt in base 10.
unfoldable pub format_int64 : ℕ → Bytes
format_int64 w = if ltb w (2 ^ 63) then decimal 20 w else 45 ∷ decimal 20 (2 ^ 64 - w)

-- None for a time that is never.
abbrev pub time_of : Option ℕ → Option (Option ℕ)
time_of none = none
time_of (some v) =
    if v == 0 || v == file_time_never
    then some none
    else some (some ((v + (2 ^ 64 - file_time_epoch_offset)) % 2 ^ 64 * 100 % 2 ^ 64))

unfoldable pub file_time_to_time : Bytes → Option (Option ℕ)
file_time_to_time s = if is_empty s then some none else time_of (parse_int64 s)

-- A quotient of int64 goes towards zero.
unfoldable pub div_int64 : ℕ → ℕ → ℕ
div_int64 w d = if ltb w (2 ^ 63) then w / d else (2 ^ 64 - (2 ^ 64 - w) / d) % 2 ^ 64

unfoldable pub time_to_file_time : ℕ → Bytes
time_to_file_time t = format_int64 ((div_int64 t 100 + file_time_epoch_offset) % 2 ^ 64)
