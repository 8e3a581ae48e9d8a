-- ===== src/Sid.antt =====
-- internal/attrs/attrs.go: the text of an objectSid, SIDToString and SIDFromString.
use go_adldap.Base.{
  ℕ, zero, suc, ◌+◌, ◌*◌, ◌-◌, ◌/◌, ◌%◌, ◌^◌, Bool, true, not, ◌&&◌, ◌||◌, Option, none, some, List,
  [], ◌∷◌, ◌++◌, ltb, leb, ◌==◌, if◌then◌else◌, length, is_empty,
}
use go_adldap.Base.Bytes.{Bytes, byte_at, slice, get_u32, u32_bytes}
use go_adldap.Base.Text.{trim_left, trim_right, decimal, equal_fold, codes}

-- The loop over the six bytes of the identifier authority.
unfoldable pub big_endian : ℕ → Bytes → ℕ
big_endian v [] = v
big_endian v (x ∷ b) = big_endian (v * 256 + x) b

-- The loop over the sub-authorities, of which `n` are left, the next one at `off`; 20 digits are
-- enough for 64 bits.
unfoldable pub subs_text : ℕ → Bytes → ℕ → Bytes
subs_text zero b off = []
subs_text (suc n) b off =
    45 ∷ (decimal 20 (get_u32 (slice b off (off + 4))) ++ subs_text n b (off + 4))

unfoldable pub sid_to_string : Bytes → Option Bytes
sid_to_string b =
    if ltb (length b) 8
    then none
    else if not (length b == 8 + 4 * byte_at b 1)
    then none
    else some (
        codes "S-"
        ++ (decimal 20 (byte_at b 0)
            ++ (45 ∷ (decimal 20 (big_endian 0 (slice b 2 8)) ++ subs_text (byte_at b 1) b 8))))

abbrev pub cons_part : ℕ → List Bytes → List Bytes
cons_part c [] = (c ∷ []) ∷ []
cons_part c (part ∷ parts) = (c ∷ part) ∷ parts

-- strings.Split at the dashes.
unfoldable pub split_dashes : Bytes → List Bytes
split_dashes [] = [] ∷ []
split_dashes (c ∷ s) =
    let parts = split_dashes s in if c == 45 then [] ∷ parts else cons_part c parts

unfoldable pub all_decimal : Bytes → Bool
all_decimal [] = true
all_decimal (c ∷ s) = leb 48 c && leb c 57 && all_decimal s

unfoldable pub decimal_from : ℕ → Bytes → ℕ
decimal_from v [] = v
decimal_from v (c ∷ s) = decimal_from (10 * v + (c - 48)) s

-- strconv.ParseUint in base 10, with a width.
unfoldable pub parse_uint : ℕ → Bytes → Option ℕ
parse_uint width s =
    if is_empty s || not (all_decimal s)
    then none
    else if leb (2 ^ width) (decimal_from 0 s)
    then none
    else some (decimal_from 0 s)

abbrev append_sub : Option ℕ → Option Bytes → Option Bytes
append_sub (some v) (some rest) = some (u32_bytes v ++ rest)
append_sub v rest = none

-- The loop over the parts of the sub-authorities.
unfoldable pub parse_subs : List Bytes → Option Bytes
parse_subs [] = some []
parse_subs (sub ∷ subs) = append_sub (parse_uint 32 sub) (parse_subs subs)

abbrev pub authority_bytes : ℕ → Bytes
authority_bytes a =
    a / 2 ^ 40 % 256
    ∷ a / 2 ^ 32 % 256
    ∷ a / 2 ^ 24 % 256
    ∷ a / 2 ^ 16 % 256
    ∷ a / 2 ^ 8 % 256
    ∷ a % 256
    ∷ []

abbrev sid_bytes : Option ℕ → Option ℕ → ℕ → Option Bytes → Option Bytes
sid_bytes (some revision) (some authority) count (some subs) =
    some (revision ∷ count ∷ (authority_bytes authority ++ subs))
sid_bytes revision authority count subs = none

unfoldable pub parse_parts : List Bytes → Option Bytes
parse_parts (s ∷ revision ∷ authority ∷ subs) =
    if not (equal_fold s (codes "S")) || ltb 15 (length subs)
    then none
    else sid_bytes (parse_uint 8 revision) (parse_uint 48 authority) (length subs) (parse_subs subs)
parse_parts parts = none

unfoldable pub sid_from_string : Bytes → Option Bytes
sid_from_string s = parse_parts (split_dashes (trim_right (trim_left s)))
