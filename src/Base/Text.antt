-- ===== src/Base/Text.antt =====
-- What the package uses of Go's strings, on texts that are lists of ASCII codes.
use go_adldap.Base.Tests.{ltb, leb, ◌==◌, if◌then◌else◌, ==_refl}
use go_adldap.Base.Lists.{is_empty}
use go_adldap.Base.Bytes.{Bytes}
use Prim.Native.Nat.{ℕ, zero, suc, ◌+◌, ◌-◌, ◌/◌, ◌%◌}
use Prim.Native.Char.{code}
use Prim.Native.String.{String}
use mathlib.Core.Path.{◌≡◌, refl}
use native.Mathlib.Omega.{arith}
use mathlib.Core.Bool.{Bool, true, false, ◌&&◌, ◌||◌}
use mathlib.Core.List.{[], ◌∷◌, ◌++◌, map}

-- strings.TrimSpace, on ASCII text.
unfoldable pub is_space : ℕ → Bool
is_space c = c == 32 || (leb 9 c && leb c 13)

unfoldable pub trim_left : Bytes → Bytes
trim_left [] = []
trim_left (c ∷ s) = let rest = trim_left s in if is_space c then rest else c ∷ s

unfoldable pub trim_right : Bytes → Bytes
trim_right [] = []
trim_right (c ∷ s) = let rest = trim_right s in if is_empty rest && is_space c then [] else c ∷ rest

-- strings.HasPrefix.
unfoldable pub starts_with : Bytes → Bytes → Bool
starts_with s [] = true
starts_with [] (x ∷ prefix) = false
starts_with (c ∷ s) (x ∷ prefix) = c == x && starts_with s prefix

-- strings.ToUpper.
unfoldable pub upper : ℕ → ℕ
upper c = if leb 97 c && leb c 122 then c - 32 else c

unfoldable pub to_upper : Bytes → Bytes
to_upper s = map upper s

-- strconv.FormatInt in base 10, on a number of at most `fuel` digits.
unfoldable pub decimal : ℕ → ℕ → Bytes
decimal zero n = []
decimal (suc fuel) n =
    let rest = decimal fuel (n / 10) in
    if ltb n 10 then (48 + n) ∷ [] else rest ++ ((48 + n % 10) ∷ [])

-- strings.ToLower.
unfoldable pub lower : ℕ → ℕ
lower c = if leb 65 c && leb c 90 then c + 32 else c

unfoldable pub to_lower : Bytes → Bytes
to_lower s = map lower s

-- `a == b` on strings.
unfoldable pub same_text : Bytes → Bytes → Bool
same_text [] [] = true
same_text (x ∷ a) (y ∷ b) = x == y && same_text a b
same_text a b = false

-- strings.EqualFold.
abbrev pub equal_fold : Bytes → Bytes → Bool
equal_fold a b = same_text (to_lower a) (to_lower b)

-- A text of the source, by its codes.
abbrev pub codes : String → Bytes
codes String.[] = []
codes (String.◌∷◌ c s) = code c ∷ codes s

pub same_text_eq : (a b : Bytes) → same_text a b ≡ true → a ≡ b
unfolding same_text
same_text_eq [] [] h = refl
same_text_eq (x ∷ a) (y ∷ b) h = ground (arith, same_text_eq a b)
same_text_eq [] (y ∷ b) h = cc
same_text_eq (x ∷ a) [] h = cc

pub same_text_refl : (a : Bytes) → same_text a a ≡ true
unfolding same_text
same_text_refl [] = refl
same_text_refl (x ∷ a) = rw (==_refl x, same_text_refl a)
