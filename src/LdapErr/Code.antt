-- ===== src/LdapErr/Code.antt =====
-- The eight hex digits of a Win32 code are read back.
use go_adldap.Base.{
  ℕ, zero, suc, ◌+◌, ◌*◌, ◌/◌, ◌%◌, ◌^◌, ◌<◌, ◌≡◌, refl, sym, ap, ◌∙◌, arith, Bool, true, false,
  some, [], ◌∷◌, ◌++◌, ltb, ltb-false, if◌then◌else◌, length, length-append, take, take-append,
}
use go_adldap.Base.Bytes.{Bytes, byte_at}
use go_adldap.LdapErr.{is_hex, all_hex, hex_value, parse_hex, extract_win32_code}

-- A number printed with a fixed count of hex digits, where a test says which places, counted from the
-- last, have a letter in lower case.
abbrev pub hex_digit : Bool → ℕ → ℕ
hex_digit lower d = if ltb d 10 then 48 + d else if lower then 87 + d else 55 + d

unfoldable pub hex_digits : (ℕ → Bool) → ℕ → ℕ → Bytes
hex_digits lower zero n = []
hex_digits lower (suc k) n =
    hex_digits (λ i. lower (suc i)) k (n / 16) ++ (hex_digit (lower 0) (n % 16) ∷ [])

abbrev shifted : (ℕ → Bool) → ℕ → Bool
shifted lower i = lower (suc i)

length-hex_digits : (lower : ℕ → Bool) (k n : ℕ) → length (hex_digits lower k n) ≡ k
unfolding hex_digits
length-hex_digits lower zero n = refl
length-hex_digits lower (suc k) n = omega (
  arith,
  length-append (hex_digits (shifted lower) k (n / 16)) (hex_digit (lower 0) (n % 16) ∷ []),
  length-hex_digits (shifted lower) k (n / 16),
)

hex_digit-lem :
    (b : Bool) (d : ℕ) → d < 16 → (is_hex (hex_digit b d) ≡ true) × (hex_value (hex_digit b d) ≡ d)
unfolding is_hex hex_value
hex_digit-lem true d h = (ground arith, ground arith)
hex_digit-lem false d h = (ground arith, ground arith)

all_hex-append :
    (a : Bytes) (c : ℕ) → all_hex a ≡ true → is_hex c ≡ true → all_hex (a ++ (c ∷ [])) ≡ true
unfolding all_hex
all_hex-append [] c h e = rw e refl
all_hex-append (x ∷ a) c h e = ground (arith, all_hex-append a c)

all_hex-hex_digits : (lower : ℕ → Bool) (k n : ℕ) → all_hex (hex_digits lower k n) ≡ true
unfolding hex_digits
all_hex-hex_digits lower zero n = unfold all_hex in refl
all_hex-hex_digits lower (suc k) n =
    all_hex-append (hex_digits (shifted lower) k (n / 16)) _
      (all_hex-hex_digits (shifted lower) k (n / 16))
      (hex_digit-lem (lower 0) (n % 16) (omega arith)).0

parse_hex-append :
    (v : ℕ) (a : Bytes) (c : ℕ) → parse_hex v (a ++ (c ∷ [])) ≡ 16 * parse_hex v a + hex_value c
unfolding parse_hex
parse_hex-append v [] c = refl
parse_hex-append v (x ∷ a) c = parse_hex-append (16 * v + hex_value x) a c

parse_hex-hex_digits :
    (lower : ℕ → Bool) (k n : ℕ) → n < 16 ^ k → parse_hex 0 (hex_digits lower k n) ≡ n
unfolding hex_digits
parse_hex-hex_digits lower zero n h = unfold parse_hex in omega arith
parse_hex-hex_digits lower (suc k) n h = omega (
  arith,
  parse_hex-append 0 (hex_digits (shifted lower) k (n / 16)) (hex_digit (lower 0) (n % 16)),
  parse_hex-hex_digits (shifted lower) k (n / 16) (omega arith),
  (hex_digit-lem (lower 0) (n % 16) (omega arith)).1,
)

get_or-append_mid : (a : Bytes) (c : ℕ) (rest : Bytes) → byte_at (a ++ (c ∷ rest)) (length a) ≡ c
get_or-append_mid [] c rest = refl
get_or-append_mid (x ∷ a) c rest = get_or-append_mid a c rest

extract_win32_code-append :
    (head rest : Bytes)
    → length head ≡ 8
    → all_hex head ≡ true
    → extract_win32_code (head ++ (58 ∷ rest)) ≡ some (parse_hex 0 head)
unfolding extract_win32_code
extract_win32_code-append head rest e hex =
    rw
      (
        ltb-false (length (head ++ (58 ∷ rest))) 9
            (omega (arith, length-append head (58 ∷ rest), e)),
        colon,
        front,
        hex,
      )
      refl
  where
    colon : byte_at (head ++ (58 ∷ rest)) 8 ≡ 58
    colon = ap (λ n. byte_at (head ++ (58 ∷ rest)) n) (sym e) ∙ get_or-append_mid head 58 rest

    front : take 8 (head ++ (58 ∷ rest)) ≡ head
    front = ap (λ n. take n (head ++ (58 ∷ rest))) (sym e) ∙ take-append head (58 ∷ rest)

-- A message that begins with the eight hex digits of a code of 32 bits, each letter in upper or in
-- lower case, and a colon gives that code.
pub extract_win32_code-hex_digits :
    (lower : ℕ → Bool) (code : ℕ) (rest : Bytes)
    → code < 2 ^ 32
    → extract_win32_code (hex_digits lower 8 code ++ (58 ∷ rest)) ≡ some code
extract_win32_code-hex_digits lower code rest h =
    extract_win32_code-append (hex_digits lower 8 code) rest (length-hex_digits lower 8 code)
      (all_hex-hex_digits lower 8 code)
    ∙ ap some (parse_hex-hex_digits lower 8 code (omega arith))
