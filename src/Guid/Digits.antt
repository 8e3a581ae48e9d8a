-- ===== src/Guid/Digits.antt =====
-- The hex digits of a GUID's text, and what is read from them.
use go_adldap.Base.{
  ℕ, suc, ◌+◌, ◌*◌, ◌/◌, ◌%◌, ◌<◌, ◌≡◌, refl, sym, ap, ap₂, ◌∙◌, arith, false, ◌&&◌, some, [], ◌∷◌,
  ◌++◌, append_assoc, append-nil, ◌==◌, if◌then◌else◌, is_empty, All, All-append,
}
use go_adldap.Base.Bytes.{Bytes, IsByte}
use go_adldap.Base.Text.{is_space, trim_left, trim_right}
use go_adldap.Guid.{hex_digit, hex_number, hex_bytes, hex_value, parse_pairs, without_dashes}

hex_value-hex_digit : (d : ℕ) → d < 16 → hex_value (hex_digit d) ≡ some d
unfolding hex_value
hex_value-hex_digit d h = ground arith

pub parse_pairs-hex_bytes : (b : Bytes) → All IsByte b → parse_pairs (hex_bytes b) ≡ some b
unfolding parse_pairs hex_bytes
parse_pairs-hex_bytes [] h = refl
parse_pairs-hex_bytes (x ∷ b) (small, h) =
    rw
      (
        hex_value-hex_digit (x / 16) (omega arith),
        hex_value-hex_digit (x % 16) (omega arith),
        parse_pairs-hex_bytes b h,
      )
      (ap (λ n. some (n ∷ b)) (omega arith))

hex_bytes-append : (a b : Bytes) → hex_bytes (a ++ b) ≡ hex_bytes a ++ hex_bytes b
unfolding hex_bytes
hex_bytes-append [] b = refl
hex_bytes-append (x ∷ a) b =
    ap (λ l. hex_digit (x / 16) ∷ hex_digit (x % 16) ∷ l) (hex_bytes-append a b)

-- The last two digits are a byte.
hex_number_byte :
    (k n : ℕ) → hex_number (suc (suc k)) n ≡ hex_number k (n / 256) ++ hex_bytes (n % 256 ∷ [])
unfolding hex_number hex_bytes
hex_number_byte k n =
    append_assoc (hex_number k (n / 16 / 16)) (hex_digit (n / 16 % 16) ∷ [])
      (hex_digit (n % 16) ∷ [])
    ∙ same (n / 16 / 16) (n / 256) (n / 16 % 16) (n % 256 / 16) (n % 16) (n % 256 % 16)
        (omega arith) (omega arith) (omega arith)
  where
    same :
        (a b c d e f : ℕ)
        → a ≡ b
        → c ≡ d
        → e ≡ f
        → hex_number k a ++ (hex_digit c ∷ hex_digit e ∷ [])
          ≡ hex_number k b ++ (hex_digit d ∷ hex_digit f ∷ [])
    same a b c d e f p q r = rw (p, q, r) refl

-- What neither trimming touches.
abbrev pub IsSolid : ℕ → Type 0
IsSolid c = is_space c ≡ false

hex_digit-IsSolid : (d : ℕ) → d < 16 → IsSolid (hex_digit d)
unfolding is_space
hex_digit-IsSolid d h = ground arith

hex_digit_no_dash : (d : ℕ) → d < 16 → (hex_digit d == 45) ≡ false
hex_digit_no_dash d h = ground arith

pub hex_bytes-IsSolid : (b : Bytes) → All IsByte b → All IsSolid (hex_bytes b)
unfolding hex_bytes
hex_bytes-IsSolid [] h = tt
hex_bytes-IsSolid (x ∷ b) (small, h) = (
  hex_digit-IsSolid (x / 16) (omega arith),
  (hex_digit-IsSolid (x % 16) (omega arith), hex_bytes-IsSolid b h),
)

pub trim_left-IsSolid : (s : Bytes) → All IsSolid s → trim_left s ≡ s
unfolding trim_left
trim_left-IsSolid [] h = refl
trim_left-IsSolid (c ∷ s) (solid, h) = rw solid refl

pub trim_right-IsSolid : (s : Bytes) → All IsSolid s → trim_right s ≡ s
unfolding trim_right
trim_right-IsSolid [] h = refl
trim_right-IsSolid (c ∷ s) (solid, h) = rw (trim_right-IsSolid s h, solid) (by_rest s)
  where
    by_rest : (l : Bytes) → (if is_empty l && false then [] else c ∷ l) ≡ c ∷ l
    by_rest [] = refl
    by_rest (x ∷ l) = refl

without_dashes-hex_bytes :
    (b rest : Bytes)
    → All IsByte b
    → without_dashes (hex_bytes b ++ rest) ≡ hex_bytes b ++ without_dashes rest
unfolding hex_bytes
without_dashes-hex_bytes [] rest h = refl
without_dashes-hex_bytes (x ∷ b) rest (small, h) =
    rw
      (
        hex_digit_no_dash (x / 16) (omega arith),
        hex_digit_no_dash (x % 16) (omega arith),
        without_dashes-hex_bytes b rest h,
      )
      refl

hex_step :
    (k n q r : ℕ) (b : Bytes)
    → n ≡ r + q * 256
    → r < 256
    → hex_number k q ≡ hex_bytes b
    → hex_number (suc (suc k)) n ≡ hex_bytes (b ++ (r ∷ []))
hex_step k n q r b parts small h =
    let high : n / 256 ≡ q = omega arith in
    let low : n % 256 ≡ r = omega arith in
    hex_number_byte k n
    ∙ ap₂ (λ i j. hex_number k i ++ hex_bytes (j ∷ [])) high low
    ∙ ap (λ l. l ++ hex_bytes (r ∷ [])) h
    ∙ sym (hex_bytes-append b (r ∷ []))

hex_none : hex_number 0 0 ≡ hex_bytes []
unfolding hex_number hex_bytes
hex_none = refl

pub field-IsSolid :
    (b rest : Bytes) → All IsByte b → All IsSolid rest → All IsSolid (hex_bytes b ++ (45 ∷ rest))
unfolding is_space
field-IsSolid b rest h solid =
    All-append IsSolid (hex_bytes b) (45 ∷ rest) (hex_bytes-IsSolid b h) (refl, solid)

pub dash_step :
    (b rest l : Bytes)
    → All IsByte b
    → without_dashes rest ≡ hex_bytes l
    → without_dashes (hex_bytes b ++ (45 ∷ rest)) ≡ hex_bytes (b ++ l)
dash_step b rest l h k =
    without_dashes-hex_bytes b (45 ∷ rest) h
    ∙ ap (λ m. hex_bytes b ++ m) k
    ∙ sym (hex_bytes-append b l)

pub no_dash : (b : Bytes) → All IsByte b → without_dashes (hex_bytes b) ≡ hex_bytes b
no_dash b h =
    ap without_dashes (sym (append-nil (hex_bytes b)))
    ∙ without_dashes-hex_bytes b [] h
    ∙ append-nil (hex_bytes b)

pub hex_u16 : (a b : ℕ) → a < 256 → b < 256 → hex_number 4 (a + b * 256) ≡ hex_bytes (b ∷ a ∷ [])
hex_u16 a b ha hb =
    hex_step 2 (a + b * 256) b a (b ∷ []) refl ha (hex_step 0 b 0 b [] (omega arith) hb hex_none)

pub hex_u32 :
    (a b c d : ℕ)
    → a < 256
    → b < 256
    → c < 256
    → d < 256
    → hex_number 8 (a + b * 256 + c * 65536 + d * 16777216) ≡ hex_bytes (d ∷ c ∷ b ∷ a ∷ [])
hex_u32 a b c d ha hb hc hd =
    hex_step 6 _ (b + c * 256 + d * 65536) a (d ∷ c ∷ b ∷ []) (omega arith) ha
      (hex_step 4 _ (c + d * 256) b (d ∷ c ∷ []) (omega arith) hb (hex_u16 c d hc hd))
